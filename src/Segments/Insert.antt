-- ===== src/Segments/Insert.antt =====
-- Sorting new pieces into a list and coalescing neighbours keep every byte in its place.
use packet_inspector_windows.Prelude.{
  ℕ, ◌+◌, ◌-◌, ◌<◌, ◌≤◌, ◌≡◌, refl, ◌∙◌, sym, ap, inl, inr, Option, List, [], ◌∷◌, ◌++◌, arith, leb,
  ◌==◌, length, or_else, length-append, Bool-cases, get_elem?-append, get_elem?_out,
}
use packet_inspector_windows.Segments.{
  Segment, end_of, total_bytes, uncovered, insert_by_start, sort_by_start, merge_from, merge_sorted,
  merge_adjacent,
}
use packet_inspector_windows.Segments.Cover.{
  byte_in, byte_at, covers, byte_in_uncovered, first_seen_wins,
}
use packet_inspector_windows.Segments.Order.{
  Above, Clear, AllClear, Above-lower, Clear-append, Clear-Above, Above-uncovered,
  AllClear-uncovered,
}

or_else_assoc : (o p q : Option ℕ) → or_else (or_else o p) q ≡ or_else o (or_else p q)
or_else_assoc o p q = ground arith

module _ {ℓ} {A : Type ℓ} where
  pub Above-insert :
      (lo : ℕ) (s : Segment A) (ss : List (Segment A))
      → Above lo ss
      → lo ≤ s.start
      → 0 < length s.bytes
      → Clear s ss
      → Above lo (insert_by_start s ss)
  unfolding insert_by_start
  Above-insert lo s [] a h p c = (h, p, tt)
  Above-insert lo s (t ∷ ts) a h p c = elim (Bool-cases (leb s.start t.start)) [
    | inl before ↦ rw before (h, p, (ground arith, a.1, a.2))
    | inr after ↦ rw after (a.0, a.1, Above-insert (end_of t) s ts a.2 (ground arith) p c.1)
  ]

  Clear-insert :
      (s t : Segment A) (ss : List (Segment A)) → Clear s (t ∷ ss) → Clear s (insert_by_start t ss)
  unfolding insert_by_start
  Clear-insert s t [] c = c
  Clear-insert s t (x ∷ ss) c = elim (Bool-cases (leb t.start x.start)) [
    | inl before ↦ rw before c
    | inr after ↦ rw after (c.1.0, Clear-insert s t ss (c.0, c.1.1))
  ]

  Clear-sort : (s : Segment A) (ss : List (Segment A)) → Clear s ss → Clear s (sort_by_start ss)
  unfolding sort_by_start
  Clear-sort s [] c = tt
  Clear-sort s (t ∷ ts) c = Clear-insert s t (sort_by_start ts) (c.0, Clear-sort s ts c.1)

  or_else_swap :
      (s t : Segment A) (i : ℕ) (o : Option ℕ)
      → Clear s (t ∷ [])
      → or_else (byte_in s i) (or_else (byte_in t i) o)
        ≡ or_else (byte_in t i) (or_else (byte_in s i) o)
  or_else_swap s t i o c = elim (Bool-cases (covers s i)) [
    | inl here ↦ rw (byte_in_uncovered t i (ground arith))
    | inr away ↦ rw (byte_in_uncovered s i away)
  ]

  byte_at-insert :
      (s : Segment A) (ss : List (Segment A)) (i : ℕ)
      → Clear s ss
      → byte_at (insert_by_start s ss) i ≡ or_else (byte_in s i) (byte_at ss i)
  unfolding insert_by_start byte_at
  byte_at-insert s [] i c = refl
  byte_at-insert s (t ∷ ts) i c = elim (Bool-cases (leb s.start t.start)) [
    | inl before ↦ rw before
    | inr after ↦
        rw (after, byte_at, byte_at-insert s ts i c.1)
          (sym (or_else_swap s t i (byte_at ts i) (c.0, tt)))
  ]

  total_bytes-insert :
      (s : Segment A) (ss : List (Segment A))
      → total_bytes (insert_by_start s ss) ≡ length s.bytes + total_bytes ss
  unfolding insert_by_start
  total_bytes-insert s [] = refl
  total_bytes-insert s (t ∷ ts) = ground (arith, total_bytes-insert s ts)

  length-insert :
      (s : Segment A) (ss : List (Segment A)) → length (insert_by_start s ss) ≡ length ss + 1
  unfolding insert_by_start
  length-insert s [] = refl
  length-insert s (t ∷ ts) = ground (arith, length-insert s ts)

  pub total_bytes-sort : (ss : List (Segment A)) → total_bytes (sort_by_start ss) ≡ total_bytes ss
  unfolding sort_by_start
  total_bytes-sort [] = refl
  total_bytes-sort (s ∷ ss) =
      omega (arith, total_bytes-insert s (sort_by_start ss), total_bytes-sort ss)

  pub length-sort : (ss : List (Segment A)) → length (sort_by_start ss) ≡ length ss
  unfolding sort_by_start
  length-sort [] = refl
  length-sort (s ∷ ss) = omega (arith, length-insert s (sort_by_start ss), length-sort ss)

  pub total_bytes-append :
      (ss ts : List (Segment A)) → total_bytes (ss ++ ts) ≡ total_bytes ss + total_bytes ts
  total_bytes-append [] ts = omega arith
  total_bytes-append (s ∷ ss) ts = omega (arith, total_bytes-append ss ts)

  insert-Above :
      (s : Segment A) (ss : List (Segment A)) → Above (end_of s) ss → insert_by_start s ss ≡ s ∷ ss
  unfolding insert_by_start
  insert-Above s [] a = refl
  insert-Above s (t ∷ ts) a = ground arith

  sort-Above : (lo : ℕ) (ss : List (Segment A)) → Above lo ss → sort_by_start ss ≡ ss
  unfolding sort_by_start
  sort-Above lo [] a = refl
  sort-Above lo (s ∷ ss) a = rw (sort-Above (end_of s) ss a.2) (insert-Above s ss a.2)

  -- New pieces, clear of what is there, are sorted in.
  pub Above-sort :
      (lo : ℕ) (ss ts : List (Segment A))
      → Above lo ss
      → Above lo ts
      → AllClear ss ts
      → Above lo (sort_by_start (ss ++ ts))
  unfolding sort_by_start
  Above-sort lo [] ts a b c = rw (sort-Above lo ts b) b
  Above-sort lo (s ∷ ss) ts a b c =
      let later = Above-lower lo (end_of s) ss (omega arith) a.2 in
      let clear = Clear-append s ss ts (Clear-Above s (end_of s) ss (omega arith) a.2) c.0 in
      Above-insert lo s (sort_by_start (ss ++ ts)) (Above-sort lo ss ts later b c.1) a.0 a.1
        (Clear-sort s (ss ++ ts) clear)

  pub byte_at-sort :
      (lo : ℕ) (ss ts : List (Segment A)) (i : ℕ)
      → Above lo ss
      → Above lo ts
      → AllClear ss ts
      → byte_at (sort_by_start (ss ++ ts)) i ≡ byte_at (ss ++ ts) i
  unfolding sort_by_start byte_at
  byte_at-sort lo [] ts i a b c = rw (sort-Above lo ts b)
  byte_at-sort lo (s ∷ ss) ts i a b c =
      let later = Above-lower lo (end_of s) ss (omega arith) a.2 in
      let clear = Clear-append s ss ts (Clear-Above s (end_of s) ss (omega arith) a.2) c.0 in
      byte_at-insert s (sort_by_start (ss ++ ts)) i (Clear-sort s (ss ++ ts) clear)
      ∙ ap (or_else (byte_in s i)) (byte_at-sort lo ss ts i later b c.1)

  -- Two neighbours as one.
  byte_in-join :
      (s t : Segment A) (i : ℕ)
      → end_of s ≡ t.start
      → byte_in (record s { bytes = s.bytes ++ t.bytes }) i ≡ or_else (byte_in s i) (byte_in t i)
  byte_in-join s t i e = elim (Bool-cases (covers s i)) [
    | inl here ↦
        rw (byte_in_uncovered t i (ground arith))
          (unfold byte_in in ground (arith, get_elem?-append s.bytes t.bytes (i - s.start)))
    | inr away ↦ rw (byte_in_uncovered s i away) (
        unfold byte_in in
        ground (
          arith,
          get_elem?-append s.bytes t.bytes (i - s.start),
          get_elem?_out s.bytes (i - s.start),
        ))
  ]

  byte_at-merge_from :
      (previous : Segment A) (rest : List (Segment A)) (i : ℕ)
      → byte_at (merge_from previous rest) i ≡ byte_at (previous ∷ rest) i
  unfolding merge_from byte_at
  byte_at-merge_from previous [] i = refl
  byte_at-merge_from previous (item ∷ rest) i = ground (
    arith,
    byte_at-merge_from (record previous { bytes = previous.bytes ++ item.bytes }) rest i,
    byte_at-merge_from item rest i,
    byte_in-join previous item i,
    or_else_assoc (byte_in previous i) (byte_in item i) (byte_at rest i),
  )

  Above-merge_from :
      (lo : ℕ) (previous : Segment A) (rest : List (Segment A))
      → Above lo (previous ∷ rest)
      → Above lo (merge_from previous rest)
  unfolding merge_from
  Above-merge_from lo previous [] a = a
  Above-merge_from lo previous (item ∷ rest) a = elim (Bool-cases (end_of previous == item.start)) [
    | inl touch ↦ rw touch (
        Above-merge_from lo (record previous { bytes = previous.bytes ++ item.bytes }) rest
          (
            a.0,
            omega (arith, length-append previous.bytes item.bytes),
            Above-lower _ (end_of item) rest
                (ground (arith, length-append previous.bytes item.bytes)) a.2.2,
          ))
    | inr apart ↦ rw apart (a.0, a.1, Above-merge_from (end_of previous) item rest a.2)
  ]

  total_bytes-merge_from :
      (previous : Segment A) (rest : List (Segment A))
      → total_bytes (merge_from previous rest) ≡ total_bytes (previous ∷ rest)
  unfolding merge_from
  total_bytes-merge_from previous [] = refl
  total_bytes-merge_from previous (item ∷ rest) = ground (
    arith,
    total_bytes-merge_from (record previous { bytes = previous.bytes ++ item.bytes }) rest,
    total_bytes-merge_from item rest,
    length-append previous.bytes item.bytes,
  )

  merge_adjacent-eq-merge_sorted :
      (ss : List (Segment A)) → merge_adjacent ss ≡ merge_sorted (sort_by_start ss)
  unfolding merge_adjacent merge_sorted merge_from sort_by_start insert_by_start
  merge_adjacent-eq-merge_sorted [] = refl
  merge_adjacent-eq-merge_sorted (s ∷ []) = refl
  merge_adjacent-eq-merge_sorted (s ∷ t ∷ ss) = ground arith

  Above-merge_sorted : (lo : ℕ) (ss : List (Segment A)) → Above lo ss → Above lo (merge_sorted ss)
  unfolding merge_sorted
  Above-merge_sorted lo [] a = tt
  Above-merge_sorted lo (s ∷ ss) a = Above-merge_from lo s ss a

  byte_at-merge_sorted :
      (ss : List (Segment A)) (i : ℕ) → byte_at (merge_sorted ss) i ≡ byte_at ss i
  unfolding merge_sorted
  byte_at-merge_sorted [] i = refl
  byte_at-merge_sorted (s ∷ ss) i = byte_at-merge_from s ss i

  pub total_bytes-merge_adjacent :
      (ss : List (Segment A)) → total_bytes (merge_adjacent ss) ≡ total_bytes ss
  total_bytes-merge_adjacent ss =
      rw (merge_adjacent-eq-merge_sorted ss) (sorted (sort_by_start ss) ∙ total_bytes-sort ss)
    where
      sorted : (ts : List (Segment A)) → total_bytes (merge_sorted ts) ≡ total_bytes ts
      sorted [] = unfold merge_sorted in refl
      sorted (t ∷ ts) = unfold merge_sorted in total_bytes-merge_from t ts

  -- Filing new bytes among the old: sorted and apart, and first-seen bytes win.
  pub Above-merge_adjacent :
      (lo : ℕ) (new : Segment A) (existing : List (Segment A))
      → lo ≤ new.start
      → Above lo existing
      → Above lo (merge_adjacent (existing ++ uncovered new existing))
  Above-merge_adjacent lo new existing h a =
      rw (merge_adjacent-eq-merge_sorted (existing ++ uncovered new existing)) (
        Above-merge_sorted lo _ (
          Above-sort lo existing (uncovered new existing) a
            (Above-lower lo new.start _ h (Above-uncovered new existing))
            (AllClear-uncovered new existing)))

  -- Filing a segment in an ordered list that starts no later: the merged list holds at each position
  -- the byte that was stored there, and else the byte of the new segment.
  pub byte_at-merge_adjacent :
      (lo : ℕ) (new : Segment A) (existing : List (Segment A)) (i : ℕ)
      → lo ≤ new.start
      → Above lo existing
      → byte_at (merge_adjacent (existing ++ uncovered new existing)) i
        ≡ or_else (byte_at existing i) (byte_in new i)
  byte_at-merge_adjacent lo new existing i h a =
      rw (merge_adjacent-eq-merge_sorted (existing ++ uncovered new existing)) (
        byte_at-merge_sorted (sort_by_start (existing ++ uncovered new existing)) i
        ∙ byte_at-sort lo existing (uncovered new existing) i a
            (Above-lower lo new.start _ h (Above-uncovered new existing))
            (AllClear-uncovered new existing)
        ∙ first_seen_wins new existing i)
