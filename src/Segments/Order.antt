-- ===== src/Segments/Order.antt =====
-- Sorted lists of segments that do not overlap, and segments that keep clear of one another.
use packet_inspector_windows.Prelude.{
  ℕ, ◌+◌, ◌-◌, ◌<◌, ◌≤◌, ◌⊎◌, inl, inr, List, [], ◌∷◌, ◌++◌, arith, ltb, length, take, drop,
  length-take, length-drop, Bool-cases,
}
use packet_inspector_windows.Segments.{Segment, end_of, cut, cut_all, uncovered_loop, uncovered}
use packet_inspector_windows.Segments.Cover.{uncovered_loop-cut_all}

module _ {ℓ} {A : Type ℓ} where
  -- Not empty, in order, apart, and from `lo` on.
  abbrev pub Above : ℕ → List (Segment A) → Type 0
  Above lo [] = Unit {0}
  Above lo (s ∷ ss) = (lo ≤ s.start) × (0 < length s.bytes) × Above (end_of s) ss

  -- Every segment of a list ends at or before `hi`.
  abbrev pub Within : ℕ → List (Segment A) → Type 0
  Within hi [] = Unit {0}
  Within hi (s ∷ ss) = (end_of s ≤ hi) × Within hi ss

  -- `s` shares no position with a segment of the list.
  abbrev pub Clear : Segment A → List (Segment A) → Type 0
  Clear s [] = Unit {0}
  Clear s (t ∷ ts) = ((end_of s ≤ t.start) ⊎ (end_of t ≤ s.start)) × Clear s ts

  -- Every segment of the first list is clear of the second.
  abbrev pub AllClear : List (Segment A) → List (Segment A) → Type 0
  AllClear [] ts = Unit {0}
  AllClear (s ∷ ss) ts = Clear s ts × AllClear ss ts

  pub Above-lower : (lo hi : ℕ) (ss : List (Segment A)) → lo ≤ hi → Above hi ss → Above lo ss
  Above-lower lo hi [] h a = tt
  Above-lower lo hi (s ∷ ss) h a = (omega arith, a.1, a.2)

  pub Clear-append :
      (s : Segment A) (ss ts : List (Segment A)) → Clear s ss → Clear s ts → Clear s (ss ++ ts)
  Clear-append s [] ts c d = d
  Clear-append s (x ∷ ss) ts c d = (c.0, Clear-append s ss ts c.1 d)

  -- A segment that ends where a sorted list begins is clear of it.
  pub Clear-Above :
      (s : Segment A) (lo : ℕ) (ss : List (Segment A)) → end_of s ≤ lo → Above lo ss → Clear s ss
  Clear-Above s lo [] h a = tt
  Clear-Above s lo (t ∷ ts) h a = (inl (omega arith), Clear-Above s (end_of t) ts (omega arith) a.2)

  -- The pieces of a cut stay in order, from where the piece began to where it ended.
  Above-cut :
      (lo : ℕ) (old piece : Segment A) (ss : List (Segment A))
      → lo ≤ piece.start
      → 0 < length piece.bytes
      → Above (end_of piece) ss
      → Above lo (cut old piece ++ ss)
  unfolding cut
  Above-cut lo old piece ss h p a = ground (
    arith,
    length-take (old.start - piece.start) piece.bytes,
    length-drop (end_of old - piece.start) piece.bytes,
    Above-lower lo (end_of piece) ss (omega arith) a,
    Above-lower (end_of (record piece { bytes = take (old.start - piece.start) piece.bytes }))
        (end_of piece) ss,
    Above-lower (end_of old + length (drop (end_of old - piece.start) piece.bytes)) (end_of piece)
        ss,
  )

  pub Above-cut_all :
      (lo : ℕ) (old : Segment A) (pieces : List (Segment A))
      → Above lo pieces
      → Above lo (cut_all old pieces)
  unfolding cut_all
  Above-cut_all lo old [] a = tt
  Above-cut_all lo old (p ∷ ps) a =
      Above-cut lo old p (cut_all old ps) a.0 a.1 (Above-cut_all (end_of p) old ps a.2)

  -- What is left of a piece is clear of the range that cut it, and of all that the piece was
  -- clear of.
  Clear-cut_self : (old piece : Segment A) → Clear old (cut old piece)
  unfolding cut
  Clear-cut_self old piece = ground (
    arith,
    length-take (old.start - piece.start) piece.bytes,
    length-drop (end_of old - piece.start) piece.bytes,
  )

  Clear-cut : (s old piece : Segment A) → Clear s (piece ∷ []) → Clear s (cut old piece)
  unfolding cut
  Clear-cut s old piece c = ground (
    arith,
    length-take (old.start - piece.start) piece.bytes,
    length-drop (end_of old - piece.start) piece.bytes,
  )

  Clear-cut_all_self :
      (old : Segment A) (pieces : List (Segment A)) → Clear old (cut_all old pieces)
  unfolding cut_all
  Clear-cut_all_self old [] = tt
  Clear-cut_all_self old (p ∷ ps) =
      Clear-append old (cut old p) (cut_all old ps) (Clear-cut_self old p)
        (Clear-cut_all_self old ps)

  Clear-cut_all :
      (s old : Segment A) (pieces : List (Segment A))
      → Clear s pieces
      → Clear s (cut_all old pieces)
  unfolding cut_all
  Clear-cut_all s old [] c = tt
  Clear-cut_all s old (p ∷ ps) c =
      Clear-append s (cut old p) (cut_all old ps) (Clear-cut s old p (c.0, tt))
        (Clear-cut_all s old ps c.1)

  Above-uncovered_loop :
      (lo : ℕ) (pieces existing : List (Segment A))
      → Above lo pieces
      → Above lo (uncovered_loop pieces existing)
  Above-uncovered_loop lo pieces [] a = unfold uncovered_loop in a
  Above-uncovered_loop lo pieces (old ∷ existing) a =
      rw (uncovered_loop-cut_all pieces existing old)
        (Above-uncovered_loop lo (cut_all old pieces) existing (Above-cut_all lo old pieces a))

  Clear-uncovered_loop :
      (s : Segment A) (pieces existing : List (Segment A))
      → Clear s pieces
      → Clear s (uncovered_loop pieces existing)
  Clear-uncovered_loop s pieces [] c = unfold uncovered_loop in c
  Clear-uncovered_loop s pieces (old ∷ existing) c =
      rw (uncovered_loop-cut_all pieces existing old)
        (Clear-uncovered_loop s (cut_all old pieces) existing (Clear-cut_all s old pieces c))

  AllClear-uncovered_loop :
      (pieces existing : List (Segment A)) → AllClear existing (uncovered_loop pieces existing)
  AllClear-uncovered_loop pieces [] = tt
  AllClear-uncovered_loop pieces (old ∷ existing) =
      rw (uncovered_loop-cut_all pieces existing old) (
        Clear-uncovered_loop old (cut_all old pieces) existing (Clear-cut_all_self old pieces),
        AllClear-uncovered_loop (cut_all old pieces) existing,
      )

  -- The additions are in order from the start of the new bytes on, not empty, and clear of all
  -- that exists.
  pub Above-uncovered :
      (new : Segment A) (existing : List (Segment A)) → Above new.start (uncovered new existing)
  unfolding uncovered
  Above-uncovered new existing = elim (Bool-cases (ltb 0 (length new.bytes))) [
    | inl some_bytes ↦
        rw some_bytes
          (Above-uncovered_loop new.start (new ∷ []) existing (omega arith, ground arith, tt))
    | inr no_bytes ↦ rw no_bytes tt
  ]

  pub AllClear-nil : (ss : List (Segment A)) → AllClear ss []
  AllClear-nil [] = tt
  AllClear-nil (s ∷ ss) = (tt, AllClear-nil ss)

  pub AllClear-uncovered :
      (new : Segment A) (existing : List (Segment A)) → AllClear existing (uncovered new existing)
  unfolding uncovered
  AllClear-uncovered new existing = elim (Bool-cases (ltb 0 (length new.bytes))) [
    | inl some_bytes ↦ rw some_bytes (AllClear-uncovered_loop (new ∷ []) existing)
    | inr no_bytes ↦ rw no_bytes (AllClear-nil existing)
  ]
