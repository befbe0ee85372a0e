-- ===== src/Segments/Conflict.antt =====
-- The overlap test finds exactly the positions where new and stored bytes disagree.
use packet_inspector_windows.Prelude.{
  ℕ, suc, ◌+◌, ◌-◌, ◌<◌, ◌≤◌, ◌≡◌, ◌≢◌, refl, inl, inr, true, false, none, some, List, [], ◌∷◌,
  Bytes, min, max, arith, ltb, ◌==◌, length, drop, slice, get_elem?, eq_list, eq_list_iff,
  Bool-cases, Option-cases, if◌then◌else◌, get_elem?-take, get_elem?-drop, get_elem?_out,
  length-take, length-drop,
}
use packet_inspector_windows.Segments.{Segment, end_of, differs, has_conflicting_overlap}
use packet_inspector_windows.Segments.Cover.{byte_in, byte_at, covers, byte_in_uncovered}
use packet_inspector_windows.Segments.Order.{Above}

-- Some index at which two lists hold different numbers.
abbrev DifferAt : Bytes → Bytes → ℕ → Type 0
DifferAt xs ys k =
    (a : ℕ) × (b : ℕ) × (get_elem? xs k ≡ some a) × (get_elem? ys k ≡ some b) × (a ≢ b)

pub differ_somewhere :
    (xs ys : Bytes) → length xs ≡ length ys → eq_list xs ys ≡ false → (k : ℕ) × DifferAt xs ys k
unfolding eq_list
differ_somewhere [] [] e h = absurd (cc)
differ_somewhere [] (y ∷ ys) e h = absurd (omega arith)
differ_somewhere (x ∷ xs) [] e h = absurd (omega arith)
differ_somewhere (x ∷ xs) (y ∷ ys) e h = elim (Bool-cases (x == y)) [
  | inl same ↦
      let (k, found) = differ_somewhere xs ys (omega arith) (ground arith) in (suc k, found)
  | inr other ↦ (0, (x, y, refl, refl, ground arith))
]

pub get_elem?-slice :
    (xs : Bytes) (i j k m : ℕ)
    → m ≡ i + k
    → get_elem? (slice xs i j) k ≡ (if ltb k (j - i) then get_elem? xs m else none)
get_elem?-slice xs i j k m e =
    ground (arith, get_elem?-take (j - i) (drop i xs) k, get_elem?-drop i xs k m)

module _ {ℓ} {A : Type ℓ} where
  byte_in-some :
      (s : Segment A) (i a : ℕ)
      → byte_in s i ≡ some a
      → (covers s i ≡ true) × (get_elem? s.bytes (i - s.start) ≡ some a)
  unfolding byte_in
  byte_in-some s i a h = ground (arith, get_elem?_out s.bytes (i - s.start))

  -- Bytes that do not differ agree wherever both are there.
  differs-false :
      (s t : Segment A) (i a b : ℕ)
      → differs s.start s.bytes t.start t.bytes ≡ false
      → byte_in s i ≡ some a
      → byte_in t i ≡ some b
      → a ≡ b
  unfolding differs
  differs-false s t i a b h p q =
      let (cs, gs) = byte_in-some s i a p in
      let (ct, gt) = byte_in-some t i b q in
      let lo = max s.start t.start in
      let hi = min (end_of s) (end_of t) in
      ground (
        arith,
        eq_list_iff (slice s.bytes (lo - s.start) (hi - s.start))
            (slice t.bytes (lo - t.start) (hi - t.start)),
        get_elem?-slice s.bytes (lo - s.start) (hi - s.start) (i - lo) (i - s.start),
        get_elem?-slice t.bytes (lo - t.start) (hi - t.start) (i - lo) (i - t.start),
      )

  -- A position where a segment and what is stored hold different bytes.
  pub record Clash (new : Segment A) (existing : List (Segment A)) : Type 0 where
    pub position : ℕ
    pub new_byte : ℕ
    pub old_byte : ℕ
    pub is_new : byte_in new position ≡ some new_byte
    pub is_old : byte_at existing position ≡ some old_byte
    pub unequal : new_byte ≢ old_byte

  byte_in-slice :
      (s : Segment A) (lo hi k a : ℕ)
      → s.start ≤ lo
      → get_elem? (slice s.bytes (lo - s.start) (hi - s.start)) k ≡ some a
      → byte_in s (lo + k) ≡ some a
  unfolding byte_in
  byte_in-slice s lo hi k a le h = ground (
    arith,
    get_elem?-slice s.bytes (lo - s.start) (hi - s.start) k (lo + k - s.start) (omega arith),
  )

  byte_at-head :
      (t : Segment A) (ts : List (Segment A)) (i b : ℕ)
      → byte_in t i ≡ some b
      → byte_at (t ∷ ts) i ≡ some b
  unfolding byte_at
  byte_at-head t ts i b h = rw h

  byte_at-tail :
      (t : Segment A) (ts : List (Segment A)) (i b : ℕ)
      → byte_in t i ≡ none
      → byte_at ts i ≡ some b
      → byte_at (t ∷ ts) i ≡ some b
  unfolding byte_at
  byte_at-tail t ts i b h k = rw (h, k)

  clash_in_slices :
      (s t : Segment A) (lo hi : ℕ)
      → s.start ≤ lo
      → t.start ≤ lo
      → (k : ℕ) × DifferAt
          (slice s.bytes (lo - s.start) (hi - s.start))
          (slice t.bytes (lo - t.start) (hi - t.start))
          k
      → (i : ℕ) × (a : ℕ) × (b : ℕ) × (byte_in s i ≡ some a) × (byte_in t i ≡ some b) × (a ≢ b)
  clash_in_slices s t lo hi p q (k, (a, b, x, y, ne)) =
      (lo + k, a, b, byte_in-slice s lo hi k a p x, byte_in-slice t lo hi k b q y, ne)

  differs-true :
      (s t : Segment A)
      → differs s.start s.bytes t.start t.bytes ≡ true
      → (i : ℕ) × (a : ℕ) × (b : ℕ) × (byte_in s i ≡ some a) × (byte_in t i ≡ some b) × (a ≢ b)
  unfolding differs
  differs-true s t h =
      let lo = max s.start t.start in
      let hi = min (end_of s) (end_of t) in
      clash_in_slices s t lo hi (omega arith) (omega arith) (
        differ_somewhere (slice s.bytes (lo - s.start) (hi - s.start))
          (slice t.bytes (lo - t.start) (hi - t.start))
          (omega (
            arith,
            length-take (hi - s.start - (lo - s.start)) (drop (lo - s.start) s.bytes),
            length-take (hi - t.start - (lo - t.start)) (drop (lo - t.start) t.bytes),
            length-drop (lo - s.start) s.bytes,
            length-drop (lo - t.start) t.bytes,
          ))
          (ground arith))

  pub byte_at_below :
      (lo : ℕ) (ss : List (Segment A)) (i : ℕ) → Above lo ss → i < lo → byte_at ss i ≡ none
  unfolding byte_at
  byte_at_below lo [] i a h = refl
  byte_at_below lo (s ∷ ss) i a h =
      rw (byte_in_uncovered s i (ground arith)) (byte_at_below (end_of s) ss i a.2 (omega arith))

  -- Every position where both hold a byte: they agree.
  abbrev pub Agree : Segment A → List (Segment A) → Type 0
  Agree new existing = (i a b : ℕ) → byte_in new i ≡ some a → byte_at existing i ≡ some b → a ≡ b

  -- Where the conflict test finds nothing, the new bytes agree with the stored bytes at every position
  -- where both hold one.
  pub no_conflict :
      (new : Segment A) (existing : List (Segment A))
      → has_conflicting_overlap new.start new.bytes existing ≡ false
      → Agree new existing
  unfolding has_conflicting_overlap byte_at
  no_conflict new [] h i a b p q = absurd (cc)
  no_conflict new (t ∷ ts) h i a b p q = elim (Option-cases (byte_in t i)) [
    | inl missing ↦ no_conflict new ts (ground arith) i a b p (rw missing at q)
    | inr (c, found) ↦ differs-false new t i a b (ground arith) p (ground arith)
  ]

  -- A clash with the later segments of a sorted list is one with the list.
  Clash-later :
      {new : Segment A} (t : Segment A) {ts : List (Segment A)} {lo : ℕ}
      → Clash new ts
      → Above lo (t ∷ ts)
      → Clash new (t ∷ ts)
  Clash-later t {ts} c a = record {
    position = c.position;
    new_byte = c.new_byte;
    old_byte = c.old_byte;
    is_new = c.is_new;
    is_old =
        byte_at-tail t ts c.position c.old_byte
          (byte_in_uncovered t c.position
            (grind (arith, c.is_old, byte_at_below (end_of t) ts c.position a.2)))
          c.is_old;
    unequal = c.unequal;
  }

  -- Where the conflict test fires on stored segments that are in order, there is a position at which
  -- the new bytes and the stored bytes differ.
  pub conflict :
      (lo : ℕ) (new : Segment A) (existing : List (Segment A))
      → Above lo existing
      → has_conflicting_overlap new.start new.bytes existing ≡ true
      → Clash new existing
  unfolding has_conflicting_overlap
  conflict lo new [] a h = absurd (cc)
  conflict lo new (t ∷ ts) a h = elim (Bool-cases (differs new.start new.bytes t.start t.bytes)) [
    | inl here ↦
        let (i, x, y, p, q, ne) = differs-true new t here in
        record {
          position = i;
          new_byte = x;
          old_byte = y;
          is_new = p;
          is_old = byte_at-head t ts i y q;
          unequal = ne;
        }
    | inr away ↦ Clash-later t (conflict (end_of t) new ts a.2 (ground arith)) a
  ]
