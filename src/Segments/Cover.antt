-- ===== src/Segments/Cover.antt =====
-- Which byte a list of segments holds at each position, and what cutting does to it.
use packet_inspector_windows.Prelude.{
  ℕ, ◌-◌, ◌≡◌, refl, Bool, true, false, ◌&&◌, ◌||◌, Option, none, some, List, [], ◌∷◌, ◌++◌, inl,
  inr, Bool-cases, arith, ltb, leb, get_elem?, or_else, if◌then◌else◌, get_elem?-take,
  get_elem?-drop, get_elem?_out, get_elem?_in,
}
use packet_inspector_windows.Segments.{Segment, end_of, cut, cut_all, uncovered_loop, uncovered}

module _ {ℓ} {A : Type ℓ} where
  -- The byte that one segment holds at a position.
  unfoldable pub byte_in : Segment A → ℕ → Option ℕ
  byte_in s i = if leb s.start i then get_elem? s.bytes (i - s.start) else none

  -- The byte that the first segment of a list that has one holds at a position.
  unfoldable pub byte_at : List (Segment A) → ℕ → Option ℕ
  byte_at [] i = none
  byte_at (s ∷ ss) i = or_else (byte_in s i) (byte_at ss i)

  abbrev pub covers : Segment A → ℕ → Bool
  covers s i = leb s.start i && ltb i (end_of s)

  unfoldable pub covers_any : List (Segment A) → ℕ → Bool
  covers_any [] i = false
  covers_any (s ∷ ss) i = covers s i || covers_any ss i

  pub byte_at-append :
      (ss ts : List (Segment A)) (i : ℕ)
      → byte_at (ss ++ ts) i ≡ or_else (byte_at ss i) (byte_at ts i)
  unfolding byte_at
  byte_at-append [] ts i = refl
  byte_at-append (s ∷ ss) ts i = ground (arith, byte_at-append ss ts i)

  -- A segment holds a byte at exactly the positions that it covers.
  pub byte_in_covered :
      (s : Segment A) (i : ℕ) → covers s i ≡ true → (b : ℕ) × (byte_in s i ≡ some b)
  unfolding byte_in
  byte_in_covered s i h =
      let (b, found) = get_elem?_in s.bytes (i - s.start) (ground arith) in (b, ground arith)

  pub byte_in_uncovered : (s : Segment A) (i : ℕ) → covers s i ≡ false → byte_in s i ≡ none
  unfolding byte_in
  byte_in_uncovered s i h = ground (arith, get_elem?_out s.bytes (i - s.start))

  -- Cutting by an old range leaves a piece's bytes outside that range, and only those.
  pub byte_at-cut :
      (old piece : Segment A) (i : ℕ)
      → byte_at (cut old piece) i ≡ (if covers old i then none else byte_in piece i)
  unfolding cut byte_at byte_in
  byte_at-cut old piece i = ground (
    arith,
    get_elem?-take (old.start - piece.start) piece.bytes (i - piece.start),
    get_elem?-drop (end_of old - piece.start) piece.bytes (i - end_of old) (i - piece.start),
    get_elem?_out piece.bytes (i - piece.start),
  )

  pub byte_at-cut_all :
      (old : Segment A) (pieces : List (Segment A)) (i : ℕ)
      → byte_at (cut_all old pieces) i ≡ (if covers old i then none else byte_at pieces i)
  unfolding cut_all byte_at
  byte_at-cut_all old [] i = ground arith
  byte_at-cut_all old (piece ∷ pieces) i = ground (
    arith,
    byte_at-append (cut old piece) (cut_all old pieces) i,
    byte_at-cut old piece i,
    byte_at-cut_all old pieces i,
  )

  pub uncovered_loop-cut_all :
      (pieces existing : List (Segment A)) (old : Segment A)
      → uncovered_loop pieces (old ∷ existing) ≡ uncovered_loop (cut_all old pieces) existing
  unfolding uncovered_loop cut_all
  uncovered_loop-cut_all [] [] old = refl
  uncovered_loop-cut_all [] (x ∷ xs) old = refl
  uncovered_loop-cut_all (p ∷ ps) existing old = refl

  pub byte_at-uncovered_loop :
      (pieces existing : List (Segment A)) (i : ℕ)
      → byte_at (uncovered_loop pieces existing) i
        ≡ (if covers_any existing i then none else byte_at pieces i)
  unfolding covers_any
  byte_at-uncovered_loop pieces [] i = unfold uncovered_loop in refl
  byte_at-uncovered_loop pieces (old ∷ existing) i = ground (
    arith,
    uncovered_loop-cut_all pieces existing old,
    byte_at-uncovered_loop (cut_all old pieces) existing i,
    byte_at-cut_all old pieces i,
  )

  -- `_uncovered_byte_ranges` keeps the new bytes at the positions that nothing covers yet, and
  -- no others.
  pub byte_at-uncovered :
      (new : Segment A) (existing : List (Segment A)) (i : ℕ)
      → byte_at (uncovered new existing) i ≡ (if covers_any existing i then none else byte_in new i)
  unfolding uncovered byte_at
  byte_at-uncovered new existing i =
      ground (arith, byte_at-uncovered_loop (new ∷ []) existing i, byte_in_uncovered new i)

  -- A position that no segment covers has no byte, and one that some segment covers has one.
  pub byte_at_uncovered :
      (ss : List (Segment A)) (i : ℕ) → covers_any ss i ≡ false → byte_at ss i ≡ none
  unfolding covers_any byte_at
  byte_at_uncovered [] i h = refl
  byte_at_uncovered (s ∷ ss) i h = ground (arith, byte_in_uncovered s i, byte_at_uncovered ss i)

  pub byte_at_covered :
      (ss : List (Segment A)) (i : ℕ) → covers_any ss i ≡ true → (b : ℕ) × (byte_at ss i ≡ some b)
  unfolding covers_any byte_at
  byte_at_covered [] i h = absurd (cc)
  byte_at_covered (s ∷ ss) i h = elim (Bool-cases (covers s i)) [
    | inl here ↦ let (b, found) = byte_in_covered s i here in (b, ground arith)
    | inr away ↦
        let (b, found) = byte_at_covered ss i (ground arith) in
        (b, ground (arith, byte_in_uncovered s i))
  ]

  -- First-seen bytes win: what is stored stays, and the new bytes fill only what was free.
  pub first_seen_wins :
      (new : Segment A) (existing : List (Segment A)) (i : ℕ)
      → byte_at (existing ++ uncovered new existing) i
        ≡ or_else (byte_at existing i) (byte_in new i)
  first_seen_wins new existing i = elim (Bool-cases (covers_any existing i)) [
    | inl old ↦ let (b, found) = byte_at_covered existing i old in rw (byte_at-append, found)
    | inr free ↦ rw (byte_at-append, byte_at-uncovered, free, byte_at_uncovered existing i free)
  ]
