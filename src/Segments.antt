-- ===== src/Segments.antt =====
-- packet_audit/reassembly.py, the byte ranges under both reassemblers: `_ByteRange` and
-- `_TcpSegment` are a run of bytes at a position, with what else the class keeps as `info`.
pub mod Cover
pub mod Order
pub mod Insert
pub mod Conflict
use packet_inspector_windows.Prelude.{
  ℕ, ◌+◌, ◌-◌, Bool, true, false, not, ◌&&◌, ◌||◌, List, [], ◌∷◌, ◌++◌, Bytes, min, max, ltb, leb,
  ◌==◌, eq_list, length, take, drop, slice, if◌then◌else◌,
}

pub record Segment {ℓ} (A : Type ℓ) : Type ℓ where
  pub start : ℕ
  pub bytes : Bytes
  pub info : A

-- The bytes that two runs have at the positions of both are not the same.
unfoldable pub differs : ℕ → Bytes → ℕ → Bytes → Bool
unfolding eq_list
differs start new old_start old =
    let overlap_start = max start old_start in
    let overlap_end = min (start + length new) (old_start + length old) in
    if leb overlap_end overlap_start
    then false
    else not (
        eq_list (slice new (overlap_start - start) (overlap_end - start))
          (slice old (overlap_start - old_start) (overlap_end - old_start)))

module _ {ℓ} {A : Type ℓ} where
  -- the property `end`
  abbrev pub end_of : Segment A → ℕ
  end_of s = s.start + length s.bytes

  -- `sum(len(item.data) for item in items)`
  abbrev pub total_bytes : List (Segment A) → ℕ
  total_bytes [] = 0
  total_bytes (s ∷ ss) = length s.bytes + total_bytes ss

  -- What one old range leaves of one piece: the inner loop's body.
  unfoldable pub cut : Segment A → Segment A → List (Segment A)
  cut old piece =
      if leb (end_of piece) old.start || leb (end_of old) piece.start
      then piece ∷ []
      else (if ltb piece.start old.start
          then record piece { bytes = take (old.start - piece.start) piece.bytes } ∷ []
          else [])
        ++ (if ltb (end_of old) (end_of piece)
            then record piece {
              start = end_of old;
              bytes = drop (end_of old - piece.start) piece.bytes;
            }
              ∷ []
            else [])

  unfoldable pub cut_all : Segment A → List (Segment A) → List (Segment A)
  unfolding cut
  cut_all old [] = []
  cut_all old (piece ∷ pieces) = cut old piece ++ cut_all old pieces

  -- The loop over `existing`, which stops when no piece is left.
  unfoldable pub uncovered_loop : List (Segment A) → List (Segment A) → List (Segment A)
  unfolding cut_all
  uncovered_loop pieces [] = pieces
  uncovered_loop [] (old ∷ existing) = []
  uncovered_loop (p ∷ ps) (old ∷ existing) = uncovered_loop (cut_all old (p ∷ ps)) existing

  unfoldable pub uncovered : Segment A → List (Segment A) → List (Segment A)
  unfolding uncovered_loop
  uncovered new existing =
      if ltb 0 (length new.bytes) then uncovered_loop (new ∷ []) existing else []

  -- `sort(key=lambda item: item.start)`: Python's sort is stable.
  unfoldable pub insert_by_start : Segment A → List (Segment A) → List (Segment A)
  insert_by_start s [] = s ∷ []
  insert_by_start s (t ∷ ts) = if leb s.start t.start then s ∷ t ∷ ts else t ∷ insert_by_start s ts

  unfoldable pub sort_by_start : List (Segment A) → List (Segment A)
  unfolding insert_by_start
  sort_by_start [] = []
  sort_by_start (s ∷ ss) = insert_by_start s (sort_by_start ss)

  -- The merge loop, with the range that grows at its head.
  unfoldable pub merge_from : Segment A → List (Segment A) → List (Segment A)
  merge_from previous [] = previous ∷ []
  merge_from previous (item ∷ rest) =
      let joined = merge_from (record previous { bytes = previous.bytes ++ item.bytes }) rest in
      let apart = previous ∷ merge_from item rest in
      if end_of previous == item.start then joined else apart

  unfoldable pub merge_sorted : List (Segment A) → List (Segment A)
  unfolding merge_from
  merge_sorted [] = []
  merge_sorted (first ∷ rest) = merge_from first rest

  unfoldable pub merge_adjacent : List (Segment A) → List (Segment A)
  unfolding merge_sorted sort_by_start
  merge_adjacent ranges =
      if ltb (length ranges) 2 then ranges else merge_sorted (sort_by_start ranges)

  unfoldable pub has_conflicting_overlap : ℕ → Bytes → List (Segment A) → Bool
  unfolding differs
  has_conflicting_overlap start new [] = false
  has_conflicting_overlap start new (old ∷ existing) =
      differs start new old.start old.bytes || has_conflicting_overlap start new existing
