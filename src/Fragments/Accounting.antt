-- ===== src/Fragments/Accounting.antt =====
-- The buffered totals of the fragment reassembler, and the limits that eviction restores.
use packet_inspector_windows.Prelude.{
  ℕ, zero, suc, ◌≤◌, ◌≡◌, refl, ap, ◌∙◌, false, Option, none, some, [], ◌∷◌, arith, length,
  Bool-cases, ◌⊎◌, inl, inr,
}
use packet_inspector_windows.OrderedDict.{OrderedDict, get, remove}
use packet_inspector_windows.OrderedDict.Sums.{
  weigh, total, total-remove, get_oldest, remove_oldest,
}
use packet_inspector_windows.OrderedDict.Every.{Every, Every-remove}
use packet_inspector_windows.OrderedDict.Distinct.{Distinct, Distinct-remove}
use packet_inspector_windows.Segments.{total_bytes}
use packet_inspector_windows.Fragments.State.{
  FragmentKey, FragmentState, Reassembler, fragment_keys, drop_state, discard, over_limits,
  discard_oldest, evict_one, evict_rounds, evict_to_limits,
}

abbrev pub bytes_of : FragmentState → ℕ
bytes_of s = s.buffered_bytes

abbrev pub ranges_of : FragmentState → ℕ
ranges_of s = length s.ranges

abbrev pub sources_of : FragmentState → ℕ
sources_of s = length s.source_packet_ids

-- The byte count of a state is that of its ranges.
abbrev pub IsCounted : FragmentKey → FragmentState → Type 0
IsCounted key s = s.buffered_bytes ≡ total_bytes s.ranges

-- The totals are those of the stored states, of which there is one for each key.
pub record IsAccounted (r : Reassembler) : Type 0 where
  pub distinct : Distinct r.states
  pub counted : Every IsCounted r.states
  pub bytes : r.buffered_bytes ≡ total bytes_of r.states
  pub ranges : r.buffered_ranges ≡ total ranges_of r.states
  pub provenance : r.buffered_provenance_entries ≡ total sources_of r.states

drop_state-IsAccounted :
    (key : FragmentKey) (o : Option FragmentState) (r : Reassembler)
    → get key r.states ≡ o
    → IsAccounted r
    → IsAccounted (drop_state key o r)
unfolding drop_state
drop_state-IsAccounted key none r e h = h
drop_state-IsAccounted key (some state) r e h = record {
  distinct = Distinct-remove key r.states h.distinct;
  counted = Every-remove IsCounted key r.states h.counted;
  bytes = omega (arith, h.bytes, total-remove bytes_of key r.states, ap (weigh bytes_of) e);
  ranges = omega (arith, h.ranges, total-remove ranges_of key r.states, ap (weigh ranges_of) e);
  provenance =
      omega (arith, h.provenance, total-remove sources_of key r.states, ap (weigh sources_of) e);
}

pub discard-IsAccounted :
    (key : FragmentKey) (r : Reassembler) → IsAccounted r → IsAccounted (discard key r)
unfolding discard
discard-IsAccounted key r h = drop_state-IsAccounted key (get key r.states) r refl h

-- The oldest state goes.
discard_oldest-states :
    (key : FragmentKey) (state : FragmentState) (rest : OrderedDict FragmentKey FragmentState)
    (r : Reassembler)
    → r.states ≡ (key, state) ∷ rest
    → (discard key r).states ≡ rest
unfolding discard drop_state
discard_oldest-states key state rest r e =
    let there : get key r.states ≡ some state = ap (get key) e ∙ get_oldest key state rest in
    rw there (ap (remove key) e ∙ remove_oldest key state rest)

-- With nothing stored, no limit is exceeded.
empty_within : (r : Reassembler) → r.states ≡ [] → IsAccounted r → over_limits r ≡ false
unfolding over_limits
empty_within r e h =
    let count : length r.states ≡ 0 = ap length e in
    let bytes : r.buffered_bytes ≡ 0 = h.bytes ∙ ap (total bytes_of) e in
    let ranges : r.buffered_ranges ≡ 0 = h.ranges ∙ ap (total ranges_of) e in
    let provenance : r.buffered_provenance_entries ≡ 0 = h.provenance ∙ ap (total sources_of) e in
    rw (count, bytes, ranges, provenance) (ground arith)

states_cases :
    (states : OrderedDict FragmentKey FragmentState)
    → (states ≡ [])
      ⊎ ((key : FragmentKey) × (state : FragmentState) × (rest : OrderedDict FragmentKey
            FragmentState)
          × (states ≡ (key, state) ∷ rest))
states_cases [] = inl refl
states_cases ((key, state) ∷ rest) = inr (key, state, rest, refl)

discard_oldest-found :
    (key : FragmentKey) (state : FragmentState) (rest : OrderedDict FragmentKey FragmentState)
    (r : Reassembler) (states : OrderedDict FragmentKey FragmentState)
    → states ≡ (key, state) ∷ rest
    → discard_oldest states r ≡ discard key r
unfolding discard_oldest
discard_oldest-found key state rest r states e = rw e refl

-- A round of the loop, on a dictionary that is not empty.
evict_one-IsAccounted :
    (key : FragmentKey) (state : FragmentState) (rest : OrderedDict FragmentKey FragmentState)
    (r : Reassembler)
    → r.states ≡ (key, state) ∷ rest
    → IsAccounted r
    → IsAccounted (evict_one r) × ((evict_one r).states ≡ rest)
evict_one-IsAccounted key state rest r e h =
    let kept = discard-IsAccounted key r h in
    let left = discard_oldest-states key state rest r e in
    rw (discard_oldest-found key state rest r r.states e) (
      record {
        distinct = kept.distinct;
        counted = kept.counted;
        bytes = kept.bytes;
        ranges = kept.ranges;
        provenance = kept.provenance;
      },
      left,
    )

evict_rounds-IsAccounted :
    (n : ℕ) (r : Reassembler)
    → length r.states ≤ n
    → IsAccounted r
    → IsAccounted (evict_rounds n r) × (over_limits (evict_rounds n r) ≡ false)
unfolding evict_rounds
evict_rounds-IsAccounted zero r enough h = (h, empty_within r (nothing r.states enough) h)
  where
    nothing : (states : OrderedDict FragmentKey FragmentState) → length states ≤ 0 → states ≡ []
    nothing [] k = refl
    nothing (entry ∷ states) k = absurd (omega arith)
evict_rounds-IsAccounted (suc n) r enough h = elim (Bool-cases (over_limits r)) [
  | inl over ↦ elim (states_cases r.states) [
    | inl e ↦ absurd (cc (empty_within r e h))
    | inr (key, state, rest, e) ↦
        let (kept, left) = evict_one-IsAccounted key state rest r e h in
        rw over (
          evict_rounds-IsAccounted n (evict_one r) (omega (arith, ap length e, ap length left))
            kept)
  ]
  | inr within ↦ rw within (h, within)
]

-- The four limits on what is stored together.
pub record WithinLimits (r : Reassembler) : Type 0 where
  pub datagrams : length r.states ≤ r.limits.max_datagrams
  pub bytes : r.buffered_bytes ≤ r.limits.max_buffered_bytes
  pub ranges : r.buffered_ranges ≤ r.limits.max_buffered_ranges
  pub provenance : r.buffered_provenance_entries ≤ r.limits.max_buffered_provenance_entries

over_limits-WithinLimits : (r : Reassembler) → over_limits r ≡ false → WithinLimits r
unfolding over_limits
over_limits-WithinLimits r h = record {
  datagrams = ground arith;
  bytes = ground arith;
  ranges = ground arith;
  provenance = ground arith;
}

-- From one state for each key, each counting the bytes of its ranges, and totals that are those of
-- the stored states, eviction ends with the number of datagrams and the buffered bytes, ranges and
-- provenance entries each at most its limit, and all of that still holds.
pub evict_to_limits-IsAccounted :
    (r : Reassembler)
    → IsAccounted r
    → IsAccounted (evict_to_limits r) × WithinLimits (evict_to_limits r)
unfolding evict_to_limits
evict_to_limits-IsAccounted r h =
    let (kept, done) = evict_rounds-IsAccounted (length r.states) r (omega arith) h in
    (kept, over_limits-WithinLimits (evict_rounds (length r.states) r) done)
