-- ===== src/Fragments/Opened.antt =====
-- How the state of a fragment is opened, filled and counted.
use packet_inspector_windows.Prelude.{
  ℕ, ◌≤◌, ◌≡◌, refl, ap, sym, ◌∙◌, none, some, List, [], ◌∷◌, ◌++◌, arith, length, Option-cases,
  inl, inr, length-append,
}
use packet_inspector_windows.OrderedDict.{get, remove, put, move_to_end}
use packet_inspector_windows.OrderedDict.Sums.{weigh, total-remove, total-move_to_end, get-put_self}
use packet_inspector_windows.OrderedDict.Every.{Every-get, Every-move_to_end}
use packet_inspector_windows.OrderedDict.Distinct.{
  Distinct-move_to_end, get-move_to_end, remove-put, remove-move_to_end,
}
use packet_inspector_windows.Models.{ParsedPacket, contributing_ids}
use packet_inspector_windows.Segments.{total_bytes, uncovered}
use packet_inspector_windows.Segments.Insert.{total_bytes-merge_adjacent, total_bytes-append}
use packet_inspector_windows.Fragments.State.{
  FragmentKey, FragmentState, Reassembler, fragment_keys, fresh_state,
}
use packet_inspector_windows.Fragments.Process.{
  fragment_run, touch, mark_final, note_sources, absorb, account, open_fragment,
}
use packet_inspector_windows.Fragments.Accounting.{
  bytes_of, ranges_of, sources_of, IsCounted, IsAccounted,
}
use packet_inspector_windows.Fragments.Bounded.{put-IsAccounted}

-- The parts of a state that the totals count.
abbrev pub Same : FragmentState → FragmentState → Type 0
Same s t =
    (s.buffered_bytes ≡ t.buffered_bytes)
    × (s.ranges ≡ t.ranges)
    × (s.source_packet_ids ≡ t.source_packet_ids)

touch-Same : (clock : ℕ) (p : ParsedPacket) (s : FragmentState) → Same (touch clock p s) s
unfolding touch
touch-Same clock p s = (refl, refl, refl)

pub mark_final-Same : (p : ParsedPacket) (s t : FragmentState) → mark_final p s ≡ some t → Same t s
unfolding mark_final
mark_final-Same p s t h = ground arith

pub Same-IsCounted :
    (key : FragmentKey) (s t : FragmentState) → Same s t → IsCounted key t → IsCounted key s
Same-IsCounted key s t (bytes, ranges, _) h = bytes ∙ h ∙ ap total_bytes (sym ranges)

length-note_sources : (known ids : List ℕ) → length known ≤ length (note_sources known ids)
unfolding note_sources
length-note_sources known [] = omega arith
length-note_sources known (i ∷ ids) = ground (
  arith,
  length-note_sources known ids,
  length-note_sources (known ++ i ∷ []) ids,
  length-append known (i ∷ []),
)

absorb-IsCounted :
    (key : FragmentKey) (p : ParsedPacket) (s : FragmentState)
    → IsCounted key s
    → IsCounted key (absorb p s)
unfolding absorb
absorb-IsCounted key p s h =
    let additions = uncovered (fragment_run p) s.ranges in
    omega (
      arith,
      h,
      total_bytes-merge_adjacent (s.ranges ++ additions),
      total_bytes-append s.ranges additions,
    )

pub absorb_grows :
    (p : ParsedPacket) (s : FragmentState)
    → (s.buffered_bytes ≤ (absorb p s).buffered_bytes)
      × (length s.source_packet_ids ≤ length (absorb p s).source_packet_ids)
unfolding absorb
absorb_grows p s = ground (arith, length-note_sources s.source_packet_ids (contributing_ids p))

-- A state that stands in the dictionary, up to the end that it declares.
abbrev pub Stored : FragmentKey → FragmentState → Reassembler → Type 0
Stored key s r = (t : FragmentState) × (get key r.states ≡ some t) × Same s t × IsCounted key t

pub account-IsAccounted :
    (key : FragmentKey) (p : ParsedPacket) (s : FragmentState) (r : Reassembler)
    → IsAccounted r
    → Stored key s r
    → IsAccounted (account key s (absorb p s) r)
unfolding account
account-IsAccounted key p s r h (t, found, same, counted) =
    let (bytes, sources) = absorb_grows p s in
    put-IsAccounted key (absorb p s) r _ h
      (absorb-IsCounted key p s (Same-IsCounted key s t same counted)) refl
      (omega (arith, bytes, same.0, ap (weigh bytes_of) found))
      (omega (
        arith,
        ap length same.1,
        ap (weigh ranges_of) found,
        total-remove ranges_of key r.states,
        h.ranges,
      ))
      (omega (arith, sources, ap length same.2, ap (weigh sources_of) found))

fresh_empty :
    (clock : ℕ) (p : ParsedPacket)
    → ((touch clock p (fresh_state clock p)).buffered_bytes ≡ 0)
      × ((touch clock p (fresh_state clock p)).ranges ≡ [])
      × ((touch clock p (fresh_state clock p)).source_packet_ids ≡ [])
unfolding touch fresh_state
fresh_empty clock p = (refl, refl, refl)

-- What opening a fragment's state leaves.
pub record IsOpened (key : FragmentKey) (s : FragmentState) (r r' : Reassembler) : Type 0 where
  pub accounted : IsAccounted r'
  pub stored : get key r'.states ≡ some s
  pub counted : IsCounted key s
  pub limits : r'.limits ≡ r.limits
  pub others : remove key r'.states ≡ remove key r.states

open_missing :
    (clock : ℕ) (key : FragmentKey) (p : ParsedPacket) (r : Reassembler)
    → IsAccounted r
    → get key r.states ≡ none
    → let s = touch clock p (fresh_state clock p) in
      IsOpened key s r (record r { states = put key s r.states })
open_missing clock key p r h missing =
    let s = touch clock p (fresh_state clock p) in
    let (bytes, ranges, sources) = fresh_empty clock p in
    let counted : IsCounted key s = bytes ∙ ap total_bytes (sym ranges) in
    record {
      accounted =
          put-IsAccounted key s r _ h counted refl
            (omega (arith, bytes, ap (weigh bytes_of) missing))
            (omega (arith, ap length ranges, ap (weigh ranges_of) missing))
            (omega (arith, ap length sources, ap (weigh sources_of) missing));
      stored = get-put_self key s r.states;
      counted = counted;
      limits = refl;
      others = remove-put key s r.states;
    }

open_known :
    (clock : ℕ) (key : FragmentKey) (p : ParsedPacket) (r : Reassembler) (t : FragmentState)
    → IsAccounted r
    → get key r.states ≡ some t
    → let s = touch clock p t in
      IsOpened key s r (record r { states = put key s (move_to_end key r.states) })
open_known clock key p r t h found =
    let s = touch clock p t in
    let same = touch-Same clock p t in
    let counted =
      Same-IsCounted key s t same (Every-get IsCounted key t r.states h.counted found) in
    let there = get-move_to_end key r.states h.distinct ∙ found in
    let moved : IsAccounted (record r { states = move_to_end key r.states }) = record {
      distinct = Distinct-move_to_end key r.states h.distinct;
      counted = Every-move_to_end IsCounted key r.states h.counted;
      bytes = h.bytes ∙ sym (total-move_to_end bytes_of key r.states);
      ranges = h.ranges ∙ sym (total-move_to_end ranges_of key r.states);
      provenance = h.provenance ∙ sym (total-move_to_end sources_of key r.states);
    } in
    record {
      accounted =
          put-IsAccounted key s (record r { states = move_to_end key r.states }) _ moved counted
            refl (omega (arith, same.0, ap (weigh bytes_of) there))
            (omega (arith, ap length same.1, ap (weigh ranges_of) there))
            (omega (arith, ap length same.2, ap (weigh sources_of) there));
      stored = get-put_self key s (move_to_end key r.states);
      counted = counted;
      limits = refl;
      others =
          remove-put key s (move_to_end key r.states) ∙ remove-move_to_end key r.states h.distinct;
    }

pub open_fragment-IsOpened :
    (clock : ℕ) (key : FragmentKey) (p : ParsedPacket) (r : Reassembler)
    → IsAccounted r
    → IsOpened key (open_fragment clock key p r).0 r (open_fragment clock key p r).1
unfolding open_fragment
open_fragment-IsOpened clock key p r h = elim (Option-cases (get key r.states)) [
  | inl missing ↦ rw missing (open_missing clock key p r h missing)
  | inr (t, found) ↦ rw found (open_known clock key p r t h found)
]
