-- ===== src/Fragments/Process.antt =====
-- `FragmentReassembler.process` and `expire`.
use packet_inspector_windows.Prelude.{
  ℕ, ◌+◌, ◌-◌, ◌%◌, max, Bool, true, false, not, ◌&&◌, ◌||◌, Option, none, some, List, [], ◌∷◌,
  ◌++◌, Bytes, length, ltb, leb, ◌==◌, is_nil, if◌then◌else◌,
}
use packet_inspector_windows.OrderedDict.{OrderedDict, get, put, move_to_end, contains}
use packet_inspector_windows.Models.{ParsedPacket, contributing_ids}
use packet_inspector_windows.Segments.{
  Segment, end_of, total_bytes, uncovered, merge_adjacent, has_conflicting_overlap,
}
use packet_inspector_windows.Packets.Result.{Result, ok, ◌>>=◌}
use packet_inspector_windows.Packets.{normalize_reassembled_ipv6, parse_transport}
use packet_inspector_windows.Fragments.State.{
  FragmentKey, FragmentState, Reassembler, fragment_keys, key_of, fresh_state, discard,
  evict_to_limits,
}

abbrev pub Outcome : Type 0
Outcome = Result (Option ParsedPacket) × Reassembler

-- Nothing to hand on yet.
abbrev pub pending : Reassembler → Outcome
pending r = (ok none, r)

-- The state for a fragment: the stored one, now the newest, or a fresh one.
abbrev pub opened : ℕ → ParsedPacket → Option FragmentState → FragmentState
opened clock p none = fresh_state clock p
opened clock p (some state) = state

abbrev pub reopened :
    FragmentKey
    → Option FragmentState
    → OrderedDict FragmentKey FragmentState
    → OrderedDict FragmentKey FragmentState
reopened key none states = states
reopened key (some _) states = move_to_end key states

abbrev pub is_none : Option ParsedPacket → Bool
is_none none = true
is_none (some _) = false

-- What every fragment updates. The second reading of the clock is the one that stays.
unfoldable pub touch : ℕ → ParsedPacket → FragmentState → FragmentState
touch clock p state = record state {
  last_seen_ns = max state.last_seen_ns p.timestamp_ns;
  activity_ns = clock;
  latest_packet_id = max state.latest_packet_id p.packet_id;
  truncated = state.truncated || p.truncated;
  first_fragment =
      if p.fragment_offset == 0 && is_none state.first_fragment
      then some p
      else state.first_fragment;
}

-- The end that the last fragment declares; `none` where it contradicts an earlier one.
declare_end : Option ℕ → ℕ → FragmentState → Option FragmentState
declare_end none final_end state = some (record state { final_end = some final_end })
declare_end (some known) final_end state =
    if known == final_end then some (record state { final_end = some final_end }) else none

unfoldable pub mark_final : ParsedPacket → FragmentState → Option FragmentState
unfolding declare_end
mark_final p state =
    if p.more_fragments
    then some state
    else declare_end state.final_end (p.fragment_offset + length p.network_payload) state

-- Membership in a tuple or in the keys of a dictionary.
unfoldable pub member : ℕ → List ℕ → Bool
member x [] = false
member x (y ∷ ys) = x == y || member x ys

-- The loop over the contributing packet ids.
unfoldable pub note_sources : List ℕ → List ℕ → List ℕ
unfolding member
note_sources known [] = known
note_sources known (i ∷ ids) = note_sources (if member i known then known else known ++ i ∷ []) ids

abbrev pub fragment_run : ParsedPacket → Segment (Unit {0})
fragment_run p = record { start = p.fragment_offset; bytes = p.network_payload; info = tt }

-- Files a fragment's new bytes in its state.
unfoldable pub absorb : ParsedPacket → FragmentState → FragmentState
unfolding note_sources
absorb p state =
    let additions = uncovered (fragment_run p) state.ranges in
    record state {
      source_packet_ids =
          if is_nil additions
          then state.source_packet_ids
          else note_sources state.source_packet_ids (contributing_ids p);
      ranges = merge_adjacent (state.ranges ++ additions);
      buffered_bytes = state.buffered_bytes + total_bytes additions;
    }

-- The totals and peaks that go with it.
unfoldable pub account : FragmentKey → FragmentState → FragmentState → Reassembler → Reassembler
account key before after r =
    let ranges = r.buffered_ranges + length after.ranges - length before.ranges in
    let provenance =
      r.buffered_provenance_entries
      + (length after.source_packet_ids - length before.source_packet_ids) in
    record r {
      states = put key after r.states;
      buffered_bytes = r.buffered_bytes + (after.buffered_bytes - before.buffered_bytes);
      buffered_ranges = ranges;
      buffered_provenance_entries = provenance;
      peak_buffered_ranges = max r.peak_buffered_ranges ranges;
      peak_buffered_provenance_entries = max r.peak_buffered_provenance_entries provenance;
    }

-- What the final loop over the ranges finds.
pub data Assembled : Type 0 where
  waiting overrun : Assembled
  assembled : Bytes → Assembled

unfoldable pub assemble_from : ℕ → Bytes → ℕ → List (Segment (Unit {0})) → Assembled
assemble_from cursor done final_end [] = if cursor == final_end then assembled done else waiting
assemble_from cursor done final_end (item ∷ items) =
    let rest = assemble_from (end_of item) (done ++ item.bytes) final_end items in
    if not (item.start == cursor)
    then waiting
    else if ltb final_end (end_of item)
    then overrun
    else if end_of item == final_end
    then assembled (done ++ item.bytes)
    else rest

unfoldable pub assemble : ℕ → List (Segment (Unit {0})) → Assembled
unfolding assemble_from
assemble = assemble_from 0 []

-- The `replace(base, ...)` of a completed datagram.
unfoldable pub finish : ParsedPacket → FragmentState → Bytes → ParsedPacket
finish base state payload = record base {
  packet_id = state.latest_packet_id;
  timestamp_ns = state.last_seen_ns;
  network_payload = payload;
  truncated = false;
  fragment_id = none;
  fragment_offset = 0;
  more_fragments = false;
  transport_parsed = false;
  sport = 0;
  dport = 0;
  tcp_seq = 0;
  tcp_ack = 0;
  tcp_flags = 0;
  transport_payload = [];
  source_packet_ids = state.source_packet_ids;
}

unfoldable pub conclude :
    FragmentKey → ParsedPacket → FragmentState → Reassembler → Assembled → Outcome
conclude key base state r waiting = pending r
conclude key base state r overrun =
    pending (discard key (record r { overlap_conflicts = r.overlap_conflicts + 1 }))
conclude key base state r (assembled payload) = (
  (do
    normalized ← normalize_reassembled_ipv6 (finish base state payload)
    parsed ← parse_transport normalized
    ok (some parsed)),
  discard key r,
)

-- Behind the limits: hand a datagram on if it is whole.
unfoldable pub conclude_if :
    FragmentKey → Option ParsedPacket → Option ℕ → FragmentState → Reassembler → Outcome
conclude_if key (some base) (some final_end) state r =
    if state.truncated
    then pending r
    else conclude key base state r (assemble final_end state.ranges)
conclude_if key _ _ state r = pending r

unfoldable pub complete : FragmentKey → FragmentState → Reassembler → Outcome
complete key state r = conclude_if key state.first_fragment state.final_end state r

-- An ambiguous datagram is dropped whole.
abbrev pub drop_conflict : FragmentKey → Reassembler → Outcome
drop_conflict key r =
    pending (discard key (record r { overlap_conflicts = r.overlap_conflicts + 1 }))

-- From the overlap test on; `state` stands in the dictionary.
unfoldable pub file_fragment :
    FragmentKey → ParsedPacket → Option FragmentState → Reassembler → Outcome
file_fragment key p none r = drop_conflict key r
file_fragment key p (some state) r =
    let after = absorb p state in
    let filed = account key state after r in
    let dropped = discard key filed in
    let kept = evict_to_limits filed in
    if has_conflicting_overlap p.fragment_offset p.network_payload state.ranges
    then drop_conflict key (record r { states = put key state r.states })
    else if ltb r.limits.max_ranges_per_datagram (length after.ranges)
    then pending (record dropped { evicted_datagrams = dropped.evicted_datagrams + 1 })
    else if not (contains key kept.states)
    then pending kept
    else complete key after kept

-- The state of the key, touched and put in its place.
unfoldable pub open_fragment :
    ℕ → FragmentKey → ParsedPacket → Reassembler → FragmentState × Reassembler
open_fragment clock key p r =
    let state = touch clock p (opened clock p (get key r.states)) in
    (state, record r { states = put key state (reopened key (get key r.states) r.states) })

unfoldable pub process_fragment : ℕ → FragmentKey → ParsedPacket → Reassembler → Outcome
process_fragment clock key p r =
    let size = length p.network_payload in
    let (state, r') = open_fragment clock key p r in
    if ltb r.limits.max_datagram_bytes (p.fragment_offset + size)
      || (p.more_fragments && (size == 0 || not (size % 8 == 0)))
    then pending (discard key (record r { malformed_fragments = r.malformed_fragments + 1 }))
    else file_fragment key p (mark_final p state) r'

unfoldable pub process_id : ℕ → ParsedPacket → Option ℕ → Reassembler → Outcome
process_id clock p none r = (ok (some p), r)
process_id clock p (some fragment_id) r =
    if p.fragment_offset == 0 && not p.more_fragments
    then (ok (some p), r)
    else process_fragment clock (key_of fragment_id p) p r

-- `process`, with the reading of `time.monotonic_ns()`. Offsets are natural numbers here, so the
-- test `offset < 0` is gone.
unfoldable pub process : ℕ → ParsedPacket → Reassembler → Outcome
process clock p r = process_id clock p p.fragment_id r

-- The stale keys on the capture clock: a full scan. `now - last_seen_ns >= idle_ns` on integers.
unfoldable pub stale_keys : ℕ → ℕ → OrderedDict FragmentKey FragmentState → List FragmentKey
stale_keys now idle [] = []
stale_keys now idle ((key, state) ∷ rest) =
    let later = stale_keys now idle rest in
    if leb (state.last_seen_ns + idle) now then key ∷ later else later

-- The stale keys on the monotonic clock: the scan stops at the first that is not stale.
unfoldable pub stale_prefix : ℕ → ℕ → OrderedDict FragmentKey FragmentState → List FragmentKey
stale_prefix now idle [] = []
stale_prefix now idle ((key, state) ∷ rest) =
    let later = stale_prefix now idle rest in
    if ltb now (state.activity_ns + idle) then [] else key ∷ later

unfoldable pub discard_all : List FragmentKey → Reassembler → Reassembler
discard_all [] r = r
discard_all (key ∷ keys) r = discard_all keys (discard key r)

abbrev drop_stale : List FragmentKey → Reassembler → ℕ × Reassembler
drop_stale stale r =
    let left = discard_all stale r in
    (length stale, record left { expired_datagrams = left.expired_datagrams + length stale })

-- `expire(now_ns)` with an explicit capture clock.
unfoldable pub expire : ℕ → Reassembler → ℕ × Reassembler
unfolding stale_keys discard_all
expire now r = drop_stale (stale_keys now r.limits.idle_ns r.states) r

-- `expire()`, with the reading of `time.monotonic_ns()`.
unfoldable pub expire_lru : ℕ → Reassembler → ℕ × Reassembler
unfolding stale_prefix discard_all
expire_lru now r = drop_stale (stale_prefix now r.limits.idle_ns r.states) r
