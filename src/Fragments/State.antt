-- ===== src/Fragments/State.antt =====
-- The state of `FragmentReassembler`, and how datagrams leave it.
use packet_inspector_windows.Prelude.{
  ℕ, zero, suc, ◌+◌, ◌-◌, ◌≡◌, ◌↔◌, Bool, true, false, ◌&&◌, ◌||◌, Option, none, some, List, [],
  ◌∷◌, Text, Eq, arith, length, ltb, ◌==◌, eq_list, eq_list_iff, if◌then◌else◌,
}
use packet_inspector_windows.OrderedDict.{OrderedDict, get, remove}
use packet_inspector_windows.Models.{ParsedPacket}
use packet_inspector_windows.Segments.{Segment}

pub record FragmentKey : Type 0 where
  pub session_id : Text
  pub interface : Text
  pub vlan_ids : List ℕ
  pub ip_version : ℕ
  pub src : Text
  pub dst : Text
  pub protocol : ℕ
  pub fragment_id : ℕ

unfoldable pub key_eq : FragmentKey → FragmentKey → Bool
unfolding eq_list
key_eq a b =
    eq_list a.session_id b.session_id
    && eq_list a.interface b.interface
    && eq_list a.vlan_ids b.vlan_ids
    && a.ip_version == b.ip_version
    && eq_list a.src b.src
    && eq_list a.dst b.dst
    && a.protocol == b.protocol
    && a.fragment_id == b.fragment_id

pub key_eq_iff : (a b : FragmentKey) → (key_eq a b ≡ true) ↔ (a ≡ b)
unfolding key_eq
key_eq_iff a b = ground (
  arith,
  eq_list_iff a.session_id b.session_id,
  eq_list_iff a.interface b.interface,
  eq_list_iff a.vlan_ids b.vlan_ids,
  eq_list_iff a.src b.src,
  eq_list_iff a.dst b.dst,
)

instance abbrev pub fragment_keys : Eq FragmentKey
fragment_keys = record { test = key_eq; test_iff = key_eq_iff }

-- `_FragmentState`. A `_ByteRange` is a segment with nothing beside its bytes; the keys of the
-- dictionary `source_packet_ids` are a list, in order of insertion.
pub record FragmentState : Type 0 where
  pub first_fragment : Option ParsedPacket
  pub ranges : List (Segment (Unit {0}))
  pub final_end : Option ℕ
  pub last_seen_ns : ℕ
  pub activity_ns : ℕ
  pub first_seen_ns : ℕ
  pub latest_packet_id : ℕ
  pub truncated : Bool
  pub buffered_bytes : ℕ
  pub source_packet_ids : List ℕ

pub record Limits : Type 0 where
  pub idle_ns : ℕ
  pub max_datagrams : ℕ
  pub max_datagram_bytes : ℕ
  pub max_buffered_bytes : ℕ
  pub max_ranges_per_datagram : ℕ
  pub max_buffered_ranges : ℕ
  pub max_buffered_provenance_entries : ℕ

pub record Reassembler : Type 0 where
  pub limits : Limits
  pub states : OrderedDict FragmentKey FragmentState
  pub buffered_bytes : ℕ
  pub buffered_ranges : ℕ
  pub buffered_provenance_entries : ℕ
  pub peak_buffered_ranges : ℕ
  pub peak_buffered_provenance_entries : ℕ
  pub expired_datagrams : ℕ
  pub evicted_datagrams : ℕ
  pub overlap_conflicts : ℕ
  pub malformed_fragments : ℕ

-- `__init__`, from the limits it has worked out; `none` is its `ValueError`.
unfoldable pub create : Limits → Option Reassembler
create l =
    if ltb l.max_datagrams 1
      || ltb l.max_datagram_bytes 1
      || ltb l.max_buffered_bytes 1
      || ltb l.max_ranges_per_datagram 1
      || ltb l.max_buffered_ranges 1
      || ltb l.max_buffered_provenance_entries 1
    then none
    else some (record {
      limits = l;
      states = [];
      buffered_bytes = 0;
      buffered_ranges = 0;
      buffered_provenance_entries = 0;
      peak_buffered_ranges = 0;
      peak_buffered_provenance_entries = 0;
      expired_datagrams = 0;
      evicted_datagrams = 0;
      overlap_conflicts = 0;
      malformed_fragments = 0;
    })

-- `_key`, for a packet with that fragment identification.
unfoldable pub key_of : ℕ → ParsedPacket → FragmentKey
key_of fragment_id p = record {
  session_id = p.session_id;
  interface = p.interface;
  vlan_ids = p.vlan_ids;
  ip_version = p.ip_version;
  src = p.src;
  dst = p.dst;
  protocol = p.protocol;
  fragment_id = fragment_id;
}

unfoldable pub fresh_state : ℕ → ParsedPacket → FragmentState
fresh_state clock p = record {
  first_fragment = none;
  ranges = [];
  final_end = none;
  last_seen_ns = p.timestamp_ns;
  activity_ns = clock;
  first_seen_ns = p.timestamp_ns;
  latest_packet_id = p.packet_id;
  truncated = false;
  buffered_bytes = 0;
  source_packet_ids = [];
}

unfoldable pub drop_state : FragmentKey → Option FragmentState → Reassembler → Reassembler
drop_state key none r = r
drop_state key (some state) r = record r {
  states = remove key r.states;
  buffered_bytes = r.buffered_bytes - state.buffered_bytes;
  buffered_ranges = r.buffered_ranges - length state.ranges;
  buffered_provenance_entries = r.buffered_provenance_entries - length state.source_packet_ids;
}

-- `_discard`
unfoldable pub discard : FragmentKey → Reassembler → Reassembler
unfolding drop_state
discard key r = drop_state key (get key r.states) r

-- The test of the loop in `_evict_to_limits`.
unfoldable pub over_limits : Reassembler → Bool
over_limits r =
    ltb r.limits.max_datagrams (length r.states)
    || ltb r.limits.max_buffered_bytes r.buffered_bytes
    || ltb r.limits.max_buffered_ranges r.buffered_ranges
    || ltb r.limits.max_buffered_provenance_entries r.buffered_provenance_entries

-- `next(iter(self._states))` and its discard. On an empty dictionary Python raises
-- `StopIteration`; the reassembler is then over no limit, so the loop does not come here.
unfoldable pub discard_oldest : OrderedDict FragmentKey FragmentState → Reassembler → Reassembler
discard_oldest [] r = r
discard_oldest ((key, _) ∷ _) r = discard key r

abbrev pub evict_one : Reassembler → Reassembler
evict_one r =
    let less = discard_oldest r.states r in
    record less { evicted_datagrams = less.evicted_datagrams + 1 }

-- The loop, on fuel: one round for each datagram is enough.
unfoldable pub evict_rounds : ℕ → Reassembler → Reassembler
evict_rounds zero r = r
evict_rounds (suc n) r =
    let rest = evict_rounds n (evict_one r) in if over_limits r then rest else r

-- `_evict_to_limits`
unfoldable pub evict_to_limits : Reassembler → Reassembler
evict_to_limits r = evict_rounds (length r.states) r
