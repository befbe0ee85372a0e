-- ===== src/Tcp/State.antt =====
-- The state of `TCPReassembler`, its limits, and sequence unwrapping.
use packet_inspector_windows.Prelude.{
  ℕ, ◌+◌, ◌-◌, ◌*◌, ◌%◌, ◌^◌, ◌≡◌, ◌↔◌, Bool, true, false, ◌&&◌, ◌||◌, Option, none, some, List, [],
  Bytes, Text, Eq, arith, min, ltb, eq_list, eq_list_iff, if◌then◌else◌,
}
use packet_inspector_windows.Prelude.Int.{ℤ, pos, sub_ℕ}
use packet_inspector_windows.OrderedDict.{OrderedDict}
use packet_inspector_windows.Models.{FlowKey, flow_key_eq, flow_key_eq_iff}
use packet_inspector_windows.Segments.{Segment}

-- What a `_TcpSegment` keeps beside its bytes.
pub record TcpInfo : Type 0 where
  pub packet_ids : List ℕ
  pub timestamp_ns : ℕ

abbrev pub TcpSegment : Type 0
TcpSegment = Segment TcpInfo

-- `_DirectionState`. An acknowledgement may unwrap to a negative position.
pub record DirectionState : Type 0 where
  pub connection_epoch : ℕ
  pub next_seq : Option ℕ
  pub stream_offset : ℕ
  pub midstream : Bool
  pub had_gap : Bool
  pub syn_seq : Option ℕ
  pub pending : List TcpSegment
  pub pending_bytes : ℕ
  pub consumed_history_start : Option ℕ
  pub consumed_history : Bytes
  pub peer_acked_seq : Option ℤ
  pub last_seen_ns : ℕ
  pub closed : Bool

-- `_FlowState`, with the two entries of its tuple `directions`.
pub record FlowState : Type 0 where
  pub flow : FlowKey
  pub connection_epoch : ℕ
  pub forward : DirectionState
  pub backward : DirectionState
  pub last_seen_ns : ℕ
  pub activity_ns : ℕ

-- The key of a flow: (session_id, FlowKey).
pub record FlowId : Type 0 where
  pub session_id : Text
  pub flow : FlowKey

unfoldable pub flow_id_eq : FlowId → FlowId → Bool
unfolding eq_list flow_key_eq
flow_id_eq a b = eq_list a.session_id b.session_id && flow_key_eq a.flow b.flow

pub flow_id_eq_iff : (a b : FlowId) → (flow_id_eq a b ≡ true) ↔ (a ≡ b)
unfolding flow_id_eq
flow_id_eq_iff a b =
    ground (arith, eq_list_iff a.session_id b.session_id, flow_key_eq_iff a.flow b.flow)

instance abbrev pub flow_ids : Eq FlowId
flow_ids = record { test = flow_id_eq; test_iff = flow_id_eq_iff }

pub record Limits : Type 0 where
  pub idle_ns : ℕ
  pub max_flows : ℕ
  pub max_out_of_order : ℕ
  pub max_stream_bytes_per_direction : ℕ
  pub max_buffered_bytes : ℕ
  pub max_buffered_segments : ℕ
  pub consumed_history_bytes : ℕ
  pub max_segments_per_direction : ℕ

abbrev pub max_pending_per_direction : Limits → ℕ
max_pending_per_direction l = min l.max_out_of_order l.max_stream_bytes_per_direction

-- The counters that every method shares.
pub record Counters : Type 0 where
  pub buffered_bytes : ℕ
  pub buffered_segments : ℕ
  pub peak_buffered_segments : ℕ
  pub evicted_flows : ℕ
  pub budget_evicted_flows : ℕ
  pub expired_flows : ℕ
  pub retransmitted_bytes : ℕ
  pub overlap_conflicts : ℕ
  pub gap_bytes : ℕ

pub record Reassembler : Type 0 where
  pub limits : Limits
  pub flows : OrderedDict FlowId FlowState
  pub next_connection_epoch : ℕ
  pub counters : Counters

-- `__init__`, from the limits it has worked out; `none` is its `ValueError`. The namespace is
-- shifted left by 32 bits and its lowest bit is set.
unfoldable pub create : Limits → ℕ → Option Reassembler
create l epoch_namespace =
    if ltb l.max_flows 1
      || ltb l.max_out_of_order 1
      || ltb l.max_stream_bytes_per_direction 1
      || ltb l.max_buffered_bytes 1
      || ltb l.max_buffered_segments 1
      || ltb l.consumed_history_bytes 1
      || ltb l.max_segments_per_direction 1
    then none
    else some (record {
      limits = l;
      flows = [];
      next_connection_epoch = epoch_namespace * 2 ^ 32 + 1;
      counters = record {
        buffered_bytes = 0;
        buffered_segments = 0;
        peak_buffered_segments = 0;
        evicted_flows = 0;
        budget_evicted_flows = 0;
        expired_flows = 0;
        retransmitted_bytes = 0;
        overlap_conflicts = 0;
        gap_bytes = 0;
      };
    })

-- `_unwrap_sequence`: `reference & ~0xFFFFFFFF` is `reference - reference % 2 ** 32`, and the low
-- bits that `|` adds to it are a sum.
unfoldable pub unwrap_sequence : ℕ → ℕ → ℤ
unwrap_sequence sequence reference =
    let candidate = reference - reference % 2 ^ 32 + sequence % 2 ^ 32 in
    if ltb (reference + 2 ^ 31) candidate
    then sub_ℕ candidate (2 ^ 32)
    else if ltb (candidate + 2 ^ 31) reference
    then pos (candidate + 2 ^ 32)
    else pos candidate

unfoldable pub fresh_direction : ℕ → DirectionState
fresh_direction epoch = record {
  connection_epoch = epoch;
  next_seq = none;
  stream_offset = 0;
  midstream = false;
  had_gap = false;
  syn_seq = none;
  pending = [];
  pending_bytes = 0;
  consumed_history_start = none;
  consumed_history = [];
  peer_acked_seq = none;
  last_seen_ns = 0;
  closed = false;
}

unfoldable pub fresh_flow : FlowKey → ℕ → ℕ → ℕ → FlowState
unfolding fresh_direction
fresh_flow flow epoch timestamp_ns clock = record {
  flow = flow;
  connection_epoch = epoch;
  forward = fresh_direction epoch;
  backward = fresh_direction epoch;
  last_seen_ns = timestamp_ns;
  activity_ns = clock;
}
