-- ===== src/Tcp.antt =====
-- packet_audit/reassembly.py, `TCPReassembler`: bounded reconstruction of both directions of a TCP
-- flow. Sequence numbers are unwrapped to positions that only grow; each call returns the chunks
-- it emits and the new state.
mod State
mod Draining
mod Process
pub mod Sequence
pub mod Emission
pub mod Flush
pub mod Counted
pub mod Queue
pub mod Receive
pub mod Flows
pub mod Retire
pub mod Evict
pub mod Budget
pub mod Bounded
pub mod Advance
pub mod Lifetime
pub use State.{
  TcpInfo, TcpSegment, DirectionState, FlowState, FlowId, Counters, Limits, Reassembler,
}
unfoldable pub use State.{create, unwrap_sequence, fresh_direction, fresh_flow}
pub use Draining.{Drain}
unfoldable pub use Draining.{
  remember_consumed, conflicts_with_consumed, take_segment, drain_loop, drain, skip_to_next_segment,
  flush_direction,
}
unfoldable pub use Process.{
  accept_payload, remove_flow, flush_flow, evict_oldest, process, expire, expire_lru, flush_all,
}
