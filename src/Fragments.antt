-- ===== src/Fragments.antt =====
-- packet_audit/reassembly.py, `FragmentReassembler`: IP fragments to whole datagrams, with limits
-- on ranges, bytes and provenance. A call returns its result and the new reassembler.
mod State
mod Process
pub mod Assembly
pub mod Whole
pub mod Datagram
pub mod Accounting
pub mod Bounded
pub mod Opened
pub mod Budget
pub mod Lifetime
pub mod Evicted
pub mod Spread
pub mod Sized
pub mod Collected
pub mod Delivery
pub use State.{fragment_keys}
pub use State.{FragmentKey, FragmentState, Limits, Reassembler}
unfoldable pub use State.{
  key_eq, key_of, fresh_state, create, drop_state, discard, over_limits, evict_rounds,
  evict_to_limits,
}
pub use Process.{Assembled}
unfoldable pub use Process.{
  touch, mark_final, member, note_sources, absorb, account, assemble_from, assemble, finish,
  conclude, conclude_if, complete, file_fragment, open_fragment, process_fragment, process_id,
  process, stale_keys, expire, expire_lru,
}
