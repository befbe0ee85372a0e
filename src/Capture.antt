-- ===== src/Capture.antt =====
-- packet_audit/capture.py: the classic capture file reader, and the batching over it.
mod Classic
mod Source
pub mod Format
pub mod Replay
pub use Classic.{
  CaptureFault, Outcome, ok, err, Endian, little, big, Precision, micro, nano, RecordHeader, Handle,
}
unfoldable pub use Classic.{int_of, open_handle, next, close_handle}
pub use Source.{PacketSource, CaptureStats}
unfoldable pub use Source.{create, timestamp_ns, make_record, read_batch, packets, close, stats}
