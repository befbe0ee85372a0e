-- ===== src/Http.antt =====
-- packet_audit/http_forms.py: the framing of HTTP/1 bodies.
mod Chunks
pub mod Spans
pub mod Body
pub use Chunks.{
  Problem, chunk_limit, invalid_chunk, body_limit, Span, Chunked, incomplete, refused, decoded,
}
unfoldable pub use Chunks.{
  before_extension, hexadecimal, chunk_size, last_chunk, chunk_loop, chunked,
}
