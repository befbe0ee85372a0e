-- ===== src/Packets.antt =====
-- packet_audit/packets.py: bounds-checked decoding of link, IP, TCP and UDP headers.
pub mod Result
mod Link
mod Network
mod Transport
pub mod Safety
unfoldable pub use Link.{u16, strip_vlan_tags, link_payload}
pub use Network.{AddressText, Extension}
pub use Network.{ipproto_tcp}
unfoldable pub use Network.{u32, walk, parse_ipv4, parse_ipv6}
pub use Transport.{Headers}
unfoldable pub use Transport.{
  skip_headers, normalize_reassembled_ipv6, parse_udp, apply_headers, parse_transport,
  parse_packet_strict, parse_packet,
}
