-- ===== src/Packets/Transport.antt =====
-- Transport layer, and the entry points that compose the layers.
use packet_inspector_windows.Prelude.{
  ℕ, zero, suc, ◌+◌, ◌*◌, ◌/◌, min, true, false, not, ◌&&◌, ◌||◌, Option, none, some, List, [],
  Bytes, length, drop, slice, ltb, ◌==◌, if◌then◌else◌,
}
use packet_inspector_windows.Models.{CapturedPacket, ParsedPacket}
use packet_inspector_windows.Packets.Result.{
  Result, ok, err, decode_error, index_error, struct_error, ◌>>=◌, byte, when,
}
use packet_inspector_windows.Packets.Link.{u16, link_payload, ethertype_ipv4, ethertype_ipv6}
use packet_inspector_windows.Packets.Network.{
  AddressText, u32, is_extension, max_extension_headers, ipproto_tcp, ipproto_udp, parse_ipv4,
  parse_ipv6,
}

-- Where the walk behind a fragment header ends: in a header cut short, or at a header that is no
-- extension.
pub data Headers : Type 0 where
  short : Headers
  reached : ℕ → ℕ → Headers

-- The loop of `normalize_reassembled_ipv6`: running out of rounds is no error here.
unfoldable pub skip_headers : ℕ → Bytes → ℕ → ℕ → Result Headers
skip_headers zero payload next_header offset = ok (reached next_header offset)
skip_headers (suc rounds) payload next_header offset =
    let extension = (do
      following ← byte payload offset
      units ← byte payload (offset + 1)
      let header_length = (units + 1) * 8
      let rest = skip_headers rounds payload following (offset + header_length)
      when (ltb header_length 8 || ltb (length payload) (offset + header_length)) (ok short)
          rest) in
    let authentication = (do
      following ← byte payload offset
      units ← byte payload (offset + 1)
      let header_length = (units + 2) * 4
      let rest = skip_headers rounds payload following (offset + header_length)
      when (ltb header_length 8 || ltb (length payload) (offset + header_length)) (ok short)
          rest) in
    let cut_off = ltb (length payload) (offset + 2) in
    when (is_extension next_header) (when cut_off (ok short) extension) (
      when (next_header == 51) (when cut_off (ok short) authentication)
        (ok (reached next_header offset)))

abbrev pub mark_truncated : ParsedPacket → ParsedPacket
mark_truncated p = record p { truncated = true; transport_parsed = false }

unfoldable pub apply_headers : ParsedPacket → Headers → ParsedPacket
apply_headers p short = mark_truncated p
apply_headers p (reached next_header offset) = record p {
  protocol = next_header;
  network_payload = drop offset p.network_payload;
}

unfoldable pub normalize_reassembled_ipv6 : ParsedPacket → Result ParsedPacket
unfolding skip_headers apply_headers
normalize_reassembled_ipv6 p = when (not (p.ip_version == 6)) (ok p) (do
  headers ← skip_headers max_extension_headers p.network_payload p.protocol 0
  ok (apply_headers p headers))

-- The TCP branch of `parse_transport`.
unfoldable pub parse_tcp : ParsedPacket → Result ParsedPacket
unfolding u16 u32
parse_tcp p =
    let payload = p.network_payload in
    when (ltb (length payload) 20) (ok (mark_truncated p)) (do
      offset_byte ← byte payload 12
      let data_offset = (offset_byte / 16) * 4
      when (ltb data_offset 20 || ltb (length payload) data_offset) (ok (mark_truncated p)) (do
        sport ← u16 payload 0
        dport ← u16 payload 2
        seq ← u32 payload 4
        ack ← u32 payload 8
        flags ← byte payload 13
        ok (record p {
          network_payload = [];
          sport = sport;
          dport = dport;
          tcp_seq = seq;
          tcp_ack = ack;
          tcp_flags = flags;
          transport_payload = drop data_offset payload;
          transport_parsed = true;
        })))

-- The UDP branch of `parse_transport`.
unfoldable pub parse_udp : ParsedPacket → Result ParsedPacket
unfolding u16
parse_udp p =
    let payload = p.network_payload in
    when (ltb (length payload) 8) (ok (mark_truncated p)) (do
      udp_length ← u16 payload 4
      let jumbo = udp_length == 0 && p.ip_version == 6
      let udp_end = if jumbo then length payload else min (length payload) udp_length
      when (not jumbo && ltb udp_length 8) (ok (mark_truncated p)) (do
        sport ← u16 payload 0
        dport ← u16 payload 2
        ok (record p {
          network_payload = [];
          sport = sport;
          dport = dport;
          transport_payload = slice payload 8 udp_end;
          transport_parsed = true;
          truncated = p.truncated || (not (udp_length == 0) && ltb (length payload) udp_length);
        })))

unfoldable pub parse_transport : ParsedPacket → Result ParsedPacket
unfolding parse_tcp parse_udp
parse_transport p = when (not (p.fragment_offset == 0) || p.more_fragments) (ok p) (
    when (p.protocol == ipproto_tcp) (parse_tcp p)
      (when (p.protocol == ipproto_udp) (parse_udp p) (ok p)))

module _ (text : AddressText) where
  -- The dispatch on the ethertype; a frame that is not IP gives `None`.
  unfoldable pub parse_network : CapturedPacket → ℕ × Bytes × List ℕ → Result (Option ParsedPacket)
  unfolding parse_transport parse_ipv4 parse_ipv6
  parse_network packet (ether_type, network, vlan_ids) =
      when (ether_type == ethertype_ipv4)
        (do
          parsed ← parse_ipv4 text packet network vlan_ids
          done ← parse_transport parsed
          ok (some done))
        (when (ether_type == ethertype_ipv6)
          (do
            parsed ← parse_ipv6 text packet network vlan_ids
            done ← parse_transport parsed
            ok (some done))
          (ok none))

  unfoldable pub parse_packet_strict : CapturedPacket → Result (Option ParsedPacket)
  unfolding parse_network link_payload
  parse_packet_strict packet = do
    linked ← link_payload packet.raw packet.datalink
    parse_network packet linked

  -- The lenient adapter catches `PacketDecodeError` and `struct.error`. An `IndexError` is neither
  -- and would pass through.
  unfoldable pub parse_packet : CapturedPacket → Result (Option ParsedPacket)
  unfolding parse_packet_strict
  parse_packet packet = elim (parse_packet_strict packet) [
    | ok parsed ↦ ok parsed
    | err fault ↦ elim fault [
      | decode_error reason ↦ ok none
      | struct_error ↦ ok none
      | index_error ↦ err index_error
    ]
  ]
