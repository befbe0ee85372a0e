-- ===== src/Packets/Network.antt =====
-- Network layer: IPv4 and IPv6 headers and the IPv6 extension chain.
use packet_inspector_windows.Prelude.{
  ℕ, zero, suc, ◌+◌, ◌*◌, ◌/◌, ◌%◌, min, Bool, false, not, ◌&&◌, ◌||◌, Option, none, some, List, [],
  Bytes, Text, length, slice, ltb, ◌==◌, if◌then◌else◌,
}
use packet_inspector_windows.Models.{CapturedPacket, ParsedPacket}
use packet_inspector_windows.Packets.Result.{
  short_ipv4, bad_ipv4_version, bad_ipv4_header_length, bad_ipv4_total_length, short_ipv6,
  bad_ipv6_version, short_fragment_header, short_extension, bad_extension_length,
  short_authentication, bad_authentication_length, too_many_extensions, Result, ok, err,
  decode_error, struct_error, ◌>>=◌, ◌>>◌, reject_if, byte, when,
}
use packet_inspector_windows.Packets.Link.{u16}

-- `str(ipaddress.IPv4Address(...))` and `str(ipaddress.IPv6Address(...))`.
pub record AddressText : Type 0 where
  pub ipv4 : Bytes → Text
  pub ipv6 : Bytes → Text

-- `struct.unpack_from("!I", data, offset)[0]`
unfoldable pub u32 : Bytes → ℕ → Result ℕ
u32 bytes offset = when (ltb (length bytes) (offset + 4)) (err struct_error) (do
  a ← byte bytes offset
  b ← byte bytes (offset + 1)
  c ← byte bytes (offset + 2)
  d ← byte bytes (offset + 3)
  ok (a * 16777216 + b * 65536 + c * 256 + d))

abbrev pub ipproto_tcp : ℕ
ipproto_tcp = 6

abbrev pub ipproto_udp : ℕ
ipproto_udp = 17

abbrev pub ipproto_fragment : ℕ
ipproto_fragment = 44

-- `_IPV6_EXTENSION_HEADERS`
abbrev pub is_extension : ℕ → Bool
is_extension h = h == 0 || h == 43 || h == 60 || h == 135 || h == 139 || h == 140

abbrev pub max_extension_headers : ℕ
max_extension_headers = 16

module _ (text : AddressText) where
  -- `_parse_ipv4`
  unfoldable pub parse_ipv4 : CapturedPacket → Bytes → List ℕ → Result ParsedPacket
  unfolding u16
  parse_ipv4 packet network vlan_ids = do
    reject_if (ltb (length network) 20) short_ipv4
    version ← byte network 0
    reject_if (not (version / 16 == 4)) bad_ipv4_version
    let ihl = (version % 16) * 4
    reject_if (ltb ihl 20 || ltb (length network) ihl) bad_ipv4_header_length
    total_length ← u16 network 2
    reject_if (ltb total_length ihl) bad_ipv4_total_length
    flags_and_offset ← u16 network 6
    protocol ← byte network 9
    identification ← u16 network 4
    let fragment_offset = (flags_and_offset % 8192) * 8
    let more_fragments = (flags_and_offset / 8192) % 2 == 1
    ok (record {
      session_id = packet.session_id;
      packet_id = packet.packet_id;
      timestamp_ns = packet.timestamp_ns;
      interface = packet.interface;
      captured_length = packet.captured_length;
      wire_length = packet.wire_length;
      ip_version = 4;
      src = text.ipv4 (slice network 12 16);
      dst = text.ipv4 (slice network 16 20);
      protocol = protocol;
      vlan_ids = vlan_ids;
      network_payload = slice network ihl (min (length network) total_length);
      truncated =
          ltb (length network) total_length || ltb packet.captured_length packet.wire_length;
      fragment_id =
          if more_fragments || not (fragment_offset == 0) then some identification else none;
      fragment_offset = fragment_offset;
      more_fragments = more_fragments;
      transport_parsed = false;
      sport = 0;
      dport = 0;
      tcp_seq = 0;
      tcp_ack = 0;
      tcp_flags = 0;
      transport_payload = [];
      source_packet_ids = [];
    })

-- Where the walk over the extension headers stands when it breaks off.
pub record Extension : Type 0 where
  pub next_header : ℕ
  pub offset : ℕ
  pub fragment_id : Option ℕ
  pub fragment_offset : ℕ
  pub more_fragments : Bool

abbrev unfragmented : ℕ → ℕ → Extension
unfragmented next_header offset = record {
  next_header = next_header;
  offset = offset;
  fragment_id = none;
  fragment_offset = 0;
  more_fragments = false;
}

-- The branch of a fragment header.
unfoldable pub fragment_header : Bytes → ℕ → ℕ → Result Extension
unfolding u16 u32
fragment_header network available_end offset = do
  reject_if (ltb available_end (offset + 8)) short_fragment_header
  fragment_next ← byte network offset
  bits ← u16 network (offset + 2)
  identification ← u32 network (offset + 4)
  ok (record {
    next_header = fragment_next;
    offset = offset + 8;
    fragment_id = some identification;
    fragment_offset = ((bits / 8) % 8192) * 8;
    more_fragments = bits % 2 == 1;
  })

-- The loop of `_parse_ipv6`, with the rounds that `range(_MAX_IPV6_EXTENSION_HEADERS)` has left.
unfoldable pub walk : ℕ → Bytes → ℕ → ℕ → ℕ → Result Extension
unfolding fragment_header
walk zero network available_end next_header offset = err (decode_error too_many_extensions)
walk (suc rounds) network available_end next_header offset =
    let extension = (do
      reject_if (ltb available_end (offset + 2)) short_extension
      following ← byte network offset
      units ← byte network (offset + 1)
      let header_length = (units + 1) * 8
      reject_if (ltb header_length 8 || ltb available_end (offset + header_length))
          bad_extension_length
      walk rounds network available_end following (offset + header_length)) in
    let authentication = (do
      reject_if (ltb available_end (offset + 2)) short_authentication
      following ← byte network offset
      units ← byte network (offset + 1)
      let header_length = (units + 2) * 4
      reject_if (ltb header_length 8 || ltb available_end (offset + header_length))
          bad_authentication_length
      walk rounds network available_end following (offset + header_length)) in
    when (next_header == ipproto_fragment) (fragment_header network available_end offset) (
      when (is_extension next_header) extension
        (when (next_header == 51) authentication (ok (unfragmented next_header offset))))

module _ (text : AddressText) where
  -- `_parse_ipv6`
  unfoldable pub parse_ipv6 : CapturedPacket → Bytes → List ℕ → Result ParsedPacket
  unfolding u16
  parse_ipv6 packet network vlan_ids = do
    reject_if (ltb (length network) 40) short_ipv6
    version ← byte network 0
    reject_if (not (version / 16 == 6)) bad_ipv6_version
    payload_length ← u16 network 4
    let declared_end = if payload_length == 0 then length network else 40 + payload_length
    let available_end = min (length network) declared_end
    first ← byte network 6
    e ← walk max_extension_headers network available_end first 40
    ok (record {
      session_id = packet.session_id;
      packet_id = packet.packet_id;
      timestamp_ns = packet.timestamp_ns;
      interface = packet.interface;
      captured_length = packet.captured_length;
      wire_length = packet.wire_length;
      ip_version = 6;
      src = text.ipv6 (slice network 8 24);
      dst = text.ipv6 (slice network 24 40);
      protocol = e.next_header;
      vlan_ids = vlan_ids;
      network_payload = slice network e.offset available_end;
      truncated =
          (not (payload_length == 0) && ltb (length network) declared_end)
          || ltb packet.captured_length packet.wire_length;
      fragment_id = e.fragment_id;
      fragment_offset = e.fragment_offset;
      more_fragments = e.more_fragments;
      transport_parsed = false;
      sport = 0;
      dport = 0;
      tcp_seq = 0;
      tcp_ack = 0;
      tcp_flags = 0;
      transport_payload = [];
      source_packet_ids = [];
    })
