-- ===== src/Packets/Link.antt =====
-- Link layer: VLAN tags and the supported data-link types.
use packet_inspector_windows.Prelude.{
  ℕ, zero, suc, ◌+◌, ◌*◌, ◌/◌, ◌%◌, Bool, not, ◌||◌, List, [], ◌∷◌, ◌++◌, Bytes, length, drop, ltb,
  ◌==◌, if◌then◌else◌,
}
use packet_inspector_windows.Packets.Result.{
  Reason, two_byte_field, too_many_vlan_tags, short_vlan_header, short_loopback, unsupported_family,
  short_ethernet, short_sll, short_sll2, empty_raw, bad_raw_version, unsupported_datalink, Result,
  ok, err, decode_error, ◌>>=◌, ◌>>◌, reject_if, byte, when,
}

abbrev pub dlt_null : ℕ
dlt_null = 0

abbrev pub dlt_en10mb : ℕ
dlt_en10mb = 1

abbrev pub dlt_raw : ℕ
dlt_raw = 12

abbrev pub dlt_linux_sll : ℕ
dlt_linux_sll = 113

abbrev pub dlt_ipv4 : ℕ
dlt_ipv4 = 228

abbrev pub dlt_ipv6 : ℕ
dlt_ipv6 = 229

abbrev pub dlt_linux_sll2 : ℕ
dlt_linux_sll2 = 276

abbrev pub ethertype_ipv4 : ℕ
ethertype_ipv4 = 0x0800

abbrev pub ethertype_ipv6 : ℕ
ethertype_ipv6 = 0x86DD

abbrev pub is_vlan : ℕ → Bool
is_vlan t = t == 0x8100 || t == 0x88A8 || t == 0x9100 || t == 0x9200

abbrev pub max_vlan_tags : ℕ
max_vlan_tags = 8

-- `_u16`, big-endian.
unfoldable pub u16 : Bytes → ℕ → Result ℕ
u16 bytes offset = do
  reject_if (ltb (length bytes) (offset + 2)) two_byte_field
  high ← byte bytes offset
  low ← byte bytes (offset + 1)
  ok (high * 256 + low)

-- `_strip_vlan_tags`. The first argument is the number of tags that may still come, so the loop
-- runs `_MAX_VLAN_TAGS` times and then meets its limit test.
unfoldable pub strip_vlan_tags : ℕ → List ℕ → Bytes → ℕ → ℕ → Result (ℕ × Bytes × List ℕ)
unfolding u16
strip_vlan_tags zero vlans raw ether_type offset =
    when (is_vlan ether_type) (err (decode_error too_many_vlan_tags))
      (ok (ether_type, drop offset raw, vlans))
strip_vlan_tags (suc room) vlans raw ether_type offset =
    let tagged = (do
      reject_if (ltb (length raw) (offset + 4)) short_vlan_header
      tci ← u16 raw offset
      next_type ← u16 raw (offset + 2)
      strip_vlan_tags room (vlans ++ (tci % 4096) ∷ []) raw next_type (offset + 4)) in
    when (is_vlan ether_type) tagged (ok (ether_type, drop offset raw, vlans))

-- `int.from_bytes(raw[:4], ...)` in both byte orders.
abbrev little_32 : ℕ → ℕ → ℕ → ℕ → ℕ
little_32 a b c d = a + 256 * b + 65536 * c + 16777216 * d

abbrev is_family : ℕ → Bool
is_family f = f == 2 || f == 24

unfoldable pub loopback_payload : Bytes → Result (ℕ × Bytes × List ℕ)
loopback_payload raw = do
  reject_if (ltb (length raw) 4) short_loopback
  a ← byte raw 0
  b ← byte raw 1
  c ← byte raw 2
  d ← byte raw 3
  let family = if is_family (little_32 a b c d) then little_32 a b c d else little_32 d c b a
  reject_if (not (is_family family)) unsupported_family
  ok (if family == 2 then ethertype_ipv4 else ethertype_ipv6, drop 4 raw, [])

unfoldable pub raw_payload : Bytes → Result (ℕ × Bytes × List ℕ)
raw_payload raw = do
  reject_if (length raw == 0) empty_raw
  first ← byte raw 0
  when (first / 16 == 4) (ok (ethertype_ipv4, raw, []))
      (when (first / 16 == 6) (ok (ethertype_ipv6, raw, [])) (err (decode_error bad_raw_version)))

-- A link header of `size` bytes with its protocol field at `field`.
unfoldable pub tagged_payload : ℕ → ℕ → Reason → Bytes → Result (ℕ × Bytes × List ℕ)
unfolding strip_vlan_tags u16
tagged_payload size field reason raw = do
  reject_if (ltb (length raw) size) reason
  ether_type ← u16 raw field
  strip_vlan_tags max_vlan_tags [] raw ether_type size

-- `_link_payload`
unfoldable pub link_payload : Bytes → ℕ → Result (ℕ × Bytes × List ℕ)
unfolding loopback_payload raw_payload tagged_payload
link_payload raw datalink = when (datalink == dlt_null) (loopback_payload raw) (
    when (datalink == dlt_en10mb) (tagged_payload 14 12 short_ethernet raw) (
      when (datalink == dlt_linux_sll) (tagged_payload 16 14 short_sll raw) (
        when (datalink == dlt_linux_sll2) (tagged_payload 20 0 short_sll2 raw) (
          when (datalink == dlt_raw) (raw_payload raw) (
            when (datalink == dlt_ipv4) (ok (ethertype_ipv4, raw, [])) (
              when (datalink == dlt_ipv6) (ok (ethertype_ipv6, raw, []))
                (err (decode_error unsupported_datalink))))))))
