-- ===== src/Packets/Safety.antt =====
-- No decoder reads outside the captured bytes: the only fault is `PacketDecodeError`.
use packet_inspector_windows.Prelude.{
  ℕ, zero, suc, ◌+◌, ◌*◌, ◌%◌, ◌<◌, ◌≤◌, ◌≡◌, refl, Bool, true, false, Option, none, List, [], ◌∷◌,
  ◌++◌, Bytes, arith, length, get_elem?_in, ◌⊎◌, inl, inr,
}
use packet_inspector_windows.Models.{CapturedPacket, ParsedPacket}
use packet_inspector_windows.Packets.Result.{
  Reason, Fault, decode_error, Result, ok, err, ◌>>=◌, ◌>>◌, reject_if, byte, when,
}
use packet_inspector_windows.Packets.Link.{
  u16, strip_vlan_tags, loopback_payload, raw_payload, tagged_payload, link_payload, max_vlan_tags,
}
use packet_inspector_windows.Packets.Network.{
  AddressText, u32, fragment_header, walk, parse_ipv4, parse_ipv6, max_extension_headers,
}
use packet_inspector_windows.Packets.Transport.{
  skip_headers, parse_tcp, parse_udp, parse_transport, normalize_reassembled_ipv6, parse_network,
  parse_packet_strict, parse_packet,
}

-- The result is a value or a `PacketDecodeError`.
pub data IsSafe {ℓ} {A : Type ℓ} : Result A → Type ℓ where
  returned : (a : A) → IsSafe (ok a)
  refused : (reason : Reason) → IsSafe (err (decode_error reason))

module _ {ℓ} {A : Type ℓ} where
  IsSafe-reject :
      (refused_if : Bool) (reason : Reason) (next : Result A)
      → (refused_if ≡ false → IsSafe next)
      → IsSafe (reject_if refused_if reason >> next)
  unfolding reject_if ◌>>=◌
  IsSafe-reject true reason next k = refused reason
  IsSafe-reject false reason next k = k refl

  IsSafe-when :
      (b : Bool) (m n : Result A)
      → (b ≡ true → IsSafe m)
      → (b ≡ false → IsSafe n)
      → IsSafe (when b m n)
  unfolding when
  IsSafe-when true m n k l = k refl
  IsSafe-when false m n k l = l refl

  -- A read inside the bytes, then the rest.
  IsSafe-byte :
      (bytes : Bytes) (i : ℕ) (next : ℕ → Result A)
      → i < length bytes
      → ((a : ℕ) → IsSafe (next a))
      → IsSafe (byte bytes i >>= next)
  unfolding byte ◌>>=◌
  IsSafe-byte bytes i next h k = let (a, found) = get_elem?_in bytes i h in rw found (k a)

module _ {ℓ κ} {A : Type ℓ} {B : Type κ} where
  IsSafe-bind :
      (m : Result A) (next : A → Result B)
      → IsSafe m
      → ((a : A) → IsSafe (next a))
      → IsSafe (m >>= next)
  unfolding ◌>>=◌
  IsSafe-bind _ next (returned a) k = k a
  IsSafe-bind _ next (refused reason) k = refused reason

pub u16-IsSafe : (bytes : Bytes) (offset : ℕ) → IsSafe (u16 bytes offset)
unfolding u16
u16-IsSafe bytes offset = IsSafe-reject _ _ _ λ fits.
    IsSafe-byte bytes offset _ (ground arith)
      λ high. IsSafe-byte bytes (offset + 1) _ (ground arith) λ low. returned _

u32-IsSafe : (bytes : Bytes) (offset : ℕ) → offset + 4 ≤ length bytes → IsSafe (u32 bytes offset)
unfolding u32
u32-IsSafe bytes offset h =
    IsSafe-when _ _ _ (λ short. absurd (ground arith))
      λ fits. IsSafe-byte bytes offset _ (omega arith) λ a.
        IsSafe-byte bytes (offset + 1) _ (omega arith) λ b.
          IsSafe-byte bytes (offset + 2) _ (omega arith)
            λ c. IsSafe-byte bytes (offset + 3) _ (omega arith) λ d. returned _

IsSafe-u16 {ℓ} :
    {A : Type ℓ} (bytes : Bytes) (offset : ℕ) (next : ℕ → Result A)
    → ((a : ℕ) → IsSafe (next a))
    → IsSafe (u16 bytes offset >>= next)
IsSafe-u16 bytes offset next k = IsSafe-bind (u16 bytes offset) next (u16-IsSafe bytes offset) k

strip_vlan_tags-IsSafe :
    (room : ℕ) (vlans : List ℕ) (raw : Bytes) (ether_type offset : ℕ)
    → IsSafe (strip_vlan_tags room vlans raw ether_type offset)
unfolding strip_vlan_tags
strip_vlan_tags-IsSafe zero vlans raw ether_type offset =
    IsSafe-when _ _ _ (λ _. refused _) (λ _. returned _)
strip_vlan_tags-IsSafe (suc room) vlans raw ether_type offset =
    IsSafe-when _ _ _
      (λ tagged. IsSafe-reject _ _ _ λ fits. IsSafe-u16 raw offset _ λ tci.
        IsSafe-u16 raw (offset + 2) _ λ next_type.
          strip_vlan_tags-IsSafe room (vlans ++ (tci % 4096) ∷ []) raw next_type (offset + 4))
      (λ _. returned _)

tagged_payload-IsSafe :
    (size field : ℕ) (reason : Reason) (raw : Bytes) → IsSafe (tagged_payload size field reason raw)
unfolding tagged_payload
tagged_payload-IsSafe size field reason raw = IsSafe-reject _ _ _ λ fits.
    IsSafe-u16 raw field _ λ ether_type. strip_vlan_tags-IsSafe max_vlan_tags [] raw ether_type size

loopback_payload-IsSafe : (raw : Bytes) → IsSafe (loopback_payload raw)
unfolding loopback_payload
loopback_payload-IsSafe raw = IsSafe-reject _ _ _ λ fits. IsSafe-byte raw 0 _ (ground arith) λ a.
    IsSafe-byte raw 1 _ (ground arith) λ b.
      IsSafe-byte raw 2 _ (ground arith)
        λ c. IsSafe-byte raw 3 _ (ground arith) λ d. IsSafe-reject _ _ _ (λ _. returned _)

raw_payload-IsSafe : (raw : Bytes) → IsSafe (raw_payload raw)
unfolding raw_payload
raw_payload-IsSafe raw = IsSafe-reject _ _ _ λ some_bytes.
    IsSafe-byte raw 0 _ (ground arith) λ first.
      IsSafe-when _ _ _ (λ _. returned _)
        (λ _. IsSafe-when _ _ _ (λ _. returned _) (λ _. refused _))

link_payload-IsSafe : (raw : Bytes) (datalink : ℕ) → IsSafe (link_payload raw datalink)
unfolding link_payload
link_payload-IsSafe raw datalink =
    IsSafe-when _ _ _ (λ _. loopback_payload-IsSafe raw)
      λ _.
        IsSafe-when _ _ _ (λ _. tagged_payload-IsSafe 14 12 _ raw)
          λ _.
            IsSafe-when _ _ _ (λ _. tagged_payload-IsSafe 16 14 _ raw)
              λ _.
                IsSafe-when _ _ _ (λ _. tagged_payload-IsSafe 20 0 _ raw)
                  λ _.
                    IsSafe-when _ _ _ (λ _. raw_payload-IsSafe raw)
                      λ _.
                        IsSafe-when _ _ _ (λ _. returned _)
                          (λ _. IsSafe-when _ _ _ (λ _. returned _) (λ _. refused _))

parse_ipv4-IsSafe :
    (text : AddressText) (packet : CapturedPacket) (network : Bytes) (vlan_ids : List ℕ)
    → IsSafe (parse_ipv4 text packet network vlan_ids)
unfolding parse_ipv4
parse_ipv4-IsSafe text packet network vlan_ids = IsSafe-reject _ _ _ λ long.
    IsSafe-byte network 0 _ (ground arith) λ version. IsSafe-reject _ _ _ λ _.
      IsSafe-reject _ _ _ λ _. IsSafe-u16 network 2 _ λ total_length. IsSafe-reject _ _ _ λ _.
        IsSafe-u16 network 6 _ λ flags.
          IsSafe-byte network 9 _ (ground arith)
            λ protocol. IsSafe-u16 network 4 _ (λ _. returned _)

fragment_header-IsSafe :
    (network : Bytes) (available_end offset : ℕ)
    → available_end ≤ length network
    → IsSafe (fragment_header network available_end offset)
unfolding fragment_header
fragment_header-IsSafe network available_end offset h = IsSafe-reject _ _ _ λ fits.
    IsSafe-byte network offset _ (ground arith) λ fragment_next.
      IsSafe-u16 network (offset + 2) _ λ bits.
        IsSafe-bind (u32 network (offset + 4)) _ (u32-IsSafe network (offset + 4) (ground arith))
          (λ _. returned _)

walk-IsSafe :
    (rounds : ℕ) (network : Bytes) (available_end next_header offset : ℕ)
    → available_end ≤ length network
    → IsSafe (walk rounds network available_end next_header offset)
unfolding walk
walk-IsSafe zero network available_end next_header offset h = refused _
walk-IsSafe (suc rounds) network available_end next_header offset h =
    IsSafe-when _ _ _ (λ _. fragment_header-IsSafe network available_end offset h)
      λ _.
        IsSafe-when _ _ _
          (λ _. IsSafe-reject _ _ _ λ fits. IsSafe-byte network offset _ (ground arith) λ following.
            IsSafe-byte network (offset + 1) _ (ground arith) λ units.
              IsSafe-reject _ _ _ λ _.
                walk-IsSafe rounds network available_end following (offset + (units + 1) * 8) h)
          λ _.
            IsSafe-when _ _ _
              (λ _. IsSafe-reject _ _ _ λ fits.
                IsSafe-byte network offset _ (ground arith) λ following.
                  IsSafe-byte network (offset + 1) _ (ground arith) λ units.
                    IsSafe-reject _ _ _ λ _.
                      walk-IsSafe rounds network available_end following (offset + (units + 2) * 4)
                        h)
              (λ _. returned _)

parse_ipv6-IsSafe :
    (text : AddressText) (packet : CapturedPacket) (network : Bytes) (vlan_ids : List ℕ)
    → IsSafe (parse_ipv6 text packet network vlan_ids)
unfolding parse_ipv6
parse_ipv6-IsSafe text packet network vlan_ids = IsSafe-reject _ _ _ λ long.
    IsSafe-byte network 0 _ (ground arith) λ version. IsSafe-reject _ _ _ λ _.
      IsSafe-u16 network 4 _ λ payload_length. IsSafe-byte network 6 _ (ground arith) λ first.
        IsSafe-bind _ _ (walk-IsSafe max_extension_headers network _ first 40 (omega arith))
          (λ _. returned _)

parse_tcp-IsSafe : (p : ParsedPacket) → IsSafe (parse_tcp p)
unfolding parse_tcp
parse_tcp-IsSafe p =
    IsSafe-when _ _ _ (λ _. returned _)
      λ long. IsSafe-byte p.network_payload 12 _ (ground arith) λ offset_byte.
        IsSafe-when _ _ _ (λ _. returned _)
          λ _. IsSafe-u16 p.network_payload 0 _ λ sport. IsSafe-u16 p.network_payload 2 _ λ dport.
            IsSafe-bind _ _ (u32-IsSafe p.network_payload 4 (ground arith)) λ seq.
              IsSafe-bind _ _ (u32-IsSafe p.network_payload 8 (ground arith))
                λ ack. IsSafe-byte p.network_payload 13 _ (ground arith) (λ _. returned _)

parse_udp-IsSafe : (p : ParsedPacket) → IsSafe (parse_udp p)
unfolding parse_udp
parse_udp-IsSafe p =
    IsSafe-when _ _ _ (λ _. returned _)
      λ long. IsSafe-u16 p.network_payload 4 _ λ udp_length.
        IsSafe-when _ _ _ (λ _. returned _)
          λ _.
            IsSafe-u16 p.network_payload 0 _
              λ sport. IsSafe-u16 p.network_payload 2 _ (λ _. returned _)

-- Transport decoding raises `PacketDecodeError` at most.
pub parse_transport-IsSafe : (p : ParsedPacket) → IsSafe (parse_transport p)
unfolding parse_transport
parse_transport-IsSafe p =
    IsSafe-when _ _ _ (λ _. returned _)
      λ _.
        IsSafe-when _ _ _ (λ _. parse_tcp-IsSafe p)
          λ _. IsSafe-when _ _ _ (λ _. parse_udp-IsSafe p) (λ _. returned _)

skip_headers-IsSafe :
    (rounds : ℕ) (payload : Bytes) (next_header offset : ℕ)
    → IsSafe (skip_headers rounds payload next_header offset)
unfolding skip_headers
skip_headers-IsSafe zero payload next_header offset = returned _
skip_headers-IsSafe (suc rounds) payload next_header offset =
    IsSafe-when _ _ _
      (λ _.
        IsSafe-when _ _ _ (λ _. returned _)
          λ fits. IsSafe-byte payload offset _ (ground arith) λ following.
            IsSafe-byte payload (offset + 1) _ (ground arith) λ units.
              IsSafe-when _ _ _ (λ _. returned _)
                λ _. skip_headers-IsSafe rounds payload following (offset + (units + 1) * 8))
      λ _.
        IsSafe-when _ _ _
          (λ _.
            IsSafe-when _ _ _ (λ _. returned _)
              λ fits. IsSafe-byte payload offset _ (ground arith) λ following.
                IsSafe-byte payload (offset + 1) _ (ground arith) λ units.
                  IsSafe-when _ _ _ (λ _. returned _)
                    λ _. skip_headers-IsSafe rounds payload following (offset + (units + 2) * 4))
          (λ _. returned _)

-- Walking the headers of a reassembled datagram raises `PacketDecodeError` at most.
pub normalize_reassembled_ipv6-IsSafe : (p : ParsedPacket) → IsSafe (normalize_reassembled_ipv6 p)
unfolding normalize_reassembled_ipv6
normalize_reassembled_ipv6-IsSafe p =
    IsSafe-when _ _ _ (λ _. returned _)
      λ _.
        IsSafe-bind _ _ (skip_headers-IsSafe max_extension_headers p.network_payload p.protocol 0)
          (λ _. returned _)

parse_network-IsSafe :
    (text : AddressText) (packet : CapturedPacket) (linked : ℕ × Bytes × List ℕ)
    → IsSafe (parse_network text packet linked)
unfolding parse_network
parse_network-IsSafe text packet (ether_type, network, vlan_ids) =
    IsSafe-when _ _ _
      (λ _.
        IsSafe-bind _ _ (parse_ipv4-IsSafe text packet network vlan_ids)
          λ parsed. IsSafe-bind _ _ (parse_transport-IsSafe parsed) (λ _. returned _))
      λ _.
        IsSafe-when _ _ _
          (λ _.
            IsSafe-bind _ _ (parse_ipv6-IsSafe text packet network vlan_ids)
              λ parsed. IsSafe-bind _ _ (parse_transport-IsSafe parsed) (λ _. returned _))
          (λ _. returned _)

-- Decoding any captured bytes under any data-link type returns a result or raises
-- `PacketDecodeError`: never an `IndexError` or a `struct.error`.
pub parse_packet_strict-IsSafe :
    (text : AddressText) (packet : CapturedPacket) → IsSafe (parse_packet_strict text packet)
unfolding parse_packet_strict
parse_packet_strict-IsSafe text packet =
    IsSafe-bind _ _ (link_payload-IsSafe packet.raw packet.datalink)
      (λ linked. parse_network-IsSafe text packet linked)

-- The lenient adapter raises nothing at all, and gives what the strict decoder returns, or
-- `None` where that raises.
pub parse_packet_total :
    (text : AddressText) (packet : CapturedPacket)
    → (parsed : Option ParsedPacket) × (parse_packet text packet ≡ ok parsed)
      × ((parse_packet_strict text packet ≡ ok parsed)
          ⊎ ((parsed ≡ none) × (fault : Fault) × (parse_packet_strict text packet ≡ err fault)))
unfolding parse_packet
parse_packet_total text packet =
    result (parse_packet_strict text packet) refl (parse_packet_strict-IsSafe text packet)
  where
    result :
        (r : Result (Option ParsedPacket))
        → parse_packet_strict text packet ≡ r
        → IsSafe r
        → (parsed : Option ParsedPacket) × (parse_packet text packet ≡ ok parsed)
          × ((r ≡ ok parsed) ⊎ ((parsed ≡ none) × (fault : Fault) × (r ≡ err fault)))
    result _ e (returned parsed) = (parsed, rw (e, parse_packet), inl refl)
    result _ e (refused reason) =
        (none, rw (e, parse_packet), inr (refl, decode_error reason, refl))
