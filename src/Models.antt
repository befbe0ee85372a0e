-- ===== src/Models.antt =====
-- packet_audit/models.py: the records passed between capture, workers and exporters. Texts are
-- lists of code points, byte strings and integer tuples are lists of numbers.
mod Keys
pub mod Flow
unfoldable pub use Keys.{endpoint_eq, flow_key_eq}
pub use Keys.{Endpoint, FlowKey, flow_key_eq_iff}
use packet_inspector_windows.Prelude.{
  ℕ, zero, suc, Bool, true, false, ◌&&◌, ◌||◌, Option, List, [], ◌∷◌, Bytes, Text, ltb, ◌==◌,
  eq_list, if◌then◌else◌,
}

-- Python's `<=` on two texts: by code point, a proper prefix first.
unfoldable pub text_le : Text → Text → Bool
text_le [] ys = true
text_le (x ∷ xs) [] = false
text_le (x ∷ xs) (y ∷ ys) = ltb x y || (x == y && text_le xs ys)

-- `left.sort_key() <= right.sort_key()`: the tuples (address, port).
unfoldable pub endpoint_le : Endpoint → Endpoint → Bool
unfolding text_le eq_list
endpoint_le a b =
    if eq_list a.address b.address
    then ltb a.port b.port || a.port == b.port
    else text_le a.address b.address

-- `FlowKey.canonical`: the key, and 0 if the source is its first endpoint, else 1.
unfoldable pub canonical : ℕ → Text → ℕ → Text → ℕ → Text → List ℕ → FlowKey × ℕ
unfolding endpoint_le
canonical protocol src sport dst dport interface vlan_ids =
    let left : Endpoint = record { address = src; port = sport } in
    let right : Endpoint = record { address = dst; port = dport } in
    if endpoint_le left right
    then (
      record {
        protocol = protocol;
        endpoint_a = left;
        endpoint_b = right;
        interface = interface;
        vlan_ids = vlan_ids;
      },
      0,
    )
    else (
      record {
        protocol = protocol;
        endpoint_a = right;
        endpoint_b = left;
        interface = interface;
        vlan_ids = vlan_ids;
      },
      1,
    )

pub record CapturedPacket : Type 0 where
  pub session_id : Text
  pub packet_id : ℕ
  pub timestamp_ns : ℕ
  pub interface : Text
  pub datalink : ℕ
  pub captured_length : ℕ
  pub wire_length : ℕ
  pub raw : Bytes

pub record ParsedPacket : Type 0 where
  pub session_id : Text
  pub packet_id : ℕ
  pub timestamp_ns : ℕ
  pub interface : Text
  pub captured_length : ℕ
  pub wire_length : ℕ
  pub ip_version : ℕ
  pub src : Text
  pub dst : Text
  pub protocol : ℕ
  pub vlan_ids : List ℕ
  pub network_payload : Bytes
  pub truncated : Bool
  pub fragment_id : Option ℕ
  pub fragment_offset : ℕ
  pub more_fragments : Bool
  pub transport_parsed : Bool
  pub sport : ℕ
  pub dport : ℕ
  pub tcp_seq : ℕ
  pub tcp_ack : ℕ
  pub tcp_flags : ℕ
  pub transport_payload : Bytes
  pub source_packet_ids : List ℕ

-- `ParsedPacket.flow`
unfoldable pub flow : ParsedPacket → FlowKey × ℕ
unfolding canonical
flow p = canonical p.protocol p.src p.sport p.dst p.dport p.interface p.vlan_ids

-- `packet.source_packet_ids or (packet.packet_id,)`
unfoldable pub contributing_ids : ParsedPacket → List ℕ
contributing_ids p = elim (p.source_packet_ids) [ [] ↦ p.packet_id ∷ [] | x ∷ xs ↦ x ∷ xs ]

pub record ProvenanceSpan : Type 0 where
  pub stream_start : ℕ
  pub stream_end : ℕ
  pub packet_ids : List ℕ
  pub packet_ids_complete : Bool

pub data Completeness : Type 0 where
  complete midstream gapped truncated encrypted parser_error potential : Completeness

pub record StreamChunk : Type 0 where
  pub flow : FlowKey
  pub direction : ℕ
  pub stream_offset : ℕ
  pub data_bytes : Bytes
  pub packet_ids : List ℕ
  pub first_timestamp_ns : ℕ
  pub last_timestamp_ns : ℕ
  pub connection_epoch : ℕ
  pub completeness : Completeness
  pub provenance_spans : List ProvenanceSpan
