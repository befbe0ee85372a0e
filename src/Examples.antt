-- ===== src/Examples.antt =====
-- Tests of the models on concrete inputs, and each theorem at an input that meets its hypotheses.
use packet_inspector_windows.Prelude.{
  ℕ, ◌%◌, ◌^◌, ◌≡◌, refl, true, false, none, some, [], ◌∷◌, Bytes, arith,
}
use packet_inspector_windows.Prelude.Int.{pos}
use packet_inspector_windows.Models.{CapturedPacket, ParsedPacket, FlowKey}
use packet_inspector_windows.Packets.{AddressText, parse_packet_strict}
use packet_inspector_windows.Packets.Safety.{IsSafe, parse_packet_strict-IsSafe}
use packet_inspector_windows.Fragments.{Reassembler}
use packet_inspector_windows.Tcp
use packet_inspector_windows.Tcp.{unwrap_sequence}
use packet_inspector_windows.Tcp.Sequence.{unwrap_sequence_recovers}
use packet_inspector_windows.Tcp.Emission.{IsDrain, drain-IsDrain}

-- A UDP datagram of ten bytes; one fragment carries the first eight, another the last two.
abbrev pub datagram : Bytes
datagram = 0 ∷ 53 ∷ 0 ∷ 80 ∷ 0 ∷ 10 ∷ 0 ∷ 0 ∷ 9 ∷ 10 ∷ []

abbrev pub last_fragment : ParsedPacket
last_fragment = record {
  session_id = 1 ∷ [];
  packet_id = 7;
  timestamp_ns = 100;
  interface = 2 ∷ [];
  captured_length = 30;
  wire_length = 30;
  ip_version = 4;
  src = 10 ∷ [];
  dst = 11 ∷ [];
  protocol = 17;
  vlan_ids = [];
  network_payload = 9 ∷ 10 ∷ [];
  truncated = false;
  fragment_id = some 42;
  fragment_offset = 8;
  more_fragments = false;
  transport_parsed = false;
  sport = 0;
  dport = 0;
  tcp_seq = 0;
  tcp_ack = 0;
  tcp_flags = 0;
  transport_payload = [];
  source_packet_ids = [];
}

abbrev pub first_fragment : ParsedPacket
first_fragment = record last_fragment {
  packet_id = 6;
  fragment_offset = 0;
  more_fragments = true;
  network_payload = 0 ∷ 53 ∷ 0 ∷ 80 ∷ 0 ∷ 10 ∷ 0 ∷ 0 ∷ [];
}

abbrev pub empty_fragments : Reassembler
empty_fragments = record {
  limits = record {
    idle_ns = 30;
    max_datagrams = 4;
    max_datagram_bytes = 64;
    max_buffered_bytes = 128;
    max_ranges_per_datagram = 8;
    max_buffered_ranges = 16;
    max_buffered_provenance_entries = 16;
  };
  states = [];
  buffered_bytes = 0;
  buffered_ranges = 0;
  buffered_provenance_entries = 0;
  peak_buffered_ranges = 0;
  peak_buffered_provenance_entries = 0;
  expired_datagrams = 0;
  evicted_datagrams = 0;
  overlap_conflicts = 0;
  malformed_fragments = 0;
}

unwrap_sequence_recovers_example : unwrap_sequence (4294967300 % 2 ^ 32) 4294967290 ≡ pos 4294967300
unwrap_sequence_recovers_example =
    unwrap_sequence_recovers 4294967300 4294967290 (omega arith) (omega arith)

abbrev pub address_text : AddressText
address_text = record { ipv4 = λ bytes. bytes; ipv6 = λ bytes. bytes }

-- An Ethernet frame cut off inside its VLAN tag.
abbrev pub short_frame : CapturedPacket
short_frame = record {
  session_id = 1 ∷ [];
  packet_id = 1;
  timestamp_ns = 1;
  interface = 2 ∷ [];
  datalink = 1;
  captured_length = 15;
  wire_length = 60;
  raw = 0 ∷ 0 ∷ 0 ∷ 0 ∷ 0 ∷ 0 ∷ 0 ∷ 0 ∷ 0 ∷ 0 ∷ 0 ∷ 0 ∷ 0x81 ∷ 0 ∷ 5 ∷ [];
}

parse_packet_strict-IsSafe_example : IsSafe (parse_packet_strict address_text short_frame)
parse_packet_strict-IsSafe_example = parse_packet_strict-IsSafe address_text short_frame

abbrev pub conversation : FlowKey
conversation = record {
  protocol = 6;
  endpoint_a = record { address = 10 ∷ []; port = 80 };
  endpoint_b = record { address = 11 ∷ []; port = 4000 };
  interface = 2 ∷ [];
  vlan_ids = [];
}

abbrev segment_at : ℕ → Bytes → Tcp.TcpSegment
segment_at start bytes = record {
  start = start;
  bytes = bytes;
  info = record { packet_ids = 3 ∷ []; timestamp_ns = 9 };
}

-- Five bytes from the position 100 on, and two more behind a gap.
abbrev pub queued : Tcp.DirectionState
queued = record {
  connection_epoch = 1;
  next_seq = some 100;
  stream_offset = 0;
  midstream = false;
  had_gap = false;
  syn_seq = none;
  pending =
      segment_at 100 (1 ∷ 2 ∷ 3 ∷ [])
      ∷ segment_at 103 (4 ∷ 5 ∷ [])
      ∷ segment_at 110 (8 ∷ 9 ∷ [])
      ∷ [];
  pending_bytes = 7;
  consumed_history_start = none;
  consumed_history = [];
  peer_acked_seq = none;
  last_seen_ns = 0;
  closed = false;
}

abbrev pub seven_buffered : Tcp.Counters
seven_buffered = record {
  buffered_bytes = 7;
  buffered_segments = 3;
  peak_buffered_segments = 3;
  evicted_flows = 0;
  budget_evicted_flows = 0;
  expired_flows = 0;
  retransmitted_bytes = 0;
  overlap_conflicts = 0;
  gap_bytes = 0;
}

drain-IsDrain_example :
    IsDrain 100 queued (Tcp.drain 1024 conversation 0 false queued seven_buffered)
drain-IsDrain_example =
    drain-IsDrain 1024 conversation 0 false queued seven_buffered 100 refl (omega arith)
