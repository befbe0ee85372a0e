-- ===== src/Samples.antt =====
-- Further theorems at inputs that meet their hypotheses.
use packet_inspector_windows.Prelude.{
  ℕ, ◌+◌, ◌-◌, ◌%◌, ◌^◌, ◌≤◌, ◌≡◌, refl, ◌⊎◌, true, false, Option, none, some, List, [], ◌∷◌, ◌++◌,
  Bytes, arith, get_elem?, length, ltb, or_else, eq_list, if◌then◌else◌,
}
use packet_inspector_windows.Prelude.Int.{pos_part, neg_part}
use packet_inspector_windows.OrderedDict.{get}
use packet_inspector_windows.OrderedDict.Distinct.{Distinct}
use packet_inspector_windows.Models.{ParsedPacket, canonical}
use packet_inspector_windows.Models.Flow.{endpoint, canonical_swap}
use packet_inspector_windows.Segments.{Segment, uncovered, merge_adjacent, has_conflicting_overlap}
use packet_inspector_windows.Segments.Cover.{byte_in, byte_at}
use packet_inspector_windows.Segments.Insert.{byte_at-merge_adjacent}
use packet_inspector_windows.Segments.Conflict.{Agree, no_conflict, Clash, conflict}
use packet_inspector_windows.Packets.Result.{ok, err, Fault}
use packet_inspector_windows.Packets.{parse_packet_strict, parse_packet}
use packet_inspector_windows.Packets.Safety.{parse_packet_total}
use packet_inspector_windows.Fragments.{
  key_eq, fragment_keys, assemble, FragmentKey, FragmentState, Reassembler, evict_to_limits,
}
use packet_inspector_windows.Fragments.Accounting.{
  IsAccounted, WithinLimits, evict_to_limits-IsAccounted,
}
use packet_inspector_windows.Fragments.Assembly.{assemble_lem}
use packet_inspector_windows.Tcp
use packet_inspector_windows.Tcp.{unwrap_sequence}
use packet_inspector_windows.Tcp.Sequence.{unwrap_sequence_nearest}
use packet_inspector_windows.Tcp.Flush.{IsFlush, flush_direction-IsFlush}
use packet_inspector_windows.Capture
use packet_inspector_windows.Capture.Format.{PcapRecord, pcap_file}
use packet_inspector_windows.Capture.Replay.{numbered, replay, replay-pcap_file}
use packet_inspector_windows.Watchdog
use packet_inspector_windows.Watchdog.Protocol.{
  Call, call_ready, call_progress, call_stopping, Phase, phase_after, perform_all,
  perform_all-in_turn,
}
use packet_inspector_windows.Ntlm
use packet_inspector_windows.Ntlm.Unwrap.{Meets, IsMessage, Meets-unwrap_ntlm}
use packet_inspector_windows.Examples.{
  empty_fragments, address_text, short_frame, conversation, queued, seven_buffered,
}

abbrev run : ℕ → Bytes → Segment (Unit {0})
run start bytes = record { start = start; bytes = bytes; info = tt }

-- Two stored runs with a gap of two bytes between them, and a run that fills it.
abbrev stored : List (Segment (Unit {0}))
stored = run 0 (1 ∷ 2 ∷ []) ∷ run 4 (5 ∷ 6 ∷ []) ∷ []

abbrev filler : Segment (Unit {0})
filler = run 1 (2 ∷ 3 ∷ 4 ∷ 5 ∷ [])

byte_at-merge_adjacent_example :
    byte_at (merge_adjacent (stored ++ uncovered filler stored)) 3
    ≡ or_else (byte_at stored 3) (byte_in filler 3)
byte_at-merge_adjacent_example =
    byte_at-merge_adjacent 0 filler stored 3 (omega arith) (omega arith)

no_conflict_example : Agree filler stored
no_conflict_example = no_conflict filler stored (unfold has_conflicting_overlap in refl)

conflict_example : Clash (run 1 (9 ∷ 3 ∷ [])) stored
conflict_example =
    conflict 0 (run 1 (9 ∷ 3 ∷ [])) stored (omega arith) (unfold has_conflicting_overlap in refl)

abbrev four_bytes : Bytes
four_bytes = 1 ∷ 2 ∷ 3 ∷ 4 ∷ []

abbrev ranges : List (Segment (Unit {0}))
ranges = run 0 (1 ∷ 2 ∷ []) ∷ run 2 (3 ∷ 4 ∷ []) ∷ []

assemble_lem_example :
    (length four_bytes ≡ 4)
    × ((i : ℕ) → get_elem? four_bytes i ≡ (if ltb i 4 then byte_at ranges i else none))
assemble_lem_example = assemble_lem 4 ranges four_bytes (unfold assemble in refl)

canonical_swap_example :
    let there = canonical 6 (10 ∷ []) 80 (11 ∷ []) 4000 (2 ∷ []) [] in
    let back = canonical 6 (11 ∷ []) 4000 (10 ∷ []) 80 (2 ∷ []) [] in
    (there.0 ≡ back.0)
    × ((there.1 ≡ 1 - back.1) ⊎ (endpoint (10 ∷ []) 80 ≡ endpoint (11 ∷ []) 4000))
canonical_swap_example = canonical_swap 6 (10 ∷ []) 80 (11 ∷ []) 4000 (2 ∷ []) []

parse_packet_total_example :
    (parsed : Option ParsedPacket) × (parse_packet address_text short_frame ≡ ok parsed)
    × ((parse_packet_strict address_text short_frame ≡ ok parsed)
        ⊎ ((parsed ≡ none)
            × (fault : Fault) × (parse_packet_strict address_text short_frame ≡ err fault)))
parse_packet_total_example = parse_packet_total address_text short_frame

unwrap_sequence_nearest_example :
    let position = unwrap_sequence 5 4294967290 in
    (pos_part position ≤ 4294967290 + neg_part position + 2 ^ 31)
    × (4294967290 + neg_part position ≤ pos_part position + 2 ^ 31)
    × ((pos_part position + 2 ^ 32 - neg_part position) % 2 ^ 32 ≡ 5 % 2 ^ 32)
unwrap_sequence_nearest_example = unwrap_sequence_nearest 5 4294967290

flush_direction-IsFlush_example :
    IsFlush queued (Tcp.flush_direction 1024 conversation 0 queued seven_buffered)
flush_direction-IsFlush_example =
    flush_direction-IsFlush 1024 conversation 0 queued seven_buffered 100 refl (omega arith)

abbrev one_second : PcapRecord
one_second = record { seconds = 1; fraction = 7; wire_length = 60; data_bytes = 8 ∷ 9 ∷ [] }

replay-pcap_file_example :
    replay
      (2 ∷ [])
      (1 ∷ [])
      1
      3
      (some (pcap_file Capture.big Capture.nano 1 262144 (one_second ∷ one_second ∷ [])))
    ≡ Capture.ok (numbered (1 ∷ []) (2 ∷ []) 1 Capture.nano 0 (one_second ∷ one_second ∷ []), none)
replay-pcap_file_example =
    replay-pcap_file Capture.big Capture.nano 1 262144 (one_second ∷ one_second ∷ []) (2 ∷ [])
      (1 ∷ []) 1 3 (omega arith) (omega arith)
      (
        (omega arith, omega arith, omega arith, omega arith),
        ((omega arith, omega arith, omega arith, omega arith), tt),
      )
      (omega arith) (omega arith)

-- A session: progress too early, a lost READY, then the rest.
abbrev session : List Call
session =
    call_progress true 1
    ∷ call_ready false 2
    ∷ call_ready true 3
    ∷ call_progress true 9
    ∷ call_stopping true
    ∷ call_progress true 20
    ∷ []

perform_all-in_turn_example :
    (phase : Phase) × (phase_after
        (perform_all 7 session (Watchdog.create 7 (some (47 ∷ 49 ∷ [])) 5)).sent
      ≡ some phase)
perform_all-in_turn_example = perform_all-in_turn 7 (some (47 ∷ 49 ∷ [])) 5 session

-- A NegTokenResp around the bare signature.
abbrev negotiation : Bytes
negotiation = 0xA1 ∷ 14 ∷ 0x30 ∷ 12 ∷ 0xA2 ∷ 10 ∷ 4 ∷ 8 ∷ 78 ∷ 84 ∷ 76 ∷ 77 ∷ 83 ∷ 83 ∷ 80 ∷ 0 ∷ []

Meets-unwrap_ntlm_example : Meets (IsMessage negotiation) (Ntlm.unwrap_ntlm negotiation)
Meets-unwrap_ntlm_example = Meets-unwrap_ntlm negotiation

-- It does unwrap to the signature.
unwrap_negotiation :
    Ntlm.unwrap_ntlm negotiation ≡ Ntlm.found (78 ∷ 84 ∷ 76 ∷ 77 ∷ 83 ∷ 83 ∷ 80 ∷ 0 ∷ [])
unfolding Ntlm.unwrap_ntlm Ntlm.refuse_if eq_list Ntlm.◌>>=◌ Ntlm.unpack2
unwrap_negotiation = refl

-- Two datagrams of two bytes each, where only one may be stored.
abbrev stored_state : FragmentState
stored_state = record {
  first_fragment = none;
  ranges = run 8 (9 ∷ 10 ∷ []) ∷ [];
  final_end = none;
  last_seen_ns = 100;
  activity_ns = 1;
  first_seen_ns = 100;
  latest_packet_id = 7;
  truncated = false;
  buffered_bytes = 2;
  source_packet_ids = 7 ∷ [];
}

abbrev stored_key : ℕ → FragmentKey
stored_key fragment_id = record {
  session_id = 1 ∷ [];
  interface = 2 ∷ [];
  vlan_ids = [];
  ip_version = 4;
  src = 10 ∷ [];
  dst = 11 ∷ [];
  protocol = 17;
  fragment_id = fragment_id;
}

abbrev crowded : Reassembler
crowded = record empty_fragments {
  limits = record empty_fragments.limits { max_datagrams = 1 };
  states = (stored_key 1, stored_state) ∷ (stored_key 2, stored_state) ∷ [];
  buffered_bytes = 4;
  buffered_ranges = 2;
  buffered_provenance_entries = 2;
}

crowded-Distinct : Distinct crowded.states
unfolding get eq_list key_eq
crowded-Distinct = (refl, (refl, tt))

evict_to_limits-IsAccounted_example :
    IsAccounted (evict_to_limits crowded) × WithinLimits (evict_to_limits crowded)
evict_to_limits-IsAccounted_example = evict_to_limits-IsAccounted crowded (record {
  distinct = crowded-Distinct;
  counted = (refl, (refl, tt));
  bytes = refl;
  ranges = refl;
  provenance = refl;
})
