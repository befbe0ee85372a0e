-- ===== src/Runs.antt =====
-- Tests: the reassemblers from creation on and the recognizers at concrete inputs, and their theorems
-- where their hypotheses hold.
use packet_inspector_windows.Prelude.{
  ℕ, ◌+◌, ◌≤◌, ◌≡◌, ◌↔◌, refl, true, Option, none, some, List, [], ◌∷◌, ◌++◌, Bytes, Text, arith,
  get_elem?, get_elem?_out, get_elem?_in, sym, ◌∙◌, false, length, eq_list,
}
use packet_inspector_windows.Models.{ParsedPacket}
use packet_inspector_windows.Fragments
use packet_inspector_windows.Models.{contributing_ids}
use packet_inspector_windows.Segments.{differs, has_conflicting_overlap, merge_adjacent, uncovered}
use packet_inspector_windows.OrderedDict.{get, put, move_to_end, remove}
use packet_inspector_windows.Packets.Result.{ok, reject_if, byte, when, ◌>>=◌}
use packet_inspector_windows.Packets.{
  u16, normalize_reassembled_ipv6, parse_transport, parse_udp, apply_headers,
}
use packet_inspector_windows.Fragments.{
  key_of, key_eq, fresh_state, drop_state, discard, over_limits, evict_rounds, evict_to_limits,
}
use packet_inspector_windows.Fragments.{
  touch, mark_final, member, note_sources, absorb, account, assemble_from, assemble, finish,
  conclude, conclude_if, complete, file_fragment, open_fragment, process_fragment, process_id,
  process,
}
use packet_inspector_windows.Fragments.{FragmentState}
use packet_inspector_windows.Fragments.Whole.{complete_lem}
use packet_inspector_windows.Segments.Cover.{byte_at}
use packet_inspector_windows.Segments.Cover.{byte_in}
use packet_inspector_windows.Tcp
use packet_inspector_windows.Tcp.{accept_payload}
use packet_inspector_windows.Tcp.Lifetime.{always_within_limits}
use packet_inspector_windows.Tcp.Queue.{IsQueue, IsRelieved}
use packet_inspector_windows.Tcp.Receive.{accept_payload-IsQueue}
use packet_inspector_windows.Cleartext
use packet_inspector_windows.Cleartext.{scan_loop}
use packet_inspector_windows.Cleartext.{CleartextRecord, redis_auth, auth, value, all_bytes}
use packet_inspector_windows.Cleartext.RedisWire.{IsNumeral, command_text, scan_redis-command_text}
use packet_inspector_windows.Cleartext.Progress.{IsScan}
use packet_inspector_windows.Cleartext.RedisFrames.{scan_redis-IsScan, scan_redis-append}
use packet_inspector_windows.Cleartext.PostgresScan.{scan_postgres-IsScan, scan_postgres-append}
use packet_inspector_windows.Http
use packet_inspector_windows.Http.Spans.{Meets}
use packet_inspector_windows.Http.Body.{chunked-Meets}
use packet_inspector_windows.Ntlm.Smb.{
  smb2_header_seen, is_signature, is_smb2_header, smb2_header_seen_iff,
}
use packet_inspector_windows.Ntlm.Enclosing.{is_setup, contains_token, buffer_encloses, encloses}
use packet_inspector_windows.Ntlm.Session.{
  smb2_session_for_token, session_before, rfind_signature, IsSession,
  smb2_session_for_token-IsSession,
}
use packet_inspector_windows.Examples.{
  datagram, first_fragment, last_fragment, empty_fragments, conversation, queued, seven_buffered,
}

abbrev fragment_calls : List Fragments.Lifetime.Call
fragment_calls =
    Fragments.Lifetime.call_process 5 last_fragment ∷ Fragments.Lifetime.call_expire 200 ∷ []

-- The first fragment came; the last one comes.
abbrev first_come : List Fragments.Lifetime.Call
first_come = Fragments.Lifetime.call_process 5 first_fragment ∷ []

-- The last fragment completes the datagram.
deliver_datagram :
    (process 6 last_fragment (Fragments.Lifetime.perform_all first_come empty_fragments)).0
    ≡ ok (
        some (record last_fragment {
          network_payload = [];
          fragment_id = none;
          fragment_offset = 0;
          transport_parsed = true;
          sport = 53;
          dport = 80;
          transport_payload = 9 ∷ 10 ∷ [];
          source_packet_ids = 6 ∷ 7 ∷ [];
        }))
unfolding process process_id process_fragment open_fragment key_of key_eq fresh_state touch
    mark_final file_fragment absorb note_sources member account evict_to_limits evict_rounds
    over_limits complete conclude_if conclude assemble assemble_from finish discard drop_state
    differs contributing_ids normalize_reassembled_ipv6 parse_transport parse_udp apply_headers u16
    reject_if byte when ◌>>=◌ eq_list has_conflicting_overlap get merge_adjacent uncovered put
    move_to_end remove
deliver_datagram = refl

-- Both fragments are stored.
abbrev both_stored : FragmentState
both_stored = record {
  first_fragment = some first_fragment;
  ranges = record { start = 0; bytes = datagram; info = tt } ∷ [];
  final_end = some 10;
  last_seen_ns = 100;
  activity_ns = 6;
  first_seen_ns = 5;
  latest_packet_id = 7;
  truncated = false;
  buffered_bytes = 10;
  source_packet_ids = 6 ∷ 7 ∷ [];
}

stored_once : (i : ℕ) → byte_at both_stored.ranges i ≡ get_elem? datagram i
unfolding byte_at byte_in
stored_once i = ground (arith, get_elem?_out datagram i)

complete_lem_example : complete (key_of 42 last_fragment) both_stored empty_fragments ≡ (
  (do
    normalized ← normalize_reassembled_ipv6 (finish first_fragment both_stored datagram)
    parsed ← parse_transport normalized
    ok (some parsed)),
  discard (key_of 42 last_fragment) empty_fragments,
)
complete_lem_example =
    complete_lem datagram (key_of 42 last_fragment) first_fragment both_stored empty_fragments refl
      refl refl (omega arith, omega arith, tt) (λ i b found. sym (stored_once i) ∙ found)
      (λ i inside. let (b, found) = get_elem?_in datagram i inside in (b, stored_once i ∙ found))

abbrev tcp_limits : Tcp.Limits
tcp_limits = record {
  idle_ns = 30;
  max_flows = 2;
  max_out_of_order = 64;
  max_stream_bytes_per_direction = 64;
  max_buffered_bytes = 128;
  max_buffered_segments = 16;
  consumed_history_bytes = 64;
  max_segments_per_direction = 8;
}

abbrev empty_flows : Tcp.Reassembler
empty_flows = record {
  limits = tcp_limits;
  flows = [];
  next_connection_epoch = 1;
  counters = record {
    buffered_bytes = 0;
    buffered_segments = 0;
    peak_buffered_segments = 0;
    evicted_flows = 0;
    budget_evicted_flows = 0;
    expired_flows = 0;
    retransmitted_bytes = 0;
    overlap_conflicts = 0;
    gap_bytes = 0;
  };
}

abbrev segment : ℕ → ParsedPacket
segment tcp_seq = record last_fragment {
  protocol = 6;
  fragment_id = none;
  transport_parsed = true;
  sport = 4000;
  dport = 80;
  tcp_seq = tcp_seq;
  tcp_flags = 16;
  transport_payload = 1 ∷ 2 ∷ [];
}

-- Two segments with a gap between them, then the end of the capture.
abbrev tcp_calls : List Tcp.Lifetime.Call
tcp_calls =
    Tcp.Lifetime.call_process 5 (segment 100)
    ∷ Tcp.Lifetime.call_process 6 (segment 110)
    ∷ Tcp.Lifetime.call_expire 7
    ∷ Tcp.Lifetime.call_flush_all none
    ∷ []

always_within_limits_example : Tcp.Evict.IsBounded (Tcp.Lifetime.perform_all tcp_calls empty_flows)
always_within_limits_example =
    always_within_limits tcp_limits 0 empty_flows tcp_calls (unfold Tcp.create in refl)

queued-IsQueue : IsQueue 0 0 queued seven_buffered
queued-IsQueue = record {
  counted = record { own = refl; bytes = refl; queued = refl };
  ordered = omega arith;
}

accept_payload-IsQueue_example :
    let e =
      accept_payload tcp_limits conversation 0
        (segment 105)
        105
        (6 ∷ 7 ∷ [])
        queued
        seven_buffered in
    IsQueue 0 0 e.direction e.counters × IsRelieved tcp_limits e.direction
accept_payload-IsQueue_example =
    accept_payload-IsQueue 0 0 tcp_limits conversation 0 (segment 105) 105 100 (6 ∷ 7 ∷ []) queued
      seven_buffered refl (omega arith) queued-IsQueue

abbrev decode : Bytes → Option Text
decode raw = some raw

-- `AUTH pw`, and the start of another command; then its rest.
abbrev sign_in : Bytes
sign_in = 65 ∷ 85 ∷ 84 ∷ 72 ∷ 32 ∷ 112 ∷ 119 ∷ 13 ∷ 10 ∷ 42 ∷ 49 ∷ []

abbrev ping : Bytes
ping = 13 ∷ 10 ∷ 36 ∷ 52 ∷ 13 ∷ 10 ∷ 80 ∷ 73 ∷ 78 ∷ 71 ∷ 13 ∷ 10 ∷ []

scan_redis-IsScan_example :
    IsScan (Cleartext.redis_step decode) sign_in 0 (Cleartext.scan_redis decode sign_in)
scan_redis-IsScan_example = scan_redis-IsScan decode sign_in

scan_redis-append_example :
    let (records, stop) = Cleartext.scan_redis decode sign_in in
    let (later, end) =
      scan_loop (length (sign_in ++ ping)) (Cleartext.redis_step decode) (sign_in ++ ping) stop in
    Cleartext.scan_redis decode (sign_in ++ ping) ≡ (records ++ later, end)
scan_redis-append_example = scan_redis-append decode sign_in ping

-- A password message with `pw`, and the first bytes of another frame.
abbrev password_message : Bytes
password_message = 112 ∷ 0 ∷ 0 ∷ 0 ∷ 7 ∷ 112 ∷ 119 ∷ 0 ∷ 88 ∷ 0 ∷ []

abbrev terminate : Bytes
terminate = 0 ∷ 0 ∷ 4 ∷ []

scan_postgres-IsScan_example :
    IsScan
      (Cleartext.client_step decode (some 3))
      password_message
      0
      (Cleartext.scan_postgres decode (some 3) password_message)
    × IsScan Cleartext.server_step password_message 0
        (Cleartext.scan_postgres_authentication password_message)
scan_postgres-IsScan_example = scan_postgres-IsScan decode (some 3) password_message

scan_postgres-append_example :
    let whole = password_message ++ terminate in
    (let (records, stop) = Cleartext.scan_postgres decode (some 3) password_message in
      let (later, end) =
        scan_loop (length whole) (Cleartext.client_step decode (some 3)) whole stop in
      Cleartext.scan_postgres decode (some 3) whole ≡ (records ++ later, end))
    × (let (records, stop) = Cleartext.scan_postgres_authentication password_message in
        let (later, end) = scan_loop (length whole) Cleartext.server_step whole stop in
        Cleartext.scan_postgres_authentication whole ≡ (records ++ later, end))
scan_postgres-append_example = scan_postgres-append decode (some 3) password_message terminate

one_digit : (n : ℕ) → n ≤ 9 → IsNumeral ((48 + n) ∷ []) n
unfolding all_bytes
one_digit n h = record {
  digits = ground arith;
  some_digit = refl;
  few = omega arith;
  worth = omega arith;
}

scan_redis-command_text_example :
    let arguments : List (Bytes × Bytes) =
      (52 ∷ [], 97 ∷ 85 ∷ 84 ∷ 72 ∷ []) ∷ (49 ∷ [], 109 ∷ []) ∷ (50 ∷ [], 112 ∷ 119 ∷ []) ∷ [] in
    (later : List CleartextRecord) × (stop : ℕ) × (Cleartext.scan_redis decode
        (command_text (51 ∷ []) arguments ping)
      ≡ (
        record {
          start = 0;
          end = 29;
          material = redis_auth auth (value decode (109 ∷ [])) (value decode (112 ∷ 119 ∷ []));
          limitations = [];
        }
            ∷ later,
        stop,
      ))
scan_redis-command_text_example =
    scan_redis-command_text decode (51 ∷ []) (52 ∷ []) (49 ∷ []) (50 ∷ []) (97 ∷ 85 ∷ 84 ∷ 72 ∷ [])
      (109 ∷ []) (112 ∷ 119 ∷ []) ping refl (one_digit 3 (omega arith)) (one_digit 4 (omega arith))
      (one_digit 1 (omega arith)) (one_digit 2 (omega arith)) (omega arith) (omega arith)
      (omega arith)

-- One chunk of two bytes, and the last chunk.
abbrev chunks : Bytes
chunks = 50 ∷ 13 ∷ 10 ∷ 97 ∷ 98 ∷ 13 ∷ 10 ∷ 48 ∷ 13 ∷ 10 ∷ 13 ∷ 10 ∷ []

chunked-Meets_example :
    Meets chunks 0 (Http.chunked chunks 0 0 100)
    × (Http.chunk_loop 16 chunks 0 0 100 [] [] ≡ Http.chunked chunks 0 0 100)
chunked-Meets_example = chunked-Meets chunks 0 0 100 3 (omega arith)

-- They are decoded to those two bytes.
decode_chunks :
    Http.chunked chunks 0 0 100
    ≡ Http.decoded (97 ∷ 98 ∷ []) (record { left = 0; right = 2; wire = 3 } ∷ []) 12
unfolding Http.chunked Http.chunk_loop Http.last_chunk Http.hexadecimal Http.chunk_size
    Http.before_extension eq_list
decode_chunks = refl

-- A session setup response of session 7, in a record of 84 bytes, whose buffer holds a token.
abbrev session_setup : Bytes
session_setup =
    0 ∷ 0 ∷ 0 ∷ 84 ∷ 254 ∷ 83 ∷ 77 ∷ 66 ∷ 64 ∷ 0 ∷ 0 ∷ 0 ∷ 0 ∷ 0 ∷ 0 ∷ 0 ∷ 1 ∷ 0 ∷ 0 ∷ 0 ∷ 1 ∷ 0 ∷ 0
    ∷ 0 ∷ 0 ∷ 0 ∷ 0 ∷ 0 ∷ 0 ∷ 0 ∷ 0 ∷ 0 ∷ 0 ∷ 0 ∷ 0 ∷ 0 ∷ 0 ∷ 0 ∷ 0 ∷ 0 ∷ 0 ∷ 0 ∷ 0 ∷ 0 ∷ 7 ∷ 0 ∷ 0
    ∷ 0 ∷ 0 ∷ 0 ∷ 0 ∷ 0 ∷ 0 ∷ 0 ∷ 0 ∷ 0 ∷ 0 ∷ 0 ∷ 0 ∷ 0 ∷ 0 ∷ 0 ∷ 0 ∷ 0 ∷ 0 ∷ 0 ∷ 0 ∷ 0 ∷ 9 ∷ 0 ∷ 0
    ∷ 0 ∷ 72 ∷ 0 ∷ 12 ∷ 0 ∷ 78 ∷ 84 ∷ 76 ∷ 77 ∷ 83 ∷ 83 ∷ 80 ∷ 0 ∷ 1 ∷ 0 ∷ 0 ∷ 0 ∷ []

smb2_header_seen_iff_example :
    (smb2_header_seen session_setup ≡ true)
    ↔ ((i : ℕ) × (is_signature session_setup i ≡ true) × (is_smb2_header session_setup i ≡ true))
smb2_header_seen_iff_example = smb2_header_seen_iff session_setup

session_seven : smb2_session_for_token session_setup 76 12 ≡ some 7
unfolding smb2_session_for_token session_before rfind_signature is_signature encloses is_setup
    contains_token buffer_encloses eq_list
session_seven = refl

smb2_session_for_token-IsSession_example : IsSession session_setup 76 12 0 76 7
smb2_session_for_token-IsSession_example =
    smb2_session_for_token-IsSession session_setup 76 12 7 session_seven
