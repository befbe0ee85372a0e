-- ===== src/Tcp/Process.antt =====
-- `TCPReassembler.process`, `expire` and `flush_all`.
use packet_inspector_windows.Prelude.{
  ℕ, zero, suc, ◌+◌, ◌-◌, ◌/◌, ◌%◌, ◌^◌, max, Bool, true, false, not, ◌&&◌, ◌||◌, Option, none,
  some, List, [], ◌∷◌, ◌++◌, map, Bytes, length, drop, ltb, leb, ◌==◌, is_nil, is_some,
  if◌then◌else◌,
}
use packet_inspector_windows.Prelude.Int.{ℤ, pos, pos_part, neg_part, ltb_ℤ, leb_ℤ}
use packet_inspector_windows.OrderedDict.{OrderedDict, get, put, remove, move_to_end}
use packet_inspector_windows.Models.{
  FlowKey, ParsedPacket, StreamChunk, Completeness, flow, contributing_ids,
}
use packet_inspector_windows.Segments.{total_bytes, uncovered, sort_by_start, differs}
use packet_inspector_windows.Packets.{ipproto_tcp}
use packet_inspector_windows.Tcp.State.{
  TcpSegment, DirectionState, FlowState, FlowId, flow_ids, Limits, max_pending_per_direction,
  Counters, Reassembler, unwrap_sequence, fresh_flow,
}
use packet_inspector_windows.Tcp.Draining.{
  Emitted, distance, conflicts_with_consumed, drain, skip_to_next_segment, flush_direction,
}

-- `flow.directions[side]`, and its update.
abbrev pub side_of : ℕ → FlowState → DirectionState
side_of zero f = f.forward
side_of (suc _) f = f.backward

abbrev pub set_side : ℕ → DirectionState → FlowState → FlowState
set_side zero d f = record f { forward = d }
set_side (suc _) d f = record f { backward = d }

abbrev pub flow_bytes : FlowState → ℕ
flow_bytes f = f.forward.pending_bytes + f.backward.pending_bytes

abbrev pub flow_segments : FlowState → ℕ
flow_segments f = length f.forward.pending + length f.backward.pending

-- `_remove_flow`
unfoldable pub remove_found : FlowId → Option FlowState → Reassembler → Reassembler
remove_found key none r = r
remove_found key (some f) r = record r {
  flows = remove key r.flows;
  counters = record r.counters {
    buffered_bytes = r.counters.buffered_bytes - flow_bytes f;
    buffered_segments = r.counters.buffered_segments - flow_segments f;
  };
}

unfoldable pub remove_flow : FlowId → Reassembler → Reassembler
unfolding remove_found
remove_flow key r = remove_found key (get key r.flows) r

-- A reassembler with the chunks emitted so far.
abbrev pub Work : Type 0
Work = Reassembler × List StreamChunk

-- Flushes one side of a flow that stands in the dictionary.
unfoldable pub flush_side : ℕ → FlowId → FlowState → Reassembler → FlowState × Work
flush_side side key f r =
    let e =
      flush_direction r.limits.consumed_history_bytes f.flow side (side_of side f) r.counters in
    let f' = set_side side e.direction f in
    (f', (record r { flows = put key f' r.flows; counters = e.counters }, e.chunks))

-- The loop over `enumerate(state.directions)`.
unfoldable pub flush_flow : FlowId → FlowState → Reassembler → Work
unfolding flush_side
flush_flow key f r =
    let (f₁, (r₁, chunks₁)) = flush_side 0 key f r in
    let (f₂, (r₂, chunks₂)) = flush_side 1 key f₁ r₁ in (r₂, chunks₁ ++ chunks₂)

abbrev pub count_evicted : Bool → Reassembler → Reassembler
count_evicted budget r = record r {
  counters = record r.counters {
    evicted_flows = r.counters.evicted_flows + 1;
    budget_evicted_flows =
        if budget then r.counters.budget_evicted_flows + 1 else r.counters.budget_evicted_flows;
  };
}

unfoldable pub evict_first : Bool → OrderedDict FlowId FlowState → Reassembler → Work
unfolding flush_flow remove_flow
evict_first budget [] r = (r, [])
evict_first budget ((key, f) ∷ _) r =
    let (flushed, chunks) = flush_flow key f r in
    (count_evicted budget (remove_flow key flushed), chunks)

-- `_evict_oldest`
unfoldable pub evict_oldest : Bool → Reassembler → Work
unfolding evict_first
evict_oldest budget r = evict_first budget r.flows r

-- `while test: chunks.extend(self._evict_oldest(...))`, on fuel: a round for each flow is enough.
unfoldable pub evict_while : ℕ → (Reassembler → Bool) → Bool → Reassembler → Work
unfolding evict_oldest
evict_while zero test budget r = (r, [])
evict_while (suc n) test budget r =
    let (r₁, chunks) = evict_oldest budget r in
    let (r₂, later) = evict_while n test budget r₁ in
    if test r then (r₂, chunks ++ later) else (r, [])

abbrev pub no_room : Reassembler → Bool
no_room r = leb r.limits.max_flows (length r.flows)

abbrev pub over_budget : Reassembler → Bool
over_budget r =
    (ltb r.limits.max_buffered_bytes r.counters.buffered_bytes
      || ltb r.limits.max_buffered_segments r.counters.buffered_segments)
    && not (is_nil r.flows)

-- The flags of a segment.
abbrev pub has_fin : ParsedPacket → Bool
has_fin p = p.tcp_flags % 2 == 1

abbrev pub has_syn : ParsedPacket → Bool
has_syn p = (p.tcp_flags / 2) % 2 == 1

abbrev pub has_rst : ParsedPacket → Bool
has_rst p = (p.tcp_flags / 4) % 2 == 1

abbrev pub has_ack : ParsedPacket → Bool
has_ack p = (p.tcp_flags / 16) % 2 == 1

abbrev pub is_seq : Option ℕ → ℕ → Bool
is_seq none n = false
is_seq (some m) n = m == n

-- A fresh SYN on a tuple in use ends the connection before it.
unfoldable pub retire : FlowId → ℕ → ParsedPacket → Option FlowState → Reassembler → Work
unfolding flush_flow remove_flow
retire key side p none r = (r, [])
retire key side p (some f) r =
    let prior = side_of side f in
    let (flushed, chunks) = flush_flow key f r in
    if has_syn p && not (has_ack p) && (not (is_seq prior.syn_seq p.tcp_seq) || prior.closed)
    then (remove_flow key flushed, chunks)
    else (r, [])

-- The flow of a key, now the newest; or room is made, and a fresh one takes the next epoch.
unfoldable pub open_flow :
    ℕ → FlowId → ParsedPacket → Option FlowState → Reassembler → FlowState × Work
unfolding evict_while fresh_flow
open_flow clock key p (some f) r = (f, (record r { flows = move_to_end key r.flows }, []))
open_flow clock key p none r =
    let (room, chunks) = evict_while (length r.flows) no_room false r in
    let f = fresh_flow key.flow room.next_connection_epoch p.timestamp_ns clock in
    (
      f,
      (
        record room {
          flows = put key f room.flows;
          next_connection_epoch = room.next_connection_epoch + 1;
        },
        chunks,
      ),
    )

-- Time stamps of a flow and its direction.
unfoldable pub touch_flow : ℕ → ℕ → ParsedPacket → FlowState → FlowState
touch_flow clock side p f =
    let d = side_of side f in
    set_side side (record d { last_seen_ns = max d.last_seen_ns p.timestamp_ns })
      (record f { last_seen_ns = max f.last_seen_ns p.timestamp_ns; activity_ns = clock })

unfoldable pub raise_ack : Option ℤ → ℤ → DirectionState → DirectionState
raise_ack none position d = record d { peer_acked_seq = some position }
raise_ack (some known) position d =
    if ltb_ℤ known position then record d { peer_acked_seq = some position } else d

unfoldable pub note_ack_at : Option ℕ → ℕ → DirectionState → DirectionState
unfolding raise_ack
note_ack_at none ack d = d
note_ack_at (some next) ack d = raise_ack d.peer_acked_seq (unwrap_sequence ack next) d

-- What the other side is told to have arrived.
unfoldable pub note_ack : ℕ → ParsedPacket → FlowState → FlowState
unfolding note_ack_at
note_ack side p f =
    let other = side_of (1 - side) f in
    if has_ack p then set_side (1 - side) (note_ack_at other.next_seq p.tcp_ack other) f else f

abbrev pub raw_payload_sequence : ParsedPacket → ℕ
raw_payload_sequence p = (p.tcp_seq + (if has_syn p then 1 else 0)) % 2 ^ 32

-- The position where a direction starts.
unfoldable pub begin_at : Option ℕ → ParsedPacket → DirectionState → DirectionState
begin_at (some _) p d = d
begin_at none p d =
    if has_syn p
    then record d {
      syn_seq = some p.tcp_seq;
      next_seq = some (raw_payload_sequence p);
      midstream = false;
    }
    else if is_nil p.transport_payload
    then d
    else record d { next_seq = some (raw_payload_sequence p); midstream = true }

unfoldable pub begin_direction : ParsedPacket → DirectionState → DirectionState
unfolding begin_at
begin_direction p d =
    let begun = begin_at d.next_seq p d in
    if has_syn p && not (is_some begun.syn_seq)
    then record begun { syn_seq = some p.tcp_seq }
    else begun

-- How many pending segments hold other bytes at the positions of the payload.
unfoldable pub count_conflicts : ℕ → Bytes → List TcpSegment → ℕ
count_conflicts start payload [] = 0
count_conflicts start payload (old ∷ pending) =
    (if differs start payload old.start old.bytes then 1 else 0)
    + count_conflicts start payload pending

-- The overflow loop, on fuel: it goes on while a forced flush emits something.
unfoldable pub relieve : ℕ → Limits → FlowKey → ℕ → DirectionState → Counters → Emitted
relieve zero l key side d c = record { direction = d; counters = c; chunks = [] }
relieve (suc n) l key side d c =
    let e = skip_to_next_segment l.consumed_history_bytes key side d c in
    let rest = relieve n l key side e.direction e.counters in
    if ltb (max_pending_per_direction l) d.pending_bytes
      || ltb l.max_segments_per_direction (length d.pending)
    then (if is_nil e.chunks then e else record rest { chunks = e.chunks ++ rest.chunks })
    else record { direction = d; counters = c; chunks = [] }

abbrev pub arrived : ParsedPacket → ℕ → Bytes → TcpSegment
arrived p start payload = record {
  start = start;
  bytes = payload;
  info = record { packet_ids = contributing_ids p; timestamp_ns = p.timestamp_ns };
}

-- Queues the new part of a payload that is not before `next_seq`.
unfoldable pub enqueue :
    ParsedPacket → ℕ → Bytes → DirectionState → Counters → DirectionState × Counters
unfolding count_conflicts
enqueue p start payload d c =
    let additions = uncovered (arrived p start payload) d.pending in
    let added = total_bytes additions in
    let segments = c.buffered_segments + length additions in
    (
      record d {
        pending = sort_by_start (d.pending ++ additions);
        pending_bytes = d.pending_bytes + added;
      },
      record c {
        overlap_conflicts = c.overlap_conflicts + count_conflicts start payload d.pending;
        retransmitted_bytes = c.retransmitted_bytes + (length payload - added);
        buffered_bytes = c.buffered_bytes + added;
        buffered_segments = segments;
        peak_buffered_segments = max c.peak_buffered_segments segments;
      },
    )

-- How a payload was met: a keepalive ends the call, old bytes are only counted, and after new
-- bytes the budget is enforced.
pub data Received : Type 0 where
  keepalive : Received
  settled : DirectionState → Counters → Received
  queued : Emitted → Received

-- The new bytes of a payload: queue, drain, relieve.
unfoldable pub accept_payload :
    Limits → FlowKey → ℕ → ParsedPacket → ℕ → Bytes → DirectionState → Counters → Emitted
unfolding enqueue relieve
accept_payload l key side p start payload d c =
    let (d', c') = enqueue p start payload d c in
    let e = drain l.consumed_history_bytes key side false d' c' in
    let f = relieve (length e.direction.pending) l key side e.direction e.counters in
    record f { chunks = e.chunks ++ f.chunks }

-- `start == next_seq - 1`, on integers.
abbrev just_before : ℤ → ℕ → Bool
just_before start next = pos_part start + 1 == next + neg_part start

abbrev acked_to : Option ℤ → ℕ → Bool
acked_to none next = false
acked_to (some position) next = leb_ℤ (pos next) position

abbrev pub is_keepalive : ParsedPacket → ℤ → ℕ → DirectionState → Bool
is_keepalive p start next d =
    length p.transport_payload == 1
    && has_ack p
    && not (has_syn p || has_fin p || has_rst p)
    && just_before start next
    && acked_to d.peer_acked_seq next

-- A payload that starts at an unwrapped position, where the stream stands at `next`.
unfoldable pub receive_at :
    Limits → FlowKey → ℕ → ParsedPacket → ℤ → ℕ → DirectionState → Counters → Received
unfolding accept_payload
receive_at l key side p start next d c =
    let payload = p.transport_payload in
    let size = length payload in
    let before = ltb_ℤ start (pos next) in
    let trim = distance start next in
    let c₁ = record c {
      overlap_conflicts =
          c.overlap_conflicts
          + (if before && conflicts_with_consumed d start payload then 1 else 0);
    } in
    let c₂ = record c₁ { retransmitted_bytes = c₁.retransmitted_bytes + trim } in
    if is_keepalive p start next d
    then keepalive
    else if leb (pos_part start + size) (next + neg_part start)
    then settled d (record c₁ { retransmitted_bytes = c₁.retransmitted_bytes + size })
    else if before
    then queued (accept_payload l key side p next (drop trim payload) d c₂)
    else queued (accept_payload l key side p (pos_part start) payload d c₁)

unfoldable pub receive_next :
    Limits → FlowKey → ℕ → ParsedPacket → Option ℕ → DirectionState → Counters → Received
unfolding receive_at
receive_next l key side p none d c = settled d c
receive_next l key side p (some next) d c =
    if is_nil p.transport_payload
    then settled d c
    else receive_at l key side p (unwrap_sequence (raw_payload_sequence p) next) next d c

-- The branch `if payload and directional.next_seq is not None`.
unfoldable pub receive : Limits → FlowKey → ℕ → ParsedPacket → DirectionState → Counters → Received
unfolding receive_next
receive l key side p d c = receive_next l key side p d.next_seq d c

abbrev pub close_side : ℕ → FlowState → FlowState
close_side side f = set_side side (record (side_of side f) { closed = true }) f

-- The end of the connection: the other side is flushed too, and the flow goes.
unfoldable pub finish_flow : FlowId → ℕ → ParsedPacket → FlowState → Reassembler → Work
unfolding flush_side remove_flow
finish_flow key side p f r =
    let (f', (r', chunks)) = flush_side (1 - side) key f r in
    if has_rst p || (f.forward.closed && f.backward.closed)
    then (remove_flow key r', chunks)
    else (r, [])

-- FIN and RST.
unfoldable pub close_flow : FlowId → ℕ → ParsedPacket → FlowState → Reassembler → Work
unfolding finish_flow
close_flow key side p f r =
    let (f₁, (r₁, chunks₁)) = flush_side side key f r in
    let f₂ = close_side side f₁ in
    let (r₃, chunks₃) = finish_flow key side p f₂ (record r₁ { flows = put key f₂ r₁.flows }) in
    let (r₄, chunks₄) = finish_flow key side p f r in
    if has_fin p || has_rst p then (r₃, chunks₁ ++ chunks₃) else (r₄, chunks₄)

-- Behind the budget: a flow that was evicted has nothing left to close.
unfoldable pub close_kept : FlowId → ℕ → ParsedPacket → Option FlowState → Reassembler → Work
unfolding close_flow
close_kept key side p none r = (r, [])
close_kept key side p (some f) r = close_flow key side p f r

unfoldable pub settle : FlowId → ℕ → ParsedPacket → FlowState → Reassembler → Received → Work
unfolding close_kept evict_while
settle key side p f r keepalive = (record r { flows = put key f r.flows }, [])
settle key side p f r (settled d c) =
    let f' = set_side side d f in
    close_flow key side p f' (record r { flows = put key f' r.flows; counters = c })
settle key side p f r (queued e) =
    let f' = set_side side e.direction f in
    let filed = record r { flows = put key f' r.flows; counters = e.counters } in
    let (kept, evicted) = evict_while (length filed.flows) over_budget true filed in
    let (closed, rest) = close_kept key side p (get key kept.flows) kept in
    (closed, e.chunks ++ evicted ++ rest)

-- A segment of a flow that stands in the dictionary.
unfoldable pub advance_flow : ℕ → FlowId → ℕ → ParsedPacket → FlowState → Reassembler → Work
unfolding touch_flow note_ack begin_direction receive settle
advance_flow clock key side p f r =
    let f₁ = note_ack side p (touch_flow clock side p f) in
    let f₂ = set_side side (begin_direction p (side_of side f₁)) f₁ in
    settle key side p f₂ r (receive r.limits key.flow side p (side_of side f₂) r.counters)

-- `process`, with the reading of `time.monotonic_ns()`.
unfoldable pub process : ℕ → ParsedPacket → Reassembler → Work
unfolding retire open_flow advance_flow
process clock p r =
    let (flow_key, side) = flow p in
    let key : FlowId = record { session_id = p.session_id; flow = flow_key } in
    let (r₁, chunks₁) = retire key side p (get key r.flows) r in
    let (f, (r₂, chunks₂)) = open_flow clock key p (get key r₁.flows) r₁ in
    let (r₃, chunks₃) = advance_flow clock key side p f r₂ in
    if not (p.protocol == ipproto_tcp) || not p.transport_parsed
    then (r, [])
    else (r₃, chunks₁ ++ chunks₂ ++ chunks₃)

-- The stale keys on the capture clock, and on the monotonic clock (`break` at the first that is
-- not stale).
unfoldable pub stale_keys : ℕ → ℕ → OrderedDict FlowId FlowState → List FlowId
stale_keys now idle [] = []
stale_keys now idle ((key, f) ∷ rest) =
    let later = stale_keys now idle rest in
    if leb (f.last_seen_ns + idle) now then key ∷ later else later

unfoldable pub stale_prefix : ℕ → ℕ → OrderedDict FlowId FlowState → List FlowId
stale_prefix now idle [] = []
stale_prefix now idle ((key, f) ∷ rest) =
    let later = stale_prefix now idle rest in
    if ltb now (f.activity_ns + idle) then [] else key ∷ later

unfoldable pub flush_found : FlowId → Option FlowState → Reassembler → Work
unfolding flush_flow remove_flow
flush_found key none r = (r, [])
flush_found key (some f) r =
    let (flushed, chunks) = flush_flow key f r in (remove_flow key flushed, chunks)

-- Flushes and removes the flows of these keys, in order.
unfoldable pub flush_keys : List FlowId → Reassembler → Work
unfolding flush_found
flush_keys [] r = (r, [])
flush_keys (key ∷ keys) r =
    let (r₁, chunks) = flush_found key (get key r.flows) r in
    let (r₂, later) = flush_keys keys r₁ in (r₂, chunks ++ later)

abbrev pub flush_stale : List FlowId → Reassembler → Work
flush_stale stale r =
    let (left, chunks) = flush_keys stale r in
    (
      record left {
        counters = record left.counters {
          expired_flows = left.counters.expired_flows + length stale;
        };
      },
      chunks,
    )

-- `expire(now_ns)` with an explicit capture clock.
unfoldable pub expire : ℕ → Reassembler → Work
unfolding stale_keys flush_keys
expire now r = flush_stale (stale_keys now r.limits.idle_ns r.flows) r

-- `expire()`, with the reading of `time.monotonic_ns()`.
unfoldable pub expire_lru : ℕ → Reassembler → Work
unfolding stale_prefix flush_keys
expire_lru now r = flush_stale (stale_prefix now r.limits.idle_ns r.flows) r

abbrev relabel : Option Completeness → StreamChunk → StreamChunk
relabel none chunk = chunk
relabel (some completeness) chunk = record chunk { completeness = completeness }

-- `flush_all`
unfoldable pub flush_all : Option Completeness → Reassembler → Work
unfolding flush_keys
flush_all completeness r =
    let (left, chunks) = flush_keys (map (λ entry. entry.0) r.flows) r in
    (left, map (relabel completeness) chunks)
