-- ===== src/Tcp/Bounded.antt =====
-- `process`, `expire` and `flush_all` keep the TCP reassembler bounded.
use packet_inspector_windows.Prelude.{
  ℕ, zero, suc, ◌-◌, ◌≤◌, ◌≡◌, refl, ap, true, false, ◌||◌, Option, none, some, [], ◌∷◌, arith,
  length, ltb, is_nil, Bool-cases, inl, inr,
}
use packet_inspector_windows.OrderedDict.{OrderedDict, get, put}
use packet_inspector_windows.OrderedDict.Sums.{weigh, total, length-put}
use packet_inspector_windows.Models.{ParsedPacket}
use packet_inspector_windows.Segments.{total_bytes}
use packet_inspector_windows.Tcp.State.{DirectionState, FlowState, FlowId, flow_ids, Reassembler}
use packet_inspector_windows.Tcp.Process.{
  side_of, set_side, flow_bytes, flow_segments, settle, Received, keepalive, settled, queued,
  touch_flow, note_ack, note_ack_at, has_ack, evict_while, over_budget,
}
use packet_inspector_windows.Tcp.Queue.{IsQueue}
use packet_inspector_windows.Tcp.Flows.{
  IsTable, IsHeld, others, other_segments, file_side-IsTable, IsLess,
}
use packet_inspector_windows.Tcp.Evict.{IsBounded, less-IsBounded, evict_while-IsEvicted}
use packet_inspector_windows.Tcp.Receive.{ReceivedQueue}
use packet_inspector_windows.Tcp.Budget.{
  SameQueues, file-IsTable, close_flow-IsBounded, close_kept-IsBounded, over_budget_stops,
}

-- Behind the eviction loop no budget is exceeded.
within_budget :
    (r kept : Reassembler)
    → IsBounded r
    → IsTable kept
    → kept.limits ≡ r.limits
    → length kept.flows ≤ length r.flows
    → over_budget kept ≡ false
    → IsBounded kept
within_budget r kept h table limits fewer done = elim (Bool-cases (is_nil kept.flows)) [
  | inl empty ↦ record {
    table = table;
    some_room = rw limits h.some_room;
    flows = rw limits (omega (arith, h.flows));
    bytes = omega (arith, table.bytes, no_bytes kept.flows empty);
    segments = omega (arith, table.segments, no_bytes kept.flows empty);
  }
  | inr filled ↦
      let within : (ltb kept.limits.max_buffered_bytes kept.counters.buffered_bytes
            || ltb kept.limits.max_buffered_segments kept.counters.buffered_segments)
          ≡ false =
        ground arith in
      record {
        table = table;
        some_room = rw limits h.some_room;
        flows = rw limits (omega (arith, h.flows));
        bytes = ground arith;
        segments = ground arith;
      }
]
  where
    no_bytes :
        (flows : OrderedDict FlowId FlowState)
        → is_nil flows ≡ true
        → (total flow_bytes flows ≡ 0) × (total flow_segments flows ≡ 0)
    no_bytes [] e = (refl, refl)
    no_bytes ((j, g) ∷ flows) e = absurd (cc e)

-- A side is replaced by what its payload has made of it.
pub settle-IsBounded :
    (key : FlowId) (side : ℕ) (p : ParsedPacket) (f : FlowState) (r : Reassembler)
    (outcome : Received)
    → IsBounded r
    → IsHeld key f r
    → ReceivedQueue (others key side f r) (other_segments key side f r) r.counters outcome
    → IsBounded (settle key side p f r outcome).0
unfolding settle
settle-IsBounded key side p f r keepalive h k q =
    let (table, _, less) = file-IsTable key f r h.table k in less-IsBounded r _ h table less
settle-IsBounded key side p f r (settled d c) h k (q, bytes, segments) =
    let f' = set_side side d f in
    let (table, held) = file_side-IsTable key side d c f r h.table k q in
    let less : IsLess r (record r { flows = put key f' r.flows; counters = c }) = record {
      limits = refl;
      flows = omega (arith, length-put key f' r.flows, ap (weigh (λ (x : FlowState). 1)) k.there);
      bytes = omega (arith, bytes);
      segments = omega (arith, segments);
    } in
    close_flow-IsBounded key side p f' _ (less-IsBounded r _ h table less) held
settle-IsBounded key side p f r (queued e) h k q =
    let f' = set_side side e.direction f in
    let (table, held) = file_side-IsTable key side e.direction e.counters f r h.table k q in
    let filed = record r { flows = put key f' r.flows; counters = e.counters } in
    let (evicted, done) =
      evict_while-IsEvicted (length filed.flows) over_budget true filed
        (λ s _ limits empty. over_budget_stops s empty) (omega arith) table in
    let kept = (evict_while (length filed.flows) over_budget true filed).0 in
    close_kept-IsBounded key side p (get key kept.flows) kept refl (
      within_budget r kept h evicted.table (evicted.less.limits)
        (omega (
          arith,
          evicted.less.flows,
          length-put key f' r.flows,
          ap (weigh (λ (x : FlowState). 1)) k.there,
        ))
        done)

-- What a segment notes of a flow before its payload is read.
pub touch_flow-SameQueues :
    (clock side : ℕ) (p : ParsedPacket) (f : FlowState) → SameQueues (touch_flow clock side p f) f
unfolding touch_flow
touch_flow-SameQueues clock zero p f = (refl, refl, refl, refl, refl, refl)
touch_flow-SameQueues clock (suc side) p f = (refl, refl, refl, refl, refl, refl)

abbrev SameQueue : DirectionState → DirectionState → Type 0
SameQueue d e =
    (d.pending ≡ e.pending) × (d.pending_bytes ≡ e.pending_bytes) × (d.next_seq ≡ e.next_seq)

note_ack_at-SameQueue :
    (at : Option ℕ) (ack : ℕ) (d : DirectionState) → SameQueue (note_ack_at at ack d) d
unfolding note_ack_at
note_ack_at-SameQueue none ack d = (refl, refl, refl)
note_ack_at-SameQueue (some next) ack d = ground arith

set_side-SameQueues :
    (side : ℕ) (d : DirectionState) (f : FlowState)
    → SameQueue d (side_of side f)
    → SameQueues (set_side side d f) f
set_side-SameQueues zero d f (a, b, c) = (a, b, c, refl, refl, refl)
set_side-SameQueues (suc side) d f (a, b, c) = (refl, refl, refl, a, b, c)

pub note_ack-SameQueues :
    (side : ℕ) (p : ParsedPacket) (f : FlowState) → SameQueues (note_ack side p f) f
unfolding note_ack
note_ack-SameQueues side p f =
    let other = side_of (1 - side) f in
    elim (Bool-cases (has_ack p)) [
      | inl ack ↦ rw ack (
          set_side-SameQueues (1 - side) (note_ack_at other.next_seq p.tcp_ack other) f
            (note_ack_at-SameQueue other.next_seq p.tcp_ack other))
      | inr bare ↦ rw bare (refl, refl, refl, refl, refl, refl)
    ]

-- The direction of a segment begins: its queue, where it has none yet, goes on being empty.
pub begun-IsHeld :
    (key : FlowId) (side : ℕ) (d : DirectionState) (f : FlowState) (r : Reassembler)
    → IsTable r
    → IsHeld key f r
    → d.pending ≡ (side_of side f).pending
    → IsQueue (others key side f r) (other_segments key side f r) d r.counters
    → IsHeld key (set_side side d f) r
begun-IsHeld key zero d f r h k same q = record {
  is_flow = ((q.counted.own, q.ordered), k.is_flow.1);
  stored = k.stored;
  there = k.there;
  bytes = omega (arith, k.bytes, q.counted.own, k.is_flow.0.0, ap total_bytes same);
  segments = omega (arith, k.segments, ap length same);
}
begun-IsHeld key (suc side) d f r h k same q = record {
  is_flow = (k.is_flow.0, (q.counted.own, q.ordered));
  stored = k.stored;
  there = k.there;
  bytes = omega (arith, k.bytes, q.counted.own, k.is_flow.1.0, ap total_bytes same);
  segments = omega (arith, k.segments, ap length same);
}
