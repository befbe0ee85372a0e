-- ===== src/Tcp/Advance.antt =====
-- `process`, `expire` and `flush_all` keep the TCP reassembler bounded.
use packet_inspector_windows.Prelude.{
  ℕ, ◌≡◌, refl, not, ◌&&◌, ◌||◌, Option, none, some, List, [], ◌∷◌, arith, is_some, ◌==◌, map,
  Bool-cases, inl, inr,
}
use packet_inspector_windows.OrderedDict.{get}
use packet_inspector_windows.Models.{ParsedPacket, Completeness, flow}
use packet_inspector_windows.Packets.{ipproto_tcp}
use packet_inspector_windows.Tcp.State.{DirectionState, FlowState, FlowId, flow_ids, Reassembler}
use packet_inspector_windows.Tcp.Process.{
  side_of, set_side, process, expire, expire_lru, flush_all, flush_keys, flush_found, flush_stale,
  stale_keys, stale_prefix, retire, open_flow, touch_flow, note_ack, begin_direction, begin_at,
  receive, advance_flow, has_syn,
}
use packet_inspector_windows.Tcp.Flows.{IsHeld, others, other_segments, side-IsQueue}
use packet_inspector_windows.Tcp.Retire.{retired-IsTable, stored-IsHeld}
use packet_inspector_windows.Tcp.Evict.{
  IsBounded, less-IsBounded, retire-IsBounded, open_flow-IsBounded,
}
use packet_inspector_windows.Tcp.Receive.{ReceivedQueue, receive-IsQueue, begin_direction-IsQueue}
use packet_inspector_windows.Tcp.Budget.{SameQueues-IsHeld}
use packet_inspector_windows.Tcp.Bounded.{
  settle-IsBounded, touch_flow-SameQueues, note_ack-SameQueues, begun-IsHeld,
}

begin_at-pending :
    (at : Option ℕ) (p : ParsedPacket) (d : DirectionState) → (begin_at at p d).pending ≡ d.pending
unfolding begin_at
begin_at-pending none p d = ground arith
begin_at-pending (some next) p d = refl

begin_direction-pending :
    (p : ParsedPacket) (d : DirectionState) → (begin_direction p d).pending ≡ d.pending
unfolding begin_direction
begin_direction-pending p d =
    elim (Bool-cases (has_syn p && not (is_some (begin_at d.next_seq p d).syn_seq))) [
      | inl note ↦ rw note (begin_at-pending d.next_seq p d)
      | inr keep ↦ rw keep (begin_at-pending d.next_seq p d)
    ]

-- The direction that a segment begins is queued beside what was beside it before.
begun-IsQueue :
    (key : FlowId) (side : ℕ) (p : ParsedPacket) (f : FlowState) (r : Reassembler)
    → IsBounded r
    → IsHeld key f r
    → let g = set_side side (begin_direction p (side_of side f)) f in
      IsHeld key g r
      × ReceivedQueue
          (others key side g r)
          (other_segments key side g r)
          r.counters
          (receive r.limits key.flow side p (side_of side g) r.counters)
begun-IsQueue key side p f r h k =
    let d = begin_direction p (side_of side f) in
    let q =
      begin_direction-IsQueue (others key side f r) (other_segments key side f r) p (side_of side f)
        r.counters (side-IsQueue key side f r h.table k) in
    let held =
      begun-IsHeld key side d f r h.table k (begin_direction-pending p (side_of side f)) q in
    (
      held,
      receive-IsQueue _ _ r.limits key.flow side p _ r.counters
          (side-IsQueue key side (set_side side d f) r h.table held),
    )

advance_flow-IsBounded :
    (clock : ℕ) (key : FlowId) (side : ℕ) (p : ParsedPacket) (f : FlowState) (r : Reassembler)
    → IsBounded r
    → IsHeld key f r
    → IsBounded (advance_flow clock key side p f r).0
unfolding advance_flow
advance_flow-IsBounded clock key side p f r h k =
    let touched = touch_flow clock side p f in
    let f₁ = note_ack side p touched in
    let held₁ = SameQueues-IsHeld key touched f r (touch_flow-SameQueues clock side p f) k in
    let held₂ = SameQueues-IsHeld key f₁ touched r (note_ack-SameQueues side p touched) held₁ in
    let (held, received) = begun-IsQueue key side p f₁ r h held₂ in
    settle-IsBounded key side p _ r _ h held received

pub process-IsBounded :
    (clock : ℕ) (p : ParsedPacket) (r : Reassembler) → IsBounded r → IsBounded (process clock p r).0
unfolding process
process-IsBounded clock p r h =
    let side = (flow p).1 in
    let key : FlowId = record { session_id = p.session_id; flow = (flow p).0 } in
    let r₁ = (retire key side p (get key r.flows) r).0 in
    let retired = (retire-IsBounded key side p (get key r.flows) r refl h).0 in
    let (opened, held) = open_flow-IsBounded clock key p (get key r₁.flows) r₁ refl retired in
    elim (Bool-cases (not (p.protocol == ipproto_tcp) || not p.transport_parsed)) [
      | inl other ↦ rw other h
      | inr segment ↦ rw segment (
          advance_flow-IsBounded clock key side p (open_flow clock key p (get key r₁.flows) r₁).0 _
            opened held)
    ]

flush_found-IsBounded :
    (key : FlowId) (o : Option FlowState) (r : Reassembler)
    → get key r.flows ≡ o
    → IsBounded r
    → IsBounded (flush_found key o r).0
unfolding flush_found
flush_found-IsBounded key none r e h = h
flush_found-IsBounded key (some f) r e h =
    let (table, less, _) = retired-IsTable key f r h.table (stored-IsHeld key f r h.table e) in
    less-IsBounded r _ h table less

flush_keys-IsBounded :
    (keys : List FlowId) (r : Reassembler) → IsBounded r → IsBounded (flush_keys keys r).0
unfolding flush_keys
flush_keys-IsBounded [] r h = h
flush_keys-IsBounded (key ∷ keys) r h =
    flush_keys-IsBounded keys (flush_found key (get key r.flows) r).0
      (flush_found-IsBounded key (get key r.flows) r refl h)

flush_stale-IsBounded :
    (keys : List FlowId) (r : Reassembler) → IsBounded r → IsBounded (flush_stale keys r).0
flush_stale-IsBounded keys r h =
    let k = flush_keys-IsBounded keys r h in
    record {
      table = record {
        distinct = k.table.distinct;
        flows = k.table.flows;
        bytes = k.table.bytes;
        segments = k.table.segments;
      };
      some_room = k.some_room;
      flows = k.flows;
      bytes = k.bytes;
      segments = k.segments;
    }

pub expire-IsBounded : (now : ℕ) (r : Reassembler) → IsBounded r → IsBounded (expire now r).0
unfolding expire
expire-IsBounded now r h = flush_stale-IsBounded (stale_keys now r.limits.idle_ns r.flows) r h

pub expire_lru-IsBounded :
    (now : ℕ) (r : Reassembler) → IsBounded r → IsBounded (expire_lru now r).0
unfolding expire_lru
expire_lru-IsBounded now r h = flush_stale-IsBounded (stale_prefix now r.limits.idle_ns r.flows) r h

pub flush_all-IsBounded :
    (completeness : Option Completeness) (r : Reassembler)
    → IsBounded r
    → IsBounded (flush_all completeness r).0
unfolding flush_all
flush_all-IsBounded completeness r h = flush_keys-IsBounded (map (λ entry. entry.0) r.flows) r h
