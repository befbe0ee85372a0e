-- ===== src/Tcp/Budget.antt =====
-- A segment of a flow keeps the reassembler bounded: its direction takes the payload, the budget is
-- enforced, and FIN or RST closes it.
use packet_inspector_windows.Prelude.{
  ℕ, zero, suc, ◌-◌, ◌≡◌, refl, ap, false, ◌&&◌, ◌||◌, Option, none, some, [], arith, length, ltb,
  Bool-cases, inl, inr,
}
use packet_inspector_windows.OrderedDict.{get, put}
use packet_inspector_windows.OrderedDict.Sums.{weigh, total-remove, length-put, get-put_self}
use packet_inspector_windows.Models.{ParsedPacket}
use packet_inspector_windows.Tcp.State.{FlowState, FlowId, flow_ids, Reassembler}
use packet_inspector_windows.Tcp.Process.{
  flow_bytes, flow_segments, flush_side, close_side, finish_flow, close_flow, close_kept, has_fin,
  has_rst, over_budget,
}
use packet_inspector_windows.Tcp.Flows.{IsTable, IsHeld, put-IsTable, IsLess, IsLess-trans}
use packet_inspector_windows.Tcp.Retire.{stored-IsHeld}
use packet_inspector_windows.Tcp.Retire.{flush_side-IsFlushed, remove_flow-IsTable}
use packet_inspector_windows.Tcp.Evict.{IsBounded, less-IsBounded}

-- A flow differs in nothing that is counted or ordered.
abbrev pub SameQueues : FlowState → FlowState → Type 0
SameQueues f g =
    (f.forward.pending ≡ g.forward.pending)
    × (f.forward.pending_bytes ≡ g.forward.pending_bytes)
    × (f.forward.next_seq ≡ g.forward.next_seq)
    × (f.backward.pending ≡ g.backward.pending)
    × (f.backward.pending_bytes ≡ g.backward.pending_bytes)
    × (f.backward.next_seq ≡ g.backward.next_seq)

pub SameQueues-IsHeld :
    (key : FlowId) (f g : FlowState) (r : Reassembler)
    → SameQueues f g
    → IsHeld key g r
    → IsHeld key f r
SameQueues-IsHeld key f g r (a, b, c, d, e, i) h = record {
  is_flow = rw (a, b, c, d, e, i) h.is_flow;
  stored = h.stored;
  there = h.there;
  bytes = omega (arith, h.bytes);
  segments = omega (arith, h.segments, ap length a, ap length d);
}

-- A held flow is filed: the totals stay.
pub file-IsTable :
    (key : FlowId) (f : FlowState) (r : Reassembler)
    → IsTable r
    → IsHeld key f r
    → let r' = record r { flows = put key f r.flows } in IsTable r' × IsHeld key f r' × IsLess r r'
file-IsTable key f r h k = (
  let table =
        put-IsTable key f r.counters r h k.is_flow
          (omega (
            arith,
            h.bytes,
            k.bytes,
            total-remove flow_bytes key r.flows,
            ap (weigh flow_bytes) k.there,
          ))
          (omega (
            arith,
            h.segments,
            k.segments,
            total-remove flow_segments key r.flows,
            ap (weigh flow_segments) k.there,
          )) in
      record {
        distinct = table.distinct;
        flows = table.flows;
        bytes = table.bytes;
        segments = table.segments;
      },
  record {
    is_flow = k.is_flow;
    stored = f;
    there = get-put_self key f r.flows;
    bytes = refl;
    segments = refl;
  },
  record {
    limits = refl;
    flows = omega (arith, length-put key f r.flows, ap (weigh (λ (x : FlowState). 1)) k.there);
    bytes = omega arith;
    segments = omega arith;
  },
)

close_side-SameQueues : (side : ℕ) (f : FlowState) → SameQueues (close_side side f) f
close_side-SameQueues zero f = (refl, refl, refl, refl, refl, refl)
close_side-SameQueues (suc side) f = (refl, refl, refl, refl, refl, refl)

finish_flow-IsBounded :
    (key : FlowId) (side : ℕ) (p : ParsedPacket) (f : FlowState) (r : Reassembler)
    → IsBounded r
    → IsHeld key f r
    → IsBounded (finish_flow key side p f r).0
unfolding finish_flow
finish_flow-IsBounded key side p f r h k =
    let flushed = flush_side-IsFlushed (1 - side) key f r h.table k in
    let (table, less, _) = remove_flow-IsTable key _ flushed.table in
    elim (Bool-cases (has_rst p || (f.forward.closed && f.backward.closed))) [
      | inl over ↦ rw over (less-IsBounded r _ h table (IsLess-trans flushed.less less))
      | inr going ↦ rw going h
    ]

pub close_flow-IsBounded :
    (key : FlowId) (side : ℕ) (p : ParsedPacket) (f : FlowState) (r : Reassembler)
    → IsBounded r
    → IsHeld key f r
    → IsBounded (close_flow key side p f r).0
unfolding close_flow
close_flow-IsBounded key side p f r h k =
    let one = flush_side-IsFlushed side key f r h.table k in
    let f₁ = (flush_side side key f r).0 in
    let r₁ = (flush_side side key f r).1.0 in
    let held =
      SameQueues-IsHeld key (close_side side f₁) f₁ r₁ (close_side-SameQueues side f₁) one.held in
    let (table, filed, less) = file-IsTable key (close_side side f₁) r₁ one.table held in
    let bounded = less-IsBounded r _ h table (IsLess-trans one.less less) in
    elim (Bool-cases (has_fin p || has_rst p)) [
      | inl ending ↦
          rw ending (finish_flow-IsBounded key side p (close_side side f₁) _ bounded filed)
      | inr going ↦ rw going (finish_flow-IsBounded key side p f r h k)
    ]

pub close_kept-IsBounded :
    (key : FlowId) (side : ℕ) (p : ParsedPacket) (o : Option FlowState) (r : Reassembler)
    → get key r.flows ≡ o
    → IsBounded r
    → IsBounded (close_kept key side p o r).0
unfolding close_kept
close_kept-IsBounded key side p none r e h = h
close_kept-IsBounded key side p (some f) r e h =
    close_flow-IsBounded key side p f r h (stored-IsHeld key f r h.table e)

pub over_budget_stops : (s : Reassembler) → s.flows ≡ [] → over_budget s ≡ false
over_budget_stops s empty =
    elim (Bool-cases (
      ltb s.limits.max_buffered_bytes s.counters.buffered_bytes
      || ltb s.limits.max_buffered_segments s.counters.buffered_segments)) [
        | inl over ↦ rw (over, empty) refl
        | inr within ↦ rw within refl
      ]
