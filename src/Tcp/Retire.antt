-- ===== src/Tcp/Retire.antt =====
-- Flushing, removing and evicting flows.
use packet_inspector_windows.Prelude.{
  ℕ, zero, suc, ◌+◌, ◌≡◌, refl, sym, ap, ◌∙◌, Option, none, some, [], arith, length,
}
use packet_inspector_windows.OrderedDict.{OrderedDict, get, put, remove}
use packet_inspector_windows.OrderedDict.Sums.{
  weigh, total, total-remove, length-remove, length-put,
}
use packet_inspector_windows.OrderedDict.Every.{Every-get, Every-remove}
use packet_inspector_windows.OrderedDict.Distinct.{Distinct-remove, remove_missing, remove-put}
use packet_inspector_windows.Segments.{total_bytes}
use packet_inspector_windows.Tcp.State.{DirectionState, FlowState, FlowId, flow_ids, Reassembler}
use packet_inspector_windows.Tcp.Draining.{flush_direction}
use packet_inspector_windows.Tcp.Process.{
  side_of, set_side, flow_bytes, flow_segments, remove_flow, remove_found, flush_side, flush_flow,
}
use packet_inspector_windows.Tcp.Queue.{flush_direction-IsQueue}
use packet_inspector_windows.Tcp.Flows.{
  IsFlow, IsTable, IsHeld, others, other_segments, side-IsQueue, file_side-IsTable, IsLess,
  IsLess-refl, IsLess-trans,
}

-- What a flushed side leaves.
pub record IsFlushed (key : FlowId) (side : ℕ) (r : Reassembler) (f' : FlowState) (r' : Reassembler)
    : Type 0 where
  pub table : IsTable r'
  pub held : IsHeld key f' r'
  pub less : IsLess r r'
  pub emptied : (side_of side f').pending ≡ []
  pub put_there : r'.flows ≡ put key f' r.flows

side_of-set_side :
    (side : ℕ) (d : DirectionState) (f : FlowState) → side_of side (set_side side d f) ≡ d
side_of-set_side zero d f = refl
side_of-set_side (suc side) d f = refl

length-put_found :
    (key : FlowId) (f f' : FlowState) (flows : OrderedDict FlowId FlowState)
    → get key flows ≡ some f
    → length (put key f' flows) ≡ length flows
length-put_found key f f' flows e =
    omega (arith, length-put key f' flows, ap (weigh (λ (x : FlowState). 1)) e)

pub flush_side-IsFlushed :
    (side : ℕ) (key : FlowId) (f : FlowState) (r : Reassembler)
    → IsTable r
    → IsHeld key f r
    → IsFlushed key side r (flush_side side key f r).0 (flush_side side key f r).1.0
unfolding flush_side
flush_side-IsFlushed side key f r h k =
    let q = side-IsQueue key side f r h k in
    let limit = r.limits.consumed_history_bytes in
    let e = flush_direction limit f.flow side (side_of side f) r.counters in
    let (flushed, emptied) =
      flush_direction-IsQueue (others key side f r) (other_segments key side f r) limit f.flow side
        (side_of side f) r.counters q in
    let (table, held) = file_side-IsTable key side e.direction e.counters f r h k flushed in
    record {
      table = table;
      held = held;
      less = record {
        limits = refl;
        flows =
            omega
              (arith, length-put_found key k.stored (set_side side e.direction f) r.flows k.there);
        bytes = omega (arith, q.counted.bytes, flushed.counted.bytes, ap total_bytes emptied);
        segments = omega (arith, q.counted.queued, flushed.counted.queued, ap length emptied);
      };
      emptied =
          ap (λ (d : DirectionState). d.pending) (side_of-set_side side e.direction f) ∙ emptied;
      put_there = refl;
    }

-- What a flushed flow leaves: its key still stands there, once.
pub record IsFlowFlushed (key : FlowId) (r r' : Reassembler) : Type 0 where
  pub table : IsTable r'
  pub less : IsLess r r'
  pub others_kept : remove key r'.flows ≡ remove key r.flows

pub flush_flow-IsFlowFlushed :
    (key : FlowId) (f : FlowState) (r : Reassembler)
    → IsTable r
    → IsHeld key f r
    → IsFlowFlushed key r (flush_flow key f r).0
unfolding flush_flow
flush_flow-IsFlowFlushed key f r h k =
    let one = flush_side-IsFlushed 0 key f r h k in
    let two = flush_side-IsFlushed 1 key _ _ one.table one.held in
    record {
      table = two.table;
      less = IsLess-trans one.less two.less;
      others_kept =
          ap (remove key) two.put_there
          ∙ remove-put key _ _
          ∙ ap (remove key) one.put_there
          ∙ remove-put key _ r.flows;
    }

flow_bytes_there :
    (key : FlowId) (f : FlowState) (r : Reassembler)
    → get key r.flows ≡ some f
    → (total flow_bytes (remove key r.flows) + flow_bytes f ≡ total flow_bytes r.flows)
      × (total flow_segments (remove key r.flows) + flow_segments f ≡ total flow_segments r.flows)
flow_bytes_there key f r e = (
  omega (arith, total-remove flow_bytes key r.flows, ap (weigh flow_bytes) e),
  omega (arith, total-remove flow_segments key r.flows, ap (weigh flow_segments) e),
)

remove_found-IsTable :
    (key : FlowId) (o : Option FlowState) (r : Reassembler)
    → get key r.flows ≡ o
    → IsTable r
    → IsTable (remove_found key o r)
      × IsLess r (remove_found key o r)
      × ((remove_found key o r).flows ≡ remove key r.flows)
unfolding remove_found
remove_found-IsTable key none r e h = (h, IsLess-refl r, sym (remove_missing key r.flows e))
remove_found-IsTable key (some f) r e h =
    let (bytes, segments) = flow_bytes_there key f r e in
    (
      record {
        distinct = Distinct-remove key r.flows h.distinct;
        flows = Every-remove IsFlow key r.flows h.flows;
        bytes = omega (arith, h.bytes, bytes);
        segments = omega (arith, h.segments, segments);
      },
      record {
        limits = refl;
        flows = omega (arith, length-remove key r.flows);
        bytes = omega arith;
        segments = omega arith;
      },
      refl,
    )

pub remove_flow-IsTable :
    (key : FlowId) (r : Reassembler)
    → IsTable r
    → IsTable (remove_flow key r)
      × IsLess r (remove_flow key r)
      × ((remove_flow key r).flows ≡ remove key r.flows)
unfolding remove_flow
remove_flow-IsTable key r h = remove_found-IsTable key (get key r.flows) r refl h

-- A stored flow is held.
pub stored-IsHeld :
    (key : FlowId) (f : FlowState) (r : Reassembler)
    → IsTable r
    → get key r.flows ≡ some f
    → IsHeld key f r
stored-IsHeld key f r h e = record {
  is_flow = Every-get IsFlow key f r.flows h.flows e;
  stored = f;
  there = e;
  bytes = refl;
  segments = refl;
}

-- A flow is flushed and removed.
pub retired-IsTable :
    (key : FlowId) (f : FlowState) (r : Reassembler)
    → IsTable r
    → IsHeld key f r
    → let r' = remove_flow key (flush_flow key f r).0 in
      IsTable r' × IsLess r r' × (r'.flows ≡ remove key r.flows)
retired-IsTable key f r h k =
    let flushed = flush_flow-IsFlowFlushed key f r h k in
    let (table, less, left) = remove_flow-IsTable key (flush_flow key f r).0 flushed.table in
    (table, IsLess-trans flushed.less less, left ∙ flushed.others_kept)
