-- ===== src/Tcp/Flows.antt =====
-- The flows of the TCP reassembler: one for each key, with queues in order, and counted in the
-- buffered totals.
use packet_inspector_windows.Prelude.{
  ℕ, zero, suc, ◌+◌, ◌≤◌, ◌≡◌, refl, ap, ◌∙◌, some, arith, length,
}
use packet_inspector_windows.OrderedDict.{get, put, remove}
use packet_inspector_windows.OrderedDict.Sums.{weigh, total, total-remove, total-put, get-put_self}
use packet_inspector_windows.OrderedDict.Every.{Every, Every-put}
use packet_inspector_windows.OrderedDict.Distinct.{Distinct, Distinct-put}
use packet_inspector_windows.Segments.{total_bytes}
use packet_inspector_windows.Tcp.State.{
  DirectionState, FlowState, FlowId, flow_ids, Counters, Reassembler,
}
use packet_inspector_windows.Tcp.Process.{side_of, set_side, flow_bytes, flow_segments}
use packet_inspector_windows.Tcp.Queue.{IsOrdered, IsQueue}

-- A direction counts its own queue, which is in order.
abbrev pub IsSide : DirectionState → Type 0
IsSide d = (d.pending_bytes ≡ total_bytes d.pending) × IsOrdered d.next_seq d.pending

abbrev pub IsFlow : FlowId → FlowState → Type 0
IsFlow key f = IsSide f.forward × IsSide f.backward

pub record IsTable (r : Reassembler) : Type 0 where
  pub distinct : Distinct r.flows
  pub flows : Every IsFlow r.flows
  pub bytes : r.counters.buffered_bytes ≡ total flow_bytes r.flows
  pub segments : r.counters.buffered_segments ≡ total flow_segments r.flows

-- A flow that stands in the dictionary, up to what the totals do not count.
pub record IsHeld (key : FlowId) (f : FlowState) (r : Reassembler) : Type 0 where
  pub is_flow : IsFlow key f
  pub stored : FlowState
  pub there : get key r.flows ≡ some stored
  pub bytes : flow_bytes stored ≡ flow_bytes f
  pub segments : flow_segments stored ≡ flow_segments f

-- A flow is put at its key, and the counters count it beside the other flows.
pub put-IsTable :
    (key : FlowId) (f : FlowState) (c : Counters) (r : Reassembler)
    → IsTable r
    → IsFlow key f
    → c.buffered_bytes ≡ total flow_bytes (remove key r.flows) + flow_bytes f
    → c.buffered_segments ≡ total flow_segments (remove key r.flows) + flow_segments f
    → IsTable (record r { flows = put key f r.flows; counters = c })
put-IsTable key f c r h g bytes segments = record {
  distinct = Distinct-put key f r.flows h.distinct;
  flows = Every-put IsFlow key f r.flows h.flows g;
  bytes =
      omega (arith, bytes, total-put flow_bytes key f r.flows, total-remove flow_bytes key r.flows);
  segments = omega (
    arith,
    segments,
    total-put flow_segments key f r.flows,
    total-remove flow_segments key r.flows,
  );
}

put-IsHeld :
    (key : FlowId) (f : FlowState) (c : Counters) (r : Reassembler)
    → IsFlow key f
    → IsHeld key f (record r { flows = put key f r.flows; counters = c })
put-IsHeld key f c r g = record {
  is_flow = g;
  stored = f;
  there = get-put_self key f r.flows;
  bytes = refl;
  segments = refl;
}

-- What is counted beside one direction of a flow.
abbrev pub other_side : ℕ → FlowState → DirectionState
other_side zero f = f.backward
other_side (suc _) f = f.forward

abbrev pub others : FlowId → ℕ → FlowState → Reassembler → ℕ
others key side f r =
    total flow_bytes (remove key r.flows) + total_bytes (other_side side f).pending

abbrev pub other_segments : FlowId → ℕ → FlowState → Reassembler → ℕ
other_segments key side f r =
    total flow_segments (remove key r.flows) + length (other_side side f).pending

-- One direction of a held flow.
pub side-IsQueue :
    (key : FlowId) (side : ℕ) (f : FlowState) (r : Reassembler)
    → IsTable r
    → IsHeld key f r
    → IsQueue (others key side f r) (other_segments key side f r) (side_of side f) r.counters
side-IsQueue key zero f r h k =
    let bytes = total-remove flow_bytes key r.flows in
    let segments = total-remove flow_segments key r.flows in
    record {
      counted = record {
        own = k.is_flow.0.0;
        bytes = omega (arith, h.bytes, k.bytes, k.is_flow, bytes, ap (weigh flow_bytes) k.there);
        queued = omega (arith, h.segments, k.segments, segments, ap (weigh flow_segments) k.there);
      };
      ordered = k.is_flow.0.1;
    }
side-IsQueue key (suc side) f r h k =
    let bytes = total-remove flow_bytes key r.flows in
    let segments = total-remove flow_segments key r.flows in
    record {
      counted = record {
        own = k.is_flow.1.0;
        bytes = omega (arith, h.bytes, k.bytes, k.is_flow, bytes, ap (weigh flow_bytes) k.there);
        queued = omega (arith, h.segments, k.segments, segments, ap (weigh flow_segments) k.there);
      };
      ordered = k.is_flow.1.1;
    }

-- The direction is filed again.
pub file_side-IsTable :
    (key : FlowId) (side : ℕ) (d : DirectionState) (c : Counters) (f : FlowState) (r : Reassembler)
    → IsTable r
    → IsHeld key f r
    → IsQueue (others key side f r) (other_segments key side f r) d c
    → IsTable (record r { flows = put key (set_side side d f) r.flows; counters = c })
      × IsHeld key
          (set_side side d f)
          (record r { flows = put key (set_side side d f) r.flows; counters = c })
file_side-IsTable key zero d c f r h k q =
    let g : IsFlow key (set_side zero d f) = ((q.counted.own, q.ordered), k.is_flow.1) in
    (
      put-IsTable key (set_side zero d f) c r h g
          (omega (arith, q.counted.bytes, q.counted.own, k.is_flow.1.0))
          (omega (arith, q.counted.queued)),
      put-IsHeld key (set_side zero d f) c r g,
    )
file_side-IsTable key (suc side) d c f r h k q =
    let g : IsFlow key (set_side (suc side) d f) = (k.is_flow.0, (q.counted.own, q.ordered)) in
    (
      put-IsTable key (set_side (suc side) d f) c r h g
          (omega (arith, q.counted.bytes, q.counted.own, k.is_flow.0.0))
          (omega (arith, q.counted.queued)),
      put-IsHeld key (set_side (suc side) d f) c r g,
    )

-- No more flows, and no more bytes and segments buffered, under the same limits.
pub record IsLess (r r' : Reassembler) : Type 0 where
  pub limits : r'.limits ≡ r.limits
  pub flows : length r'.flows ≤ length r.flows
  pub bytes : r'.counters.buffered_bytes ≤ r.counters.buffered_bytes
  pub segments : r'.counters.buffered_segments ≤ r.counters.buffered_segments

pub IsLess-refl : (r : Reassembler) → IsLess r r
IsLess-refl r = record {
  limits = refl;
  flows = omega arith;
  bytes = omega arith;
  segments = omega arith;
}

pub IsLess-trans : {r s t : Reassembler} → IsLess r s → IsLess s t → IsLess r t
IsLess-trans h k = record {
  limits = k.limits ∙ h.limits;
  flows = omega (arith, h.flows, k.flows);
  bytes = omega (arith, h.bytes, k.bytes);
  segments = omega (arith, h.segments, k.segments);
}
