-- ===== src/Tcp/Evict.antt =====
-- Eviction ends with its test failing, and room is made for a new flow.
use packet_inspector_windows.Prelude.{
  ℕ, zero, suc, ◌≤◌, ◌<◌, ◌≡◌, refl, sym, ap, subst, ◌∙◌, Bool, false, not, ◌&&◌, ◌||◌, Option,
  none, some, [], ◌∷◌, arith, length, Bool-cases, ◌⊎◌, inl, inr,
}
use packet_inspector_windows.OrderedDict.{OrderedDict, get, put, remove}
use packet_inspector_windows.OrderedDict.Sums.{
  weigh, total-remove, total-move_to_end, length-move_to_end, length-put, get-put_self, get_oldest,
  remove_oldest,
}
use packet_inspector_windows.OrderedDict.Every.{Every-get, Every-move_to_end}
use packet_inspector_windows.OrderedDict.Distinct.{Distinct-move_to_end, get-move_to_end}
use packet_inspector_windows.Models.{FlowKey, ParsedPacket}
use packet_inspector_windows.Tcp.State.{
  fresh_flow, fresh_direction, FlowState, FlowId, flow_ids, Reassembler,
}
use packet_inspector_windows.Tcp.Process.{
  side_of, flow_bytes, flow_segments, retire, open_flow, has_syn, has_ack, is_seq, evict_first,
  evict_oldest, evict_while, no_room,
}
use packet_inspector_windows.Tcp.Flows.{
  IsFlow, IsTable, IsHeld, put-IsTable, IsLess, IsLess-refl, IsLess-trans,
}
use packet_inspector_windows.Tcp.Retire.{retired-IsTable, stored-IsHeld}

get_later :
    (j k : FlowId) (f : FlowState) (rest : OrderedDict FlowId FlowState)
    → get j ((k, f) ∷ rest) ≡ none
    → get j rest ≡ none
unfolding get
get_later j k f rest h = ground arith

-- What an eviction leaves.
pub record IsEvicted (r r' : Reassembler) : Type 0 where
  pub table : IsTable r'
  pub less : IsLess r r'
  pub missing : (key : FlowId) → get key r.flows ≡ none → get key r'.flows ≡ none

evict_first-IsEvicted :
    (budget : Bool) (key : FlowId) (f : FlowState) (rest : OrderedDict FlowId FlowState)
    (r : Reassembler)
    → r.flows ≡ (key, f) ∷ rest
    → IsTable r
    → IsEvicted r (evict_first budget ((key, f) ∷ rest) r).0
      × ((evict_first budget ((key, f) ∷ rest) r).0.flows ≡ rest)
unfolding evict_first
evict_first-IsEvicted budget key f rest r e h =
    let there : get key r.flows ≡ some f = ap (get key) e ∙ get_oldest key f rest in
    let (table, less, left) = retired-IsTable key f r h (stored-IsHeld key f r h there) in
    let gone = left ∙ ap (remove key) e ∙ remove_oldest key f rest in
    (
      record {
        table = record {
          distinct = table.distinct;
          flows = table.flows;
          bytes = table.bytes;
          segments = table.segments;
        };
        less = record {
          limits = less.limits;
          flows = less.flows;
          bytes = less.bytes;
          segments = less.segments;
        };
        missing = λ j none_there.
            ap (get j) gone ∙ get_later j key f rest (ap (get j) (sym e) ∙ none_there);
      },
      gone,
    )

flows_cases :
    (flows : OrderedDict FlowId FlowState)
    → (flows ≡ [])
      ⊎ ((key : FlowId) × (f : FlowState) × (rest : OrderedDict FlowId FlowState) × (flows
            ≡ (key, f) ∷ rest))
flows_cases [] = inl refl
flows_cases ((key, f) ∷ rest) = inr (key, f, rest, refl)

evict_oldest-IsEvicted :
    (budget : Bool) (key : FlowId) (f : FlowState) (rest : OrderedDict FlowId FlowState)
    (r : Reassembler)
    → r.flows ≡ (key, f) ∷ rest
    → IsTable r
    → IsEvicted r (evict_oldest budget r).0 × ((evict_oldest budget r).0.flows ≡ rest)
unfolding evict_oldest
evict_oldest-IsEvicted budget key f rest r e h =
    subst
      (λ flows.
        IsEvicted r (evict_first budget flows r).0 × ((evict_first budget flows r).0.flows ≡ rest))
      (sym e) (evict_first-IsEvicted budget key f rest r e h)

-- A round for each flow is enough, if the test fails where no flow is left.
pub evict_while-IsEvicted :
    (n : ℕ) (test : Reassembler → Bool) (budget : Bool) (r : Reassembler)
    → ((s : Reassembler) → IsTable s → s.limits ≡ r.limits → s.flows ≡ [] → test s ≡ false)
    → length r.flows ≤ n
    → IsTable r
    → IsEvicted r (evict_while n test budget r).0 × (test (evict_while n test budget r).0 ≡ false)
unfolding evict_while
evict_while-IsEvicted zero test budget r stops enough h = (
  record { table = h; less = IsLess-refl r; missing = λ j none_there. none_there },
  stops r h refl (elim (flows_cases r.flows) [
    | inl empty ↦ empty
    | inr (key, f, rest, e) ↦ absurd (omega (arith, ap length e))
  ]),
)
evict_while-IsEvicted (suc n) test budget r stops enough h = elim (Bool-cases (test r)) [
  | inr done ↦
      rw done
        (record { table = h; less = IsLess-refl r; missing = λ j none_there. none_there }, done)
  | inl again ↦ elim (flows_cases r.flows) [
    | inl empty ↦ absurd (cc (stops r h refl empty))
    | inr (key, f, rest, e) ↦
        let (one, left) = evict_oldest-IsEvicted budget key f rest r e h in
        let (more, done) =
          evict_while-IsEvicted n test budget (evict_oldest budget r).0
            (λ s table limits empty. stops s table (limits ∙ one.less.limits) empty)
            (omega (arith, ap length left, ap length e)) one.table in
        rw again (
          record {
            table = more.table;
            less = IsLess-trans one.less more.less;
            missing = λ j none_there. more.missing j (one.missing j none_there);
          },
          done,
        )
  ]
]

-- The reassembler between two calls: its table is in order and no limit is exceeded.
pub record IsBounded (r : Reassembler) : Type 0 where
  pub table : IsTable r
  pub some_room : 0 < r.limits.max_flows
  pub flows : length r.flows ≤ r.limits.max_flows
  pub bytes : r.counters.buffered_bytes ≤ r.limits.max_buffered_bytes
  pub segments : r.counters.buffered_segments ≤ r.limits.max_buffered_segments

pub less-IsBounded : (r r' : Reassembler) → IsBounded r → IsTable r' → IsLess r r' → IsBounded r'
less-IsBounded r r' h table less =
    let limits = less.limits in
    record {
      table = table;
      some_room = rw limits h.some_room;
      flows = rw limits (omega (arith, less.flows, h.flows));
      bytes = rw limits (omega (arith, less.bytes, h.bytes));
      segments = rw limits (omega (arith, less.segments, h.segments));
    }

-- A fresh SYN on a flow in use.
pub retire-IsBounded :
    (key : FlowId) (side : ℕ) (p : ParsedPacket) (o : Option FlowState) (r : Reassembler)
    → get key r.flows ≡ o
    → IsBounded r
    → IsBounded (retire key side p o r).0 × IsLess r (retire key side p o r).0
unfolding retire
retire-IsBounded key side p none r e h = (h, IsLess-refl r)
retire-IsBounded key side p (some f) r e h =
    let prior = side_of side f in
    elim (Bool-cases
      (has_syn p && not (has_ack p) && (not (is_seq prior.syn_seq p.tcp_seq) || prior.closed))) [
        | inl fresh ↦
            let (table, less, _) =
              retired-IsTable key f r h.table (stored-IsHeld key f r h.table e) in
            rw fresh (less-IsBounded r _ h table less, less)
        | inr same ↦ rw same (h, IsLess-refl r)
      ]

no_room_stops :
    (r s : Reassembler)
    → 0 < r.limits.max_flows
    → s.limits ≡ r.limits
    → s.flows ≡ []
    → no_room s ≡ false
no_room_stops r s some_room limits empty = rw limits (ground (arith, ap length empty))

fresh_flow_empty :
    (flow : FlowKey) (epoch timestamp_ns clock : ℕ) (key : FlowId)
    → let f = fresh_flow flow epoch timestamp_ns clock in
      IsFlow key f × (flow_bytes f ≡ 0) × (flow_segments f ≡ 0)
unfolding fresh_flow fresh_direction
fresh_flow_empty flow epoch timestamp_ns clock key =
    (((refl, refl), (refl, refl)), omega arith, omega arith)

-- A fresh flow where there is room for one.
open_new-IsBounded :
    (key : FlowId) (f : FlowState) (epoch : ℕ) (r : Reassembler)
    → IsTable r
    → get key r.flows ≡ none
    → IsFlow key f
    → flow_bytes f ≡ 0
    → flow_segments f ≡ 0
    → length r.flows < r.limits.max_flows
    → r.counters.buffered_bytes ≤ r.limits.max_buffered_bytes
    → r.counters.buffered_segments ≤ r.limits.max_buffered_segments
    → let r' = record r { flows = put key f r.flows; next_connection_epoch = epoch } in
      IsBounded r' × IsHeld key f r'
open_new-IsBounded key f epoch r h missing is_flow bytes segments room few_bytes few_segments =
    let table =
      put-IsTable key f r.counters r h is_flow
        (omega (
          arith,
          h.bytes,
          bytes,
          total-remove flow_bytes key r.flows,
          ap (weigh flow_bytes) missing,
        ))
        (omega (
          arith,
          h.segments,
          segments,
          total-remove flow_segments key r.flows,
          ap (weigh flow_segments) missing,
        )) in
    (
      record {
        table = record {
          distinct = table.distinct;
          flows = table.flows;
          bytes = table.bytes;
          segments = table.segments;
        };
        some_room = omega arith;
        flows = omega (arith, length-put key f r.flows, ap (weigh (λ (x : FlowState). 1)) missing);
        bytes = few_bytes;
        segments = few_segments;
      },
      record {
        is_flow = is_flow;
        stored = f;
        there = get-put_self key f r.flows;
        bytes = refl;
        segments = refl;
      },
    )

-- The flow of a key: held, in a reassembler that is bounded again.
pub open_flow-IsBounded :
    (clock : ℕ) (key : FlowId) (p : ParsedPacket) (o : Option FlowState) (r : Reassembler)
    → get key r.flows ≡ o
    → IsBounded r
    → IsBounded (open_flow clock key p o r).1.0
      × IsHeld key (open_flow clock key p o r).0 (open_flow clock key p o r).1.0
unfolding open_flow
open_flow-IsBounded clock key p (some f) r e h =
    let there = get-move_to_end key r.flows h.table.distinct ∙ e in
    (
      record {
        table = record {
          distinct = Distinct-move_to_end key r.flows h.table.distinct;
          flows = Every-move_to_end IsFlow key r.flows h.table.flows;
          bytes = h.table.bytes ∙ sym (total-move_to_end flow_bytes key r.flows);
          segments = h.table.segments ∙ sym (total-move_to_end flow_segments key r.flows);
        };
        some_room = h.some_room;
        flows = omega (arith, h.flows, length-move_to_end key r.flows);
        bytes = h.bytes;
        segments = h.segments;
      },
      record {
        is_flow = Every-get IsFlow key f r.flows h.table.flows e;
        stored = f;
        there = there;
        bytes = refl;
        segments = refl;
      },
    )
open_flow-IsBounded clock key p none r e h =
    let room = (evict_while (length r.flows) no_room false r).0 in
    let (evicted, done) =
      evict_while-IsEvicted (length r.flows) no_room false r
        (λ s _ limits empty. no_room_stops r s h.some_room limits empty) (omega arith) h.table in
    let (is_flow, bytes, segments) =
      fresh_flow_empty key.flow room.next_connection_epoch p.timestamp_ns clock key in
    let bounded = less-IsBounded r room h evicted.table evicted.less in
    open_new-IsBounded key _ _ room evicted.table (evicted.missing key e) is_flow bytes segments
      (ground (arith, done)) bounded.bytes bounded.segments
