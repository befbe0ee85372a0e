-- ===== src/Tcp/Lifetime.antt =====
-- The TCP reassembler from its creation on, under any calls.
use packet_inspector_windows.Prelude.{
  ℕ, ◌<◌, ◌≡◌, ap, sym, ◌∙◌, Option, some, List, [], ◌∷◌, arith, length,
}
use packet_inspector_windows.OrderedDict.Sums.{total}
use packet_inspector_windows.Models.{ParsedPacket, Completeness}
use packet_inspector_windows.Tcp.State.{Limits, Reassembler, flow_ids, create}
use packet_inspector_windows.Tcp.Process.{
  process, expire, expire_lru, flush_all, flow_bytes, flow_segments,
}
use packet_inspector_windows.Tcp.Evict.{IsBounded}
use packet_inspector_windows.Tcp.Advance.{
  process-IsBounded, expire-IsBounded, expire_lru-IsBounded, flush_all-IsBounded,
}

create_empty :
    (l : Limits) (epoch_namespace : ℕ) (r : Reassembler)
    → create l epoch_namespace ≡ some r
    → (r.flows ≡ [])
      × (r.counters.buffered_bytes ≡ 0)
      × (r.counters.buffered_segments ≡ 0)
      × (0 < r.limits.max_flows)
unfolding create
create_empty l epoch_namespace r h = ground arith

create-IsBounded :
    (l : Limits) (epoch_namespace : ℕ) (r : Reassembler)
    → create l epoch_namespace ≡ some r
    → IsBounded r
create-IsBounded l epoch_namespace r h =
    let (flows, bytes, segments, some_room) = create_empty l epoch_namespace r h in
    record {
      table = record {
        distinct = rw flows tt;
        flows = rw flows tt;
        bytes = bytes ∙ ap (total flow_bytes) (sym flows);
        segments = segments ∙ ap (total flow_segments) (sym flows);
      };
      some_room = some_room;
      flows = omega (arith, ap length flows, some_room);
      bytes = omega (arith, bytes);
      segments = omega (arith, segments);
    }

-- A call of the reassembler, with what the clock reads.
pub data Call : Type 0 where
  call_process : ℕ → ParsedPacket → Call
  call_expire : ℕ → Call
  call_expire_lru : ℕ → Call
  call_flush_all : Option Completeness → Call

abbrev pub perform : Call → Reassembler → Reassembler
perform (call_process clock p) r = (process clock p r).0
perform (call_expire now) r = (expire now r).0
perform (call_expire_lru now) r = (expire_lru now r).0
perform (call_flush_all completeness) r = (flush_all completeness r).0

abbrev pub perform_all : List Call → Reassembler → Reassembler
perform_all [] r = r
perform_all (call ∷ calls) r = perform_all calls (perform call r)

perform-IsBounded : (call : Call) (r : Reassembler) → IsBounded r → IsBounded (perform call r)
perform-IsBounded (call_process clock p) r h = process-IsBounded clock p r h
perform-IsBounded (call_expire now) r h = expire-IsBounded now r h
perform-IsBounded (call_expire_lru now) r h = expire_lru-IsBounded now r h
perform-IsBounded (call_flush_all completeness) r h = flush_all-IsBounded completeness r h

perform_all-IsBounded :
    (calls : List Call) (r : Reassembler) → IsBounded r → IsBounded (perform_all calls r)
perform_all-IsBounded [] r h = h
perform_all-IsBounded (call ∷ calls) r h =
    perform_all-IsBounded calls (perform call r) (perform-IsBounded call r h)

-- After any calls of `process`, `expire` and `flush_all` on a new reassembler, whatever the packets
-- and clocks, there is one flow for each key; in each direction of each flow the pending segments
-- are in order behind `next_seq` without overlap and are counted; the buffered bytes and segments
-- are those of the stored flows; and the limits on flows, buffered bytes and buffered segments hold.
pub always_within_limits :
    (l : Limits) (epoch_namespace : ℕ) (r : Reassembler) (calls : List Call)
    → create l epoch_namespace ≡ some r
    → IsBounded (perform_all calls r)
always_within_limits l epoch_namespace r calls h =
    perform_all-IsBounded calls r (create-IsBounded l epoch_namespace r h)
