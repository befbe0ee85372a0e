-- ===== src/Fragments/Lifetime.antt =====
-- The fragment reassembler from its creation on, under any calls.
use packet_inspector_windows.Prelude.{ℕ, ◌≤◌, ◌≡◌, some, List, [], ◌∷◌, arith}
use packet_inspector_windows.OrderedDict.{OrderedDict}
use packet_inspector_windows.OrderedDict.Every.{Every}
use packet_inspector_windows.Models.{ParsedPacket}
use packet_inspector_windows.Fragments.State.{Limits, Reassembler, fragment_keys, create}
use packet_inspector_windows.Fragments.Process.{process, expire, expire_lru}
use packet_inspector_windows.Fragments.Bounded.{IsBounded}
use packet_inspector_windows.Fragments.Sized.{IsKept}

pub create_empty :
    (l : Limits) (r : Reassembler)
    → create l ≡ some r
    → (r.states ≡ [])
      × (r.buffered_bytes ≡ 0)
      × (r.buffered_ranges ≡ 0)
      × (r.buffered_provenance_entries ≡ 0)
unfolding create
create_empty l r h = ground arith

-- A call of the reassembler, with what the clock reads.
pub data Call : Type 0 where
  call_process : ℕ → ParsedPacket → Call
  call_expire : ℕ → Call
  call_expire_lru : ℕ → Call

abbrev pub perform : Call → Reassembler → Reassembler
perform (call_process clock p) r = (process clock p r).1
perform (call_expire now) r = (expire now r).1
perform (call_expire_lru now) r = (expire_lru now r).1

abbrev pub perform_all : List Call → Reassembler → Reassembler
perform_all [] r = r
perform_all (call ∷ calls) r = perform_all calls (perform call r)

-- What holds of a reassembler with these limits between two calls.
pub record IsLimited (l : Limits) (r : Reassembler) : Type 0 where
  pub bounded : IsBounded r
  pub kept : IsKept l r
  pub small : Every (λ key s. s.buffered_bytes ≤ l.max_datagram_bytes) r.states
