-- ===== src/Fragments/Delivery.antt =====
-- The fragment reassembler from its creation on, given fragments of one datagram for each key.
use packet_inspector_windows.Prelude.{◌≡◌, ◌⊎◌, false, not, ◌&&◌, ◌==◌, some, List, [], ◌∷◌, Bytes}
use packet_inspector_windows.Models.{ParsedPacket}
use packet_inspector_windows.Fragments.State.{FragmentKey, fragment_keys, key_of}
use packet_inspector_windows.Fragments.Collected.{IsFragment}
use packet_inspector_windows.Fragments.Lifetime.{Call, call_process, call_expire, call_expire_lru}

-- A packet is a fragment, under a key.
abbrev pub IsPart : FragmentKey → ParsedPacket → Type 0
IsPart key p =
    (p.fragment_id ≡ some key.fragment_id)
    × ((p.fragment_offset == 0 && not p.more_fragments) ≡ false)
    × (key_of key.fragment_id p ≡ key)

-- The packet is given to `process` in one of the calls, as a fragment under the key.
abbrev pub Given : List Call → FragmentKey → ParsedPacket → Type 0
Given [] key q = ⊥
Given (call_process clock p ∷ calls) key q = ((p ≡ q) × IsPart key q) ⊎ Given calls key q
Given (call_expire now ∷ calls) key q = Given calls key q
Given (call_expire_lru now ∷ calls) key q = Given calls key q

-- Every fragment that is given is one of the datagram of its key.
abbrev pub AllGenuine : (FragmentKey → Bytes) → List Call → Type 0
AllGenuine datagram_of calls =
    (key : FragmentKey) (p : ParsedPacket) → Given calls key p → IsFragment (datagram_of key) p
