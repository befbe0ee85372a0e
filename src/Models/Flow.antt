-- ===== src/Models/Flow.antt =====
-- The two directions of a conversation share one canonical key.
use packet_inspector_windows.Prelude.{ℕ, ◌-◌, ◌≡◌, ◌⊎◌, true, List, ◌∷◌, Text, arith, eq_list_iff}
use packet_inspector_windows.Models.{text_le, Endpoint, endpoint_le, canonical}

text_le_total : (a b : Text) → (text_le a b ≡ true) ⊎ (text_le b a ≡ true)
unfolding text_le
text_le_total (x ∷ a) (y ∷ b) = ground (arith, text_le_total a b)
text_le_total _ _ = ground arith

text_le_antisymm : (a b : Text) → text_le a b ≡ true → text_le b a ≡ true → a ≡ b
unfolding text_le
text_le_antisymm (x ∷ a) (y ∷ b) = ground (arith, text_le_antisymm a b)
text_le_antisymm _ _ = ground arith

module _ (a b : Endpoint) where
  endpoint_le_total : (endpoint_le a b ≡ true) ⊎ (endpoint_le b a ≡ true)
  unfolding endpoint_le
  endpoint_le_total = ground (
    arith,
    eq_list_iff a.address b.address,
    eq_list_iff b.address a.address,
    text_le_total a.address b.address,
  )

  endpoint_le_antisymm : endpoint_le a b ≡ true → endpoint_le b a ≡ true → a ≡ b
  unfolding endpoint_le
  endpoint_le_antisymm = ground (
    arith,
    eq_list_iff a.address b.address,
    eq_list_iff b.address a.address,
    text_le_antisymm a.address b.address,
  )

abbrev pub endpoint : Text → ℕ → Endpoint
endpoint address port = record { address = address; port = port }

-- Swapping source and destination keeps the flow key, and turns the direction round unless the
-- two endpoints are one.
pub canonical_swap :
    (protocol : ℕ) (src : Text) (sport : ℕ) (dst : Text) (dport : ℕ) (interface : Text)
    (vlan_ids : List ℕ)
    → let there = canonical protocol src sport dst dport interface vlan_ids in
      let back = canonical protocol dst dport src sport interface vlan_ids in
      (there.0 ≡ back.0) × ((there.1 ≡ 1 - back.1) ⊎ (endpoint src sport ≡ endpoint dst dport))
unfolding canonical
canonical_swap protocol src sport dst dport interface vlan_ids =
    unfold canonical in
    (
      ground (arith, endpoint_le_total a b, endpoint_le_antisymm a b),
      ground (arith, endpoint_le_total a b, endpoint_le_antisymm a b),
    )
  where
    a : Endpoint
    a = endpoint src sport

    b : Endpoint
    b = endpoint dst dport
