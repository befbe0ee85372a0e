-- ===== src/Models/Keys.antt =====
-- `Endpoint` and `FlowKey` of packet_audit/models.py, with their field-wise equality.
use packet_inspector_windows.Prelude.{
  ℕ, ◌≡◌, ◌↔◌, Bool, true, ◌&&◌, List, Text, arith, ◌==◌, eq_list, eq_list_iff,
}

pub record Endpoint : Type 0 where
  pub address : Text
  pub port : ℕ

pub record FlowKey : Type 0 where
  pub protocol : ℕ
  pub endpoint_a : Endpoint
  pub endpoint_b : Endpoint
  pub interface : Text
  pub vlan_ids : List ℕ

unfoldable pub endpoint_eq : Endpoint → Endpoint → Bool
unfolding eq_list
endpoint_eq a b = eq_list a.address b.address && a.port == b.port

unfoldable pub flow_key_eq : FlowKey → FlowKey → Bool
unfolding endpoint_eq
flow_key_eq a b =
    a.protocol == b.protocol
    && endpoint_eq a.endpoint_a b.endpoint_a
    && endpoint_eq a.endpoint_b b.endpoint_b
    && eq_list a.interface b.interface
    && eq_list a.vlan_ids b.vlan_ids

pub endpoint_eq_iff : (a b : Endpoint) → (endpoint_eq a b ≡ true) ↔ (a ≡ b)
unfolding endpoint_eq
endpoint_eq_iff a b = ground (arith, eq_list_iff a.address b.address)

pub flow_key_eq_iff : (a b : FlowKey) → (flow_key_eq a b ≡ true) ↔ (a ≡ b)
unfolding flow_key_eq
flow_key_eq_iff a b = ground (
  arith,
  endpoint_eq_iff a.endpoint_a b.endpoint_a,
  endpoint_eq_iff a.endpoint_b b.endpoint_b,
  eq_list_iff a.interface b.interface,
  eq_list_iff a.vlan_ids b.vlan_ids,
)
