-- ===== src/Packets/Result.antt =====
-- What the decoders of packet_audit/packets.py may raise.
use packet_inspector_windows.Prelude.{ℕ, Bool, true, false, Option, none, some, Bytes, get_elem?}

-- The messages of `PacketDecodeError`.
pub data Reason : Type 0 where
  two_byte_field too_many_vlan_tags short_vlan_header short_loopback unsupported_family : Reason
  short_ethernet short_sll short_sll2 empty_raw bad_raw_version unsupported_datalink : Reason
  short_ipv4 bad_ipv4_version bad_ipv4_header_length bad_ipv4_total_length : Reason
  short_ipv6 bad_ipv6_version short_fragment_header short_extension bad_extension_length : Reason
  short_authentication bad_authentication_length too_many_extensions : Reason

-- `PacketDecodeError`, and what Python itself raises on an index or a field out of range.
pub data Fault : Type 0 where
  decode_error : Reason → Fault
  index_error struct_error : Fault

pub data Result {ℓ} (A : Type ℓ) : Type ℓ where
  ok : A → Result A
  err : Fault → Result A

infixl 5 ◌>>=◌ ◌>>◌
unfoldable pub ◌>>=◌ {ℓ κ} : {A : Type ℓ} {B : Type κ} → Result A → (A → Result B) → Result B
ok a >>= next = next a
err fault >>= next = err fault

abbrev pub ◌>>◌ {ℓ} : {B : Type ℓ} → Result (Unit {0}) → Result B → Result B
check >> next = check >>= λ _. next

-- `if refused: raise PacketDecodeError(...)`
unfoldable pub reject_if : Bool → Reason → Result (Unit {0})
reject_if true reason = err (decode_error reason)
reject_if false reason = ok tt

abbrev pub or_index_error {ℓ} : {A : Type ℓ} → Option A → Result A
or_index_error none = err index_error
or_index_error (some a) = ok a

-- `data[i]`
unfoldable pub byte : Bytes → ℕ → Result ℕ
byte bytes i = or_index_error (get_elem? bytes i)

-- `if`, between two results.
unfoldable pub when {ℓ} : {A : Type ℓ} → Bool → Result A → Result A → Result A
when true m n = m
when false m n = n
