-- ===== src/Ntlm.antt =====
-- packet_audit/ntlm_wrappers.py: the NTLM message inside a SPNEGO token. Smb, Enclosing
-- and Session are about the SMB2 headers around one.
pub mod Unwrap
pub mod Smb
pub mod Enclosing
pub mod Session
use packet_inspector_windows.Prelude.{
  ℕ, zero, suc, ◌+◌, ◌*◌, ◌/◌, ◌%◌, Bool, true, false, not, ◌&&◌, ◌||◌, Option, none, some, List,
  [], ◌∷◌, Bytes, length, take, slice, ltb, leb, ◌==◌, eq_list, is_some, from_bytes_big,
  if◌then◌else◌,
}

-- What a step of the parser does: `return None`, a `ValueError` of Python's unpacking, or a value.
pub data Parsed {ℓ} (A : Type ℓ) : Type ℓ where
  absent raised : Parsed A
  found : A → Parsed A

infixl 5 ◌>>=◌
unfoldable pub ◌>>=◌ {ℓ κ} : {A : Type ℓ} {B : Type κ} → Parsed A → (A → Parsed B) → Parsed B
absent >>= then_do = absent
raised >>= then_do = raised
found a >>= then_do = then_do a

-- `if refused: return None`
unfoldable pub refuse_if {ℓ} : {A : Type ℓ} → Bool → Parsed A → Parsed A
refuse_if true rest = absent
refuse_if false rest = rest

-- A field: its tag, where its value starts, and its end.
pub record Tlv : Type 0 where
  pub tag : ℕ
  pub value : ℕ
  pub end : ℕ

-- `tag, size = data[start:start + 2]`
unfoldable pub unpack2 : Bytes → Parsed (ℕ × ℕ)
unpack2 (tag ∷ size ∷ []) = found (tag, size)
unpack2 _ = raised

unfoldable pub bounded : ℕ → ℕ → ℕ → ℕ → Parsed Tlv
bounded tag value size limit =
    refuse_if (ltb limit (value + size))
      (found (record { tag = tag; value = value; end = value + size }))

unfoldable pub sized : Bytes → ℕ → ℕ → ℕ → ℕ → Parsed Tlv
unfolding bounded
sized bytes tag size value limit =
    let count = size % 128 in
    if (size / 128) % 2 == 1
    then refuse_if (ltb count 1 || ltb 3 count || ltb limit (value + count))
        (bounded tag (value + count) (from_bytes_big 0 (slice bytes value (value + count))) limit)
    else bounded tag value size limit

-- `_tlv`
unfoldable pub tlv : Bytes → ℕ → ℕ → Parsed Tlv
unfolding sized
tlv bytes start limit = refuse_if (ltb limit (start + 2)) (do
  (tag, size) ← unpack2 (slice bytes start (start + 2))
  sized bytes tag size (start + 2) limit)

-- b"NTLMSSP\x00" and the SPNEGO object identifier.
abbrev pub signature : Bytes
signature = 78 ∷ 84 ∷ 76 ∷ 77 ∷ 83 ∷ 83 ∷ 80 ∷ 0 ∷ []

abbrev pub spnego : Bytes
spnego = 0x2b ∷ 0x06 ∷ 0x01 ∷ 0x05 ∷ 0x05 ∷ 0x02 ∷ []

abbrev pub is_ntlm : Bytes → Bool
is_ntlm bytes = eq_list (take 8 bytes) signature

-- The bytes of a responseToken child, in `found`.
unfoldable pub response_token : Bytes → Tlv → Option Bytes → Parsed (Option Bytes)
unfolding tlv
response_token token child known =
    if child.tag == 0xA2
    then (do
      inner ← tlv token child.value child.end
      refuse_if (not (inner.tag == 4) || not (inner.end == child.end) || is_some known)
          (found (some (slice token inner.value inner.end))))
    else found known

-- `while cursor < end and count < 8`, with the number of rounds that are left.
unfoldable pub children : ℕ → Bytes → ℕ → ℕ → Option Bytes → Parsed (ℕ × Option Bytes)
unfolding tlv response_token
children zero token cursor end known = found (cursor, known)
children (suc n) token cursor end known =
    let round = (do
      child ← tlv token cursor end
      held ← response_token token child known
      children n token child.end end held) in
    if ltb cursor end then round else found (cursor, known)

-- The last test, and its result.
unfoldable pub accept : ℕ → ℕ × Option Bytes → Parsed Bytes
accept end (cursor, none) = absent
accept end (cursor, some held) = refuse_if (not (cursor == end) || not (is_ntlm held)) (found held)

-- The GSS header, if there is one.
unfoldable pub inside_gss : Bytes → Tlv → Parsed Tlv
unfolding tlv
inside_gss token node =
    if node.tag == 0x60
    then (do
      oid ← tlv token node.value node.end
      refuse_if (not (oid.tag == 6) || not (eq_list (slice token oid.value oid.end) spnego)) (do
        inner ← tlv token oid.end node.end
        refuse_if (not (inner.end == node.end)) (found inner)))
    else found node

-- The part of `unwrap_ntlm` behind the direct form.
unfoldable pub unwrap_spnego : Bytes → Parsed Bytes
unfolding tlv inside_gss children accept
unwrap_spnego token = do
  outer ← tlv token 0 (length token)
  refuse_if (not (outer.end == length token)) (do
    node ← inside_gss token outer
    refuse_if (not (node.tag == 0xA0 || node.tag == 0xA1)) (do
      seq ← tlv token node.value node.end
      refuse_if (not (seq.tag == 0x30) || not (seq.end == node.end))
          (do held ← children 8 token seq.value node.end none; accept node.end held)))

-- `unwrap_ntlm`
unfoldable pub unwrap_ntlm : Bytes → Parsed Bytes
unfolding unwrap_spnego
unwrap_ntlm token =
    refuse_if (ltb 65536 (length token))
      (if is_ntlm token then found token else unwrap_spnego token)
