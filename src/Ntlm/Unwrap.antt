-- ===== src/Ntlm/Unwrap.antt =====
-- `unwrap_ntlm` on any token: no unpacking fails, and what it returns stands in the token.
use packet_inspector_windows.Prelude.{
  ℕ, zero, suc, ◌+◌, ◌-◌, ◌/◌, ◌%◌, ◌≤◌, ◌<◌, ◌≡◌, refl, ap, ◌∙◌, inl, inr, Bool, true, false,
  Option, none, some, [], ◌∷◌, Bytes, arith, length, take, drop, slice, length-take, length-drop,
  ltb, ◌==◌, Bool-cases,
}
use packet_inspector_windows.Ntlm.{
  Parsed, absent, raised, found, ◌>>=◌, refuse_if, Tlv, unpack2, bounded, sized, tlv, is_ntlm,
  response_token, children, accept, inside_gss, unwrap_spnego, unwrap_ntlm,
}

-- Nothing was raised, and a value that was found has the property.
abbrev pub Meets {ℓ} : {A : Type ℓ} → (A → Type 0) → Parsed A → Type 0
Meets P absent = Unit
Meets P raised = ⊥
Meets P (found a) = P a

Meets-bind {ℓ κ} :
    {A : Type ℓ} {B : Type κ} (P : A → Type 0) (Q : B → Type 0) (m : Parsed A) (next : A → Parsed B)
    → Meets P m
    → ((a : A) → P a → Meets Q (next a))
    → Meets Q (m >>= next)
unfolding ◌>>=◌
Meets-bind P Q absent next h k = tt
Meets-bind P Q raised next h k = absurd h
Meets-bind P Q (found a) next h k = k a h

Meets-refuse_if {ℓ} :
    {A : Type ℓ} (P : A → Type 0) (b : Bool) (m : Parsed A)
    → (b ≡ false → Meets P m)
    → Meets P (refuse_if b m)
unfolding refuse_if
Meets-refuse_if P true m h = tt
Meets-refuse_if P false m h = h refl

-- A field that stands between two positions.
abbrev Within : ℕ → ℕ → Tlv → Type 0
Within start limit t = (start < t.end) × (t.value ≤ t.end) × (t.end ≤ limit)

Meets-unpack2 : (bytes : Bytes) → length bytes ≡ 2 → Meets (λ _. Unit {0}) (unpack2 bytes)
unfolding unpack2
Meets-unpack2 [] h = absurd (omega arith)
Meets-unpack2 (a ∷ []) h = absurd (omega arith)
Meets-unpack2 (a ∷ b ∷ []) h = tt
Meets-unpack2 (a ∷ b ∷ c ∷ bytes) h = absurd (omega arith)

Meets-bounded :
    (start tag value size limit : ℕ)
    → start < value
    → Meets (Within start limit) (bounded tag value size limit)
unfolding bounded
Meets-bounded start tag value size limit h =
    Meets-refuse_if (Within start limit) _ _ (λ e. (omega arith, omega arith, ground arith))

Meets-sized :
    (bytes : Bytes) (start tag size value limit : ℕ)
    → start < value
    → Meets (Within start limit) (sized bytes tag size value limit)
unfolding sized
Meets-sized bytes start tag size value limit h = elim (Bool-cases ((size / 128) % 2 == 1)) [
  | inl long ↦ rw long (
      Meets-refuse_if (Within start limit) _ _
        (λ e. Meets-bounded start tag _ _ limit (omega arith)))
  | inr short ↦ rw short (Meets-bounded start tag value size limit h)
]

Meets-tlv :
    (bytes : Bytes) (start limit : ℕ)
    → limit ≤ length bytes
    → Meets (Within start limit) (tlv bytes start limit)
unfolding tlv
Meets-tlv bytes start limit h = Meets-refuse_if (Within start limit) _ _ (λ e.
    Meets-bind (λ _. Unit {0}) (Within start limit) _ _
      (Meets-unpack2 (slice bytes start (start + 2)) (
        ground
          (arith, length-take (start + 2 - start) (drop start bytes), length-drop start bytes)))
      (λ field _. Meets-sized bytes start field.0 field.1 (start + 2) limit (omega arith)))

-- Bytes that stand in the token, from one position to another.
abbrev pub IsPiece : Bytes → Bytes → Type 0
IsPiece token held =
    (from : ℕ) × (to : ℕ) × (from ≤ to) × (to ≤ length token) × (held ≡ slice token from to)

abbrev IsHeld : Bytes → Option Bytes → Type 0
IsHeld token none = Unit
IsHeld token (some held) = IsPiece token held

-- The direct form: the whole token.
take_whole : (bytes : Bytes) → bytes ≡ take (length bytes) bytes
take_whole [] = refl
take_whole (b ∷ bytes) = ap (λ bs. b ∷ bs) (take_whole bytes)

Meets-response_token :
    (token : Bytes) (child : Tlv) (known : Option Bytes)
    → child.end ≤ length token
    → IsHeld token known
    → Meets (IsHeld token) (response_token token child known)
unfolding response_token
Meets-response_token token child known h k = elim (Bool-cases (child.tag == 0xA2)) [
  | inl response ↦ rw response (
      Meets-bind (Within child.value child.end) (IsHeld token) _ _
        (Meets-tlv token child.value child.end h)
        (λ inner within.
          Meets-refuse_if (IsHeld token) _ _
            (λ e. (inner.value, inner.end, within.1, omega (arith, within.2), refl))))
  | inr other ↦ rw other k
]

Meets-children :
    (n : ℕ) (token : Bytes) (cursor end : ℕ) (known : Option Bytes)
    → end ≤ length token
    → IsHeld token known
    → Meets (λ at. IsHeld token at.1) (children n token cursor end known)
unfolding children
Meets-children zero token cursor end known h k = k
Meets-children (suc n) token cursor end known h k = elim (Bool-cases (ltb cursor end)) [
  | inl more ↦ rw more (
      Meets-bind (Within cursor end) (λ at. IsHeld token at.1) _ _ (Meets-tlv token cursor end h)
        (λ child within.
          Meets-bind (IsHeld token) (λ at. IsHeld token at.1) _ _
            (Meets-response_token token child known (omega (arith, within.2)) k)
            (λ held is_held. Meets-children n token child.end end held h is_held)))
  | inr done ↦ rw done k
]

-- What `unwrap_ntlm` may return.
abbrev pub IsMessage : Bytes → Bytes → Type 0
IsMessage token held = IsPiece token held × (is_ntlm held ≡ true)

Meets-accept :
    (token : Bytes) (end cursor : ℕ) (known : Option Bytes)
    → IsHeld token known
    → Meets (IsMessage token) (accept end (cursor, known))
unfolding accept
Meets-accept token end cursor none k = tt
Meets-accept token end cursor (some held) k =
    Meets-refuse_if (IsMessage token) _ _ (λ e. (k, ground arith))

Meets-inside_gss :
    (token : Bytes) (node : Tlv)
    → node.end ≤ length token
    → Meets (λ t. t.end ≤ length token) (inside_gss token node)
unfolding inside_gss
Meets-inside_gss token node h = elim (Bool-cases (node.tag == 0x60)) [
  | inl gss ↦ rw gss (
      Meets-bind (Within node.value node.end) (λ t. t.end ≤ length token) _ _
        (Meets-tlv token node.value node.end h)
        (λ oid _.
          Meets-refuse_if (λ t. t.end ≤ length token) _ _
            (λ _.
              Meets-bind (Within oid.end node.end) (λ t. t.end ≤ length token) _ _
                (Meets-tlv token oid.end node.end h)
                (λ inner within.
                  Meets-refuse_if (λ t. t.end ≤ length token) _ _ (λ _. omega (arith, within.2))))))
  | inr bare ↦ rw bare h
]

Meets-unwrap_spnego : (token : Bytes) → Meets (IsMessage token) (unwrap_spnego token)
unfolding unwrap_spnego
Meets-unwrap_spnego token =
    Meets-bind (Within 0 (length token)) (IsMessage token) _ _
      (Meets-tlv token 0 (length token) (omega arith))
      (λ outer within. Meets-refuse_if (IsMessage token) _ _ (λ _.
        Meets-bind (λ t. t.end ≤ length token) (IsMessage token) _ _
          (Meets-inside_gss token outer within.2)
          (λ node fits. Meets-refuse_if (IsMessage token) _ _ (λ _.
            Meets-bind (Within node.value node.end) (IsMessage token) _ _
              (Meets-tlv token node.value node.end fits)
              (λ seq _. Meets-refuse_if (IsMessage token) _ _ (λ _.
                Meets-bind (λ at. IsHeld token at.1) (IsMessage token) _ _
                  (Meets-children 8 token seq.value node.end none fits tt)
                  (λ at held. Meets-accept token node.end at.0 at.1 held)))))))

-- On any token `unwrap_ntlm` raises nothing, and what it returns, if anything, is a run of bytes of
-- the token that starts with the NTLM signature.
pub Meets-unwrap_ntlm : (token : Bytes) → Meets (IsMessage token) (unwrap_ntlm token)
unfolding unwrap_ntlm
Meets-unwrap_ntlm token = Meets-refuse_if (IsMessage token) _ _ (λ _.
    elim (Bool-cases (is_ntlm token)) [
      | inl direct ↦ rw direct (
        (
          0,
          length token,
          omega arith,
          omega arith,
          take_whole token ∙ ap (λ n. take n token) (omega arith),
        ),
        direct,
      )
      | inr wrapped ↦ rw wrapped (Meets-unwrap_spnego token)
    ])
