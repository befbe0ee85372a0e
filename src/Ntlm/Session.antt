-- ===== src/Ntlm/Session.antt =====
-- packet_audit/ntlm_wrappers.py, `smb2_session_for_token`: the SMB2 session around a token.
use packet_inspector_windows.Prelude.{
  ℕ, zero, suc, ◌+◌, ◌-◌, ◌≤◌, ◌≡◌, refl, sym, ap, ◌∙◌, true, inl, inr, Option, none, some, Bytes,
  arith, get_elem?, Bool-cases, if◌then◌else◌,
}
use packet_inspector_windows.Ntlm.Smb.{is_signature, little_at, signature_bytes}
use packet_inspector_windows.Ntlm.Enclosing.{encloses, IsSetup, IsEnclosing, encloses-IsEnclosing}

-- `data.rfind(b"\xfeSMB", lower, ...)`: the last of a number of positions from `lower` on.
unfoldable pub rfind_signature : ℕ → Bytes → ℕ → Option ℕ
rfind_signature zero data_bytes lower = none
rfind_signature (suc n) data_bytes lower =
    if is_signature data_bytes (lower + n)
    then some (lower + n)
    else rfind_signature n data_bytes lower

abbrev session_id : Bytes → ℕ → ℕ
session_id data_bytes header = little_at data_bytes (header + 40) (header + 48)

-- A header is found: its session, or the search goes on before it.
abbrev pub session_on : Bytes → ℕ → ℕ → (ℕ → Option ℕ) → Option ℕ → Option ℕ
session_on data_bytes token_start token_length next none = none
session_on data_bytes token_start token_length next (some header) =
    if encloses data_bytes header token_start token_length
    then some (session_id data_bytes header)
    else next header

-- `for _ in range(64)`, from a cursor downwards.
unfoldable pub session_before : ℕ → Bytes → ℕ → ℕ → ℕ → ℕ → Option ℕ
session_before zero data_bytes token_start token_length lower cursor = none
session_before (suc n) data_bytes token_start token_length lower cursor =
    session_on data_bytes token_start token_length
      (λ header. session_before n data_bytes token_start token_length lower header)
      (rfind_signature (cursor - 3 - lower) data_bytes lower)

unfoldable pub smb2_session_for_token : Bytes → ℕ → ℕ → Option ℕ
smb2_session_for_token data_bytes token_start token_length =
    session_before 64 data_bytes token_start token_length (token_start - 65535) token_start

-- A header between two positions, whose security buffer holds the token, and its session.
pub record IsSession (data_bytes : Bytes) (token_start token_length lower upper session : ℕ)
    : Type 0 where
  pub header : ℕ
  pub signed :
      (get_elem? data_bytes header ≡ some 254)
      × (get_elem? data_bytes (header + 1) ≡ some 83)
      × (get_elem? data_bytes (header + 2) ≡ some 77)
      × (get_elem? data_bytes (header + 3) ≡ some 66)
  pub above : lower ≤ header
  pub below : header + 4 ≤ upper
  pub setup : IsSetup data_bytes header
  pub enclosing : IsEnclosing data_bytes header token_start token_length
  pub named : session ≡ little_at data_bytes (header + 40) (header + 48)

rfind_signature-within :
    (n : ℕ) (data_bytes : Bytes) (lower h : ℕ)
    → rfind_signature n data_bytes lower ≡ some h
    → (is_signature data_bytes h ≡ true) × (lower ≤ h) × (h + 1 ≤ lower + n)
unfolding rfind_signature
rfind_signature-within zero data_bytes lower h e = absurd (cc e)
rfind_signature-within (suc n) data_bytes lower h e =
    elim (Bool-cases (is_signature data_bytes (lower + n))) [
      | inl here ↦
          let same : some (lower + n) ≡ some h = rw here at e in
          let equal : lower + n ≡ h = cc same in
          (
            ap (is_signature data_bytes) (sym equal) ∙ here,
            omega (arith, equal),
            omega (arith, equal),
          )
      | inr other ↦
          let (signed, above, below) =
            rfind_signature-within n data_bytes lower h (rw other at e) in
          (signed, above, omega (arith, below))
    ]

session_on-IsSession :
    (data_bytes : Bytes) (token_start token_length lower cursor session : ℕ) (next : ℕ → Option ℕ)
    (o : Option ℕ)
    → session_on data_bytes token_start token_length next o ≡ some session
    → ((h : ℕ) → o ≡ some h → (is_signature data_bytes h ≡ true) × (lower ≤ h) × (h + 4 ≤ cursor))
    → ((h : ℕ)
        → h + 4 ≤ cursor
        → next h ≡ some session
        → IsSession data_bytes token_start token_length lower cursor session)
    → IsSession data_bytes token_start token_length lower cursor session
session_on-IsSession data_bytes token_start token_length lower cursor session next none e place
      later =
    absurd (cc e)
session_on-IsSession data_bytes token_start token_length lower cursor session next (some h) e place
      later =
    let (signed, above, below) = place h refl in
    elim (Bool-cases (encloses data_bytes h token_start token_length)) [
      | inl inside ↦
          let same : some (session_id data_bytes h) ≡ some session = rw inside at e in
          let (setup, enclosing) =
            encloses-IsEnclosing data_bytes h token_start token_length inside in
          record {
            header = h;
            signed = signature_bytes data_bytes h signed;
            above = above;
            below = below;
            setup = setup;
            enclosing = enclosing;
            named = sym (cc same);
          }
      | inr outside ↦ later h below (rw outside at e)
    ]

session_before-IsSession :
    (n : ℕ) (data_bytes : Bytes) (token_start token_length lower cursor session : ℕ)
    → session_before n data_bytes token_start token_length lower cursor ≡ some session
    → IsSession data_bytes token_start token_length lower cursor session
unfolding session_before
session_before-IsSession zero data_bytes token_start token_length lower cursor session e =
    absurd (cc e)
session_before-IsSession (suc n) data_bytes token_start token_length lower cursor session e =
    session_on-IsSession data_bytes token_start token_length lower cursor session
      (λ header. session_before n data_bytes token_start token_length lower header)
      (rfind_signature (cursor - 3 - lower) data_bytes lower) e
      (λ h found.
        let (signed, above, below) =
          rfind_signature-within (cursor - 3 - lower) data_bytes lower h found in
        (signed, above, omega (arith, above, below)))
      (λ h before found.
        let s =
          session_before-IsSession n data_bytes token_start token_length lower h session found in
        record {
          header = s.header;
          signed = s.signed;
          above = s.above;
          below = omega (arith, s.below, before);
          setup = s.setup;
          enclosing = s.enclosing;
          named = s.named;
        })

-- A session that `smb2_session_for_token` answers is read 40 bytes behind an SMB2 signature, which
-- stands before the token, at most 65535 bytes before its start. The header there has the structure
-- size 64, the command SESSION_SETUP and no next message. The body behind it is the one of a
-- response (size 9, buffer named at 68) where the low bit of the flags is 1, that of a request
-- (size 25, buffer named at 76) where it is 0. The token has 12 bytes or more and lies in the named
-- buffer, which starts behind the body, and the record header four bytes before the signature is
-- of type 0 and long enough for the buffer.
pub smb2_session_for_token-IsSession :
    (data_bytes : Bytes) (token_start token_length session : ℕ)
    → smb2_session_for_token data_bytes token_start token_length ≡ some session
    → IsSession data_bytes token_start token_length (token_start - 65535) token_start session
unfolding smb2_session_for_token
smb2_session_for_token-IsSession data_bytes token_start token_length session e =
    session_before-IsSession 64 data_bytes token_start token_length (token_start - 65535)
      token_start session e
