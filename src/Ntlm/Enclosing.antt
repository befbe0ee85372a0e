-- ===== src/Ntlm/Enclosing.antt =====
-- packet_audit/ntlm_wrappers.py, `smb2_session_for_token`: the tests that an SMB2 header has a
-- security buffer which holds a token.
use packet_inspector_windows.Prelude.{
  ℕ, ◌+◌, ◌-◌, ◌%◌, ◌≤◌, ◌≡◌, Bool, true, ◌&&◌, inl, inr, some, [], ◌∷◌, Bytes, arith, length,
  get_elem?, slice, leb, ◌==◌, eq_list, from_bytes_big, Bool-cases, if◌then◌else◌, ◌⊎◌, and-true,
  ==_iff, eq_list_iff, leb→le, false,
}
use packet_inspector_windows.Ntlm.Smb.{is_byte, little_at, byte_there}

-- The tests that the header is one of SESSION_SETUP, in the first message of its record.
unfoldable pub is_setup : Bytes → ℕ → Bool
is_setup data_bytes header =
    leb (header + 72) (length data_bytes)
    && eq_list (slice data_bytes (header + 4) (header + 6)) (64 ∷ 0 ∷ [])
    && eq_list (slice data_bytes (header + 12) (header + 14)) (1 ∷ 0 ∷ [])
    && eq_list (slice data_bytes (header + 20) (header + 24)) (0 ∷ 0 ∷ 0 ∷ 0 ∷ [])

-- The tests that the token is in a security buffer, and the buffer in the record around the header.
unfoldable pub contains_token : Bytes → ℕ → ℕ → ℕ → ℕ → ℕ → ℕ → Bool
contains_token data_bytes header token_start token_length minimum offset size =
    leb 12 token_length
    && leb minimum offset
    && leb (header + offset) token_start
    && (leb (token_start + token_length) (header + offset + size)
        && leb 4 header
        && is_byte 0 (get_elem? data_bytes (header - 4))
        && leb (offset + size) (from_bytes_big 0 (slice data_bytes (header - 3) header)))

-- The tests of a body, which has the offset and the size of its buffer at a position.
unfoldable pub buffer_encloses : Bytes → ℕ → ℕ → ℕ → ℕ → ℕ → ℕ → Bool
buffer_encloses data_bytes header token_start token_length fixed_size offset_pos minimum =
    let offset = little_at data_bytes (header + offset_pos) (header + offset_pos + 2) in
    let size = little_at data_bytes (header + offset_pos + 2) (header + offset_pos + 4) in
    leb (header + minimum) (length data_bytes)
    && little_at data_bytes (header + 64) (header + 66) == fixed_size
    && contains_token data_bytes header token_start token_length minimum offset size

-- The tests of a header: it is that of a response where the low bit of the flags is set.
unfoldable pub encloses : Bytes → ℕ → ℕ → ℕ → Bool
encloses data_bytes header token_start token_length =
    is_setup data_bytes header
    && (if little_at data_bytes (header + 16) (header + 20) % 2 == 1
        then buffer_encloses data_bytes header token_start token_length 9 68 72
        else buffer_encloses data_bytes header token_start token_length 25 76 88)

-- Bytes of the header: 64 for its size, the command 1, no next message.
pub record IsSetup (data_bytes : Bytes) (header : ℕ) : Type 0 where
  pub inside : header + 72 ≤ length data_bytes
  pub structure_size : slice data_bytes (header + 4) (header + 6) ≡ 64 ∷ 0 ∷ []
  pub command : slice data_bytes (header + 12) (header + 14) ≡ 1 ∷ 0 ∷ []
  pub next_command : slice data_bytes (header + 20) (header + 24) ≡ 0 ∷ 0 ∷ 0 ∷ 0 ∷ []

-- The token lies in the bytes from the offset on, and the record reaches over them.
pub record ContainsToken (data_bytes : Bytes)
    (header token_start token_length minimum offset size : ℕ) : Type 0 where
  pub long_enough : 12 ≤ token_length
  pub behind_body : minimum ≤ offset
  pub starts : header + offset ≤ token_start
  pub ends : token_start + token_length ≤ header + offset + size
  pub framed : 4 ≤ header
  pub frame_type : get_elem? data_bytes (header - 4) ≡ some 0
  pub frame_length : offset + size ≤ from_bytes_big 0 (slice data_bytes (header - 3) header)

-- A body of a given size, which names the buffer that the token lies in.
pub record IsBody (data_bytes : Bytes)
    (header token_start token_length fixed_size offset_pos minimum : ℕ) : Type 0 where
  pub inside : header + minimum ≤ length data_bytes
  pub structure_size : little_at data_bytes (header + 64) (header + 66) ≡ fixed_size
  pub buffer :
      ContainsToken data_bytes header token_start token_length minimum
        (little_at data_bytes (header + offset_pos) (header + offset_pos + 2))
        (little_at data_bytes (header + offset_pos + 2) (header + offset_pos + 4))

-- The body of a response, or that of a request, by the low bit of the flags.
abbrev pub IsEnclosing : Bytes → ℕ → ℕ → ℕ → Type 0
IsEnclosing data_bytes header token_start token_length =
    let low_bit = little_at data_bytes (header + 16) (header + 20) % 2 in
    ((low_bit ≡ 1) × IsBody data_bytes header token_start token_length 9 68 72)
    ⊎ ((low_bit ≡ 0) × IsBody data_bytes header token_start token_length 25 76 88)

all_four :
    {a b c d : Bool} → (a && b && c && d) ≡ true → (a ≡ true) × (b ≡ true) × (c ≡ true) × (d ≡ true)
all_four {a} {b} {c} {d} h =
    let (abc, last) = and-true (a && b && c) d h in
    let (ab, third) = and-true (a && b) c abc in
    let (first, second) = and-true a b ab in (first, second, third, last)

is_setup-IsSetup :
    (data_bytes : Bytes) (header : ℕ)
    → is_setup data_bytes header ≡ true
    → IsSetup data_bytes header
unfolding is_setup
is_setup-IsSetup data_bytes header h =
    let (inside, size, command, next) = all_four h in
    record {
      inside = leb→le (header + 72) (length data_bytes) inside;
      structure_size = (eq_list_iff _ _).0 size;
      command = (eq_list_iff _ _).0 command;
      next_command = (eq_list_iff _ _).0 next;
    }

contains_token-ContainsToken :
    (data_bytes : Bytes) (header token_start token_length minimum offset size : ℕ)
    → contains_token data_bytes header token_start token_length minimum offset size ≡ true
    → ContainsToken data_bytes header token_start token_length minimum offset size
unfolding contains_token
contains_token-ContainsToken data_bytes header token_start token_length minimum offset size h =
    let (long_enough, behind_body, starts, later) = all_four h in
    let (ends, framed, zero_byte, frame) = all_four later in
    record {
      long_enough = leb→le _ _ long_enough;
      behind_body = leb→le _ _ behind_body;
      starts = leb→le _ _ starts;
      ends = leb→le _ _ ends;
      framed = leb→le _ _ framed;
      frame_type = byte_there _ _ zero_byte;
      frame_length = leb→le _ _ frame;
    }

buffer_encloses-IsBody :
    (data_bytes : Bytes) (header token_start token_length fixed_size offset_pos minimum : ℕ)
    → buffer_encloses data_bytes header token_start token_length fixed_size offset_pos minimum
      ≡ true
    → IsBody data_bytes header token_start token_length fixed_size offset_pos minimum
unfolding buffer_encloses
buffer_encloses-IsBody data_bytes header token_start token_length fixed_size offset_pos minimum h =
    let (body, contained) = and-true _ _ h in
    let (inside, size) = and-true _ _ body in
    record {
      inside = leb→le _ _ inside;
      structure_size = (==_iff _ _).0 size;
      buffer =
          contains_token-ContainsToken data_bytes header token_start token_length minimum _ _
            contained;
    }

low_bit_clear : (n : ℕ) → (n % 2 == 1) ≡ false → n % 2 ≡ 0
low_bit_clear n h = ground arith

pub encloses-IsEnclosing :
    (data_bytes : Bytes) (header token_start token_length : ℕ)
    → encloses data_bytes header token_start token_length ≡ true
    → IsSetup data_bytes header × IsEnclosing data_bytes header token_start token_length
unfolding encloses
encloses-IsEnclosing data_bytes header token_start token_length h =
    let flags = little_at data_bytes (header + 16) (header + 20) in
    let (setup, body) = and-true _ _ h in
    (
      is_setup-IsSetup data_bytes header setup,
      elim (Bool-cases (flags % 2 == 1)) [
        | inl response ↦ inl (
          (==_iff (flags % 2) 1).0 response,
          buffer_encloses-IsBody data_bytes header token_start token_length 9 68 72
              (rw response at body),
        )
        | inr request ↦ inr (
          low_bit_clear flags request,
          buffer_encloses-IsBody data_bytes header token_start token_length 25 76 88
              (rw request at body),
        )
      ],
    )
