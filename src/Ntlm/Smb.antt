-- ===== src/Ntlm/Smb.antt =====
-- packet_audit/ntlm_wrappers.py: the SMB2 headers around a token.
use packet_inspector_windows.Prelude.{
  and-true, ==_iff, ℕ, zero, suc, ◌+◌, ◌*◌, ◌-◌, ◌≤◌, ◌<◌, ◌≡◌, refl, sym, ap, ◌∙◌, ◌↔◌, Bool, true,
  false, ◌&&◌, ◌||◌, inl, inr, Option, none, some, [], ◌∷◌, Bytes, arith, length, get_elem?,
  get_elem?_out, slice, ltb, leb, ◌==◌, eq_list, Bool-cases, if◌then◌else◌, leb→le,
}

abbrev pub is_byte : ℕ → Option ℕ → Bool
is_byte n none = false
is_byte n (some m) = m == n

-- The signature FE "SMB" at a position.
unfoldable pub is_signature : Bytes → ℕ → Bool
is_signature data_bytes i =
    (is_byte 254 (get_elem? data_bytes i) && is_byte 83 (get_elem? data_bytes (i + 1)))
    && (is_byte 77 (get_elem? data_bytes (i + 2)) && is_byte 66 (get_elem? data_bytes (i + 3)))

-- `int.from_bytes(data, "little")`
abbrev from_bytes_little : Bytes → ℕ
from_bytes_little [] = 0
from_bytes_little (b ∷ rest) = b + 256 * from_bytes_little rest

abbrev pub little_at : Bytes → ℕ → ℕ → ℕ
little_at data_bytes i j = from_bytes_little (slice data_bytes i j)

-- The test of a header behind its signature.
unfoldable pub is_smb2_header : Bytes → ℕ → Bool
unfolding eq_list
is_smb2_header data_bytes cursor =
    leb (cursor + 64) (length data_bytes)
    && eq_list (slice data_bytes (cursor + 4) (cursor + 6)) (64 ∷ 0 ∷ [])
    && leb (little_at data_bytes (cursor + 12) (cursor + 14)) 18

-- `data.find(b"\xfeSMB", i)`, on the number of positions that are left.
unfoldable pub find_signature : ℕ → Bytes → ℕ → Option ℕ
unfolding is_signature
find_signature zero data_bytes i = none
find_signature (suc n) data_bytes i =
    if is_signature data_bytes i then some i else find_signature n data_bytes (i + 1)

abbrev pub seen_on : Bytes → (ℕ → Bool) → Option ℕ → Bool
seen_on data_bytes next none = false
seen_on data_bytes next (some cursor) = is_smb2_header data_bytes cursor || next cursor

-- The loop, on fuel: a round moves the cursor four bytes on at least.
unfoldable pub header_seen_from : ℕ → Bytes → ℕ → Bool
header_seen_from zero data_bytes i = false
header_seen_from (suc n) data_bytes i =
    seen_on data_bytes (λ cursor. header_seen_from n data_bytes (cursor + 4))
      (find_signature (length data_bytes - i) data_bytes i)

unfoldable pub smb2_header_seen : Bytes → Bool
unfolding header_seen_from
smb2_header_seen data_bytes = header_seen_from (length data_bytes) data_bytes 0

signature_inside :
    (data_bytes : Bytes) (i : ℕ) → is_signature data_bytes i ≡ true → i < length data_bytes
unfolding is_signature
signature_inside data_bytes i h = elim (Bool-cases (ltb i (length data_bytes))) [
  | inl inside ↦ ground arith
  | inr outside ↦ let out = get_elem?_out data_bytes i (ground arith) in ground (arith, out, h)
]

pub byte_there : (n : ℕ) (o : Option ℕ) → is_byte n o ≡ true → o ≡ some n
byte_there n none h = absurd (cc h)
byte_there n (some m) h = ap some ((==_iff m n).0 h)

pub signature_bytes :
    (data_bytes : Bytes) (i : ℕ)
    → is_signature data_bytes i ≡ true
    → (get_elem? data_bytes i ≡ some 254)
      × (get_elem? data_bytes (i + 1) ≡ some 83)
      × (get_elem? data_bytes (i + 2) ≡ some 77)
      × (get_elem? data_bytes (i + 3) ≡ some 66)
unfolding is_signature
signature_bytes data_bytes i h =
    let at : ℕ → ℕ → Bool = λ n k. is_byte n (get_elem? data_bytes k) in
    let (ab, cd) = and-true (at 254 i && at 83 (i + 1)) (at 77 (i + 2) && at 66 (i + 3)) h in
    let (a, b) = and-true (at 254 i) (at 83 (i + 1)) ab in
    let (c, d) = and-true (at 77 (i + 2)) (at 66 (i + 3)) cd in
    (
      byte_there 254 (get_elem? data_bytes i) a,
      byte_there 83 (get_elem? data_bytes (i + 1)) b,
      byte_there 77 (get_elem? data_bytes (i + 2)) c,
      byte_there 66 (get_elem? data_bytes (i + 3)) d,
    )

one_byte :
    (data_bytes : Bytes) (i j n m : ℕ)
    → get_elem? data_bytes i ≡ some n
    → get_elem? data_bytes j ≡ some m
    → i ≡ j
    → n ≡ m
one_byte data_bytes i j n m h k e = cc (sym h ∙ ap (get_elem? data_bytes) e ∙ k)

-- Two signatures do not overlap.
signature_apart :
    (data_bytes : Bytes) (i j : ℕ)
    → is_signature data_bytes i ≡ true
    → is_signature data_bytes j ≡ true
    → i < j
    → i + 4 ≤ j
signature_apart data_bytes i j h k lt =
    let (_, s, m, b) = signature_bytes data_bytes i h in
    let (f, _, _, _) = signature_bytes data_bytes j k in
    elim (Bool-cases (leb (i + 4) j)) [
      | inl apart ↦ leb→le (i + 4) j apart
      | inr near ↦ elim (Bool-cases (i + 1 == j)) [
        | inl one ↦
            absurd
              (omega (arith, one_byte data_bytes (i + 1) j 83 254 s f ((==_iff (i + 1) j).0 one)))
        | inr _ ↦ elim (Bool-cases (i + 2 == j)) [
          | inl two ↦
              absurd
                (omega (arith, one_byte data_bytes (i + 2) j 77 254 m f ((==_iff (i + 2) j).0 two)))
          | inr _ ↦
              let three : i + 3 ≡ j = ground arith in
              absurd (omega (arith, one_byte data_bytes (i + 3) j 66 254 b f three))
        ]
      ]
    ]

past_other :
    (data_bytes : Bytes) (i j : ℕ)
    → i ≤ j
    → is_signature data_bytes i ≡ false
    → is_signature data_bytes j ≡ true
    → i < j
past_other data_bytes i j le other h = elim (Bool-cases (i == j)) [
  | inl same ↦ absurd (cc (sym other ∙ ap (is_signature data_bytes) ((==_iff i j).0 same) ∙ h))
  | inr distinct ↦ ground (arith, le, distinct)
]

-- The first signature from a position on.
find_first :
    (n : ℕ) (data_bytes : Bytes) (i j : ℕ)
    → is_signature data_bytes j ≡ true
    → i ≤ j
    → j < i + n
    → (c : ℕ) × (find_signature n data_bytes i ≡ some c)
      × (c ≤ j)
      × (i ≤ c)
      × (is_signature data_bytes c ≡ true)
unfolding find_signature
find_first zero data_bytes i j h le lt = absurd (omega arith)
find_first (suc n) data_bytes i j h le lt = elim (Bool-cases (is_signature data_bytes i)) [
  | inl here ↦ (i, rw here refl, le, omega arith, here)
  | inr other ↦
      let not_i : i < j = past_other data_bytes i j le other h in
      let (c, found, first, after, signed) =
        find_first n data_bytes (i + 1) j h (omega arith) (omega arith) in
      (c, rw other found, first, omega (arith, after), signed)
]

header_seen_from_complete :
    (n : ℕ) (data_bytes : Bytes) (i j : ℕ)
    → is_signature data_bytes j ≡ true
    → is_smb2_header data_bytes j ≡ true
    → i ≤ j
    → length data_bytes ≤ i + n
    → header_seen_from n data_bytes i ≡ true
unfolding header_seen_from
header_seen_from_complete zero data_bytes i j signed header le enough =
    absurd (omega (arith, signature_inside data_bytes j signed))
header_seen_from_complete (suc n) data_bytes i j signed header le enough =
    let inside = signature_inside data_bytes j signed in
    let (c, found, first, after, signed_c) =
      find_first (length data_bytes - i) data_bytes i j signed le (omega (arith, inside)) in
    let next : ℕ → Bool = λ cursor. header_seen_from n data_bytes (cursor + 4) in
    ap (seen_on data_bytes next) found ∙ (elim (Bool-cases (is_smb2_header data_bytes c)) [
      | inl here ↦ rw here refl
      | inr other ↦
          let past : c < j = past_header data_bytes c j first other header in
          rw other (
            header_seen_from_complete n data_bytes (c + 4) j signed header
              (signature_apart data_bytes c j signed_c signed past) (omega (arith, after)))
    ])
  where
    past_header :
        (bytes : Bytes) (c k : ℕ)
        → c ≤ k
        → is_smb2_header bytes c ≡ false
        → is_smb2_header bytes k ≡ true
        → c < k
    past_header bytes c k before other there = elim (Bool-cases (c == k)) [
      | inl same ↦ absurd (cc (sym other ∙ ap (is_smb2_header bytes) ((==_iff c k).0 same) ∙ there))
      | inr distinct ↦ ground (arith, before, distinct)
    ]

find_signature_signed :
    (n : ℕ) (data_bytes : Bytes) (i c : ℕ)
    → find_signature n data_bytes i ≡ some c
    → is_signature data_bytes c ≡ true
unfolding find_signature
find_signature_signed zero data_bytes i c h = absurd (cc h)
find_signature_signed (suc n) data_bytes i c h = elim (Bool-cases (is_signature data_bytes i)) [
  | inl here ↦
      let same : some i ≡ some c = rw here at h in
      let equal : i ≡ c = cc same in ap (is_signature data_bytes) (sym equal) ∙ here
  | inr later ↦ find_signature_signed n data_bytes (i + 1) c (rw later at h)
]

abbrev HasHeader : Bytes → Type 0
HasHeader data_bytes =
    (i : ℕ) × (is_signature data_bytes i ≡ true) × (is_smb2_header data_bytes i ≡ true)

seen_on_sound :
    (data_bytes : Bytes) (next : ℕ → Bool) (o : Option ℕ)
    → seen_on data_bytes next o ≡ true
    → ((c : ℕ) → o ≡ some c → is_signature data_bytes c ≡ true)
    → ((c : ℕ) → next c ≡ true → HasHeader data_bytes)
    → HasHeader data_bytes
seen_on_sound data_bytes next none h signed later = absurd (cc h)
seen_on_sound data_bytes next (some c) h signed later =
    elim (Bool-cases (is_smb2_header data_bytes c)) [
      | inl here ↦ (c, signed c refl, here)
      | inr other ↦ later c (rw other at h)
    ]

header_seen_from_sound :
    (n : ℕ) (data_bytes : Bytes) (i : ℕ)
    → header_seen_from n data_bytes i ≡ true
    → HasHeader data_bytes
unfolding header_seen_from
header_seen_from_sound zero data_bytes i h = absurd (cc h)
header_seen_from_sound (suc n) data_bytes i h =
    seen_on_sound data_bytes (λ cursor. header_seen_from n data_bytes (cursor + 4))
      (find_signature (length data_bytes - i) data_bytes i) h
      (λ c found. find_signature_signed (length data_bytes - i) data_bytes i c found)
      (λ c later. header_seen_from_sound n data_bytes (c + 4) later)

-- `smb2_header_seen` answers true exactly where the data has, at some position, the SMB2 signature
-- with a whole header behind it whose structure size is 64 and whose command is at most 18.
pub smb2_header_seen_iff :
    (data_bytes : Bytes)
    → (smb2_header_seen data_bytes ≡ true)
      ↔ ((i : ℕ) × (is_signature data_bytes i ≡ true) × (is_smb2_header data_bytes i ≡ true))
unfolding smb2_header_seen
smb2_header_seen_iff data_bytes = (
  header_seen_from_sound (length data_bytes) data_bytes 0,
  λ (j, signed, header).
      header_seen_from_complete (length data_bytes) data_bytes 0 j signed header (omega arith)
        (omega arith),
)
