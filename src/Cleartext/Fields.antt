-- ===== src/Cleartext/Fields.antt =====
-- packet_audit/cleartext.py: the records of the recognizers, their limits and the decimal line.
use packet_inspector_windows.Prelude.{
  ℕ, zero, suc, ◌+◌, ◌*◌, ◌-◌, Bool, true, false, not, ◌&&◌, ◌||◌, Option, none, some, List, [],
  ◌∷◌, map, Bytes, Text, length, get_elem?, slice, leb, ◌==◌, is_nil, if◌then◌else◌,
}

abbrev pub max_field_bytes : ℕ
max_field_bytes = 8192

abbrev pub max_auth_message_bytes : ℕ
max_auth_message_bytes = 32768

abbrev pub max_resp_arguments : ℕ
max_resp_arguments = 128

abbrev pub max_pg_frame_bytes : ℕ
max_pg_frame_bytes = 16 * 1024 * 1024

pub data Protocol : Type 0 where
  redis postgresql : Protocol

pub data Reason : Type 0 where
  redis_auth_field_or_message_limit redis_auth_unsupported_inline redis_auth_invalid_arguments :
      Reason
  postgres_password_field_limit postgres_cleartext_password_malformed : Reason

-- `_value`: a text, or the bytes that are not UTF-8.
pub data Value : Type 0 where
  decoded : Text → Value
  undecoded : Bytes → Value

pub data Command : Type 0 where
  auth hello_auth : Command

-- The names of the server's authentication requests.
pub data MethodName : Type 0 where
  ok kerberos_v5 cleartext md5 scm gss gss_continue sspi sasl sasl_continue sasl_final : MethodName

-- `material`, a constructor for each `kind`.
pub data Material : Type 0 where
  cleartext_coverage : Protocol → Reason → Material
  redis_auth : Command → Value → Value → Material
  postgres_cleartext_password : Value → Material
  postgres_password_message : Value → Material
  postgres_authentication_request : ℕ → MethodName → Material
  postgres_authentication_invalid : Material

pub data Limitation : Type 0 where
  words_of : Reason → Limitation
  unknown_postgres_method : Limitation
  previous_method_invalidated : Limitation

pub record CleartextRecord : Type 0 where
  pub start : ℕ
  pub end : ℕ
  pub material : Material
  pub limitations : List Limitation

-- `_coverage`
abbrev pub coverage : ℕ → ℕ → Protocol → Reason → CleartextRecord
coverage start end protocol reason = record {
  start = start;
  end = end;
  material = cleartext_coverage protocol reason;
  limitations = words_of reason ∷ [];
}

-- `_value`, with `bytes.decode("utf-8")` as a parameter.
abbrev decoded_or : Bytes → Option Text → Value
decoded_or raw none = undecoded raw
decoded_or raw (some text) = decoded text

abbrev pub value : (Bytes → Option Text) → Bytes → Value
value decode raw = decoded_or raw (decode raw)

-- `return None` unless a test holds.
unfoldable pub require {ℓ} : {A : Type ℓ} → Bool → Option A → Option A
require false rest = none
require true rest = rest

infixl 5 ◌>>=◌
unfoldable pub ◌>>=◌ {ℓ κ} : {A : Type ℓ} {B : Type κ} → Option A → (A → Option B) → Option B
none >>= then_do = none
some a >>= then_do = then_do a

abbrev pub is_byte : ℕ → Option ℕ → Bool
is_byte n none = false
is_byte n (some m) = m == n

-- `n in data`
unfoldable pub has : ℕ → Bytes → Bool
has n [] = false
has n (b ∷ data_bytes) = b == n || has n data_bytes

unfoldable pub all_bytes : (ℕ → Bool) → Bytes → Bool
all_bytes test [] = true
all_bytes test (b ∷ data_bytes) = test b && all_bytes test data_bytes

abbrev upper_byte : ℕ → ℕ
upper_byte b = if leb 97 b && leb b 122 then b - 32 else b

-- `bytes.upper()`
abbrev pub upper : Bytes → Bytes
upper data_bytes = map upper_byte data_bytes

abbrev pub is_crlf : Bytes → ℕ → Bool
is_crlf data_bytes i =
    is_byte 13 (get_elem? data_bytes i) && is_byte 10 (get_elem? data_bytes (i + 1))

-- `data.find(b"\r\n", start, ...)`: the first of a number of positions.
unfoldable pub find_crlf : ℕ → Bytes → ℕ → Option ℕ
find_crlf zero data_bytes i = none
find_crlf (suc n) data_bytes i =
    let later = find_crlf n data_bytes (i + 1) in if is_crlf data_bytes i then some i else later

abbrev pub is_digit : ℕ → Bool
is_digit b = leb 48 b && leb b 57

abbrev pub decimal : ℕ → Bytes → ℕ
decimal high [] = high
decimal high (b ∷ digits) = decimal (high * 10 + (b - 48)) digits

unfoldable pub read_decimal : Bytes → ℕ → Option (ℕ × ℕ)
unfolding require all_bytes
read_decimal raw end =
    require (not (is_nil raw) && leb (length raw) 10 && all_bytes is_digit raw)
      (some (decimal 0 raw, end + 2))

-- `_decimal_line`: a window of 13 bytes has room for the line end at 12 positions.
unfoldable pub decimal_line : Bytes → ℕ → Option (ℕ × ℕ)
unfolding ◌>>=◌ find_crlf read_decimal
decimal_line data_bytes start = do
  end ← find_crlf 12 data_bytes start
  read_decimal (slice data_bytes start end) end

-- The kinds of records that the callers select.
abbrev pub is_redis_auth : Material → Bool
is_redis_auth (redis_auth _ _ _) = true
is_redis_auth _ = false

abbrev pub is_coverage : Material → Bool
is_coverage (cleartext_coverage _ _) = true
is_coverage _ = false

unfoldable pub select : (Material → Bool) → List CleartextRecord → List CleartextRecord
select wanted [] = []
select wanted (r ∷ records) =
    if wanted r.material then r ∷ select wanted records else select wanted records
