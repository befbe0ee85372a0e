-- ===== src/Cleartext/Postgres.antt =====
-- packet_audit/cleartext.py: the PostgreSQL recognizers.
use packet_inspector_windows.Prelude.{
  ℕ, ◌+◌, ◌/◌, ◌-◌, ◌^◌, Bool, true, false, not, ◌&&◌, ◌||◌, Option, none, some, List, [], ◌∷◌,
  Bytes, Text, length, get_elem?, slice, take, drop, ltb, leb, ◌==◌, is_nil, is_some, eq_list,
  from_bytes_big, if◌then◌else◌,
}
use packet_inspector_windows.Cleartext.Fields.{
  max_field_bytes, max_auth_message_bytes, max_pg_frame_bytes, postgresql,
  postgres_password_field_limit, postgres_cleartext_password_malformed, ok, kerberos_v5, cleartext,
  md5, scm, gss, gss_continue, sspi, sasl, sasl_continue, sasl_final, MethodName,
  postgres_cleartext_password, postgres_password_message, postgres_authentication_request,
  postgres_authentication_invalid, unknown_postgres_method, previous_method_invalidated,
  CleartextRecord, coverage, value, require, ◌>>=◌, is_byte, has, all_bytes,
}
use packet_inspector_windows.Cleartext.Scan.{Step, Scanned, scan}

-- `_FRONTEND_TAGS`: BCDEFHPSXQdcfp.
abbrev frontend_tags : Bytes
frontend_tags = 66 ∷ 67 ∷ 68 ∷ 69 ∷ 70 ∷ 72 ∷ 80 ∷ 83 ∷ 88 ∷ 81 ∷ 100 ∷ 99 ∷ 102 ∷ 112 ∷ []

-- `_BACKEND_TAGS`: RKEANSTDCIZ123nsGtHVWcdv.
abbrev backend_tags : Bytes
backend_tags =
    82 ∷ 75 ∷ 69 ∷ 65 ∷ 78 ∷ 83 ∷ 84 ∷ 68 ∷ 67 ∷ 73 ∷ 90 ∷ 49 ∷ 50 ∷ 51 ∷ 110 ∷ 115 ∷ 71 ∷ 116 ∷ 72
    ∷ 86 ∷ 87 ∷ 99 ∷ 100 ∷ 118 ∷ []

pub record Frame : Type 0 where
  pub end : ℕ
  pub tag : ℕ
  pub payload : Bytes

abbrev pub int_at : Bytes → ℕ → ℕ → ℕ
int_at data_bytes i j = from_bytes_big 0 (slice data_bytes i j)

-- `NR`, and the length of an authentication frame.
unfoldable pub is_answer : Bytes → ℕ → Bool
unfolding eq_list
is_answer names size =
    eq_list names (78 ∷ 82 ∷ []) && (leb 8 size && leb size max_auth_message_bytes)

-- A refused upgrade before a whole authentication frame.
unfoldable pub is_refusal : Bytes → ℕ → Bool
unfolding is_answer
is_refusal data_bytes cursor =
    let size = int_at data_bytes 2 6 in
    (cursor == 0 && leb 10 (length data_bytes - cursor))
    && (leb (2 + size) (length data_bytes) && is_answer (slice data_bytes 0 2) size)

-- A startup packet ends with a zero byte; requests of SSL, GSS and cancellation have their sizes.
unfoldable pub is_startup : ℕ → ℕ → Bool → Bool
is_startup size code zero_at_end =
    let startup = code / 2 ^ 16 == 3 && leb 9 size in
    let special =
      ((code == 80877103 || code == 80877104) && size == 8) || (code == 80877102 && size == 16) in
    (startup || special) && leb size max_pg_frame_bytes && not (startup && not zero_at_end)

unfoldable pub startup_frame : Bytes → ℕ → Option Frame
unfolding require is_startup
startup_frame data_bytes cursor =
    let remaining = length data_bytes - cursor in
    let size = int_at data_bytes cursor (cursor + 4) in
    let code = int_at data_bytes (cursor + 4) (cursor + 8) in
    require
      ((leb 8 remaining && leb size remaining)
        && is_startup size code (is_byte 0 (get_elem? data_bytes (cursor + size - 1))))
      (some (record { end = cursor + size; tag = 0; payload = [] }))

unfoldable pub is_tagged : Bool → ℕ → ℕ → Bool
unfolding has
is_tagged backend tag size =
    has tag (if backend then backend_tags else frontend_tags)
    && leb 4 size
    && leb size max_pg_frame_bytes

unfoldable pub tagged_frame : Bool → Bytes → ℕ → ℕ → Option Frame
unfolding require is_tagged
tagged_frame backend data_bytes cursor tag =
    let size = int_at data_bytes (cursor + 1) (cursor + 5) in
    let end = cursor + 1 + size in
    let wanted = tag == (if backend then 82 else 112) in
    require (is_tagged backend tag size && leb end (length data_bytes)) (
      some (record {
        end = end;
        tag = tag;
        payload =
            if wanted && leb size max_auth_message_bytes
            then slice data_bytes (cursor + 5) end
            else [];
      }))

unfoldable pub frame_at : Bool → Bytes → ℕ → ℕ → Option Frame
unfolding is_refusal startup_frame tagged_frame
frame_at backend data_bytes cursor tag =
    if backend && is_refusal data_bytes cursor
    then some (record { end = 1; tag = 0; payload = [] })
    else if not backend && tag == 0
    then startup_frame data_bytes cursor
    else tagged_frame backend data_bytes cursor tag

-- `_pg_frame`
unfoldable pub pg_frame : Bool → Bytes → ℕ → Option Frame
unfolding require ◌>>=◌ frame_at
pg_frame backend data_bytes cursor =
    require (leb 5 (length data_bytes - cursor))
      (do tag ← get_elem? data_bytes cursor; frame_at backend data_bytes cursor tag)

-- The password of a payload that ends with its only zero byte.
unfoldable pub password_of : Bytes → Option Bytes
unfolding require has
password_of payload =
    let value_bytes = take (length payload - 1) payload in
    require (is_byte 0 (get_elem? payload (length payload - 1)) && not (has 0 value_bytes))
      (some value_bytes)

abbrev is_hex : ℕ → Bool
is_hex b = (leb 48 b && leb b 57) || (leb 97 b && leb b 102) || (leb 65 b && leb b 70)

-- `re.fullmatch(rb"md5[0-9a-fA-F]{32}", value)`
unfoldable pub is_md5 : Bytes → Bool
unfolding eq_list all_bytes
is_md5 value_bytes =
    eq_list (take 3 value_bytes) (109 ∷ 100 ∷ 53 ∷ [])
    && length value_bytes == 35
    && all_bytes is_hex (drop 3 value_bytes)

abbrev pub is_cleartext : Option ℕ → Bool
is_cleartext none = false
is_cleartext (some method) = method == 3

unfoldable pub password_records :
    (Bytes → Option Text) → Option ℕ → ℕ → ℕ → Option Bytes → List CleartextRecord
unfolding is_md5
password_records decode method start end none =
    if is_cleartext method
    then coverage start end postgresql postgres_cleartext_password_malformed ∷ []
    else []
password_records decode none start end (some value_bytes) =
    if is_md5 value_bytes
    then []
    else record {
      start = start;
      end = end;
      material = postgres_password_message (value decode value_bytes);
      limitations = unknown_postgres_method ∷ [];
    }
      ∷ []
password_records decode (some method) start end (some value_bytes) =
    record {
      start = start;
      end = end;
      material = postgres_cleartext_password (value decode value_bytes);
      limitations = [];
    }
    ∷ []

-- The records of a client frame.
unfoldable pub client_records : (Bytes → Option Text) → Option ℕ → ℕ → Frame → List CleartextRecord
unfolding password_of password_records
client_records decode method start frame =
    if not (frame.tag == 112) || (is_some method && not (is_cleartext method))
    then []
    else if ltb (max_field_bytes + 5) (frame.end - start - 1)
    then coverage start frame.end postgresql postgres_password_field_limit ∷ []
    else password_records decode method start frame.end (password_of frame.payload)

unfoldable pub client_step : (Bytes → Option Text) → Option ℕ → Bytes → ℕ → Option Step
unfolding pg_frame client_records ◌>>=◌
client_step decode method data_bytes cursor = do
  frame ← pg_frame false data_bytes cursor
  some (frame.end, client_records decode method cursor frame)

unfoldable pub scan_postgres : (Bytes → Option Text) → Option ℕ → Bytes → Scanned
unfolding scan client_step
scan_postgres decode method data_bytes = scan (client_step decode method) data_bytes

abbrev names : List (ℕ × MethodName)
names =
    (0, ok)
    ∷ (2, kerberos_v5)
    ∷ (3, cleartext)
    ∷ (5, md5)
    ∷ (6, scm)
    ∷ (7, gss)
    ∷ (8, gss_continue)
    ∷ (9, sspi)
    ∷ (10, sasl)
    ∷ (11, sasl_continue)
    ∷ (12, sasl_final)
    ∷ []

unfoldable pub lookup : ℕ → List (ℕ × MethodName) → Option MethodName
lookup method [] = none
lookup method ((m, name) ∷ rest) = if m == method then some name else lookup method rest

-- `bytes.split(b"\0")`, with the item read so far.
unfoldable pub split_zero : Bytes → Bytes × List Bytes
split_zero [] = ([], [])
split_zero (b ∷ rest) =
    let (item, items) = split_zero rest in if b == 0 then ([], item ∷ items) else (b ∷ item, items)

unfoldable pub are_mechanisms : List Bytes → Bool
unfolding all_bytes
are_mechanisms [] = true
are_mechanisms (item ∷ items) =
    not (is_nil item)
    && leb (length item) 128
    && all_bytes (λ c. leb 33 c && leb c 126) item
    && are_mechanisms items

unfoldable pub mechanisms_valid : Bytes → Bool
unfolding eq_list split_zero are_mechanisms
mechanisms_valid mechanisms =
    let size = length mechanisms in
    let (item, items) = split_zero (take (size - 2) mechanisms) in
    eq_list (drop (size - 2) mechanisms) (0 ∷ 0 ∷ []) && are_mechanisms (item ∷ items)

-- The tests of an authentication request whose method has a name.
unfoldable pub is_valid_request : ℕ → Bytes → Bool
unfolding mechanisms_valid has
is_valid_request method payload =
    let size = length payload in
    not (has method (0 ∷ 2 ∷ 3 ∷ 6 ∷ 7 ∷ 9 ∷ []) && not (size == 4))
    && not (method == 5 && not (size == 8))
    && not (has method (8 ∷ 11 ∷ 12 ∷ []) && leb size 4)
    && (not (method == 10) || mechanisms_valid (drop 4 payload))

unfoldable pub request_of : Bytes → Option (ℕ × MethodName)
unfolding require ◌>>=◌ lookup is_valid_request
request_of payload =
    let method = from_bytes_big 0 (take 4 payload) in
    require (leb 4 (length payload)) (do
      name ← lookup method names
      require (is_valid_request method payload) (some (method, name)))

abbrev pub request_record : ℕ → ℕ → Option (ℕ × MethodName) → CleartextRecord
request_record start end none = record {
  start = start;
  end = end;
  material = postgres_authentication_invalid;
  limitations = previous_method_invalidated ∷ [];
}
request_record start end (some (method, name)) = record {
  start = start;
  end = end;
  material = postgres_authentication_request method name;
  limitations = [];
}

unfoldable pub server_records : ℕ → Frame → List CleartextRecord
unfolding request_of
server_records start frame =
    if frame.tag == 82 then request_record start frame.end (request_of frame.payload) ∷ [] else []

unfoldable pub server_step : Bytes → ℕ → Option Step
unfolding pg_frame server_records ◌>>=◌
server_step data_bytes cursor = do
  frame ← pg_frame true data_bytes cursor
  some (frame.end, server_records cursor frame)

unfoldable pub scan_postgres_authentication : Bytes → Scanned
unfolding scan server_step
scan_postgres_authentication data_bytes = scan server_step data_bytes
