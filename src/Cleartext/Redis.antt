-- ===== src/Cleartext/Redis.antt =====
-- packet_audit/cleartext.py: the Redis recognizer.
use packet_inspector_windows.Prelude.{
  ℕ, zero, suc, ◌+◌, ◌-◌, Bool, true, false, not, ◌&&◌, ◌||◌, Option, none, some, List, [], ◌∷◌,
  ◌++◌, Bytes, Text, length, get_elem?, slice, take, drop, ltb, leb, ◌==◌, is_some, eq_list,
  if◌then◌else◌,
}
use packet_inspector_windows.Cleartext.Fields.{
  max_field_bytes, max_auth_message_bytes, max_resp_arguments, redis,
  redis_auth_field_or_message_limit, redis_auth_unsupported_inline, redis_auth_invalid_arguments,
  auth, hello_auth, Material, redis_auth, CleartextRecord, coverage, value, require, ◌>>=◌, is_byte,
  has, all_bytes, upper, find_crlf, decimal_line,
}
use packet_inspector_windows.Cleartext.Scan.{Step, Scanned, scan}

abbrev pub crlf : Bytes
crlf = 13 ∷ 10 ∷ []

abbrev pub auth_name : Bytes
auth_name = 65 ∷ 85 ∷ 84 ∷ 72 ∷ []

abbrev pub hello_name : Bytes
hello_name = 72 ∷ 69 ∷ 76 ∷ 76 ∷ 79 ∷ []

abbrev setname_name : Bytes
setname_name = 83 ∷ 69 ∷ 84 ∷ 78 ∷ 65 ∷ 77 ∷ 69 ∷ []

abbrev pub default_name : Bytes
default_name = 100 ∷ 101 ∷ 102 ∷ 97 ∷ 117 ∷ 108 ∷ 116 ∷ []

-- A RESP command: its end, its arguments unless a limit is exceeded, and whether it was an
-- authentication command whose arguments were dropped.
pub record RespCommand : Type 0 where
  pub end : ℕ
  pub arguments : Option (List Bytes)
  pub auth_limit : Bool

-- `arguments` behind one more argument of a command.
unfoldable pub keep_argument : ℕ → ℕ → Bytes → Option (List Bytes) → Option (List Bytes)
keep_argument size spent argument none = none
keep_argument size spent argument (some arguments) =
    if ltb max_field_bytes size || ltb max_auth_message_bytes spent
    then none
    else some (arguments ++ (argument ∷ []))

abbrev pub is_auth_name : Bytes → Bool
is_auth_name argument = eq_list (upper argument) auth_name || eq_list (upper argument) hello_name

unfoldable pub ends_bulk : Bytes → ℕ → Bool
unfolding eq_list
ends_bulk data_bytes end =
    leb (end + 2) (length data_bytes) && eq_list (slice data_bytes end (end + 2)) crlf

-- A bulk string behind its type byte: its size, and where it begins.
unfoldable pub bulk_string : Bytes → ℕ → Option (ℕ × ℕ)
unfolding ◌>>=◌ decimal_line require ends_bulk
bulk_string data_bytes at = do
  (size, begin) ← decimal_line data_bytes at
  require (ends_bulk data_bytes (begin + size)) (some (size, begin))

-- The loop over the arguments.
unfoldable pub resp_arguments :
    ℕ → Bytes → ℕ → Bool → ℕ → Option (List Bytes) → Bool → Option RespCommand
unfolding ◌>>=◌ bulk_string require eq_list keep_argument
resp_arguments zero data_bytes start first cursor arguments known =
    some (record {
      end = cursor;
      arguments = arguments;
      auth_limit = known && not (is_some arguments);
    })
resp_arguments (suc n) data_bytes start first cursor arguments known =
    require (is_byte 36 (get_elem? data_bytes cursor)) (do
      (size, begin) ← bulk_string data_bytes (cursor + 1)
      let argument = slice data_bytes begin (begin + size) in
          resp_arguments n data_bytes start false (begin + size + 2)
            (keep_argument size (begin + size + 2 - start) argument arguments)
            (if first && leb size 5 then is_auth_name argument else known))

-- `_resp_command`
unfoldable pub resp_command : Bytes → ℕ → Option RespCommand
unfolding ◌>>=◌ decimal_line require resp_arguments
resp_command data_bytes start = do
  (count, cursor) ← decimal_line data_bytes (start + 1)
  require (leb 1 count && leb count max_resp_arguments)
      (resp_arguments count data_bytes start true cursor (some []) false)

abbrev is_blank : ℕ → Bool
is_blank b = b == 32 || b == 9

unfoldable pub skip_blanks : Bytes → Bytes
skip_blanks [] = []
skip_blanks (b ∷ rest) = if is_blank b then skip_blanks rest else b ∷ rest

-- What stands before the first byte that a test accepts, and from that byte on.
unfoldable pub span_until : (ℕ → Bool) → Bytes → Bytes × Bytes
span_until test [] = ([], [])
span_until test (b ∷ rest) =
    let (before, behind) = span_until test rest in
    if test b then ([], b ∷ rest) else (b ∷ before, behind)

abbrev blank_or_end : Bytes → Bool
blank_or_end [] = true
blank_or_end (b ∷ _) = is_blank b

unfoldable pub quoted_argument : Bytes → Bytes → Option (Bytes × Bytes)
unfolding has require
quoted_argument argument [] = none
quoted_argument argument (_ ∷ behind) =
    require (not (has 92 argument) && blank_or_end behind) (some (argument, behind))

-- The argument that starts with a byte, and what stands behind it.
unfoldable pub inline_argument : ℕ → Bytes → Option (Bytes × Bytes)
unfolding quoted_argument span_until has require
inline_argument b rest =
    let (quoted, from_quote) = span_until (λ c. c == b) rest in
    let (plain, behind) = span_until is_blank (b ∷ rest) in
    if b == 34 || b == 39
    then quoted_argument quoted from_quote
    else require (not (has 39 plain || has 34 plain || has 92 plain)) (some (plain, behind))

-- The loop over the line, on fuel: each round takes a byte at least.
unfoldable pub inline_loop : ℕ → Bytes → List Bytes → Option (List Bytes)
unfolding inline_argument skip_blanks require ◌>>=◌
inline_loop zero rest arguments = some arguments
inline_loop (suc n) rest arguments = elim (skip_blanks rest) [
  | [] ↦ some arguments
  | b ∷ behind ↦ do
    (argument, left) ← inline_argument b behind
    require (leb (length argument) max_field_bytes && ltb (length arguments) max_resp_arguments)
        (inline_loop n left (arguments ++ (argument ∷ [])))
]

-- `_inline_arguments`
unfoldable pub inline_arguments : Bytes → Option (List Bytes)
unfolding require all_bytes inline_loop
inline_arguments line =
    require (leb (length line) max_auth_message_bytes && all_bytes (λ b. leb 32 b || b == 9) line)
      (inline_loop (length line) line [])

-- The options of HELLO, from the third argument on, with the credentials and the name seen so far.
unfoldable pub hello_options : List Bytes → Option (Bytes × Bytes) → Bool → Option (Bytes × Bytes)
unfolding require eq_list
hello_options [] credentials named = credentials
hello_options (option ∷ []) credentials named = none
hello_options (option ∷ name ∷ []) credentials named =
    require (eq_list (upper option) setname_name && not named) credentials
hello_options (option ∷ username ∷ password ∷ rest) credentials named =
    let signed_in = hello_options rest (some (username, password)) named in
    let renamed = hello_options (password ∷ rest) credentials true in
    if eq_list (upper option) auth_name && not (is_some credentials)
    then signed_in
    else if eq_list (upper option) setname_name && not named
    then renamed
    else none

unfoldable pub hello_credentials : List Bytes → Option (Bytes × Bytes)
unfolding hello_options require eq_list
hello_credentials (command ∷ version ∷ options) =
    require
      (eq_list (upper command) hello_name
        && leb 3 (length options)
        && (eq_list version (50 ∷ []) || eq_list version (51 ∷ [])))
      (hello_options options none false)
hello_credentials _ = none

abbrev pub is_auth : Bytes → Bool
is_auth command = eq_list (upper command) auth_name

abbrev pub auth_credentials : List Bytes → Option (Bytes × Bytes)
auth_credentials (password ∷ []) = some (default_name, password)
auth_credentials (username ∷ password ∷ []) = some (username, password)
auth_credentials _ = none

unfoldable pub credentials_of : List Bytes → Option (Bytes × Bytes)
unfolding hello_credentials
credentials_of [] = none
credentials_of (command ∷ rest) =
    if is_auth command then auth_credentials rest else hello_credentials (command ∷ rest)

-- `_redis_material`
unfoldable pub redis_material : (Bytes → Option Text) → List Bytes → Option Material
unfolding credentials_of eq_list ◌>>=◌
redis_material decode [] = none
redis_material decode (command ∷ rest) = do
  (username, password) ← credentials_of (command ∷ rest)
  some (
      redis_auth (if is_auth command then auth else hello_auth) (value decode username)
        (value decode password))

abbrev is_space : ℕ → Bool
is_space b = b == 32 || (leb 9 b && leb b 13)

-- `bytes.lstrip()`
unfoldable pub strip_left : Bytes → Bytes
strip_left [] = []
strip_left (b ∷ rest) = if is_space b then strip_left rest else b ∷ rest

-- `startswith((b"AUTH ", b"AUTH\t", b"HELLO ", b"HELLO\t"))`
unfoldable pub starts_auth : Bytes → Bool
unfolding eq_list
starts_auth line =
    (eq_list (take 4 line) auth_name && blank_at (drop 4 line))
    || (eq_list (take 5 line) hello_name && blank_at (drop 5 line))
  where
    blank_at : Bytes → Bool
    blank_at [] = false
    blank_at (b ∷ _) = is_blank b

abbrev pub unless_auth : ℕ → ℕ → List Bytes → List CleartextRecord
unless_auth start end [] = []
unless_auth start end (command ∷ _) =
    if is_auth command then coverage start end redis redis_auth_invalid_arguments ∷ [] else []

-- The record of a command, if it has one: its credentials, or the note that they are malformed.
abbrev pub material_records : ℕ → ℕ → List Bytes → Option Material → List CleartextRecord
material_records start end arguments none = unless_auth start end arguments
material_records start end arguments (some material) =
    record { start = start; end = end; material = material; limitations = [] } ∷ []

unfoldable pub command_records :
    (Bytes → Option Text) → ℕ → ℕ → Option (List Bytes) → List CleartextRecord
unfolding redis_material
command_records decode start end none = []
command_records decode start end (some arguments) =
    material_records start end arguments (redis_material decode arguments)

abbrev pub limit_records : ℕ → ℕ → Bool → List CleartextRecord
limit_records start end false = []
limit_records start end true = coverage start end redis redis_auth_field_or_message_limit ∷ []

unfoldable pub array_step : (Bytes → Option Text) → Bytes → ℕ → Option Step
unfolding resp_command ◌>>=◌ command_records
array_step decode data_bytes cursor = do
  command ← resp_command data_bytes cursor
  some (
    command.end,
    limit_records cursor command.end command.auth_limit
        ++ command_records decode cursor command.end command.arguments,
  )

-- A bulk string may hold anything, and is passed over.
unfoldable pub bulk_step : Bytes → ℕ → Option Step
unfolding bulk_string ◌>>=◌
bulk_step data_bytes cursor = do
  (size, begin) ← bulk_string data_bytes (cursor + 1)
  some (begin + size + 2, [])

unfoldable pub inline_records :
    (Bytes → Option Text) → ℕ → ℕ → Bytes → Option (List Bytes) → Option Step
unfolding command_records require starts_auth strip_left
inline_records decode start end line (some arguments) =
    some (end, command_records decode start end (some arguments))
inline_records decode start end line none =
    require (starts_auth (upper (strip_left line)))
      (some (end, coverage start end redis redis_auth_unsupported_inline ∷ []))

unfoldable pub inline_step : (Bytes → Option Text) → Bytes → ℕ → Option Step
unfolding find_crlf inline_arguments inline_records ◌>>=◌
inline_step decode data_bytes cursor = do
  end ← find_crlf (length data_bytes - cursor) data_bytes cursor
  let line = slice data_bytes cursor end in
      inline_records decode cursor (end + 2) line (inline_arguments line)

-- One round of `scan_redis`; `none` where it breaks off.
unfoldable pub redis_step : (Bytes → Option Text) → Bytes → ℕ → Option Step
unfolding array_step bulk_step inline_step
redis_step decode data_bytes cursor =
    let tag = get_elem? data_bytes cursor in
    if is_byte 42 tag
    then array_step decode data_bytes cursor
    else if is_byte 36 tag || is_byte 33 tag || is_byte 61 tag
    then bulk_step data_bytes cursor
    else inline_step decode data_bytes cursor

unfoldable pub scan_redis : (Bytes → Option Text) → Bytes → Scanned
unfolding scan redis_step
scan_redis decode data_bytes = scan (redis_step decode) data_bytes
