-- ===== src/Cleartext/RedisWire.antt =====
-- A Redis command as a client writes it, in the RESP protocol: it is read back.
use packet_inspector_windows.Prelude.{
  and-true, ℕ, zero, suc, ◌+◌, ◌-◌, ◌≤◌, ◌<◌, ◌≡◌, refl, ap, ◌∙◌, Bool, true, false, ◌&&◌, Option,
  some, List, [], ◌∷◌, ◌++◌, map, Bytes, Text, arith, length, length-drop, get_elem?, slice, take,
  drop, ltb, leb, ◌==◌, is_nil, eq_list, eq_list_iff, le→leb, if◌then◌else◌,
}
use mathlib.Core.List.{append_assoc, append-nil}
use packet_inspector_windows.Cleartext.Fields.{
  CleartextRecord, redis_auth, auth, value, require, ◌>>=◌, is_digit, decimal, all_bytes, upper,
  find_crlf, read_decimal, decimal_line,
}
use packet_inspector_windows.Cleartext.Redis.{
  crlf, ends_bulk, bulk_string, auth_name, redis_material, credentials_of, command_records,
  array_step, redis_step, scan_redis, keep_argument, is_auth_name, resp_arguments, resp_command,
}
use packet_inspector_windows.Cleartext.Scan.{scan, scan_loop}
use packet_inspector_windows.Cleartext.Progress.{loop_takes}

ltb-false : (a b : ℕ) → b ≤ a → ltb a b ≡ false
ltb-false a b h = ground arith

length-upper : (data_bytes : Bytes) → length (upper data_bytes) ≡ length data_bytes
length-upper [] = refl
length-upper (b ∷ data_bytes) = omega (arith, length-upper data_bytes)

-- A decimal numeral of at most ten digits, which may start with zeros.
pub record IsNumeral (raw : Bytes) (n : ℕ) : Type 0 where
  pub digits : all_bytes is_digit raw ≡ true
  pub some_digit : is_nil raw ≡ false
  pub few : length raw ≤ 10
  pub worth : decimal 0 raw ≡ n

-- The arguments of a command, each with the numeral of its size, and what stands behind them.
abbrev pub arguments_text : List (Bytes × Bytes) → Bytes → Bytes
arguments_text [] behind = behind
arguments_text ((raw, argument) ∷ rest) behind =
    36 ∷ (raw ++ (13 ∷ 10 ∷ (argument ++ (13 ∷ 10 ∷ arguments_text rest behind))))

abbrev pub command_text : Bytes → List (Bytes × Bytes) → Bytes → Bytes
command_text raw arguments behind = 42 ∷ (raw ++ (13 ∷ 10 ∷ arguments_text arguments behind))

-- Where the arguments end that start at a position.
abbrev pub arguments_end : ℕ → List (Bytes × Bytes) → ℕ
arguments_end at [] = at
arguments_end at ((raw, argument) ∷ rest) =
    arguments_end (at + 1 + length raw + 2 + length argument + 2) rest

abbrev pub AreSized : List (Bytes × Bytes) → Type 0
AreSized [] = Unit
AreSized ((raw, argument) ∷ rest) =
    IsNumeral raw (length argument) × (length argument ≤ 8192) × AreSized rest

arguments_end-le : (at : ℕ) (arguments : List (Bytes × Bytes)) → at ≤ arguments_end at arguments
arguments_end-le at [] = omega arith
arguments_end-le at ((raw, argument) ∷ rest) =
    omega (arith, arguments_end-le (at + 1 + length raw + 2 + length argument + 2) rest)

-- A byte of the data, and what stands behind it.
at_byte :
    (data_bytes : Bytes) (i b : ℕ) (behind : Bytes)
    → drop i data_bytes ≡ b ∷ behind
    → (get_elem? data_bytes i ≡ some b) × (drop (i + 1) data_bytes ≡ behind)
at_byte [] zero b behind h = absurd (cc h)
at_byte [] (suc i) b behind h = absurd (cc h)
at_byte (c ∷ data_bytes) zero b behind h = (cc h, cc h)
at_byte (c ∷ data_bytes) (suc i) b behind h =
    let (first, rest) = at_byte data_bytes i b behind h in
    let next : suc i + 1 ≡ suc (i + 1) = omega arith in
    (first, ap (λ k. drop k (c ∷ data_bytes)) next ∙ rest)

at_bytes :
    (data_bytes : Bytes) (i j : ℕ) (run behind : Bytes)
    → j ≡ i + length run
    → drop i data_bytes ≡ run ++ behind
    → drop j data_bytes ≡ behind
at_bytes data_bytes i j [] behind e h = ap (λ k. drop k data_bytes) (omega (arith, e)) ∙ h
at_bytes data_bytes i j (b ∷ run) behind e h =
    at_bytes data_bytes (i + 1) j run behind (omega (arith, e)) (at_byte data_bytes i b _ h).1

take-run : (run behind : Bytes) → take (length run) (run ++ behind) ≡ run
take-run [] behind = refl
take-run (b ∷ run) behind = ap (λ bytes. b ∷ bytes) (take-run run behind)

slice-run :
    (data_bytes : Bytes) (i j : ℕ) (run behind : Bytes)
    → j ≡ i + length run
    → drop i data_bytes ≡ run ++ behind
    → slice data_bytes i j ≡ run
slice-run data_bytes i j run behind e h =
    let size : j - i ≡ length run = omega (arith, e) in rw (h, size) (take-run run behind)

-- The line end behind digits.
find_crlf-digits :
    (data_bytes : Bytes) (n i : ℕ) (raw behind : Bytes)
    → all_bytes is_digit raw ≡ true
    → length raw < n
    → drop i data_bytes ≡ raw ++ (13 ∷ 10 ∷ behind)
    → find_crlf n data_bytes i ≡ some (i + length raw)
unfolding find_crlf all_bytes
find_crlf-digits data_bytes zero i raw behind digits few h = absurd (omega arith)
find_crlf-digits data_bytes (suc n) i [] behind digits few h =
    let (first, rest) = at_byte data_bytes i 13 _ h in
    let (second, _) = at_byte data_bytes (i + 1) 10 _ rest in
    rw (first, second) (ap some (omega arith))
find_crlf-digits data_bytes (suc n) i (b ∷ raw) behind digits few h =
    let (digit, later) = and-true (is_digit b) (all_bytes is_digit raw) digits in
    let (first, rest) = at_byte data_bytes i b _ h in
    let other : (b == 13) ≡ false = ground arith in
    rw (first, other)
      (find_crlf-digits data_bytes n (i + 1) raw behind later (omega arith) rest
        ∙ ap some (omega arith))

decimal_line-numeral :
    (data_bytes : Bytes) (i : ℕ) (raw behind : Bytes) (n : ℕ)
    → IsNumeral raw n
    → drop i data_bytes ≡ raw ++ (13 ∷ 10 ∷ behind)
    → (decimal_line data_bytes i ≡ some (n, i + length raw + 2))
      × (drop (i + length raw + 2) data_bytes ≡ behind)
unfolding decimal_line ◌>>=◌ read_decimal require
decimal_line-numeral data_bytes i raw behind n num h =
    let found = find_crlf-digits data_bytes 12 i raw behind num.digits (omega (arith, num.few)) h in
    let ended = at_bytes data_bytes i (i + length raw) raw _ refl h in
    let (_, line_feed) = at_byte data_bytes (i + length raw) 13 _ ended in
    (
      rw
          (
            found,
            slice-run data_bytes i (i + length raw) raw _ refl h,
            num.some_digit,
            le→leb (length raw) 10 num.few,
            num.digits,
            num.worth,
          )
          refl,
      ap (λ k. drop k data_bytes) (omega arith)
          ∙ (at_byte data_bytes (i + length raw + 1) 10 _ line_feed).1,
    )

-- A bulk string behind its type byte.
bulk_string-text :
    (data_bytes : Bytes) (i : ℕ) (raw argument behind : Bytes)
    → IsNumeral raw (length argument)
    → drop i data_bytes ≡ raw ++ (13 ∷ 10 ∷ (argument ++ (13 ∷ 10 ∷ behind)))
    → let begin = i + length raw + 2 in
      (bulk_string data_bytes i ≡ some (length argument, begin))
      × (slice data_bytes begin (begin + length argument) ≡ argument)
      × (drop (begin + length argument + 2) data_bytes ≡ behind)
      × (begin + length argument + 2 ≤ length data_bytes)
unfolding bulk_string ◌>>=◌ require ends_bulk
bulk_string-text data_bytes i raw argument behind num h =
    let begin = i + length raw + 2 in
    let end = begin + length argument in
    let (line, body) = decimal_line-numeral data_bytes i raw _ (length argument) num h in
    let ended = at_bytes data_bytes begin end argument _ refl body in
    let left = at_bytes data_bytes end (end + 2) crlf behind refl ended in
    let inside : end + 2 ≤ length data_bytes =
      omega (arith, length-drop end data_bytes, ap length ended) in
    let line_end : eq_list (slice data_bytes end (end + 2)) crlf ≡ true =
      (eq_list_iff (slice data_bytes end (end + 2)) crlf).1
        (slice-run data_bytes end (end + 2) crlf behind refl ended) in
    (
      rw (line, le→leb (end + 2) (length data_bytes) inside, line_end) refl,
      slice-run data_bytes begin end argument _ refl body,
      left,
      inside,
    )

and_false : (b : Bool) → (b && false) ≡ false
and_false true = refl
and_false false = refl

resp_arguments-text :
    (data_bytes : Bytes) (start : ℕ) (first : Bool) (i : ℕ) (kept : List Bytes) (known : Bool)
    (arguments : List (Bytes × Bytes)) (behind : Bytes)
    → AreSized arguments
    → start ≤ i
    → arguments_end i arguments ≤ start + 32768
    → drop i data_bytes ≡ arguments_text arguments behind
    → resp_arguments (length arguments) data_bytes start first i (some kept) known
      ≡ some (record {
        end = arguments_end i arguments;
        arguments = some (kept ++ map (λ argument. argument.1) arguments);
        auth_limit = false;
      })
unfolding resp_arguments ◌>>=◌ require keep_argument
resp_arguments-text data_bytes start first i kept known [] behind sized le few h =
    rw (and_false known, append-nil kept) refl
resp_arguments-text data_bytes start first i kept known ((raw, argument) ∷ rest) behind sized le few
      h =
    let (num, short, later) = sized in
    let (tag, body) = at_byte data_bytes i 36 _ h in
    let (found, argument_bytes, left, _) =
      bulk_string-text data_bytes (i + 1) raw argument (arguments_text rest behind) num body in
    let end = i + 1 + length raw + 2 + length argument + 2 in
    let spent : end - start ≤ 32768 = omega (arith, few, le, arguments_end-le end rest) in
    let later_read =
      resp_arguments-text data_bytes start false end (kept ++ (argument ∷ []))
        (if first && leb (length argument) 5 then is_auth_name argument else known) rest behind
        later (omega (arith, le)) few left in
    let small : ltb 8192 (length argument) ≡ false = ground (arith, short) in
    let small_message : ltb 32768 (end - start) ≡ false = ltb-false 32768 (end - start) spent in
    rw (tag, found, argument_bytes, small, small_message) later_read
    ∙ ap
        (λ read.
          some (record { end = arguments_end end rest; arguments = some read; auth_limit = false }))
        (append_assoc kept (argument ∷ []) (map (λ argument. argument.1) rest))

-- The command is read back whole.
resp_command-text :
    (data_bytes : Bytes) (start : ℕ) (raw : Bytes) (arguments : List (Bytes × Bytes))
    (behind : Bytes)
    → IsNumeral raw (length arguments)
    → AreSized arguments
    → 1 ≤ length arguments
    → length arguments ≤ 128
    → let end = arguments_end (start + 1 + length raw + 2) arguments in
      end ≤ start + 32768
      → drop start data_bytes ≡ command_text raw arguments behind
      → (get_elem? data_bytes start ≡ some 42)
        × (resp_command data_bytes start
            ≡ some (record {
              end = end;
              arguments = some (map (λ argument. argument.1) arguments);
              auth_limit = false;
            }))
unfolding resp_command ◌>>=◌ require
resp_command-text data_bytes start raw arguments behind num sized some_arguments few size h =
    let (tag, body) = at_byte data_bytes start 42 _ h in
    let (line, left) =
      decimal_line-numeral data_bytes (start + 1) raw _ (length arguments) num body in
    (
      tag,
      rw (line, le→leb 1 (length arguments) some_arguments, le→leb (length arguments) 128 few)
          (resp_arguments-text data_bytes start true (start + 1 + length raw + 2) [] false arguments
            behind sized (omega arith) size left),
    )

redis_material-auth :
    (decode : Bytes → Option Text) (command username password : Bytes)
    → upper command ≡ auth_name
    → redis_material decode (command ∷ username ∷ password ∷ [])
      ≡ some (redis_auth auth (value decode username) (value decode password))
unfolding redis_material credentials_of ◌>>=◌
redis_material-auth decode command username password named =
    let signed : eq_list (upper command) auth_name ≡ true =
      (eq_list_iff (upper command) auth_name).1 named in
    rw signed refl

redis_step-auth :
    (decode : Bytes → Option Text) (data_bytes : Bytes) (end : ℕ)
    (command username password : Bytes)
    → upper command ≡ auth_name
    → get_elem? data_bytes 0 ≡ some 42
    → resp_command data_bytes 0
      ≡ some (record {
        end = end;
        arguments = some (command ∷ username ∷ password ∷ []);
        auth_limit = false;
      })
    → redis_step decode data_bytes 0
      ≡ some (
        end,
        record {
          start = 0;
          end = end;
          material = redis_auth auth (value decode username) (value decode password);
          limitations = [];
        }
            ∷ [],
      )
unfolding redis_step array_step command_records ◌>>=◌
redis_step-auth decode data_bytes end command username password named tag found =
    rw (tag, found, redis_material-auth decode command username password named) refl

-- The RESP text of AUTH, in any letter case, with a user name and a password, each of at most 8192
-- bytes and with its size as a numeral of at most ten digits, the whole of at most 32768 bytes: where
-- it starts the data, whatever stands behind it, the first record of `scan_redis` covers exactly that
-- text and holds the user name and the password.
pub scan_redis-command_text :
    (decode : Bytes → Option Text) (raw command_raw username_raw password_raw : Bytes)
    (command username password behind : Bytes)
    → upper command ≡ auth_name
    → IsNumeral raw 3
    → IsNumeral command_raw (length command)
    → IsNumeral username_raw (length username)
    → IsNumeral password_raw (length password)
    → length username ≤ 8192
    → length password ≤ 8192
    → let arguments : List (Bytes × Bytes) =
        (command_raw, command) ∷ (username_raw, username) ∷ (password_raw, password) ∷ [] in
      let end = arguments_end (1 + length raw + 2) arguments in
      end ≤ 32768
      → (later : List CleartextRecord) × (stop : ℕ) × (scan_redis decode
            (command_text raw arguments behind)
          ≡ (
            record {
              start = 0;
              end = end;
              material = redis_auth auth (value decode username) (value decode password);
              limitations = [];
            }
                ∷ later,
            stop,
          ))
unfolding scan_redis scan
scan_redis-command_text decode raw command_raw username_raw password_raw command username password
      behind named num num₀ num₁ num₂ short₁ short₂ size =
    let arguments : List (Bytes × Bytes) =
      (command_raw, command) ∷ (username_raw, username) ∷ (password_raw, password) ∷ [] in
    let text = command_text raw arguments behind in
    let end = arguments_end (1 + length raw + 2) arguments in
    let (tag, found) =
      resp_command-text text 0 raw arguments behind num
        ((num₀, command_short, (num₁, short₁, (num₂, short₂, tt)))) (omega arith) (omega arith)
        (omega (arith, size)) refl in
    let n = length (raw ++ (13 ∷ 10 ∷ arguments_text arguments behind)) in
    let later = scan_loop n (redis_step decode) text end in
    (
      later.0,
      later.1,
      loop_takes (redis_step decode) n text 0 _ (omega arith)
          (redis_step-auth decode text end command username password named tag found),
    )
  where
    command_short : length command ≤ 8192
    command_short = omega (arith, ap length named, length-upper command)
