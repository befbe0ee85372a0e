-- ===== src/Cleartext/RedisFrames.antt =====
-- The frames of the Redis recognizer move the cursor on inside the data, and are found again when
-- more data has come.
use packet_inspector_windows.Prelude.{
  ℕ, zero, suc, ◌+◌, ◌-◌, ◌≤◌, ◌<◌, ◌≡◌, refl, ap, sym, subst, ◌∙◌, Bool, true, false, ◌&&◌, ◌||◌,
  inl, inr, Option, none, some, List, [], ◌∷◌, ◌++◌, Bytes, Text, arith, length, get_elem?, slice,
  leb, is_some, length-append, Bool-cases,
}
use packet_inspector_windows.Cleartext.Fields.{
  Material, max_resp_arguments, ◌>>=◌, is_byte, upper, find_crlf, decimal_line,
}
use packet_inspector_windows.Cleartext.Scan.{Step, scan_loop}
use packet_inspector_windows.Cleartext.Redis.{
  RespCommand, bulk_string, resp_arguments, resp_command, starts_auth, strip_left, unless_auth,
  is_auth, redis_material, material_records, limit_records, command_records, array_step, bulk_step,
  inline_records, inline_step, redis_step, scan_redis,
}
use packet_inspector_windows.Cleartext.Prefix.{
  bind-some, require-some, require-value, get_elem?-prefix, slice-prefix, find_crlf-prefix,
  decimal_line-prefix, bulk_string-prefix,
}
use packet_inspector_windows.Cleartext.Progress.{
  Tiled, Tiled-append, IsProgress, IsScan, scan-IsScan, scan-append,
}

-- A round that is taken moves the cursor on, and is taken again in longer data.
pub record IsTaken (data_bytes : Bytes) (cursor : ℕ) (taken : Step) (again : Option Step)
    : Type 0 where
  pub progress : IsProgress data_bytes cursor taken
  pub stable : again ≡ some taken

unless_auth-Tiled :
    (start end : ℕ) (arguments : List Bytes)
    → start < end
    → Tiled start (unless_auth start end arguments) end
unless_auth-Tiled start end [] h = omega (arith, h)
unless_auth-Tiled start end (command ∷ rest) h = elim (Bool-cases (is_auth command)) [
  | inl signed ↦ rw signed (omega arith, h, omega arith)
  | inr other ↦ rw other (omega (arith, h))
]

material_records-Tiled :
    (start end : ℕ) (arguments : List Bytes) (o : Option Material)
    → start < end
    → Tiled start (material_records start end arguments o) end
material_records-Tiled start end arguments none h = unless_auth-Tiled start end arguments h
material_records-Tiled start end arguments (some material) h = (omega arith, h, omega arith)

command_records-Tiled :
    (decode : Bytes → Option Text) (start end : ℕ) (arguments : Option (List Bytes))
    → start < end
    → Tiled start (command_records decode start end arguments) end
unfolding command_records
command_records-Tiled decode start end none h = omega (arith, h)
command_records-Tiled decode start end (some arguments) h =
    material_records-Tiled start end arguments (redis_material decode arguments) h

array_records-Tiled :
    (decode : Bytes → Option Text) (start end : ℕ) (limit : Bool) (arguments : Option (List Bytes))
    → (limit && is_some arguments) ≡ false
    → start < end
    → Tiled start (limit_records start end limit ++ command_records decode start end arguments) end
array_records-Tiled decode start end false arguments e h =
    command_records-Tiled decode start end arguments h
array_records-Tiled decode start end true none e h =
    Tiled-append start end end (limit_records start end true)
      (command_records decode start end none) (omega arith, h, omega arith)
      (unfold command_records in omega arith)
array_records-Tiled decode start end true (some arguments) e h = absurd (cc e)

-- A command is marked as too large only where its arguments are dropped.
pub resp_arguments_dropped :
    (data_bytes : Bytes) (n start : ℕ) (first : Bool) (cursor : ℕ) (arguments : Option (List Bytes))
    (known : Bool) (command : RespCommand)
    → resp_arguments n data_bytes start first cursor arguments known ≡ some command
    → (command.auth_limit && is_some command.arguments) ≡ false
unfolding resp_arguments ◌>>=◌
resp_arguments_dropped data_bytes zero start first cursor arguments known command h =
    ap
      (λ (c : Option RespCommand). elim c [
        | none ↦ false
        | some d ↦ d.auth_limit && is_some d.arguments
      ])
      (sym h)
    ∙ ground arith
resp_arguments_dropped data_bytes (suc n) start first cursor arguments known command h =
    let (_, rest) = require-some (is_byte 36 (get_elem? data_bytes cursor)) _ command h in
    let (_, _, later) = bind-some (bulk_string data_bytes (cursor + 1)) _ command rest in
    resp_arguments_dropped data_bytes n start false _ _ _ command later

resp_command_dropped :
    (data_bytes : Bytes) (start : ℕ) (command : RespCommand)
    → resp_command data_bytes start ≡ some command
    → (command.auth_limit && is_some command.arguments) ≡ false
unfolding resp_command ◌>>=◌
resp_command_dropped data_bytes start command h =
    let ((count, cursor), _, rest) = bind-some (decimal_line data_bytes (start + 1)) _ command h in
    let (_, loop) = require-some (leb 1 count && leb count max_resp_arguments) _ command rest in
    resp_arguments_dropped data_bytes count start true cursor (some []) false command loop

module _ (data_bytes more : Bytes) where
  -- A round that gives one result.
  pub IsTaken-at :
      {cursor : ℕ} {again : Option Step} (result taken : Step)
      → result ≡ taken
      → again ≡ some result
      → IsProgress data_bytes cursor result
      → IsTaken data_bytes cursor taken again
  IsTaken-at {cursor} result taken same again progress = record {
    progress = subst (λ step. IsProgress data_bytes cursor step) same progress;
    stable = again ∙ ap some same;
  }

  resp_arguments-prefix :
      (n start : ℕ) (first : Bool) (cursor : ℕ) (arguments : Option (List Bytes)) (known : Bool)
      (command : RespCommand)
      → cursor ≤ length data_bytes
      → resp_arguments n data_bytes start first cursor arguments known ≡ some command
      → (cursor ≤ command.end)
        × (command.end ≤ length data_bytes)
        × (resp_arguments n (data_bytes ++ more) start first cursor arguments known ≡ some command)
  unfolding resp_arguments ◌>>=◌
  resp_arguments-prefix zero start first cursor arguments known command within h =
      let same : cursor ≡ command.end =
        ap (λ (c : Option RespCommand). elim c [ none ↦ cursor | some d ↦ d.end ]) h in
      (omega arith, omega arith, h)
  resp_arguments-prefix (suc n) start first cursor arguments known command within h =
      let (bulk, rest) = require-some (is_byte 36 (get_elem? data_bytes cursor)) _ command h in
      let ((size, begin), found, later) =
        bind-some (bulk_string data_bytes (cursor + 1)) _ command rest in
      let (after, inside, again) =
        bulk_string-prefix data_bytes more (cursor + 1) size begin found in
      let (on, end, last) =
        resp_arguments-prefix n start false (begin + size + 2) _ _ command inside later in
      (
        omega (arith, after, on),
        end,
        rw
            (
              get_elem?-prefix data_bytes more cursor (omega (arith, after, inside)),
              bulk,
              again,
              slice-prefix data_bytes more begin (begin + size) (omega (arith, inside)),
            )
            last,
      )

  resp_command-prefix :
      (start : ℕ) (command : RespCommand)
      → resp_command data_bytes start ≡ some command
      → (start < command.end)
        × (command.end ≤ length data_bytes)
        × (resp_command (data_bytes ++ more) start ≡ some command)
  unfolding resp_command ◌>>=◌
  resp_command-prefix start command h =
      let ((count, cursor), line, rest) =
        bind-some (decimal_line data_bytes (start + 1)) _ command h in
      let (few, loop) = require-some (leb 1 count && leb count max_resp_arguments) _ command rest in
      let (after, inside, again) =
        decimal_line-prefix data_bytes more (start + 1) count cursor line in
      let (on, end, last) =
        resp_arguments-prefix count start true cursor (some []) false command inside loop in
      (omega (arith, after, on), end, rw (again, few) last)

  array_step-IsTaken :
      (decode : Bytes → Option Text) (cursor : ℕ) (taken : Step)
      → array_step decode data_bytes cursor ≡ some taken
      → IsTaken data_bytes cursor taken (array_step decode (data_bytes ++ more) cursor)
  unfolding array_step ◌>>=◌
  array_step-IsTaken decode cursor taken h =
      let (command, found, given) = bind-some (resp_command data_bytes cursor) _ taken h in
      let (after, inside, again) = resp_command-prefix cursor command found in
      IsTaken-at _ taken (cc given) (rw again refl) (record {
        moves = after;
        inside = inside;
        records =
            array_records-Tiled decode cursor command.end command.auth_limit command.arguments
              (resp_command_dropped data_bytes cursor command found) after;
      })

  bulk_step-IsTaken :
      (cursor : ℕ) (taken : Step)
      → bulk_step data_bytes cursor ≡ some taken
      → IsTaken data_bytes cursor taken (bulk_step (data_bytes ++ more) cursor)
  unfolding bulk_step ◌>>=◌
  bulk_step-IsTaken cursor taken h =
      let ((size, begin), found, given) =
        bind-some (bulk_string data_bytes (cursor + 1)) _ taken h in
      let (after, inside, again) =
        bulk_string-prefix data_bytes more (cursor + 1) size begin found in
      IsTaken-at (begin + size + 2, []) taken (cc given) (rw again refl)
        (record { moves = omega (arith, after); inside = inside; records = omega (arith, after) })

  inline_records-Taken :
      (decode : Bytes → Option Text) (start end : ℕ) (line : Bytes) (o : Option (List Bytes))
      (taken : Step)
      → inline_records decode start end line o ≡ some taken
      → start < end
      → end ≤ length data_bytes
      → IsProgress data_bytes start taken
  unfolding inline_records
  inline_records-Taken decode start end line (some arguments) taken h lt le =
      subst (λ step. IsProgress data_bytes start step) (cc h)
        (record {
          moves = lt;
          inside = le;
          records = command_records-Tiled decode start end (some arguments) lt;
        })
  inline_records-Taken decode start end line none taken h lt le =
      let (_, same) = require-value (starts_auth (upper (strip_left line))) _ taken h in
      subst (λ step. IsProgress data_bytes start step) same
        (record { moves = lt; inside = le; records = (omega arith, lt, omega arith) })

  inline_step-IsTaken :
      (decode : Bytes → Option Text) (cursor : ℕ) (taken : Step)
      → inline_step decode data_bytes cursor ≡ some taken
      → IsTaken data_bytes cursor taken (inline_step decode (data_bytes ++ more) cursor)
  unfolding inline_step ◌>>=◌
  inline_step-IsTaken decode cursor taken h =
      let (end, found, given) =
        bind-some (find_crlf (length data_bytes - cursor) data_bytes cursor) _ taken h in
      let (after, _, inside, again) =
        find_crlf-prefix data_bytes more (length data_bytes - cursor)
          (length (data_bytes ++ more) - cursor) cursor end
          (omega (arith, length-append data_bytes more)) found in
      record {
        progress =
            inline_records-Taken decode cursor (end + 2) (slice data_bytes cursor end) _ taken given
              (omega (arith, after)) inside;
        stable = rw (again, slice-prefix data_bytes more cursor end (omega (arith, inside))) given;
      }

  redis_step-IsTaken :
      (decode : Bytes → Option Text) (cursor : ℕ) (taken : Step)
      → cursor < length data_bytes
      → redis_step decode data_bytes cursor ≡ some taken
      → IsTaken data_bytes cursor taken (redis_step decode (data_bytes ++ more) cursor)
  unfolding redis_step
  redis_step-IsTaken decode cursor taken within h =
      let tag = get_elem? data_bytes cursor in
      elim (Bool-cases (is_byte 42 tag)) [
        | inl array ↦
            rw (get_elem?-prefix data_bytes more cursor within, array)
              (array_step-IsTaken decode cursor taken (rw array at h))
        | inr single ↦ elim (Bool-cases (is_byte 36 tag || is_byte 33 tag || is_byte 61 tag)) [
          | inl bulk ↦
              rw (get_elem?-prefix data_bytes more cursor within, single, bulk)
                (bulk_step-IsTaken cursor taken (rw (single, bulk) at h))
          | inr inline ↦
              rw (get_elem?-prefix data_bytes more cursor within, single, inline)
                (inline_step-IsTaken decode cursor taken (rw (single, inline) at h))
        ]
      ]

-- Whatever bytes it is given, `scan_redis` returns a cursor inside them: either all bytes are taken,
-- or no frame is recognized at the cursor. The records stand in order, each covers a byte at least,
-- none overlaps another, and none reaches behind the cursor.
pub scan_redis-IsScan :
    (decode : Bytes → Option Text) (data_bytes : Bytes)
    → IsScan (redis_step decode) data_bytes 0 (scan_redis decode data_bytes)
unfolding scan_redis
scan_redis-IsScan decode data_bytes =
    scan-IsScan (redis_step decode)
      (λ bytes cursor taken within e.
        (redis_step-IsTaken bytes [] decode cursor taken within e).progress)
      data_bytes

-- When more bytes have come, `scan_redis` gives the records that it gave on the bytes so far, and
-- behind them those that its loop finds from the cursor on that it returned then.
pub scan_redis-append :
    (decode : Bytes → Option Text) (data_bytes more : Bytes)
    → let (records, stop) = scan_redis decode data_bytes in
      let (later, end) =
        scan_loop (length (data_bytes ++ more)) (redis_step decode) (data_bytes ++ more) stop in
      scan_redis decode (data_bytes ++ more) ≡ (records ++ later, end)
unfolding scan_redis
scan_redis-append decode data_bytes more =
    scan-append (redis_step decode)
      (λ bytes cursor taken within e.
        (redis_step-IsTaken bytes [] decode cursor taken within e).progress)
      (λ bytes rest cursor taken within e.
        (redis_step-IsTaken bytes rest decode cursor taken within e).stable)
      data_bytes more
