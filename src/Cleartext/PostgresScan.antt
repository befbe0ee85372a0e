-- ===== src/Cleartext/PostgresScan.antt =====
-- `scan_postgres` and `scan_postgres_authentication`: the cursor, the records, and more data.
use packet_inspector_windows.Prelude.{
  ℕ, ◌+◌, ◌-◌, ◌<◌, ◌≡◌, refl, true, false, not, ◌&&◌, ◌||◌, inl, inr, Option, none, some, [], ◌∷◌,
  ◌++◌, Bytes, Text, arith, length, ltb, ◌==◌, is_some, Bool-cases,
}
use packet_inspector_windows.Cleartext.Fields.{max_field_bytes, ◌>>=◌}
use packet_inspector_windows.Cleartext.Scan.{Step, scan_loop}
use packet_inspector_windows.Cleartext.Postgres.{
  Frame, pg_frame, is_cleartext, is_md5, password_of, password_records, client_records, client_step,
  scan_postgres, request_of, server_records, request_record, server_step,
  scan_postgres_authentication,
}
use packet_inspector_windows.Cleartext.Prefix.{bind-some}
use packet_inspector_windows.Cleartext.Progress.{Tiled, IsScan, scan-IsScan, scan-append}
use packet_inspector_windows.Cleartext.PostgresFrames.{pg_frame-IsFrame}
use packet_inspector_windows.Cleartext.RedisFrames.{IsTaken, IsTaken-at}

password_records-Tiled :
    (decode : Bytes → Option Text) (method : Option ℕ) (start end : ℕ) (o : Option Bytes)
    → start < end
    → Tiled start (password_records decode method start end o) end
unfolding password_records
password_records-Tiled decode method start end none h = elim (Bool-cases (is_cleartext method)) [
  | inl clear ↦ rw clear (omega arith, h, omega arith)
  | inr other ↦ rw other (omega (arith, h))
]
password_records-Tiled decode none start end (some value_bytes) h =
    elim (Bool-cases (is_md5 value_bytes)) [
      | inl digest ↦ rw digest (omega (arith, h))
      | inr plain ↦ rw plain (omega arith, h, omega arith)
    ]
password_records-Tiled decode (some method) start end (some value_bytes) h =
    (omega arith, h, omega arith)

client_records-Tiled :
    (decode : Bytes → Option Text) (method : Option ℕ) (start : ℕ) (frame : Frame)
    → start < frame.end
    → Tiled start (client_records decode method start frame) frame.end
unfolding client_records
client_records-Tiled decode method start frame h =
    elim (Bool-cases (not (frame.tag == 112) || (is_some method && not (is_cleartext method)))) [
      | inl other ↦ rw other (omega (arith, h))
      | inr password ↦ elim (Bool-cases (ltb (max_field_bytes + 5) (frame.end - start - 1))) [
        | inl long ↦ rw (password, long) (omega arith, h, omega arith)
        | inr short ↦
            rw (password, short)
              (password_records-Tiled decode method start frame.end (password_of frame.payload) h)
      ]
    ]

request_record-Tiled :
    (start : ℕ) (frame : Frame)
    → start < frame.end
    → Tiled start (server_records start frame) frame.end
unfolding server_records
request_record-Tiled start frame h = elim (Bool-cases (frame.tag == 82)) [
  | inl request ↦ rw request (one (request_of frame.payload))
  | inr other ↦ rw other (omega (arith, h))
]
  where
    one : (o : Option _) → Tiled start (request_record start frame.end o ∷ []) frame.end
    one none = (omega arith, h, omega arith)
    one (some (method, name)) = (omega arith, h, omega arith)

client_step-IsTaken :
    (data_bytes more : Bytes) (decode : Bytes → Option Text) (method : Option ℕ) (cursor : ℕ)
    (taken : Step)
    → client_step decode method data_bytes cursor ≡ some taken
    → IsTaken data_bytes cursor taken (client_step decode method (data_bytes ++ more) cursor)
unfolding client_step ◌>>=◌
client_step-IsTaken data_bytes more decode method cursor taken h =
    let (frame, found, given) = bind-some (pg_frame false data_bytes cursor) _ taken h in
    let f = pg_frame-IsFrame data_bytes more false cursor frame found in
    IsTaken-at data_bytes more _ taken (cc given) (rw f.stable refl) (record {
      moves = f.moves;
      inside = f.inside;
      records = client_records-Tiled decode method cursor frame f.moves;
    })

server_step-IsTaken :
    (data_bytes more : Bytes) (cursor : ℕ) (taken : Step)
    → server_step data_bytes cursor ≡ some taken
    → IsTaken data_bytes cursor taken (server_step (data_bytes ++ more) cursor)
unfolding server_step ◌>>=◌
server_step-IsTaken data_bytes more cursor taken h =
    let (frame, found, given) = bind-some (pg_frame true data_bytes cursor) _ taken h in
    let f = pg_frame-IsFrame data_bytes more true cursor frame found in
    IsTaken-at data_bytes more _ taken (cc given) (rw f.stable refl) (record {
      moves = f.moves;
      inside = f.inside;
      records = request_record-Tiled cursor frame f.moves;
    })

-- Whatever bytes they are given, `scan_postgres` and `scan_postgres_authentication` return a cursor
-- inside them: either all bytes are taken, or no frame is recognized at the cursor. The records
-- stand in order, each covers a byte at least, none overlaps another, and none reaches behind the
-- cursor.
pub scan_postgres-IsScan :
    (decode : Bytes → Option Text) (method : Option ℕ) (data_bytes : Bytes)
    → IsScan (client_step decode method) data_bytes 0 (scan_postgres decode method data_bytes)
      × IsScan server_step data_bytes 0 (scan_postgres_authentication data_bytes)
unfolding scan_postgres scan_postgres_authentication
scan_postgres-IsScan decode method data_bytes = (
  scan-IsScan (client_step decode method)
      (λ bytes cursor taken _ e.
        (client_step-IsTaken bytes [] decode method cursor taken e).progress)
      data_bytes,
  scan-IsScan server_step
      (λ bytes cursor taken _ e. (server_step-IsTaken bytes [] cursor taken e).progress) data_bytes,
)

-- When more bytes have come, `scan_postgres` gives the records that it gave on the bytes so far, and
-- behind them those that its loop finds from the cursor on that it returned then; so does
-- `scan_postgres_authentication`, although it reads a first byte N by what stands behind it.
pub scan_postgres-append :
    (decode : Bytes → Option Text) (method : Option ℕ) (data_bytes more : Bytes)
    → (let (records, stop) = scan_postgres decode method data_bytes in
        let (later, end) =
          scan_loop
            (length (data_bytes ++ more))
            (client_step decode method)
            (data_bytes ++ more)
            stop in
        scan_postgres decode method (data_bytes ++ more) ≡ (records ++ later, end))
      × (let (records, stop) = scan_postgres_authentication data_bytes in
          let (later, end) =
            scan_loop (length (data_bytes ++ more)) server_step (data_bytes ++ more) stop in
          scan_postgres_authentication (data_bytes ++ more) ≡ (records ++ later, end))
unfolding scan_postgres scan_postgres_authentication
scan_postgres-append decode method data_bytes more = (
  scan-append (client_step decode method)
      (λ bytes cursor taken _ e.
        (client_step-IsTaken bytes [] decode method cursor taken e).progress)
      (λ bytes rest cursor taken _ e.
        (client_step-IsTaken bytes rest decode method cursor taken e).stable)
      data_bytes more,
  scan-append server_step
      (λ bytes cursor taken _ e. (server_step-IsTaken bytes [] cursor taken e).progress)
      (λ bytes rest cursor taken _ e. (server_step-IsTaken bytes rest cursor taken e).stable)
      data_bytes more,
)
