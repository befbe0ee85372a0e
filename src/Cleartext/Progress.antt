-- ===== src/Cleartext/Progress.antt =====
-- The cursor of a scan, and where its records stand, for any frames that move the cursor on.
use packet_inspector_windows.Prelude.{
  ℕ, zero, suc, ◌+◌, ◌≤◌, ◌<◌, ◌≡◌, refl, ap, sym, ◌⊎◌, inl, inr, true, false, Option, none, some,
  List, [], ◌∷◌, ◌++◌, Bytes, arith, length, length-append, ltb, Bool-cases, Option-cases,
}
use mathlib.Core.List.{append_assoc}
use packet_inspector_windows.Cleartext.Fields.{CleartextRecord}
use packet_inspector_windows.Cleartext.Scan.{Step, Scanned, scan_loop, scan}

-- Records that follow each other between two positions: each starts at or behind the end of the one
-- before, and covers a byte at least.
abbrev pub Tiled : ℕ → List CleartextRecord → ℕ → Type 0
Tiled from [] to = from ≤ to
Tiled from (r ∷ rest) to = (from ≤ r.start) × (r.start < r.end) × Tiled r.end rest to

pub Tiled-append :
    (from middle to : ℕ) (rs ss : List CleartextRecord)
    → Tiled from rs middle
    → Tiled middle ss to
    → Tiled from (rs ++ ss) to
Tiled-append from middle to [] [] h k = omega (arith, h, k)
Tiled-append from middle to [] (s ∷ ss) h (a, b, k) = (omega (arith, h, a), b, k)
Tiled-append from middle to (r ∷ rs) ss (a, b, h) k = (a, b, Tiled-append r.end middle to rs ss h k)

-- A round, where it takes a frame, moves the cursor on inside the data, and its records lie in that
-- frame.
pub record IsProgress (data_bytes : Bytes) (cursor : ℕ) (taken : Step) : Type 0 where
  pub moves : cursor < taken.0
  pub inside : taken.0 ≤ length data_bytes
  pub records : Tiled cursor taken.1 taken.0

-- What a scan has done when it returns: its cursor is behind the data, or at a frame that it does not
-- take, and the records stand in order up to that cursor.
pub record IsScan (step : Bytes → ℕ → Option Step) (data_bytes : Bytes) (from : ℕ)
    (result : Scanned) : Type 0 where
  pub inside : result.1 ≤ length data_bytes
  pub over : (result.1 ≡ length data_bytes) ⊎ (step data_bytes result.1 ≡ none)
  pub records : Tiled from result.0 result.1

module _ (step : Bytes → ℕ → Option Step) where
  -- The loop at a frame that it takes, and where it stops.
  pub loop_takes :
      (n : ℕ) (data_bytes : Bytes) (cursor : ℕ) (taken : Step)
      → cursor < length data_bytes
      → step data_bytes cursor ≡ some taken
      → let (later, end) = scan_loop n step data_bytes taken.0 in
        scan_loop (suc n) step data_bytes cursor ≡ (taken.1 ++ later, end)
  unfolding scan_loop
  loop_takes n data_bytes cursor taken within e =
      let left : ltb cursor (length data_bytes) ≡ true = ground arith in rw (left, e) refl

  loop_stops :
      (n : ℕ) (data_bytes : Bytes) (cursor : ℕ)
      → (length data_bytes ≤ cursor) ⊎ (step data_bytes cursor ≡ none)
      → scan_loop n step data_bytes cursor ≡ ([], cursor)
  unfolding scan_loop
  loop_stops zero data_bytes cursor h = refl
  loop_stops (suc n) data_bytes cursor (inl behind) =
      let over : ltb cursor (length data_bytes) ≡ false = ground arith in rw over refl
  loop_stops (suc n) data_bytes cursor (inr refused) = ground arith

module _ (step : Bytes → ℕ → Option Step)
    (progress : (data_bytes : Bytes) (cursor : ℕ) (taken : Step)
      → cursor < length data_bytes
      → step data_bytes cursor ≡ some taken
      → IsProgress data_bytes cursor taken) where
  pub scan_loop-IsScan :
      (n : ℕ) (data_bytes : Bytes) (cursor : ℕ)
      → cursor ≤ length data_bytes
      → length data_bytes ≤ cursor + n
      → IsScan step data_bytes cursor (scan_loop n step data_bytes cursor)
  unfolding scan_loop
  scan_loop-IsScan zero data_bytes cursor within enough = record {
    inside = within;
    over = inl (omega arith);
    records = omega arith;
  }
  scan_loop-IsScan (suc n) data_bytes cursor within enough =
      elim (Bool-cases (ltb cursor (length data_bytes))) [
        | inr behind ↦
            rw behind (record { inside = within; over = inl (ground arith); records = omega arith })
        | inl left ↦ elim (Option-cases (step data_bytes cursor)) [
          | inl refused ↦
              rw (left, refused)
                (record { inside = within; over = inr refused; records = omega arith })
          | inr (taken, e) ↦
              let p = progress data_bytes cursor taken (ground arith) e in
              let h =
                scan_loop-IsScan n data_bytes taken.0 p.inside (omega (arith, p.moves, enough)) in
              rw (left, e)
                (record {
                  inside = h.inside;
                  over = h.over;
                  records = Tiled-append cursor taken.0 _ taken.1 _ p.records h.records;
                })
        ]
      ]

  pub scan-IsScan : (data_bytes : Bytes) → IsScan step data_bytes 0 (scan step data_bytes)
  unfolding scan
  scan-IsScan data_bytes =
      scan_loop-IsScan (length data_bytes) data_bytes 0 (omega arith) (omega arith)

  -- More fuel than bytes changes nothing.
  scan_loop-suc :
      (n : ℕ) (data_bytes : Bytes) (cursor : ℕ)
      → length data_bytes ≤ cursor + n
      → scan_loop (suc n) step data_bytes cursor ≡ scan_loop n step data_bytes cursor
  unfolding scan_loop
  scan_loop-suc zero data_bytes cursor enough =
      let behind : ltb cursor (length data_bytes) ≡ false = ground arith in rw behind refl
  scan_loop-suc (suc n) data_bytes cursor enough =
      elim (Bool-cases (ltb cursor (length data_bytes))) [
        | inr behind ↦ rw behind refl
        | inl left ↦ elim (Option-cases (step data_bytes cursor)) [
          | inl refused ↦ rw (left, refused) refl
          | inr (taken, e) ↦
              let p = progress data_bytes cursor taken (ground arith) e in
              let same = scan_loop-suc n data_bytes taken.0 (omega (arith, p.moves, enough)) in
              rw (left, e, same) refl
        ]
      ]

  Tiled-le : (from to : ℕ) (rs : List CleartextRecord) → Tiled from rs to → from ≤ to
  Tiled-le from to [] h = h
  Tiled-le from to (r ∷ rs) (a, b, h) = omega (arith, a, b, Tiled-le r.end to rs h)

  module _
      (stable : (data_bytes more : Bytes) (cursor : ℕ) (taken : Step)
        → cursor < length data_bytes
        → step data_bytes cursor ≡ some taken
        → step (data_bytes ++ more) cursor ≡ some taken) where
    resume_taken :
        (n m : ℕ) (data_bytes more : Bytes) (cursor : ℕ) (taken : Step)
        → cursor < length data_bytes
        → step data_bytes cursor ≡ some taken
        → length data_bytes ≤ cursor + suc n
        → length (data_bytes ++ more) ≤ cursor + suc m
        → (let (records, stop) = scan_loop n step data_bytes taken.0 in
            let (later, end) = scan_loop m step (data_bytes ++ more) stop in
            scan_loop m step (data_bytes ++ more) taken.0 ≡ (records ++ later, end))
        → let (records, stop) = scan_loop (suc n) step data_bytes cursor in
          let (later, end) = scan_loop (suc m) step (data_bytes ++ more) stop in
          scan_loop (suc m) step (data_bytes ++ more) cursor ≡ (records ++ later, end)
    resume_taken n m data_bytes more cursor taken within e enough enough_more rest =
        let p = progress data_bytes cursor taken within e in
        let e' = stable data_bytes more cursor taken within e in
        let h = scan_loop-IsScan n data_bytes taken.0 p.inside (omega (arith, p.moves, enough)) in
        let same =
          scan_loop-suc m (data_bytes ++ more) (scan_loop n step data_bytes taken.0).1
            (omega (arith, p.moves, enough_more, Tiled-le taken.0 _ _ h.records)) in
        let now = loop_takes step n data_bytes cursor taken within e in
        let longer =
          loop_takes step m (data_bytes ++ more) cursor taken
            (omega (arith, within, length-append data_bytes more)) e' in
        let later =
          (scan_loop m step (data_bytes ++ more) (scan_loop n step data_bytes taken.0).1) in
        rw (now, longer, same, rest)
          (ap (λ rs. (rs, later.1))
            (sym (append_assoc taken.1 (scan_loop n step data_bytes taken.0).0 later.0)))

    -- Where the loop stands on the bytes so far, it goes on when more have come.
    scan_loop-resume :
        (n m : ℕ) (data_bytes more : Bytes) (cursor : ℕ)
        → cursor ≤ length data_bytes
        → length data_bytes ≤ cursor + n
        → length (data_bytes ++ more) ≤ cursor + m
        → let (records, stop) = scan_loop n step data_bytes cursor in
          let (later, end) = scan_loop m step (data_bytes ++ more) stop in
          scan_loop m step (data_bytes ++ more) cursor ≡ (records ++ later, end)
    scan_loop-resume zero m data_bytes more cursor within enough enough_more =
        rw (loop_stops step zero data_bytes cursor (inl (omega arith))) refl
    scan_loop-resume (suc n) zero data_bytes more cursor within enough enough_more =
        rw
          (loop_stops step (suc n) data_bytes cursor
            (inl (omega (arith, length-append data_bytes more))))
          refl
    scan_loop-resume (suc n) (suc m) data_bytes more cursor within enough enough_more =
        elim (Bool-cases (ltb cursor (length data_bytes))) [
          | inr behind ↦ rw (loop_stops step (suc n) data_bytes cursor (inl (ground arith))) refl
          | inl left ↦ elim (Option-cases (step data_bytes cursor)) [
            | inl refused ↦ rw (loop_stops step (suc n) data_bytes cursor (inr refused)) refl
            | inr (taken, e) ↦
                let p = progress data_bytes cursor taken (ground arith) e in
                resume_taken n m data_bytes more cursor taken (ground arith) e enough enough_more (
                  scan_loop-resume n m data_bytes more taken.0 p.inside
                    (omega (arith, p.moves, enough)) (omega (arith, p.moves, enough_more)))
          ]
        ]

    -- A scan of more bytes gives the records of the bytes so far, and then what the loop finds from
    -- its cursor on.
    pub scan-append :
        (data_bytes more : Bytes)
        → let (records, stop) = scan step data_bytes in
          let (later, end) =
            scan_loop (length (data_bytes ++ more)) step (data_bytes ++ more) stop in
          scan step (data_bytes ++ more) ≡ (records ++ later, end)
    unfolding scan
    scan-append data_bytes more =
        scan_loop-resume (length data_bytes) (length (data_bytes ++ more)) data_bytes more 0
          (omega arith) (omega arith) (omega arith)
