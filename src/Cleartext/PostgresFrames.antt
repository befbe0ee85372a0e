-- ===== src/Cleartext/PostgresFrames.antt =====
-- The frames of the PostgreSQL recognizers move the cursor on inside the data, and are found again
-- when more data has come.
use packet_inspector_windows.Prelude.{
  and-true, ℕ, ◌+◌, ◌-◌, ◌≤◌, ◌<◌, ◌≡◌, refl, ap, sym, ◌∙◌, Bool, true, false, ◌&&◌, inl, inr,
  Option, none, some, [], ◌∷◌, ◌++◌, Bytes, arith, length, get_elem?, slice, leb, ◌==◌, eq_list,
  eq_list_iff, length-append, leb→le, le→leb, ==_iff, Bool-cases,
}
use packet_inspector_windows.Cleartext.Fields.{◌>>=◌, is_byte}
use packet_inspector_windows.Cleartext.Postgres.{
  Frame, int_at, is_answer, is_refusal, is_startup, startup_frame, is_tagged, tagged_frame,
  frame_at, pg_frame,
}
use packet_inspector_windows.Cleartext.Prefix.{
  bind-some, require-some, require-value, get_elem?-prefix, slice-prefix,
}

is_startup-size :
    (size code : ℕ) (zero_at_end : Bool) → is_startup size code zero_at_end ≡ true → 0 < size
unfolding is_startup
is_startup-size size code zero_at_end h = ground arith

is_tagged-size :
    (backend : Bool) (tag size : ℕ) → is_tagged backend tag size ≡ true → size ≤ 16777216
unfolding is_tagged
is_tagged-size backend tag size h = ground arith

-- `NR` is no tag and length of a frame: the length would exceed its limit.
refusal_untagged :
    (data_bytes : Bytes) (backend : Bool) (tag : ℕ)
    → 5 ≤ length data_bytes
    → get_elem? data_bytes 1 ≡ some 82
    → is_tagged backend tag (int_at data_bytes 1 5) ≡ true
    → ⊥
refusal_untagged (a ∷ b ∷ c ∷ d ∷ e ∷ rest) backend tag h at tagged =
    let r : b ≡ 82 = cc at in omega (arith, is_tagged-size backend tag _ tagged, r)
refusal_untagged (a ∷ b ∷ c ∷ d ∷ []) backend tag h at tagged = absurd (omega arith)
refusal_untagged (a ∷ b ∷ c ∷ []) backend tag h at tagged = absurd (omega arith)
refusal_untagged (a ∷ b ∷ []) backend tag h at tagged = absurd (omega arith)
refusal_untagged (a ∷ []) backend tag h at tagged = absurd (omega arith)
refusal_untagged [] backend tag h at tagged = absurd (omega arith)

tagged_frame-valid :
    (data_bytes : Bytes) (backend : Bool) (cursor tag : ℕ) (frame : Frame)
    → tagged_frame backend data_bytes cursor tag ≡ some frame
    → is_tagged backend tag (int_at data_bytes (cursor + 1) (cursor + 5)) ≡ true
unfolding tagged_frame
tagged_frame-valid data_bytes backend cursor tag frame h =
    let size = int_at data_bytes (cursor + 1) (cursor + 5) in
    let (test, _) =
      require-value (is_tagged backend tag size && leb (cursor + 1 + size) (length data_bytes)) _
        frame h in
    (and-true (is_tagged backend tag size) (leb (cursor + 1 + size) (length data_bytes)) test).0

second_of :
    (data_bytes : Bytes) → slice data_bytes 0 2 ≡ 78 ∷ 82 ∷ [] → get_elem? data_bytes 1 ≡ some 82
second_of [] h = absurd (cc h)
second_of (a ∷ []) h = absurd (cc h)
second_of (a ∷ b ∷ rest) h = cc h

refusal_names :
    (data_bytes : Bytes) (cursor : ℕ)
    → is_refusal data_bytes cursor ≡ true
    → (cursor ≡ 0) × (get_elem? data_bytes 1 ≡ some 82)
unfolding is_refusal is_answer
refusal_names data_bytes cursor h =
    let size = int_at data_bytes 2 6 in
    let (first, rest) = and-true (cursor == 0 && leb 10 (length data_bytes - cursor)) _ h in
    let (_, answered) = and-true (leb (2 + size) (length data_bytes)) _ rest in
    let (named, _) = and-true (eq_list (slice data_bytes 0 2) (78 ∷ 82 ∷ [])) _ answered in
    (
      (==_iff cursor 0).0 (and-true (cursor == 0) _ first).0,
      second_of data_bytes ((eq_list_iff (slice data_bytes 0 2) (78 ∷ 82 ∷ [])).0 named),
    )

-- A frame that moves the cursor on inside the data.
pub record IsFrame (data_bytes : Bytes) (cursor : ℕ) (frame : Frame) (again : Option Frame)
    : Type 0 where
  pub moves : cursor < frame.end
  pub inside : frame.end ≤ length data_bytes
  pub stable : again ≡ some frame

module _ (data_bytes more : Bytes) where
  startup_frame-IsFrame :
      (cursor : ℕ) (frame : Frame)
      → cursor < length data_bytes
      → startup_frame data_bytes cursor ≡ some frame
      → IsFrame data_bytes cursor frame (startup_frame (data_bytes ++ more) cursor)
  unfolding startup_frame
  startup_frame-IsFrame cursor frame within h =
      let remaining = length data_bytes - cursor in
      let size = int_at data_bytes cursor (cursor + 4) in
      let code = int_at data_bytes (cursor + 4) (cursor + 8) in
      let last = is_byte 0 (get_elem? data_bytes (cursor + size - 1)) in
      let (test, same) =
        require-value ((leb 8 remaining && leb size remaining) && is_startup size code last) _ frame
          h in
      let (few, valid) =
        and-true (leb 8 remaining && leb size remaining) (is_startup size code last) test in
      let (eight, whole) = and-true (leb 8 remaining) (leb size remaining) few in
      let eight_bytes = leb→le 8 remaining eight in
      let size_left = leb→le size remaining whole in
      let end : cursor + size ≡ frame.end = ap (λ (f : Frame). f.end) same in
      let longer = length-append data_bytes more in
      let eight' =
        le→leb 8 (length (data_bytes ++ more) - cursor) (omega (arith, eight_bytes, longer)) in
      let whole' =
        le→leb size (length (data_bytes ++ more) - cursor) (omega (arith, size_left, longer)) in
      let positive = is_startup-size size code last valid in
      record {
        moves = omega (arith, end, positive);
        inside = omega (arith, end, size_left, within);
        stable =
            rw
              (
                slice-prefix data_bytes more cursor (cursor + 4) (omega (arith, eight_bytes)),
                slice-prefix data_bytes more (cursor + 4) (cursor + 8) (omega (arith, eight_bytes)),
                get_elem?-prefix data_bytes more (cursor + size - 1)
                    (omega (arith, size_left, within)),
                eight',
                whole',
                valid,
              )
              (ap some same);
      }

  tagged_frame-IsFrame :
      (backend : Bool) (cursor tag : ℕ) (frame : Frame)
      → 5 ≤ length data_bytes - cursor
      → tagged_frame backend data_bytes cursor tag ≡ some frame
      → IsFrame data_bytes cursor frame (tagged_frame backend (data_bytes ++ more) cursor tag)
  unfolding tagged_frame
  tagged_frame-IsFrame backend cursor tag frame within h =
      let size = int_at data_bytes (cursor + 1) (cursor + 5) in
      let (test, same) =
        require-value (is_tagged backend tag size && leb (cursor + 1 + size) (length data_bytes)) _
          frame h in
      let (valid, few) =
        and-true (is_tagged backend tag size) (leb (cursor + 1 + size) (length data_bytes)) test in
      let end : cursor + 1 + size ≡ frame.end = ap (λ (f : Frame). f.end) same in
      let inside = leb→le (cursor + 1 + size) (length data_bytes) few in
      let few' =
        le→leb (cursor + 1 + size) (length (data_bytes ++ more))
          (omega (arith, inside, length-append data_bytes more)) in
      record {
        moves = omega (arith, end);
        inside = omega (arith, end, inside);
        stable =
            rw
              (
                slice-prefix data_bytes more (cursor + 1) (cursor + 5) (omega (arith, within)),
                few',
                valid,
                slice-prefix data_bytes more (cursor + 5) (cursor + 1 + size) inside,
              )
              (ap some same);
      }

  -- A refusal is still one when more bytes have come.
  is_refusal-prefix :
      (cursor : ℕ)
      → is_refusal data_bytes cursor ≡ true
      → (cursor ≡ 0) × (10 ≤ length data_bytes) × (is_refusal (data_bytes ++ more) cursor ≡ true)
  unfolding is_refusal
  is_refusal-prefix cursor h =
      let longer = length-append data_bytes more in
      let size = int_at data_bytes 2 6 in
      let answer = is_answer (slice data_bytes 0 2) size in
      let (first, rest) =
        and-true (cursor == 0 && leb 10 (length data_bytes - cursor))
          (leb (2 + size) (length data_bytes) && answer) h in
      let (zero_first, ten) = and-true (cursor == 0) (leb 10 (length data_bytes - cursor)) first in
      let (whole, answered) = and-true (leb (2 + size) (length data_bytes)) answer rest in
      let at_start : cursor ≡ 0 = (==_iff cursor 0).0 zero_first in
      let ten_bytes = leb→le 10 (length data_bytes - cursor) ten in
      let size_left = leb→le (2 + size) (length data_bytes) whole in
      (
        at_start,
        omega (arith, ten_bytes),
        rw
            (
              slice-prefix data_bytes more 2 6 (omega (arith, ten_bytes)),
              slice-prefix data_bytes more 0 2 (omega (arith, ten_bytes)),
              zero_first,
              answered,
              le→leb 10 (length (data_bytes ++ more) - cursor) (omega (arith, ten_bytes, longer)),
              le→leb (2 + size) (length (data_bytes ++ more)) (omega (arith, size_left, longer)),
            )
            refl,
      )

  -- Where more bytes have not made a refusal of it, the frame is what it was.
  no_refusal :
      (backend : Bool) (cursor tag : ℕ) (frame : Frame)
      → 5 ≤ length data_bytes - cursor
      → tagged_frame backend data_bytes cursor tag ≡ some frame
      → is_refusal (data_bytes ++ more) cursor ≡ false
  no_refusal backend cursor tag frame within h =
      elim (Bool-cases (is_refusal (data_bytes ++ more) cursor)) [
        | inr plain ↦ plain
        | inl refused ↦
            let (at_start, second) = refusal_names (data_bytes ++ more) cursor refused in
            let tagged = tagged_frame-valid data_bytes backend cursor tag frame h in
            absurd (
              refusal_untagged data_bytes backend tag (omega (arith, within))
                (sym (get_elem?-prefix data_bytes more 1 (omega (arith, within))) ∙ second)
                (rw at_start at tagged))
      ]

  frame_at-IsFrame :
      (backend : Bool) (cursor tag : ℕ) (frame : Frame)
      → 5 ≤ length data_bytes - cursor
      → get_elem? data_bytes cursor ≡ some tag
      → frame_at backend data_bytes cursor tag ≡ some frame
      → IsFrame data_bytes cursor frame (frame_at backend (data_bytes ++ more) cursor tag)
  unfolding frame_at
  frame_at-IsFrame false cursor tag frame within at h = elim (Bool-cases (tag == 0)) [
    | inl startup ↦
        rw startup (startup_frame-IsFrame cursor frame (omega (arith, within)) (rw startup at h))
    | inr other ↦ rw other (tagged_frame-IsFrame false cursor tag frame within (rw other at h))
  ]
  frame_at-IsFrame true cursor tag frame within at h =
      elim (Bool-cases (is_refusal data_bytes cursor)) [
        | inl refused ↦
            let (at_start, ten_bytes, again) = is_refusal-prefix cursor refused in
            let same : some (record { end = 1; tag = 0; payload = [] }) ≡ some frame =
              rw refused at h in
            let end : 1 ≡ frame.end =
              ap (λ (o : Option Frame). elim o [ none ↦ 1 | some f ↦ f.end ]) same in
            record {
              moves = omega (arith, at_start, end);
              inside = omega (arith, end, ten_bytes);
              stable = rw again same;
            }
        | inr other ↦
            let tagged = rw other at h in
            let f = tagged_frame-IsFrame true cursor tag frame within tagged in
            record {
              moves = f.moves;
              inside = f.inside;
              stable = rw (no_refusal true cursor tag frame within tagged) f.stable;
            }
      ]

  pub pg_frame-IsFrame :
      (backend : Bool) (cursor : ℕ) (frame : Frame)
      → pg_frame backend data_bytes cursor ≡ some frame
      → IsFrame data_bytes cursor frame (pg_frame backend (data_bytes ++ more) cursor)
  unfolding pg_frame ◌>>=◌
  pg_frame-IsFrame backend cursor frame h =
      let (five, rest) = require-some (leb 5 (length data_bytes - cursor)) _ frame h in
      let within = leb→le 5 (length data_bytes - cursor) five in
      let (tag, at, found) = bind-some (get_elem? data_bytes cursor) _ frame rest in
      let f = frame_at-IsFrame backend cursor tag frame within at found in
      record {
        moves = f.moves;
        inside = f.inside;
        stable =
            rw
              (
                le→leb 5 (length (data_bytes ++ more) - cursor)
                    (omega (arith, within, length-append data_bytes more)),
                get_elem?-prefix data_bytes more cursor (omega (arith, within)),
                at,
              )
              f.stable;
      }
