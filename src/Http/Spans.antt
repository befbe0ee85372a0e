-- ===== src/Http/Spans.antt =====
-- What `_chunked` decodes: the body is the bytes that its spans stand for.
use packet_inspector_windows.Prelude.{
  ℕ, zero, suc, ◌+◌, ◌-◌, ◌≤◌, ◌≡◌, refl, ap, sym, ◌∙◌, true, ◌||◌, inl, inr, Option, none, some,
  List, [], ◌∷◌, ◌++◌, Bytes, arith, length, slice, drop, ltb, leb, eq_list, eq_list_iff,
  length-take, length-drop, Bool-cases, Option-cases,
}
use mathlib.Core.List.{append_assoc, append-nil}
use packet_inspector_windows.Http.Chunks.{
  Span, Chunked, incomplete, refused, decoded, crlf, blank_line, find, chunk_size, before_extension,
  Head, answer, last, chunk, data_head, size_head, line_head, head_at, trailers, last_chunk,
}

-- The bytes on the wire that a span stands for.
abbrev pub wire_bytes : Bytes → ℕ → Span → Bytes
wire_bytes data_bytes start s =
    slice data_bytes (start + s.wire) (start + s.wire + (s.right - s.left))

abbrev pub spans_bytes : Bytes → ℕ → List Span → Bytes
spans_bytes data_bytes start [] = []
spans_bytes data_bytes start (s ∷ rest) =
    wire_bytes data_bytes start s ++ spans_bytes data_bytes start rest

-- The spans follow each other from one position of the body to another.
abbrev pub Consecutive : ℕ → List Span → ℕ → Type 0
Consecutive from [] to = from ≡ to
Consecutive from (s ∷ rest) to = (s.left ≡ from) × (s.left ≤ s.right) × Consecutive s.right rest to

pub record IsBody (data_bytes : Bytes) (start : ℕ) (body : Bytes) (spans : List Span) : Type 0 where
  pub bytes : body ≡ spans_bytes data_bytes start spans
  pub ranges : Consecutive 0 spans (length body)

-- A result that is a body is the body of its spans, and ends inside the data.
abbrev pub Meets : Bytes → ℕ → Chunked → Type 0
Meets data_bytes start incomplete = Unit
Meets data_bytes start (refused problem) = Unit
Meets data_bytes start (decoded body spans end) =
    IsBody data_bytes start body spans × (end ≤ length data_bytes)

pub spans_bytes-snoc :
    (data_bytes : Bytes) (start : ℕ) (spans : List Span) (s : Span)
    → spans_bytes data_bytes start (spans ++ (s ∷ []))
      ≡ spans_bytes data_bytes start spans ++ wire_bytes data_bytes start s
spans_bytes-snoc data_bytes start [] s = append-nil (wire_bytes data_bytes start s)
spans_bytes-snoc data_bytes start (first ∷ spans) s =
    ap (λ bytes. wire_bytes data_bytes start first ++ bytes)
      (spans_bytes-snoc data_bytes start spans s)
    ∙ sym (append_assoc (wire_bytes data_bytes start first) (spans_bytes data_bytes start spans) _)

pub Consecutive-snoc :
    (from to : ℕ) (spans : List Span) (s : Span)
    → Consecutive from spans to
    → s.left ≡ to
    → s.left ≤ s.right
    → Consecutive from (spans ++ (s ∷ [])) s.right
Consecutive-snoc from to [] s h at le = (at ∙ sym h, le, refl)
Consecutive-snoc from to (first ∷ spans) s (a, b, h) at le =
    (a, b, Consecutive-snoc first.right to spans s h at le)

length-slice_le : (xs : Bytes) (i j : ℕ) → length (slice xs i j) ≤ length xs - i
length-slice_le xs i j = omega (arith, length-take (j - i) (drop i xs), length-drop i xs)

pub length-slice_in : (xs : Bytes) (i n : ℕ) → i + n ≤ length xs → length (slice xs i (i + n)) ≡ n
length-slice_in xs i n h = omega (arith, length-take (i + n - i) (drop i xs), length-drop i xs)

-- What stands at a position stands inside the data.
pattern_inside :
    (pattern_bytes data_bytes : Bytes) (i j n : ℕ)
    → length pattern_bytes ≡ suc n
    → eq_list (slice data_bytes i j) pattern_bytes ≡ true
    → i + suc n ≤ length data_bytes
pattern_inside pattern_bytes data_bytes i j n size h = omega (
  arith,
  length-slice_le data_bytes i j,
  ap length ((eq_list_iff (slice data_bytes i j) pattern_bytes).0 h),
  size,
)

find_inside :
    (pattern_bytes : Bytes) (size n : ℕ) (data_bytes : Bytes) (i found : ℕ)
    → length pattern_bytes ≡ suc size
    → find pattern_bytes n data_bytes i ≡ some found
    → (i ≤ found) × (found + suc size ≤ length data_bytes)
unfolding find
find_inside pattern_bytes size zero data_bytes i found e h = absurd (cc h)
find_inside pattern_bytes size (suc n) data_bytes i found e h =
    elim (Bool-cases (eq_list (slice data_bytes i (i + length pattern_bytes)) pattern_bytes)) [
      | inl here ↦
          let same : some i ≡ some found = rw here at h in
          let equal : i ≡ found = cc same in
          let inside =
            pattern_inside pattern_bytes data_bytes i (i + length pattern_bytes) size e here in
          (omega (arith, equal), omega (arith, equal, inside))
      | inr later ↦
          let (after, inside) =
            find_inside pattern_bytes size n data_bytes (i + 1) found e (rw later at h) in
          (omega (arith, after), inside)
    ]

-- What a round finds stands behind its position, and a chunk stands whole in the data.
abbrev pub Refuses : Chunked → Type 0
Refuses (decoded body spans end) = ⊥
Refuses _ = Unit

abbrev pub IsHead : Bytes → ℕ → Head → Type 0
IsHead data_bytes pos (answer result) = Refuses result
IsHead data_bytes pos (last at) = pos ≤ at
IsHead data_bytes pos (chunk at size) = (pos ≤ at) × (at + size + 2 ≤ length data_bytes)

data_head-IsHead :
    (data_bytes : Bytes) (from pos start limit size : ℕ)
    → from ≤ pos
    → IsHead data_bytes from (data_head data_bytes pos start limit size)
unfolding data_head
data_head-IsHead data_bytes from pos start limit size le =
    elim (Bool-cases (ltb limit (pos + size + 2 - start))) [
      | inl large ↦ rw large tt
      | inr small ↦ elim (Bool-cases (ltb (length data_bytes) (pos + size + 2))) [
        | inl short ↦ rw (small, short) tt
        | inr whole ↦
            elim (Bool-cases (eq_list (slice data_bytes (pos + size) (pos + size + 2)) crlf)) [
              | inl ended ↦ rw (small, whole, ended) (le, ground arith)
              | inr open_end ↦ rw (small, whole, open_end) tt
            ]
      ]
    ]

size_head-IsHead :
    (data_bytes : Bytes) (from pos start limit : ℕ) (size : Option ℕ)
    → from ≤ pos
    → IsHead data_bytes from (size_head data_bytes pos start limit size)
unfolding size_head
size_head-IsHead data_bytes from pos start limit none le = tt
size_head-IsHead data_bytes from pos start limit (some zero) le = le
size_head-IsHead data_bytes from pos start limit (some (suc size)) le =
    data_head-IsHead data_bytes from pos start limit (suc size) le

pub head_at-IsHead :
    (data_bytes : Bytes) (pos start limit taken : ℕ)
    → IsHead data_bytes pos (head_at data_bytes pos start limit taken)
unfolding head_at line_head
head_at-IsHead data_bytes pos start limit taken =
    elim (Option-cases (find crlf (length data_bytes - pos) data_bytes pos)) [
      | inl missing ↦ rw missing tt
      | inr (line_end, found) ↦
          let (after, _) =
            find_inside crlf 1 (length data_bytes - pos) data_bytes pos line_end refl found in
          elim (Bool-cases (ltb 1024 (line_end - pos) || leb 4096 taken)) [
            | inl many ↦ rw (found, many) tt
            | inr few ↦
                rw (found, few)
                  (size_head-IsHead data_bytes pos (line_end + 2) start limit
                    (chunk_size (before_extension (slice data_bytes pos line_end)))
                    (omega (arith, after)))
          ]
    ]

pub last_chunk-Meets :
    (data_bytes : Bytes) (pos start limit : ℕ) (body : Bytes) (spans : List Span)
    → IsBody data_bytes start body spans
    → Meets data_bytes start (last_chunk data_bytes pos start limit body spans)
unfolding last_chunk trailers
last_chunk-Meets data_bytes pos start limit body spans h =
    elim (Bool-cases (eq_list (slice data_bytes pos (pos + 2)) crlf)) [
      | inl ended ↦ rw ended (h, pattern_inside crlf data_bytes pos (pos + 2) 1 refl ended)
      | inr more ↦ elim (Option-cases (find blank_line (length data_bytes - pos) data_bytes pos)) [
        | inl missing ↦ rw (more, missing) tt
        | inr (trailers_end, found) ↦
            let (_, inside) =
              find_inside blank_line 3 (length data_bytes - pos) data_bytes pos trailers_end refl
                found in
            elim (Bool-cases (ltb limit (trailers_end + 4 - start))) [
              | inl large ↦ rw (more, found, large) tt
              | inr small ↦ rw (more, found, small) (h, inside)
            ]
      ]
    ]
