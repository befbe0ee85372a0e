-- ===== src/Http/Body.antt =====
-- `_chunked` as a whole: its result, and its fuel.
use packet_inspector_windows.Prelude.{
  ℕ, zero, suc, ◌+◌, ◌-◌, ◌≤◌, ◌≡◌, refl, ap, sym, ◌∙◌, List, [], ◌∷◌, ◌++◌, Bytes, arith, length,
  slice, length-append,
}
use packet_inspector_windows.Http.Chunks.{
  Span, Chunked, incomplete, refused, decoded, find, Head, answer, last, chunk, line_head, head_at,
  proceed, span_of, chunk_loop, chunked,
}
use packet_inspector_windows.Http.Spans.{
  IsBody, Meets, Refuses, IsHead, head_at-IsHead, last_chunk-Meets, wire_bytes, spans_bytes,
  spans_bytes-snoc, Consecutive-snoc, length-slice_in,
}

Refuses-Meets :
    (data_bytes : Bytes) (start : ℕ) (result : Chunked)
    → Refuses result
    → Meets data_bytes start result
Refuses-Meets data_bytes start incomplete h = tt
Refuses-Meets data_bytes start (refused problem) h = tt
Refuses-Meets data_bytes start (decoded body spans end) h = absurd h

-- One more chunk.
add_chunk :
    (data_bytes : Bytes) (at size start : ℕ) (body : Bytes) (spans : List Span)
    → start ≤ at
    → at + size + 2 ≤ length data_bytes
    → IsBody data_bytes start body spans
    → IsBody data_bytes start
        (body ++ slice data_bytes at (at + size))
        (spans ++ (span_of start at size body ∷ []))
add_chunk data_bytes at size start body spans le inside h =
    let s : Span = span_of start at size body in
    let taken = slice data_bytes at (at + size) in
    let place : start + (at - start) ≡ at = omega arith in
    let width : length body + size - length body ≡ size = omega arith in
    let same : wire_bytes data_bytes start s ≡ taken = rw (place, width) refl in
    let total : length body + size ≡ length (body ++ taken) = omega (
      arith,
      length-append body taken,
      length-slice_in data_bytes at size (omega (arith, inside)),
    ) in
    record {
      bytes =
          ap (λ bytes. bytes ++ taken) h.bytes
          ∙ ap (λ bytes. spans_bytes data_bytes start spans ++ bytes) (sym same)
          ∙ sym (spans_bytes-snoc data_bytes start spans s);
      ranges =
          rw (sym total) (Consecutive-snoc 0 (length body) spans s h.ranges refl (omega arith));
    }

proceed-Meets :
    (next : ℕ → ℕ → Chunked) (data_bytes : Bytes) (pos start limit : ℕ) (body : Bytes)
    (spans : List Span) (head : Head)
    → IsBody data_bytes start body spans
    → ((at size : ℕ)
        → IsHead data_bytes pos (chunk at size)
        → Meets data_bytes start (next at size))
    → IsHead data_bytes pos head
    → Meets data_bytes start (proceed next data_bytes start limit body spans head)
proceed-Meets next data_bytes pos start limit body spans (answer result) h k is_head =
    Refuses-Meets data_bytes start result is_head
proceed-Meets next data_bytes pos start limit body spans (last at) h k is_head =
    last_chunk-Meets data_bytes at start limit body spans h
proceed-Meets next data_bytes pos start limit body spans (chunk at size) h k is_head =
    k at size is_head

chunk_loop-Meets :
    (n : ℕ) (data_bytes : Bytes) (pos start limit : ℕ) (body : Bytes) (spans : List Span)
    → start ≤ pos
    → IsBody data_bytes start body spans
    → Meets data_bytes start (chunk_loop n data_bytes pos start limit body spans)
unfolding chunk_loop
chunk_loop-Meets zero data_bytes pos start limit body spans le h = tt
chunk_loop-Meets (suc n) data_bytes pos start limit body spans le h =
    proceed-Meets _ data_bytes pos start limit body spans
      (head_at data_bytes pos start limit (length spans)) h
      (λ at size (after, inside).
        chunk_loop-Meets n data_bytes (at + size + 2) start limit _ _ (omega (arith, le, after))
          (add_chunk data_bytes at size start body spans (omega (arith, le, after)) inside h))
      (head_at-IsHead data_bytes pos start limit (length spans))

proceed_same :
    (next next' : ℕ → ℕ → Chunked) (data_bytes : Bytes) (pos start limit : ℕ) (body : Bytes)
    (spans : List Span) (head : Head)
    → ((at size : ℕ) → IsHead data_bytes pos (chunk at size) → next at size ≡ next' at size)
    → IsHead data_bytes pos head
    → proceed next data_bytes start limit body spans head
      ≡ proceed next' data_bytes start limit body spans head
proceed_same next next' data_bytes pos start limit body spans (answer result) k is_head = refl
proceed_same next next' data_bytes pos start limit body spans (last at) k is_head = refl
proceed_same next next' data_bytes pos start limit body spans (chunk at size) k is_head =
    k at size is_head

nothing_left :
    (data_bytes : Bytes) (pos start limit taken : ℕ)
    → length data_bytes ≤ pos
    → head_at data_bytes pos start limit taken ≡ answer incomplete
unfolding head_at find line_head
nothing_left data_bytes pos start limit taken over =
    let none_left : length data_bytes - pos ≡ 0 = omega arith in rw none_left refl

-- A round for each byte that is left is enough.
chunk_loop-suc :
    (n : ℕ) (data_bytes : Bytes) (pos start limit : ℕ) (body : Bytes) (spans : List Span)
    → length data_bytes ≤ pos + n
    → chunk_loop (suc n) data_bytes pos start limit body spans
      ≡ chunk_loop n data_bytes pos start limit body spans
unfolding chunk_loop
chunk_loop-suc zero data_bytes pos start limit body spans enough =
    ap (proceed _ data_bytes start limit body spans)
      (nothing_left data_bytes pos start limit (length spans) (omega (arith, enough)))
chunk_loop-suc (suc n) data_bytes pos start limit body spans enough =
    proceed_same _ _ data_bytes pos start limit body spans
      (head_at data_bytes pos start limit (length spans))
      (λ at size (after, inside).
        chunk_loop-suc n data_bytes (at + size + 2) start limit _ _ (omega (arith, after, enough)))
      (head_at-IsHead data_bytes pos start limit (length spans))

chunk_loop_more :
    (more n : ℕ) (data_bytes : Bytes) (pos start limit : ℕ) (body : Bytes) (spans : List Span)
    → length data_bytes ≤ pos + n
    → chunk_loop (more + n) data_bytes pos start limit body spans
      ≡ chunk_loop n data_bytes pos start limit body spans
chunk_loop_more zero n data_bytes pos start limit body spans enough =
    ap (λ k. chunk_loop k data_bytes pos start limit body spans) (omega arith)
chunk_loop_more (suc more) n data_bytes pos start limit body spans enough =
    let next : suc more + n ≡ suc (more + n) = omega arith in
    rw next (
      chunk_loop-suc (more + n) data_bytes pos start limit body spans (omega (arith, enough))
      ∙ chunk_loop_more more n data_bytes pos start limit body spans enough)

-- On any data, where the chunks start no earlier than the message: what `_chunked` decodes is
-- exactly the bytes on the wire that its spans stand for, in order; the spans cover the body from its
-- first byte to its last without gap or overlap; and the end that it returns lies inside the data.
-- More rounds of its loop change nothing in the result.
pub chunked-Meets :
    (data_bytes : Bytes) (pos start limit more : ℕ)
    → start ≤ pos
    → Meets data_bytes start (chunked data_bytes pos start limit)
      × (chunk_loop (more + suc (length data_bytes)) data_bytes pos start limit [] []
          ≡ chunked data_bytes pos start limit)
unfolding chunked
chunked-Meets data_bytes pos start limit more le = (
  chunk_loop-Meets (suc (length data_bytes)) data_bytes pos start limit [] [] le
      (record { bytes = refl; ranges = refl }),
  chunk_loop_more more (suc (length data_bytes)) data_bytes pos start limit [] [] (omega arith),
)
