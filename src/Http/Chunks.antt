-- ===== src/Http/Chunks.antt =====
-- packet_audit/http_forms.py, `_chunked`: the body of a chunked message.
use packet_inspector_windows.Prelude.{
  ℕ, zero, suc, ◌+◌, ◌*◌, ◌-◌, not, ◌&&◌, ◌||◌, Option, none, some, List, [], ◌∷◌, ◌++◌, Bytes,
  length, slice, ltb, leb, ◌==◌, is_nil, eq_list, if◌then◌else◌,
}

pub data Problem : Type 0 where
  chunk_limit invalid_chunk body_limit : Problem

-- A range of the decoded body, and where it starts on the wire.
pub record Span : Type 0 where
  pub left : ℕ
  pub right : ℕ
  pub wire : ℕ

-- `None`, the name of a problem, or the body with its spans and its end.
pub data Chunked : Type 0 where
  incomplete : Chunked
  refused : Problem → Chunked
  decoded : Bytes → List Span → ℕ → Chunked

-- `data.find(pattern, i)`, on the number of positions that are left.
unfoldable pub find : Bytes → ℕ → Bytes → ℕ → Option ℕ
unfolding eq_list
find pattern zero data_bytes i = none
find pattern (suc n) data_bytes i =
    if eq_list (slice data_bytes i (i + length pattern)) pattern
    then some i
    else find pattern n data_bytes (i + 1)

abbrev pub crlf : Bytes
crlf = 13 ∷ 10 ∷ []

abbrev pub blank_line : Bytes
blank_line = 13 ∷ 10 ∷ 13 ∷ 10 ∷ []

-- `split(b";", 1)[0]`
unfoldable pub before_extension : Bytes → Bytes
before_extension [] = []
before_extension (b ∷ rest) = if b == 59 then [] else b ∷ before_extension rest

abbrev hex_value : ℕ → Option ℕ
hex_value b =
    if leb 48 b && leb b 57
    then some (b - 48)
    else if leb 65 b && leb b 70
    then some (b - 55)
    else if leb 97 b && leb b 102
    then some (b - 87)
    else none

-- The number of a text of hexadecimal digits.
unfoldable pub hexadecimal : ℕ → Bytes → Option ℕ
hexadecimal high [] = some high
hexadecimal high (b ∷ rest) = elim (hex_value b) [
  | none ↦ none
  | some digit ↦ hexadecimal (high * 16 + digit) rest
]

-- `re.fullmatch(rb"[0-9A-Fa-f]{1,8}", length_text)` and `int(length_text, 16)`
unfoldable pub chunk_size : Bytes → Option ℕ
unfolding hexadecimal
chunk_size text = if not (is_nil text) && leb (length text) 8 then hexadecimal 0 text else none

-- What a round finds at `pos`: an answer, the last chunk, or a chunk of data.
pub data Head : Type 0 where
  answer : Chunked → Head
  last : ℕ → Head
  chunk : ℕ → ℕ → Head

unfoldable pub data_head : Bytes → ℕ → ℕ → ℕ → ℕ → Head
unfolding eq_list
data_head data_bytes pos start limit size =
    if ltb limit (pos + size + 2 - start)
    then answer (refused body_limit)
    else if ltb (length data_bytes) (pos + size + 2)
    then answer incomplete
    else if eq_list (slice data_bytes (pos + size) (pos + size + 2)) crlf
    then chunk pos size
    else answer (refused invalid_chunk)

unfoldable pub size_head : Bytes → ℕ → ℕ → ℕ → Option ℕ → Head
unfolding data_head
size_head data_bytes pos start limit none = answer (refused invalid_chunk)
size_head data_bytes pos start limit (some zero) = last pos
size_head data_bytes pos start limit (some (suc size)) =
    data_head data_bytes pos start limit (suc size)

unfoldable pub line_head : Bytes → ℕ → ℕ → ℕ → ℕ → Option ℕ → Head
unfolding size_head chunk_size before_extension
line_head data_bytes pos start limit taken none = answer incomplete
line_head data_bytes pos start limit taken (some line_end) =
    if ltb 1024 (line_end - pos) || leb 4096 taken
    then answer (refused chunk_limit)
    else size_head data_bytes (line_end + 2) start limit
        (chunk_size (before_extension (slice data_bytes pos line_end)))

unfoldable pub head_at : Bytes → ℕ → ℕ → ℕ → ℕ → Head
unfolding line_head find
head_at data_bytes pos start limit taken =
    line_head data_bytes pos start limit taken (find crlf (length data_bytes - pos) data_bytes pos)

-- Behind the last chunk: a blank line, or trailers.
unfoldable pub trailers : ℕ → ℕ → Bytes → List Span → Option ℕ → Chunked
trailers start limit body spans none = incomplete
trailers start limit body spans (some trailers_end) =
    if ltb limit (trailers_end + 4 - start)
    then refused body_limit
    else decoded body spans (trailers_end + 4)

unfoldable pub last_chunk : Bytes → ℕ → ℕ → ℕ → Bytes → List Span → Chunked
unfolding trailers find eq_list
last_chunk data_bytes pos start limit body spans =
    if eq_list (slice data_bytes pos (pos + 2)) crlf
    then decoded body spans (pos + 2)
    else trailers start limit body spans (find blank_line (length data_bytes - pos) data_bytes pos)

-- What a round does with its head; `next` goes on behind a chunk.
abbrev pub proceed : (ℕ → ℕ → Chunked) → Bytes → ℕ → ℕ → Bytes → List Span → Head → Chunked
proceed next data_bytes start limit body spans (answer result) = result
proceed next data_bytes start limit body spans (last at) =
    last_chunk data_bytes at start limit body spans
proceed next data_bytes start limit body spans (chunk at size) = next at size

-- The span of a chunk behind a body.
abbrev pub span_of : ℕ → ℕ → ℕ → Bytes → Span
span_of start at size body = record {
  left = length body;
  right = length body + size;
  wire = at - start;
}

-- The loop, on fuel: a chunk takes three bytes at least.
unfoldable pub chunk_loop : ℕ → Bytes → ℕ → ℕ → ℕ → Bytes → List Span → Chunked
unfolding head_at
chunk_loop zero data_bytes pos start limit body spans = incomplete
chunk_loop (suc n) data_bytes pos start limit body spans =
    proceed
      (λ at size.
        chunk_loop n data_bytes (at + size + 2) start limit
          (body ++ slice data_bytes at (at + size)) (spans ++ (span_of start at size body ∷ [])))
      data_bytes start limit body spans (head_at data_bytes pos start limit (length spans))

-- `_chunked`
unfoldable pub chunked : Bytes → ℕ → ℕ → ℕ → Chunked
unfolding chunk_loop
chunked data_bytes pos start limit =
    chunk_loop (suc (length data_bytes)) data_bytes pos start limit [] []
