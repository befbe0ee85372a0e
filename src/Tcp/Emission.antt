-- ===== src/Tcp/Emission.antt =====
-- What `_drain` emits: the contiguous bytes at the head of the queue, once each and in order, with
-- provenance spans that tile the chunk.
use packet_inspector_windows.Prelude.{
  ℕ, suc, ◌+◌, ◌-◌, ◌≤◌, ◌<◌, ◌≡◌, refl, sym, ◌∙◌, ap, ◌⊎◌, inl, inr, Bool, true, false, none, some,
  List, [], ◌∷◌, ◌++◌, Bytes, arith, length, get_elem?, drop, ltb, leb, is_nil, Bool-cases,
  get_elem?-append, get_elem?_in, length-append,
}
use packet_inspector_windows.Models.{FlowKey, ProvenanceSpan, StreamChunk}
use packet_inspector_windows.Segments.{end_of, total_bytes}
use packet_inspector_windows.Segments.Cover.{byte_in, byte_at, byte_in_uncovered}
use packet_inspector_windows.Segments.Order.{Above}
use packet_inspector_windows.Segments.Conflict.{byte_at_below}
use packet_inspector_windows.Tcp.State.{TcpSegment, DirectionState, Counters}
use packet_inspector_windows.Tcp.Draining.{
  Drain, remember_consumed, extend_spans, take_segment, dequeue, drain_loop, start_drain, Emitted,
  silent, chunk_of, emit, drain_from, drain,
}

-- Spans that follow on one another from one stream offset to another, none of them empty.
abbrev pub Tiles : ℕ → ℕ → List ProvenanceSpan → Type 0
Tiles from to [] = from ≡ to
Tiles from to (s ∷ ss) = (s.stream_start ≡ from) × (from < s.stream_end) × Tiles s.stream_end to ss

extend_spans-Tiles :
    (from to : ℕ) (spans : List ProvenanceSpan) (span : ProvenanceSpan)
    → Tiles from to spans
    → span.stream_start ≡ to
    → to < span.stream_end
    → Tiles from span.stream_end (extend_spans spans span)
unfolding extend_spans
extend_spans-Tiles from to [] span t e h = ground arith
extend_spans-Tiles from to (last ∷ []) span t e h = ground arith
extend_spans-Tiles from to (first ∷ second ∷ spans) span t e h =
    (t.0, t.1, extend_spans-Tiles first.stream_end to (second ∷ spans) span t.2 e h)

-- The history is apart from all else in a direction.
module _ (limit : ℕ) (d : DirectionState) (start : ℕ) (new : Bytes) where
  pub pending-remember_consumed : (remember_consumed limit d start new).pending ≡ d.pending
  unfolding remember_consumed
  pending-remember_consumed = ground arith

  pub pending_bytes-remember_consumed :
      (remember_consumed limit d start new).pending_bytes ≡ d.pending_bytes
  unfolding remember_consumed
  pending_bytes-remember_consumed = ground arith

-- A pending segment that starts where the stream stands is taken whole.
module _ (limit : ℕ) (s : TcpSegment) (rest : List TcpSegment) (v : Drain) where
  abbrev taken : Drain
  taken = take_segment limit s (dequeue s rest v)

  module _ (aligned : s.start ≡ v.next) (some_bytes : 0 < length s.bytes) where
    drop_nothing : drop (v.next - s.start) s.bytes ≡ s.bytes
    drop_nothing = let e : v.next - s.start ≡ 0 = omega arith in rw e

    bytes_there : is_nil s.bytes ≡ false
    bytes_there = filled s.bytes some_bytes
      where
        filled : (bs : Bytes) → 0 < length bs → is_nil bs ≡ false
        filled [] h = absurd (omega arith)
        filled (b ∷ bs) h = refl

    next-taken : taken.next ≡ end_of s
    unfolding take_segment
    next-taken = rw (drop_nothing, bytes_there) (omega arith)

    parts-taken : taken.parts ≡ v.parts ++ s.bytes
    unfolding take_segment
    parts-taken = rw (drop_nothing, bytes_there)

    pending-taken : taken.direction.pending ≡ rest
    unfolding take_segment
    pending-taken =
        rw (drop_nothing, bytes_there)
          (pending-remember_consumed limit (dequeue s rest v).direction v.next s.bytes)

    offset-taken : taken.direction.stream_offset ≡ v.direction.stream_offset + length s.bytes
    unfolding take_segment
    offset-taken = rw (drop_nothing, bytes_there)

    spans-taken :
        (from : ℕ)
        → Tiles from v.direction.stream_offset v.spans
        → Tiles from taken.direction.stream_offset taken.spans
    unfolding take_segment
    spans-taken from t =
        rw (drop_nothing, bytes_there)
          (extend_spans-Tiles from v.direction.stream_offset v.spans _ t refl (omega arith))

-- What the loop has done when it stops, from `v` to `w`, over the queue `pending`.
pub record Drained (pending : List TcpSegment) (v w : Drain) : Type 0 where
  pub forward : v.next ≤ w.next
  pub moved : length w.parts + v.next ≡ length v.parts + w.next
  pub offset : w.direction.stream_offset + v.next ≡ v.direction.stream_offset + w.next
  pub left : Above w.next w.direction.pending
  pub kept : (i : ℕ) → i < length v.parts → get_elem? w.parts i ≡ get_elem? v.parts i
  pub bytes :
      (i : ℕ)
      → v.next ≤ i
      → i < w.next
      → get_elem? w.parts (length v.parts + (i - v.next)) ≡ byte_at pending i
  pub later : (i : ℕ) → w.next ≤ i → byte_at w.direction.pending i ≡ byte_at pending i
  pub gap : byte_at w.direction.pending w.next ≡ none
  pub conserved :
      length w.parts + total_bytes w.direction.pending ≡ length v.parts + total_bytes pending
  pub progress :
      (length w.direction.pending < length pending)
      ⊎ ((w.direction.pending ≡ pending) × (w.next ≡ v.next))
  pub tiled :
      (from : ℕ)
      → Tiles from v.direction.stream_offset v.spans
      → Tiles from w.direction.stream_offset w.spans

stopped :
    (pending : List TcpSegment) (v : Drain)
    → v.direction.pending ≡ pending
    → Above (suc v.next) pending
    → Drained pending v v
stopped pending v e a = record {
  forward = omega arith;
  moved = refl;
  offset = refl;
  left = rw e (weaken pending a);
  kept = λ i h. refl;
  bytes = λ i h k. absurd (omega arith);
  later = λ i h. rw e;
  gap = rw e (byte_at_below (suc v.next) pending v.next a (omega arith));
  conserved = rw e;
  progress = inr (e, refl);
  tiled = λ from t. t;
}
  where
    weaken : (ss : List TcpSegment) → Above (suc v.next) ss → Above v.next ss
    weaken [] b = tt
    weaken (s ∷ ss) b = (omega arith, b.1, b.2)

-- The bytes of the first segment, then those of the rest.
pub byte_at_first :
    (s : TcpSegment) (rest : List TcpSegment) (i : ℕ)
    → s.start ≤ i
    → i < end_of s
    → byte_at (s ∷ rest) i ≡ get_elem? s.bytes (i - s.start)
unfolding byte_at byte_in
byte_at_first s rest i h k =
    let (b, found) = get_elem?_in s.bytes (i - s.start) (omega arith) in ground arith

byte_at_rest :
    (s : TcpSegment) (rest : List TcpSegment) (i : ℕ)
    → end_of s ≤ i
    → byte_at (s ∷ rest) i ≡ byte_at rest i
unfolding byte_at
byte_at_rest s rest i h = rw (byte_in_uncovered s i (ground arith))

module _ (limit : ℕ) (s : TcpSegment) (rest : List TcpSegment) (v w : Drain) where
  advanced :
      s.start ≡ v.next
      → 0 < length s.bytes
      → Drained rest (taken limit s rest v) w
      → Drained (s ∷ rest) v w
  advanced aligned some_bytes d =
      let next : (taken limit s rest v).next ≡ end_of s =
        next-taken limit s rest v aligned some_bytes in
      let parts : (taken limit s rest v).parts ≡ v.parts ++ s.bytes =
        parts-taken limit s rest v aligned some_bytes in
      let size : length (taken limit s rest v).parts ≡ length v.parts + length s.bytes =
        ap length parts ∙ length-append v.parts s.bytes in
      let offset = offset-taken limit s rest v aligned some_bytes in
      record {
        forward = omega (arith, d.forward, next);
        moved = omega (arith, d.moved, next, size);
        offset = omega (arith, d.offset, next, offset);
        left = d.left;
        kept = λ i h.
            d.kept i (omega (arith, size))
            ∙ rw parts (rw (get_elem?-append v.parts s.bytes i) (ground arith));
        bytes = λ i h k. elim (Bool-cases (ltb i (end_of s))) [
          | inl here ↦
              d.kept (length v.parts + (i - v.next)) (ground (arith, size))
              ∙ rw parts (
                  rw (get_elem?-append v.parts s.bytes (length v.parts + (i - v.next)))
                    (ground (arith, byte_at_first s rest i)))
          | inr beyond ↦
              ap (get_elem? w.parts) (ground (arith, size, next))
              ∙ d.bytes i (ground (arith, next)) k
              ∙ sym (byte_at_rest s rest i (ground arith))
        ];
        later = λ i h. d.later i h ∙ sym (byte_at_rest s rest i (omega (arith, d.forward, next)));
        gap = d.gap;
        conserved = omega (arith, d.conserved, size);
        progress = inl (fewer d.progress);
        tiled = λ from t. d.tiled from (spans-taken limit s rest v aligned some_bytes from t);
      }
    where
      fewer :
          (length w.direction.pending < length rest)
            ⊎ ((w.direction.pending ≡ rest) × (w.next ≡ (taken limit s rest v).next))
          → length w.direction.pending < suc (length rest)
      fewer (inl less) = omega arith
      fewer (inr (same, _)) = omega (arith, ap length same)

drain_loop-Drained :
    (limit : ℕ) (pending : List TcpSegment) (v : Drain)
    → v.direction.pending ≡ pending
    → Above v.next pending
    → Drained pending v (drain_loop limit pending v)
unfolding drain_loop
drain_loop-Drained limit [] v e a = stopped [] v e tt
drain_loop-Drained limit (s ∷ rest) v e a =
    let live : leb (end_of s) v.next ≡ false = ground arith in
    elim (Bool-cases (ltb v.next s.start)) [
      | inl hole ↦ rw (live, hole) (stopped (s ∷ rest) v e (ground arith, a.1, a.2))
      | inr joined ↦
          let aligned : s.start ≡ v.next = ground arith in
          rw (live, joined)
            (advanced limit s rest v _ aligned a.1 (
              drain_loop-Drained limit rest (taken limit s rest v)
                (pending-taken limit s rest v aligned a.1)
                (rw (next-taken limit s rest v aligned a.1) a.2)))
    ]

-- The effect of a drain on a direction that stands at `next` with an ordered queue: it moves to
-- `reached`, the first position that the queue has no byte for, and emits one chunk with exactly
-- the bytes in between, or none where there are none.
pub record IsDrain (next : ℕ) (d : DirectionState) (e : Emitted) : Type 0 where
  pub reached : ℕ
  pub position : e.direction.next_seq ≡ some reached
  pub forward : next ≤ reached
  pub offset : e.direction.stream_offset + next ≡ d.stream_offset + reached
  pub left : Above reached e.direction.pending
  pub gap : byte_at e.direction.pending reached ≡ none
  pub later : (i : ℕ) → reached ≤ i → byte_at e.direction.pending i ≡ byte_at d.pending i
  pub emitted : Bytes
  pub size : length emitted + next ≡ reached
  pub conserved : length emitted + total_bytes e.direction.pending ≡ total_bytes d.pending
  pub progress :
      (length e.direction.pending < length d.pending)
      ⊎ ((e.direction.pending ≡ d.pending) × (reached ≡ next))
  pub bytes : (i : ℕ) → next ≤ i → i < reached → get_elem? emitted (i - next) ≡ byte_at d.pending i
  pub chunks :
      ((e.chunks ≡ []) × (emitted ≡ []))
      ⊎ ((chunk : StreamChunk) × (e.chunks ≡ chunk ∷ [])
          × (chunk.data_bytes ≡ emitted)
          × (chunk.stream_offset ≡ d.stream_offset)
          × (chunk.connection_epoch ≡ e.direction.connection_epoch)
          × Tiles d.stream_offset e.direction.stream_offset chunk.provenance_spans)

emit-IsDrain :
    (flow : FlowKey) (side : ℕ) (forced_gap : Bool) (next : ℕ) (d : DirectionState) (c : Counters)
    (w : Drain)
    → Drained d.pending (start_drain d c next) w
    → IsDrain next d (emit flow side d.stream_offset forced_gap w)
emit-IsDrain flow side forced_gap next d c w h = record {
  reached = w.next;
  position = refl;
  forward = h.forward;
  offset = h.offset;
  left = h.left;
  gap = h.gap;
  later = h.later;
  emitted = w.parts;
  size = omega (arith, h.moved);
  conserved = omega (arith, h.conserved);
  progress = h.progress;
  bytes = λ i from to. ap (get_elem? w.parts) (omega arith) ∙ h.bytes i from to;
  chunks = emitted_or_not w.parts refl;
}
  where
    emitted_or_not :
        (parts : Bytes)
        → w.parts ≡ parts
        → (((emit flow side d.stream_offset forced_gap w).chunks ≡ []) × (w.parts ≡ []))
          ⊎ ((chunk : StreamChunk) × ((emit flow side d.stream_offset forced_gap w).chunks
                ≡ chunk ∷ [])
              × (chunk.data_bytes ≡ w.parts)
              × (chunk.stream_offset ≡ d.stream_offset)
              × (chunk.connection_epoch ≡ w.direction.connection_epoch)
              × Tiles d.stream_offset w.direction.stream_offset chunk.provenance_spans)
    emitted_or_not [] e = inl (ground arith, e)
    emitted_or_not (b ∷ bs) e = inr (
      chunk_of flow side d.stream_offset forced_gap w,
      ground arith,
      refl,
      refl,
      refl,
      h.tiled d.stream_offset refl,
    )

pub nil_of : (ss : List TcpSegment) → is_nil ss ≡ true → ss ≡ []
nil_of [] e = refl
nil_of (s ∷ ss) e = cc

silent-IsDrain :
    (d : DirectionState) (c : Counters) (next : ℕ)
    → d.next_seq ≡ some next
    → d.pending ≡ []
    → IsDrain next d (silent d c)
unfolding byte_at
silent-IsDrain d c next e empty = record {
  reached = next;
  position = e;
  forward = omega arith;
  offset = refl;
  left = rw empty tt;
  gap = rw empty;
  later = λ i h. refl;
  emitted = [];
  size = omega arith;
  conserved = omega arith;
  progress = inr (refl, refl);
  bytes = λ i h k. absurd (omega arith);
  chunks = inl (refl, refl);
}

-- On an ordered queue `_drain` emits the contiguous bytes at its head: as one chunk at the stream
-- offset, each byte once and in its place, with provenance spans that tile the chunk; and what is
-- left starts behind a gap.
pub drain-IsDrain :
    (limit : ℕ) (flow : FlowKey) (side : ℕ) (forced_gap : Bool) (d : DirectionState) (c : Counters)
    (next : ℕ)
    → d.next_seq ≡ some next
    → Above next d.pending
    → IsDrain next d (drain limit flow side forced_gap d c)
unfolding drain drain_from
drain-IsDrain limit flow side forced_gap d c next e a =
    simp e (elim (Bool-cases (is_nil d.pending)) [
      | inl empty ↦ simp empty (silent-IsDrain d c next e (nil_of d.pending empty))
      | inr some_pending ↦ simp some_pending (
          emit-IsDrain flow side forced_gap next d c _
            (drain_loop-Drained limit d.pending (start_drain d c next) refl a))
    ])
