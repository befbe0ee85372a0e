-- ===== src/Tcp/Flush.antt =====
-- Forced flushes: `_skip_to_next_segment` always takes a segment, so `_flush_direction` ends with
-- an empty queue, and what it emits is every queued byte, in stream order.
use packet_inspector_windows.Prelude.{
  ℕ, zero, suc, ◌+◌, ◌-◌, ◌≤◌, ◌<◌, ◌≡◌, refl, sym, subst, ◌∙◌, ap, ◌⊎◌, inl, inr, Bool, true,
  false, Option, none, some, List, [], ◌∷◌, ◌++◌, arith, length, ltb, ◌==◌, is_nil, if◌then◌else◌,
  Bool-cases, get_elem?_in,
}
use packet_inspector_windows.Models.{FlowKey, StreamChunk}
use packet_inspector_windows.Segments.{total_bytes}
use packet_inspector_windows.Segments.Cover.{byte_at}
use packet_inspector_windows.Segments.Order.{Above}
use packet_inspector_windows.Tcp.State.{TcpSegment, DirectionState, Counters}
use packet_inspector_windows.Tcp.Draining.{
  Emitted, silent, drain, skip_gap, skip_to_next_segment, flush_round, flush_rounds,
  flush_direction,
}
use packet_inspector_windows.Tcp.Emission.{byte_at_first, IsDrain, drain-IsDrain, Tiles}

-- Chunks in stream order, from one offset to another, that do not overlap.
abbrev pub InOrder : ℕ → List StreamChunk → ℕ → Type 0
InOrder from [] to = from ≤ to
InOrder from (c ∷ cs) to =
    (from ≤ c.stream_offset) × InOrder (c.stream_offset + length c.data_bytes) cs to

abbrev pub emitted_bytes : List StreamChunk → ℕ
emitted_bytes [] = 0
emitted_bytes (c ∷ cs) = length c.data_bytes + emitted_bytes cs

pub InOrder-append :
    (from : ℕ) (cs : List StreamChunk) (via : ℕ) (ds : List StreamChunk) (to : ℕ)
    → InOrder from cs via
    → InOrder via ds to
    → InOrder from (cs ++ ds) to
InOrder-append from [] via [] to h k = omega arith
InOrder-append from [] via (d ∷ ds) to h k = (omega arith, k.1)
InOrder-append from (c ∷ cs) via ds to h k =
    (h.0, InOrder-append (c.stream_offset + length c.data_bytes) cs via ds to h.1 k)

emitted_bytes-append :
    (cs ds : List StreamChunk) → emitted_bytes (cs ++ ds) ≡ emitted_bytes cs + emitted_bytes ds
emitted_bytes-append [] ds = omega arith
emitted_bytes-append (c ∷ cs) ds = omega (arith, emitted_bytes-append cs ds)

-- A step of the stream: the direction stands at a position with an ordered queue again, and the
-- chunks are in order and hold the bytes that have left the queue.
pub record IsAdvance (d : DirectionState) (e : Emitted) : Type 0 where
  pub position : ℕ
  pub at : e.direction.next_seq ≡ some position
  pub left : Above position e.direction.pending
  pub in_order : InOrder d.stream_offset e.chunks e.direction.stream_offset
  pub conserved : emitted_bytes e.chunks + total_bytes e.direction.pending ≡ total_bytes d.pending
  pub fewer : length e.direction.pending ≤ length d.pending

drain-IsAdvance : {next : ℕ} {d : DirectionState} {e : Emitted} → IsDrain next d e → IsAdvance d e
drain-IsAdvance {next} {d} {e} h = record {
  position = h.reached;
  at = h.position;
  left = h.left;
  in_order = ordered h.chunks;
  conserved = counted h.chunks;
  fewer = at_most h.progress;
}
  where
    ordered :
        ((e.chunks ≡ []) × (h.emitted ≡ []))
          ⊎ ((chunk : StreamChunk) × (e.chunks ≡ chunk ∷ [])
              × (chunk.data_bytes ≡ h.emitted)
              × (chunk.stream_offset ≡ d.stream_offset)
              × (chunk.connection_epoch ≡ e.direction.connection_epoch)
              × Tiles d.stream_offset e.direction.stream_offset chunk.provenance_spans)
        → InOrder d.stream_offset e.chunks e.direction.stream_offset
    ordered (inl (none_out, nothing)) =
        rw none_out (omega (arith, h.offset, h.size, ap length nothing))
    ordered (inr (chunk, one, bytes, at, _, _)) =
        rw one (omega (arith, at), omega (arith, at, h.offset, h.size, ap length bytes))

    counted :
        ((e.chunks ≡ []) × (h.emitted ≡ []))
          ⊎ ((chunk : StreamChunk) × (e.chunks ≡ chunk ∷ [])
              × (chunk.data_bytes ≡ h.emitted)
              × (chunk.stream_offset ≡ d.stream_offset)
              × (chunk.connection_epoch ≡ e.direction.connection_epoch)
              × Tiles d.stream_offset e.direction.stream_offset chunk.provenance_spans)
        → emitted_bytes e.chunks + total_bytes e.direction.pending ≡ total_bytes d.pending
    counted (inl (none_out, nothing)) = rw none_out (omega (arith, h.conserved, ap length nothing))
    counted (inr (chunk, one, bytes, _, _, _)) =
        rw one (omega (arith, h.conserved, ap length bytes))

    at_most :
        (length e.direction.pending < length d.pending)
          ⊎ ((e.direction.pending ≡ d.pending) × (h.reached ≡ next))
        → length e.direction.pending ≤ length d.pending
    at_most (inl less) = omega arith
    at_most (inr (same, _)) = omega (arith, ap length same)

-- Two steps, one behind the other.
IsAdvance-twice :
    {d : DirectionState} {e f : Emitted}
    → IsAdvance d e
    → IsAdvance e.direction f
    → IsAdvance d (record f { chunks = e.chunks ++ f.chunks })
IsAdvance-twice {d} {e} {f} h k = record {
  position = k.position;
  at = k.at;
  left = k.left;
  in_order =
      InOrder-append d.stream_offset e.chunks e.direction.stream_offset f.chunks
        f.direction.stream_offset h.in_order k.in_order;
  conserved = omega (arith, emitted_bytes-append e.chunks f.chunks, h.conserved, k.conserved);
  fewer = omega (arith, h.fewer, k.fewer);
}

-- The head of an ordered queue has a byte.
pub head_covered :
    (next : ℕ) (s : TcpSegment) (rest : List TcpSegment)
    → Above next (s ∷ rest)
    → byte_at (s ∷ rest) s.start ≡ none
    → ⊥
head_covered next s rest a h =
    let (b, found) = get_elem?_in s.bytes (s.start - s.start) (omega (arith, a.1)) in
    let here = byte_at_first s rest s.start (omega arith) (omega (arith, a.1)) in cc

-- A drain that starts at the head of the queue takes it.
drain_head :
    (limit : ℕ) (flow : FlowKey) (side : ℕ) (forced_gap : Bool) (d : DirectionState) (c : Counters)
    (s : TcpSegment) (rest : List TcpSegment)
    → d.next_seq ≡ some s.start
    → d.pending ≡ s ∷ rest
    → Above s.start (s ∷ rest)
    → IsAdvance d (drain limit flow side forced_gap d c)
      × (length (drain limit flow side forced_gap d c).direction.pending < length d.pending)
drain_head limit flow side forced_gap d c s rest at e a =
    let h = drain-IsDrain limit flow side forced_gap d c s.start at (rw e a) in
    (drain-IsAdvance h, taken h h.progress)
  where
    taken :
        (h : IsDrain s.start d (drain limit flow side forced_gap d c))
        → (length (drain limit flow side forced_gap d c).direction.pending < length d.pending)
          ⊎ (((drain limit flow side forced_gap d c).direction.pending ≡ d.pending)
              × (h.reached ≡ s.start))
        → length (drain limit flow side forced_gap d c).direction.pending < length d.pending
    taken h (inl less) = less
    taken h (inr (same, stuck)) = absurd (
        head_covered s.start s rest a (
          sym (ap (λ ss. byte_at ss s.start) (same ∙ e))
          ∙ ap (byte_at (drain limit flow side forced_gap d c).direction.pending) (sym stuck)
          ∙ h.gap))

-- Nothing is done.
standing :
    (d : DirectionState) (c : Counters) (next : ℕ)
    → d.next_seq ≡ some next
    → Above next d.pending
    → IsAdvance d (silent d c)
standing d c next at a = record {
  position = next;
  at = at;
  left = a;
  in_order = omega arith;
  conserved = omega arith;
  fewer = omega arith;
}

-- A step may have started further on, behind a gap.
InOrder-earlier :
    (from later : ℕ) (cs : List StreamChunk) (to : ℕ)
    → from ≤ later
    → InOrder later cs to
    → InOrder from cs to
InOrder-earlier from later [] to h k = omega arith
InOrder-earlier from later (c ∷ cs) to h k = (omega (arith, k.0), k.1)

behind_gap :
    {d d' : DirectionState} {e : Emitted}
    → d.stream_offset ≤ d'.stream_offset
    → d'.pending ≡ d.pending
    → IsAdvance d' e
    → IsAdvance d e
behind_gap {d} {d'} {e} further same h = record {
  position = h.position;
  at = h.at;
  left = h.left;
  in_order =
      InOrder-earlier d.stream_offset d'.stream_offset e.chunks e.direction.stream_offset further
        h.in_order;
  conserved = h.conserved ∙ ap total_bytes same;
  fewer = omega (arith, h.fewer, ap length same);
}

module _ (d : DirectionState) (c : Counters) (next : ℕ) (s : TcpSegment)
    (rest : List TcpSegment) where
  abbrev past_gap : DirectionState
  past_gap = record d {
    next_seq = some s.start;
    stream_offset = d.stream_offset + (s.start - next);
    had_gap = true;
  }

  abbrev count_gap : Counters
  count_gap = record c { gap_bytes = c.gap_bytes + (s.start - next) }

  skip_gap-some :
      (ss : List TcpSegment) (at : Option ℕ)
      → ss ≡ s ∷ rest
      → at ≡ some next
      → skip_gap ss at d c ≡ (if ltb next s.start then (past_gap, count_gap) else (d, c))
  unfolding skip_gap
  skip_gap-some ss at e h = rw (e, h)

-- `_skip_to_next_segment` takes at least one segment of a queue that is not empty.
pub skip-IsAdvance :
    (limit : ℕ) (flow : FlowKey) (side : ℕ) (d : DirectionState) (c : Counters) (next : ℕ)
    (s : TcpSegment) (rest : List TcpSegment)
    → d.next_seq ≡ some next
    → d.pending ≡ s ∷ rest
    → Above next (s ∷ rest)
    → IsAdvance d (skip_to_next_segment limit flow side d c)
      × (length (skip_to_next_segment limit flow side d c).direction.pending < length d.pending)
unfolding skip_to_next_segment
skip-IsAdvance limit flow side d c next s rest at e a =
    rw (skip_gap-some d c next s rest d.pending d.next_seq e at)
      (elim (Bool-cases (ltb next s.start)) [
        | inl hole ↦
            let (advance, less) =
              drain_head limit flow side true (past_gap d c next s rest) (count_gap d c next s rest)
                s rest refl e (omega arith, a.1, a.2) in
            rw hole (behind_gap (omega arith) refl advance, less)
        | inr joined ↦
            let there : next ≡ s.start = ground (arith, a.0) in
            rw joined (
              drain_head limit flow side true d c s rest (at ∙ ap some there) e
                (omega arith, a.1, a.2))
      ])

-- A drain that starts at the head of the queue emits a chunk.
drain_head_emits :
    (limit : ℕ) (flow : FlowKey) (side : ℕ) (forced_gap : Bool) (d : DirectionState) (c : Counters)
    (s : TcpSegment) (rest : List TcpSegment)
    → d.next_seq ≡ some s.start
    → d.pending ≡ s ∷ rest
    → Above s.start (s ∷ rest)
    → is_nil (drain limit flow side forced_gap d c).chunks ≡ false
drain_head_emits limit flow side forced_gap d c s rest at e a =
    let h = drain-IsDrain limit flow side forced_gap d c s.start at (rw e a) in
    elim h.chunks [
      | inl (_, nothing) ↦
          let stuck : h.reached ≡ s.start = omega (arith, h.size, ap length nothing) in
          absurd (
            head_covered s.start s rest a (
              ap (λ ss. byte_at ss s.start) (sym e)
              ∙ sym (h.later s.start (omega (arith, stuck)))
              ∙ ap (byte_at (drain limit flow side forced_gap d c).direction.pending) (sym stuck)
              ∙ h.gap))
      | inr (chunk, one, _, _, _, _) ↦ rw one refl
    ]

-- `_skip_to_next_segment` emits a chunk where a segment is pending.
pub skip_emits :
    (limit : ℕ) (flow : FlowKey) (side : ℕ) (d : DirectionState) (c : Counters) (next : ℕ)
    (s : TcpSegment) (rest : List TcpSegment)
    → d.next_seq ≡ some next
    → d.pending ≡ s ∷ rest
    → Above next (s ∷ rest)
    → is_nil (skip_to_next_segment limit flow side d c).chunks ≡ false
unfolding skip_to_next_segment
skip_emits limit flow side d c next s rest at e a =
    rw (skip_gap-some d c next s rest d.pending d.next_seq e at)
      (elim (Bool-cases (ltb next s.start)) [
        | inl hole ↦ rw hole (
            drain_head_emits limit flow side true (past_gap d c next s rest)
              (count_gap d c next s rest) s rest refl e (omega arith, a.1, a.2))
        | inr joined ↦
            let there : next ≡ s.start = ground (arith, a.0) in
            rw joined (
              drain_head_emits limit flow side true d c s rest (at ∙ ap some there) e
                (omega arith, a.1, a.2))
      ])

-- A round of `_flush_direction` takes at least one segment of a queue that is not empty.
flush_round-IsAdvance :
    (limit : ℕ) (flow : FlowKey) (side : ℕ) (d : DirectionState) (c : Counters) (next : ℕ)
    (s : TcpSegment) (rest : List TcpSegment)
    → d.next_seq ≡ some next
    → d.pending ≡ s ∷ rest
    → Above next (s ∷ rest)
    → IsAdvance d (flush_round limit flow side d c)
      × (length (flush_round limit flow side d c).direction.pending < length d.pending)
unfolding flush_round
flush_round-IsAdvance limit flow side d c next s rest at e a =
    let h = drain-IsDrain limit flow side false d c next at (rw e a) in
    let advance = drain-IsAdvance h in
    elim h.progress [
      | inl less ↦
          let fewer : (length (drain limit flow side false d c).direction.pending
                == length d.pending)
              ≡ false =
            ground arith in
          elim (Bool-cases (is_nil (drain limit flow side false d c).direction.pending)) [
            | inl empty ↦ rw empty (advance, less)
            | inr some_pending ↦ rw (some_pending, fewer) (advance, less)
          ]
      | inr (same, stuck) ↦
          let filled = same ∙ e in
          let (skipped, less) =
            skip-IsAdvance limit flow side (drain limit flow side false d c).direction
              (drain limit flow side false d c).counters h.reached s rest h.position filled
              (rw stuck a) in
          let some_pending : is_nil (drain limit flow side false d c).direction.pending ≡ false =
            rw filled in
          let equal : (length (drain limit flow side false d c).direction.pending
                == length d.pending)
              ≡ true =
            ground (arith, ap length same) in
          rw (some_pending, equal)
            (IsAdvance-twice advance skipped, omega (arith, less, ap length same))
    ]

pub queue_cases :
    (ss : List TcpSegment)
    → (ss ≡ []) ⊎ ((s : TcpSegment) × (rest : List TcpSegment) × (ss ≡ s ∷ rest))
queue_cases [] = inl refl
queue_cases (s ∷ rest) = inr (s, rest, refl)

flush_rounds-IsAdvance :
    (n limit : ℕ) (flow : FlowKey) (side : ℕ) (d : DirectionState) (c : Counters) (next : ℕ)
    → d.next_seq ≡ some next
    → Above next d.pending
    → length d.pending ≤ n
    → IsAdvance d (flush_rounds n limit flow side d c)
      × ((flush_rounds n limit flow side d c).direction.pending ≡ [])
unfolding flush_rounds
flush_rounds-IsAdvance zero limit flow side d c next at a enough =
    (standing d c next at a, nothing d.pending enough)
  where
    nothing : (ss : List TcpSegment) → length ss ≤ 0 → ss ≡ []
    nothing [] h = refl
    nothing (s ∷ ss) h = absurd (omega arith)
flush_rounds-IsAdvance (suc n) limit flow side d c next at a enough = elim (queue_cases d.pending) [
  | inl e ↦ let empty : is_nil d.pending ≡ true = rw e in rw empty (standing d c next at a, e)
  | inr (s, rest, e) ↦
      let some_pending : is_nil d.pending ≡ false = rw e in
      let (first, less) =
        flush_round-IsAdvance limit flow side d c next s rest at e (subst (Above next) e a) in
      let (others, done) =
        flush_rounds-IsAdvance n limit flow side (flush_round limit flow side d c).direction
          (flush_round limit flow side d c).counters first.position first.at first.left
          (omega (arith, less)) in
      rw some_pending (IsAdvance-twice first others, done)
]

-- The effect of a forced flush of a direction: nothing stays pending, and the chunks lie in stream
-- order from the old stream offset to the new one and hold as many bytes as were pending.
pub record IsFlush (d : DirectionState) (e : Emitted) : Type 0 where
  pub emptied : e.direction.pending ≡ []
  pub in_order : InOrder d.stream_offset e.chunks e.direction.stream_offset
  pub all_bytes : emitted_bytes e.chunks ≡ total_bytes d.pending

-- On an ordered queue `_flush_direction` ends, leaves nothing pending, and emits chunks that do
-- not overlap, lie in stream order between the old and the new stream offset, and hold together
-- exactly as many bytes as were pending.
pub flush_direction-IsFlush :
    (limit : ℕ) (flow : FlowKey) (side : ℕ) (d : DirectionState) (c : Counters) (next : ℕ)
    → d.next_seq ≡ some next
    → Above next d.pending
    → IsFlush d (flush_direction limit flow side d c)
unfolding flush_direction
flush_direction-IsFlush limit flow side d c next at a =
    let (advance, emptied) =
      flush_rounds-IsAdvance (length d.pending) limit flow side d c next at a (omega arith) in
    record {
      emptied = emptied;
      in_order = advance.in_order;
      all_bytes = omega (arith, advance.conserved, ap total_bytes emptied);
    }
