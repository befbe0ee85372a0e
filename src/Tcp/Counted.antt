-- ===== src/Tcp/Counted.antt =====
-- What a direction queues is counted: in its own `pending_bytes`, and in the counters of the
-- reassembler, which count `others` and `segments` beside it.
use packet_inspector_windows.Prelude.{
  ℕ, zero, suc, ◌+◌, ◌-◌, ◌≡◌, refl, sym, ap, ◌∙◌, Bool, true, false, not, ◌&&◌, Option, none, some,
  List, [], ◌∷◌, arith, length, drop, ltb, leb, ◌==◌, is_nil, Bool-cases, inl, inr,
}
use packet_inspector_windows.Models.{FlowKey}
use packet_inspector_windows.Segments.{end_of, total_bytes}
use packet_inspector_windows.Tcp.State.{TcpSegment, DirectionState, Counters}
use packet_inspector_windows.Tcp.Draining.{
  Drain, take_segment, dequeue, count_retransmitted, drain_loop, start_drain, drain_from, drain,
  skip_gap, skip_to_next_segment, flush_round, flush_rounds, flush_direction,
}
use packet_inspector_windows.Tcp.Emission.{
  pending-remember_consumed, pending_bytes-remember_consumed,
}

module _ (others segments : ℕ) where
  pub record IsCounted (d : DirectionState) (c : Counters) : Type 0 where
    pub own : d.pending_bytes ≡ total_bytes d.pending
    pub bytes : c.buffered_bytes ≡ others + total_bytes d.pending
    pub queued : c.buffered_segments ≡ segments + length d.pending

  dequeue-IsCounted :
      (s : TcpSegment) (rest : List TcpSegment) (v : Drain)
      → v.direction.pending ≡ s ∷ rest
      → IsCounted v.direction v.counters
      → IsCounted (dequeue s rest v).direction (dequeue s rest v).counters
  dequeue-IsCounted s rest v e h =
      let bytes = ap total_bytes e in
      let size = ap length e in
      record {
        own = omega (arith, h.own);
        bytes = omega (arith, h.bytes);
        queued = omega (arith, h.queued);
      }

  take_segment-IsCounted :
      (limit : ℕ) (s : TcpSegment) (v : Drain)
      → IsCounted v.direction v.counters
      → IsCounted (take_segment limit s v).direction (take_segment limit s v).counters
        × ((take_segment limit s v).direction.pending ≡ v.direction.pending)
  unfolding take_segment
  take_segment-IsCounted limit s v h =
      let new = drop (v.next - s.start) s.bytes in
      let kept = pending-remember_consumed limit v.direction v.next new in
      let kept_bytes = pending_bytes-remember_consumed limit v.direction v.next new in
      elim (Bool-cases (is_nil new)) [
        | inl nothing ↦
            rw nothing (record { own = h.own; bytes = h.bytes; queued = h.queued }, refl)
        | inr something ↦ rw something (
          record {
            own = kept_bytes ∙ h.own ∙ ap total_bytes (sym kept);
            bytes = omega (arith, h.bytes, ap total_bytes kept);
            queued = omega (arith, h.queued, ap length kept);
          },
          kept,
        )
      ]

  drain_loop-IsCounted :
      (limit : ℕ) (pending : List TcpSegment) (v : Drain)
      → v.direction.pending ≡ pending
      → IsCounted v.direction v.counters
      → IsCounted (drain_loop limit pending v).direction (drain_loop limit pending v).counters
  unfolding drain_loop
  drain_loop-IsCounted limit [] v e h = h
  drain_loop-IsCounted limit (s ∷ rest) v e h =
      let less = dequeue-IsCounted s rest v e h in
      let (taken, kept) = take_segment-IsCounted limit s (dequeue s rest v) less in
      elim (Bool-cases (leb (end_of s) v.next)) [
        | inl stale ↦ rw stale (
            drain_loop-IsCounted limit rest
              (count_retransmitted (length s.bytes) (dequeue s rest v)) refl
              (record { own = less.own; bytes = less.bytes; queued = less.queued }))
        | inr live ↦ elim (Bool-cases (ltb v.next s.start)) [
          | inl hole ↦ rw (live, hole) h
          | inr joined ↦
              rw (live, joined)
                (drain_loop-IsCounted limit rest (take_segment limit s (dequeue s rest v)) kept
                  taken)
        ]
      ]

  drain_from-IsCounted :
      (limit : ℕ) (flow : FlowKey) (side : ℕ) (forced_gap : Bool) (d : DirectionState)
      (c : Counters) (at : Option ℕ)
      → IsCounted d c
      → let e = drain_from limit flow side forced_gap d c at in IsCounted e.direction e.counters
  unfolding drain_from
  drain_from-IsCounted limit flow side forced_gap d c none h = h
  drain_from-IsCounted limit flow side forced_gap d c (some next) h =
      elim (Bool-cases (is_nil d.pending)) [
        | inl empty ↦ simp empty h
        | inr filled ↦
            let k = drain_loop-IsCounted limit d.pending (start_drain d c next) refl h in
            simp filled (record { own = k.own; bytes = k.bytes; queued = k.queued })
      ]

  pub drain-IsCounted :
      (limit : ℕ) (flow : FlowKey) (side : ℕ) (forced_gap : Bool) (d : DirectionState)
      (c : Counters)
      → IsCounted d c
      → let e = drain limit flow side forced_gap d c in IsCounted e.direction e.counters
  unfolding drain
  drain-IsCounted limit flow side forced_gap d c h =
      drain_from-IsCounted limit flow side forced_gap d c d.next_seq h

  skip_gap-IsCounted :
      (ss : List TcpSegment) (at : Option ℕ) (d : DirectionState) (c : Counters)
      → IsCounted d c
      → IsCounted (skip_gap ss at d c).0 (skip_gap ss at d c).1
  unfolding skip_gap
  skip_gap-IsCounted [] none d c h = h
  skip_gap-IsCounted [] (some next) d c h = h
  skip_gap-IsCounted (s ∷ ss) none d c h = h
  skip_gap-IsCounted (s ∷ ss) (some next) d c h = elim (Bool-cases (ltb next s.start)) [
    | inl hole ↦ rw hole (record { own = h.own; bytes = h.bytes; queued = h.queued })
    | inr joined ↦ rw joined h
  ]

  pub skip-IsCounted :
      (limit : ℕ) (flow : FlowKey) (side : ℕ) (d : DirectionState) (c : Counters)
      → IsCounted d c
      → let e = skip_to_next_segment limit flow side d c in IsCounted e.direction e.counters
  unfolding skip_to_next_segment
  skip-IsCounted limit flow side d c h =
      drain-IsCounted limit flow side true _ _ (skip_gap-IsCounted d.pending d.next_seq d c h)

  flush_round-IsCounted :
      (limit : ℕ) (flow : FlowKey) (side : ℕ) (d : DirectionState) (c : Counters)
      → IsCounted d c
      → let e = flush_round limit flow side d c in IsCounted e.direction e.counters
  unfolding flush_round
  flush_round-IsCounted limit flow side d c h =
      let drained = drain limit flow side false d c in
      let k = drain-IsCounted limit flow side false d c h in
      elim (Bool-cases (
        not (is_nil drained.direction.pending)
        && length drained.direction.pending == length d.pending)) [
          | inl stuck ↦
              rw stuck (skip-IsCounted limit flow side drained.direction drained.counters k)
          | inr moved ↦ rw moved k
        ]

  flush_rounds-IsCounted :
      (n limit : ℕ) (flow : FlowKey) (side : ℕ) (d : DirectionState) (c : Counters)
      → IsCounted d c
      → let e = flush_rounds n limit flow side d c in IsCounted e.direction e.counters
  unfolding flush_rounds
  flush_rounds-IsCounted zero limit flow side d c h = h
  flush_rounds-IsCounted (suc n) limit flow side d c h =
      let e = flush_round limit flow side d c in
      elim (Bool-cases (is_nil d.pending)) [
        | inl empty ↦ rw empty h
        | inr filled ↦ rw filled (
            flush_rounds-IsCounted n limit flow side e.direction e.counters
              (flush_round-IsCounted limit flow side d c h))
      ]

  pub flush_direction-IsCounted :
      (limit : ℕ) (flow : FlowKey) (side : ℕ) (d : DirectionState) (c : Counters)
      → IsCounted d c
      → let e = flush_direction limit flow side d c in IsCounted e.direction e.counters
  unfolding flush_direction
  flush_direction-IsCounted limit flow side d c h =
      flush_rounds-IsCounted (length d.pending) limit flow side d c h
