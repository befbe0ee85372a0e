-- ===== src/Tcp/Receive.antt =====
-- A payload that arrives keeps the queue of its direction, and leaves it within its limits.
use packet_inspector_windows.Prelude.{
  ℕ, ◌+◌, ◌≤◌, ◌≡◌, refl, sym, ap, ◌∙◌, false, not, ◌&&◌, Option, none, some, [], Bytes, arith,
  length, drop, leb, is_nil, is_some, Bool-cases, inl, inr,
}
use packet_inspector_windows.Prelude.Int.{ℤ, pos, pos_part, neg_part, ltb_ℤ}
use packet_inspector_windows.Models.{FlowKey, ParsedPacket}
use packet_inspector_windows.Segments.{total_bytes}
use packet_inspector_windows.Tcp.State.{DirectionState, Counters, Limits, unwrap_sequence}
use packet_inspector_windows.Tcp.Draining.{drain, distance}
use packet_inspector_windows.Tcp.Process.{
  enqueue, accept_payload, Received, keepalive, settled, queued, is_keepalive, receive_at,
  receive_next, receive, raw_payload_sequence, begin_direction, begin_at, has_syn,
}
use packet_inspector_windows.Tcp.Queue.{
  IsOrdered-nil, IsQueue, IsRelieved, drain-IsQueue, enqueue-IsQueue, relieve-IsQueue,
  relieve-IsRelieved,
}

module _ (others segments : ℕ) where
  -- What the outcome of a payload keeps, from the counters `c` on; bytes that are not queued leave
  -- the buffered totals as they are.
  abbrev pub ReceivedQueue : Counters → Received → Type 0
  ReceivedQueue c keepalive = Unit
  ReceivedQueue c (settled d c') =
      IsQueue others segments d c'
      × (c'.buffered_bytes ≡ c.buffered_bytes)
      × (c'.buffered_segments ≡ c.buffered_segments)
  ReceivedQueue c (queued e) = IsQueue others segments e.direction e.counters

  -- Only the counters of what was met differ.
  recount-IsQueue :
      (d : DirectionState) (c : Counters) (retransmitted conflicts : ℕ)
      → IsQueue others segments d c
      → IsQueue others segments d
          (record c { retransmitted_bytes = retransmitted; overlap_conflicts = conflicts })
  recount-IsQueue d c retransmitted conflicts h = record {
    counted = record { own = h.counted.own; bytes = h.counted.bytes; queued = h.counted.queued };
    ordered = h.ordered;
  }

  -- On a direction whose queue is in order and counted, a payload that does not start before
  -- `next_seq` is filed, drained and relieved so that the queue is in order and counted again, and is
  -- empty or within the limits on its bytes and its segments.
  pub accept_payload-IsQueue :
      (l : Limits) (key : FlowKey) (side : ℕ) (p : ParsedPacket) (start next : ℕ) (payload : Bytes)
      (d : DirectionState) (c : Counters)
      → d.next_seq ≡ some next
      → next ≤ start
      → IsQueue others segments d c
      → let e = accept_payload l key side p start payload d c in
        IsQueue others segments e.direction e.counters × IsRelieved l e.direction
  unfolding accept_payload
  accept_payload-IsQueue l key side p start next payload d c at le h =
      let filled = enqueue p start payload d c in
      let k = enqueue-IsQueue others segments p start next payload d c at le h in
      let e = drain l.consumed_history_bytes key side false filled.0 filled.1 in
      let drained =
        drain-IsQueue others segments l.consumed_history_bytes key side false filled.0 filled.1 k in
      let n = length e.direction.pending in
      let q = relieve-IsQueue others segments n l key side e.direction e.counters drained in
      (
        record {
          counted = record {
            own = q.counted.own;
            bytes = q.counted.bytes;
            queued = q.counted.queued;
          };
          ordered = q.ordered;
        },
        let w =
              relieve-IsRelieved others segments n l key side e.direction e.counters drained
                (omega arith) in
            record { bytes = w.bytes; queued = w.queued },
      )

  receive_at-IsQueue :
      (l : Limits) (key : FlowKey) (side : ℕ) (p : ParsedPacket) (start : ℤ) (next : ℕ)
      (d : DirectionState) (c : Counters)
      → d.next_seq ≡ some next
      → IsQueue others segments d c
      → ReceivedQueue c (receive_at l key side p start next d c)
  unfolding receive_at
  receive_at-IsQueue l key side p start next d c at h =
      elim (Bool-cases (is_keepalive p start next d)) [
        | inl alive ↦ rw alive tt
        | inr data_bytes ↦
            elim (Bool-cases
              (leb (pos_part start + length p.transport_payload) (next + neg_part start))) [
                | inl old ↦ rw (data_bytes, old) (recount-IsQueue d c _ _ h, refl, refl)
                | inr new ↦ elim (Bool-cases (ltb_ℤ start (pos next))) [
                  | inl before ↦
                      rw (data_bytes, new, before)
                        (accept_payload-IsQueue l key side p next next
                          (drop (distance start next) p.transport_payload) d _ at (omega arith)
                          (recount-IsQueue d c _ _ h)).0
                  | inr behind ↦
                      rw (data_bytes, new, behind)
                        (accept_payload-IsQueue l key side p (pos_part start) next
                          p.transport_payload d _ at (ground arith) (recount-IsQueue d c _ _ h)).0
                ]
              ]
      ]

  receive_next-IsQueue :
      (l : Limits) (key : FlowKey) (side : ℕ) (p : ParsedPacket) (at : Option ℕ)
      (d : DirectionState) (c : Counters)
      → d.next_seq ≡ at
      → IsQueue others segments d c
      → ReceivedQueue c (receive_next l key side p at d c)
  unfolding receive_next
  receive_next-IsQueue l key side p none d c at h = (h, refl, refl)
  receive_next-IsQueue l key side p (some next) d c at h =
      elim (Bool-cases (is_nil p.transport_payload)) [
        | inl nothing ↦ rw nothing (h, refl, refl)
        | inr something ↦ rw something (
            receive_at-IsQueue l key side p (unwrap_sequence (raw_payload_sequence p) next) next d c
              at h)
      ]

  pub receive-IsQueue :
      (l : Limits) (key : FlowKey) (side : ℕ) (p : ParsedPacket) (d : DirectionState) (c : Counters)
      → IsQueue others segments d c
      → ReceivedQueue c (receive l key side p d c)
  unfolding receive
  receive-IsQueue l key side p d c h = receive_next-IsQueue l key side p d.next_seq d c refl h

  placed-IsQueue :
      (d d' : DirectionState) (c : Counters)
      → IsQueue others segments d c
      → d'.pending ≡ d.pending
      → d'.pending_bytes ≡ d.pending_bytes
      → d.pending ≡ []
      → IsQueue others segments d' c
  placed-IsQueue d d' c h same own empty = record {
    counted = record {
      own = own ∙ h.counted.own ∙ ap total_bytes (sym same);
      bytes = omega (arith, h.counted.bytes, ap total_bytes same);
      queued = omega (arith, h.counted.queued, ap length same);
    };
    ordered = IsOrdered-nil _ _ (same ∙ empty);
  }

  -- A position is given to a direction that had none, and so nothing pending.
  begin_at-IsQueue :
      (at : Option ℕ) (p : ParsedPacket) (d : DirectionState) (c : Counters)
      → d.next_seq ≡ at
      → IsQueue others segments d c
      → IsQueue others segments (begin_at at p d) c
  unfolding begin_at
  begin_at-IsQueue (some next) p d c at h = h
  begin_at-IsQueue none p d c at h =
      let nothing : d.pending ≡ [] = rw at at h.ordered in
      elim (Bool-cases (has_syn p)) [
        | inl syn ↦ rw syn (placed-IsQueue d _ c h refl refl nothing)
        | inr bare ↦ elim (Bool-cases (is_nil p.transport_payload)) [
          | inl empty ↦ rw (bare, empty) h
          | inr filled ↦ rw (bare, filled) (placed-IsQueue d _ c h refl refl nothing)
        ]
      ]

  pub begin_direction-IsQueue :
      (p : ParsedPacket) (d : DirectionState) (c : Counters)
      → IsQueue others segments d c
      → IsQueue others segments (begin_direction p d) c
  unfolding begin_direction
  begin_direction-IsQueue p d c h =
      let begun = begin_at d.next_seq p d in
      let k = begin_at-IsQueue d.next_seq p d c refl h in
      elim (Bool-cases (has_syn p && not (is_some begun.syn_seq))) [
        | inl note ↦ rw note (record {
          counted = record {
            own = k.counted.own;
            bytes = k.counted.bytes;
            queued = k.counted.queued;
          };
          ordered = k.ordered;
        })
        | inr keep ↦ rw keep k
      ]
