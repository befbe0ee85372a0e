-- ===== src/Tcp/Queue.antt =====
-- The queue of a direction is in order and counted, and so it stays when it is drained, flushed,
-- filled and relieved.
use packet_inspector_windows.Prelude.{
  ℕ, zero, suc, ◌≤◌, ◌<◌, ◌≡◌, refl, ap, subst, ◌∙◌, Bool, true, ◌||◌, Option, none, some, List, [],
  ◌∷◌, ◌++◌, Bytes, arith, length, ltb, is_nil, Bool-cases, Option-cases, ◌⊎◌, inl, inr,
  length-append,
}
use packet_inspector_windows.Models.{FlowKey, ParsedPacket}
use packet_inspector_windows.Segments.{total_bytes, uncovered}
use packet_inspector_windows.Segments.Order.{
  Above, Above-lower, Above-uncovered, AllClear-uncovered,
}
use packet_inspector_windows.Segments.Insert.{
  Above-sort, total_bytes-sort, length-sort, total_bytes-append,
}
use packet_inspector_windows.Tcp.State.{
  TcpSegment, DirectionState, Counters, Limits, max_pending_per_direction,
}
use packet_inspector_windows.Tcp.Draining.{
  Emitted, silent, drain, drain_from, skip_gap, skip_to_next_segment, flush_direction, flush_rounds,
}
use packet_inspector_windows.Tcp.Emission.{drain-IsDrain}
use packet_inspector_windows.Tcp.Flush.{
  skip-IsAdvance, skip_emits, flush_direction-IsFlush, queue_cases,
}
use packet_inspector_windows.Tcp.Counted.{
  IsCounted, drain-IsCounted, skip-IsCounted, flush_direction-IsCounted,
}
use packet_inspector_windows.Tcp.Process.{relieve, arrived, enqueue}

-- A queue is empty before the stream has a position, and in order behind it from then on.
abbrev pub IsOrdered : Option ℕ → List TcpSegment → Type 0
IsOrdered none ss = ss ≡ []
IsOrdered (some next) ss = Above next ss

pub IsOrdered-nil : (at : Option ℕ) (ss : List TcpSegment) → ss ≡ [] → IsOrdered at ss
IsOrdered-nil none ss e = e
IsOrdered-nil (some next) ss e = rw e tt

gap_unplaced :
    (ss : List TcpSegment) (at : Option ℕ) (d : DirectionState) (c : Counters)
    → at ≡ none
    → skip_gap ss at d c ≡ (d, c)
unfolding skip_gap
gap_unplaced [] at d c e = refl
gap_unplaced (s ∷ ss) at d c e = rw e refl

gap_empty :
    (ss : List TcpSegment) (at : Option ℕ) (d : DirectionState) (c : Counters)
    → ss ≡ []
    → skip_gap ss at d c ≡ (d, c)
unfolding skip_gap
gap_empty ss none d c e = rw e refl
gap_empty ss (some next) d c e = rw e refl

-- The limits of a direction.
pub record IsRelieved (l : Limits) (d : DirectionState) : Type 0 where
  pub bytes : d.pending_bytes ≤ max_pending_per_direction l
  pub queued : length d.pending ≤ l.max_segments_per_direction

empty-IsRelieved :
    (l : Limits) (d : DirectionState)
    → d.pending_bytes ≡ total_bytes d.pending
    → d.pending ≡ []
    → IsRelieved l d
empty-IsRelieved l d own e = record {
  bytes = omega (arith, own, ap total_bytes e);
  queued = omega (arith, ap length e);
}

placed_or_empty :
    (at : Option ℕ) (ss : List TcpSegment)
    → IsOrdered at ss
    → (ss ≡ []) ⊎ ((next : ℕ) × (at ≡ some next))
placed_or_empty none ss h = inl h
placed_or_empty (some next) ss h = inr (next, refl)

module _ (others segments : ℕ) where
  pub record IsQueue (d : DirectionState) (c : Counters) : Type 0 where
    pub counted : IsCounted others segments d c
    pub ordered : IsOrdered d.next_seq d.pending

  -- Drained from a known position.
  drain_at-IsQueue :
      (limit : ℕ) (flow : FlowKey) (side : ℕ) (forced_gap : Bool) (d : DirectionState)
      (c : Counters) (next : ℕ)
      → d.next_seq ≡ some next
      → IsQueue d c
      → let e = drain limit flow side forced_gap d c in IsQueue e.direction e.counters
  drain_at-IsQueue limit flow side forced_gap d c next at h =
      let k = drain-IsDrain limit flow side forced_gap d c next at (rw at at h.ordered) in
      record {
        counted = drain-IsCounted others segments limit flow side forced_gap d c h.counted;
        ordered = rw k.position k.left;
      }

  drain_unplaced-IsQueue :
      (limit : ℕ) (flow : FlowKey) (side : ℕ) (forced_gap : Bool) (d : DirectionState)
      (c : Counters)
      → d.next_seq ≡ none
      → IsQueue d c
      → let e = drain limit flow side forced_gap d c in IsQueue e.direction e.counters
  unfolding drain drain_from
  drain_unplaced-IsQueue limit flow side forced_gap d c at h = simp at h

  pub drain-IsQueue :
      (limit : ℕ) (flow : FlowKey) (side : ℕ) (forced_gap : Bool) (d : DirectionState)
      (c : Counters)
      → IsQueue d c
      → let e = drain limit flow side forced_gap d c in IsQueue e.direction e.counters
  drain-IsQueue limit flow side forced_gap d c h = elim (Option-cases d.next_seq) [
    | inl unplaced ↦ drain_unplaced-IsQueue limit flow side forced_gap d c unplaced h
    | inr (next, at) ↦ drain_at-IsQueue limit flow side forced_gap d c next at h
  ]

  flush_empty :
      (limit : ℕ) (flow : FlowKey) (side : ℕ) (d : DirectionState) (c : Counters)
      → d.pending ≡ []
      → flush_direction limit flow side d c ≡ silent d c
  unfolding flush_direction flush_rounds
  flush_empty limit flow side d c e = ap (λ n. flush_rounds n limit flow side d c) (ap length e)

  -- Flushed: nothing is pending any more.
  pub flush_direction-IsQueue :
      (limit : ℕ) (flow : FlowKey) (side : ℕ) (d : DirectionState) (c : Counters)
      → IsQueue d c
      → let e = flush_direction limit flow side d c in
        IsQueue e.direction e.counters × (e.direction.pending ≡ [])
  flush_direction-IsQueue limit flow side d c h =
      let e = flush_direction limit flow side d c in
      let counted = flush_direction-IsCounted others segments limit flow side d c h.counted in
      let emptied : e.direction.pending ≡ [] = elim (Option-cases d.next_seq) [
        | inl unplaced ↦
            let none_pending : d.pending ≡ [] = rw unplaced at h.ordered in
            ap (λ (f : Emitted). f.direction.pending) (flush_empty limit flow side d c none_pending)
            ∙ none_pending
        | inr (next, at) ↦
            (flush_direction-IsFlush limit flow side d c next at (rw at at h.ordered)).emptied
      ] in
      (record { counted = counted; ordered = IsOrdered-nil _ _ emptied }, emptied)

  -- A skip on a queue that is not empty leaves fewer segments.
  skip-IsQueue :
      (limit : ℕ) (flow : FlowKey) (side : ℕ) (d : DirectionState) (c : Counters) (next : ℕ)
      (s : TcpSegment) (rest : List TcpSegment)
      → d.next_seq ≡ some next
      → d.pending ≡ s ∷ rest
      → IsQueue d c
      → let e = skip_to_next_segment limit flow side d c in
        IsQueue e.direction e.counters × (length e.direction.pending < length d.pending)
  skip-IsQueue limit flow side d c next s rest at e h =
      let (advance, fewer) =
        skip-IsAdvance limit flow side d c next s rest at e
          (subst (Above next) e (rw at at h.ordered)) in
      (
        record {
          counted = skip-IsCounted others segments limit flow side d c h.counted;
          ordered = rw advance.at advance.left;
        },
        fewer,
      )

  skip_any-IsQueue :
      (limit : ℕ) (flow : FlowKey) (side : ℕ) (d : DirectionState) (c : Counters)
      → IsQueue d c
      → let e = skip_to_next_segment limit flow side d c in IsQueue e.direction e.counters
  unfolding skip_to_next_segment
  skip_any-IsQueue limit flow side d c h = elim (Option-cases d.next_seq) [
    | inl unplaced ↦
        rw (gap_unplaced d.pending d.next_seq d c unplaced)
          (drain-IsQueue limit flow side true d c h)
    | inr (next, at) ↦ elim (queue_cases d.pending) [
      | inl empty ↦
          rw (gap_empty d.pending d.next_seq d c empty) (drain-IsQueue limit flow side true d c h)
      | inr (s, rest, e) ↦
          unfold skip_to_next_segment in (skip-IsQueue limit flow side d c next s rest at e h).0
    ]
  ]

  -- The new bytes of a payload that starts no earlier than the stream stands.
  pub enqueue-IsQueue :
      (p : ParsedPacket) (start next : ℕ) (payload : Bytes) (d : DirectionState) (c : Counters)
      → d.next_seq ≡ some next
      → next ≤ start
      → IsQueue d c
      → let (d', c') = enqueue p start payload d c in IsQueue d' c'
  unfolding enqueue
  enqueue-IsQueue p start next payload d c at le h =
      let new = arrived p start payload in
      let additions = uncovered new d.pending in
      let in_order : Above next d.pending = rw at at h.ordered in
      let bytes = total_bytes-append d.pending additions in
      let sorted = total_bytes-sort (d.pending ++ additions) in
      let size = length-append d.pending additions in
      let same_size = length-sort (d.pending ++ additions) in
      record {
        counted = record {
          own = omega (arith, h.counted.own);
          bytes = omega (arith, h.counted.bytes);
          queued = omega (arith, h.counted.queued);
        };
        ordered = rw at (
            Above-sort next d.pending additions in_order
              (Above-lower next start additions le (Above-uncovered new d.pending))
              (AllClear-uncovered new d.pending));
      }

  pub relieve-IsQueue :
      (n : ℕ) (l : Limits) (key : FlowKey) (side : ℕ) (d : DirectionState) (c : Counters)
      → IsQueue d c
      → let e = relieve n l key side d c in IsQueue e.direction e.counters
  unfolding relieve
  relieve-IsQueue zero l key side d c h = h
  relieve-IsQueue (suc n) l key side d c h =
      let e = skip_to_next_segment l.consumed_history_bytes key side d c in
      let k = skip_any-IsQueue l.consumed_history_bytes key side d c h in
      elim (Bool-cases (
        ltb (max_pending_per_direction l) d.pending_bytes
        || ltb l.max_segments_per_direction (length d.pending))) [
          | inl over ↦ elim (Bool-cases (is_nil e.chunks)) [
            | inl silent_skip ↦ rw (over, silent_skip) k
            | inr spoken ↦ rw (over, spoken) (relieve-IsQueue n l key side e.direction e.counters k)
          ]
          | inr within ↦ rw within h
        ]

  -- Enough rounds relieve a direction, each of them a forced skip that emits.
  pub relieve-IsRelieved :
      (n : ℕ) (l : Limits) (key : FlowKey) (side : ℕ) (d : DirectionState) (c : Counters)
      → IsQueue d c
      → length d.pending ≤ n
      → IsRelieved l (relieve n l key side d c).direction
  unfolding relieve
  relieve-IsRelieved zero l key side d c h enough = elim (queue_cases d.pending) [
    | inl e ↦ empty-IsRelieved l d h.counted.own e
    | inr (s, rest, e) ↦ absurd (omega (arith, ap length e))
  ]
  relieve-IsRelieved (suc n) l key side d c h enough =
      let limit = l.consumed_history_bytes in
      let e = skip_to_next_segment limit key side d c in
      elim (Bool-cases (
        ltb (max_pending_per_direction l) d.pending_bytes
        || ltb l.max_segments_per_direction (length d.pending))) [
          | inr within ↦ rw within (record { bytes = ground arith; queued = ground arith })
          | inl over ↦ elim (queue_cases d.pending) [
            | inl nothing ↦
                absurd (ground (arith, h.counted.own, ap total_bytes nothing, ap length nothing))
            | inr (s, rest, filled) ↦ elim (placed_or_empty d.next_seq d.pending h.ordered) [
              | inl nothing ↦ absurd (omega (arith, ap length nothing, ap length filled))
              | inr (next, at) ↦
                  let in_order = subst (Above next) filled (rw at at h.ordered) in
                  let (k, fewer) = skip-IsQueue limit key side d c next s rest at filled h in
                  let spoken = skip_emits limit key side d c next s rest at filled in_order in
                  rw (over, spoken)
                    (relieve-IsRelieved n l key side e.direction e.counters k
                      (omega (arith, fewer)))
            ]
          ]
        ]
