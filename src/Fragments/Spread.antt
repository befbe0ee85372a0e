-- ===== src/Fragments/Spread.antt =====
-- The limits on one datagram: no more ranges than their limit, and no byte at or behind the largest
-- size, in the state of a datagram and in that with one more fragment.
use packet_inspector_windows.Prelude.{
  ℕ, ◌+◌, ◌-◌, ◌≤◌, ◌<◌, ◌≡◌, refl, sym, ◌∙◌, inl, inr, Option, none, some, List, [], ◌∷◌, arith,
  length, ltb, or_else, Bool-cases,
}
use packet_inspector_windows.Models.{ParsedPacket}
use packet_inspector_windows.Segments.{Segment, end_of, total_bytes}
use packet_inspector_windows.Segments.Cover.{
  byte_in, byte_at, covers, byte_in_uncovered, byte_in_covered,
}
use packet_inspector_windows.Segments.Conflict.{byte_at_below}
use packet_inspector_windows.Segments.Order.{Above}
use packet_inspector_windows.Segments.Insert.{Above-merge_adjacent, byte_at-merge_adjacent}
use packet_inspector_windows.Fragments.State.{FragmentState, Limits, fragment_keys, fresh_state}
use packet_inspector_windows.Fragments.Process.{fragment_run, touch, absorb}

-- Ranges in order and apart, none of which holds a byte at or behind the largest size.
pub record IsSpread (l : Limits) (s : FragmentState) : Type 0 where
  pub in_order : Above 0 s.ranges
  pub below : (i b : ℕ) → byte_at s.ranges i ≡ some b → i < l.max_datagram_bytes

-- And no more of them than their limit.
pub record IsSized (l : Limits) (s : FragmentState) : Type 0 where
  pub spread : IsSpread l s
  pub few : length s.ranges ≤ l.max_ranges_per_datagram

-- What the later segments hold, the list holds.
pub byte_at_behind :
    (s : Segment (Unit {0})) (ss : List (Segment (Unit {0}))) (i c : ℕ)
    → Above (end_of s) ss
    → byte_at ss i ≡ some c
    → byte_at (s ∷ ss) i ≡ some c
unfolding byte_at
byte_at_behind s ss i c a found = elim (Bool-cases (ltb i (end_of s))) [
  | inl before ↦ absurd (cc (sym (byte_at_below (end_of s) ss i a (ground arith)) ∙ found))
  | inr past ↦ rw (byte_in_uncovered s i (ground arith)) found
]

-- Ranges that are in order and apart take no more room than there is.
pub total_bytes-Above :
    (lo hi : ℕ) (ss : List (Segment (Unit {0})))
    → lo ≤ hi
    → Above lo ss
    → ((i b : ℕ) → byte_at ss i ≡ some b → i < hi)
    → lo + total_bytes ss ≤ hi
total_bytes-Above lo hi [] le a h = omega (arith, le)
total_bytes-Above lo hi (s ∷ ss) le (from, filled, a) h =
    let (b, here) = byte_in_covered s (end_of s - 1) (ground arith) in
    let last = h (end_of s - 1) b (unfold byte_at in rw here refl) in
    omega (
      arith,
      from,
      total_bytes-Above (end_of s) hi ss (omega (arith, last, filled)) a
          (λ i c found. h i c (byte_at_behind s ss i c a found)),
    )

pub fresh_state-IsSized :
    (clock : ℕ) (l : Limits) (p : ParsedPacket) → IsSized l (fresh_state clock p)
unfolding fresh_state byte_at
fresh_state-IsSized clock l p = record {
  spread = record { in_order = tt; below = λ i b e. absurd (cc e) };
  few = omega arith;
}

pub same-IsSized :
    (l : Limits) (s t : FragmentState) → t.ranges ≡ s.ranges → IsSized l s → IsSized l t
same-IsSized l s t e h = record {
  spread = record { in_order = rw e h.spread.in_order; below = rw e h.spread.below };
  few = rw e h.few;
}

pub touch-ranges :
    (clock : ℕ) (p : ParsedPacket) (s : FragmentState) → (touch clock p s).ranges ≡ s.ranges
unfolding touch
touch-ranges clock p s = refl

pub absorb-IsSpread :
    (l : Limits) (p : ParsedPacket) (s : FragmentState)
    → p.fragment_offset + length p.network_payload ≤ l.max_datagram_bytes
    → IsSpread l s
    → IsSpread l (absorb p s)
unfolding absorb
absorb-IsSpread l p s le h = record {
  in_order = Above-merge_adjacent 0 (fragment_run p) s.ranges (omega arith) h.in_order;
  below = λ i b found. elim (Bool-cases (covers (fragment_run p) i)) [
    | inl new ↦ ground (arith, new, le)
    | inr old ↦ h.below i b (
        old_byte (byte_at s.ranges i) (byte_in (fragment_run p) i) b
          (byte_in_uncovered (fragment_run p) i old)
          (sym (byte_at-merge_adjacent 0 (fragment_run p) s.ranges i (omega arith) h.in_order)
            ∙ found))
  ];
}
  where
    old_byte : (o q : Option ℕ) (b : ℕ) → q ≡ none → or_else o q ≡ some b → o ≡ some b
    old_byte none q b e f = sym e ∙ f
    old_byte (some c) q b e f = f
