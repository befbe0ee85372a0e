-- ===== src/Fragments/Collected.antt =====
-- What the state of a datagram knows of it, and how a fragment adds to that.
use packet_inspector_windows.Prelude.{
  ℕ, ◌+◌, ◌≤◌, ◌≡◌, refl, sym, ap, subst, ◌∙◌, ◌⊎◌, inl, inr, Bool, true, false, ◌&&◌, ◌||◌, Option,
  none, some, List, [], ◌∷◌, ◌++◌, Bytes, arith, length, get_elem?, leb, leb→le, max, ◌==◌, ==_iff,
  is_nil, if◌then◌else◌, Bool-cases,
}
use packet_inspector_windows.Models.{ParsedPacket, contributing_ids}
use packet_inspector_windows.Segments.{uncovered}
use packet_inspector_windows.Segments.Cover.{byte_in, byte_at}
use packet_inspector_windows.Segments.Order.{Above}
use packet_inspector_windows.Segments.Insert.{Above-merge_adjacent, byte_at-merge_adjacent}
use packet_inspector_windows.Fragments.State.{FragmentState, fresh_state}
use packet_inspector_windows.Fragments.Process.{
  is_none, fragment_run, touch, mark_final, member, note_sources, absorb,
}
use packet_inspector_windows.Fragments.Assembly.{Consistent}

-- What a state knows of the datagram that it collects, of whose fragments some came: bytes of the
-- datagram only, its end, and from the fragments that came the first one, which starts at 0, the
-- packet number and time that a completed datagram gets, and the packets that it came from.
pub record Holds (datagram : Bytes) (Came : ParsedPacket → Type 0) (state : FragmentState)
    : Type 0 where
  pub in_order : Above 0 state.ranges
  pub stored : Consistent datagram state.ranges
  pub ends : (n : ℕ) → state.final_end ≡ some n → n ≡ length datagram
  pub first : (q : ParsedPacket) → state.first_fragment ≡ some q → Came q × (q.fragment_offset ≡ 0)
  pub newest : (q : ParsedPacket) × Came q × (state.latest_packet_id ≡ q.packet_id)
  pub latest : (q : ParsedPacket) × Came q × (state.last_seen_ns ≡ q.timestamp_ns)
  pub sources :
      (i : ℕ)
      → member i state.source_packet_ids ≡ true
      → (q : ParsedPacket) × Came q × (member i (contributing_ids q) ≡ true)

-- A fragment of the datagram: its bytes stand there at its offset, and the last one ends it.
pub record IsFragment (datagram : Bytes) (p : ParsedPacket) : Type 0 where
  pub bytes : (i b : ℕ) → byte_in (fragment_run p) i ≡ some b → get_elem? datagram i ≡ some b
  pub last :
      p.more_fragments ≡ false → p.fragment_offset + length p.network_payload ≡ length datagram

pub fresh_state-Holds :
    (clock : ℕ) (datagram : Bytes) (Came : ParsedPacket → Type 0) (p : ParsedPacket)
    → Came p
    → Holds datagram Came (fresh_state clock p)
unfolding fresh_state byte_at member
fresh_state-Holds clock datagram Came p came = record {
  in_order = tt;
  stored = λ i b e. cc;
  ends = λ n e. absurd (cc);
  first = λ q e. absurd (cc e);
  newest = (p, came, refl);
  latest = (p, came, refl);
  sources = λ i e. absurd (cc e);
}

first_chosen :
    (p q : ParsedPacket) (at_start : Bool) (known : Option ParsedPacket)
    → (if at_start && is_none known then some p else known) ≡ some q
    → (known ≡ some q) ⊎ ((p ≡ q) × (at_start ≡ true))
first_chosen p q true none e = inr (cc e, refl)
first_chosen p q false none e = inl e
first_chosen p q true (some known) e = inl e
first_chosen p q false (some known) e = inl e

-- The larger of two numbers, each of which a packet that came has.
larger :
    (Came : ParsedPacket → Type 0) (number : ParsedPacket → ℕ) (known : ℕ) (p : ParsedPacket)
    → Came p
    → ((q : ParsedPacket) × Came q × (known ≡ number q))
    → (q : ParsedPacket) × Came q × (max known (number p) ≡ number q)
larger Came number known p came (q, came_q, e) = elim (Bool-cases (leb known (number p))) [
  | inl above ↦ (p, came, max_right (leb→le known (number p) above))
  | inr below ↦ (q, came_q, max_left (ground (arith, below)) ∙ e)
]
  where
    max_right : {a b : ℕ} → a ≤ b → max a b ≡ b
    max_right h = omega (arith, h)

    max_left : {a b : ℕ} → b ≤ a → max a b ≡ a
    max_left h = omega (arith, h)

pub touch-Holds :
    (clock : ℕ) (datagram : Bytes) (Came : ParsedPacket → Type 0) (p : ParsedPacket)
    (state : FragmentState)
    → Came p
    → Holds datagram Came state
    → Holds datagram Came (touch clock p state)
unfolding touch
touch-Holds clock datagram Came p state came h = record {
  in_order = h.in_order;
  stored = h.stored;
  ends = h.ends;
  first = λ q e. elim (first_chosen p q (p.fragment_offset == 0) state.first_fragment e) [
    | inl known ↦ h.first q known
    | inr (same, at_start) ↦ (
      subst Came same came,
      ap (λ (packet : ParsedPacket). packet.fragment_offset) (sym same)
          ∙ (==_iff p.fragment_offset 0).0 at_start,
    )
  ];
  newest = larger Came (λ (q : ParsedPacket). q.packet_id) state.latest_packet_id p came h.newest;
  latest = larger Came (λ (q : ParsedPacket). q.timestamp_ns) state.last_seen_ns p came h.latest;
  sources = h.sources;
}

module _ (p : ParsedPacket) (state marked : FragmentState)
    (e : mark_final p state ≡ some marked) where
  ranges-mark_final : marked.ranges ≡ state.ranges
  unfolding mark_final
  ranges-mark_final = ground arith

  final_end-mark_final :
      (n : ℕ)
      → marked.final_end ≡ some n
      → (state.final_end ≡ some n)
        ⊎ ((p.more_fragments ≡ false) × (n ≡ p.fragment_offset + length p.network_payload))
  unfolding mark_final
  final_end-mark_final n f = ground arith

  others-mark_final :
      (marked.first_fragment ≡ state.first_fragment)
      × (marked.latest_packet_id ≡ state.latest_packet_id)
      × (marked.last_seen_ns ≡ state.last_seen_ns)
      × (marked.source_packet_ids ≡ state.source_packet_ids)
  unfolding mark_final
  others-mark_final = ground arith

  pub mark_final-Holds :
      (datagram : Bytes) (Came : ParsedPacket → Type 0)
      → Holds datagram Came state
      → IsFragment datagram p
      → Holds datagram Came marked
  mark_final-Holds datagram Came h f = record {
    first = rw others-mark_final.0 h.first;
    newest = rw others-mark_final.1 h.newest;
    latest = rw others-mark_final.2 h.latest;
    sources = rw others-mark_final.3 h.sources;
    in_order = rw ranges-mark_final h.in_order;
    stored = rw ranges-mark_final h.stored;
    ends = λ n known. elim (final_end-mark_final n known) [
      | inl before ↦ h.ends n before
      | inr (whole, here) ↦ here ∙ f.last whole
    ];
  }

member-append : (i : ℕ) (xs ys : List ℕ) → member i (xs ++ ys) ≡ (member i xs || member i ys)
unfolding member
member-append i [] ys = refl
member-append i (x ∷ xs) ys = ground (arith, member-append i xs ys)

member_grown :
    (i j : ℕ) (known : List ℕ)
    → member i (if member j known then known else known ++ (j ∷ [])) ≡ true
    → (member i known ≡ true) ⊎ ((i == j) ≡ true)
unfolding member
member_grown i j known h = ground (arith, member-append i known (j ∷ []))

-- An id that is noted was known, or is one of those that are added.
member-note_sources :
    (i : ℕ) (known ids : List ℕ)
    → member i (note_sources known ids) ≡ true
    → (member i known ≡ true) ⊎ (member i ids ≡ true)
unfolding note_sources
member-note_sources i known [] h = inl h
member-note_sources i known (j ∷ ids) h =
    elim (member-note_sources i (if member j known then known else known ++ (j ∷ [])) ids h) [
      | inl grown ↦ elim (member_grown i j known grown) [
        | inl before ↦ inl before
        | inr here ↦ inr (unfold member in ground (arith, here))
      ]
      | inr later ↦ inr (unfold member in ground (arith, later))
    ]

absorb-sources :
    (i : ℕ) (p : ParsedPacket) (state : FragmentState)
    → member i (absorb p state).source_packet_ids ≡ true
    → (member i state.source_packet_ids ≡ true) ⊎ (member i (contributing_ids p) ≡ true)
unfolding absorb
absorb-sources i p state h = elim (Bool-cases (is_nil (uncovered (fragment_run p) state.ranges))) [
  | inl nothing ↦ inl (rw nothing at h)
  | inr something ↦
      member-note_sources i state.source_packet_ids (contributing_ids p) (rw something at h)
]

pub absorb-Holds :
    (datagram : Bytes) (Came : ParsedPacket → Type 0) (p : ParsedPacket) (state : FragmentState)
    → Came p
    → Holds datagram Came state
    → IsFragment datagram p
    → Holds datagram Came (absorb p state)
absorb-Holds datagram Came p state came h f = record {
  in_order =
      unfold absorb in
      Above-merge_adjacent 0 (fragment_run p) state.ranges (omega arith) h.in_order;
  stored =
      unfold absorb in
      λ i b found. ground (
        arith,
        byte_at-merge_adjacent 0 (fragment_run p) state.ranges i (omega arith) h.in_order,
        h.stored i b,
        f.bytes i b,
      );
  ends = unfold absorb in h.ends;
  first = unfold absorb in h.first;
  newest = unfold absorb in h.newest;
  latest = unfold absorb in h.latest;
  sources = λ i e. elim (absorb-sources i p state e) [
    | inl known ↦ h.sources i known
    | inr new ↦ (p, came, new)
  ];
}
