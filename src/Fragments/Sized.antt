-- ===== src/Fragments/Sized.antt =====
-- The limits on one datagram, in every state that is stored, and through every call.
use packet_inspector_windows.Prelude.{
  ℕ, ◌+◌, ◌≤◌, ◌≡◌, refl, subst, Bool, ◌∙◌, inl, inr, true, false, not, ◌&&◌, ◌||◌, Option, none,
  some, List, [], ◌∷◌, arith, length, ltb, ◌==◌, ◌%◌, Bool-cases, Option-cases,
}
use packet_inspector_windows.OrderedDict.{OrderedDict, get, remove, contains}
use packet_inspector_windows.OrderedDict.Every.{
  Every, Every-get, Every-remove, Every-put, Every-move_to_end,
}
use packet_inspector_windows.OrderedDict.Distinct.{remove-put}
use packet_inspector_windows.Models.{ParsedPacket}
use packet_inspector_windows.Segments.{has_conflicting_overlap}
use packet_inspector_windows.Fragments.State.{
  FragmentKey, FragmentState, Limits, Reassembler, fragment_keys, key_of, fresh_state, discard,
  evict_to_limits,
}
use packet_inspector_windows.Fragments.Process.{
  mark_final, absorb, account, Assembled, waiting, overrun, assembled, assemble, conclude,
  conclude_if, complete, file_fragment, open_fragment, process_fragment, process_id, process,
  stale_keys, stale_prefix, discard_all, expire, expire_lru,
}
use packet_inspector_windows.Fragments.Opened.{mark_final-Same}
use packet_inspector_windows.Fragments.Bounded.{discard-states}
use packet_inspector_windows.Fragments.Evicted.{
  discard-limits, evict_to_limits-limits, Every-discard, Every-evict_to_limits,
}
use packet_inspector_windows.Fragments.Spread.{
  IsSpread, IsSized, fresh_state-IsSized, same-IsSized, touch-ranges, absorb-IsSpread,
}

module _ (l : Limits) where
  abbrev pub AllSized : OrderedDict FragmentKey FragmentState → Type 0
  AllSized = Every (λ key s. IsSized l s)

  -- The limits stay, and every stored state is within those of one datagram.
  pub record IsKept (r : Reassembler) : Type 0 where
    pub limits : r.limits ≡ l
    pub sized : AllSized r.states

  discard-IsKept : (key : FragmentKey) (r : Reassembler) → IsKept r → IsKept (discard key r)
  discard-IsKept key r h = record {
    limits = discard-limits key r ∙ h.limits;
    sized = Every-discard _ key r h.sized;
  }

  -- Dropping a state, whatever it has become.
  dropped-IsKept :
      (key : FragmentKey) (r r' : Reassembler)
      → IsKept r
      → r'.limits ≡ r.limits
      → remove key r'.states ≡ remove key r.states
      → IsKept (discard key r')
  dropped-IsKept key r r' h e same = record {
    limits = discard-limits key r' ∙ e ∙ h.limits;
    sized = rw (discard-states key r' ∙ same) (Every-remove _ key r.states h.sized);
  }

  conclude-IsKept :
      (key : FragmentKey) (base : ParsedPacket) (s : FragmentState) (r : Reassembler)
      (found : Assembled)
      → IsKept r
      → IsKept (conclude key base s r found).1
  unfolding conclude
  conclude-IsKept key base s r waiting h = h
  conclude-IsKept key base s r overrun h = dropped-IsKept key r _ h refl refl
  conclude-IsKept key base s r (assembled payload) h = discard-IsKept key r h

  conclude_if-IsKept :
      (key : FragmentKey) (first : Option ParsedPacket) (final_end : Option ℕ) (s : FragmentState)
      (r : Reassembler)
      → IsKept r
      → IsKept (conclude_if key first final_end s r).1
  unfolding conclude_if
  conclude_if-IsKept key (some base) (some n) s r h = elim (Bool-cases s.truncated) [
    | inl cut ↦ simp cut h
    | inr whole ↦ simp whole (conclude-IsKept key base s r (assemble n s.ranges) h)
  ]
  conclude_if-IsKept key (some base) none s r h = h
  conclude_if-IsKept key none (some n) s r h = h
  conclude_if-IsKept key none none s r h = h

  complete-IsKept :
      (key : FragmentKey) (s : FragmentState) (r : Reassembler)
      → IsKept r
      → IsKept (complete key s r).1
  unfolding complete
  complete-IsKept key s r h = conclude_if-IsKept key s.first_fragment s.final_end s r h

  -- Behind the range test: eviction, then the datagram if it is whole.
  filed-IsKept :
      (key : FragmentKey) (p : ParsedPacket) (s : FragmentState) (r : Reassembler)
      → IsKept r
      → IsSpread l (absorb p s)
      → ltb r.limits.max_ranges_per_datagram (length (absorb p s).ranges) ≡ false
      → IsKept (evict_to_limits (account key s (absorb p s) r))
  unfolding account
  filed-IsKept key p s r h spread few =
      let after : IsSized l (absorb p s) = record {
        spread = spread;
        few =
            subst (λ (m : Limits). length (absorb p s).ranges ≤ m.max_ranges_per_datagram) h.limits
              (ground (arith, few));
      } in
      let filed = account key s (absorb p s) r in
      record {
        limits = evict_to_limits-limits filed ∙ h.limits;
        sized = Every-evict_to_limits _ filed (Every-put _ key (absorb p s) r.states h.sized after);
      }

  file_fragment-IsKept :
      (key : FragmentKey) (p : ParsedPacket) (marked : Option FragmentState) (r : Reassembler)
      → IsKept r
      → p.fragment_offset + length p.network_payload ≤ l.max_datagram_bytes
      → ((s : FragmentState) → marked ≡ some s → IsSized l s)
      → IsKept (file_fragment key p marked r).1
  unfolding file_fragment
  file_fragment-IsKept key p none r h le k = dropped-IsKept key r _ h refl refl
  file_fragment-IsKept key p (some s) r h le k =
      let spread = absorb-IsSpread l p s le (k s refl).spread in
      let filed = account key s (absorb p s) r in
      elim (Bool-cases (has_conflicting_overlap p.fragment_offset p.network_payload s.ranges)) [
        | inl clash ↦ rw clash (dropped-IsKept key r _ h refl (remove-put key s r.states))
        | inr agree ↦
            elim (Bool-cases (ltb r.limits.max_ranges_per_datagram (length (absorb p s).ranges))) [
              | inl many ↦
                  let dropped =
                    dropped-IsKept key r filed h (unfold account in refl)
                      (unfold account in remove-put key (absorb p s) r.states) in
                  rw (agree, many) (record { limits = dropped.limits; sized = dropped.sized })
              | inr few ↦
                  let kept = filed-IsKept key p s r h spread few in
                  elim (Bool-cases (contains key (evict_to_limits filed).states)) [
                    | inl there ↦
                        rw (agree, few, there)
                          (complete-IsKept key (absorb p s) (evict_to_limits filed) kept)
                    | inr gone ↦ rw (agree, few, gone) kept
                  ]
            ]
      ]

  open_fragment-IsKept :
      (clock : ℕ) (key : FragmentKey) (p : ParsedPacket) (r : Reassembler)
      → IsKept r
      → IsSized l (open_fragment clock key p r).0 × IsKept (open_fragment clock key p r).1
  unfolding open_fragment
  open_fragment-IsKept clock key p r h = elim (Option-cases (get key r.states)) [
    | inl missing ↦
        let s = fresh_state clock p in
        let fresh = same-IsSized l s _ (touch-ranges clock p s) (fresh_state-IsSized clock l p) in
        rw missing
          (fresh, record { limits = h.limits; sized = Every-put _ key _ r.states h.sized fresh })
    | inr (s, found) ↦
        let known =
          same-IsSized l s _ (touch-ranges clock p s) (Every-get _ key s r.states h.sized found) in
        rw found (
          known,
          record {
            limits = h.limits;
            sized = Every-put _ key _ _ (Every-move_to_end _ key r.states h.sized) known;
          },
        )
  ]

  process_fragment-IsKept :
      (clock : ℕ) (key : FragmentKey) (p : ParsedPacket) (r : Reassembler)
      → IsKept r
      → IsKept (process_fragment clock key p r).1
  unfolding process_fragment
  process_fragment-IsKept clock key p r h =
      let size = length p.network_payload in
      let (sized, opened) = open_fragment-IsKept clock key p r h in
      let s = (open_fragment clock key p r).0 in
      let large = ltb r.limits.max_datagram_bytes (p.fragment_offset + size) in
      let odd = p.more_fragments && (size == 0 || not (size % 8 == 0)) in
      elim (Bool-cases (large || odd)) [
        | inl refused ↦ rw refused (dropped-IsKept key r _ h refl refl)
        | inr accepted ↦
            let fits =
              subst (λ (m : Limits). p.fragment_offset + size ≤ m.max_datagram_bytes) h.limits
                (small_enough large odd r.limits.max_datagram_bytes (p.fragment_offset + size) refl
                  accepted) in
            rw accepted (
              file_fragment-IsKept key p (mark_final p s) (open_fragment clock key p r).1 opened
                fits (λ t e. same-IsSized l s t (mark_final-Same p s t e).1 sized))
      ]
    where
      small_enough :
          (large odd : Bool) (limit size : ℕ)
          → ltb limit size ≡ large
          → (large || odd) ≡ false
          → size ≤ limit
      small_enough true odd limit size e h = absurd (cc h)
      small_enough false odd limit size e h = ground (arith, e)

  process_id-IsKept :
      (clock : ℕ) (p : ParsedPacket) (id : Option ℕ) (r : Reassembler)
      → IsKept r
      → IsKept (process_id clock p id r).1
  unfolding process_id
  process_id-IsKept clock p none r h = h
  process_id-IsKept clock p (some n) r h =
      elim (Bool-cases (p.fragment_offset == 0 && not p.more_fragments)) [
        | inl whole ↦ rw whole h
        | inr part ↦ rw part (process_fragment-IsKept clock (key_of n p) p r h)
      ]

  pub process-IsKept :
      (clock : ℕ) (p : ParsedPacket) (r : Reassembler) → IsKept r → IsKept (process clock p r).1
  unfolding process
  process-IsKept clock p r h = process_id-IsKept clock p p.fragment_id r h

  discard_all-IsKept :
      (keys : List FragmentKey) (r : Reassembler) → IsKept r → IsKept (discard_all keys r)
  unfolding discard_all
  discard_all-IsKept [] r h = h
  discard_all-IsKept (key ∷ keys) r h =
      discard_all-IsKept keys (discard key r) (discard-IsKept key r h)

  pub expire-IsKept : (now : ℕ) (r : Reassembler) → IsKept r → IsKept (expire now r).1
  unfolding expire
  expire-IsKept now r h =
      let kept = discard_all-IsKept (stale_keys now r.limits.idle_ns r.states) r h in
      record { limits = kept.limits; sized = kept.sized }

  pub expire_lru-IsKept : (now : ℕ) (r : Reassembler) → IsKept r → IsKept (expire_lru now r).1
  unfolding expire_lru
  expire_lru-IsKept now r h =
      let kept = discard_all-IsKept (stale_prefix now r.limits.idle_ns r.states) r h in
      record { limits = kept.limits; sized = kept.sized }
