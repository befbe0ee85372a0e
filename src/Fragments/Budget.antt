-- ===== src/Fragments/Budget.antt =====
-- `process` and `expire` keep the fragment reassembler within its limits.
use packet_inspector_windows.Prelude.{
  ℕ, ◌+◌, ◌≡◌, refl, ap, ◌∙◌, not, ◌&&◌, ◌||◌, ◌==◌, ◌%◌, Option, none, some, List, [], ◌∷◌, arith,
  length, ltb, Bool-cases, inl, inr,
}
use packet_inspector_windows.OrderedDict.{remove, put, contains}
use packet_inspector_windows.OrderedDict.Sums.{weigh}
use packet_inspector_windows.OrderedDict.Distinct.{remove-put}
use packet_inspector_windows.Models.{ParsedPacket}
use packet_inspector_windows.Segments.{has_conflicting_overlap}
use packet_inspector_windows.Fragments.State.{
  FragmentKey, FragmentState, Reassembler, fragment_keys, key_of, discard, evict_to_limits,
}
use packet_inspector_windows.Fragments.Process.{
  mark_final, absorb, account, Assembled, waiting, overrun, assembled, assemble, conclude,
  conclude_if, complete, file_fragment, open_fragment, process_fragment, process_id, process,
  expire, expire_lru, stale_keys, stale_prefix, discard_all,
}
use packet_inspector_windows.Fragments.Accounting.{
  bytes_of, ranges_of, sources_of, evict_to_limits-IsAccounted,
}
use packet_inspector_windows.Fragments.Bounded.{
  put-IsAccounted, same-IsAccounted, IsBounded, dropped-IsBounded,
}
use packet_inspector_windows.Fragments.Opened.{
  Same-IsCounted, mark_final-Same, account-IsAccounted, IsOpened, open_fragment-IsOpened,
}

conclude-IsBounded :
    (key : FragmentKey) (base : ParsedPacket) (s : FragmentState) (r : Reassembler)
    (outcome : Assembled)
    → IsBounded r
    → IsBounded (conclude key base s r outcome).1
unfolding conclude
conclude-IsBounded key base s r waiting h = h
conclude-IsBounded key base s r overrun h =
    dropped-IsBounded key r _ h (same-IsAccounted r _ h.accounted refl refl refl refl) refl refl
conclude-IsBounded key base s r (assembled payload) h =
    dropped-IsBounded key r r h h.accounted refl refl

conclude_if-IsBounded :
    (key : FragmentKey) (first : Option ParsedPacket) (final_end : Option ℕ) (s : FragmentState)
    (r : Reassembler)
    → IsBounded r
    → IsBounded (conclude_if key first final_end s r).1
unfolding conclude_if
conclude_if-IsBounded key (some base) (some n) s r h = elim (Bool-cases s.truncated) [
  | inl cut ↦ simp cut h
  | inr whole ↦ simp whole (conclude-IsBounded key base s r (assemble n s.ranges) h)
]
conclude_if-IsBounded key (some base) none s r h = h
conclude_if-IsBounded key none (some n) s r h = h
conclude_if-IsBounded key none none s r h = h

-- Only counters change.
counter-IsBounded :
    (r : Reassembler) (evicted expired : ℕ)
    → IsBounded r
    → IsBounded (record r { evicted_datagrams = evicted; expired_datagrams = expired })
counter-IsBounded r evicted expired h = record {
  accounted = same-IsAccounted r _ h.accounted refl refl refl refl;
  within = record {
    datagrams = h.within.datagrams;
    bytes = h.within.bytes;
    ranges = h.within.ranges;
    provenance = h.within.provenance;
  };
}

account-states :
    (key : FragmentKey) (s t : FragmentState) (r : Reassembler)
    → ((account key s t r).limits ≡ r.limits) × ((account key s t r).states ≡ put key t r.states)
unfolding account
account-states key s t r = (refl, refl)

-- `r` before the call, `r'` with the opened state in it.
file_fragment-IsBounded :
    (key : FragmentKey) (p : ParsedPacket) (marked : Option FragmentState) (s : FragmentState)
    (r r' : Reassembler)
    → IsBounded r
    → IsOpened key s r r'
    → mark_final p s ≡ marked
    → IsBounded (file_fragment key p marked r').1
unfolding file_fragment
file_fragment-IsBounded key p none s r r' h o e =
    dropped-IsBounded key r _ h (same-IsAccounted r' _ o.accounted refl refl refl refl) o.limits
      o.others
file_fragment-IsBounded key p (some t) s r r' h o e =
    let same = mark_final-Same p s t e in
    let after = absorb p t in
    let filed = account-IsAccounted key p t r' o.accounted (s, o.stored, same, o.counted) in
    elim (Bool-cases (has_conflicting_overlap p.fragment_offset p.network_payload t.ranges)) [
      | inl clash ↦ rw clash (
          dropped-IsBounded key r _ h
            (put-IsAccounted key t r' _ o.accounted (Same-IsCounted key t s same o.counted) refl
              (omega (arith, same.0, ap (weigh bytes_of) o.stored))
              (omega (arith, ap length same.1, ap (weigh ranges_of) o.stored))
              (omega (arith, ap length same.2, ap (weigh sources_of) o.stored)))
            o.limits (remove-put key t r'.states ∙ o.others))
      | inr agree ↦
          elim (Bool-cases (ltb r'.limits.max_ranges_per_datagram (length after.ranges))) [
            | inl many ↦
                let (limits, states) = account-states key t after r' in
                rw (agree, many)
                  (counter-IsBounded _ _ _ (
                    dropped-IsBounded key r (account key t after r') h filed (limits ∙ o.limits)
                      (ap (remove key) states ∙ remove-put key after r'.states ∙ o.others)))
            | inr few ↦
                let (kept, within) = evict_to_limits-IsAccounted (account key t after r') filed in
                let bounded : IsBounded (evict_to_limits (account key t after r')) = record {
                  accounted = kept;
                  within = within;
                } in
                elim (Bool-cases (contains key (evict_to_limits (account key t after r')).states)) [
                  | inl there ↦
                      rw (agree, few, there)
                        (unfold complete in
                          conclude_if-IsBounded key after.first_fragment after.final_end after _
                            bounded)
                  | inr gone ↦ rw (agree, few, gone) bounded
                ]
          ]
    ]

process_fragment-IsBounded :
    (clock : ℕ) (key : FragmentKey) (p : ParsedPacket) (r : Reassembler)
    → IsBounded r
    → IsBounded (process_fragment clock key p r).1
unfolding process_fragment
process_fragment-IsBounded clock key p r h =
    let size = length p.network_payload in
    let malformed =
      ltb r.limits.max_datagram_bytes (p.fragment_offset + size)
      || (p.more_fragments && (size == 0 || not (size % 8 == 0))) in
    elim (Bool-cases malformed) [
      | inl refused ↦ rw refused (
          dropped-IsBounded key r _ h (same-IsAccounted r _ h.accounted refl refl refl refl) refl
            refl)
      | inr accepted ↦ rw accepted (
          file_fragment-IsBounded key p (mark_final p (open_fragment clock key p r).0)
            (open_fragment clock key p r).0 r (open_fragment clock key p r).1 h
            (open_fragment-IsOpened clock key p r h.accounted) refl)
    ]

process_id-IsBounded :
    (clock : ℕ) (p : ParsedPacket) (id : Option ℕ) (r : Reassembler)
    → IsBounded r
    → IsBounded (process_id clock p id r).1
unfolding process_id
process_id-IsBounded clock p none r h = h
process_id-IsBounded clock p (some n) r h =
    elim (Bool-cases (p.fragment_offset == 0 && not p.more_fragments)) [
      | inl whole ↦ rw whole h
      | inr part ↦ rw part (process_fragment-IsBounded clock (key_of n p) p r h)
    ]

-- Whatever the packet, a call of `process` leaves the totals those of the stored states, one for
-- each key, and every limit kept, if it finds them so.
pub process-IsBounded :
    (clock : ℕ) (p : ParsedPacket) (r : Reassembler) → IsBounded r → IsBounded (process clock p r).1
unfolding process
process-IsBounded clock p r h = process_id-IsBounded clock p p.fragment_id r h

pub discard_all-IsBounded :
    (keys : List FragmentKey) (r : Reassembler) → IsBounded r → IsBounded (discard_all keys r)
unfolding discard_all
discard_all-IsBounded [] r h = h
discard_all-IsBounded (key ∷ keys) r h =
    discard_all-IsBounded keys (discard key r) (dropped-IsBounded key r r h h.accounted refl refl)

pub expire-IsBounded : (now : ℕ) (r : Reassembler) → IsBounded r → IsBounded (expire now r).1
unfolding expire
expire-IsBounded now r h =
    counter-IsBounded _ _ _ (discard_all-IsBounded (stale_keys now r.limits.idle_ns r.states) r h)

pub expire_lru-IsBounded :
    (now : ℕ) (r : Reassembler) → IsBounded r → IsBounded (expire_lru now r).1
unfolding expire_lru
expire_lru-IsBounded now r h =
    counter-IsBounded _ _ _ (discard_all-IsBounded (stale_prefix now r.limits.idle_ns r.states) r h)
