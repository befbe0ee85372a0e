-- ===== src/Fragments/Datagram.antt =====
-- From fragments in any order, repeated or overlapping, `process` hands on the datagram that was
-- cut up, or nothing.
use packet_inspector_windows.Prelude.{
  ℕ, ◌+◌, ◌≡◌, refl, ◌⊎◌, inl, inr, true, false, not, List, ◌&&◌, ◌||◌, Option, none, some, [], ◌∷◌,
  Bytes, length, ltb, ◌==◌, ◌%◌, Bool-cases, Option-cases,
}
use packet_inspector_windows.OrderedDict.{OrderedDict, get, put, contains}
use packet_inspector_windows.OrderedDict.Every.{Every, Every-get, Every-put, Every-move_to_end}
use packet_inspector_windows.Models.{ParsedPacket, contributing_ids}
use packet_inspector_windows.Segments.{has_conflicting_overlap}
use packet_inspector_windows.Packets.Result.{Result, ok, ◌>>=◌}
use packet_inspector_windows.Packets.{normalize_reassembled_ipv6, parse_transport}
use packet_inspector_windows.Fragments.State.{
  FragmentKey, FragmentState, Reassembler, fragment_keys, key_of, discard, evict_to_limits,
}
use packet_inspector_windows.Fragments.Process.{
  mark_final, absorb, account, Assembled, waiting, overrun, assembled, assemble, finish, conclude,
  conclude_if, complete, file_fragment, open_fragment, process_fragment, process_id, process,
  Outcome, drop_conflict, pending, member, stale_keys, stale_prefix, discard_all, expire,
  expire_lru,
}
use packet_inspector_windows.Fragments.Collected.{
  Holds, IsFragment, fresh_state-Holds, touch-Holds, mark_final-Holds, absorb-Holds,
}
use packet_inspector_windows.Fragments.Evicted.{Every-discard, Every-evict_to_limits}
use packet_inspector_windows.Fragments.Assembly.{assemble-Consistent}

-- A completed datagram: what the parsers make of it under the header of a fragment that came and
-- starts at 0, with the packet number, the time and the source packets of fragments that came.
pub record IsDelivery (datagram : Bytes) (Came : ParsedPacket → Type 0)
    (result : Result (Option ParsedPacket)) : Type 0 where
  pub base : ParsedPacket
  pub base_came : Came base
  pub base_first : base.fragment_offset ≡ 0
  pub state : FragmentState
  pub newest : (q : ParsedPacket) × Came q × (state.latest_packet_id ≡ q.packet_id)
  pub latest : (q : ParsedPacket) × Came q × (state.last_seen_ns ≡ q.timestamp_ns)
  pub sources :
      (i : ℕ)
      → member i state.source_packet_ids ≡ true
      → (q : ParsedPacket) × Came q × (member i (contributing_ids q) ≡ true)
  pub made : result ≡ (do
    normalized ← normalize_reassembled_ipv6 (finish base state datagram)
    parsed ← parse_transport normalized
    ok (some parsed))

-- What is handed on: nothing, or the whole datagram.
abbrev pub Delivers : Bytes → (ParsedPacket → Type 0) → Result (Option ParsedPacket) → Type 0
Delivers datagram Came result = (result ≡ ok none) ⊎ IsDelivery datagram Came result

module _ (datagram_of : FragmentKey → Bytes) (Came : FragmentKey → ParsedPacket → Type 0) where
  abbrev pub AllHold : OrderedDict FragmentKey FragmentState → Type 0
  AllHold = Every (λ key state. Holds (datagram_of key) (Came key) state)

  -- A call that keeps what is known, and hands on nothing but whole datagrams.
  pub record IsSound (key : FragmentKey) (o : Outcome) : Type 0 where
    pub states : AllHold o.1.states
    pub result : Delivers (datagram_of key) (Came key) o.0

  pending-IsSound :
      (key : FragmentKey) (r : Reassembler) → AllHold r.states → IsSound key (pending r)
  pending-IsSound key r h = record { states = h; result = inl refl }

  conclude-IsSound :
      (key : FragmentKey) (base : ParsedPacket) (state : FragmentState) (r : Reassembler)
      (found : Assembled)
      → AllHold r.states
      → Holds (datagram_of key) (Came key) state
      → state.first_fragment ≡ some base
      → assemble (length (datagram_of key)) state.ranges ≡ found
      → IsSound key (conclude key base state r found)
  unfolding conclude
  conclude-IsSound key base state r waiting h s first e = pending-IsSound key r h
  conclude-IsSound key base state r overrun h s first e =
      pending-IsSound key _ (Every-discard _ key (record r { overlap_conflicts = _ }) h)
  conclude-IsSound key base state r (assembled payload) h s first e = record {
    states = Every-discard _ key r h;
    result = inr (record {
      base = base;
      base_came = (s.first base first).0;
      base_first = (s.first base first).1;
      state = state;
      newest = s.newest;
      latest = s.latest;
      sources = s.sources;
      made = rw (assemble-Consistent (datagram_of key) payload state.ranges s.stored e) refl;
    });
  }

  conclude_if-IsSound :
      (key : FragmentKey) (first : Option ParsedPacket) (final_end : Option ℕ)
      (state : FragmentState) (r : Reassembler)
      → AllHold r.states
      → Holds (datagram_of key) (Came key) state
      → state.first_fragment ≡ first
      → ((n : ℕ) → final_end ≡ some n → n ≡ length (datagram_of key))
      → IsSound key (conclude_if key first final_end state r)
  unfolding conclude_if
  conclude_if-IsSound key (some base) (some n) state r h s known ends =
      elim (Bool-cases state.truncated) [
        | inl cut ↦ simp cut (pending-IsSound key r h)
        | inr whole ↦ simp whole (
            conclude-IsSound key base state r (assemble n state.ranges) h s known
              (rw (ends n refl)))
      ]
  conclude_if-IsSound key (some base) none state r h s known ends = pending-IsSound key r h
  conclude_if-IsSound key none (some n) state r h s known ends = pending-IsSound key r h
  conclude_if-IsSound key none none state r h s known ends = pending-IsSound key r h

  complete-IsSound :
      (key : FragmentKey) (state : FragmentState) (r : Reassembler)
      → AllHold r.states
      → Holds (datagram_of key) (Came key) state
      → IsSound key (complete key state r)
  unfolding complete
  complete-IsSound key state r h s =
      conclude_if-IsSound key state.first_fragment state.final_end state r h s refl s.ends

  drop_conflict-IsSound :
      (key : FragmentKey) (r : Reassembler) → AllHold r.states → IsSound key (drop_conflict key r)
  drop_conflict-IsSound key r h =
      pending-IsSound key _ (Every-discard _ key (record r { overlap_conflicts = _ }) h)

  file_fragment-IsSound :
      (key : FragmentKey) (p : ParsedPacket) (marked : Option FragmentState) (r : Reassembler)
      → AllHold r.states
      → Came key p
      → IsFragment (datagram_of key) p
      → ((state : FragmentState) → marked ≡ some state → Holds (datagram_of key) (Came key) state)
      → IsSound key (file_fragment key p marked r)
  unfolding file_fragment account
  file_fragment-IsSound key p none r h came f s = drop_conflict-IsSound key r h
  file_fragment-IsSound key p (some state) r h came f s =
      let known = s state refl in
      let later = absorb-Holds (datagram_of key) (Came key) p state came known f in
      let filed = account key state (absorb p state) r in
      let all =
        Every-put (λ k v. Holds (datagram_of k) (Came k) v) key (absorb p state) r.states h later in
      elim (Bool-cases (has_conflicting_overlap p.fragment_offset p.network_payload state.ranges)) [
        | inl clash ↦ rw clash (
            drop_conflict-IsSound key (record r { states = put key state r.states })
              (Every-put _ key state r.states h known))
        | inr agree ↦
            elim (Bool-cases
              (ltb r.limits.max_ranges_per_datagram (length (absorb p state).ranges))) [
                | inl many ↦
                    rw (agree, many) (pending-IsSound key _ (Every-discard _ key filed all))
                | inr few ↦ elim (Bool-cases (contains key (evict_to_limits filed).states)) [
                  | inl there ↦
                      rw (agree, few, there)
                        (complete-IsSound key (absorb p state) (evict_to_limits filed)
                          (Every-evict_to_limits _ filed all) later)
                  | inr gone ↦
                      rw (agree, few, gone)
                        (pending-IsSound key _ (Every-evict_to_limits _ filed all))
                ]
              ]
      ]

  open_fragment-Holds :
      (clock : ℕ) (key : FragmentKey) (p : ParsedPacket) (r : Reassembler)
      → AllHold r.states
      → Came key p
      → Holds (datagram_of key) (Came key) (open_fragment clock key p r).0
        × AllHold (open_fragment clock key p r).1.states
  unfolding open_fragment
  open_fragment-Holds clock key p r h came = elim (Option-cases (get key r.states)) [
    | inl missing ↦
        let held =
          touch-Holds clock (datagram_of key) (Came key) p _ came
            (fresh_state-Holds clock (datagram_of key) (Came key) p came) in
        rw missing (held, Every-put _ key _ r.states h held)
    | inr (state, found) ↦
        let held =
          touch-Holds clock (datagram_of key) (Came key) p state came
            (Every-get _ key state r.states h found) in
        rw found (held, Every-put _ key _ _ (Every-move_to_end _ key r.states h) held)
  ]

  process_fragment-IsSound :
      (clock : ℕ) (key : FragmentKey) (p : ParsedPacket) (r : Reassembler)
      → AllHold r.states
      → Came key p
      → IsFragment (datagram_of key) p
      → IsSound key (process_fragment clock key p r)
  unfolding process_fragment
  process_fragment-IsSound clock key p r h came f =
      let size = length p.network_payload in
      let (held, all) = open_fragment-Holds clock key p r h came in
      let state = (open_fragment clock key p r).0 in
      let malformed =
        ltb r.limits.max_datagram_bytes (p.fragment_offset + size)
        || (p.more_fragments && (size == 0 || not (size % 8 == 0))) in
      elim (Bool-cases malformed) [
        | inl refused ↦
            rw refused
              (pending-IsSound key _ (Every-discard _ key (record r { malformed_fragments = _ }) h))
        | inr accepted ↦ rw accepted (
            file_fragment-IsSound key p (mark_final p state) (open_fragment clock key p r).1 all
              came f
              (λ marked e. mark_final-Holds p state marked e (datagram_of key) (Came key) held f))
      ]

  -- A call with a fragment of the datagram of its key.
  pub process-IsSound :
      (clock fragment_id : ℕ) (p : ParsedPacket) (r : Reassembler)
      → AllHold r.states
      → p.fragment_id ≡ some fragment_id
      → (p.fragment_offset == 0 && not p.more_fragments) ≡ false
      → Came (key_of fragment_id p) p
      → IsFragment (datagram_of (key_of fragment_id p)) p
      → IsSound (key_of fragment_id p) (process clock p r)
  unfolding process process_id
  process-IsSound clock fragment_id p r h some_id partial came f =
      simp (some_id, partial) (process_fragment-IsSound clock (key_of fragment_id p) p r h came f)

  process_id-AllHold :
      (clock : ℕ) (p : ParsedPacket) (id : Option ℕ) (r : Reassembler)
      → AllHold r.states
      → ((n : ℕ)
          → id ≡ some n
          → (p.fragment_offset == 0 && not p.more_fragments) ≡ false
          → Came (key_of n p) p × IsFragment (datagram_of (key_of n p)) p)
      → AllHold (process_id clock p id r).1.states
  unfolding process_id
  process_id-AllHold clock p none r h f = h
  process_id-AllHold clock p (some n) r h f =
      elim (Bool-cases (p.fragment_offset == 0 && not p.more_fragments)) [
        | inl whole ↦ rw whole h
        | inr part ↦
            let (came, genuine) = f n refl part in
            rw part (process_fragment-IsSound clock (key_of n p) p r h came genuine).states
      ]

  -- Any call of `process`, if its packet is a fragment at all, with one of the datagram of its key.
  pub process-AllHold :
      (clock : ℕ) (p : ParsedPacket) (r : Reassembler)
      → AllHold r.states
      → ((n : ℕ)
          → p.fragment_id ≡ some n
          → (p.fragment_offset == 0 && not p.more_fragments) ≡ false
          → Came (key_of n p) p × IsFragment (datagram_of (key_of n p)) p)
      → AllHold (process clock p r).1.states
  unfolding process
  process-AllHold clock p r h f = process_id-AllHold clock p p.fragment_id r h f

  discard_all-AllHold :
      (keys : List FragmentKey) (r : Reassembler)
      → AllHold r.states
      → AllHold (discard_all keys r).states
  unfolding discard_all
  discard_all-AllHold [] r h = h
  discard_all-AllHold (key ∷ keys) r h =
      discard_all-AllHold keys (discard key r) (Every-discard _ key r h)

  pub expire-AllHold :
      (now : ℕ) (r : Reassembler) → AllHold r.states → AllHold (expire now r).1.states
  unfolding expire
  expire-AllHold now r h = discard_all-AllHold (stale_keys now r.limits.idle_ns r.states) r h

  pub expire_lru-AllHold :
      (now : ℕ) (r : Reassembler) → AllHold r.states → AllHold (expire_lru now r).1.states
  unfolding expire_lru
  expire_lru-AllHold now r h = discard_all-AllHold (stale_prefix now r.limits.idle_ns r.states) r h
