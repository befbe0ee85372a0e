-- ===== src/Fragments/Whole.antt =====
-- When the stored ranges are a whole datagram, the final loop of the reassembler takes them so.
use packet_inspector_windows.Prelude.{
  ℕ, ◌-◌, ◌≤◌, ◌<◌, ◌≡◌, refl, sym, ◌∙◌, inl, inr, true, false, none, some, List, [], ◌∷◌, ◌++◌,
  Bytes, arith, length, get_elem?, get_elem?_out, ltb, ◌==◌, Bool-cases,
}
use packet_inspector_windows.Segments.{Segment, end_of}
use packet_inspector_windows.Segments.Cover.{byte_at, byte_in_covered, byte_in_uncovered}
use packet_inspector_windows.Segments.Conflict.{byte_at_below}
use packet_inspector_windows.Segments.Order.{Above}
use packet_inspector_windows.Models.{ParsedPacket}
use packet_inspector_windows.Packets.Result.{ok, ◌>>=◌}
use packet_inspector_windows.Packets.{normalize_reassembled_ipv6, parse_transport}
use packet_inspector_windows.Fragments.State.{FragmentKey, FragmentState, Reassembler, discard}
use packet_inspector_windows.Fragments.Process.{
  assembled, assemble_from, assemble, conclude, conclude_if, complete, finish,
}
use packet_inspector_windows.Fragments.Assembly.{Consistent, assemble-Consistent}
use packet_inspector_windows.Fragments.Spread.{byte_at_behind}

-- From a position on up to the end, a byte is stored everywhere, and none at the end or behind it.
pub record IsWhole (cursor final_end : ℕ) (ranges : List (Segment (Unit {0}))) : Type 0 where
  pub filled : (i : ℕ) → cursor ≤ i → i < final_end → (b : ℕ) × (byte_at ranges i ≡ some b)
  pub bounded : (i b : ℕ) → byte_at ranges i ≡ some b → i < final_end

get_elem?_below : (bytes : Bytes) (i b : ℕ) → get_elem? bytes i ≡ some b → i < length bytes
get_elem?_below bytes i b found = elim (Bool-cases (ltb i (length bytes))) [
  | inl inside ↦ ground (arith, inside)
  | inr outside ↦ absurd (cc (sym (get_elem?_out bytes i (ground (arith, outside))) ∙ found))
]

-- The first range starts at the position, and ends at the end or before it.
IsWhole-start :
    (cursor final_end : ℕ) (s : Segment (Unit {0})) (ss : List (Segment (Unit {0})))
    → Above cursor (s ∷ ss)
    → IsWhole cursor final_end (s ∷ ss)
    → (s.start ≡ cursor) × (end_of s ≤ final_end)
IsWhole-start cursor final_end s ss (from, some_byte, a) w =
    let (b, last) = byte_in_covered s (end_of s - 1) (ground arith) in
    let below = w.bounded (end_of s - 1) b (unfold byte_at in rw last refl) in
    elim (Bool-cases (s.start == cursor)) [
      | inl here ↦ (ground (arith, here), omega (arith, below, some_byte))
      | inr other ↦
          let before : cursor < s.start = ground (arith, other, from) in
          let (c, found) =
            w.filled cursor (omega arith) (omega (arith, before, below, some_byte)) in
          let missing : byte_at (s ∷ ss) cursor ≡ none =
            unfold byte_at in
            rw (byte_in_uncovered s cursor (ground arith))
              (byte_at_below (end_of s) ss cursor a (omega (arith, before))) in
          absurd (cc (sym missing ∙ found))
    ]

IsWhole-rest :
    (cursor final_end : ℕ) (s : Segment (Unit {0})) (ss : List (Segment (Unit {0})))
    → Above cursor (s ∷ ss)
    → IsWhole cursor final_end (s ∷ ss)
    → IsWhole (end_of s) final_end ss
unfolding byte_at
IsWhole-rest cursor final_end s ss (from, some_byte, a) w = record {
  filled = λ i past inside.
      let (b, found) = w.filled i (omega (arith, from, past)) inside in
      let outside = byte_in_uncovered s i (ground (arith, past)) in (b, rw outside at found);
  bounded = λ i b found. w.bounded i b (byte_at_behind s ss i b a found);
}

assemble_from-IsWhole :
    (cursor : ℕ) (done : Bytes) (final_end : ℕ) (items : List (Segment (Unit {0})))
    → cursor ≤ final_end
    → Above cursor items
    → IsWhole cursor final_end items
    → (payload : Bytes) × (assemble_from cursor done final_end items ≡ assembled payload)
unfolding assemble_from
assemble_from-IsWhole cursor done final_end [] le a w = elim (Bool-cases (cursor == final_end)) [
  | inl there ↦ (done, rw there refl)
  | inr short ↦
      let (b, found) = w.filled cursor (omega arith) (ground (arith, short, le)) in
      absurd (unfold byte_at in cc found)
]
assemble_from-IsWhole cursor done final_end (s ∷ ss) le a w =
    let (start, inside) = IsWhole-start cursor final_end s ss a w in
    let here : (s.start == cursor) ≡ true = ground (arith, start) in
    let fits : ltb final_end (end_of s) ≡ false = ground (arith, inside) in
    elim (Bool-cases (end_of s == final_end)) [
      | inl ended ↦ (done ++ s.bytes, rw (here, fits, ended) refl)
      | inr on ↦
          let (payload, rest) =
            assemble_from-IsWhole (end_of s) (done ++ s.bytes) final_end ss inside a.2
              (IsWhole-rest cursor final_end s ss a w) in
          (payload, rw (here, fits, on) rest)
    ]

-- A state that has the first fragment and the end of a datagram, was not cut off, and whose ranges
-- are in order and apart, hold bytes of the datagram alone and one at each of its positions, is
-- completed: `complete` returns what the header walk and the transport parser make of the whole
-- datagram under the header of the first fragment, and drops the state.
pub complete_lem :
    (datagram : Bytes) (key : FragmentKey) (base : ParsedPacket) (state : FragmentState)
    (r : Reassembler)
    → state.first_fragment ≡ some base
    → state.final_end ≡ some (length datagram)
    → state.truncated ≡ false
    → Above 0 state.ranges
    → Consistent datagram state.ranges
    → ((i : ℕ) → i < length datagram → (b : ℕ) × (byte_at state.ranges i ≡ some b))
    → complete key state r ≡ (
      (do
        normalized ← normalize_reassembled_ipv6 (finish base state datagram)
        parsed ← parse_transport normalized
        ok (some parsed)),
      discard key r,
    )
unfolding complete conclude_if conclude assemble
complete_lem datagram key base state r first ends whole ordered stored filled =
    let (payload, made) =
      assemble_from-IsWhole 0 [] (length datagram) state.ranges (omega arith) ordered (record {
        filled = λ i _ inside. filled i inside;
        bounded = λ i b found. get_elem?_below datagram i b (stored i b found);
      }) in
    let same = assemble-Consistent datagram payload state.ranges stored (unfold assemble in made) in
    rw (first, ends, whole, made, same) refl
