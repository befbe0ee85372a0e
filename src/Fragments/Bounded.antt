-- ===== src/Fragments/Bounded.antt =====
-- The fragment reassembler between two calls: its totals, and the limits on them.
use packet_inspector_windows.Prelude.{
  ◌+◌, ◌≤◌, ◌≡◌, refl, ap, sym, ◌∙◌, arith, length, Option-cases, inl, inr,
}
use packet_inspector_windows.OrderedDict.{get, remove, put}
use packet_inspector_windows.OrderedDict.Sums.{weigh, total, total-remove, total-put, length-remove}
use packet_inspector_windows.OrderedDict.Every.{Every-put}
use packet_inspector_windows.OrderedDict.Distinct.{Distinct-put, remove_missing}
use packet_inspector_windows.Fragments.State.{
  FragmentKey, FragmentState, Reassembler, fragment_keys, drop_state, discard,
}
use packet_inspector_windows.Fragments.Evicted.{discard-limits}
use packet_inspector_windows.Fragments.Accounting.{
  bytes_of, ranges_of, sources_of, IsCounted, IsAccounted, WithinLimits, discard-IsAccounted,
}

-- A value is put at a key, and the totals move by the difference to what stood there.
pub put-IsAccounted :
    (key : FragmentKey) (v : FragmentState) (r r' : Reassembler)
    → IsAccounted r
    → IsCounted key v
    → r'.states ≡ put key v r.states
    → r'.buffered_bytes + weigh bytes_of (get key r.states) ≡ r.buffered_bytes + bytes_of v
    → r'.buffered_ranges + weigh ranges_of (get key r.states) ≡ r.buffered_ranges + ranges_of v
    → r'.buffered_provenance_entries + weigh sources_of (get key r.states)
      ≡ r.buffered_provenance_entries + sources_of v
    → IsAccounted r'
put-IsAccounted key v r r' h c e bytes ranges sources = record {
  distinct = rw e (Distinct-put key v r.states h.distinct);
  counted = rw e (Every-put IsCounted key v r.states h.counted c);
  bytes = omega (arith, bytes, h.bytes, total-put bytes_of key v r.states, ap (total bytes_of) e);
  ranges =
      omega (arith, ranges, h.ranges, total-put ranges_of key v r.states, ap (total ranges_of) e);
  provenance =
      omega (
        arith,
        sources,
        h.provenance,
        total-put sources_of key v r.states,
        ap (total sources_of) e,
      );
}

-- Only counters differ.
pub same-IsAccounted :
    (r r' : Reassembler)
    → IsAccounted r
    → r'.states ≡ r.states
    → r'.buffered_bytes ≡ r.buffered_bytes
    → r'.buffered_ranges ≡ r.buffered_ranges
    → r'.buffered_provenance_entries ≡ r.buffered_provenance_entries
    → IsAccounted r'
same-IsAccounted r r' h e bytes ranges sources = record {
  distinct = rw e h.distinct;
  counted = rw e h.counted;
  bytes = bytes ∙ h.bytes ∙ ap (total bytes_of) (sym e);
  ranges = ranges ∙ h.ranges ∙ ap (total ranges_of) (sym e);
  provenance = sources ∙ h.provenance ∙ ap (total sources_of) (sym e);
}

-- What holds between two calls.
pub record IsBounded (r : Reassembler) : Type 0 where
  pub accounted : IsAccounted r
  pub within : WithinLimits r

-- Fewer states, under the same limits.
within_fewer :
    (r r' : Reassembler)
    → IsBounded r
    → IsAccounted r'
    → r'.limits ≡ r.limits
    → length r'.states ≤ length r.states
    → total bytes_of r'.states ≤ total bytes_of r.states
    → total ranges_of r'.states ≤ total ranges_of r.states
    → total sources_of r'.states ≤ total sources_of r.states
    → WithinLimits r'
within_fewer r r' h k e states bytes ranges sources =
    let w = h.within in
    let a = h.accounted in
    record {
      datagrams = rw e (omega (arith, w.datagrams, states));
      bytes = rw e (omega (arith, w.bytes, a.bytes, k.bytes, bytes));
      ranges = rw e (omega (arith, w.ranges, a.ranges, k.ranges, ranges));
      provenance = rw e (omega (arith, w.provenance, a.provenance, k.provenance, sources));
    }

pub discard-states :
    (key : FragmentKey) (r : Reassembler) → (discard key r).states ≡ remove key r.states
unfolding discard drop_state
discard-states key r = elim (Option-cases (get key r.states)) [
  | inl missing ↦ rw missing (sym (remove_missing key r.states missing))
  | inr (s, found) ↦ rw found refl
]

-- A state is dropped, whatever it has become since.
pub dropped-IsBounded :
    (key : FragmentKey) (r r' : Reassembler)
    → IsBounded r
    → IsAccounted r'
    → r'.limits ≡ r.limits
    → remove key r'.states ≡ remove key r.states
    → IsBounded (discard key r')
dropped-IsBounded key r r' h k e same =
    let kept = discard-IsAccounted key r' k in
    let left = discard-states key r' ∙ same in
    record {
      accounted = kept;
      within =
          within_fewer r (discard key r') h kept (discard-limits key r' ∙ e)
            (omega (arith, ap length left, length-remove key r.states))
            (omega (arith, ap (total bytes_of) left, total-remove bytes_of key r.states))
            (omega (arith, ap (total ranges_of) left, total-remove ranges_of key r.states))
            (omega (arith, ap (total sources_of) left, total-remove sources_of key r.states));
    }
