-- ===== src/Fragments/Evicted.antt =====
-- What discarding and eviction keep of every stored state.
use packet_inspector_windows.Prelude.{
  ℕ, zero, suc, ◌≡◌, refl, ◌∙◌, arith, [], ◌∷◌, length, Bool-cases, Option-cases, inl, inr,
}
use packet_inspector_windows.OrderedDict.{OrderedDict, get}
use packet_inspector_windows.OrderedDict.Every.{Every, Every-remove}
use packet_inspector_windows.Fragments.State.{
  FragmentKey, FragmentState, Reassembler, fragment_keys, drop_state, discard, discard_oldest,
  evict_one, evict_rounds, evict_to_limits, over_limits,
}

pub discard-limits : (key : FragmentKey) (r : Reassembler) → (discard key r).limits ≡ r.limits
unfolding discard drop_state
discard-limits key r = ground arith

discard_oldest-limits :
    (d : OrderedDict FragmentKey FragmentState) (r : Reassembler)
    → (discard_oldest d r).limits ≡ r.limits
unfolding discard_oldest
discard_oldest-limits [] r = refl
discard_oldest-limits ((key, _) ∷ _) r = discard-limits key r

evict_rounds-limits : (n : ℕ) (r : Reassembler) → (evict_rounds n r).limits ≡ r.limits
unfolding evict_rounds
evict_rounds-limits zero r = refl
evict_rounds-limits (suc n) r = elim (Bool-cases (over_limits r)) [
  | inl over ↦ rw over (evict_rounds-limits n (evict_one r) ∙ discard_oldest-limits r.states r)
  | inr within ↦ rw within refl
]

pub evict_to_limits-limits : (r : Reassembler) → (evict_to_limits r).limits ≡ r.limits
unfolding evict_to_limits
evict_to_limits-limits r = evict_rounds-limits (length r.states) r

-- Discarding, however often, keeps what is known of every state.
module _ (P : FragmentKey → FragmentState → Type 0) where
  pub Every-discard :
      (key : FragmentKey) (r : Reassembler) → Every P r.states → Every P (discard key r).states
  unfolding discard drop_state
  Every-discard key r h = elim (Option-cases (get key r.states)) [
    | inl missing ↦ rw missing h
    | inr (state, found) ↦ rw found (Every-remove P key r.states h)
  ]

  Every-discard_oldest :
      (d : OrderedDict FragmentKey FragmentState) (r : Reassembler)
      → Every P r.states
      → Every P (discard_oldest d r).states
  unfolding discard_oldest
  Every-discard_oldest [] r h = h
  Every-discard_oldest ((key, _) ∷ _) r h = Every-discard key r h

  Every-evict_rounds :
      (n : ℕ) (r : Reassembler) → Every P r.states → Every P (evict_rounds n r).states
  unfolding evict_rounds
  Every-evict_rounds zero r h = h
  Every-evict_rounds (suc n) r h = elim (Bool-cases (over_limits r)) [
    | inl over ↦ rw over (Every-evict_rounds n (evict_one r) (Every-discard_oldest r.states r h))
    | inr within ↦ rw within h
  ]

  pub Every-evict_to_limits :
      (r : Reassembler) → Every P r.states → Every P (evict_to_limits r).states
  unfolding evict_to_limits
  Every-evict_to_limits r h = Every-evict_rounds (length r.states) r h
