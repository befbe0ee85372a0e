-- ===== src/OrderedDict/Distinct.antt =====
-- A dictionary has each key once: every operation keeps it so, and reads what it wrote.
use packet_inspector_windows.Prelude.{
  ◌≡◌, refl, sym, ◌∙◌, true, false, none, some, [], ◌∷◌, ◌++◌, Eq, arith, inl, inr, Bool-cases,
  Option-cases,
}
use packet_inspector_windows.OrderedDict.{OrderedDict, get, remove, put, move_to_end}

module _ {ℓ} {K : Type ℓ} ⦃e : Eq K⦄ where
  test_false : (k j : K) → e.test j k ≡ false → e.test k j ≡ false
  test_false k j h = ground (arith, e.test_iff k j, e.test_iff j k)

module _ {ℓ κ} {K : Type ℓ} {V : Type κ} ⦃e : Eq K⦄ where
  abbrev pub Distinct : OrderedDict K V → Type κ
  Distinct [] = Unit
  Distinct ((k, _) ∷ d) = (get k d ≡ none) × Distinct d

  get-remove_other : (j k : K) (d : OrderedDict K V) → get j d ≡ none → get j (remove k d) ≡ none
  unfolding get remove
  get-remove_other j k [] h = refl
  get-remove_other j k ((i, v) ∷ d) h = ground (arith, get-remove_other j k d)

  get-put_other :
      (j k : K) (v : V) (d : OrderedDict K V)
      → e.test k j ≡ false
      → get j d ≡ none
      → get j (put k v d) ≡ none
  unfolding get put
  get-put_other j k v [] ne h = rw ne refl
  get-put_other j k v ((i, w) ∷ d) ne h = ground (arith, get-put_other j k v d)

  get-concat :
      (j k : K) (v : V) (d : OrderedDict K V)
      → e.test k j ≡ false
      → get j d ≡ none
      → get j (d ++ (k, v) ∷ []) ≡ none
  unfolding get
  get-concat j k v [] ne h = rw ne refl
  get-concat j k v ((i, w) ∷ d) ne h = ground (arith, get-concat j k v d)

  -- A key that was missing is read where it was appended.
  get-concat_self :
      (k : K) (v : V) (d : OrderedDict K V) → get k d ≡ none → get k (d ++ (k, v) ∷ []) ≡ some v
  unfolding get
  get-concat_self k v [] h = ground (arith, e.test_iff k k)
  get-concat_self k v ((i, w) ∷ d) h = ground (arith, get-concat_self k v d)

  pub Distinct-remove : (k : K) (d : OrderedDict K V) → Distinct d → Distinct (remove k d)
  unfolding remove
  Distinct-remove k [] h = tt
  Distinct-remove k ((j, w) ∷ d) h = elim (Bool-cases (e.test j k)) [
    | inl same ↦ rw same h.1
    | inr other ↦ rw other (get-remove_other j k d h.0, Distinct-remove k d h.1)
  ]

  pub Distinct-put : (k : K) (v : V) (d : OrderedDict K V) → Distinct d → Distinct (put k v d)
  unfolding put
  Distinct-put k v [] h = (unfold get in refl, tt)
  Distinct-put k v ((j, w) ∷ d) h = elim (Bool-cases (e.test j k)) [
    | inl same ↦ rw same h
    | inr other ↦
        rw other (get-put_other j k v d (test_false k j other) h.0, Distinct-put k v d h.1)
  ]

  get_same :
      (k j : K) (w : V) (d : OrderedDict K V) → e.test j k ≡ true → get k ((j, w) ∷ d) ≡ some w
  unfolding get
  get_same k j w d h = rw h refl

  get_other :
      (k j : K) (w : V) (d : OrderedDict K V) → e.test j k ≡ false → get k ((j, w) ∷ d) ≡ get k d
  unfolding get
  get_other k j w d h = rw h refl

  pub Distinct-concat :
      (k : K) (v : V) (d : OrderedDict K V)
      → Distinct d
      → get k d ≡ none
      → Distinct (d ++ (k, v) ∷ [])
  Distinct-concat k v [] h g = (unfold get in refl, tt)
  Distinct-concat k v ((j, w) ∷ d) h g = elim (Bool-cases (e.test j k)) [
    | inl same ↦ absurd (cc (get_same k j w d same))
    | inr other ↦ (
      get-concat j k v d (test_false k j other) h.0,
      Distinct-concat k v d h.1 (sym (get_other k j w d other) ∙ g),
    )
  ]

  -- What is removed is gone.
  pub get-remove_self : (k : K) (d : OrderedDict K V) → Distinct d → get k (remove k d) ≡ none
  unfolding get remove
  get-remove_self k [] h = refl
  get-remove_self k ((j, w) ∷ d) h = ground (arith, e.test_iff j k, get-remove_self k d)

  pub get-move_to_end :
      (k : K) (d : OrderedDict K V) → Distinct d → get k (move_to_end k d) ≡ get k d
  unfolding move_to_end
  get-move_to_end k d h = elim (Option-cases (get k d)) [
    | inl missing ↦ rw missing missing
    | inr (v, found) ↦ rw found (get-concat_self k v (remove k d) (get-remove_self k d h))
  ]

  pub Distinct-move_to_end : (k : K) (d : OrderedDict K V) → Distinct d → Distinct (move_to_end k d)
  unfolding move_to_end
  Distinct-move_to_end k d h = elim (Option-cases (get k d)) [
    | inl missing ↦ rw missing h
    | inr (v, found) ↦
        rw found (Distinct-concat k v (remove k d) (Distinct-remove k d h) (get-remove_self k d h))
  ]

  pub remove_missing : (k : K) (d : OrderedDict K V) → get k d ≡ none → remove k d ≡ d
  unfolding get remove
  remove_missing k [] h = refl
  remove_missing k ((j, w) ∷ d) h = ground (arith, remove_missing k d)

  pub remove-put : (k : K) (v : V) (d : OrderedDict K V) → remove k (put k v d) ≡ remove k d
  unfolding remove put
  remove-put k v [] = ground (arith, e.test_iff k k)
  remove-put k v ((j, w) ∷ d) = ground (arith, remove-put k v d)

  remove-concat :
      (k : K) (v : V) (d : OrderedDict K V) → get k d ≡ none → remove k (d ++ (k, v) ∷ []) ≡ d
  unfolding get remove
  remove-concat k v [] h = ground (arith, e.test_iff k k)
  remove-concat k v ((j, w) ∷ d) h = ground (arith, remove-concat k v d)

  pub remove-move_to_end :
      (k : K) (d : OrderedDict K V) → Distinct d → remove k (move_to_end k d) ≡ remove k d
  unfolding move_to_end
  remove-move_to_end k d h = elim (Option-cases (get k d)) [
    | inl missing ↦ rw missing refl
    | inr (v, found) ↦ rw found (remove-concat k v (remove k d) (get-remove_self k d h))
  ]
