-- ===== src/OrderedDict/Every.antt =====
-- A property of every entry of a dictionary, kept by each operation.
use packet_inspector_windows.Prelude.{
  ◌≡◌, some, [], ◌∷◌, ◌++◌, Eq, arith, inl, inr, Bool-cases, Option-cases,
}
use packet_inspector_windows.OrderedDict.{OrderedDict, get, remove, put, move_to_end}

abbrev pub Every {ℓ κ} : {K : Type ℓ} {V : Type κ} → (K → V → Type 0) → OrderedDict K V → Type 0
Every P [] = Unit {0}
Every P ((k, v) ∷ d) = P k v × Every P d

module _ {ℓ κ} {K : Type ℓ} {V : Type κ} where
  pub Every-concat :
      (P : K → V → Type 0) (k : K) (v : V) (d : OrderedDict K V)
      → Every P d
      → P k v
      → Every P (d ++ (k, v) ∷ [])
  Every-concat P k v [] h p = (p, tt)
  Every-concat P k v ((j, w) ∷ d) h p = (h.0, Every-concat P k v d h.1 p)

  pub Every-imp :
      (P Q : K → V → Type 0) (d : OrderedDict K V)
      → ((k : K) (v : V) → P k v → Q k v)
      → Every P d
      → Every Q d
  Every-imp P Q [] f h = tt
  Every-imp P Q ((j, w) ∷ d) f h = (f j w h.0, Every-imp P Q d f h.1)

module _ {ℓ κ} {K : Type ℓ} {V : Type κ} ⦃e : Eq K⦄ (P : K → V → Type 0) where
  pub Every-get : (k : K) (v : V) (d : OrderedDict K V) → Every P d → get k d ≡ some v → P k v
  unfolding get
  Every-get k v [] h g = absurd (cc)
  Every-get k v ((j, w) ∷ d) h g = elim (Bool-cases (e.test j k)) [
    | inl same ↦
        let at_key : j ≡ k = (e.test_iff j k).0 same in
        let value : w ≡ v = ground arith in rw (← at_key, ← value) h.0
    | inr other ↦ Every-get k v d h.1 (rw other at g)
  ]

  pub Every-remove : (k : K) (d : OrderedDict K V) → Every P d → Every P (remove k d)
  unfolding remove
  Every-remove k [] h = tt
  Every-remove k ((j, w) ∷ d) h = elim (Bool-cases (e.test j k)) [
    | inl same ↦ rw same h.1
    | inr other ↦ rw other (h.0, Every-remove k d h.1)
  ]

  pub Every-put : (k : K) (v : V) (d : OrderedDict K V) → Every P d → P k v → Every P (put k v d)
  unfolding put
  Every-put k v [] h p = (p, tt)
  Every-put k v ((j, w) ∷ d) h p = elim (Bool-cases (e.test j k)) [
    | inl same ↦ let at_key : j ≡ k = (e.test_iff j k).0 same in rw same (rw (← at_key) at p, h.1)
    | inr other ↦ rw other (h.0, Every-put k v d h.1 p)
  ]

  pub Every-move_to_end : (k : K) (d : OrderedDict K V) → Every P d → Every P (move_to_end k d)
  unfolding move_to_end
  Every-move_to_end k d h = elim (Option-cases (get k d)) [
    | inl missing ↦ rw missing h
    | inr (v, found) ↦
        rw found (Every-concat P k v (remove k d) (Every-remove k d h) (Every-get k v d h found))
  ]
