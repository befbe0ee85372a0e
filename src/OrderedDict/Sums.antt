-- ===== src/OrderedDict/Sums.antt =====
-- What each operation of a dictionary does to a sum over its values, and to its keys.
use packet_inspector_windows.Prelude.{
  ℕ, ◌+◌, ◌≡◌, Option, none, some, [], ◌∷◌, ◌++◌, Eq, arith, inl, inr, Option-cases, length,
  length-append,
}
use packet_inspector_windows.OrderedDict.{OrderedDict, get, remove, put, move_to_end}

-- The measure of a value that may be missing.
abbrev pub weigh {ℓ} : {V : Type ℓ} → (V → ℕ) → Option V → ℕ
weigh f none = 0
weigh f (some v) = f v

abbrev pub total {ℓ κ} : {K : Type ℓ} {V : Type κ} → (V → ℕ) → OrderedDict K V → ℕ
total f [] = 0
total f ((_, v) ∷ d) = f v + total f d

abbrev one {ℓ} : {V : Type ℓ} → V → ℕ
one _ = 1

module _ {ℓ κ} {K : Type ℓ} {V : Type κ} where
  pub total-append : (f : V → ℕ) (c d : OrderedDict K V) → total f (c ++ d) ≡ total f c + total f d
  total-append f [] d = omega arith
  total-append f ((k, v) ∷ c) d = omega (arith, total-append f c d)

module _ {ℓ κ} {K : Type ℓ} {V : Type κ} ⦃e : Eq K⦄ where
  pub total-remove :
      (f : V → ℕ) (k : K) (d : OrderedDict K V)
      → total f (remove k d) + weigh f (get k d) ≡ total f d
  unfolding get remove
  total-remove f k [] = omega arith
  total-remove f k ((j, v) ∷ d) = ground (arith, total-remove f k d)

  pub total-put :
      (f : V → ℕ) (k : K) (v : V) (d : OrderedDict K V)
      → total f (put k v d) + weigh f (get k d) ≡ total f d + f v
  unfolding get put
  total-put f k v [] = omega arith
  total-put f k v ((j, w) ∷ d) = ground (arith, total-put f k v d)

  pub total-move_to_end :
      (f : V → ℕ) (k : K) (d : OrderedDict K V) → total f (move_to_end k d) ≡ total f d
  unfolding move_to_end
  total-move_to_end f k d = elim (Option-cases (get k d)) [
    | inl missing ↦ rw missing
    | inr (v, found) ↦
        rw found (
          omega
            (arith, total-append f (remove k d) ((k, v) ∷ []), rw found at (total-remove f k d)))
  ]

  pub length-remove :
      (k : K) (d : OrderedDict K V) → length (remove k d) + weigh (λ _. 1) (get k d) ≡ length d
  unfolding get remove
  length-remove k [] = omega arith
  length-remove k ((j, v) ∷ d) = ground (arith, length-remove k d)

  pub length-put :
      (k : K) (v : V) (d : OrderedDict K V)
      → length (put k v d) + weigh (λ _. 1) (get k d) ≡ length d + 1
  unfolding get put
  length-put k v [] = omega arith
  length-put k v ((j, w) ∷ d) = ground (arith, length-put k v d)

  pub length-move_to_end : (k : K) (d : OrderedDict K V) → length (move_to_end k d) ≡ length d
  unfolding move_to_end
  length-move_to_end k d = elim (Option-cases (get k d)) [
    | inl missing ↦ rw missing
    | inr (v, found) ↦
        rw found
          (omega (arith, length-append (remove k d) ((k, v) ∷ []), rw found at (length-remove k d)))
  ]

  -- What is assigned is read back.
  pub get-put_self : (k : K) (v : V) (d : OrderedDict K V) → get k (put k v d) ≡ some v
  unfolding get put
  get-put_self k v [] = ground (arith, e.test_iff k k)
  get-put_self k v ((j, w) ∷ d) = ground (arith, get-put_self k v d)

  -- The oldest key reads the oldest value, and removing it leaves the rest.
  pub get_oldest : (k : K) (v : V) (d : OrderedDict K V) → get k ((k, v) ∷ d) ≡ some v
  unfolding get
  get_oldest k v d = ground (arith, e.test_iff k k)

  pub remove_oldest : (k : K) (v : V) (d : OrderedDict K V) → remove k ((k, v) ∷ d) ≡ d
  unfolding remove
  remove_oldest k v d = ground (arith, e.test_iff k k)
