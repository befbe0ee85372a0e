-- ===== src/OrderedDict.antt =====
-- Python's `OrderedDict` as an association list, oldest entry first. Assigning to a key that is
-- there keeps its place, and `move_to_end` makes it the newest.
pub mod Sums
pub mod Every
pub mod Distinct
use packet_inspector_windows.Prelude.{
  Bool, true, false, Option, none, some, List, [], ◌∷◌, ◌++◌, Eq, if◌then◌else◌, is_some,
}

abbrev pub OrderedDict {ℓ κ} : Type ℓ → Type κ → Type (ℓ ⊔ κ)
OrderedDict K V = List (K × V)

module _ {ℓ κ} {K : Type ℓ} {V : Type κ} ⦃e : Eq K⦄ where
  -- d.get(k)
  unfoldable pub get : K → OrderedDict K V → Option V
  get k [] = none
  get k ((j, v) ∷ d) = if e.test j k then some v else get k d

  -- d.pop(k, None), without the value
  unfoldable pub remove : K → OrderedDict K V → OrderedDict K V
  remove k [] = []
  remove k ((j, v) ∷ d) = if e.test j k then d else (j, v) ∷ remove k d

  -- d[k] = v
  unfoldable pub put : K → V → OrderedDict K V → OrderedDict K V
  put k v [] = (k, v) ∷ []
  put k v ((j, w) ∷ d) = if e.test j k then (j, v) ∷ d else (j, w) ∷ put k v d

  abbrev reinsert : K → Option V → OrderedDict K V → OrderedDict K V
  reinsert k none d = d
  reinsert k (some v) d = remove k d ++ (k, v) ∷ []

  -- d.move_to_end(k), for a key that is there
  unfoldable pub move_to_end : K → OrderedDict K V → OrderedDict K V
  move_to_end k d = reinsert k (get k d) d

  -- k in d
  abbrev pub contains : K → OrderedDict K V → Bool
  contains k d = is_some (get k d)
