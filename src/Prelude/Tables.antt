-- ===== src/Prelude/Tables.antt =====
-- `HashMap` and `HashSet` as association lists and lists. No operation that is modelled with
-- them depends on the order of iteration.
use mathlib.Core.Path.{◌≡◌, refl}
use mathlib.Core.Bool.{Bool, false, ◌||◌}
use mathlib.Core.Logic.{inl, inr}
use mathlib.Core.List.{List, [], ◌∷◌}
use mathlib.Core.Option.{Option, none, some}
use native.Mathlib.Omega.{arith}
use court_kernel.Prelude.Tests.{Key, ◌==◌, if◌then◌else◌, Bool-cases}

abbrev pub Table {ℓ κ} : Type ℓ → Type κ → Type (ℓ ⊔ κ)
Table K V = List (K × V)

module _ {ℓ κ} {K : Type ℓ} {V : Type κ} ⦃e : Key K⦄ where
  unfoldable pub get : Table K V → K → Option V
  get [] k = none
  get ((j, v) ∷ m) k = if j == k then some v else get m k

  unfoldable pub insert : Table K V → K → V → Table K V
  insert [] k v = (k, v) ∷ []
  insert ((j, w) ∷ m) k v = if j == k then (k, v) ∷ m else (j, w) ∷ insert m k v

  -- `HashMap::remove`
  unfoldable pub remove : Table K V → K → Table K V
  remove [] k = []
  remove ((j, v) ∷ m) k = let rest = remove m k in if j == k then rest else (j, v) ∷ rest

  pub get-insert :
      (m : Table K V) (k j : K) (v : V)
      → get (insert m k v) j ≡ (if k == j then some v else get m j)
  unfolding get insert
  get-insert [] k j v = refl
  get-insert ((i, w) ∷ m) k j v =
      ground (arith, e.same_iff k j, e.same_iff i k, e.same_iff i j, get-insert m k j v)

  pub get-insert_self : (m : Table K V) (k : K) (v : V) → get (insert m k v) k ≡ some v
  get-insert_self m k v = rw (get-insert m k k v, (e.same_iff k k).1 refl)

  pub get-insert_ne : (m : Table K V) (k j : K) (v : V) → ¬ (k ≡ j) → get (insert m k v) j ≡ get m j
  get-insert_ne m k j v h = elim (Bool-cases (k == j)) [
    | inl p ↦ absurd (h ((e.same_iff k j).0 p))
    | inr p ↦ rw (get-insert m k j v, p)
  ]

module _ {ℓ} {K : Type ℓ} ⦃e : Key K⦄ where
  -- `HashSet::contains` and `HashSet::insert`
  unfoldable pub contains : List K → K → Bool
  contains [] k = false
  contains (j ∷ s) k = j == k || contains s k

  unfoldable pub add : List K → K → List K
  unfolding contains
  add s k = if contains s k then s else k ∷ s

  pub contains-add : (s : List K) (k j : K) → contains (add s k) j ≡ (k == j || contains s j)
  unfolding add
  contains-add s k j = ground (arith, e.same_iff k j)
