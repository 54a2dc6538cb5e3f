-- ===== src/Map.antt =====
-- std::map and std::set: the entries in the order of their keys, which is the order of iteration.
-- A set is a map into the type with one element.
pub mod Laws
pub mod Sorted
pub mod Multi
use diamond_apparatus.Base.{
  ℕ, length, Ordering, Bool, true, false, Option, none, some, List, [], ◌∷◌, map, if◌then◌else◌,
}
use diamond_apparatus.Base.Order.{Ord}

abbrev pub Map {ℓ κ} : Type ℓ → Type κ → Type (ℓ ⊔ κ)
Map K V = List (K × V)

abbrev pub Set {ℓ} : Type ℓ → Type ℓ
Set K = Map K (Unit {0})

abbrev pub branch {ℓ} : {A : Type ℓ} → Ordering → A → A → A → A
branch Ordering.lt x y z = x
branch Ordering.eq x y z = y
branch Ordering.gt x y z = z

abbrev pub keys {ℓ κ} : {K : Type ℓ} {V : Type κ} → Map K V → List K
keys = map (λ e. e.0)

abbrev pub is_some {ℓ} : {A : Type ℓ} → Option A → Bool
is_some none = false
is_some (some a) = true

abbrev pub same {ℓ} : {K : Type ℓ} ⦃o : Ord K⦄ → K → K → Bool
same ⦃o⦄ j k = branch (o.cmp j k) false true false

module _ {ℓ κ} {K : Type ℓ} {V : Type κ} ⦃o : Ord K⦄ where
  -- `find`; `none` is `end()`.
  unfoldable pub find : K → Map K V → Option V
  find k [] = none
  find k ((j, v) ∷ m) = if same k j then some v else find k m

  -- `m[k] = v`
  unfoldable pub insert : K → V → Map K V → Map K V
  insert k v [] = (k, v) ∷ []
  insert k v ((j, w) ∷ m) =
      branch (o.cmp k j) ((k, v) ∷ (j, w) ∷ m) ((k, v) ∷ m) ((j, w) ∷ insert k v m)

  -- `m.erase(k)`
  unfoldable pub erase : K → Map K V → Map K V
  erase k [] = []
  erase k ((j, v) ∷ m) = let rest = erase k m in if same k j then rest else (j, v) ∷ rest

  -- The value that `m[k]` reads, and the map after it: a missing key is entered with the value `d`
  -- of the default constructor.
  unfoldable pub at : V → K → Map K V → V
  at d k m = elim (find k m) [ none ↦ d | some v ↦ v ]

  unfoldable pub enter : V → K → Map K V → Map K V
  enter d k m = elim (find k m) [ none ↦ insert k d m | some v ↦ m ]

  unfoldable pub has : K → Map K V → Bool
  has k m = is_some (find k m)

  -- `m.size()`
  abbrev pub size : Map K V → ℕ
  size m = length m
