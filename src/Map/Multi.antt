-- ===== src/Map/Multi.antt =====
-- A map from keys to sets as a relation between keys and members.
use diamond_apparatus.Base.{◌≡◌, refl, Bool, true, false, ◌||◌, List, [], ◌∷◌, arith, if◌then◌else◌}
use diamond_apparatus.Base.Order.{Ord}
use diamond_apparatus.Map.{Map, Set, same, find, insert, erase, at, enter, has, keys}
use diamond_apparatus.Map.Laws.{find-insert, find-erase, find-enter, has-insert, has-erase, same-eq}

module _ {ℓ κ} {K : Type ℓ} {V : Type κ} ⦃o : Ord K⦄ where
  pub at-insert :
      (d : V) (k j : K) (v : V) (m : Map K V)
      → at d k (insert j v m) ≡ (if same k j then v else at d k m)
  unfolding at
  at-insert d k j v m = ground (arith, find-insert k j v m)

  pub at-erase :
      (d : V) (k j : K) (m : Map K V) → at d k (erase j m) ≡ (if same k j then d else at d k m)
  unfolding at
  at-erase d k j m = ground (arith, find-erase k j m)

  pub at-enter : (d : V) (k j : K) (m : Map K V) → at d k (enter d j m) ≡ at d k m
  unfolding at
  at-enter d k j m = ground (arith, find-enter d k j m, same-eq k j)

module _ {ℓ} {K : Type ℓ} ⦃o : Ord K⦄ where
  -- Whether a key stands in a list of keys.
  unfoldable pub listed : K → List K → Bool
  listed k [] = false
  listed k (j ∷ js) = same k j || listed k js

  pub listed-keys {κ} : {V : Type κ} (k : K) (m : Map K V) → listed k (keys m) ≡ has k m
  unfolding listed has find
  listed-keys k [] = refl
  listed-keys k ((j, v) ∷ m) = ground (arith, listed-keys k m)

module _ {ℓ κ} {K : Type ℓ} {V : Type κ} ⦃o : Ord K⦄ ⦃p : Ord V⦄ where
  unfoldable pub member : K → V → Map K (Set V) → Bool
  member k v m = has v (at [] k m)

  pub member-insert :
      (k j : K) (v : V) (vs : Set V) (m : Map K (Set V))
      → member k v (insert j vs m) ≡ (if same k j then has v vs else member k v m)
  unfolding member
  member-insert k j v vs m = ground (arith, at-insert [] k j vs m)

  pub member-erase :
      (k j : K) (v : V) (m : Map K (Set V))
      → member k v (erase j m) ≡ (if same k j then false else member k v m)
  unfolding member has find
  member-erase k j v m = ground (arith, at-erase [] k j m)

  pub member-enter :
      (k j : K) (v : V) (m : Map K (Set V)) → member k v (enter [] j m) ≡ member k v m
  unfolding member
  member-enter k j v m = ground (arith, at-enter [] k j m)

  -- A member joins the set of one key.
  pub member-join :
      (k j : K) (v w : V) (m : Map K (Set V))
      → member k v (insert j (insert w tt (at [] j m)) m)
        ≡ (if same k j then (if same v w then true else member k v m) else member k v m)
  unfolding member
  member-join k j v w m = ground (
    arith,
    at-insert [] k j (insert w tt (at [] j m)) m,
    has-insert v w tt (at [] j m),
    same-eq k j,
  )

  -- A member leaves the set of one key.
  pub member-leave :
      (k j : K) (v w : V) (m : Map K (Set V))
      → member k v (insert j (erase w (at [] j m)) m)
        ≡ (if same k j then (if same v w then false else member k v m) else member k v m)
  unfolding member
  member-leave k j v w m =
      ground
        (arith, at-insert [] k j (erase w (at [] j m)) m, has-erase v w (at [] j m), same-eq k j)

  pub member-empty : (k : K) (v : V) → member k v [] ≡ false
  unfolding member at find has
  member-empty k v = refl
