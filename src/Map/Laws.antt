-- ===== src/Map/Laws.antt =====
-- What a map holds after each operation.
use diamond_apparatus.Base.{◌≡◌, refl, ◌≢◌, true, false, none, some, [], ◌∷◌, arith, if◌then◌else◌}
use diamond_apparatus.Base.Order.{Ord}
use diamond_apparatus.Map.{Map, same, find, insert, erase, at, enter, has}

module _ {ℓ} {K : Type ℓ} ⦃o : Ord K⦄ where
  pub same_refl : (k : K) → same k k ≡ true
  same_refl k = ground (arith, o.cmp_refl k)

  pub same-eq : (j k : K) → same j k ≡ true → j ≡ k
  same-eq j k h = ground (arith, o.cmp_eq j k)

  pub same_of_ne : (j k : K) → j ≢ k → same j k ≡ false
  same_of_ne j k h = ground (arith, o.cmp_eq j k)

module _ {ℓ κ} {K : Type ℓ} {V : Type κ} ⦃o : Ord K⦄ where
  pub find-insert :
      (k j : K) (v : V) (m : Map K V)
      → find k (insert j v m) ≡ (if same k j then some v else find k m)
  unfolding find insert
  find-insert k j v [] = refl
  find-insert k j v ((i, w) ∷ m) =
      ground (arith, find-insert k j v m, o.cmp_eq j i, o.cmp_eq k j, o.cmp_eq k i, o.cmp_refl j)

  pub find-erase :
      (k j : K) (m : Map K V) → find k (erase j m) ≡ (if same k j then none else find k m)
  unfolding find erase
  find-erase k j [] = ground arith
  find-erase k j ((i, w) ∷ m) = ground (
    arith,
    find-erase k j m,
    o.cmp_eq j i,
    o.cmp_eq k j,
    o.cmp_eq k i,
    o.cmp_refl j,
    o.cmp_refl k,
  )

  pub find-enter :
      (d : V) (k j : K) (m : Map K V)
      → find k (enter d j m) ≡ (if same k j then some (at d j m) else find k m)
  unfolding enter at
  find-enter d k j m = ground (arith, find-insert k j d m, o.cmp_eq k j)

  pub has-insert :
      (k j : K) (v : V) (m : Map K V) → has k (insert j v m) ≡ (if same k j then true else has k m)
  unfolding has
  has-insert k j v m = ground (arith, find-insert k j v m)

  pub has-erase :
      (k j : K) (m : Map K V) → has k (erase j m) ≡ (if same k j then false else has k m)
  unfolding has
  has-erase k j m = ground (arith, find-erase k j m)

  pub has-enter :
      (d : V) (k j : K) (m : Map K V) → has k (enter d j m) ≡ (if same k j then true else has k m)
  unfolding has
  has-enter d k j m = ground (arith, find-enter d k j m)

  pub find-insert_self : (k : K) (v : V) (m : Map K V) → find k (insert k v m) ≡ some v
  find-insert_self k v m = ground (arith, find-insert k k v m, same_refl k)
