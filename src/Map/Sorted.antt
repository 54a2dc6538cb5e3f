-- ===== src/Map/Sorted.antt =====
-- The entries stay in strictly ascending order of their keys.
use diamond_apparatus.Base.{◌≡◌, refl, Ordering, true, none, [], ◌∷◌, arith}
use diamond_apparatus.Base.Order.{Ord}
use diamond_apparatus.Map.{Map, find, insert, erase, enter, has, keys}

module _ {ℓ κ} {K : Type ℓ} {V : Type κ} ⦃o : Ord K⦄ where
  -- Every key of the map comes after `k`.
  abbrev pub Above : K → Map K V → Type 0
  Above k [] = Unit {0}
  Above k ((j, v) ∷ m) = (o.cmp k j ≡ Ordering.lt) × Above k m

  abbrev pub IsSorted : Map K V → Type 0
  IsSorted [] = Unit {0}
  IsSorted ((j, v) ∷ m) = Above j m × IsSorted m

  pub Above-trans : (j k : K) (m : Map K V) → o.cmp j k ≡ Ordering.lt → Above k m → Above j m
  Above-trans j k [] h a = tt
  Above-trans j k ((i, w) ∷ m) h a = (o.cmp_trans j k i h a.0, Above-trans j k m h a.1)

  insert-Above :
      (i k : K) (v : V) (m : Map K V) → o.cmp i k ≡ Ordering.lt → Above i m → Above i (insert k v m)
  unfolding insert
  insert-Above i k v [] h a = (h, tt)
  insert-Above i k v ((j, w) ∷ m) h a = ground (arith, insert-Above i k v m h a.1)

  pub insert-IsSorted : (k : K) (v : V) (m : Map K V) → IsSorted m → IsSorted (insert k v m)
  unfolding insert
  insert-IsSorted k v [] s = (tt, tt)
  insert-IsSorted k v ((j, w) ∷ m) s = ground (
    arith,
    o.cmp_eq k j,
    o.cmp_flip k j,
    Above-trans k j m,
    insert-Above j k v m,
    insert-IsSorted k v m s.1,
  )

  erase-Above : (i k : K) (m : Map K V) → Above i m → Above i (erase k m)
  unfolding erase
  erase-Above i k [] a = tt
  erase-Above i k ((j, w) ∷ m) a = ground (arith, erase-Above i k m a.1)

  pub erase-IsSorted : (k : K) (m : Map K V) → IsSorted m → IsSorted (erase k m)
  unfolding erase
  erase-IsSorted k [] s = tt
  erase-IsSorted k ((j, w) ∷ m) s = ground (arith, erase-Above j k m s.0, erase-IsSorted k m s.1)

  pub enter-IsSorted : (d : V) (k : K) (m : Map K V) → IsSorted m → IsSorted (enter d k m)
  unfolding enter
  enter-IsSorted d k m s = ground (arith, insert-IsSorted k d m s)

  pub find-Above : (k : K) (m : Map K V) → Above k m → find k m ≡ none
  unfolding find
  find-Above k [] a = refl
  find-Above k ((j, w) ∷ m) a = ground (arith, find-Above k m a.1)

  -- A write to a key that is there leaves the keys as they are.
  pub keys-insert_there :
      (k : K) (v : V) (m : Map K V) → IsSorted m → has k m ≡ true → keys (insert k v m) ≡ keys m
  unfolding insert has find
  keys-insert_there k v [] s h = cc
  keys-insert_there k v ((j, w) ∷ m) s h =
      ground (arith, o.cmp_eq k j, find-Above k m, Above-trans k j m, keys-insert_there k v m s.1)
