-- ===== src/Server/Budget.antt =====
-- How much the server stores: the names, and the items of each topic.
use diamond_apparatus.Base.{
  ℕ, ◌+◌, ◌≤◌, ◌≡◌, Option, none, some, List, [], ◌∷◌, ◌++◌, All, Ordering, arith, length,
  length-append, Bool-cases, inl, inr, if_true, if_false, sym, subst,
}
use diamond_apparatus.Base.Order.{bytes_ord, compare_bytes}
use diamond_apparatus.Base.Bytes.{htonl, length-htonl, until_nul, length-until_nul}
use diamond_apparatus.Map
use diamond_apparatus.Map.{Map, keys, same, branch}
use diamond_apparatus.Map.Laws.{same-eq}
use diamond_apparatus.Topic.{Datum, flt, str, raw, Topic, new_topic, of_string, copy, add}
use diamond_apparatus.Topic.Message.{max_name}
use diamond_apparatus.Topic.Message.Encode.{encode_items, IsTagged}
use diamond_apparatus.Server.{Name, add_names}

-- What the names of some topics need in the topics topic.
abbrev pub names_size : List Name → ℕ
names_size [] = 0
names_size (n ∷ ns) = 5 + length n + names_size ns

-- A stored topic that a message can carry, its items in so many bytes.
pub record IsFitting (b : ℕ) (n : Name) (t : Topic) : Type 0 where
  pub short : length n ≤ max_name
  pub tagged : All IsTagged t.d
  pub small : length (encode_items t.d) ≤ b

abbrev pub Fits : ℕ → Map Name Topic → Type 0
Fits b [] = Unit {0}
Fits b ((n, t) ∷ m) = IsFitting b n t × Fits b m

pub Fits-mono : (b c : ℕ) (m : Map Name Topic) → b ≤ c → Fits b m → Fits c m
Fits-mono b c [] le v = tt
Fits-mono b c ((n, t) ∷ m) le v = (
  record { short = v.0.short; tagged = v.0.tagged; small = omega (arith, v.0.small) },
  Fits-mono b c m le v.1,
)

pub insert-Fits :
    (b : ℕ) (n : Name) (t : Topic) (m : Map Name Topic)
    → IsFitting b n t
    → Fits b m
    → Fits b (Map.insert n t m)
unfolding Map.insert
insert-Fits b n t [] h v = (h, tt)
insert-Fits b n t ((j, u) ∷ m) h v = by_order (compare_bytes n j) (insert-Fits b n t m h v.1)
  where
    by_order :
        (o : Ordering)
        → Fits b (Map.insert n t m)
        → Fits b (branch o ((n, t) ∷ (j, u) ∷ m) ((n, t) ∷ m) ((j, u) ∷ Map.insert n t m))
    by_order Ordering.lt r = (h, v)
    by_order Ordering.eq r = (h, v.1)
    by_order Ordering.gt r = (v.0, r)

pub names_size-insert :
    (n : Name) (t : Topic) (m : Map Name Topic)
    → names_size (keys (Map.insert n t m)) ≤ 5 + length n + names_size (keys m)
unfolding Map.insert
names_size-insert n t [] = omega arith
names_size-insert n t ((j, u) ∷ m) = by_order (compare_bytes n j) (names_size-insert n t m)
  where
    by_order :
        (o : Ordering)
        → names_size (keys (Map.insert n t m)) ≤ 5 + length n + names_size (keys m)
        → names_size
            (keys (branch o ((n, t) ∷ (j, u) ∷ m) ((n, t) ∷ m) ((j, u) ∷ Map.insert n t m)))
          ≤ 5 + length n + names_size (keys ((j, u) ∷ m))
    by_order Ordering.lt r = omega arith
    by_order Ordering.eq r = omega arith
    by_order Ordering.gt r = omega (arith, r)

pub find-Fits :
    (b : ℕ) (n : Name) (t : Topic) (m : Map Name Topic)
    → Map.find n m ≡ some t
    → Fits b m
    → IsFitting b n t
unfolding Map.find
find-Fits b n t [] e v = absurd (let k : none ≡ some t = e in cc)
find-Fits b n t ((j, u) ∷ m) e v = elim (Bool-cases (same n j)) [
  | inl h ↦
      let k : u ≡ t = cc (if_true (some u) (Map.find n m) h, e) in
      let l : j ≡ n = sym (same-eq n j h) in
      subst (λ (t : Topic). IsFitting b n t) k (subst (λ (j : Name). IsFitting b j u) l v.0)
  | inr h ↦ find-Fits b n t m (cc (if_false (some u) (Map.find n m) h, e)) v.1
]

-- Entering a topic by its name alone.
pub enter-Fits :
    (b : ℕ) (n : Name) (m : Map Name Topic)
    → length n ≤ max_name
    → Fits b m
    → Fits b (Map.enter new_topic n m)
unfolding Map.enter
enter-Fits b n m short v = by_find (Map.find n m)
  where
    by_find : (o : Option Topic) → Fits b (elim o [ none ↦ Map.insert n new_topic m | some t ↦ m ])
    by_find none =
        insert-Fits b n new_topic m (record { short = short; tagged = tt; small = omega arith }) v
    by_find (some t) = v

pub names_size-enter :
    (n : Name) (m : Map Name Topic)
    → names_size (keys (Map.enter new_topic n m)) ≤ 5 + length n + names_size (keys m)
unfolding Map.enter
names_size-enter n m = by_find (Map.find n m)
  where
    by_find :
        (o : Option Topic)
        → names_size (
            keys (elim o as (λ o. Map Name Topic) [ none ↦ Map.insert n new_topic m | some t ↦ m ]))
          ≤ 5 + length n + names_size (keys m)
    by_find none = names_size-insert n new_topic m
    by_find (some t) = omega arith

length-encode_items-append :
    (d e : List Datum)
    → length (encode_items (d ++ e)) ≡ length (encode_items d) + length (encode_items e)
length-encode_items-append [] e = omega arith
length-encode_items-append (flt f ∷ d) e = omega (
  arith,
  length-append (htonl f) (encode_items (d ++ e)),
  length-append (htonl f) (encode_items d),
  length-encode_items-append d e,
)
length-encode_items-append (str s ∷ d) e = omega (
  arith,
  length-append (htonl (length s)) (s ++ encode_items (d ++ e)),
  length-append (htonl (length s)) (s ++ encode_items d),
  length-append s (encode_items (d ++ e)),
  length-append s (encode_items d),
  length-encode_items-append d e,
)
length-encode_items-append (raw t ∷ d) e = length-encode_items-append d e

-- The list of some names needs no more than the names do.
pub length-add_names :
    (ns : List Name) (t : Topic)
    → length (encode_items (add_names ns t).d) ≤ length (encode_items t.d) + names_size ns
unfolding add_names add of_string copy
length-add_names [] t = omega arith
length-add_names (n ∷ ns) t = omega (
  arith,
  length-add_names ns (add (of_string n) t),
  length-encode_items-append t.d (copy (of_string n) ∷ []),
  length-append (htonl (length (copied n))) (copied n ++ []),
  length-append (copied n) [],
  length-htonl (length (copied n)),
  length-until_nul n,
  length-until_nul (until_nul n),
)
  where
    copied : Name → Name
    copied n = until_nul (until_nul n)
