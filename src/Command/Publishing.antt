-- ===== src/Command/Publishing.antt =====
-- The command pub of main.cpp: how its arguments become the items of a topic.
use diamond_apparatus.Base.{
  ℕ, ◌≡◌, refl, ap, ◌∙◌, Bool, none, some, List, [], ◌∷◌, ◌++◌, map, append_assoc, append-nil, All,
}
use diamond_apparatus.Base.Order.{nat_ord, bytes_ord, compare_bytes}
use diamond_apparatus.Base.Result.{ok}
use diamond_apparatus.Base.Bytes.{IsText, until_nul-eq}
use diamond_apparatus.Base.Text.{codes}
use diamond_apparatus.Topic.{
  Datum, flt, str, Topic, new_topic, copy, copy_data, copy_topic, add, of_string,
}
use diamond_apparatus.Client.{Name}
use diamond_apparatus.Client.Library.{Library}
use diamond_apparatus.Program.{Numbers, Process, exits, with_sign, take_item, pub_loop}
use diamond_apparatus.Command.{concluded, cmd_pub, command, main}

-- A value on the command line, by its type.
pub data Argument : Type 0 where
  float_of string_of : List ℕ → Argument

abbrev pub letter : Argument → ℕ
letter (float_of s) = b'f'
letter (string_of s) = b's'

abbrev pub value : Argument → List ℕ
value (float_of s) = s
value (string_of s) = s

abbrev pub item : Numbers → Argument → Datum
item num (float_of s) = flt (num.atof (with_sign s))
item num (string_of s) = str s

module _ (num : Numbers) where
  pub add_string :
      (s : List ℕ) (t : Topic) → IsText s → add (of_string s) t ≡ record t { d = t.d ++ str s ∷ [] }
  unfolding add of_string copy
  add_string s t h = rw (until_nul-eq s h, until_nul-eq s h) refl

  pub_loop-items :
      (args : List Argument) (more : List (List ℕ)) (t : Topic)
      → All (λ x. IsText (value x)) args
      → pub_loop num (map letter args) (map value args ++ more) t
        ≡ some (record t { d = t.d ++ map (item num) args })
  unfolding pub_loop take_item add copy
  pub_loop-items [] more t h = rw (append-nil t.d) refl
  pub_loop-items (float_of s ∷ args) more t h =
      pub_loop-items args more _ h.1
      ∙ rw (append_assoc t.d (item num (float_of s) ∷ []) (map (item num) args)) refl
  pub_loop-items (string_of s ∷ args) more t h =
      ap (pub_loop num (map letter args) (map value args ++ more)) (add_string s t h.0)
      ∙ pub_loop-items args more _ h.1
      ∙ rw (append_assoc t.d (str s ∷ []) (map (item num) args)) refl

  pub_loop-short :
      (args : List Argument) (c : ℕ) (types : List ℕ) (t : Topic)
      → pub_loop num (map letter args ++ c ∷ types) (map value args) t ≡ none
  unfolding pub_loop take_item
  pub_loop-short [] c types t = refl
  pub_loop-short (float_of s ∷ args) c types t = pub_loop-short args c types _
  pub_loop-short (string_of s ∷ args) c types t = pub_loop-short args c types _

  module _ {ℓ} {W : Type ℓ} (lib : Library W) where
    main-pub :
        (options : List ℕ) (daemon_failed : Bool) (rounds : ℕ) (rest : List (List ℕ))
        (p : Process W)
        → main num lib options daemon_failed rounds (codes "pub" ∷ rest) p
          ≡ concluded num lib (cmd_pub num lib rest p)
    unfolding main command compare_bytes
    main-pub options daemon_failed rounds rest p = refl

    -- pub with a name, the types of some values, and the values, which may be followed by more: if
    -- init() returns and publish() of the topic that has just these values for its items returns, a
    -- string as it is and a float as atof() reads it with a leading n for its sign, then the program
    -- has called these two and destroy(), prints nothing, and ends with 0.
    pub main_publishes :
        (options : List ℕ) (daemon_failed : Bool) (rounds : ℕ) (name : Name) (x : Argument)
        (args : List Argument) (more : List (List ℕ)) (p : Process W) (u v : W)
        → All (λ x. IsText (value x)) (x ∷ args)
        → lib.init p.world ≡ (ok tt, u)
        → lib.publish name (record new_topic { d = map (item num) (x ∷ args) }) u ≡ (ok tt, v)
        → main num lib options daemon_failed rounds
            (codes "pub" ∷ name ∷ map letter (x ∷ args) ∷ map value (x ∷ args) ++ more)
            p
          ≡ exits 0 (record p { world = (lib.destroy v).1 })
    unfolding cmd_pub copy_topic copy_data
    main_publishes options daemon_failed rounds name x args more p u v h started sent =
        main-pub options daemon_failed rounds _ p
        ∙ rw (started, pub_loop-items (x ∷ args) more new_topic h, sent) refl

    -- pub with fewer values than types: the program has called init() and nothing else, not even
    -- destroy(), and ends with 1.
    pub main_short :
        (options : List ℕ) (daemon_failed : Bool) (rounds : ℕ) (name : Name) (args : List Argument)
        (c : ℕ) (types : List ℕ) (p : Process W) (u : W)
        → lib.init p.world ≡ (ok tt, u)
        → main num lib options daemon_failed rounds
            (codes "pub" ∷ name ∷ (map letter args ++ c ∷ types) ∷ map value args)
            p
          ≡ exits 1 (record p { world = u })
    unfolding cmd_pub
    main_short options daemon_failed rounds name [] c types p u started =
        main-pub options daemon_failed rounds _ p ∙ rw started refl
    main_short options daemon_failed rounds name (x ∷ args) c types p u started =
        main-pub options daemon_failed rounds _ p
        ∙ rw (started, pub_loop-short (x ∷ args) c types (copy_topic new_topic)) refl
