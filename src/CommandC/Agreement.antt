-- ===== src/CommandC/Agreement.antt =====
-- The two command line programs publish the same topics.
use diamond_apparatus.Base.{
  ℕ, ◌≡◌, refl, ap, ◌∙◌, Bool, true, List, [], ◌∷◌, ◌++◌, map, append_assoc, append-nil, All,
}
use diamond_apparatus.Base.Order.{nat_ord, bytes_ord, compare_bytes}
use diamond_apparatus.Base.Result.{ok}
use diamond_apparatus.Base.Bytes.{IsText}
use diamond_apparatus.Base.Text.{codes}
use diamond_apparatus.Map.{same}
use diamond_apparatus.Topic.{Topic, flt, new_topic, copy, copy_data, copy_topic, add}
use diamond_apparatus.Client.{Name}
use diamond_apparatus.Client.Library.{Library}
use diamond_apparatus.Linkage
use diamond_apparatus.Linkage.{
  Linkage, cleared, returning, zero_after, newtopic, addfloat, addstring,
}
use diamond_apparatus.Program.{Numbers, Process, exits, with_sign}
use diamond_apparatus.Command
use diamond_apparatus.Command.Publishing.{
  Argument, float_of, string_of, letter, value, item, add_string, main_publishes,
}
use diamond_apparatus.CommandC.{Floats, add_item, add_loop, served_first, command, main}

-- A value that both programs read alike: a C string, and a float with no n for its sign.
abbrev pub IsPlain : Argument → Type 0
IsPlain (float_of s) = IsText s × (with_sign s ≡ s)
IsPlain (string_of s) = IsText s

plain-IsText : (args : List Argument) → All IsPlain args → All (λ x. IsText (value x)) args
plain-IsText [] h = tt
plain-IsText (float_of s ∷ args) h = (h.0.0, plain-IsText args h.1)
plain-IsText (string_of s ∷ args) h = (h.0, plain-IsText args h.1)

abbrev pub floats_of : Numbers → (ℕ → List ℕ) → Floats
floats_of num show = record { show_fixed = show; atof = num.atof }

module _ (num : Numbers) (show : ℕ → List ℕ) where
  module _ {ℓ} {W : Type ℓ} where
    abbrev holding : Topic → Linkage W → Linkage W
    holding t l = record l { topic_to_publish = t }

    add_loop-items :
        (args : List Argument) (more : List (List ℕ)) (l : Linkage W)
        → All IsPlain args
        → add_loop (floats_of num show) (map letter args) (map value args ++ more) l ≡ (
          true,
          holding (record l.topic_to_publish { d = l.topic_to_publish.d ++ map (item num) args }) l,
        )
    unfolding add_loop add_item addfloat addstring add copy
    add_loop-items [] more l h = rw (append-nil l.topic_to_publish.d) refl
    add_loop-items (float_of s ∷ args) more l h =
        add_loop-items args more _ h.1
        ∙ rw
            (h.0.1, append_assoc l.topic_to_publish.d (flt (num.atof s) ∷ []) (map (item num) args))
            refl
    add_loop-items (string_of s ∷ args) more l h =
        ap
          (λ t.
            add_loop (floats_of num show) (map letter args) (map value args ++ more) (holding t l))
          (add_string num s l.topic_to_publish h.0)
        ∙ add_loop-items args more _ h.1
        ∙ rw (append_assoc l.topic_to_publish.d (item num (string_of s) ∷ []) (map (item num) args))
            refl

    module _ (lib : Library W) where
      main-pub :
          (rounds : ℕ) (sig : List ℕ) (name : Name) (x : Argument) (args : List Argument)
          (more : List (List ℕ)) (p : Process (Linkage W)) (u v : W)
          → All IsPlain (x ∷ args)
          → lib.init p.world.world ≡ (ok tt, u)
          → lib.publish name (record new_topic { d = map (item num) (x ∷ args) }) u ≡ (ok tt, v)
          → (l : Linkage W) × (main
                (floats_of num show)
                lib
                rounds
                sig
                (codes "pub" ∷ name ∷ map letter (x ∷ args) ∷ map value (x ∷ args) ++ more)
                p
              ≡ exits 0 (record p { world = l }))
            × (l.world ≡ (lib.destroy v).1)
      unfolding main served_first command compare_bytes Linkage.init Linkage.publish Linkage.destroy
          returning newtopic copy_topic copy_data
      main-pub rounds sig name x args more p u v h started sent = (
        cleared (lib.destroy v).1 (
            cleared v
              (holding (record new_topic { d = map (item num) (x ∷ args) }) (cleared u p.world))),
        rw (started, add_loop-items (x ∷ args) more (newtopic (cleared u p.world)) h, sent) refl,
        refl,
      )

      -- pub with a name, the types of some values, and the values, each a C string, and no float
      -- among them with a leading n: if init() returns and publish() of the topic with just these
      -- values for its items returns, then the program in C++ and the program in C, from the same
      -- state of the library, both print nothing, end with 0, and leave the same state of the
      -- library.
      pub main-agrees :
          (options : List ℕ) (daemon_failed : Bool) (rounds other : ℕ) (sig : List ℕ) (name : Name)
          (x : Argument) (args : List Argument) (more : List (List ℕ)) (p : Process W)
          (q : Process (Linkage W)) (u v : W)
          → q.world.world ≡ p.world
          → All IsPlain (x ∷ args)
          → lib.init p.world ≡ (ok tt, u)
          → lib.publish name (record new_topic { d = map (item num) (x ∷ args) }) u ≡ (ok tt, v)
          → let argv = codes "pub" ∷ name ∷ map letter (x ∷ args) ∷ map value (x ∷ args) ++ more in
            (w : W) × (Command.main num lib options daemon_failed rounds argv p
              ≡ exits 0 (record p { world = w }))
            × ((l : Linkage W) × (main (floats_of num show) lib other sig argv q
                  ≡ exits 0 (record q { world = l }))
                × (l.world ≡ w))
      main-agrees options daemon_failed rounds other sig name x args more p q u v same h started
            sent =
          (
            (lib.destroy v).1,
            main_publishes num lib options daemon_failed rounds name x args more p u v
                (plain-IsText (x ∷ args) h) started sent,
            main-pub other sig name x args more q u v h (ap lib.init same ∙ started) sent,
          )
