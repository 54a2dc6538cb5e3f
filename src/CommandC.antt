-- ===== src/CommandC.antt =====
-- mainc.c: the command line program in C, over the wrappers. What goes to the standard output is
-- kept; the messages on the error output are not.
pub mod Agreement
pub mod Tests
use diamond_apparatus.Base.{
  ℕ, zero, suc, ◌+◌, Bool, true, false, Option, none, some, List, [], ◌∷◌, ◌++◌, ◌==◌,
  if◌then◌else◌,
}
use diamond_apparatus.Base.Int.{ℤ, pos, negsuc, is_negative}
use diamond_apparatus.Base.Order.{nat_ord, bytes_ord}
use diamond_apparatus.Base.Result.{Result, ok, throws, fault}
use diamond_apparatus.Base.Text.{codes}
use diamond_apparatus.Map.{same}
use diamond_apparatus.Topic.{dt_float, get_waitnew}
use diamond_apparatus.Server.{version, versionname}
use diamond_apparatus.Client.{Name}
use diamond_apparatus.Client.Library.{Library}
use diamond_apparatus.Linkage
use diamond_apparatus.Linkage.{
  Linkage, newtopic, addfloat, addstring, fetchtype, fetchfloat, fetchstring, fetchsize, isrunning,
}
use diamond_apparatus.Program.{
  Process, Flow, runs, threw, exits, crashes, then_run, print, usagepanic,
}

-- The C library: printf() of a float, and atof(), as a float's bit pattern.
pub record Floats : Type 0 where
  pub show_fixed : ℕ → List ℕ
  pub atof : List ℕ → ℕ

abbrev pub is_zero : ℤ → Bool
is_zero (pos n) = n == 0
is_zero (negsuc n) = false

module _ {ℓ} {W : Type ℓ} where
  -- The state behind a call, and what its value decides.
  abbrev pub returned :
      Result (ℤ × Linkage W)
      → Process (Linkage W)
      → (ℤ → Process (Linkage W) → Flow (Linkage W))
      → Flow (Linkage W)
  returned (ok (n, l)) p next = next n (record p { world = l })
  returned (throws e) p next = threw e p
  returned fault p next = crashes

  module _ (floats : Floats) where
    -- What a type character does with the next value.
    unfoldable pub add_item : ℕ → List ℕ → List (List ℕ) → Linkage W → List (List ℕ) × Linkage W
    add_item c x xs l =
        if c == b'f'
        then (xs, addfloat (floats.atof x) l)
        else (if c == b's' then (xs, addstring x l) else (x ∷ xs, l))

    -- The loop of pub; `false` is usagepanic(), with the topic as far as it was built.
    unfoldable pub add_loop : List ℕ → List (List ℕ) → Linkage W → Bool × Linkage W
    add_loop [] args l = (true, l)
    add_loop (c ∷ types) [] l = (false, l)
    add_loop (c ∷ types) (x ∷ xs) l = let (args, l') = add_item c x xs l in add_loop types args l'

    -- The loop of show and listen over the items, from an index on, with the rounds left.
    unfoldable pub item_lines : ℕ → ℕ → Linkage W → List ℕ
    item_lines zero i l = []
    item_lines (suc k) i l =
        (if fetchtype (pos i) l == dt_float
          then floats.show_fixed (fetchfloat (pos i) l)
          else fetchstring (pos i) l)
        ++ (10 ∷ item_lines k (i + 1) l)

    abbrev pub show_items : Process (Linkage W) → Process (Linkage W)
    show_items p = print (item_lines (fetchsize p.world) 0 p.world) p

    module _ (lib : Library W) where
      unfoldable pub panic : Process (Linkage W) → Flow (Linkage W)
      panic p = returned (Linkage.destroy lib p.world) p λ n p. exits 1 p

      -- A signal, by its number as it is printed.
      unfoldable pub handler : List ℕ → Process (Linkage W) → Flow (Linkage W)
      handler sig p =
          returned (Linkage.destroy lib p.world)
            (print (codes "sig " ++ (sig ++ codes " caught\n")) p) λ n p. exits 1 p

      -- `if(call)panic();`
      abbrev pub unless_zero : Result (ℤ × Linkage W) → Process (Linkage W) → Flow (Linkage W)
      unless_zero r p = returned r p λ n p. if is_zero n then runs p else panic p

      -- `if(diamondapparatus_get(...)<0)panic();`, and the items.
      abbrev pub show_got : Name → Process (Linkage W) → Flow (Linkage W)
      show_got topic p =
          returned (Linkage.get lib topic get_waitnew p.world) p
            λ n p. if is_negative n then panic p else runs (show_items p)

      abbrev pub connected_to : Name → Process (Linkage W) → Flow (Linkage W)
      connected_to topic p =
          then_run (unless_zero (Linkage.init lib p.world) p)
            λ p. unless_zero (Linkage.subscribe lib topic p.world) p

      -- The loop of listen, for a number of rounds, behind which a signal arrives.
      unfoldable pub show_loop : Name → List ℕ → ℕ → Process (Linkage W) → Flow (Linkage W)
      show_loop topic sig zero p = handler sig p
      show_loop topic sig (suc k) p =
          if is_zero (isrunning lib p.world)
          then runs p
          else then_run (show_got topic p) (show_loop topic sig k)

      abbrev pub publish_built : Name → Bool × Linkage W → Process (Linkage W) → Flow (Linkage W)
      publish_built name (false, l) p = usagepanic (record p { world = l })
      publish_built name (true, l) p =
          unless_zero (Linkage.publish lib name l) (record p { world = l })

      abbrev pub pub_values : List (List ℕ) → Process (Linkage W) → Flow (Linkage W)
      pub_values (name ∷ types ∷ x ∷ xs) p =
          publish_built name (add_loop types (x ∷ xs) (newtopic p.world)) p
      pub_values _ p = usagepanic p

      abbrev pub given_topic :
          List (List ℕ) → Process (Linkage W) → (Name → Flow (Linkage W)) → Flow (Linkage W)
      given_topic [] p command = usagepanic p
      given_topic (topic ∷ rest) p command = command topic

      -- The commands; server comes here as well once the server has returned.
      unfoldable pub command :
          ℕ → List ℕ → List ℕ → List (List ℕ) → Process (Linkage W) → Flow (Linkage W)
      command rounds sig name rest p =
          if same name (codes "listen")
          then given_topic rest p
              (λ topic. then_run (connected_to topic p) (show_loop topic sig rounds))
          else (if same name (codes "show")
              then given_topic rest p (λ topic. then_run (connected_to topic p) (show_got topic))
              else (if same name (codes "pub")
                  then then_run (unless_zero (Linkage.init lib p.world) p) (pub_values rest)
                  else (if same name (codes "kill")
                      then then_run (unless_zero (Linkage.init lib p.world) p)
                          (λ p. unless_zero (Linkage.killserver lib p.world) p)
                      else usagepanic p)))

      -- The end of main().
      abbrev pub destroyed : Flow (Linkage W) → Flow (Linkage W)
      destroyed (runs p) = returned (Linkage.destroy lib p.world) p λ n p. exits 0 p
      destroyed (threw e p) = threw e p
      destroyed (exits n p) = exits n p
      destroyed crashes = crashes

      unfoldable pub served_first : List ℕ → Process (Linkage W) → Flow (Linkage W)
      served_first name p =
          if same name (codes "server") then unless_zero (Linkage.server lib p.world) p else runs p

      abbrev pub version_line : List ℕ
      version_line =
          codes "Diamond Apparatus "
          ++ (version ++ (codes " (" ++ (versionname ++ (b')' ∷ 10 ∷ []))))

      unfoldable pub main : ℕ → List ℕ → List (List ℕ) → Process (Linkage W) → Flow (Linkage W)
      main rounds sig [] p = usagepanic p
      main rounds sig (name ∷ rest) p = then_run (served_first name p) λ p.
          if same name (codes "version")
          then exits 0 (print version_line p)
          else destroyed (command rounds sig name rest p)
