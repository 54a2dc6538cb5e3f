-- ===== src/CommandC/Tests.antt =====
-- Both command line programs publish one string.
use diamond_apparatus.Base.{ℕ, ◌≡◌, refl, false, none, List, [], ◌∷◌, arith}
use diamond_apparatus.Base.Text.{codes}
use diamond_apparatus.Topic.{new_topic}
use diamond_apparatus.Client.{Client}
use diamond_apparatus.Client.Tests.{foo}
use diamond_apparatus.Linkage.{Linkage}
use diamond_apparatus.Program.{Process, exits}
use diamond_apparatus.Command
use diamond_apparatus.Command.Publishing.{string_of}
use diamond_apparatus.Command.Tests.{
  numbers, dial, lib_of, unstarted, started, told, init-started, publish-told,
}
use diamond_apparatus.CommandC.{main}
use diamond_apparatus.CommandC.Agreement.{floats_of, main-agrees}

abbrev show : ℕ → List ℕ
show f = 48 ∷ []

abbrev unstarted_in_c : Process (Linkage Client)
unstarted_in_c = record {
  world = record {
    world = unstarted.world;
    exception = none;
    inerror = false;
    topic_to_publish = new_topic;
    topic_to_access = new_topic;
  };
  out = [];
}

abbrev say_hi : List (List ℕ)
say_hi = codes "pub" ∷ foo ∷ codes "s" ∷ codes "hi" ∷ []

main-agrees_example :
    (w : Client) × (Command.main numbers (lib_of dial) [] false 0 say_hi unstarted
      ≡ exits 0 (record unstarted { world = w }))
    × ((l : Linkage Client) × (main
            (floats_of numbers show)
            (lib_of dial)
            0
            []
            say_hi
            unstarted_in_c
          ≡ exits 0 (record unstarted_in_c { world = l }))
        × (l.world ≡ w))
main-agrees_example =
    main-agrees numbers show (lib_of dial) [] false 0 0 [] foo (string_of (codes "hi")) [] []
      unstarted unstarted_in_c started told refl (omega arith) init-started publish-told
