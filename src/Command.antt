-- ===== src/Command.antt =====
-- main.cpp: the command line program, over the functions of the library. getopt() has split the
-- options off; the printing of numbers, atof() and daemon() are parameters. What goes to the
-- standard output is kept; the messages on the error output are not.
pub mod Publishing
pub mod Endings
pub mod Listening
pub mod Tests
use diamond_apparatus.Base.{
  ℕ, zero, suc, ◌+◌, ◌-◌, Bool, true, false, ◌&&◌, Option, none, some, List, [], ◌∷◌, ◌++◌, map,
  ltb, ◌==◌, if◌then◌else◌,
}
use diamond_apparatus.Base.Int.{pos}
use diamond_apparatus.Base.Order.{nat_ord, bytes_ord}
use diamond_apparatus.Base.Result.{Result, ok, throws, fault, Exception}
use diamond_apparatus.Base.Text.{codes}
use diamond_apparatus.Map.{same}
use diamond_apparatus.Topic.{
  Topic, new_topic, flt, copy_topic, add, of_string, size, get_item, as_string, is_valid,
  append_csv_to_string_stream, get_waitnew, get_waitany,
}
use diamond_apparatus.Server.{version, versionname, version_name}
use diamond_apparatus.Client.{Name}
use diamond_apparatus.Client.Library.{Library, Attempt}
use diamond_apparatus.Program.{
  Options, default_options, set_option, set_options, Numbers, Process, Flow, runs, threw, exits,
  crashes, dotted, pub_loop, header_loop, dump, then_run, print, call, call_get, usagepanic,
}

module _ (num : Numbers) where
  module _ {ℓ} {W : Type ℓ} (lib : Library W) where
    abbrev pub left : Process W → Process W
    left p = record p { world = (lib.destroy p.world).1 }

    -- What listen does with a topic that it got.
    unfoldable pub listened : Options → List ℕ → Bool → Topic → List ℕ
    listened o name header_done t =
        (if header_done
          then []
          else (if o.listen_headers then header_loop num name (size t) (size t) 0 else []))
        ++ (if is_valid t then dump num t else [])

    -- The loop of listen; the signal that ends it has come after some rounds.
    unfoldable pub listen_loop : Options → Name → List ℕ → ℕ → Bool → Process W → Flow W
    listen_loop o topic name zero header_done p = runs p
    listen_loop o topic name (suc k) header_done p =
        let next : Topic → Process W → Flow W =
          λ t p. listen_loop o topic name k true (print (listened o name header_done t) p) in
        if lib.is_running p.world
        then call_get (lib.get topic get_waitnew p.world) p next
        else runs p

    unfoldable pub cmd_listen : Options → Name → ℕ → Process W → Flow W
    cmd_listen o topic rounds p = then_run (call (lib.init p.world) p) λ p.
        then_run (call (lib.subscribe topic p.world) p) λ p.
          listen_loop o topic (if o.replace_slash && o.listen_headers then dotted topic else topic)
            rounds false p

    unfoldable pub cmd_show : Name → Process W → Flow W
    cmd_show topic p = then_run (call (lib.init p.world) p) λ p.
        then_run (call (lib.subscribe topic p.world) p)
          λ p. call_get (lib.get topic get_waitany p.world) p λ t p. runs (print (dump num t) p)

    -- Behind the loop of pub.
    abbrev pub publish_or_panic : Name → Option Topic → Process W → Flow W
    publish_or_panic name none p = usagepanic p
    publish_or_panic name (some t) p = call (lib.publish name t p.world) p

    -- pub, whose arguments are read when init() has returned.
    abbrev pub pub_arguments : List (List ℕ) → Process W → Flow W
    pub_arguments (name ∷ types ∷ x ∷ xs) p =
        publish_or_panic name (pub_loop num types (x ∷ xs) (copy_topic new_topic)) p
    pub_arguments _ p = usagepanic p

    unfoldable pub cmd_pub : List (List ℕ) → Process W → Flow W
    cmd_pub rest p = then_run (call (lib.init p.world) p) (pub_arguments rest)

    unfoldable pub cmd_kill : Process W → Flow W
    cmd_kill p = then_run (call (lib.init p.world) p) λ p. call (lib.kill_server p.world) p

    -- listen and show want a topic.
    abbrev pub with_topic : List (List ℕ) → Process W → (Name → Flow W) → Flow W
    with_topic [] p command = usagepanic p
    with_topic (topic ∷ rest) p command = command topic

    -- The commands under the handler.
    unfoldable pub command : Options → ℕ → List ℕ → List (List ℕ) → Process W → Flow W
    command o rounds name rest p =
        if same name (codes "check")
        then call (lib.init p.world) p
        else (if same name (codes "listen")
            then with_topic rest p (λ topic. cmd_listen o topic rounds p)
            else (if same name (codes "show")
                then with_topic rest p (λ topic. cmd_show topic p)
                else (if same name (codes "pub")
                    then cmd_pub rest p
                    else (if same name (codes "kill") then cmd_kill p else usagepanic p))))

    -- The handler, and the end of main().
    abbrev pub concluded : Flow W → Flow W
    concluded (runs p) = exits 0 (left p)
    concluded (threw e p) = exits 1 (left p)
    concluded (exits n p) = exits n p
    concluded crashes = crashes

    -- The server, in the background if that is asked for.
    unfoldable pub start_server : Options → Bool → Process W → Flow W
    start_server o daemon_failed p =
        if o.daemonize_server && daemon_failed
        then exits 1 p
        else served (call (lib.server p.world) p)
      where
        served : Flow W → Flow W
        served (runs p) = exits 0 p
        served (threw e p) = exits 1 p
        served (exits n p) = exits n p
        served crashes = crashes

    -- There should be no server when the server starts.
    abbrev pub unless_running : Options → Bool → Flow W → Flow W
    unless_running o daemon_failed (runs p) = exits 1 (left p)
    unless_running o daemon_failed (threw e p) = start_server o daemon_failed p
    unless_running o daemon_failed (exits n p) = exits n p
    unless_running o daemon_failed crashes = crashes

    unfoldable pub cmd_server : Options → Bool → Process W → Flow W
    cmd_server o daemon_failed p = unless_running o daemon_failed (call (lib.init p.world) p)

    abbrev pub named_version : List ℕ → List ℕ → List ℕ
    named_version v name = v ++ (codes " (" ++ (name ++ (b')' ∷ 10 ∷ [])))

    abbrev pub version_ended : Flow W → Flow W
    version_ended (runs p) = exits 0 (left p)
    version_ended (threw e p) = exits 1 p
    version_ended (exits n p) = exits n p
    version_ended crashes = crashes

    unfoldable pub cmd_version : Process W → Flow W
    cmd_version p =
        let p : Process W =
          print (codes "Diamond Apparatus " ++ named_version version versionname) p in
        version_ended (
          then_run (call (lib.init p.world) p) λ p.
            then_run (call (lib.subscribe version_name p.world) p) λ p.
              call_get (lib.get version_name get_waitany p.world) p λ t p. runs (
                print
                  (codes "Server version: "
                    ++ named_version (as_string (get_item t (pos 0)))
                        (as_string (get_item t (pos 1))))
                  p))

    -- Without a command, the program says whether there is a server.
    abbrev pub no_command : Flow W → Flow W
    no_command (runs p) = usagepanic (print (codes "Server is running.\n") (left p))
    no_command (threw e p) = usagepanic (print (codes "Server is not running.\n") p)
    no_command (exits n p) = exits n p
    no_command crashes = crashes

    unfoldable pub main : List ℕ → Bool → ℕ → List (List ℕ) → Process W → Flow W
    main options daemon_failed rounds [] p = no_command (call (lib.init p.world) p)
    main options daemon_failed rounds (name ∷ rest) p =
        let o : Options = set_options options default_options in
        if same name (codes "server")
        then cmd_server o daemon_failed p
        else (if same name (codes "version")
            then cmd_version p
            else concluded (command o rounds name rest p))
