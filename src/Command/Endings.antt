-- ===== src/Command/Endings.antt =====
-- How the program of main.cpp ends when the library fails, or when a server is there already.
use diamond_apparatus.Base.{ℕ, ◌≡◌, refl, Bool, true, false, ◌&&◌, List, ◌∷◌}
use diamond_apparatus.Base.Order.{nat_ord, bytes_ord, compare_bytes}
use diamond_apparatus.Base.Result.{ok, throws, Exception}
use diamond_apparatus.Base.Text.{codes}
use diamond_apparatus.Client.{Name}
use diamond_apparatus.Client.Library.{Library}
use diamond_apparatus.Program.{Numbers, Process, Flow, exits, set_options, default_options}
use diamond_apparatus.Command.{
  cmd_listen, cmd_show, cmd_pub, cmd_kill, cmd_server, command, start_server, main,
}

module _ (num : Numbers) where
  module _ {ℓ} {W : Type ℓ} (lib : Library W) where
    -- When init() throws, for any options: the commands check, listen and show of a topic, pub and
    -- kill, with whatever further arguments, call destroy() and nothing else, print nothing, and end
    -- with 1.
    pub main_disconnected :
        (options : List ℕ) (daemon_failed : Bool) (rounds : ℕ) (topic : Name) (rest : List (List ℕ))
        (p : Process W) (e : Exception) (w : W)
        → lib.init p.world ≡ (throws e, w)
        → let ended : List (List ℕ) → Flow W =
            λ args. main num lib options daemon_failed rounds args p in
          let gone : Flow W = exits 1 (record p { world = (lib.destroy w).1 }) in
          (ended (codes "check" ∷ rest) ≡ gone)
          × (ended (codes "listen" ∷ topic ∷ rest) ≡ gone)
          × (ended (codes "show" ∷ topic ∷ rest) ≡ gone)
          × (ended (codes "pub" ∷ rest) ≡ gone)
          × (ended (codes "kill" ∷ rest) ≡ gone)
    unfolding main command cmd_listen cmd_show cmd_pub cmd_kill compare_bytes
    main_disconnected options daemon_failed rounds topic rest p e w failed =
        (rw failed refl, rw failed refl, rw failed refl, rw failed refl, rw failed refl)

    -- The command server: if init() returns, there is a server already, and the program leaves it
    -- with destroy() and ends with 1, without a server of its own. If init() throws, and daemon()
    -- does not fail where -d asks for it, it runs server(), and ends with 0 when that returns and
    -- with 1 when it throws.
    pub main_server :
        (options : List ℕ) (rounds : ℕ) (rest : List (List ℕ)) (p : Process W) (w : W)
        → ((failed : Bool)
            → lib.init p.world ≡ (ok tt, w)
            → main num lib options failed rounds (codes "server" ∷ rest) p
              ≡ exits 1 (record p { world = (lib.destroy w).1 }))
          × ((e : Exception) (v : W)
              → lib.init p.world ≡ (throws e, w)
              → lib.server w ≡ (ok tt, v)
              → main num lib options false rounds (codes "server" ∷ rest) p
                ≡ exits 0 (record p { world = v }))
          × ((e f : Exception) (v : W)
              → lib.init p.world ≡ (throws e, w)
              → lib.server w ≡ (throws f, v)
              → main num lib options false rounds (codes "server" ∷ rest) p
                ≡ exits 1 (record p { world = v }))
    unfolding main cmd_server start_server compare_bytes
    main_server options rounds rest p w = (
      λ failed e. rw e refl,
      λ e v started ran.
          rw (started, never (set_options options default_options).daemonize_server, ran) refl,
      λ e f v started ran.
          rw (started, never (set_options options default_options).daemonize_server, ran) refl,
    )
      where
        never : (b : Bool) → (b && false) ≡ false
        never true = refl
        never false = refl
