-- ===== src/Command/Listening.antt =====
-- The command listen of main.cpp: what it prints.
use diamond_apparatus.Base.{
  ℕ, ◌≡◌, refl, ap, ◌∙◌, Bool, true, false, ◌&&◌, List, [], ◌∷◌, ◌++◌, length, append_assoc,
  append-nil, if◌then◌else◌,
}
use diamond_apparatus.Base.Order.{nat_ord, bytes_ord, compare_bytes}
use diamond_apparatus.Base.Result.{ok}
use diamond_apparatus.Base.Text.{codes}
use diamond_apparatus.Topic.{Topic, size, is_valid, get_waitnew}
use diamond_apparatus.Client.{Name}
use diamond_apparatus.Client.Library.{Library}
use diamond_apparatus.Program.{
  Numbers, Options, Process, runs, exits, dotted, header_loop, dump, set_options, default_options,
}
use diamond_apparatus.Command.{listened, listen_loop, cmd_listen, concluded, command, main}

module _ (num : Numbers) where
  -- The line of a topic, if it is valid.
  abbrev pub line : Topic → List ℕ
  line t = if is_valid t then dump num t else []

  abbrev pub lines : List Topic → List ℕ
  lines [] = []
  lines (t ∷ ts) = line t ++ lines ts

  abbrev pub shown_name : Options → Name → List ℕ
  shown_name o topic = if o.replace_slash && o.listen_headers then dotted topic else topic

  -- One header, with a column for each item of the first topic, and the lines.
  abbrev pub listing : Options → Name → List Topic → List ℕ
  listing o topic [] = []
  listing o topic (t ∷ ts) =
      (if o.listen_headers then header_loop num (shown_name o topic) (size t) (size t) 0 else [])
      ++ lines (t ∷ ts)

  module _ {ℓ} {W : Type ℓ} (lib : Library W) where
    -- One get() after another returns these topics, while the client runs.
    abbrev pub Yields : Name → List Topic → W → W → Type ℓ
    Yields topic [] u w = u ≡ w
    Yields topic (t ∷ ts) u w =
        (lib.is_running u ≡ true)
        × ((v : W) × (lib.get topic get_waitnew u ≡ (ok t, v)) × Yields topic ts v w)

    listen_loop-lines :
        (o : Options) (topic name : Name) (ts : List Topic) (w : W) (p : Process W)
        → Yields topic ts p.world w
        → listen_loop num lib o topic name (length ts) true p
          ≡ runs (record { world = w; out = p.out ++ lines ts })
    unfolding listen_loop listened
    listen_loop-lines o topic name [] w p y = rw (y, append-nil p.out) refl
    listen_loop-lines o topic name (t ∷ ts) w p (running, (v, got, more)) =
        rw (running, got)
          (listen_loop-lines o topic name ts w _ more
            ∙ ap (λ s. runs (record { world = w; out = s }))
                (append_assoc p.out (line t) (lines ts)))

    listen_loop-listing :
        (o : Options) (topic : Name) (ts : List Topic) (w : W) (p : Process W)
        → Yields topic ts p.world w
        → listen_loop num lib o topic (shown_name o topic) (length ts) false p
          ≡ runs (record { world = w; out = p.out ++ listing o topic ts })
    unfolding listen_loop listened
    listen_loop-listing o topic [] w p y = rw (y, append-nil p.out) refl
    listen_loop-listing o topic (t ∷ ts) w p (running, (v, got, more)) =
        rw (running, got)
          (listen_loop-lines o topic (shown_name o topic) ts w _ more
            ∙ ap (λ s. runs (record { world = w; out = s })) (joined p.out _ (line t) (lines ts)))
      where
        joined : (a b c d : List ℕ) → (a ++ (b ++ c)) ++ d ≡ a ++ (b ++ (c ++ d))
        joined a b c d = append_assoc a (b ++ c) d ∙ ap (λ s. a ++ s) (append_assoc b c d)

    -- listen, when init() and subscribe() return, and get() then returns these topics while the
    -- client runs, until a signal comes: the program prints one header with a column for each item
    -- of the first topic, unless -h suppresses it, the slashes of the name as points if -s asks for
    -- it, and a line for each of the topics that is valid, in their order; it calls destroy() and
    -- ends with 0.
    pub main_listens :
        (options : List ℕ) (daemon_failed : Bool) (topic : Name) (rest : List (List ℕ))
        (ts : List Topic) (p : Process W) (u v w : W)
        → lib.init p.world ≡ (ok tt, u)
        → lib.subscribe topic u ≡ (ok tt, v)
        → Yields topic ts v w
        → main num lib options daemon_failed (length ts) (codes "listen" ∷ topic ∷ rest) p
          ≡ exits 0 (record {
            world = (lib.destroy w).1;
            out = p.out ++ listing (set_options options default_options) topic ts;
          })
    unfolding main command cmd_listen compare_bytes
    main_listens options daemon_failed topic rest ts p u v w started subscribed y =
        rw (started, subscribed)
          (ap (concluded num lib) (
            listen_loop-listing (set_options options default_options) topic ts w
              (record p { world = v }) y))
