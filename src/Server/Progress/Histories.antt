-- ===== src/Server/Progress/Histories.antt =====
-- Whole histories of the server return, and do what the broker promises.
use diamond_apparatus.Base.{
  ℕ, ◌+◌, ◌^◌, ◌≤◌, ◌<◌, ◌≡◌, refl, ap, sym, subst, true, false, Option, none, some, List, [], ◌∷◌,
  ◌++◌, arith, length, ◌==◌,
}
use diamond_apparatus.Base.Order.{nat_ord, bytes_ord}
use diamond_apparatus.Base.Result.{
  Result, ok, ◌>>=◌, Succeeds, Succeeds-bind, Succeeds-ok, Ensures-ok,
}
use diamond_apparatus.Base.Bytes.{htonl, ntohl-htonl, c_string-append, until_nul}
use diamond_apparatus.Map
use diamond_apparatus.Topic.{of_string, add, copy}
use diamond_apparatus.Topic.Message.Encode.{encode, encode_items, length-encode}
use diamond_apparatus.Tcp.Send.{Net}
use diamond_apparatus.Tcp.Receive.{Update}
use diamond_apparatus.Messages.{cs_publish, cs_subscribe, cs_killserver, cs_clearserver}
use diamond_apparatus.Server.{
  Platform, Server, version_name, find_or_create_topic, rebuild_stats_topic, rebuild_topics_topic,
  unsubscribe,
}
use diamond_apparatus.Server.Process.{
  bare, version_topic, make_server, clear_server, subscribe_packet, dispatch, process, on_close,
}
use diamond_apparatus.Server.Loop.{
  Ready, connect, disconnect, keep_receiver, process_packet, after_update, serve_client,
  serve_ready,
}
use diamond_apparatus.Server.Invariant.{Inv}
use diamond_apparatus.Server.Connected.{serve_ready-Inv}
use diamond_apparatus.Server.History.{make_server-Inv}
use diamond_apparatus.Server.Broker.{
  Request, publishes, subscribes, kills, clears, IsPacket, Refines,
}
use diamond_apparatus.Server.Refinement.{getfd-ok}
use diamond_apparatus.Server.Traces.{
  Turn, asks, goes, waits, take_turns, IsTurn, Heard, accepts, reads, Runs, done, next,
  fresh_broker, Runs-Refines_fresh,
}
use diamond_apparatus.Server.Progress.{
  IsWithin, IsWithin-mono, IsAffordable, Serves, rebuild_stats_topic-Serves,
  rebuild_topics_topic-Serves, publish-Serves, subscribe-Serves,
}

-- What a turn adds to what is stored, at most.
abbrev pub cost : Turn → ℕ
cost (asks (publishes n d)) = length (encode cs_publish n d) + 64
cost (asks (subscribes n)) = 64
cost (asks kills) = 64
cost (asks clears) = 64
cost goes = 0
cost waits = 0

abbrev pub total : List (ℕ × Turn) → ℕ
total [] = 0
total ((fd, turn) ∷ turns) = cost turn + total turns

module _ (pf : Platform) where
  behind_stats :
      (now b c fd : ℕ) (s : Server) (f : Server → Result Server)
      → Serves b (some fd) s
      → ((u : Server) → Serves (b + 20) (some fd) u → Succeeds (Serves c (some fd)) (f u))
      → Succeeds
          (Serves c (some fd))
          (rebuild_stats_topic pf now (record s { msgsrecvd = s.msgsrecvd + 1 }) >>= f)
  behind_stats now b c fd s f v k =
      let counted : Server = record s { msgsrecvd = s.msgsrecvd + 1 } in
      Succeeds-bind (Serves (b + 20) (some fd)) (Serves c (some fd))
        (rebuild_stats_topic pf now counted) f
        (rebuild_stats_topic-Serves pf now b (some fd) counted
          (record { names = v.0.names; fits = v.0.fits; quiet = v.0.quiet }, v.1))
        k

  weaker :
      (b c : ℕ) (cur : Option ℕ) (r : Result Server)
      → b ≤ c
      → Succeeds (Serves b cur) r
      → Succeeds (Serves c cur) r
  weaker b c cur r le h =
      let (s, e, w) = Succeeds-ok (Serves b cur) r h in
      subst (Succeeds (Serves c cur)) (sym e) (IsWithin-mono b c s le w.0, w.1)

  process-Serves :
      (now b fd : ℕ) (q : Request) (p : List ℕ) (s : Server)
      → IsPacket q p
      → IsAffordable (b + cost (asks q))
      → Serves b (some fd) s
      → Succeeds (Serves (b + cost (asks q)) (some fd)) (process pf now p s)
  unfolding process dispatch subscribe_packet clear_server
  process-Serves now b fd (publishes n d) p s (w, e) room v = rw e (
      rw (ntohl-htonl cs_publish _ (omega arith)) (
        let c = b + 20 + length (encode_items d) in
        let size = length-encode cs_publish n d in
        behind_stats now b (b + (length (encode cs_publish n d) + 64)) fd s _ v λ u h.
          weaker (c + length n + 27) (b + (length (encode cs_publish n d) + 64)) (some fd) _
            (omega (arith, size))
            (publish-Serves pf c (some fd) n d u w (omega arith) (omega (arith, size, room))
              (IsWithin-mono (b + 20) c u (omega arith) h.0, h.1))))
  process-Serves now b fd (subscribes n) p s (text, (rest, e)) room v = rw e (
      rw (ntohl-htonl cs_subscribe (n ++ 0 ∷ rest) (omega arith)) (
        behind_stats now b (b + 64) fd s _ v λ u h.
          rw (getfd-ok fd u h.1, c_string-append n rest text)
            (weaker (b + 20) (b + 64) (some fd) _ (omega arith)
              (subscribe-Serves pf (b + 20) fd n u (omega arith) h))))
  process-Serves now b fd kills p s (rest, e) room v = rw e (
      rw (ntohl-htonl cs_killserver rest (omega arith)) (
        behind_stats now b (b + 64) fd s _ v λ u h.
          let w = IsWithin-mono (b + 20) (b + 64) u (omega arith) h.0 in
          (record { names = w.names; fits = w.fits; quiet = w.quiet }, h.1)))
  process-Serves now b fd clears p s (rest, e) room v = rw e (
      rw (ntohl-htonl cs_clearserver rest (omega arith)) (
        behind_stats now b (b + 64) fd s _ v
          λ u h. (record { names = omega arith; fits = tt; quiet = h.0.quiet }, h.1)))

  -- A turn that is heard, whose connection, if it is one, is accepted, is served.
  after_update-IsWithin :
      (fd now b : ℕ) (turn : Turn) (u : Update) (s : Server)
      → IsTurn turn u
      → IsAffordable (b + cost turn)
      → Serves b (some fd) s
      → Succeeds (IsWithin (b + cost turn)) (after_update pf fd now u s)
  unfolding after_update process_packet keep_receiver disconnect on_close unsubscribe
  after_update-IsWithin fd now b (asks q) u s (returned, (p, packet, asked)) room v =
      rw (returned, packet)
        (Succeeds-bind (Serves (b + cost (asks q)) (some fd)) (IsWithin (b + cost (asks q)))
          (process pf now p s) _ (process-Serves now b fd q p s asked room v)
          λ t w. record { names = w.0.names; fits = w.0.fits; quiet = w.0.quiet })
  after_update-IsWithin fd now b goes u s (returned, packet) room v =
      let w = IsWithin-mono b (b + 0) s (omega arith) v.0 in
      rw (returned, packet) (record { names = w.names; fits = w.fits; quiet = w.quiet })
  after_update-IsWithin fd now b waits u s (returned, packet) room v =
      let w = IsWithin-mono b (b + 0) s (omega arith) v.0 in
      rw (returned, packet) (record { names = w.names; fits = w.fits; quiet = w.quiet })

  serve_ready-IsWithin :
      (e : Ready) (b : ℕ) (turn : Turn) (s : Server)
      → Heard turn e s
      → (e.fd ≡ s.listenfd → (fd : ℕ) × (e.accepted ≡ some fd))
      → Inv s
      → IsAffordable (b + cost turn)
      → IsWithin b s
      → Succeeds (IsWithin (b + cost turn)) (serve_ready pf e s)
  unfolding serve_ready serve_client connect
  serve_ready-IsWithin e b turn s (accepts listening nothing) accepted v room w =
      let h : (e.fd == s.listenfd) ≡ true = ground arith in
      let (fd, f) = accepted listening in
      let x = IsWithin-mono b (b + 0) s (omega arith) w in
      rw (h, f, nothing) (record { names = x.names; fits = x.fits; quiet = x.quiet })
  serve_ready-IsWithin e b turn s (reads c u other found updated turned) accepted v room w =
      let h : (e.fd == s.listenfd) ≡ false = ground arith in
      rw (h, found, updated)
        (after_update-IsWithin e.fd e.now b turn u (record s { cur_client = some c.fd }) turned room
          (
            record { names = w.names; fits = w.fits; quiet = w.quiet },
            ap some (v.keyed e.fd c found),
          ))

  -- A history that arrives: each event is one that the server can hear in the state that it has come
  -- to, and the connections among them are accepted.
  pub data Arrives : List Ready → List (ℕ × Turn) → Server → Type 0 where
    over : (s : Server) → Arrives [] [] s
    comes :
        {es : List Ready} {turns : List (ℕ × Turn)} {s : Server} (e : Ready) (turn : Turn)
        → Heard turn e s
        → (e.fd ≡ s.listenfd → (fd : ℕ) × (e.accepted ≡ some fd))
        → ((u : Server) → serve_ready pf e s ≡ ok u → Arrives es turns u)
        → Arrives (e ∷ es) ((e.fd, turn) ∷ turns) s

  Runs-exist :
      (b : ℕ) {es : List Ready} {turns : List (ℕ × Turn)} {s : Server}
      → Arrives es turns s
      → Inv s
      → IsAffordable (b + total turns)
      → IsWithin b s
      → (t : Server) × Runs pf es s turns t
  Runs-exist b (over s) v room w = (s, done s)
  Runs-exist b (comes {es} {turns} {s} e turn heard accepted later) v room w =
      let (u, served, x) =
        Succeeds-ok (IsWithin (b + cost turn)) (serve_ready pf e s)
          (serve_ready-IsWithin e b turn s heard accepted v (omega arith) w) in
      let (t, runs) =
        Runs-exist (b + cost turn) (later u served)
          (Ensures-ok Inv served (serve_ready-Inv pf e s v)) (omega arith) x in
      (t, next heard served runs)

  make_server-IsWithin :
      (now listenfd : ℕ) (net : Net)
      → net.script ≡ []
      → Succeeds (IsWithin 128) (make_server pf now listenfd net)
  unfolding make_server version_topic of_string add copy until_nul find_or_create_topic Map.at
      Map.find Map.insert htonl
  make_server-IsWithin now listenfd net quiet =
      let s : Server = record (bare listenfd net) {
        topics = Map.insert version_name (version_topic (bare listenfd net)) [];
      } in
      let v : Serves 64 none s = (
        record {
          names = omega arith;
          fits = (record { short = omega arith; tagged = (tt, (tt, tt)); small = omega arith }, tt);
          quiet = quiet;
        },
        refl,
      ) in
      Succeeds-bind (Serves 84 none) (IsWithin 128) (rebuild_stats_topic pf now s)
        (rebuild_topics_topic pf) (rebuild_stats_topic-Serves pf now 64 none s v)
        λ t w.
          let (u, e, x) =
            Succeeds-ok (Serves 106 none) (rebuild_topics_topic pf t)
              (rebuild_topics_topic-Serves pf 84 none t (omega arith) w) in
          subst (Succeeds (IsWithin 128)) (sym e) (IsWithin-mono 106 128 u (omega arith) x.0)

  -- The server serves every history of its clients, while every write is complete and the
  -- publications in it take, with 64 bytes for each packet, fewer than 2^31 - 384 bytes: if every
  -- packet that arrives is one of the four requests and every connection is accepted, then the
  -- constructor returns, each event is served and returns, in whatever order they come, and in the
  -- end users see what the broker has after the same turns.
  pub Runs-serve :
      (now listenfd : ℕ) (net : Net) (es : List Ready) (turns : List (ℕ × Turn))
      → net.script ≡ []
      → total turns + 384 < 2 ^ 31
      → ((s : Server) → make_server pf now listenfd net ≡ ok s → Arrives es turns s)
      → (s : Server) × (t : Server) × (make_server pf now listenfd net ≡ ok s)
        × Runs pf es s turns t
        × Refines t (take_turns turns fresh_broker)
  Runs-serve now listenfd net es turns quiet room arrives =
      let (s, made, w) =
        Succeeds-ok (IsWithin 128) (make_server pf now listenfd net)
          (make_server-IsWithin now listenfd net quiet) in
      let (t, runs) =
        Runs-exist 128 (arrives s made) (Ensures-ok Inv made (make_server-Inv pf now listenfd net))
          (omega arith) w in
      (s, t, made, runs, Runs-Refines_fresh pf now listenfd net made runs)
