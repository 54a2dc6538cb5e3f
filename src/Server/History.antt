-- ===== src/Server/History.antt =====
-- The invariant from the server's constructor to its shutdown.
use diamond_apparatus.Base.{
  ℕ, ◌+◌, sym, ◌∙◌, Bool, true, false, Option, none, some, List, [], ◌∷◌, arith, if◌then◌else◌,
}
use diamond_apparatus.Base.Order.{nat_ord, bytes_ord}
use diamond_apparatus.Base.Result.{
  Result, ok, throws, fault, ◌>>=◌, Ensures, Ensures-bind, Ensures-any,
}
use diamond_apparatus.Map
use diamond_apparatus.Map.{Set, same}
use diamond_apparatus.Tcp.Send.{Net}
use diamond_apparatus.Server.{
  Platform, Server, rebuild_stats_topic, rebuild_topics_topic, version_name,
}
use diamond_apparatus.Server.Process.{bare, make_server, version_topic}
use diamond_apparatus.Server.Keeps.{Keeps, rebuild_stats_topic-Keeps, rebuild_topics_topic-Keeps}
use diamond_apparatus.Server.Invariant.{Inv, Keeps-Inv}
use diamond_apparatus.Server.Loop.{Ready, server_update, server_loop}
use diamond_apparatus.Server.Connected.{serve_all-Inv}
use diamond_apparatus.Map.Multi.{member-empty}
use diamond_apparatus.Base.Bytes.{htonl}
use diamond_apparatus.Tcp.Send.{basesend}
use diamond_apparatus.Messages.{sc_killclient}
use diamond_apparatus.Server.Process.{shutdown, shutdown_loop}

bare-Inv : (listenfd : ℕ) (net : Net) → Inv (bare listenfd net)
bare-Inv listenfd net = record {
  linked = λ n fd. member-empty n fd ∙ sym (member-empty fd n);
  live = λ n fd h. cc (member-empty n fd);
  keyed = λ fd c h. unfold Map.find in cc;
  watched = λ fd. unfold Map.has Map.find Map.insert in ground arith;
}

module _ (pf : Platform) where
  pub make_server-Inv :
      (now listenfd : ℕ) (net : Net) → Ensures Inv (make_server pf now listenfd net)
  unfolding make_server
  make_server-Inv now listenfd net =
      Ensures-bind Inv Inv (rebuild_stats_topic pf now versioned) (rebuild_topics_topic pf)
        (Inv_of_keeps (rebuild_stats_topic pf now versioned) versioned-Inv
          (rebuild_stats_topic-Keeps pf now versioned))
        λ s v. Inv_of_keeps (rebuild_topics_topic pf s) v (rebuild_topics_topic-Keeps pf s)
    where
      versioned : Server
      versioned = record (bare listenfd net) {
        topics = Map.insert version_name (version_topic (bare listenfd net)) [];
      }

      versioned-Inv : Inv versioned
      versioned-Inv =
          let v = bare-Inv listenfd net in
          record { linked = v.linked; live = v.live; keyed = v.keyed; watched = v.watched }

      Inv_of_keeps : {s : Server} (r : Result Server) → Inv s → Ensures (Keeps s) r → Ensures Inv r
      Inv_of_keeps (ok t) v k = Keeps-Inv _ t v k
      Inv_of_keeps (throws e) v k = tt
      Inv_of_keeps fault v k = tt

  update-Inv : (x : Option (List Ready)) (s : Server) → Inv s → Ensures Inv (server_update pf x s)
  unfolding server_update
  update-Inv none s v = tt
  update-Inv (some es) s v = serve_all-Inv pf es s v

  shutdown_loop-Inv : (fds : List ℕ) (s : Server) → Inv s → Ensures Inv (shutdown_loop fds s)
  unfolding shutdown_loop
  shutdown_loop-Inv [] s v = v
  shutdown_loop-Inv (fd ∷ fds) s v =
      Ensures-any Inv (basesend fd (htonl sc_killclient) s.net) _ λ net.
        shutdown_loop-Inv fds (record s { net = net; msgssent = s.msgssent + 1 })
          (record { linked = v.linked; live = v.live; keyed = v.keyed; watched = v.watched })

  pub shutdown-Inv : (s : Server) → Inv s → Ensures Inv (shutdown s)
  unfolding shutdown
  shutdown-Inv s v = shutdown_loop-Inv (Map.keys s.clients) s v

  pub server_loop-Inv :
      (xs : List (Option (List Ready))) (s : Server)
      → Inv s
      → Ensures (λ x. Inv x.1) (server_loop pf xs s)
  unfolding server_loop
  server_loop-Inv [] s v = v
  server_loop-Inv (x ∷ xs) s v =
      Ensures-bind Inv (λ y. Inv y.1) (server_update pf x s) _ (update-Inv x s v)
        λ t w. by_kill t.server_kill t w (server_loop-Inv xs t w)
    where
      by_kill :
          (b : Bool) (t : Server)
          → Inv t
          → Ensures (λ y. Inv y.1) (server_loop pf xs t)
          → Ensures
              (λ y. Inv y.1)
              (if b then (shutdown t >>= λ t. ok (true, t)) else server_loop pf xs t)
      by_kill true t w rest =
          Ensures-bind Inv (λ y. Inv y.1) (shutdown t) _ (shutdown-Inv t w) λ u z. z
      by_kill false t w rest = rest

  -- The whole history of a server, from its constructor through any rounds, its shutdown included,
  -- whatever the environment answers: if it returns, then the two subscription maps tell the same,
  -- only connected clients are subscribed, each client is filed under its descriptor, and select()
  -- watches exactly the listening socket and the clients.
  pub server-Inv :
      (now listenfd : ℕ) (net : Net) (xs : List (Option (List Ready)))
      → Ensures (λ x. Inv x.1) (make_server pf now listenfd net >>= server_loop pf xs)
  server-Inv now listenfd net xs =
      Ensures-bind Inv (λ x. Inv x.1) (make_server pf now listenfd net) (server_loop pf xs)
        (make_server-Inv now listenfd net) (server_loop-Inv xs)
