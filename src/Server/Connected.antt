-- ===== src/Server/Connected.antt =====
-- The invariant through the loop of the server.
use diamond_apparatus.Base.{
  ℕ, ◌≡◌, ◌≢◌, refl, ap, ◌∙◌, Bool, true, false, Option, none, some, List, [], ◌∷◌, arith, ◌==◌,
  if◌then◌else◌, Bool-cases, inl, inr,
}
use diamond_apparatus.Base.Order.{nat_ord, bytes_ord}
use diamond_apparatus.Base.Result.{
  ok, ◌>>=◌, Ensures, Ensures-bind, or_fault, or_throw, accept_failed,
}
use diamond_apparatus.Map
use diamond_apparatus.Map.{Set, same}
use diamond_apparatus.Map.Laws.{find-insert, find-erase, has-insert, has-erase, same-eq}
use diamond_apparatus.Tcp.Receive.{TcpReceiver, new_receiver, Update, update}
use diamond_apparatus.Server.{Platform, Server, ClientInServer, unsubscribe}
use diamond_apparatus.Server.Process.{on_close}
use diamond_apparatus.Server.Subscriptions.{member-unsubscribe, unsubscribe-IsLinked}
use diamond_apparatus.Server.Keeps.{Connections}
use diamond_apparatus.Server.Invariant.{Inv, Stays, process-Stays}
use diamond_apparatus.Server.Loop.{
  Ready, connect, disconnect, keep_receiver, no_client, process_packet, after_update, serve_client,
  serve_ready, serve_all,
}

connect-Inv : (fd : ℕ) (s : Server) → Inv s → Inv (connect fd s)
unfolding connect
connect-Inv fd s v = record {
  linked = v.linked;
  live = λ n g h.
      ground
        (arith, has-insert g fd (record { fd = fd; r = new_receiver }) s.clients, v.live n g h);
  keyed = λ g c h. ground (
    arith,
    find-insert g fd (record { fd = fd; r = new_receiver }) s.clients,
    v.keyed g c,
    h,
    same-eq g fd,
  );
  watched = λ g. ground (
    arith,
    has-insert g fd (record { fd = fd; r = new_receiver }) s.clients,
    has-insert g fd tt s.active_fd_set,
    v.watched g,
  );
}

keep_receiver-Inv :
    (fd : ℕ) (r : TcpReceiver) (s : Server)
    → Inv s
    → Map.has fd s.clients ≡ true
    → Inv (keep_receiver fd r s)
unfolding keep_receiver
keep_receiver-Inv fd r s v there = record {
  linked = v.linked;
  live =
      λ n g h. ground (arith, has-insert g fd (record { fd = fd; r = r }) s.clients, v.live n g h);
  keyed = λ g c h.
      ground (
        arith,
        find-insert g fd (record { fd = fd; r = r }) s.clients,
        v.keyed g c,
        h,
        same-eq g fd,
      );
  watched = λ g. ground (
    arith,
    has-insert g fd (record { fd = fd; r = r }) s.clients,
    v.watched g,
    there,
    same-eq g fd,
  );
}

-- A dropped client leaves no subscription behind.
disconnect-Inv : (fd : ℕ) (s : Server) → Inv s → fd ≢ s.listenfd → Inv (disconnect fd s)
unfolding disconnect on_close unsubscribe
disconnect-Inv fd s v client = record {
  linked = unsubscribe-IsLinked fd cleared v.linked;
  live = λ n g h. ground (
    arith,
    (member-unsubscribe n g fd cleared v.linked).0,
    has-erase g fd s.clients,
    v.live n g,
    h,
  );
  keyed = λ g c h. ground (arith, find-erase g fd s.clients, v.keyed g c, h);
  watched = λ g. ground (
    arith,
    has-erase g fd s.clients,
    has-erase g fd s.active_fd_set,
    v.watched g,
    client,
    same-eq g fd,
  );
}
  where
    cleared : Server
    cleared = record s {
      active_fd_set = Map.erase fd s.active_fd_set;
      clients = Map.erase fd s.clients;
    }

no_client-Inv : (s : Server) → Inv s → Inv (no_client s)
no_client-Inv s v = record {
  linked = v.linked;
  live = v.live;
  keyed = v.keyed;
  watched = v.watched;
}

module _ (pf : Platform) where
  process_packet-Stays :
      (now : ℕ) (o : Option (List ℕ)) (s : Server) (fd : ℕ)
      → Inv s
      → s.cur_client ≡ some fd
      → Map.has fd s.clients ≡ true
      → Ensures (Stays s) (process_packet pf now o s)
  unfolding process_packet
  process_packet-Stays now none s fd v cur there = (v, refl)
  process_packet-Stays now (some p) s fd v cur there = process-Stays pf now p s fd v cur there

  after_update-Inv :
      (fd now : ℕ) (u : Update) (s : Server)
      → Inv s
      → s.cur_client ≡ some fd
      → Map.has fd s.clients ≡ true
      → fd ≢ s.listenfd
      → Ensures Inv (after_update pf fd now u s)
  unfolding after_update
  after_update-Inv fd now u s v cur there client =
      Ensures-bind (Stays s) Inv (process_packet pf now u.packet s) _
        (process_packet-Stays now u.packet s fd v cur there)
        λ t st.
          no_client-Inv (if u.returned then keep_receiver fd u.receiver t else disconnect fd t)
            (by_return u.returned t st)
    where
      by_return :
          (b : Bool) (t : Server)
          → Stays s t
          → Inv (if b then keep_receiver fd u.receiver t else disconnect fd t)
      by_return true t st =
          keep_receiver-Inv fd u.receiver t st.0
            (ap (λ (c : Connections). Map.has fd c.clients) st.1 ∙ there)
      by_return false t st =
          disconnect-Inv fd t st.0 λ e. client (e ∙ ap (λ (c : Connections). c.listenfd) st.1)

  served-Inv :
      (e : Ready) (s : Server) (c : ClientInServer) (o : Option Update)
      → Inv s
      → Map.find e.fd s.clients ≡ some c
      → e.fd ≢ s.listenfd
      → Ensures Inv
          (or_fault o >>= λ u. after_update pf e.fd e.now u (record s { cur_client = some c.fd }))
  served-Inv e s c none v found client = tt
  served-Inv e s c (some u) v found client =
      after_update-Inv e.fd e.now u (record s { cur_client = some c.fd })
        (record { linked = v.linked; live = v.live; keyed = v.keyed; watched = v.watched })
        (ap some (v.keyed e.fd c found)) (unfold Map.has in rw found) client

  serve_client-Inv :
      (e : Ready) (s : Server) (o : Option ClientInServer)
      → Map.find e.fd s.clients ≡ o
      → Inv s
      → e.fd ≢ s.listenfd
      → Ensures Inv (serve_client pf e s)
  unfolding serve_client
  serve_client-Inv e s none found v client = rw found tt
  serve_client-Inv e s (some c) found v client =
      rw found (served-Inv e s c (update c.r e.events) v found client)

  accept-Inv :
      (s : Server) (o : Option ℕ)
      → Inv s
      → Ensures Inv (or_throw o accept_failed >>= λ fd. ok (connect fd s))
  accept-Inv s none v = tt
  accept-Inv s (some fd) v = connect-Inv fd s v

  pub serve_ready-Inv : (e : Ready) (s : Server) → Inv s → Ensures Inv (serve_ready pf e s)
  unfolding serve_ready
  serve_ready-Inv e s v = elim (Bool-cases (e.fd == s.listenfd)) [
    | inl h ↦ rw h (accept-Inv s e.accepted v)
    | inr h ↦ rw h (serve_client-Inv e s (Map.find e.fd s.clients) refl v (ground (arith, h)))
  ]

  -- A round of the server, whatever select(), accept(), the reads and the writes return: if it
  -- returns, then the two subscription maps still tell the same, only connected clients are
  -- subscribed, each client is filed under its descriptor, and select() watches exactly the
  -- listening socket and the clients.
  pub serve_all-Inv : (es : List Ready) (s : Server) → Inv s → Ensures Inv (serve_all pf es s)
  unfolding serve_all
  serve_all-Inv [] s v = v
  serve_all-Inv (e ∷ es) s v =
      Ensures-bind Inv Inv (serve_ready pf e s) (serve_all pf es) (serve_ready-Inv e s v)
        (serve_all-Inv es)
