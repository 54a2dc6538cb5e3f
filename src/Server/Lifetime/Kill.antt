-- ===== src/Server/Lifetime/Kill.antt =====
-- A client asks the server to end, and the server does: update(), the loop of server() and
-- shutdown().
use diamond_apparatus.Base.{
  ℕ, ◌==◌, ◌||◌, ◌+◌, ◌≡◌, ◌≢◌, refl, ◌∙◌, true, Option, some, List, [], ◌∷◌, ◌++◌, arith,
  append-nil, if◌then◌else◌,
}
use diamond_apparatus.Base.Order.{nat_ord, bytes_ord}
use diamond_apparatus.Base.Result.{Result, ok, throws, fault, ◌>>=◌}
use diamond_apparatus.Base.Bytes.{htonl, ntohl-htonl}
use diamond_apparatus.Map
use diamond_apparatus.Map.{keys}
use diamond_apparatus.Map.Sorted.{IsSorted, insert-IsSorted, keys-insert_there}
use diamond_apparatus.Map.Multi.{member, listed, listed-keys}
use diamond_apparatus.Tcp.Send.{basesend}
use diamond_apparatus.Tcp.Send.Frames.{frame, stream}
use diamond_apparatus.Topic.Message.Encode.{encode}
use diamond_apparatus.Tcp.Receive.{TcpReceiver, bytes_of}
use diamond_apparatus.Tcp.Receive.Chunks.{IsFlowing}
use diamond_apparatus.Tcp.Receive.Phases.{IsIdle}
use diamond_apparatus.Messages.{cs_killserver, sc_killclient, sc_notify}
use diamond_apparatus.Server.{Platform, Server, ClientInServer, stats_name, send_loop}
use diamond_apparatus.Server.Process.{shutdown, shutdown_loop, process, dispatch}
use diamond_apparatus.Server.Loop.{
  Ready, server_loop, server_update, serve_ready, serve_all, keep_receiver, no_client,
}
use diamond_apparatus.Server.Delivery.{delivered, send_loop_complete}
use diamond_apparatus.Server.Returns.{
  received, new_stats, stats_published, rebuild_stats_topic_complete,
}
use diamond_apparatus.Server.Streams.{stream-delivered, stream-stats_told, serve_packet}
use diamond_apparatus.Server.Lifetime.{closed_by}

-- The packet that tells a client to end.
abbrev pub farewell : List ℕ
farewell = htonl sc_killclient

-- The loop of shutdown() is that of a publication.
shutdown_loop-eq : (fds : List ℕ) (s : Server) → shutdown_loop fds s ≡ send_loop fds farewell s
unfolding shutdown_loop send_loop
shutdown_loop-eq [] s = refl
shutdown_loop-eq (fd ∷ fds) s = λ i. basesend fd farewell s.net >>= λ net.
    shutdown_loop-eq fds (record s { net = net; msgssent = s.msgssent + 1 }) i

shutdown_complete :
    (s : Server) → s.net.script ≡ [] → shutdown s ≡ ok (delivered (keys s.clients) farewell s)
unfolding shutdown htonl
shutdown_complete s e =
    shutdown_loop-eq (keys s.clients) s
    ∙ send_loop_complete (keys s.clients) farewell s e (omega arith)

module _ (pf : Platform) where
  -- The server that has been asked to end.
  abbrev asked : ℕ → ℕ → Server → Server
  asked now fd s = record (stats_published pf now (received (record s { cur_client = some fd }))) {
    server_kill = true;
  }

  process_killserver :
      (now : ℕ) (s : Server)
      → s.net.script ≡ []
      → process pf now (htonl cs_killserver) s
        ≡ ok (record (stats_published pf now (received s)) { server_kill = true })
  unfolding process dispatch
  process_killserver now s e = rw (rebuild_stats_topic_complete pf now (received s) e) (
      rw (← append-nil (htonl cs_killserver))
        (rw (ntohl-htonl cs_killserver [] (omega arith)) refl))

  -- The server behind the turn of the client that asked, and behind its shutdown.
  abbrev answered : Ready → ClientInServer → TcpReceiver → Server → Server
  answered e k r s = no_client (keep_receiver e.fd r (asked e.now k.fd s))

  abbrev ended : Ready → ClientInServer → TcpReceiver → Server → Server
  ended e k r s = delivered (keys (answered e k r s).clients) farewell (answered e k r s)

  same_clients :
      (e : Ready) (k : ClientInServer) (r : TcpReceiver) (s : Server)
      → IsSorted s.clients
      → Map.find e.fd s.clients ≡ some k
      → keys (answered e k r s).clients ≡ keys s.clients
  unfolding keep_receiver Map.has
  same_clients e k r s sorted found =
      keys-insert_there e.fd (record { fd = e.fd; r = r }) s.clients sorted (rw found refl)

  serve_all-append :
      (es fs : List Ready) (s : Server)
      → serve_all pf (es ++ fs) s ≡ (serve_all pf es s >>= serve_all pf fs)
  unfolding serve_all
  serve_all-append [] fs s = refl
  serve_all-append (e ∷ es) fs s = by_served (serve_ready pf e s) (serve_all-append es fs)
    where
      by_served :
          (r : Result Server)
          → ((t : Server) → serve_all pf (es ++ fs) t ≡ (serve_all pf es t >>= serve_all pf fs))
          → (r >>= serve_all pf (es ++ fs)) ≡ ((r >>= serve_all pf es) >>= serve_all pf fs)
      by_served (ok t) rest = rest t
      by_served (throws x) rest = refl
      by_served fault rest = refl

  kill_round :
      (before : List Ready) (e : Ready) (k : ClientInServer) (s0 s : Server)
      (rounds : List (Option (List Ready)))
      → serve_all pf before s0 ≡ ok s
      → s.net.script ≡ []
      → e.fd ≢ s.listenfd
      → Map.find e.fd s.clients ≡ some k
      → IsIdle k.r
      → IsFlowing e.events
      → bytes_of e.events ≡ frame (htonl cs_killserver)
      → (r : TcpReceiver) × (server_loop pf (some (before ++ e ∷ []) ∷ rounds) s0
          ≡ ok (true, ended e k r s))
  unfolding server_loop server_update serve_all keep_receiver
  kill_round before e k s0 s rounds first quiet apart found idle flows sent =
      let (r, served, idle_after) =
        serve_packet pf (htonl cs_killserver) e k s (unfold htonl in omega arith)
          (unfold htonl in omega arith) apart found idle flows sent
          (process_killserver e.now (record s { cur_client = some k.fd }) quiet) in
      (
        r,
        rw
            (
              serve_all-append before (e ∷ []) s0,
              first,
              served,
              shutdown_complete (answered e k r s) quiet,
            )
            refl,
      )

  -- The statistics that the packet makes, for their subscribers.
  abbrev pub statistics : Ready → ClientInServer → Server → List ℕ
  statistics e k s =
      encode sc_notify stats_name
        (new_stats pf e.now (received (record s { cur_client = some k.fd }))).d

  stream-ended :
      (fd : ℕ) (e : Ready) (k : ClientInServer) (r : TcpReceiver) (s : Server)
      → IsSorted s.clients
      → Map.find e.fd s.clients ≡ some k
      → IsSorted (Map.at [] stats_name s.subscribers)
      → stream fd (ended e k r s).net.out
        ≡ (stream fd s.net.out
            ++ (if member stats_name fd s.subscribers then frame (statistics e k s) else []))
          ++ (if Map.has fd s.clients then frame farewell else [])
  unfolding keep_receiver
  stream-ended fd e k r s sorted found stats_sorted =
      stream-delivered fd (answered e k r s).clients farewell (answered e k r s)
        (insert-IsSorted e.fd (record { fd = e.fd; r = r }) s.clients sorted)
      ∙ rw
          (
            stream-stats_told pf fd e.now (received (record s { cur_client = some k.fd }))
                stats_sorted,
            ← listed-keys fd (answered e k r s).clients,
            same_clients e k r s sorted found,
            listed-keys fd s.clients,
          )
          refl

  listed-ended :
      (fd : ℕ) (e : Ready) (k : ClientInServer) (r : TcpReceiver) (s : Server)
      → IsSorted s.clients
      → Map.find e.fd s.clients ≡ some k
      → listed fd (closed_by (ended e k r s)) ≡ (fd == s.listenfd || Map.has fd s.clients)
  unfolding closed_by listed keep_receiver
  listed-ended fd e k r s sorted found =
      rw (same_clients e k r s sorted found, listed-keys fd s.clients) (ground arith)

  -- The packet of killServer() from a client, in any pieces, its receiver between two packets, at
  -- the last ready descriptor of a round whose others have been served, while every write is
  -- complete: server() serves it and leaves its loop in the same round. By then it has put on the
  -- stream of each descriptor, behind what was there before the packet, the statistics if it is
  -- subscribed to "stats", and then, once, the order to end if it is a client, and nothing else;
  -- and what the destructor closes are the listening socket and the descriptors of the clients.
  pub server_loop-killserver :
      (before : List Ready) (e : Ready) (k : ClientInServer) (s0 s : Server)
      (rounds : List (Option (List Ready))) (fd : ℕ)
      → serve_all pf before s0 ≡ ok s
      → s.net.script ≡ []
      → e.fd ≢ s.listenfd
      → Map.find e.fd s.clients ≡ some k
      → IsIdle k.r
      → IsFlowing e.events
      → bytes_of e.events ≡ frame (htonl cs_killserver)
      → IsSorted s.clients
      → IsSorted (Map.at [] stats_name s.subscribers)
      → (t : Server) × (server_loop pf (some (before ++ e ∷ []) ∷ rounds) s0 ≡ ok (true, t))
        × (stream fd t.net.out
            ≡ (stream fd s.net.out
                ++ (if member stats_name fd s.subscribers then frame (statistics e k s) else []))
              ++ (if Map.has fd s.clients then frame farewell else []))
        × (listed fd (closed_by t) ≡ (fd == s.listenfd || Map.has fd s.clients))
  server_loop-killserver before e k s0 s rounds fd first quiet apart found idle flows sent sorted
        stats_sorted =
      let (r, goes) = kill_round before e k s0 s rounds first quiet apart found idle flows sent in
      (
        ended e k r s,
        goes,
        stream-ended fd e k r s sorted found stats_sorted,
        listed-ended fd e k r s sorted found,
      )
