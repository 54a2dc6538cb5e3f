-- ===== src/Server/Loop.antt =====
-- TCPServer::update() of tcp.h and the loop of server() in server.cpp. What select() and accept()
-- return, and what the reads of a descriptor will return, is an argument.
use diamond_apparatus.Base.{
  ℕ, Bool, true, false, Option, none, some, List, [], ◌∷◌, ◌==◌, if◌then◌else◌,
}
use diamond_apparatus.Base.Order.{nat_ord, bytes_ord}
use diamond_apparatus.Base.Result.{
  Result, ok, throws, select_failed, accept_failed, or_fault, or_throw, ◌>>=◌,
}
use diamond_apparatus.Map
use diamond_apparatus.Tcp.Receive.{TcpReceiver, new_receiver, Event, Update, update}
use diamond_apparatus.Server.{Platform, Server}
use diamond_apparatus.Server.Process.{process, on_close, shutdown}

-- A descriptor that select() reports: what accept() returns if it is the listening one, what is to
-- be read if it is a client's, and the time at which a packet of it is processed.
pub record Ready : Type 0 where
  pub fd : ℕ
  pub accepted : Option ℕ
  pub events : List Event
  pub now : ℕ

-- A new connection.
unfoldable pub connect : ℕ → Server → Server
connect fd s = record s {
  clients = Map.insert fd (record { fd = fd; r = new_receiver }) s.clients;
  active_fd_set = Map.insert fd tt s.active_fd_set;
}

-- The client of a descriptor is dropped, and its subscriptions with it.
unfoldable pub disconnect : ℕ → Server → Server
disconnect fd s =
    on_close fd
      (record s { active_fd_set = Map.erase fd s.active_fd_set; clients = Map.erase fd s.clients })

-- What update() of a receiver leaves behind, for a client that goes on.
unfoldable pub keep_receiver : ℕ → TcpReceiver → Server → Server
keep_receiver fd r s = record s { clients = Map.insert fd (record { fd = fd; r = r }) s.clients }

abbrev pub no_client : Server → Server
no_client s = record s { cur_client = none }

module _ (pf : Platform) where
  -- The call of process() inside update().
  unfoldable pub process_packet : ℕ → Option (List ℕ) → Server → Result Server
  process_packet now none s = ok s
  process_packet now (some p) s = process pf now p s

  unfoldable pub after_update : ℕ → ℕ → Update → Server → Result Server
  after_update fd now u s = do
    s ← process_packet now u.packet s
    ok (no_client (if u.returned then keep_receiver fd u.receiver s else disconnect fd s))

  -- A descriptor that is not the listening one; `clients[i]` of one that is not there is NULL.
  unfoldable pub serve_client : Ready → Server → Result Server
  serve_client e s = do
    c ← or_fault (Map.find e.fd s.clients)
    u ← or_fault (update c.r e.events)
    after_update e.fd e.now u (record s { cur_client = some c.fd })

  unfoldable pub serve_ready : Ready → Server → Result Server
  serve_ready e s =
      if e.fd == s.listenfd
      then (do fd ← or_throw e.accepted accept_failed; ok (connect fd s))
      else serve_client e s

  unfoldable pub serve_all : List Ready → Server → Result Server
  serve_all [] s = ok s
  serve_all (e ∷ es) s = do s ← serve_ready e s; serve_all es s

  -- `none` is a select() that fails.
  unfoldable pub server_update : Option (List Ready) → Server → Result Server
  server_update none s = throws select_failed
  server_update (some es) s = serve_all es s

  -- server(): the rounds until a packet has asked for the end, and whether it has.
  unfoldable pub server_loop : List (Option (List Ready)) → Server → Result (Bool × Server)
  server_loop [] s = ok (false, s)
  server_loop (x ∷ xs) s = do
    s ← server_update x s
    let rest = server_loop xs s
    if s.server_kill then (do s ← shutdown s; ok (true, s)) else rest
