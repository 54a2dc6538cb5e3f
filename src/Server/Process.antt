-- ===== src/Server/Process.antt =====
-- server.cpp: the constructor of MyServer, what it does with a packet, and its shutdown.
use diamond_apparatus.Base.{ℕ, ◌+◌, true, false, none, List, [], ◌∷◌, ◌==◌, if◌then◌else◌}
use diamond_apparatus.Base.Order.{nat_ord, bytes_ord}
use diamond_apparatus.Base.Result.{Result, ok, ◌>>=◌}
use diamond_apparatus.Base.Bytes.{htonl, ntohl, c_string}
use diamond_apparatus.Map
use diamond_apparatus.Map.{keys}
use diamond_apparatus.Topic.{of_string, Topic, add}
use diamond_apparatus.Tcp.Send.{Net, basesend}
use diamond_apparatus.Messages.{
  cs_publish, cs_subscribe, cs_killserver, cs_clearserver, sc_killclient,
}
use diamond_apparatus.Server.{
  Platform, Server, version_name, version, versionname, find_or_create_topic, getfd,
  rebuild_stats_topic, rebuild_topics_topic, subscribe, unsubscribe, publish,
}

-- The members and statics before the constructor's body, with the listening socket.
abbrev pub bare : ℕ → Net → Server
bare listenfd net = record {
  listenfd = listenfd;
  active_fd_set = Map.insert listenfd tt [];
  cur_client = none;
  clients = [];
  subscribers = [];
  subtopics = [];
  topics = [];
  server_kill = false;
  msgssent = 0;
  msgsrecvd = 0;
  net = net;
}

unfoldable pub clear_server : Server → Server
clear_server s = record s { topics = [] }

unfoldable pub version_topic : Server → Topic
version_topic s =
    add (of_string versionname)
      (add (of_string version) (find_or_create_topic version_name s.topics))

-- shutdown(), up to the pause for the clients' end: one packet to each client.
unfoldable pub shutdown_loop : List ℕ → Server → Result Server
shutdown_loop [] s = ok s
shutdown_loop (fd ∷ fds) s = do
  net ← basesend fd (htonl sc_killclient) s.net
  shutdown_loop fds (record s { net = net; msgssent = s.msgssent + 1 })

unfoldable pub shutdown : Server → Result Server
shutdown s = shutdown_loop (keys s.clients) s

unfoldable pub on_close : ℕ → Server → Server
on_close fd s = unsubscribe fd s

module _ (pf : Platform) where
  unfoldable pub make_server : ℕ → ℕ → Net → Result Server
  make_server now listenfd net = do
    let s = bare listenfd net
    s ←
        rebuild_stats_topic pf now
          (record s { topics = Map.insert version_name (version_topic s) s.topics })
    rebuild_topics_topic pf s

  -- The name of a StrMsg stands behind its type.
  unfoldable pub subscribe_packet : List ℕ → Server → Result Server
  subscribe_packet rest s = do fd ← getfd s; n ← c_string rest; subscribe pf fd n s

  unfoldable pub dispatch : ℕ → List ℕ → List ℕ → Server → Result Server
  dispatch type rest p s =
      if type == cs_publish
      then publish pf p s
      else (if type == cs_subscribe
          then subscribe_packet rest s
          else (if type == cs_killserver
              then ok (record s { server_kill = true })
              else (if type == cs_clearserver then ok (clear_server s) else ok s)))

  unfoldable pub process : ℕ → List ℕ → Server → Result Server
  process now p s = do
    s ← rebuild_stats_topic pf now (record s { msgsrecvd = s.msgsrecvd + 1 })
    (type, rest) ← ntohl p
    dispatch type rest p s
