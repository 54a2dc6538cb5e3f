-- ===== src/Server/Throws/Always.antt =====
-- What the server throws over its whole history: never what toMessage() does.
use diamond_apparatus.Base.{
  ℕ, ◌+◌, Bool, true, false, Option, none, some, List, [], ◌∷◌, All, ◌==◌, if◌then◌else◌,
}
use diamond_apparatus.Base.Order.{nat_ord, bytes_ord}
use diamond_apparatus.Base.Result.{bad_data, ◌>>=◌, Avoids, Avoids-bind, Avoids-any, Whatever}
use diamond_apparatus.Base.Bytes.{htonl}
use diamond_apparatus.Map
use diamond_apparatus.Map.{Map, keys, same, branch}
use diamond_apparatus.Topic.{of_string, copy, add}
use diamond_apparatus.Topic.Message.Encode.{IsTagged}
use diamond_apparatus.Tcp.Send.{Net, basesend}
use diamond_apparatus.Server.{Platform, Server, find_or_create_topic, rebuild_stats_topic}
use diamond_apparatus.Server.Tagged.{
  IsTaggedServer, insert-Stored, found-IsTagged, add-IsTagged, basesend-Avoids,
}
use diamond_apparatus.Base.Result.{or_fault, or_throw, accept_failed}
use diamond_apparatus.Tcp.Receive.{Update, update}
use diamond_apparatus.Messages.{sc_killclient}
use diamond_apparatus.Server.{unsubscribe, version_name, version, versionname}
use diamond_apparatus.Server.Process.{
  bare, version_topic, make_server, shutdown, shutdown_loop, on_close,
}
use diamond_apparatus.Server.Loop.{
  Ready, connect, disconnect, keep_receiver, no_client, process_packet, after_update, serve_client,
  serve_ready, serve_all, server_update, server_loop,
}
use diamond_apparatus.Server.Throws.{
  either-Avoids, process-Avoids, rebuild_stats_topic-Avoids, rebuild_topics_topic-Avoids,
}

abbrev pub IsTaggedEnd : Bool × Server → Type 0
IsTaggedEnd x = IsTaggedServer x.1

or_fault-Avoids : {A : Type 0} (o : Option A) → Avoids bad_data Whatever (or_fault o)
or_fault-Avoids none = tt
or_fault-Avoids (some a) = tt

module _ (pf : Platform) where
  after_update-Avoids :
      (fd now : ℕ) (u : Update) (s : Server)
      → IsTaggedServer s
      → Avoids bad_data IsTaggedServer (after_update pf fd now u s)
  unfolding after_update process_packet keep_receiver disconnect on_close unsubscribe
  after_update-Avoids fd now u s v =
      Avoids-bind bad_data IsTaggedServer IsTaggedServer (process_packet pf now u.packet s) _
        (by_packet u.packet) λ t w. by_end u.returned t w
    where
      by_packet : (o : Option (List ℕ)) → Avoids bad_data IsTaggedServer (process_packet pf now o s)
      by_packet none = v
      by_packet (some p) = process-Avoids pf now p s v

      by_end :
          (b : Bool) (t : Server)
          → IsTaggedServer t
          → IsTaggedServer
              (no_client (if b then keep_receiver fd u.receiver t else disconnect fd t))
      by_end true t w = w
      by_end false t w = w

  serve_ready-Avoids :
      (e : Ready) (s : Server)
      → IsTaggedServer s
      → Avoids bad_data IsTaggedServer (serve_ready pf e s)
  unfolding serve_ready serve_client connect
  serve_ready-Avoids e s v =
      either-Avoids IsTaggedServer _ _ (e.fd == s.listenfd)
        (Avoids-any bad_data IsTaggedServer (or_throw e.accepted accept_failed) _
          (accepted e.accepted) λ fd. v)
        (Avoids-any bad_data IsTaggedServer (or_fault (Map.find e.fd s.clients)) _
          (or_fault-Avoids (Map.find e.fd s.clients))
          λ c.
            Avoids-any bad_data IsTaggedServer (or_fault (update c.r e.events)) _
              (or_fault-Avoids (update c.r e.events))
              λ u. after_update-Avoids e.fd e.now u (record s { cur_client = some c.fd }) v)
    where
      accepted : (o : Option ℕ) → Avoids bad_data Whatever (or_throw o accept_failed)
      accepted none = λ h. cc h
      accepted (some fd) = tt

  serve_all-Avoids :
      (es : List Ready) (s : Server)
      → IsTaggedServer s
      → Avoids bad_data IsTaggedServer (serve_all pf es s)
  unfolding serve_all
  serve_all-Avoids [] s v = v
  serve_all-Avoids (e ∷ es) s v =
      Avoids-bind bad_data IsTaggedServer IsTaggedServer (serve_ready pf e s) _
        (serve_ready-Avoids e s v) λ t w. serve_all-Avoids es t w

  server_update-Avoids :
      (x : Option (List Ready)) (s : Server)
      → IsTaggedServer s
      → Avoids bad_data IsTaggedServer (server_update pf x s)
  unfolding server_update
  server_update-Avoids none s v = λ h. cc h
  server_update-Avoids (some es) s v = serve_all-Avoids es s v

  shutdown_loop-Avoids :
      (fds : List ℕ) (s : Server)
      → IsTaggedServer s
      → Avoids bad_data IsTaggedServer (shutdown_loop fds s)
  unfolding shutdown_loop
  shutdown_loop-Avoids [] s v = v
  shutdown_loop-Avoids (fd ∷ fds) s v =
      Avoids-any bad_data IsTaggedServer (basesend fd (htonl sc_killclient) s.net) _
        (basesend-Avoids fd (htonl sc_killclient) s.net)
        λ net. shutdown_loop-Avoids fds (record s { net = net; msgssent = s.msgssent + 1 }) v

  server_loop-Avoids :
      (xs : List (Option (List Ready))) (s : Server)
      → IsTaggedServer s
      → Avoids bad_data IsTaggedEnd (server_loop pf xs s)
  unfolding server_loop shutdown
  server_loop-Avoids [] s v = v
  server_loop-Avoids (x ∷ xs) s v =
      Avoids-bind bad_data IsTaggedServer IsTaggedEnd (server_update pf x s) _
        (server_update-Avoids x s v)
        λ t w.
          either-Avoids IsTaggedEnd _ _ t.server_kill
            (Avoids-bind bad_data IsTaggedServer IsTaggedEnd (shutdown t) _
              (shutdown_loop-Avoids (keys t.clients) t w) λ u z. z)
            (server_loop-Avoids xs t w)

  make_server-Avoids :
      (now listenfd : ℕ) (net : Net)
      → Avoids bad_data IsTaggedServer (make_server pf now listenfd net)
  unfolding make_server version_topic of_string copy
  make_server-Avoids now listenfd net =
      let t = version_topic (bare listenfd net) in
      let h : All IsTagged t.d =
        add-IsTagged (of_string versionname)
          (add (of_string version) (find_or_create_topic version_name [])) tt
          (add-IsTagged (of_string version) (find_or_create_topic version_name []) tt
            (found-IsTagged version_name [] tt)) in
      Avoids-bind bad_data IsTaggedServer IsTaggedServer
        (rebuild_stats_topic pf now
          (record (bare listenfd net) { topics = Map.insert version_name t [] }))
        _
        (rebuild_stats_topic-Avoids pf now
          (record (bare listenfd net) { topics = Map.insert version_name t [] })
          (insert-Stored version_name t [] h tt))
        λ s v. rebuild_topics_topic-Avoids pf s v

  -- The whole history of a server, from its constructor through any rounds and its shutdown,
  -- whatever bytes arrive and whatever the environment answers: no call of toMessage() throws "bad
  -- data in topic", and in the end every item of every stored topic is a float or a string.
  pub server-Avoids :
      (now listenfd : ℕ) (net : Net) (xs : List (Option (List Ready)))
      → Avoids bad_data IsTaggedEnd (make_server pf now listenfd net >>= server_loop pf xs)
  server-Avoids now listenfd net xs =
      Avoids-bind bad_data IsTaggedServer IsTaggedEnd (make_server pf now listenfd net)
        (server_loop pf xs) (make_server-Avoids now listenfd net) (server_loop-Avoids xs)
