-- ===== src/Server/Traces.antt =====
-- Whole histories of the server against the broker: what its clients did, event by event.
use diamond_apparatus.Base.{
  ℕ, ◌≡◌, ◌≢◌, refl, ap, ◌∙◌, true, false, none, some, List, [], ◌∷◌, arith, ◌==◌, if◌then◌else◌,
}
use diamond_apparatus.Base.Order.{nat_ord, bytes_ord}
use diamond_apparatus.Base.Result.{
  ok, ◌>>=◌, or_throw, accept_failed, Ensures, Ensures-bind, Ensures-any, Ensures-both,
  Ensures-mono, Ensures-ok,
}
use diamond_apparatus.Map
use diamond_apparatus.Map.{same}
use diamond_apparatus.Map.Laws.{find-insert}
use diamond_apparatus.Map.Multi.{member-empty}
use diamond_apparatus.Topic.{str, of_string, add}
use diamond_apparatus.Tcp.Send.{Net}
use diamond_apparatus.Tcp.Receive.{Update, update}
use diamond_apparatus.Server.{
  Platform, Server, ClientInServer, version_name, version, versionname, find_or_create_topic,
  unsubscribe, rebuild_stats_topic, rebuild_topics_topic,
}
use diamond_apparatus.Server.Process.{bare, version_topic, make_server, process, on_close}
use diamond_apparatus.Server.Loop.{
  Ready, connect, disconnect, keep_receiver, process_packet, after_update, serve_client,
  serve_ready,
}
use diamond_apparatus.Server.Subscriptions.{IsLinked, member-unsubscribe}
use diamond_apparatus.Server.Invariant.{Inv}
use diamond_apparatus.Server.Connected.{serve_ready-Inv}
use diamond_apparatus.Server.Broker.{Broker, Request, obey, forget, IsPacket, Refines}
use diamond_apparatus.Server.Refinement.{process-Refines, Refines-of_Keeps}
use diamond_apparatus.Server.Keeps.{
  Keeps, Keeps-bind, rebuild_stats_topic-Keeps, rebuild_topics_topic-Keeps,
}
use diamond_apparatus.Server.Shows.{Shows, rebuild_stats_topic-Shows, rebuild_topics_topic-Shows}
use diamond_apparatus.Server.History.{make_server-Inv}
use diamond_apparatus.Base.Bytes.{until_nul}
use diamond_apparatus.Topic.{copy}

-- What a client does with an event: it asks for something, goes, or has sent a part of a packet
-- only.
pub data Turn : Type 0 where
  asks : Request → Turn
  goes : Turn
  waits : Turn

abbrev pub take_turn : ℕ → Turn → Broker → Broker
take_turn fd (asks q) b = obey fd q b
take_turn fd goes b = forget fd b
take_turn fd waits b = b

abbrev pub take_turns : List (ℕ × Turn) → Broker → Broker
take_turns [] b = b
take_turns ((fd, turn) ∷ turns) b = take_turns turns (take_turn fd turn b)

abbrev pub IsTurn : Turn → Update → Type 0
IsTurn (asks q) u = (u.returned ≡ true) × ((p : List ℕ) × (u.packet ≡ some p) × IsPacket q p)
IsTurn goes u = (u.returned ≡ false) × (u.packet ≡ none)
IsTurn waits u = (u.returned ≡ true) × (u.packet ≡ none)

-- What the server hears when a descriptor is ready: a connection, or the turn of a client, from what
-- its receiver makes of the reads.
pub data Heard (turn : Turn) (e : Ready) (s : Server) : Type 0 where
  accepts : e.fd ≡ s.listenfd → turn ≡ waits → Heard turn e s
  reads :
      (c : ClientInServer) (u : Update)
      → e.fd ≢ s.listenfd
      → Map.find e.fd s.clients ≡ some c
      → update c.r e.events ≡ some u
      → IsTurn turn u
      → Heard turn e s

-- The server serves descriptors one by one, and returns each time.
pub data Runs (pf : Platform) : List Ready → Server → List (ℕ × Turn) → Server → Type 0 where
  done : (s : Server) → Runs pf [] s [] s
  next :
      {e : Ready} {es : List Ready} {s u t : Server} {turn : Turn} {turns : List (ℕ × Turn)}
      → Heard turn e s
      → serve_ready pf e s ≡ ok u
      → Runs pf es u turns t
      → Runs pf (e ∷ es) s ((e.fd, turn) ∷ turns) t

-- The broker of a new server.
abbrev pub fresh_broker : Broker
fresh_broker = record {
  items = λ n. if same n version_name then some (str version ∷ str versionname ∷ []) else none;
  subscribed = λ n fd. false;
  ending = false;
}

-- A change of the clients, and of nothing that users see.
Refines-other :
    {s t : Server} {b : Broker}
    → t.topics ≡ s.topics
    → t.subscribers ≡ s.subscribers
    → t.server_kill ≡ s.server_kill
    → Refines s b
    → Refines t b
Refines-other e f g r = record {
  items = λ n user. rw e (r.items n user);
  subscribed = λ n fd. rw f (r.subscribed n fd);
  ending = g ∙ r.ending;
}

disconnect-Refines :
    (fd : ℕ) (s : Server) (b : Broker)
    → IsLinked s.subscribers s.subtopics
    → Refines s b
    → Refines (disconnect fd s) (forget fd b)
unfolding disconnect on_close unsubscribe
disconnect-Refines fd s b linked r = record {
  items = r.items;
  subscribed =
      λ n g. (member-unsubscribe n g fd closed linked).0 ∙ ground (arith, r.subscribed n g);
  ending = r.ending;
}
  where
    closed : Server
    closed = record s {
      active_fd_set = Map.erase fd s.active_fd_set;
      clients = Map.erase fd s.clients;
    }

module _ (pf : Platform) where
  after_update-Refines :
      (fd now : ℕ) (turn : Turn) (u : Update) (s : Server) (b : Broker)
      → IsTurn turn u
      → s.cur_client ≡ some fd
      → IsLinked s.subscribers s.subtopics
      → Refines s b
      → Ensures (λ t. Refines t (take_turn fd turn b)) (after_update pf fd now u s)
  unfolding after_update process_packet keep_receiver
  after_update-Refines fd now (asks q) u s b (returned, (p, packet, asked)) cur linked r =
      rw (returned, packet)
        (Ensures-bind (λ t. Refines t (obey fd q b)) (λ t. Refines t (obey fd q b))
          (process pf now p s) _ (process-Refines pf now fd q p s b asked cur r)
          λ t r. Refines-other refl refl refl r)
  after_update-Refines fd now goes u s b (returned, packet) cur linked r =
      rw (returned, packet) (Refines-other refl refl refl (disconnect-Refines fd s b linked r))
  after_update-Refines fd now waits u s b (returned, packet) cur linked r =
      rw (returned, packet) (Refines-other refl refl refl r)

  serve_ready-Refines :
      (e : Ready) (turn : Turn) (s : Server) (b : Broker)
      → Heard turn e s
      → Inv s
      → Refines s b
      → Ensures (λ t. Refines t (take_turn e.fd turn b)) (serve_ready pf e s)
  unfolding serve_ready serve_client connect
  serve_ready-Refines e turn s b (accepts listening nothing) v r =
      let h : (e.fd == s.listenfd) ≡ true = ground arith in
      rw (h, nothing)
        (Ensures-any (λ t. Refines t b) (or_throw e.accepted accept_failed) _
          λ fd. Refines-other refl refl refl r)
  serve_ready-Refines e turn s b (reads c u other found updated turned) v r =
      let h : (e.fd == s.listenfd) ≡ false = ground arith in
      rw (h, found, updated)
        (after_update-Refines e.fd e.now turn u (record s { cur_client = some c.fd }) b turned
          (ap some (v.keyed e.fd c found)) v.linked (Refines-other refl refl refl r))

  Runs-Refines :
      {es : List Ready} {s t : Server} {turns : List (ℕ × Turn)}
      → Runs pf es s turns t
      → (b : Broker) → Inv s
      → Refines s b
      → Refines t (take_turns turns b)
  Runs-Refines (done s) b v r = r
  Runs-Refines (next {e} {es} {s} {u} {t} {turn} {turns} heard served rest) b v r =
      Runs-Refines rest (take_turn e.fd turn b) (Ensures-ok Inv served (serve_ready-Inv pf e s v)) (
        Ensures-ok (λ t. Refines t (take_turn e.fd turn b)) served
          (serve_ready-Refines e turn s b heard v r))

  versioned : ℕ → Net → Server
  versioned listenfd net = record (bare listenfd net) {
    topics = Map.insert version_name (version_topic (bare listenfd net)) [];
  }

  version_topic-d :
      (listenfd : ℕ) (net : Net)
      → (version_topic (bare listenfd net)).d ≡ str version ∷ str versionname ∷ []
  unfolding version_topic of_string add copy until_nul find_or_create_topic Map.at Map.find
  version_topic-d listenfd net = refl

  versioned-Refines : (listenfd : ℕ) (net : Net) → Refines (versioned listenfd net) fresh_broker
  unfolding versioned Map.find
  versioned-Refines listenfd net = record {
    items = λ n user. ground (
      arith,
      find-insert n version_name (version_topic (bare listenfd net)) [],
      version_topic-d listenfd net,
    );
    subscribed = λ n fd. member-empty n fd;
    ending = refl;
  }

  make_server-Refines :
      (now listenfd : ℕ) (net : Net)
      → Ensures (λ s. Refines s fresh_broker) (make_server pf now listenfd net)
  unfolding make_server versioned
  make_server-Refines now listenfd net =
      let s = versioned listenfd net in
      let r = versioned-Refines listenfd net in
      Ensures-mono (λ t. Keeps s t × Shows t.topics fresh_broker.items) _
        (rebuild_stats_topic pf now s >>= rebuild_topics_topic pf)
        (Ensures-both (Keeps s) _ _
          (Keeps-bind s (rebuild_stats_topic pf now s) (rebuild_topics_topic pf)
            (rebuild_stats_topic-Keeps pf now s) (rebuild_topics_topic-Keeps pf))
          (Ensures-bind _ (λ t. Shows t.topics fresh_broker.items) (rebuild_stats_topic pf now s)
            (rebuild_topics_topic pf)
            (rebuild_stats_topic-Shows pf now s fresh_broker.items r.items)
            λ u h. rebuild_topics_topic-Shows pf u fresh_broker.items h))
        λ t h. Refines-of_Keeps fresh_broker r h.0 h.1 refl refl

  -- A whole history of a server, from its constructor, for any events, served one by one in any
  -- order, whatever accept() and the writes return, as long as every packet that arrives is one of
  -- the four requests and every call returns: what users see in the end (the items of every name but
  -- "topics" and "stats", who is subscribed to what, and whether the server is to end) is what the
  -- broker has after the same turns, where a client that goes loses its subscriptions and no other
  -- client does.
  pub Runs-Refines_fresh :
      (now listenfd : ℕ) (net : Net) {es : List Ready} {s t : Server} {turns : List (ℕ × Turn)}
      → make_server pf now listenfd net ≡ ok s
      → Runs pf es s turns t
      → Refines t (take_turns turns fresh_broker)
  Runs-Refines_fresh now listenfd net made runs =
      Runs-Refines runs fresh_broker (Ensures-ok Inv made (make_server-Inv pf now listenfd net))
        (Ensures-ok (λ s. Refines s fresh_broker) made (make_server-Refines now listenfd net))
