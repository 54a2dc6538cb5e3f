-- ===== src/Server/Invariant.antt =====
-- Subscriptions and connections stay in step, through every packet, connection and disconnection.
use diamond_apparatus.Base.{
  ℕ, ◌+◌, ◌≡◌, refl, ap, sym, subst, ◌∙◌, Bool, true, false, ◌||◌, none, some, List, [], arith,
  ◌==◌, if◌then◌else◌,
}
use diamond_apparatus.Base.Order.{nat_ord, bytes_ord}
use diamond_apparatus.Base.Result.{
  Result, ok, throws, fault, cannot_call_getfd, ◌>>=◌, Ensures, Ensures-bind,
}
use diamond_apparatus.Base.Bytes.{ntohl, c_string}
use diamond_apparatus.Map
use diamond_apparatus.Map.{Set, same}
use diamond_apparatus.Map.Laws.{same-eq}
use diamond_apparatus.Map.Multi.{member, member-join}
use diamond_apparatus.Messages.{cs_publish, cs_subscribe, cs_killserver, cs_clearserver}
use diamond_apparatus.Server.{
  Name, Platform, Server, ClientInServer, getfd, subscribe, publish, rebuild_stats_topic,
}
use diamond_apparatus.Server.Process.{clear_server, subscribe_packet, dispatch, process}
use diamond_apparatus.Server.Subscriptions.{IsLinked, join-IsLinked}
use diamond_apparatus.Server.Keeps.{
  Connections, connections, Keeps, publish-Keeps, rebuild_stats_topic-Keeps, send_present-Keeps,
}

pub record Inv (s : Server) : Type 0 where
  -- Both maps tell the same subscriptions.
  pub linked : IsLinked s.subscribers s.subtopics
  -- Only connected clients are subscribed.
  pub live : (n : Name) (fd : ℕ) → member n fd s.subscribers ≡ true → Map.has fd s.clients ≡ true
  -- A client is filed under its own descriptor.
  pub keyed : (fd : ℕ) (c : ClientInServer) → Map.find fd s.clients ≡ some c → c.fd ≡ fd
  -- select() watches the listening socket and the clients.
  pub watched : (fd : ℕ) → Map.has fd s.active_fd_set ≡ (fd == s.listenfd || Map.has fd s.clients)

pub Keeps-Inv : (s t : Server) → Inv s → Keeps s t → Inv t
Keeps-Inv s t v k = record {
  linked = λ n fd. k.members n fd ∙ v.linked n fd ∙ ap (member fd n) (sym k.subtopics);
  live = λ n fd h. rw clients (v.live n fd (sym (k.members n fd) ∙ h));
  keyed = λ fd c h. v.keyed fd c (rw clients at h);
  watched = λ fd. rw (clients, listening, active) (v.watched fd);
}
  where
    clients : t.clients ≡ s.clients
    clients = ap (λ (c : Connections). c.clients) k.connected

    listening : t.listenfd ≡ s.listenfd
    listening = ap (λ (c : Connections). c.listenfd) k.connected

    active : t.active_fd_set ≡ s.active_fd_set
    active = ap (λ (c : Connections). c.active_fd_set) k.connected

-- What a packet does: the invariant holds behind it, and the connections are as they were.
abbrev pub Stays : Server → Server → Type 0
Stays s t = Inv t × (connections t ≡ connections s)

Stays-of_Keeps :
    (s : Server) (r : Result Server) → Inv s → Ensures (Keeps s) r → Ensures (Stays s) r
Stays-of_Keeps s (ok t) v k = (Keeps-Inv s t v k, k.connected)
Stays-of_Keeps s (throws e) v k = tt
Stays-of_Keeps s fault v k = tt

Stays-trans :
    (s t : Server) (r : Result Server) → Stays s t → Ensures (Stays t) r → Ensures (Stays s) r
Stays-trans s t (ok u) a b = (b.0, b.1 ∙ a.1)
Stays-trans s t (throws e) a b = tt
Stays-trans s t fault a b = tt

Stays-bind :
    (s : Server) (m : Result Server) (f : Server → Result Server)
    → Ensures (Stays s) m
    → ((t : Server) → Stays s t → Ensures (Stays t) (f t))
    → Ensures (Stays s) (m >>= f)
Stays-bind s m f h k =
    Ensures-bind (Stays s) (Stays s) m f h λ t st. Stays-trans s t (f t) st (k t st)

module _ (pf : Platform) where
  subscribe-Stays :
      (fd : ℕ) (n : Name) (s : Server)
      → Inv s
      → Map.has fd s.clients ≡ true
      → Ensures (Stays s) (subscribe pf fd n s)
  unfolding subscribe
  subscribe-Stays fd n s v there =
      Stays-of_Keeps joined _ joined-Inv (send_present-Keeps pf n (Map.find n s.topics) joined)
    where
      joined : Server
      joined = record s {
        subscribers = Map.insert n (Map.insert fd tt (Map.at [] n s.subscribers)) s.subscribers;
        subtopics = Map.insert fd (Map.insert n tt (Map.at [] fd s.subtopics)) s.subtopics;
      }

      joined-Inv : Inv joined
      joined-Inv = record {
        linked = join-IsLinked fd n s.subscribers s.subtopics v.linked;
        live = λ m g h.
            ground (arith, member-join m n g fd s.subscribers, v.live m g, there, h, same-eq g fd);
        keyed = v.keyed;
        watched = v.watched;
      }

  subscribe_packet-Stays :
      (rest : List ℕ) (s : Server) (fd : ℕ)
      → Inv s
      → s.cur_client ≡ some fd
      → Map.has fd s.clients ≡ true
      → Ensures (Stays s) (subscribe_packet pf rest s)
  unfolding subscribe_packet getfd
  subscribe_packet-Stays rest s fd v cur there =
      subst
        (λ o. Ensures (Stays s) (
          (elim o as (λ x. Result ℕ) [ none ↦ throws cannot_call_getfd | some fd ↦ ok fd ])
          >>= λ fd. c_string rest >>= λ n. subscribe pf fd n s))
        (sym cur) (named (c_string rest))
    where
      named : (r : Result Name) → Ensures (Stays s) (r >>= λ n. subscribe pf fd n s)
      named (ok n) = subscribe-Stays fd n s v there
      named (throws e) = tt
      named fault = tt

  dispatch-Stays :
      (type : ℕ) (rest p : List ℕ) (s : Server) (fd : ℕ)
      → Inv s
      → s.cur_client ≡ some fd
      → Map.has fd s.clients ≡ true
      → Ensures (Stays s) (dispatch pf type rest p s)
  unfolding dispatch clear_server
  dispatch-Stays type rest p s fd v cur there =
      by_type (type == cs_publish) (type == cs_subscribe) (type == cs_killserver)
        (type == cs_clearserver)
    where
      same_subscriptions :
          (b : Bool) (t : Map.Map Name _) → Stays s (record s { server_kill = b; topics = t })
      same_subscriptions b t =
          (record { linked = v.linked; live = v.live; keyed = v.keyed; watched = v.watched }, refl)

      by_type :
          (a b c d : Bool)
          → Ensures (Stays s) (
              if a
              then publish pf p s
              else (if b
                  then subscribe_packet pf rest s
                  else (if c
                      then ok (record s { server_kill = true })
                      else (if d then ok (record s { topics = [] }) else ok s))))
      by_type true b c d = Stays-of_Keeps s (publish pf p s) v (publish-Keeps pf p s)
      by_type false true c d = subscribe_packet-Stays rest s fd v cur there
      by_type false false true d = same_subscriptions true s.topics
      by_type false false false true = same_subscriptions s.server_kill []
      by_type false false false false = (v, refl)

  typed_Stays :
      (p : List ℕ) (s : Server) (fd : ℕ) (r : Result (ℕ × List ℕ))
      → Inv s
      → s.cur_client ≡ some fd
      → Map.has fd s.clients ≡ true
      → Ensures (Stays s) (r >>= λ (x : ℕ × List ℕ). dispatch pf x.0 x.1 p s)
  typed_Stays p s fd (ok (type, rest)) v cur there = dispatch-Stays type rest p s fd v cur there
  typed_Stays p s fd (throws e) v cur there = tt
  typed_Stays p s fd fault v cur there = tt

  -- process(), called for a client that is connected, whatever the packet and whatever the writes
  -- return: if it returns, the invariant holds behind it and the connections are as they were.
  pub process-Stays :
      (now : ℕ) (p : List ℕ) (s : Server) (fd : ℕ)
      → Inv s
      → s.cur_client ≡ some fd
      → Map.has fd s.clients ≡ true
      → Ensures (Stays s) (process pf now p s)
  unfolding process
  process-Stays now p s fd v cur there =
      Stays-bind s (rebuild_stats_topic pf now counted) _
        (Stays-of_Keeps counted _ counted-Inv (rebuild_stats_topic-Keeps pf now counted))
        λ t st.
          typed_Stays p t fd (ntohl p) st.0 (ap (λ (c : Connections). c.cur_client) st.1 ∙ cur)
            (ap (λ (c : Connections). Map.has fd c.clients) st.1 ∙ there)
    where
      counted : Server
      counted = record s { msgsrecvd = s.msgsrecvd + 1 }

      counted-Inv : Inv counted
      counted-Inv = record {
        linked = v.linked;
        live = v.live;
        keyed = v.keyed;
        watched = v.watched;
      }
