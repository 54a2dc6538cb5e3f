-- ===== src/Server/Keeps.antt =====
-- What a publication leaves alone: who is subscribed, and who is connected.
use diamond_apparatus.Base.{
  ℕ, ◌+◌, ◌≡◌, refl, ◌∙◌, Bool, true, false, Option, none, some, List, [], ◌∷◌, ◌++◌, drop,
  if◌then◌else◌,
}
use diamond_apparatus.Base.Order.{nat_ord, bytes_ord}
use diamond_apparatus.Base.Result.{Result, ok, throws, fault, ◌>>=◌, Ensures, Ensures-any}
use diamond_apparatus.Base.Bytes.{htonl}
use diamond_apparatus.Map
use diamond_apparatus.Map.{Set, keys}
use diamond_apparatus.Map.Multi.{member, member-enter}
use diamond_apparatus.Topic.{Topic, new_topic}
use diamond_apparatus.Topic.Message.{to_message, from_message, get_name_from_msg}
use diamond_apparatus.Tcp.Send.{basesend}
use diamond_apparatus.Messages.{sc_notify}
use diamond_apparatus.Server.{
  Name, Platform, Server, ClientInServer, respond, respond_to, send_loop, send_to_subscribers,
  publish_internal, rebuild_topics_topic, rebuild_stats_topic, send_present, publish_topic,
  publish_found, publish,
}

-- The part of a server that says who is connected.
pub record Connections : Type 0 where
  pub listenfd : ℕ
  pub active_fd_set : Set ℕ
  pub cur_client : Option ℕ
  pub clients : Map.Map ℕ ClientInServer

abbrev pub connections : Server → Connections
connections s = record {
  listenfd = s.listenfd;
  active_fd_set = s.active_fd_set;
  cur_client = s.cur_client;
  clients = s.clients;
}

pub record Keeps (s t : Server) : Type 0 where
  pub members : (n : Name) (fd : ℕ) → member n fd t.subscribers ≡ member n fd s.subscribers
  pub subtopics : t.subtopics ≡ s.subtopics
  pub connected : connections t ≡ connections s
  pub kill : t.server_kill ≡ s.server_kill

Keeps-refl : (s : Server) → Keeps s s
Keeps-refl s = record { members = λ n fd. refl; subtopics = refl; connected = refl; kill = refl }

pub Keeps-trans : {s t u : Server} → Keeps s t → Keeps t u → Keeps s u
Keeps-trans a b = record {
  members = λ n fd. b.members n fd ∙ a.members n fd;
  subtopics = b.subtopics ∙ a.subtopics;
  connected = b.connected ∙ a.connected;
  kill = b.kill ∙ a.kill;
}

-- The rule for a chain: what the first call keeps, and then the second, the chain keeps.
pub Keeps-bind :
    (s : Server) (m : Result Server) (f : Server → Result Server)
    → Ensures (Keeps s) m
    → ((t : Server) → Ensures (Keeps t) (f t))
    → Ensures (Keeps s) (m >>= f)
Keeps-bind s (ok t) f h k = Keeps_after (f t) h (k t)
  where
    Keeps_after : (r : Result Server) → Keeps s t → Ensures (Keeps t) r → Ensures (Keeps s) r
    Keeps_after (ok u) a b = Keeps-trans a b
    Keeps_after (throws e) a b = tt
    Keeps_after fault a b = tt
Keeps-bind s (throws e) f h k = tt
Keeps-bind s fault f h k = tt

send_loop-Keeps : (fds p : List ℕ) (s : Server) → Ensures (Keeps s) (send_loop fds p s)
unfolding send_loop
send_loop-Keeps [] p s = Keeps-refl s
send_loop-Keeps (fd ∷ fds) p s = Ensures-any (Keeps s) (basesend fd p s.net) _ λ net.
    Keeps-bind s (ok _) (send_loop fds p)
      (record { members = λ n g. refl; subtopics = refl; connected = refl; kill = refl })
      (send_loop-Keeps fds p)

send_to_subscribers-Keeps :
    (n : Name) (p : List ℕ) (s : Server) → Ensures (Keeps s) (send_to_subscribers n p s)
unfolding send_to_subscribers
send_to_subscribers-Keeps n p s =
    Keeps-bind s (ok _) (send_loop (keys (Map.at [] n s.subscribers)) p)
      (record {
        members = λ m g. member-enter m n g s.subscribers;
        subtopics = refl;
        connected = refl;
        kill = refl;
      })
      (send_loop-Keeps (keys (Map.at [] n s.subscribers)) p)

-- A change of the stored topics and of the counters keeps all of it.
retopic :
    (topics : Map.Map Name Topic) (sent received : ℕ) (s : Server)
    → Keeps s (record s { topics = topics; msgssent = sent; msgsrecvd = received })
retopic topics sent received s = record {
  members = λ n g. refl;
  subtopics = refl;
  connected = refl;
  kill = refl;
}

module _ (pf : Platform) where
  publish_internal-Keeps :
      (n : Name) (t : Topic) (s : Server) → Ensures (Keeps s) (publish_internal pf n t s)
  unfolding publish_internal
  publish_internal-Keeps n t s =
      Ensures-any (Keeps s) (to_message pf.allocator sc_notify n t) _
        λ p. send_to_subscribers-Keeps n p s

  pub rebuild_topics_topic-Keeps : (s : Server) → Ensures (Keeps s) (rebuild_topics_topic pf s)
  unfolding rebuild_topics_topic
  rebuild_topics_topic-Keeps s =
      Keeps-bind s (ok _) (publish_internal pf _ _) (retopic _ s.msgssent s.msgsrecvd s)
        (publish_internal-Keeps _ _)

  pub rebuild_stats_topic-Keeps :
      (now : ℕ) (s : Server) → Ensures (Keeps s) (rebuild_stats_topic pf now s)
  unfolding rebuild_stats_topic
  rebuild_stats_topic-Keeps now s =
      Keeps-bind s (ok _) (publish_internal pf _ _) (retopic _ s.msgssent s.msgsrecvd s)
        (publish_internal-Keeps _ _)

  respond_to-Keeps : (o : Option ℕ) (p : List ℕ) (s : Server) → Ensures (Keeps s) (respond_to o p s)
  unfolding respond_to
  respond_to-Keeps none p s = tt
  respond_to-Keeps (some fd) p s =
      Ensures-any (Keeps s) (basesend fd p s.net) _
        λ net. record { members = λ n g. refl; subtopics = refl; connected = refl; kill = refl }

  pub send_present-Keeps :
      (n : Name) (o : Option Topic) (s : Server) → Ensures (Keeps s) (send_present pf n o s)
  unfolding send_present respond
  send_present-Keeps n none s = Keeps-refl s
  send_present-Keeps n (some t) s =
      Ensures-any (Keeps s) (to_message pf.allocator sc_notify n t) _ λ p.
        Keeps-bind s (respond_to s.cur_client p s) _ (respond_to-Keeps s.cur_client p s)
          λ u. retopic u.topics (u.msgssent + 1) u.msgsrecvd u

  after_publish :
      (is_new : Bool) (s : Server)
      → Ensures (Keeps s) (if is_new then rebuild_topics_topic pf s else ok s)
  after_publish true s = rebuild_topics_topic-Keeps s
  after_publish false s = Keeps-refl s

  publish_topic-Keeps :
      (n : Name) (is_new : Bool) (t : Topic) (p : List ℕ) (s : Server)
      → Ensures (Keeps s) (publish_topic pf n is_new t p s)
  unfolding publish_topic
  publish_topic-Keeps n is_new t p s = Ensures-any (Keeps s) (from_message p t) _ λ t'.
      Keeps-bind s (send_to_subscribers n _ _) _
        (Keeps-bind s (ok _) (send_to_subscribers n (htonl sc_notify ++ drop 4 p))
          (retopic (Map.insert n t' s.topics) s.msgssent s.msgsrecvd s)
          (send_to_subscribers-Keeps n (htonl sc_notify ++ drop 4 p)))
        (after_publish is_new)

  publish_found-Keeps :
      (n : Name) (o : Option Topic) (p : List ℕ) (s : Server)
      → Ensures (Keeps s) (publish_found pf n o p s)
  unfolding publish_found
  publish_found-Keeps n none p s = publish_topic-Keeps n true new_topic p s
  publish_found-Keeps n (some t) p s = publish_topic-Keeps n false t p s

  -- publish(), whatever the packet holds and whatever the writes return: if it returns, it has
  -- changed no subscription, no connection, and not whether the server is to end.
  pub publish-Keeps : (p : List ℕ) (s : Server) → Ensures (Keeps s) (publish pf p s)
  unfolding publish
  publish-Keeps p s =
      Ensures-any (Keeps s) (get_name_from_msg p) _
        λ n. publish_found-Keeps n (Map.find n s.topics) p s
