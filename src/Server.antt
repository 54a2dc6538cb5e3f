-- ===== src/Server.antt =====
-- server.cpp: the broker. MyServer and the static counters are one record; a method returns the new
-- state, or an exception. What the platform decides enters as `Platform` and as arguments.
pub mod Process
pub mod Loop
pub mod Subscriptions
pub mod Keeps
pub mod Invariant
pub mod Connected
pub mod History
pub mod Delivery
pub mod Streams
pub mod Directory
pub mod SameTopics
pub mod Listing
pub mod Returns
pub mod Broker
pub mod Shows
pub mod Refinement
pub mod Traces
pub mod Tagged
pub mod Throws
pub mod Budget
pub mod Progress
pub mod Lifetime
pub mod Tests
use diamond_apparatus.Base.{
  ℕ, zero, suc, ◌+◌, ◌*◌, Bool, true, false, Option, none, some, List, [], ◌∷◌, ◌++◌, length, drop,
  ◌==◌, if◌then◌else◌,
}
use diamond_apparatus.Base.Text.{codes}
use diamond_apparatus.Base.Order.{nat_ord, bytes_ord}
use diamond_apparatus.Base.Result.{
  Result, ok, throws, cannot_call_respond, cannot_call_getfd, ◌>>=◌,
}
use diamond_apparatus.Base.Bytes.{htonl}
use diamond_apparatus.Map
use diamond_apparatus.Map.{Map, Set, keys}
use diamond_apparatus.Topic.{Datum, flt, of_string, Topic, new_topic, add, clear}
use diamond_apparatus.Topic.Message.{Allocator, to_message, from_message, get_name_from_msg}
use diamond_apparatus.Tcp.Send.{Net, basesend}
use diamond_apparatus.Tcp.Receive.{TcpReceiver}
use diamond_apparatus.Messages.{sc_notify, sc_killclient}

-- malloc(), and the conversions from int and size_t to float, as bit patterns.
pub record Platform : Type 0 where
  pub allocator : Allocator
  pub float_of_int : ℕ → ℕ
  pub float_of_size : ℕ → ℕ

-- A name of a topic, by its bytes.
abbrev pub Name : Type 0
Name = List ℕ

pub record ClientInServer : Type 0 where
  pub fd : ℕ
  pub r : TcpReceiver

-- TCPServer's fields, MyServer's, the statics of server.cpp, and the network.
pub record Server : Type 0 where
  pub listenfd : ℕ
  pub active_fd_set : Set ℕ
  pub cur_client : Option ℕ
  pub clients : Map ℕ ClientInServer
  pub subscribers : Map Name (Set ℕ)
  pub subtopics : Map ℕ (Set Name)
  pub topics : Map Name Topic
  pub server_kill : Bool
  pub msgssent : ℕ
  pub msgsrecvd : ℕ
  pub net : Net

abbrev pub topics_name : Name
topics_name = codes "topics"

abbrev pub stats_name : Name
stats_name = codes "stats"

abbrev pub version_name : Name
version_name = codes "version"

abbrev pub version : List ℕ
version = codes "1.1.2"

abbrev pub versionname : List ℕ
versionname = codes "YELLOW ACKNOWLEDGEMENT"

-- respond() and getfd() of TCPServer.
respond_to : Option ℕ → List ℕ → Server → Result Server
respond_to none p s = throws cannot_call_respond
respond_to (some fd) p s = do net ← basesend fd p s.net; ok (record s { net = net })

unfoldable pub respond : List ℕ → Server → Result Server
unfolding respond_to
respond p s = respond_to s.cur_client p s

unfoldable pub getfd : Server → Result ℕ
getfd s = elim s.cur_client [ none ↦ throws cannot_call_getfd | some fd ↦ ok fd ]

-- The topic of a name, entered empty where there is none; the topics are changed through the
-- pointer that this returns, so its callers store what they make of it.
unfoldable pub find_or_create_topic : Name → Map Name Topic → Topic
find_or_create_topic n topics = Map.at new_topic n topics

-- The loop of a publication: one packet to each subscriber, in the order of the set.
unfoldable pub send_loop : List ℕ → List ℕ → Server → Result Server
send_loop [] p s = ok s
send_loop (fd ∷ fds) p s = do
  net ← basesend fd p s.net
  send_loop fds p (record s { net = net; msgssent = s.msgssent + 1 })

-- `subscribers[name]` enters a missing name with no subscriber.
unfoldable pub send_to_subscribers : Name → List ℕ → Server → Result Server
send_to_subscribers name p s =
    send_loop (keys (Map.at [] name s.subscribers)) p
      (record s { subscribers = Map.enter [] name s.subscribers })

-- One datum for each name, in the order of the map.
unfoldable pub add_names : List Name → Topic → Topic
add_names [] t = t
add_names (n ∷ ns) t = add_names ns (add (of_string n) t)

-- The loop of unsubscribe().
unfoldable pub remove_from : ℕ → List Name → Map Name (Set ℕ) → Map Name (Set ℕ)
remove_from fd [] subs = subs
remove_from fd (n ∷ ns) subs =
    remove_from fd ns (Map.insert n (Map.erase fd (Map.at [] n subs)) subs)

unfoldable pub unsubscribe : ℕ → Server → Server
unsubscribe fd s = record s {
  subscribers = remove_from fd (keys (Map.at [] fd s.subtopics)) s.subscribers;
  subtopics = Map.erase fd s.subtopics;
}

-- The loop of deletetopic().
unfoldable pub forget_topic : Name → List ℕ → Map ℕ (Set Name) → Map ℕ (Set Name)
forget_topic n [] subs = subs
forget_topic n (fd ∷ fds) subs =
    forget_topic n fds (Map.insert fd (Map.erase n (Map.at [] fd subs)) subs)

unfoldable pub deletetopic : Name → Server → Server
deletetopic n s = record s {
  subtopics = forget_topic n (keys (Map.at [] n s.subscribers)) s.subtopics;
  subscribers = Map.erase n s.subscribers;
}

module _ (pf : Platform) where
  unfoldable pub publish_internal : Name → Topic → Server → Result Server
  publish_internal name t s = do
    p ← to_message pf.allocator sc_notify name t
    send_to_subscribers name p s

  unfoldable pub rebuild_topics_topic : Server → Result Server
  rebuild_topics_topic s =
      let topics = Map.enter new_topic topics_name s.topics in
      let t = add_names (keys topics) (clear (find_or_create_topic topics_name s.topics)) in
      publish_internal topics_name t (record s { topics = Map.insert topics_name t topics })

  -- `now` is Time::now() as a float, by its bit pattern.
  unfoldable pub stats : ℕ → Server → Topic → Topic
  stats now s t = add (flt now) (
      add (flt (pf.float_of_int s.msgsrecvd)) (
        add (flt (pf.float_of_int s.msgssent))
          (add (flt (pf.float_of_size (Map.size s.subscribers))) (clear t))))

  unfoldable pub rebuild_stats_topic : ℕ → Server → Result Server
  rebuild_stats_topic now s =
      let t = stats now s (find_or_create_topic stats_name s.topics) in
      publish_internal stats_name t (record s { topics = Map.insert stats_name t s.topics })

  -- The part of subscribe() that sends what is already there.
  unfoldable pub send_present : Name → Option Topic → Server → Result Server
  send_present n none s = ok s
  send_present n (some t) s = do
    p ← to_message pf.allocator sc_notify n t
    s ← respond p s
    ok (record s { msgssent = s.msgssent + 1 })

  unfoldable pub subscribe : ℕ → Name → Server → Result Server
  subscribe fd n s = send_present n (Map.find n s.topics) (record s {
    subscribers = Map.insert n (Map.insert fd tt (Map.at [] n s.subscribers)) s.subscribers;
    subtopics = Map.insert fd (Map.insert n tt (Map.at [] fd s.subtopics)) s.subtopics;
  })

  -- publish(), behind the lookup of the topic.
  unfoldable pub publish_topic : Name → Bool → Topic → List ℕ → Server → Result Server
  publish_topic name is_new t p s = do
    t' ← from_message p t
    s ←
        send_to_subscribers name (htonl sc_notify ++ drop 4 p)
          (record s { topics = Map.insert name t' s.topics })
    if is_new then rebuild_topics_topic s else ok s

  unfoldable pub publish_found : Name → Option Topic → List ℕ → Server → Result Server
  publish_found name none p s = publish_topic name true new_topic p s
  publish_found name (some t) p s = publish_topic name false t p s

  unfoldable pub publish : List ℕ → Server → Result Server
  publish p s = do name ← get_name_from_msg p; publish_found name (Map.find name s.topics) p s
