-- ===== src/Server/Tests.antt =====
-- Runs of the server with one topic and two clients.
pub mod Runs
pub mod Endings
use diamond_apparatus.Base.{
  ℕ, ◌≡◌, ◌≢◌, refl, sym, ◌∙◌, true, false, none, some, List, [], ◌∷◌, arith, if◌then◌else◌,
}
use diamond_apparatus.Base.Text.{codes}
use diamond_apparatus.Base.Order.{nat_ord, bytes_ord, compare_bytes}
use diamond_apparatus.Base.Result.{ok, Ensures, ◌>>=◌}
use diamond_apparatus.Base.Bytes.{htonl, memcpy}
use diamond_apparatus.Map
use diamond_apparatus.Map.{same}
use diamond_apparatus.Map.Multi.{member, member-empty}
use diamond_apparatus.Topic.{Datum, flt, str, Topic, new_topic}
use diamond_apparatus.Topic.Message.{get_name_from_msg}
use diamond_apparatus.Topic.Message.Encode.{encode}
use diamond_apparatus.Topic.Tests.{filling}
use diamond_apparatus.Tcp.Send.{Net, other}
use diamond_apparatus.Tcp.Receive.{chunk, new_receiver}
use diamond_apparatus.Tcp.Receive.Phases.{IsIdle}
use diamond_apparatus.Messages.{cs_publish, sc_notify}
use diamond_apparatus.Server.{
  Name, Platform, Server, ClientInServer, topics_name, stats_name, unsubscribe, deletetopic,
  subscribe, publish, rebuild_topics_topic,
}
use diamond_apparatus.Server.Process.{make_server, process}
use diamond_apparatus.Server.Loop.{Ready, server_loop}
use diamond_apparatus.Server.Subscriptions.{
  IsLinked, member-unsubscribe, member-deletetopic, join-IsLinked,
}
use diamond_apparatus.Server.Keeps.{Keeps, publish-Keeps}
use diamond_apparatus.Server.Invariant.{Inv, Stays, process-Stays}
use diamond_apparatus.Server.History.{server-Inv}
use diamond_apparatus.Server.Delivery.{
  IsPublication, delivered, published, publish_complete, subscribe_present,
}
use diamond_apparatus.Server.Directory.{IsDirectory}
use diamond_apparatus.Server.Returns.{received, stats_published, process_complete}
use diamond_apparatus.Server.Listing.{process-IsDirectory}

abbrev pub machine : Platform
machine = record { allocator = filling; float_of_int = λ n. n; float_of_size = λ n. n }

abbrev quiet : Net
quiet = record { script = []; errno = other; out = [] }

abbrev pub foo : Name
foo = codes "foo"

abbrev pub one_item : List Datum
one_item = str (codes "hi") ∷ []

abbrev pub foo_topic : Topic
foo_topic = record new_topic { d = flt 7 ∷ [] }

abbrev pub client_of : ℕ → ClientInServer
client_of fd = record { fd = fd; r = new_receiver }

-- The clients 4 and 5 are connected and subscribed to "foo"; client 4 is being served.
abbrev pub busy : Server
busy = record {
  listenfd = 3;
  active_fd_set = (3, tt) ∷ (4, tt) ∷ (5, tt) ∷ [];
  cur_client = some 4;
  clients = (4, client_of 4) ∷ (5, client_of 5) ∷ [];
  subscribers = (foo, (4, tt) ∷ (5, tt) ∷ []) ∷ [];
  subtopics = (4, (foo, tt) ∷ []) ∷ (5, (foo, tt) ∷ []) ∷ [];
  topics = (foo, foo_topic) ∷ [];
  server_kill = false;
  msgssent = 0;
  msgsrecvd = 0;
  net = quiet;
}

pub idle : IsIdle new_receiver
idle = record { empty = refl; no_size = refl; no_buffer = refl; unforced = refl }

pub foo-IsPublication : IsPublication foo one_item
foo-IsPublication = record {
  text = omega arith;
  short = omega arith;
  count = omega arith;
  items = omega arith;
}

publish_complete_example :
    ((t : Topic)
      → Map.find foo busy.topics ≡ some t
      → publish machine (encode cs_publish foo one_item) busy ≡ ok (published foo one_item t busy))
    × (Map.find foo busy.topics ≡ none
        → publish machine (encode cs_publish foo one_item) busy
          ≡ rebuild_topics_topic machine (published foo one_item new_topic busy))
publish_complete_example = publish_complete machine foo one_item foo-IsPublication busy refl

pub foo_found : Map.find foo busy.topics ≡ some foo_topic
unfolding Map.find compare_bytes
foo_found = refl

subscribe_present_example :
    subscribe machine 4 foo busy
    ≡ ok (
        delivered (4 ∷ []) (encode sc_notify foo (flt 7 ∷ [])) (record busy {
          subscribers =
              Map.insert foo (Map.insert 4 tt (Map.at [] foo busy.subscribers)) busy.subscribers;
          subtopics = Map.insert 4 (Map.insert foo tt (Map.at [] 4 busy.subtopics)) busy.subtopics;
        }))
subscribe_present_example =
    subscribe_present machine 4 foo foo_topic busy refl refl foo_found (omega arith) (tt, tt)
      (unfold htonl in omega arith)

abbrev hello : Ready
hello = record { fd = 3; accepted = some 4; events = []; now = 0 }

-- Client 4 subscribes to "foo", in two reads.
abbrev asks : Ready
asks = record {
  fd = 4;
  accepted = none;
  events = chunk (0 ∷ 0 ∷ []) ∷ chunk (0 ∷ 8 ∷ 0 ∷ 0 ∷ 0 ∷ 2 ∷ 102 ∷ 111 ∷ 111 ∷ 0 ∷ []) ∷ [];
  now = 1;
}

server-Inv_example :
    Ensures
      (λ x. Inv x.1)
      (make_server machine 0 3 quiet
        >>= server_loop machine (some (hello ∷ []) ∷ some (asks ∷ []) ∷ []))
server-Inv_example = server-Inv machine 0 3 quiet (some (hello ∷ []) ∷ some (asks ∷ []) ∷ [])

-- A server to which client 4 is connected, with no subscription yet.
abbrev fresh : Server
fresh = record {
  listenfd = 3;
  active_fd_set = (3, tt) ∷ (4, tt) ∷ [];
  cur_client = some 4;
  clients = (4, client_of 4) ∷ [];
  subscribers = [];
  subtopics = [];
  topics = [];
  server_kill = false;
  msgssent = 0;
  msgsrecvd = 0;
  net = quiet;
}

abbrev ask_packet : List ℕ
ask_packet = 0 ∷ 0 ∷ 0 ∷ 2 ∷ 102 ∷ 111 ∷ 111 ∷ 0 ∷ []

busy-IsLinked : IsLinked busy.subscribers busy.subtopics
unfolding Map.insert Map.at Map.find compare_bytes
busy-IsLinked =
    join-IsLinked 5 foo ((foo, (4, tt) ∷ []) ∷ []) ((4, (foo, tt) ∷ []) ∷ [])
      (join-IsLinked 4 foo [] [] λ n fd. member-empty n fd ∙ sym (member-empty fd n))

ask_packet-name : get_name_from_msg ask_packet ≢ ok topics_name
unfolding get_name_from_msg memcpy
ask_packet-name h = cc h

fresh-IsDirectory : IsDirectory fresh.topics
unfolding Map.has Map.find
fresh-IsDirectory = record {
  sorted = tt;
  named = tt;
  listed = λ t h. absurd (cc h);
  counted = λ h. absurd (cc h);
}

process-IsDirectory_example :
    Ensures (λ s. IsDirectory s.topics) (process machine 9 ask_packet fresh)
process-IsDirectory_example =
    process-IsDirectory machine 9 ask_packet fresh (omega arith) ask_packet-name fresh-IsDirectory

pub foo-not_stats : foo ≢ stats_name
foo-not_stats h = cc h
