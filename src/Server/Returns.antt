-- ===== src/Server/Returns.antt =====
-- process() of a publication returns, while every write is complete.
use diamond_apparatus.Base.{ℕ, ◌+◌, ◌^◌, ◌<◌, ◌≡◌, ◌≢◌, false, some, List, [], arith, length, All}
use diamond_apparatus.Base.Order.{nat_ord, bytes_ord}
use diamond_apparatus.Base.Result.{ok}
use diamond_apparatus.Base.Bytes.{htonl, ntohl-htonl}
use diamond_apparatus.Map
use diamond_apparatus.Map.{keys, same}
use diamond_apparatus.Map.Laws.{find-insert, same_of_ne}
use diamond_apparatus.Topic.{Datum, Topic, copy, add, clear}
use diamond_apparatus.Topic.Message.Encode.{encode, length-encode, IsTagged}
use diamond_apparatus.Topic.Message.Write.{to_message-eq-encode}
use diamond_apparatus.Messages.{cs_publish, sc_notify}
use diamond_apparatus.Server.{
  Name, Platform, Server, stats_name, find_or_create_topic, stats, publish_internal,
  rebuild_stats_topic,
}
use diamond_apparatus.Server.Process.{dispatch, process}
use diamond_apparatus.Server.Delivery.{
  IsPublication, delivered, published, send_to_subscribers_complete, publish_complete,
}

abbrev pub received : Server → Server
received s = record s { msgsrecvd = s.msgsrecvd + 1 }

module _ (pf : Platform) (now : ℕ) where
  abbrev pub new_stats : Server → Topic
  new_stats s = stats pf now s (find_or_create_topic stats_name s.topics)

  -- The server when the statistics have been stored and sent.
  abbrev pub stats_published : Server → Server
  stats_published s =
      delivered (keys (Map.at [] stats_name s.subscribers))
        (encode sc_notify stats_name (new_stats s).d)
        (record s {
          topics = Map.insert stats_name (new_stats s) s.topics;
          subscribers = Map.enter [] stats_name s.subscribers;
        })

  new_stats-IsTagged : (s : Server) → All IsTagged (new_stats s).d
  unfolding stats add clear copy
  new_stats-IsTagged s = omega arith

  new_stats-small : (s : Server) → length (encode sc_notify stats_name (new_stats s).d) < 2 ^ 31
  unfolding stats add clear copy htonl
  new_stats-small s = omega arith

  pub rebuild_stats_topic_complete :
      (s : Server) → s.net.script ≡ [] → rebuild_stats_topic pf now s ≡ ok (stats_published s)
  unfolding rebuild_stats_topic publish_internal
  rebuild_stats_topic_complete s e =
      rw
        (to_message-eq-encode pf.allocator sc_notify stats_name (new_stats s) (omega arith)
          (new_stats-IsTagged s) (new_stats-small s))
        (send_to_subscribers_complete stats_name (encode sc_notify stats_name (new_stats s).d)
          (record s { topics = Map.insert stats_name (new_stats s) s.topics }) e
          (omega (arith, length-encode sc_notify stats_name (new_stats s).d)))

  -- process(), while every write is complete, of the encoding, as a publication, of a name, a C
  -- string of at most 128 bytes, that is there and is not "stats", and of well formed items, their
  -- number below 2^32, returns: it counts the packet, stores the statistics and sends them to their
  -- subscribers, and then stores the items and sends them to theirs.
  pub process_complete :
      (n : Name) (d : List Datum) (t : Topic) (s : Server)
      → IsPublication n d
      → s.net.script ≡ []
      → n ≢ stats_name
      → Map.find n s.topics ≡ some t
      → process pf now (encode cs_publish n d) s
        ≡ ok (published n d t (stats_published (received s)))
  unfolding process dispatch
  process_complete n d t s v e other found =
      rw (rebuild_stats_topic_complete (received s) e, ntohl-htonl cs_publish _ (omega arith))
        ((publish_complete pf n d v (stats_published (received s)) e).0 t still_found)
    where
      still_found : Map.find n (Map.insert stats_name (new_stats (received s)) s.topics) ≡ some t
      still_found =
          let apart : same n stats_name ≡ false = same_of_ne n stats_name other in
          ground (arith, find-insert n stats_name (new_stats (received s)) s.topics)
