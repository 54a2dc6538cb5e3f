-- ===== src/Server/Shows.antt =====
-- What the users of server.cpp see of the stored topics, through each call.
use diamond_apparatus.Base.{
  ℕ, ◌≡◌, sym, subst, Bool, true, false, Option, none, some, List, arith, if◌then◌else◌,
}
use diamond_apparatus.Base.Order.{nat_ord, bytes_ord}
use diamond_apparatus.Base.Result.{Result, ok, Ensures, Ensures-bind}
use diamond_apparatus.Map
use diamond_apparatus.Map.{Map, same}
use diamond_apparatus.Map.Laws.{find-insert, find-enter}
use diamond_apparatus.Topic.{Datum, Topic, new_topic}
use diamond_apparatus.Topic.Message.{from_message}
use diamond_apparatus.Topic.Message.Encode.{encode}
use diamond_apparatus.Messages.{cs_publish}
use diamond_apparatus.Server.{
  Name, Platform, Server, topics_name, stats_name, find_or_create_topic, send_to_subscribers,
  rebuild_topics_topic, rebuild_stats_topic, publish_internal, publish_topic, publish_found,
  publish, stats,
}
use diamond_apparatus.Server.Delivery.{IsPublication, packet_read, packet_name}
use diamond_apparatus.Server.SameTopics.{
  SameTopics, send_to_subscribers-SameTopics, publish_internal-SameTopics,
}
use diamond_apparatus.Server.Directory.{rebuilt}
use diamond_apparatus.Server.Broker.{IsUser, items_of}
use diamond_apparatus.Base.Result.{Ensures-mono}

-- What users see of the stored topics.
abbrev pub Shows : Map Name Topic → (Name → Option (List Datum)) → Type 0
Shows topics items = (m : Name) → IsUser m → items_of (Map.find m topics) ≡ items m

abbrev pub ShowsIn : (Name → Option (List Datum)) → Server → Type 0
ShowsIn items t = Shows t.topics items

Shows-same :
    (items : Name → Option (List Datum)) (s : Server) (r : Result Server)
    → Shows s.topics items
    → Ensures (SameTopics s) r
    → Ensures (ShowsIn items) r
Shows-same items s r h same_topics =
    Ensures-mono (SameTopics s) (ShowsIn items) r same_topics
      λ t e. subst (λ topics. Shows topics items) (sym e) h

-- A topic that is kept for the server's own is not seen.
Shows-own :
    (n : Name) (t : Topic) (topics : Map Name Topic) (items : Name → Option (List Datum))
    → ((m : Name) → IsUser m → same m n ≡ false)
    → Shows topics items
    → Shows (Map.insert n t topics) items
Shows-own n t topics items own h m user =
    ground (arith, find-insert m n t topics, own m user, h m user)

Shows-rebuilt :
    (topics : Map Name Topic) (items : Name → Option (List Datum))
    → Shows topics items
    → Shows (rebuilt topics) items
Shows-rebuilt topics items h =
    Shows-own topics_name _ (Map.enter new_topic topics_name topics) items (λ m user. user.0)
      λ m user. ground (arith, find-enter new_topic m topics_name topics, user.0, h m user)

Shows-stored :
    (n : Name) (t : Topic) (topics : Map Name Topic) (items : Name → Option (List Datum))
    → Shows topics items
    → Shows (Map.insert n t topics) (λ m. if same m n then some t.d else items m)
Shows-stored n t topics items h m user = ground (arith, find-insert m n t topics, h m user)

module _ (pf : Platform) where
  pub rebuild_topics_topic-Shows :
      (s : Server) (items : Name → Option (List Datum))
      → Shows s.topics items
      → Ensures (ShowsIn items) (rebuild_topics_topic pf s)
  unfolding rebuild_topics_topic
  rebuild_topics_topic-Shows s items h =
      Shows-same items (record s { topics = rebuilt s.topics }) (publish_internal pf _ _ _)
        (Shows-rebuilt s.topics items h) (publish_internal-SameTopics pf _ _ _)

  pub rebuild_stats_topic-Shows :
      (now : ℕ) (s : Server) (items : Name → Option (List Datum))
      → Shows s.topics items
      → Ensures (ShowsIn items) (rebuild_stats_topic pf now s)
  unfolding rebuild_stats_topic
  rebuild_stats_topic-Shows now s items h =
      let t = stats pf now s (find_or_create_topic stats_name s.topics) in
      Shows-same items (record s { topics = Map.insert stats_name t s.topics })
        (publish_internal pf _ _ _) (Shows-own stats_name t s.topics items (λ m user. user.1) h)
        (publish_internal-SameTopics pf _ _ _)

  publish_topic-Shows :
      (n : Name) (is_new : Bool) (t : Topic) (d : List Datum) (p : List ℕ) (s : Server)
      (items : Name → Option (List Datum))
      → from_message p t ≡ ok (record t { d = d })
      → Shows s.topics items
      → Ensures
          (ShowsIn (λ m. if same m n then some d else items m))
          (publish_topic pf n is_new t p s)
  unfolding publish_topic
  publish_topic-Shows n is_new t d p s items e h = rw e (
      Ensures-bind (ShowsIn after) (ShowsIn after) (send_to_subscribers n _ stored) _
        (Shows-same after stored (send_to_subscribers n _ stored)
          (Shows-stored n (record t { d = d }) s.topics items h)
          (send_to_subscribers-SameTopics n _ stored))
        (by_newness is_new))
    where
      after : Name → Option (List Datum)
      after m = if same m n then some d else items m

      stored : Server
      stored = record s { topics = Map.insert n (record t { d = d }) s.topics }

      by_newness :
          (is_new : Bool) (u : Server)
          → Shows u.topics after
          → Ensures (ShowsIn after) (if is_new then rebuild_topics_topic pf u else ok u)
      by_newness true u h = rebuild_topics_topic-Shows u after h
      by_newness false u h = h

  publish_found-Shows :
      (n : Name) (o : Option Topic) (d : List Datum) (p : List ℕ) (s : Server)
      (items : Name → Option (List Datum))
      → ((t : Topic) → from_message p t ≡ ok (record t { d = d }))
      → Shows s.topics items
      → Ensures (ShowsIn (λ m. if same m n then some d else items m)) (publish_found pf n o p s)
  unfolding publish_found
  publish_found-Shows n none d p s items e h =
      publish_topic-Shows n true new_topic d p s items (e new_topic) h
  publish_found-Shows n (some t) d p s items e h = publish_topic-Shows n false t d p s items (e t) h

  pub publish-Shows :
      (n : Name) (d : List Datum) (s : Server) (items : Name → Option (List Datum))
      → IsPublication n d
      → Shows s.topics items
      → Ensures
          (ShowsIn (λ m. if same m n then some d else items m))
          (publish pf (encode cs_publish n d) s)
  unfolding publish
  publish-Shows n d s items v h = rw (packet_name cs_publish n d v) (
      publish_found-Shows n (Map.find n s.topics) d (encode cs_publish n d) s items
        (packet_read cs_publish n d v (omega arith)) h)
