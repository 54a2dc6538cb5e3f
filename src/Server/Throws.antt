-- ===== src/Server/Throws.antt =====
-- What process() of the server throws: never what toMessage() does.
pub mod Always
use diamond_apparatus.Base.{
  ℕ, zero, suc, ◌+◌, ◌≡◌, refl, ap, sym, subst, Bool, true, false, Option, none, some, List, [],
  ◌∷◌, ◌++◌, All, All-append, drop, Ordering, ◌==◌, if◌then◌else◌, if_true, if_false, Bool-cases,
  inl, inr,
}
use diamond_apparatus.Base.Order.{Ord, nat_ord, bytes_ord, compare_bytes}
use diamond_apparatus.Base.Result.{
  Result, ok, throws, fault, bad_data, cannot_send, cannot_call_respond, cannot_call_getfd, ◌>>=◌,
  Avoids, Avoids-bind, Avoids-any, Whatever,
}
use diamond_apparatus.Base.Bytes.{htonl, ntohl, c_string, until_nul}
use diamond_apparatus.Map
use diamond_apparatus.Map.{Map, keys, same, branch}
use diamond_apparatus.Topic.{Datum, flt, str, raw, Topic, new_topic, of_string, copy, add, clear}
use diamond_apparatus.Topic.Message.{to_message, from_message, get_name_from_msg}
use diamond_apparatus.Topic.Message.Encode.{IsTagged}
use diamond_apparatus.Topic.Message.Tags.{
  to_message-Avoids, ntohl-Avoids, c_string-Avoids, get_name_from_msg-Avoids, from_message-Avoids,
}
use diamond_apparatus.Tcp.Send
use diamond_apparatus.Tcp.Send.{Net, basesend, attempt, tries}
use diamond_apparatus.Messages.{sc_notify, cs_publish, cs_subscribe, cs_killserver, cs_clearserver}
use diamond_apparatus.Server
use diamond_apparatus.Server.{
  Name, Platform, Server, topics_name, stats_name, respond, respond_to, getfd, find_or_create_topic,
  send_to_subscribers, add_names, publish_internal, rebuild_topics_topic, stats,
  rebuild_stats_topic, send_present, subscribe, publish_topic, publish_found, publish,
}
use diamond_apparatus.Server.Process.{clear_server, subscribe_packet, dispatch, process}
use diamond_apparatus.Server.Tagged.{
  Stored, IsTaggedServer, insert-Stored, find-Stored, found-IsTagged, enter-Stored, add-IsTagged,
  add_names-IsTagged, basesend-Avoids, send_to_subscribers-Avoids, respond-Avoids,
}
use diamond_apparatus.Base.Result.{or_fault, or_throw, accept_failed, select_failed}
use diamond_apparatus.Tcp.Receive.{Update, update}
use diamond_apparatus.Messages.{sc_killclient}
use diamond_apparatus.Server.{unsubscribe, version_name, version, versionname}
use diamond_apparatus.Server.Process.{
  bare, version_topic, make_server, shutdown, shutdown_loop, on_close,
}
use diamond_apparatus.Server.Loop.{
  Ready, connect, disconnect, keep_receiver, no_client, process_packet, after_update, serve_client,
  serve_ready, serve_all, server_update, server_loop,
}

pub either-Avoids :
    {A : Type 0} (P : A → Type 0) (r q : Result A) (b : Bool)
    → Avoids bad_data P r
    → Avoids bad_data P q
    → Avoids bad_data P (if b then r else q)
either-Avoids P r q true h k = h
either-Avoids P r q false h k = k

module _ (pf : Platform) where
  publish_internal-Avoids :
      (name : Name) (t : Topic) (s : Server)
      → All IsTagged t.d
      → IsTaggedServer s
      → Avoids bad_data IsTaggedServer (publish_internal pf name t s)
  unfolding publish_internal
  publish_internal-Avoids name t s h v =
      Avoids-any bad_data IsTaggedServer (to_message pf.allocator sc_notify name t) _
        (to_message-Avoids pf.allocator sc_notify name t h)
        λ p. send_to_subscribers-Avoids name p s v

  pub rebuild_topics_topic-Avoids :
      (s : Server) → IsTaggedServer s → Avoids bad_data IsTaggedServer (rebuild_topics_topic pf s)
  unfolding rebuild_topics_topic clear
  rebuild_topics_topic-Avoids s v =
      let topics = Map.enter new_topic topics_name s.topics in
      let t = add_names (keys topics) (clear (find_or_create_topic topics_name s.topics)) in
      let h =
        add_names-IsTagged (keys topics) (clear (find_or_create_topic topics_name s.topics)) tt in
      publish_internal-Avoids topics_name t (record s { topics = Map.insert topics_name t topics })
        h (insert-Stored topics_name t topics h (enter-Stored topics_name s.topics v))

  pub rebuild_stats_topic-Avoids :
      (now : ℕ) (s : Server)
      → IsTaggedServer s
      → Avoids bad_data IsTaggedServer (rebuild_stats_topic pf now s)
  unfolding rebuild_stats_topic stats add clear copy
  rebuild_stats_topic-Avoids now s v =
      let t = stats pf now s (find_or_create_topic stats_name s.topics) in
      let h : All IsTagged t.d = (tt, (tt, (tt, (tt, tt)))) in
      publish_internal-Avoids stats_name t (record s { topics = Map.insert stats_name t s.topics })
        h (insert-Stored stats_name t s.topics h v)

  send_present-Avoids :
      (n : Name) (o : Option Topic) (topics : Map Name Topic) (s : Server)
      → Map.find n topics ≡ o
      → Stored topics
      → IsTaggedServer s
      → Avoids bad_data IsTaggedServer (send_present pf n o s)
  unfolding send_present
  send_present-Avoids n none topics s e w v = v
  send_present-Avoids n (some t) topics s e w v =
      Avoids-any bad_data IsTaggedServer (to_message pf.allocator sc_notify n t) _
        (to_message-Avoids pf.allocator sc_notify n t (find-Stored n t topics e w))
        λ p.
          Avoids-bind bad_data IsTaggedServer IsTaggedServer (respond p s) _ (respond-Avoids p s v)
            λ u w. w

  publish_topic-Avoids :
      (name : Name) (is_new : Bool) (t : Topic) (p : List ℕ) (s : Server)
      → IsTaggedServer s
      → Avoids bad_data IsTaggedServer (publish_topic pf name is_new t p s)
  unfolding publish_topic
  publish_topic-Avoids name is_new t p s v =
      Avoids-bind bad_data (λ t. All IsTagged t.d) IsTaggedServer (from_message p t) _
        (from_message-Avoids p t)
        λ t' h.
          Avoids-bind bad_data IsTaggedServer IsTaggedServer
            (send_to_subscribers name (htonl sc_notify ++ drop 4 p)
              (record s { topics = Map.insert name t' s.topics }))
            _ (send_to_subscribers-Avoids name _ _ (insert-Stored name t' s.topics h v))
            λ u w. by_new is_new u w (rebuild_topics_topic-Avoids u w)
    where
      by_new :
          (b : Bool) (u : Server)
          → IsTaggedServer u
          → Avoids bad_data IsTaggedServer (rebuild_topics_topic pf u)
          → Avoids bad_data IsTaggedServer (if b then rebuild_topics_topic pf u else ok u)
      by_new true u w r = r
      by_new false u w r = w

  publish-Avoids :
      (p : List ℕ) (s : Server) → IsTaggedServer s → Avoids bad_data IsTaggedServer (publish pf p s)
  unfolding publish publish_found
  publish-Avoids p s v =
      Avoids-any bad_data IsTaggedServer (get_name_from_msg p) _ (get_name_from_msg-Avoids p)
        λ name. by_find name (Map.find name s.topics)
    where
      by_find :
          (name : Name) (o : Option Topic)
          → Avoids bad_data IsTaggedServer (publish_found pf name o p s)
      by_find name none = publish_topic-Avoids name true new_topic p s v
      by_find name (some t) = publish_topic-Avoids name false t p s v

  subscribe_packet-Avoids :
      (rest : List ℕ) (s : Server)
      → IsTaggedServer s
      → Avoids bad_data IsTaggedServer (subscribe_packet pf rest s)
  unfolding subscribe_packet subscribe getfd
  subscribe_packet-Avoids rest s v =
      Avoids-any bad_data IsTaggedServer (getfd s) _ (called s.cur_client) λ fd.
        Avoids-any bad_data IsTaggedServer (c_string rest) _ (c_string-Avoids bad_data rest)
          λ n. send_present-Avoids n (Map.find n s.topics) s.topics _ refl v v
    where
      called :
          (o : Option ℕ)
          → Avoids bad_data Whatever (elim o [ none ↦ throws cannot_call_getfd | some fd ↦ ok fd ])
      called none = λ h. cc h
      called (some fd) = tt

  dispatch-Avoids :
      (type : ℕ) (rest p : List ℕ) (s : Server)
      → IsTaggedServer s
      → Avoids bad_data IsTaggedServer (dispatch pf type rest p s)
  unfolding dispatch clear_server
  dispatch-Avoids type rest p s v =
      either-Avoids IsTaggedServer _ _ (type == cs_publish) (publish-Avoids p s v) (
        either-Avoids IsTaggedServer _ _ (type == cs_subscribe) (subscribe_packet-Avoids rest s v) (
          either-Avoids IsTaggedServer _ _ (type == cs_killserver) v
            (either-Avoids IsTaggedServer _ _ (type == cs_clearserver) tt v)))

  pub process-Avoids :
      (now : ℕ) (p : List ℕ) (s : Server)
      → IsTaggedServer s
      → Avoids bad_data IsTaggedServer (process pf now p s)
  unfolding process
  process-Avoids now p s v =
      Avoids-bind bad_data IsTaggedServer IsTaggedServer
        (rebuild_stats_topic pf now (record s { msgsrecvd = s.msgsrecvd + 1 })) _
        (rebuild_stats_topic-Avoids now (record s { msgsrecvd = s.msgsrecvd + 1 }) v)
        λ t w.
          Avoids-any bad_data IsTaggedServer (ntohl p) _ (ntohl-Avoids bad_data p)
            λ (type, rest). dispatch-Avoids type rest p t w
