-- ===== src/Server/Progress.antt =====
-- The server returns: what each request needs, and what it adds to what is stored.
pub mod Histories
use diamond_apparatus.Base.{
  ℕ, ◌+◌, ◌^◌, ◌≤◌, ◌<◌, ◌≡◌, refl, ap, sym, subst, ◌∙◌, true, false, Option, none, some, List, [],
  ◌∷◌, ◌++◌, All, arith, length, if◌then◌else◌,
}
use diamond_apparatus.Base.Order.{nat_ord, bytes_ord}
use diamond_apparatus.Base.Result.{Result, ok, ◌>>=◌, Succeeds, Succeeds-bind}
use diamond_apparatus.Base.Bytes.{
  htonl, length-htonl, ntohl-htonl, c_string, c_string-append, IsText,
}
use diamond_apparatus.Map
use diamond_apparatus.Map.{Map, keys}
use diamond_apparatus.Topic.{Datum, Topic, new_topic, add, clear, copy}
use diamond_apparatus.Topic.Message.{max_name}
use diamond_apparatus.Topic.Message.Encode.{
  encode, encode_items, length-encode, IsTagged, IsTagged-of_well_formed,
}
use diamond_apparatus.Topic.Message.Write.{to_message-eq-encode}
use diamond_apparatus.Messages.{cs_publish, cs_subscribe, cs_killserver, cs_clearserver, sc_notify}
use diamond_apparatus.Server.{
  Name, Platform, Server, topics_name, stats_name, add_names, find_or_create_topic,
  publish_internal, rebuild_topics_topic, rebuild_stats_topic, stats, send_to_subscribers,
  send_present, subscribe, publish, getfd,
}
use diamond_apparatus.Server.Process.{clear_server, subscribe_packet, dispatch, process}
use diamond_apparatus.Server.Delivery.{
  IsPublication, delivered, published, send_to_subscribers_complete, publish_complete,
  subscribe_present,
}
use diamond_apparatus.Server.Returns.{
  received, new_stats, stats_published, rebuild_stats_topic_complete,
}
use diamond_apparatus.Server.Broker.{Request, publishes, subscribes, kills, clears, IsPacket}
use diamond_apparatus.Server.Tagged.{add_names-IsTagged}
use diamond_apparatus.Server.Budget.{
  IsFitting, Fits, Fits-mono, insert-Fits, names_size, names_size-insert, find-Fits, enter-Fits,
  names_size-enter, length-add_names,
}

-- Names and items take so many bytes at most, and every write will be complete.
pub record IsWithin (b : ℕ) (s : Server) : Type 0 where
  pub names : names_size (keys s.topics) ≤ b
  pub fits : Fits b s.topics
  pub quiet : s.net.script ≡ []

pub IsWithin-mono : (b c : ℕ) (s : Server) → b ≤ c → IsWithin b s → IsWithin c s
IsWithin-mono b c s le v = record {
  names = omega (arith, v.names);
  fits = Fits-mono b c s.topics le v.fits;
  quiet = v.quiet;
}

-- The messages of a budget have a size that fits an `int`.
abbrev pub IsAffordable : ℕ → Type 0
IsAffordable b = b + 256 < 2 ^ 31

-- A state within its budget, in which the same client is served.
abbrev pub Serves : ℕ → Option ℕ → Server → Type 0
Serves b cur s = IsWithin b s × (s.cur_client ≡ cur)

-- A topic is stored.
store-IsWithin :
    (b : ℕ) (n : Name) (t : Topic) (s : Server)
    → IsFitting (b + length n + 5) n t
    → IsWithin b s
    → IsWithin (b + length n + 5) (record s { topics = Map.insert n t s.topics })
store-IsWithin b n t s h v = record {
  names = omega (arith, names_size-insert n t s.topics, v.names);
  fits =
      insert-Fits (b + length n + 5) n t s.topics h
        (Fits-mono b (b + length n + 5) s.topics (omega arith) v.fits);
  quiet = v.quiet;
}

module _ (pf : Platform) where
  rebuild_stats_topic-Serves :
      (now b : ℕ) (cur : Option ℕ) (s : Server)
      → Serves b cur s
      → Succeeds (Serves (b + 20) cur) (rebuild_stats_topic pf now s)
  unfolding stats add clear copy
  rebuild_stats_topic-Serves now b cur s v =
      subst (Succeeds (Serves (b + 20) cur)) (sym (rebuild_stats_topic_complete pf now s v.0.quiet))
        (
          record {
            names =
                omega
                  (arith, names_size-insert stats_name (new_stats pf now s) s.topics, v.0.names);
            fits =
                insert-Fits (b + 20) stats_name (new_stats pf now s) s.topics
                  (record {
                    short = omega arith;
                    tagged = (tt, (tt, (tt, (tt, tt))));
                    small = unfold htonl in omega arith;
                  })
                  (Fits-mono b (b + 20) s.topics (omega arith) v.0.fits);
            quiet = v.0.quiet;
          },
          v.1,
        )

  rebuild_topics_topic-Serves :
      (b : ℕ) (cur : Option ℕ) (s : Server)
      → IsAffordable (b + 22)
      → Serves b cur s
      → Succeeds (Serves (b + 22) cur) (rebuild_topics_topic pf s)
  unfolding rebuild_topics_topic publish_internal clear
  rebuild_topics_topic-Serves b cur s room v =
      let entered = Map.enter new_topic topics_name s.topics in
      let t = add_names (keys entered) (clear (find_or_create_topic topics_name s.topics)) in
      let tagged =
        add_names-IsTagged (keys entered) (clear (find_or_create_topic topics_name s.topics)) tt in
      let small : length (encode_items t.d) ≤ b + 22 = omega (
        arith,
        length-add_names (keys entered) (clear (find_or_create_topic topics_name s.topics)),
        names_size-enter topics_name s.topics,
        v.0.names,
      ) in
      let stored : Server = record s { topics = Map.insert topics_name t entered } in
      let short : length topics_name ≤ max_name = omega arith in
      subst (Succeeds (Serves (b + 22) cur))
        (sym (
          ap (λ r. r >>= λ p. send_to_subscribers topics_name p stored)
            (to_message-eq-encode pf.allocator sc_notify topics_name t short tagged
              (omega (arith, length-encode sc_notify topics_name t.d, small)))
          ∙ send_to_subscribers_complete topics_name (encode sc_notify topics_name t.d) stored
              v.0.quiet (omega (arith, length-encode sc_notify topics_name t.d))))
        (
          record {
            names = omega (
              arith,
              names_size-insert topics_name t entered,
              names_size-enter topics_name s.topics,
              v.0.names,
            );
            fits =
                insert-Fits (b + 22) topics_name t entered
                  (record { short = short; tagged = tagged; small = small })
                  (Fits-mono b (b + 22) entered (omega arith)
                    (enter-Fits b topics_name s.topics short v.0.fits));
            quiet = v.0.quiet;
          },
          v.1,
        )

  -- The state behind the publication of a topic.
  published-Serves :
      (b : ℕ) (cur : Option ℕ) (n : Name) (d : List Datum) (t : Topic) (s : Server)
      → IsPublication n d
      → length (encode_items d) ≤ b
      → Serves b cur s
      → Serves (b + length n + 5) cur (published n d t s)
  published-Serves b cur n d t s p small v =
      let w =
        store-IsWithin b n (record t { d = d }) s
          (record {
            short = p.short;
            tagged = IsTagged-of_well_formed d p.items;
            small = omega (arith, small);
          })
          v.0 in
      (record { names = w.names; fits = w.fits; quiet = w.quiet }, v.1)

  publish-Serves :
      (b : ℕ) (cur : Option ℕ) (n : Name) (d : List Datum) (s : Server)
      → IsPublication n d
      → length (encode_items d) ≤ b
      → IsAffordable (b + length n + 27)
      → Serves b cur s
      → Succeeds (Serves (b + length n + 27) cur) (publish pf (encode cs_publish n d) s)
  publish-Serves b cur n d s p small room v = by_find (Map.find n s.topics) refl
    where
      by_find :
          (o : Option Topic)
          → Map.find n s.topics ≡ o
          → Succeeds (Serves (b + length n + 27) cur) (publish pf (encode cs_publish n d) s)
      by_find none e =
          subst (Succeeds (Serves (b + length n + 27) cur))
            (sym ((publish_complete pf n d p s v.0.quiet).1 e))
            (subst
              (λ k. Succeeds (Serves k cur) (rebuild_topics_topic pf (published n d new_topic s)))
              (omega arith)
              (rebuild_topics_topic-Serves (b + length n + 5) cur (published n d new_topic s)
                (omega arith) (published-Serves b cur n d new_topic s p small v)))
      by_find (some t) e =
          let w = published-Serves b cur n d t s p small v in
          subst (Succeeds (Serves (b + length n + 27) cur))
            (sym ((publish_complete pf n d p s v.0.quiet).0 t e))
            (
              IsWithin-mono (b + length n + 5) (b + length n + 27) (published n d t s) (omega arith)
                  w.0,
              w.1,
            )

  subscribe-Serves :
      (b fd : ℕ) (n : Name) (s : Server)
      → IsAffordable b
      → Serves b (some fd) s
      → Succeeds (Serves b (some fd)) (subscribe pf fd n s)
  subscribe-Serves b fd n s room v = by_find (Map.find n s.topics) refl
    where
      by_find :
          (o : Option Topic)
          → Map.find n s.topics ≡ o
          → Succeeds (Serves b (some fd)) (subscribe pf fd n s)
      by_find none e =
          unfold subscribe send_present in
          rw e (record { names = v.0.names; fits = v.0.fits; quiet = v.0.quiet }, v.1)
      by_find (some t) e =
          let h = find-Fits b n t s.topics e v.0.fits in
          subst (Succeeds (Serves b (some fd)))
            (sym (
              subscribe_present pf fd n t s v.0.quiet v.1 e h.short h.tagged
                (omega (arith, length-encode sc_notify n t.d, h.small, h.short))))
            (record { names = v.0.names; fits = v.0.fits; quiet = v.0.quiet }, v.1)
