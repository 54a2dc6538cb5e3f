-- ===== src/Server/Listing.antt =====
-- The list of topics through every packet.
use diamond_apparatus.Base.{
  ℕ, ◌+◌, ◌*◌, ◌≡◌, ◌≢◌, refl, ap, sym, subst, ◌∙◌, Bool, true, false, Option, none, some, List, [],
  arith, All, if◌then◌else◌, ◌==◌, Bool-cases, inl, inr,
}
use diamond_apparatus.Base.Order.{nat_ord, bytes_ord}
use diamond_apparatus.Base.Result.{
  Result, ok, throws, fault, ◌>>=◌, Ensures, Ensures-bind, Ensures-any, >>=-eq-ok,
}
use diamond_apparatus.Base.Bytes.{IsText, IsByte}
use diamond_apparatus.Map
use diamond_apparatus.Map.{Map, keys, same, branch}
use diamond_apparatus.Map.Laws.{has-insert, same_of_ne}
use diamond_apparatus.Map.Sorted.{insert-IsSorted}
use diamond_apparatus.Topic.{Topic, new_topic}
use diamond_apparatus.Topic.Message.{from_message, get_name_from_msg}
use diamond_apparatus.Server.{
  Name, Platform, Server, topics_name, stats_name, find_or_create_topic, send_to_subscribers,
  publish_internal, rebuild_topics_topic, rebuild_stats_topic, publish_topic, publish_found,
  publish, stats,
}
use diamond_apparatus.Server.Directory.{
  IsDirectory, IsReady, rebuilt, rebuilt-IsDirectory, insert-named, insert_there-IsDirectory,
  insert-stats-IsDirectory,
}
use diamond_apparatus.Messages.{cs_publish, cs_subscribe, cs_killserver, cs_clearserver}
use diamond_apparatus.Server.Process.{clear_server, subscribe_packet, dispatch, process}
use diamond_apparatus.Base.Bytes.{ntohl, memcpy, memcpy-IsByte, c_string-IsText}
use diamond_apparatus.Server.SameTopics.{
  SameTopics, carry, send_to_subscribers-SameTopics, publish_internal-SameTopics,
  subscribe_packet-SameTopics,
}

-- Behind the rebuilding of the stats topic, which is the first thing that process() does.
abbrev Counted : Map Name Topic → Type 0
Counted topics = IsDirectory topics × (Map.has stats_name topics ≡ true)

stored-IsReady :
    (n : Name) (t : Topic) (topics : Map Name Topic)
    → IsText n
    → Counted topics
    → IsReady (Map.insert n t topics)
stored-IsReady n t topics text v = record {
  sorted = insert-IsSorted n t topics v.0.sorted;
  named = insert-named n t topics text v.0.named;
  counted = ground (arith, has-insert stats_name n t topics, v.1);
}

get_name_from_msg-IsText :
    (p : List ℕ) {n : Name} → All IsByte p → get_name_from_msg p ≡ ok n → IsText n
unfolding get_name_from_msg
get_name_from_msg-IsText p bytes h =
    let ((q, rest), e, k) = >>=-eq-ok (memcpy (4 * 2 + 1) p) _ h in
    c_string-IsText rest (memcpy-IsByte (4 * 2 + 1) p bytes e).1 k

no_topics-IsDirectory : IsDirectory []
unfolding Map.has Map.find
no_topics-IsDirectory = record {
  sorted = tt;
  named = tt;
  listed = λ t h. absurd (cc h);
  counted = λ h. absurd (cc h);
}

module _ (pf : Platform) where
  rebuild_topics_topic-IsDirectory :
      (s : Server)
      → IsReady s.topics
      → Ensures (λ t. IsDirectory t.topics) (rebuild_topics_topic pf s)
  unfolding rebuild_topics_topic
  rebuild_topics_topic-IsDirectory s v =
      carry IsDirectory (record s { topics = rebuilt s.topics }) (publish_internal pf _ _ _)
        (rebuilt-IsDirectory s.topics v) (publish_internal-SameTopics pf _ _ _)

  rebuild_stats_topic-Counted :
      (now : ℕ) (s : Server)
      → IsDirectory s.topics
      → Ensures (λ t. Counted t.topics) (rebuild_stats_topic pf now s)
  unfolding rebuild_stats_topic
  rebuild_stats_topic-Counted now s v =
      carry Counted
        (record s {
          topics =
              Map.insert stats_name (stats pf now s (find_or_create_topic stats_name s.topics))
                s.topics;
        })
        (publish_internal pf _ _ _)
        (insert-stats-IsDirectory (stats pf now s (find_or_create_topic stats_name s.topics))
          s.topics v)
        (publish_internal-SameTopics pf _ _ _)

  publish_topic-IsDirectory :
      (n : Name) (is_new : Bool) (t : Topic) (p : List ℕ) (s : Server)
      → IsText n
      → (is_new ≡ false → (same topics_name n ≡ false) × (Map.has n s.topics ≡ true))
      → Counted s.topics
      → Ensures (λ t. IsDirectory t.topics) (publish_topic pf n is_new t p s)
  unfolding publish_topic
  publish_topic-IsDirectory n is_new t p s text known v =
      Ensures-any (λ t. IsDirectory t.topics) (from_message p t) _
        λ t'.
          Ensures-bind (SameTopics (record s { topics = Map.insert n t' s.topics }))
            (λ t. IsDirectory t.topics) (send_to_subscribers n _ _) _
            (send_to_subscribers-SameTopics n _ _)
            λ u same_topics. by_newness is_new known t' u same_topics
    where
      by_newness :
          (is_new : Bool)
          → (is_new ≡ false → (same topics_name n ≡ false) × (Map.has n s.topics ≡ true))
          → (t' : Topic) (u : Server) → u.topics ≡ Map.insert n t' s.topics
          → Ensures (λ t. IsDirectory t.topics) (if is_new then rebuild_topics_topic pf u else ok u)
      by_newness true known t' u e =
          rebuild_topics_topic-IsDirectory u
            (subst IsReady (sym e) (stored-IsReady n t' s.topics text v))
      by_newness false known t' u e =
          let (other, there) = known refl in
          subst IsDirectory (sym e) (insert_there-IsDirectory n t' s.topics other there v.0)

  publish_found-IsDirectory :
      (n : Name) (x : Option Topic) (p : List ℕ) (s : Server)
      → IsText n
      → n ≢ topics_name
      → Map.find n s.topics ≡ x
      → Counted s.topics
      → Ensures (λ t. IsDirectory t.topics) (publish_found pf n x p s)
  unfolding publish_found
  publish_found-IsDirectory n none p s text other e v =
      publish_topic-IsDirectory n true new_topic p s text (λ h. absurd (cc h)) v
  publish_found-IsDirectory n (some t) p s text other e v =
      publish_topic-IsDirectory n false t p s text
        (λ h. (same_of_ne topics_name n (λ k. other (sym k)), unfold Map.has in rw e refl)) v

  publish-IsDirectory :
      (p : List ℕ) (s : Server)
      → All IsByte p
      → get_name_from_msg p ≢ ok topics_name
      → Counted s.topics
      → Ensures (λ t. IsDirectory t.topics) (publish pf p s)
  unfolding publish
  publish-IsDirectory p s bytes other v = by_name (get_name_from_msg p) refl
    where
      by_name :
          (r : Result Name)
          → get_name_from_msg p ≡ r
          → Ensures
              (λ t. IsDirectory t.topics)
              (r >>= λ n. publish_found pf n (Map.find n s.topics) p s)
      by_name (ok n) e =
          publish_found-IsDirectory n (Map.find n s.topics) p s (get_name_from_msg-IsText p bytes e)
            (λ k. other (e ∙ ap ok k)) refl v
      by_name (throws x) e = tt
      by_name fault e = tt

  dispatch-IsDirectory :
      (type : ℕ) (rest p : List ℕ) (s : Server)
      → All IsByte p
      → get_name_from_msg p ≢ ok topics_name
      → Counted s.topics
      → Ensures (λ t. IsDirectory t.topics) (dispatch pf type rest p s)
  unfolding dispatch clear_server
  dispatch-IsDirectory type rest p s bytes other v = elim (Bool-cases (type == cs_publish)) [
    | inl a ↦ rw a (publish-IsDirectory p s bytes other v)
    | inr a ↦ elim (Bool-cases (type == cs_subscribe)) [
      | inl b ↦
          rw (a, b)
            (carry IsDirectory s (subscribe_packet pf rest s) v.0
              (subscribe_packet-SameTopics pf rest s))
      | inr b ↦ elim (Bool-cases (type == cs_killserver)) [
        | inl c ↦ rw (a, b, c) v.0
        | inr c ↦ elim (Bool-cases (type == cs_clearserver)) [
          | inl d ↦ rw (a, b, c, d) no_topics-IsDirectory
          | inr d ↦ rw (a, b, c, d) v.0
        ]
      ]
    ]
  ]

  -- process(), for a packet of bytes whose name, read as that of a publication, is not "topics",
  -- keeps this: the stored topics are in the order of their names, every name is a C string, the
  -- topics topic, if it is there, lists exactly the names of the stored topics, in order, and then
  -- the stats topic is there as well. If it held before and process() returns, it holds behind it.
  pub process-IsDirectory :
      (now : ℕ) (p : List ℕ) (s : Server)
      → All IsByte p
      → get_name_from_msg p ≢ ok topics_name
      → IsDirectory s.topics
      → Ensures (λ t. IsDirectory t.topics) (process pf now p s)
  unfolding process
  process-IsDirectory now p s bytes other v =
      Ensures-bind (λ t. Counted t.topics) (λ t. IsDirectory t.topics)
        (rebuild_stats_topic pf now (record s { msgsrecvd = s.msgsrecvd + 1 })) _
        (rebuild_stats_topic-Counted now (record s { msgsrecvd = s.msgsrecvd + 1 }) v)
        λ s w.
          Ensures-any (λ t. IsDirectory t.topics) (ntohl p) _
            λ (type, rest). dispatch-IsDirectory type rest p s bytes other w
