-- ===== src/Server/Tagged.antt =====
-- Every item that the server stores has a type, so toMessage() never throws there.
use diamond_apparatus.Base.{
  ℕ, zero, suc, ◌+◌, ◌≡◌, refl, sym, subst, Option, none, some, List, [], ◌∷◌, All, All-append,
  Ordering, if_true, if_false, Bool-cases, inl, inr,
}
use diamond_apparatus.Base.Order.{nat_ord, bytes_ord, compare_bytes}
use diamond_apparatus.Base.Result.{bad_data, Avoids, Avoids-any, Whatever}
use diamond_apparatus.Map
use diamond_apparatus.Map.{Map, keys, same, branch}
use diamond_apparatus.Topic.{Datum, Topic, new_topic, of_string, copy, add}
use diamond_apparatus.Topic.Message.Encode.{IsTagged}
use diamond_apparatus.Tcp.Send
use diamond_apparatus.Tcp.Send.{Net, basesend, attempt, tries}
use diamond_apparatus.Server
use diamond_apparatus.Server.{
  Name, Platform, Server, topics_name, stats_name, respond, respond_to, getfd, find_or_create_topic,
  send_to_subscribers, add_names, publish_internal, rebuild_topics_topic, stats,
  rebuild_stats_topic, send_present, subscribe, publish_topic, publish_found, publish,
}

abbrev pub Stored : Map Name Topic → Type 0
Stored [] = Unit {0}
Stored ((n, t) ∷ m) = All IsTagged t.d × Stored m

abbrev pub IsTaggedServer : Server → Type 0
IsTaggedServer s = Stored s.topics

pub insert-Stored :
    (n : Name) (t : Topic) (m : Map Name Topic)
    → All IsTagged t.d
    → Stored m
    → Stored (Map.insert n t m)
unfolding Map.insert
insert-Stored n t [] h v = (h, tt)
insert-Stored n t ((j, u) ∷ m) h v = by_order (compare_bytes n j) (insert-Stored n t m h v.1)
  where
    by_order :
        (o : Ordering)
        → Stored (Map.insert n t m)
        → Stored (branch o ((n, t) ∷ (j, u) ∷ m) ((n, t) ∷ m) ((j, u) ∷ Map.insert n t m))
    by_order Ordering.lt r = (h, v)
    by_order Ordering.eq r = (h, v.1)
    by_order Ordering.gt r = (v.0, r)

pub find-Stored :
    (n : Name) (t : Topic) (m : Map Name Topic)
    → Map.find n m ≡ some t
    → Stored m
    → All IsTagged t.d
unfolding Map.find
find-Stored n t [] e v = absurd (let k : none ≡ some t = e in cc)
find-Stored n t ((j, u) ∷ m) e v = elim (Bool-cases (same n j)) [
  | inl h ↦
      let k : u ≡ t = cc (if_true (some u) (Map.find n m) h, e) in
      subst (λ (t : Topic). All IsTagged t.d) k v.0
  | inr h ↦ find-Stored n t m (cc (if_false (some u) (Map.find n m) h, e)) v.1
]

abbrev or_new : Option Topic → Topic
or_new none = new_topic
or_new (some t) = t

pub found-IsTagged :
    (n : Name) (m : Map Name Topic) → Stored m → All IsTagged (find_or_create_topic n m).d
unfolding find_or_create_topic Map.at
found-IsTagged n m v = by_find (Map.find n m) refl
  where
    by_find : (o : Option Topic) → Map.find n m ≡ o → All IsTagged (or_new o).d
    by_find none e = tt
    by_find (some t) e = find-Stored n t m e v

pub enter-Stored : (n : Name) (m : Map Name Topic) → Stored m → Stored (Map.enter new_topic n m)
unfolding Map.enter
enter-Stored n m v = by_find (Map.find n m)
  where
    by_find : (o : Option Topic) → Stored (elim o [ none ↦ Map.insert n new_topic m | some t ↦ m ])
    by_find none = insert-Stored n new_topic m tt v
    by_find (some t) = v

pub add-IsTagged :
    (q : Datum) (t : Topic) → IsTagged (copy q) → All IsTagged t.d → All IsTagged (add q t).d
unfolding add
add-IsTagged q t h v = All-append IsTagged t.d (copy q ∷ []) v (h, tt)

pub add_names-IsTagged :
    (ns : List Name) (t : Topic) → All IsTagged t.d → All IsTagged (add_names ns t).d
unfolding add_names of_string copy
add_names-IsTagged [] t h = h
add_names-IsTagged (n ∷ ns) t h =
    add_names-IsTagged ns (add (of_string n) t) (add-IsTagged (of_string n) t tt h)

pub basesend-Avoids :
    (fd : ℕ) (p : List ℕ) (net : Net) → Avoids bad_data Whatever (basesend fd p net)
unfolding basesend Send.send_loop
basesend-Avoids fd p net = tried tries net
  where
    tried : (n : ℕ) (net : Net) → Avoids bad_data Whatever (Send.send_loop n fd p net)
    tried zero net = λ h. cc h
    tried (suc n) net = elim (Bool-cases (attempt fd p net).0) [
      | inl e ↦ subst (Avoids bad_data Whatever) (sym (if_true _ _ e)) tt
      | inr e ↦
          subst (Avoids bad_data Whatever) (sym (if_false _ _ e)) (tried n (attempt fd p net).1)
    ]

send_loop-Avoids :
    (fds p : List ℕ) (s : Server)
    → IsTaggedServer s
    → Avoids bad_data IsTaggedServer (Server.send_loop fds p s)
unfolding Server.send_loop
send_loop-Avoids [] p s v = v
send_loop-Avoids (fd ∷ fds) p s v =
    Avoids-any bad_data IsTaggedServer (basesend fd p s.net) _ (basesend-Avoids fd p s.net)
      λ net. send_loop-Avoids fds p (record s { net = net; msgssent = s.msgssent + 1 }) v

pub send_to_subscribers-Avoids :
    (name : Name) (p : List ℕ) (s : Server)
    → IsTaggedServer s
    → Avoids bad_data IsTaggedServer (send_to_subscribers name p s)
unfolding send_to_subscribers
send_to_subscribers-Avoids name p s v = send_loop-Avoids (keys (Map.at [] name s.subscribers)) p _ v

pub respond-Avoids :
    (p : List ℕ) (s : Server) → IsTaggedServer s → Avoids bad_data IsTaggedServer (respond p s)
unfolding respond respond_to
respond-Avoids p s v = by_client s.cur_client
  where
    by_client : (o : Option ℕ) → Avoids bad_data IsTaggedServer (respond_to o p s)
    by_client none = λ h. cc h
    by_client (some fd) =
        Avoids-any bad_data IsTaggedServer (basesend fd p s.net) _ (basesend-Avoids fd p s.net)
          λ net. v
