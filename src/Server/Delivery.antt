-- ===== src/Server/Delivery.antt =====
-- What the subscribers receive, while every write is complete.
use diamond_apparatus.Base.{
  ℕ, ◌+◌, ◌≤◌, ◌<◌, ◌≡◌, refl, ap, sym, ◌∙◌, Bool, true, false, none, some, List, [], ◌∷◌, ◌++◌,
  ◌^◌, arith, drop, length, All, append_assoc, append-nil, if◌then◌else◌,
}
use diamond_apparatus.Base.Order.{nat_ord, bytes_ord}
use diamond_apparatus.Base.Result.{ok}
use diamond_apparatus.Base.Bytes.{htonl, IsText, IsWord}
use diamond_apparatus.Map
use diamond_apparatus.Map.{keys}
use diamond_apparatus.Topic.{Datum, Topic, new_topic}
use diamond_apparatus.Topic.Message.{max_name, from_message, get_name_from_msg}
use diamond_apparatus.Topic.Message.Encode.{encode, length-encode, IsTagged, IsWellFormed}
use diamond_apparatus.Topic.Message.Write.{to_message-eq-encode}
use diamond_apparatus.Topic.Message.Read.{from_message-encode, get_name_from_msg-encode}
use diamond_apparatus.Tcp.Send.Frames.{basesend_complete, sent_frame}
use diamond_apparatus.Messages.{cs_publish, sc_notify}
use diamond_apparatus.Server.{
  Name, Platform, Server, respond, respond_to, send_loop, send_to_subscribers, send_present,
  subscribe, publish_topic, publish_found, publish, rebuild_topics_topic,
}

-- The writes by which each of some descriptors is sent one packet.
abbrev pub deliveries : List ℕ → List ℕ → List (ℕ × List ℕ)
deliveries [] p = []
deliveries (fd ∷ fds) p = (fd, htonl (length p)) ∷ (fd, p) ∷ deliveries fds p

-- The server when those writes are done and counted.
abbrev pub delivered : List ℕ → List ℕ → Server → Server
delivered fds p s = record s {
  net = record s.net { out = s.net.out ++ deliveries fds p };
  msgssent = s.msgssent + length fds;
}

abbrev with_sent : Server → List (ℕ × List ℕ) → ℕ → Server
with_sent s out n = record s { net = record s.net { out = out }; msgssent = n }

sent_eq :
    (s : Server) {out out' : List (ℕ × List ℕ)} {n n' : ℕ}
    → out ≡ out'
    → n ≡ n'
    → ok (with_sent s out n) ≡ ok (with_sent s out' n')
sent_eq s e f = λ i. ok (with_sent s (e i) (f i))

pub send_loop_complete :
    (fds p : List ℕ) (s : Server)
    → s.net.script ≡ []
    → 0 < length p
    → send_loop fds p s ≡ ok (delivered fds p s)
unfolding send_loop
send_loop_complete [] p s e pos = sent_eq s (sym (append-nil s.net.out)) (omega arith)
send_loop_complete (fd ∷ fds) p s e pos = rw (basesend_complete fd p s.net e pos) (
    send_loop_complete fds p (record s { net = sent_frame fd p s.net; msgssent = s.msgssent + 1 }) e
      pos
    ∙ sent_eq s (append_assoc s.net.out ((fd, htonl (length p)) ∷ (fd, p) ∷ []) (deliveries fds p))
        (omega arith))

pub send_to_subscribers_complete :
    (n : Name) (p : List ℕ) (s : Server)
    → s.net.script ≡ []
    → 0 < length p
    → send_to_subscribers n p s
      ≡ ok (
          delivered
            (keys (Map.at [] n s.subscribers))
            p
            (record s { subscribers = Map.enter [] n s.subscribers }))
unfolding send_to_subscribers
send_to_subscribers_complete n p s e pos =
    send_loop_complete (keys (Map.at [] n s.subscribers)) p
      (record s { subscribers = Map.enter [] n s.subscribers }) e pos

-- The packet of a publication is forwarded with another type, and so is the notification.
forwarded :
    (n : Name) (d : List Datum)
    → htonl sc_notify ++ drop 4 (encode cs_publish n d) ≡ encode sc_notify n d
unfolding htonl
forwarded n d = refl

-- A packet that a client's publish() makes: its name is a C string of at most 128 bytes, and its
-- items are well formed.
pub record IsPublication (n : Name) (d : List Datum) : Type 0 where
  pub text : IsText n
  pub short : length n ≤ max_name
  pub count : IsWord (length d)
  pub items : All IsWellFormed d

-- The server behind the publication of a topic: the items are stored, and every subscriber has been
-- sent the notification.
abbrev pub published : Name → List Datum → Topic → Server → Server
published n d t s = delivered (keys (Map.at [] n s.subscribers)) (encode sc_notify n d) (record s {
  topics = Map.insert n (record t { d = d }) s.topics;
  subscribers = Map.enter [] n s.subscribers;
})

encode-pos : (type : ℕ) (n : Name) (d : List Datum) → 0 < length (encode type n d)
encode-pos type n d = omega (arith, length-encode type n d)

module _ (type : ℕ) (n : Name) (d : List Datum) (v : IsPublication n d) where
  -- What fromMessage() and getNameFromMsg() read of such a packet.
  pub packet_read :
      IsWord type → (t : Topic) → from_message (encode type n d) t ≡ ok (record t { d = d })
  packet_read w t =
      sym (ap (λ p. from_message p t) (append-nil (encode type n d)))
      ∙ from_message-encode type n d [] t w v.count v.items

  pub packet_name : get_name_from_msg (encode type n d) ≡ ok n
  packet_name =
      sym (ap get_name_from_msg (append-nil (encode type n d)))
      ∙ get_name_from_msg-encode type n d [] v.text

module _ (pf : Platform) (n : Name) (d : List Datum) (v : IsPublication n d) where
  publish_topic_complete :
      (is_new : Bool) (t : Topic) (s : Server)
      → s.net.script ≡ []
      → publish_topic pf n is_new t (encode cs_publish n d) s
        ≡ (if is_new then rebuild_topics_topic pf (published n d t s) else ok (published n d t s))
  unfolding publish_topic
  publish_topic_complete is_new t s e = rw (
    packet_read cs_publish n d v (omega arith) t,
    forwarded n d,
    send_to_subscribers_complete n (encode sc_notify n d)
        (record s { topics = Map.insert n (record t { d = d }) s.topics }) e
        (encode-pos sc_notify n d),
  )

  -- publish(), while every write is complete, for the encoding of a name, a C string of at most 128
  -- bytes, and of well formed items, their number below 2^32: the items are stored under the name,
  -- and each subscriber of the name, in the order of their set, and no one else is sent the encoding
  -- of the same items as a notification; the counter grows by the number of subscribers. If the name
  -- is new, the topics topic is rebuilt behind that.
  pub publish_complete :
      (s : Server)
      → s.net.script ≡ []
      → ((t : Topic)
          → Map.find n s.topics ≡ some t
          → publish pf (encode cs_publish n d) s ≡ ok (published n d t s))
        × (Map.find n s.topics ≡ none
            → publish pf (encode cs_publish n d) s
              ≡ rebuild_topics_topic pf (published n d new_topic s))
  unfolding publish publish_found
  publish_complete s e = (
    λ t found. rw (packet_name cs_publish n d v, found) (publish_topic_complete false t s e),
    λ missing.
        rw (packet_name cs_publish n d v, missing) (publish_topic_complete true new_topic s e),
  )

-- subscribe(), while every write is complete, to a topic that is there, under a name of at most 128
-- bytes, with items of the two known types and a message of fewer than 2^31 bytes: the client is
-- entered on both sides and is sent, at once, the notification of the items that are stored, which
-- is the packet that the other subscribers got when these were published.
pub subscribe_present :
    (pf : Platform) (fd : ℕ) (n : Name) (t : Topic) (s : Server)
    → s.net.script ≡ []
    → s.cur_client ≡ some fd
    → Map.find n s.topics ≡ some t
    → length n ≤ max_name
    → All IsTagged t.d
    → length (encode sc_notify n t.d) < 2 ^ 31
    → subscribe pf fd n s
      ≡ ok (
          delivered (fd ∷ []) (encode sc_notify n t.d) (record s {
            subscribers = Map.insert n (Map.insert fd tt (Map.at [] n s.subscribers)) s.subscribers;
            subtopics = Map.insert fd (Map.insert n tt (Map.at [] fd s.subtopics)) s.subtopics;
          }))
unfolding subscribe send_present respond respond_to
subscribe_present pf fd n t s e cur found short tagged small = rw (
  found,
  to_message-eq-encode pf.allocator sc_notify n t short tagged small,
  cur,
  basesend_complete fd (encode sc_notify n t.d) s.net e (encode-pos sc_notify n t.d),
)
