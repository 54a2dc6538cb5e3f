-- ===== src/Journey/Late.antt =====
-- A client that subscribes to a topic that is already there: client.cpp, tcp.h and server.cpp.
pub mod Tests
use diamond_apparatus.Base.{
  ℕ, ◌+◌, ◌^◌, ◌≤◌, ◌<◌, ◌≡◌, ◌≢◌, refl, ap, sym, subst, ◌∙◌, true, false, some, List, [], ◌∷◌,
  ◌++◌, arith, length, length-append, length-drop, drop, append-nil, if◌then◌else◌,
}
use diamond_apparatus.Base.Int.{ℤ}
use diamond_apparatus.Base.Order.{nat_ord, bytes_ord}
use diamond_apparatus.Base.Result.{ok, ◌>>=◌}
use diamond_apparatus.Base.Bytes.{htonl, length-htonl, IsText, IsWord}
use diamond_apparatus.Map
use diamond_apparatus.Map.{same}
use diamond_apparatus.Map.Laws.{find-insert, find-insert_self, same_of_ne, same_refl}
use diamond_apparatus.Map.Sorted.{IsSorted}
use diamond_apparatus.Map.Multi.{member, member-join}
use diamond_apparatus.Topic.{Datum, Topic, new_topic, get_waitany}
use diamond_apparatus.Topic.Message.{Allocator, max_name}
use diamond_apparatus.Topic.Message.Encode.{encode, length-encode, IsTagged-of_well_formed}
use diamond_apparatus.Tcp.Send.Frames.{frame, stream, sent_frame}
use diamond_apparatus.Tcp.Receive.{TcpReceiver, Event, bytes_of}
use diamond_apparatus.Tcp.Receive.Chunks.{IsFlowing}
use diamond_apparatus.Tcp.Receive.Phases.{IsIdle}
use diamond_apparatus.Messages.{sc_notify, cs_subscribe, str_msg_size}
use diamond_apparatus.Server
use diamond_apparatus.Server.{Name, Platform, Server, ClientInServer, stats_name}
use diamond_apparatus.Server.Process
use diamond_apparatus.Server.Loop.{Ready, serve_ready, keep_receiver, no_client}
use diamond_apparatus.Server.Refinement.{getfd-ok}
use diamond_apparatus.Server.Delivery.{IsPublication, delivered, subscribe_present}
use diamond_apparatus.Server.Returns.{
  received, new_stats, stats_published, rebuild_stats_topic_complete,
}
use diamond_apparatus.Server.Streams.{
  stream-delivered, stream-stats_published, stream-sent, serve_packet,
}
use diamond_apparatus.Client
use diamond_apparatus.Client.{Client, enter_topic}
use diamond_apparatus.Client.Get
use diamond_apparatus.Client.Get.{Phase, until_data, waiting}
use diamond_apparatus.Client.Wire.{subscription, subscribe_received}
use diamond_apparatus.Linkage.Exchange.{get_waits}
use diamond_apparatus.Journey.{Hears, hears}

length-subscription :
    (a : Allocator) (n : Name)
    → length n < str_msg_size
    → (0 < length (subscription a n)) × (length (subscription a n) < 2 ^ 31)
length-subscription a n short = omega (
  arith,
  length-append (htonl cs_subscribe) (n ++ 0 ∷ drop (length n + 1) (a.malloc str_msg_size)),
  length-append n (0 ∷ drop (length n + 1) (a.malloc str_msg_size)),
  length-drop (length n + 1) (a.malloc str_msg_size),
  a.length-malloc str_msg_size,
  length-htonl cs_subscribe,
)

-- The client behind subscribe(), and when it waits.
abbrev pub subscribed : Allocator → Name → Client → Client
subscribed a n c = record (enter_topic n c) { net = sent_frame c.fd (subscription a n) c.net }

abbrev pub expecting : Allocator → Name → Client → Client
expecting a n c = record (subscribed a n c) { waittopic = some n }

module _ (pf : Platform) (a : Allocator) (n : Name) (t : Topic) (v : IsPublication n t.d) where
  -- The server behind the subscription of a client.
  abbrev entered : ℕ → ℕ → Server → Server
  entered now fd s =
      let u = stats_published pf now (received (record s { cur_client = some fd })) in
      record u {
        subscribers = Map.insert n (Map.insert fd tt (Map.at [] n u.subscribers)) u.subscribers;
        subtopics = Map.insert fd (Map.insert n tt (Map.at [] fd u.subtopics)) u.subtopics;
      }

  process-subscription :
      (now fd : ℕ) (s : Server)
      → s.net.script ≡ []
      → n ≢ stats_name
      → Map.find n s.topics ≡ some t
      → length (encode sc_notify n t.d) < 2 ^ 31
      → (c : Client) → c.net.script ≡ []
      → Process.process pf now (subscription a n) (record s { cur_client = some fd })
        ≡ ok (delivered (fd ∷ []) (encode sc_notify n t.d) (entered now fd s))
  process-subscription now fd s quiet other there small c e =
      let cur : Server = record s { cur_client = some fd } in
      (subscribe_received a n c v.text (omega (arith, v.short)) e).1 pf now cur
      ∙ rw
          (
            rebuild_stats_topic_complete pf now (received cur) quiet,
            getfd-ok fd (stats_published pf now (received cur)) refl,
          )
          (subscribe_present pf fd n t (stats_published pf now (received cur)) quiet refl still
            v.short (IsTagged-of_well_formed t.d v.items) small)
    where
      still :
          Map.find n (stats_published pf now (received (record s { cur_client = some fd }))).topics
          ≡ some t
      still =
          let apart : same n stats_name ≡ false = same_of_ne n stats_name other in
          ground (
            arith,
            find-insert n stats_name
                (new_stats pf now (received (record s { cur_client = some fd }))) s.topics,
          )

  -- Behind the turn.
  abbrev joined : ℕ → ℕ → TcpReceiver → Server → Server
  joined now fd r s =
      no_client
        (keep_receiver fd r (delivered (fd ∷ []) (encode sc_notify n t.d) (entered now fd s)))

  stream-joined :
      (now fd : ℕ) (r : TcpReceiver) (s : Server)
      → IsSorted (Map.at [] stats_name s.subscribers)
      → member stats_name fd s.subscribers ≡ false
      → stream fd (joined now fd r s).net.out
        ≡ stream fd s.net.out ++ frame (encode sc_notify n t.d)
  unfolding keep_receiver Map.has Map.find
  stream-joined now fd r s sorted untold =
      stream-delivered fd ((fd, tt) ∷ []) (encode sc_notify n t.d) (entered now fd s) (tt, tt)
      ∙ rw
          (
            same_refl fd,
            stream-stats_published pf fd now (received (record s { cur_client = some fd })) sorted
                untold,
          )
          refl

  member-joined :
      (now fd : ℕ) (r : TcpReceiver) (s : Server)
      → member n fd (joined now fd r s).subscribers ≡ true
  unfolding keep_receiver
  member-joined now fd r s =
      member-join n n fd fd
        (stats_published pf now (received (record s { cur_client = some fd }))).subscribers
      ∙ rw (same_refl n, same_refl fd) refl

  -- A program subscribes to a topic that is there, its name a C string of at most 128 bytes and not
  -- "stats", its items well formed and their packet of fewer than 2^31 bytes, while every write is
  -- complete, and then calls get(), which may wait. The server's reads of its descriptor, in any
  -- pieces, have the packet of the subscription behind its size, and the program's reads the
  -- notification behind its size; it was not subscribed to "stats"; both receivers stand between
  -- two packets. Then subscribe() returns, and has put on its stream just what the server reads;
  -- the server's turn for the descriptor returns, the client is subscribed from then on, and its
  -- stream has grown by just what the program reads; get() waits, and then returns the items that
  -- were there, as new, with the time of their arrival.
  pub subscribe_reaches_get :
      (c : Client)
      → c.running ≡ true
      → c.net.script ≡ []
      → (e : Ready) (k : ClientInServer) (s : Server) → s.net.script ≡ []
      → e.fd ≢ s.listenfd
      → Map.find e.fd s.clients ≡ some k
      → k.fd ≡ e.fd
      → IsIdle k.r
      → n ≢ stats_name
      → Map.find n s.topics ≡ some t
      → length (encode sc_notify n t.d) < 2 ^ 31
      → IsSorted (Map.at [] stats_name s.subscribers)
      → member stats_name e.fd s.subscribers ≡ false
      → IsFlowing e.events
      → bytes_of e.events ≡ frame (subscription a n)
      → (now : ℤ) (r : TcpReceiver) (events : List Event) → IsIdle r
      → IsFlowing events
      → bytes_of events ≡ frame (encode sc_notify n t.d)
      → ((Client.subscribe a n c ≡ ok (subscribed a n c))
          × (stream c.fd (subscribed a n c).net.out ≡ stream c.fd c.net.out ++ bytes_of e.events))
        × ((s' : Server) × (serve_ready pf e s ≡ ok s')
            × (member n e.fd s'.subscribers ≡ true)
            × (stream e.fd s'.net.out ≡ stream e.fd s.net.out ++ bytes_of events))
        × (Get.get n get_waitany (subscribed a n c)
            ≡ ok (waiting until_data c.next n, expecting a n c))
        × Hears pf n t.d v now until_data c.next r events (expecting a n c)
  unfolding enter_topic
  subscribe_reaches_get c running quietC e k s quiet apart found own idleS other there small sorted
        untold flowsS sentS now r events idle flows sent =
      let (pos, size) = length-subscription a n (omega (arith, v.short)) in
      let processed = process-subscription e.now e.fd s quiet other there small c quietC in
      let (rS, served, idle_after) =
        serve_packet pf (subscription a n) e k s pos (omega (arith, size)) apart found idleS flowsS
          sentS
          (subst
            (λ fd.
              Process.process pf e.now (subscription a n) (record s { cur_client = some fd })
              ≡ ok (delivered (e.fd ∷ []) (encode sc_notify n t.d) (entered e.now e.fd s)))
            (sym own) processed) in
      (
        (
          (subscribe_received a n c v.text (omega (arith, v.short)) quietC).0,
          rw sentS (stream-sent c.fd (subscription a n) c.net),
        ),
        (
          joined e.now e.fd rS s,
          served,
          member-joined e.now e.fd rS s,
          rw sent (stream-joined e.now e.fd rS s sorted untold),
        ),
        get_waits n c.next new_topic (subscribed a n c) running (find-insert_self n c.next c.topics)
            (find-insert_self c.next new_topic c.heap) refl,
        hears pf n t.d v now until_data c.next new_topic r events (expecting a n c) idle flows sent
            small running refl (find-insert_self n c.next c.topics)
            (find-insert_self c.next new_topic c.heap),
      )
