-- ===== src/Journey.antt =====
-- A publication on its way from one program through the server to another (client.cpp, tcp.h,
-- server.cpp).
pub mod Order
pub mod Late
pub mod Tests
use diamond_apparatus.Base.{
  ℕ, ◌+◌, ◌^◌, ◌<◌, ◌≡◌, ◌≢◌, refl, ap, sym, subst, ◌∙◌, Bool, true, false, Option, none, some,
  List, [], ◌∷◌, ◌++◌, arith, length, append_assoc, append-nil, ◌==◌, if◌then◌else◌,
}
use diamond_apparatus.Base.Int.{ℤ}
use diamond_apparatus.Base.Order.{nat_ord, bytes_ord}
use diamond_apparatus.Base.Result.{ok, or_fault, ◌>>=◌}
use diamond_apparatus.Base.Bytes.{htonl}
use diamond_apparatus.Map
use diamond_apparatus.Map.{Set, keys, same}
use diamond_apparatus.Map.Sorted.{IsSorted, Above, find-Above}
use diamond_apparatus.Map.Multi.{member, at-enter}
use diamond_apparatus.Topic.{Datum, Topic, topic_unchanged}
use diamond_apparatus.Topic.Message.{Allocator}
use diamond_apparatus.Topic.Message.Encode.{encode, length-encode}
use diamond_apparatus.Tcp.Send.Frames.{frame, stream, stream-append, sent_frame}
use diamond_apparatus.Tcp.Receive.{TcpReceiver, Event, Update, update, bytes_of}
use diamond_apparatus.Tcp.Receive.Chunks.{IsFlowing}
use diamond_apparatus.Tcp.Receive.Phases.{IsIdle}
use diamond_apparatus.Tcp.Receive.Reassembly.{Delivers, update-Delivers}
use diamond_apparatus.Messages.{cs_publish, sc_notify}
use diamond_apparatus.Server.{Name, Platform, Server, ClientInServer, stats_name}
use diamond_apparatus.Server.Loop.{
  Ready, serve_ready, serve_client, after_update, process_packet, keep_receiver, no_client,
}
use diamond_apparatus.Server.Streams.{
  stream-delivered, stream-stats_published, stream-sent, serve_packet,
}
use diamond_apparatus.Server.Delivery.{IsPublication, deliveries, delivered, published}
use diamond_apparatus.Server.Returns.{received, stats_published, process_complete, new_stats}
use diamond_apparatus.Client
use diamond_apparatus.Client.Thread
use diamond_apparatus.Map.Laws.{same_refl}
use diamond_apparatus.Tcp.Send.{Net}
use diamond_apparatus.Client.{Client}
use diamond_apparatus.Client.Get.{Phase, Get, done, wake}
use diamond_apparatus.Client.Waiting.{news, wake_notified}
use diamond_apparatus.Client.Wire.{publish_sent}

encode-pos : (type : ℕ) (n : Name) (d : List Datum) → 0 < length (encode type n d)
encode-pos type n d = omega (arith, length-encode type n d)

module _ (pf : Platform) (n : Name) (d : List Datum) (v : IsPublication n d) where
  -- The server behind the publication of a client.
  abbrev pub behind : ℕ → ClientInServer → Topic → Server → Server
  behind now k t s =
      published n d t (stats_published pf now (received (record s { cur_client = some k.fd })))

  -- A descriptor of a client whose bytes, in any pieces, are a publication.
  pub serve_publication :
      (e : Ready) (k : ClientInServer) (t : Topic) (s : Server)
      → s.net.script ≡ []
      → e.fd ≢ s.listenfd
      → Map.find e.fd s.clients ≡ some k
      → IsIdle k.r
      → n ≢ stats_name
      → Map.find n s.topics ≡ some t
      → IsFlowing e.events
      → bytes_of e.events ≡ frame (encode cs_publish n d)
      → length (encode cs_publish n d) < 2 ^ 31
      → (r : TcpReceiver) × (serve_ready pf e s
          ≡ ok (no_client (keep_receiver e.fd r (behind e.now k t s))))
        × IsIdle r
  serve_publication e k t s quiet apart found idle other there flows sent small =
      serve_packet pf (encode cs_publish n d) e k s (encode-pos cs_publish n d) (omega arith) apart
        found idle flows sent
        (process_complete pf e.now n d t (record s { cur_client = some k.fd }) v quiet other there)

  -- What this puts on the stream of a descriptor that is not told the statistics.
  pub stream-behind :
      (fd now : ℕ) (k : ClientInServer) (t : Topic) (s : Server)
      → ((m : Name) → IsSorted (Map.at [] m s.subscribers))
      → member n fd s.subscribers ≡ true
      → member stats_name fd s.subscribers ≡ false
      → stream fd (behind now k t s).net.out ≡ stream fd s.net.out ++ frame (encode sc_notify n d)
  unfolding member
  stream-behind fd now k t s sorted subscribed untold = told ∙ rw (stats_told, subscribed) refl
    where
      s' : Server
      s' = stats_published pf now (received (record s { cur_client = some k.fd }))

      same_set : Map.at [] n s'.subscribers ≡ Map.at [] n s.subscribers
      same_set = at-enter [] n stats_name s.subscribers

      told :
          stream fd (behind now k t s).net.out
          ≡ stream fd s'.net.out
            ++ (if Map.has fd (Map.at [] n s.subscribers) then frame (encode sc_notify n d) else [])
      told = rw (← same_set) (
          stream-delivered fd (Map.at [] n s'.subscribers) (encode sc_notify n d) s'
            (subst IsSorted (sym same_set) (sorted n)))

      stats_told : stream fd s'.net.out ≡ stream fd s.net.out
      stats_told =
          stream-stats_published pf fd now (received (record s { cur_client = some k.fd }))
            (sorted stats_name) untold

  -- What a get() that waits makes of the notification, in any pieces: it returns the items as new.
  abbrev pub Hears : ℤ → Phase → ℕ → TcpReceiver → List Event → Client → Type 0
  Hears now phase cell r events c =
      (u : Update) × (update r events ≡ some u)
      × ((Thread.process_packet now u.packet c >>= wake phase cell n)
          ≡ ok (
            done (news d now),
            record c {
              heap =
                  Map.insert cell (record (news d now) { state = topic_unchanged })
                    (Map.insert cell (news d now) c.heap);
              waittopic = none;
              signals = c.signals + 1;
            },
          ))

  pub hears :
      (now : ℤ) (phase : Phase) (cell : ℕ) (t : Topic) (r : TcpReceiver) (events : List Event)
      (c : Client)
      → IsIdle r
      → IsFlowing events
      → bytes_of events ≡ frame (encode sc_notify n d)
      → length (encode sc_notify n d) < 2 ^ 31
      → c.running ≡ true
      → c.waittopic ≡ some n
      → Map.find n c.topics ≡ some cell
      → Map.find cell c.heap ≡ some t
      → Hears now phase cell r events c
  unfolding Thread.process_packet
  hears now phase cell t r events c idle flows sent small running waits known found =
      let heard =
        update-Delivers (encode sc_notify n d) [] r events (encode-pos sc_notify n d) (omega arith)
          idle flows (sent ∙ sym (append-nil (frame (encode sc_notify n d)))) in
      (
        heard.u,
        heard.ends,
        rw heard.packet (wake_notified n d v now phase cell t c running waits known found),
      )

  sent_by :
      (a : Allocator) (t : Topic) (c : Client)
      → t.d ≡ d
      → length (encode cs_publish n d) < 2 ^ 31
      → c.net.script ≡ []
      → Client.publish a n t c
        ≡ ok (record c { net = sent_frame c.fd (encode cs_publish n d) c.net })
  sent_by a t c same_items small quiet =
      subst
        (λ d'.
          Client.publish a n t c
          ≡ ok (record c { net = sent_frame c.fd (encode cs_publish n d') c.net }))
        same_items
        (publish_sent a n t c (subst (IsPublication n) (sym same_items) v) (rw same_items small)
          quiet)

  same_length : length (encode sc_notify n d) ≡ length (encode cs_publish n d)
  same_length = length-encode sc_notify n d ∙ sym (length-encode cs_publish n d)

  -- A publication on its whole way, its name a C string of at most 128 bytes and not "stats", its
  -- items well formed, the packet of fewer than 2^31 bytes, and while every write is complete. One
  -- program publishes, and the reads of its descriptor in the server, in any pieces, have the
  -- packet behind its size; the name is there, and a second program is subscribed to it and not to
  -- "stats", its reads, in any pieces, have the notification behind its size, and a get() of it
  -- waits for the name; both receivers stand between two packets. Then publish() returns, and has
  -- put on its stream just the bytes that the server reads; the server's turn for that descriptor
  -- returns, and has put on the stream of the second program just the bytes that this one reads;
  -- and its get() returns the items that were published, as new, with the time of their arrival.
  pub publish_reaches_get :
      (a : Allocator) (tA : Topic) (cA : Client)
      → tA.d ≡ d
      → length (encode cs_publish n d) < 2 ^ 31
      → cA.net.script ≡ []
      → (e : Ready) (k : ClientInServer) (tS : Topic) (s : Server) → s.net.script ≡ []
      → e.fd ≢ s.listenfd
      → Map.find e.fd s.clients ≡ some k
      → IsIdle k.r
      → n ≢ stats_name
      → Map.find n s.topics ≡ some tS
      → ((m : Name) → IsSorted (Map.at [] m s.subscribers))
      → IsFlowing e.events
      → bytes_of e.events ≡ frame (encode cs_publish n d)
      → (fd : ℕ) → member n fd s.subscribers ≡ true
      → member stats_name fd s.subscribers ≡ false
      → (now : ℤ) (phase : Phase) (cell : ℕ) (tB : Topic) (r : TcpReceiver) (events : List Event)
        (cB : Client)
      → IsIdle r
      → IsFlowing events
      → bytes_of events ≡ frame (encode sc_notify n d)
      → cB.running ≡ true
      → cB.waittopic ≡ some n
      → Map.find n cB.topics ≡ some cell
      → Map.find cell cB.heap ≡ some tB
      → ((cA' : Client) × (Client.publish a n tA cA ≡ ok cA')
          × (stream cA.fd cA'.net.out ≡ stream cA.fd cA.net.out ++ bytes_of e.events))
        × ((s' : Server) × (serve_ready pf e s ≡ ok s')
            × (stream fd s'.net.out ≡ stream fd s.net.out ++ bytes_of events))
        × Hears now phase cell r events cB
  unfolding keep_receiver
  publish_reaches_get a tA cA same_items small quietA e k tS s quietS apart found idleS other there
        sorted flowsS sentS fd subscribed untold now phase cell tB r events cB idleB flowsB sentB
        running waits known foundB =
      let (rS, served, idle_after) =
        serve_publication e k tS s quietS apart found idleS other there flowsS sentS small in
      (
        (
          _,
          sent_by a tA cA same_items small quietA,
          rw sentS (stream-sent cA.fd (encode cs_publish n d) cA.net),
        ),
        (_, served, rw sentB (stream-behind fd e.now k tS s sorted subscribed untold)),
        hears now phase cell tB r events cB idleB flowsB sentB (omega (arith, small, same_length))
            running waits known foundB,
      )
