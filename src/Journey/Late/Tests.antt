-- ===== src/Journey/Late/Tests.antt =====
-- A client subscribes to "foo", which holds one item.
use diamond_apparatus.Base.{◌≡◌, ◌++◌, refl, true, none, List, [], ◌∷◌, arith, append-nil}
use diamond_apparatus.Base.Int.{pos}
use diamond_apparatus.Base.Order.{nat_ord, bytes_ord, compare_bytes}
use diamond_apparatus.Base.Result.{ok}
use diamond_apparatus.Base.Bytes.{htonl}
use diamond_apparatus.Map
use diamond_apparatus.Map.Multi.{member}
use diamond_apparatus.Topic.{Topic, new_topic, get_waitany}
use diamond_apparatus.Topic.Message.Encode.{encode}
use diamond_apparatus.Topic.Tests.{filling}
use diamond_apparatus.Tcp.Send.Frames.{frame, stream}
use diamond_apparatus.Tcp.Receive.{Event, chunk, new_receiver}
use diamond_apparatus.Messages.{sc_notify}
use diamond_apparatus.Server.{Server}
use diamond_apparatus.Server.Loop.{Ready, serve_ready}
use diamond_apparatus.Server.Tests.{
  busy, client_of, machine, idle, foo, one_item, foo-IsPublication, foo-not_stats,
}
use diamond_apparatus.Client
use diamond_apparatus.Client.{Client}
use diamond_apparatus.Client.Get
use diamond_apparatus.Client.Get.{until_data, waiting}
use diamond_apparatus.Client.Tests.{eager}
use diamond_apparatus.Client.Wire.{subscription}
use diamond_apparatus.Journey.{Hears}
use diamond_apparatus.Journey.Late.{subscribed, expecting, subscribe_reaches_get}

abbrev item_topic : Topic
item_topic = record new_topic { d = one_item }

abbrev holding : Server
holding = record busy { topics = (foo, item_topic) ∷ []; subscribers = [] }

abbrev asking : Ready
asking = record {
  fd = 5;
  accepted = none;
  events = chunk (frame (subscription filling foo)) ∷ [];
  now = 3;
}

abbrev answer : List Event
answer = chunk (frame (encode sc_notify foo one_item)) ∷ []

subscribe_reaches_get_example :
    ((Client.subscribe filling foo eager ≡ ok (subscribed filling foo eager))
      × (stream 6 (subscribed filling foo eager).net.out
          ≡ stream 6 [] ++ (frame (subscription filling foo) ++ [])))
    × ((s : Server) × (serve_ready machine asking holding ≡ ok s)
        × (member foo 5 s.subscribers ≡ true)
        × (stream 5 s.net.out ≡ stream 5 [] ++ (frame (encode sc_notify foo one_item) ++ [])))
    × (Get.get foo get_waitany (subscribed filling foo eager)
        ≡ ok (waiting until_data 1 foo, expecting filling foo eager))
    × Hears machine foo one_item foo-IsPublication
        (pos 5)
        until_data
        1
        new_receiver
        answer
        (expecting filling foo eager)
unfolding Map.find Map.at member Map.has compare_bytes htonl
subscribe_reaches_get_example =
    subscribe_reaches_get machine filling foo item_topic foo-IsPublication eager refl refl asking
      (client_of 5) holding refl (λ h. omega (arith, h)) refl refl idle foo-not_stats refl
      (omega arith) tt refl tt (append-nil (frame (subscription filling foo))) (pos 5) new_receiver
      answer idle tt (append-nil (frame (encode sc_notify foo one_item)))
