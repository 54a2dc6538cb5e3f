-- ===== src/Journey/Tests.antt =====
-- A publication of "foo" on its way from a client through a server to another client.
use diamond_apparatus.Base.{
  ℕ, ◌≡◌, ◌++◌, refl, true, false, Option, none, some, List, [], ◌∷◌, arith, append-nil, Bool,
  if◌then◌else◌,
}
use diamond_apparatus.Base.Int.{pos}
use diamond_apparatus.Base.Order.{nat_ord, bytes_ord, compare_bytes}
use diamond_apparatus.Base.Result.{ok}
use diamond_apparatus.Base.Bytes.{htonl}
use diamond_apparatus.Map
use diamond_apparatus.Map.{Set, same}
use diamond_apparatus.Map.Sorted.{IsSorted}
use diamond_apparatus.Map.Multi.{member}
use diamond_apparatus.Topic.{Topic, new_topic}
use diamond_apparatus.Topic.Message.Encode.{encode}
use diamond_apparatus.Topic.Tests.{filling}
use diamond_apparatus.Tcp.Send.Frames.{frame, stream}
use diamond_apparatus.Tcp.Receive.{Event, chunk, new_receiver}
use diamond_apparatus.Messages.{cs_publish, sc_notify}
use diamond_apparatus.Server.{Server, Name, stats_name}
use diamond_apparatus.Server.Loop.{Ready, serve_ready, serve_all}
use diamond_apparatus.Server.Tests.{
  idle, busy, client_of, machine, foo_topic, foo, foo_found, one_item, foo-IsPublication,
  foo-not_stats,
}
use diamond_apparatus.Client
use diamond_apparatus.Client.{Client}
use diamond_apparatus.Client.Get.{until_data}
use diamond_apparatus.Client.Tests.{eager, foo_known}
use diamond_apparatus.Client.Thread.Stream.{frames}
use diamond_apparatus.Journey.Order.{IsBetween, Carries, serve_all-frames}
use diamond_apparatus.Journey.{Hears, publish_reaches_get}

abbrev item_topic : Topic
item_topic = record new_topic { d = one_item }

abbrev arrival : Ready
arrival = record {
  fd = 4;
  accepted = none;
  events = chunk (frame (encode cs_publish foo one_item)) ∷ [];
  now = 9;
}

abbrev news_events : List Event
news_events = chunk (frame (encode sc_notify foo one_item)) ∷ []

abbrev subscribers_if : Bool → Option (Set ℕ)
subscribers_if b = if b then some ((4, tt) ∷ (5, tt) ∷ []) else none

abbrev set_or_empty : Option (Set ℕ) → Set ℕ
set_or_empty none = []
set_or_empty (some fds) = fds

pair-IsSorted : (b : Bool) → IsSorted (set_or_empty (subscribers_if b))
pair-IsSorted true = ((refl, tt), (tt, tt))
pair-IsSorted false = tt

busy-IsSorted : (m : Name) → IsSorted (Map.at [] m busy.subscribers)
unfolding Map.at Map.find
busy-IsSorted m = pair-IsSorted (same m foo)

five_subscribed : member foo 5 busy.subscribers ≡ true
unfolding member Map.has Map.at Map.find compare_bytes
five_subscribed = refl

untold : member stats_name 5 busy.subscribers ≡ false
unfolding member Map.has Map.at Map.find compare_bytes
untold = refl

eager-found : Map.find 0 eager.heap ≡ some new_topic
unfolding Map.find
eager-found = refl

publish_reaches_get_example :
    ((c : Client) × (Client.publish filling foo item_topic eager ≡ ok c)
      × (stream 6 c.net.out ≡ stream 6 [] ++ frame (encode cs_publish foo one_item)))
    × ((s : Server) × (serve_ready machine arrival busy ≡ ok s)
        × (stream 5 s.net.out ≡ stream 5 [] ++ frame (encode sc_notify foo one_item)))
    × Hears machine foo one_item foo-IsPublication
        (pos 5)
        until_data
        0
        new_receiver
        news_events
        eager
unfolding Map.find htonl
publish_reaches_get_example =
    publish_reaches_get machine foo one_item foo-IsPublication filling item_topic eager refl
      (omega arith) refl arrival (client_of 4) foo_topic busy refl (λ h. omega (arith, h)) refl idle
      foo-not_stats foo_found busy-IsSorted tt refl 5 five_subscribed untold (pos 5) until_data 0
      new_topic new_receiver news_events eager idle tt refl refl refl foo_known eager-found

abbrev publishes_hi : ℕ → Ready
publishes_hi now = record arrival { now = now }

busy-IsBetween : IsBetween foo 4 5 busy
unfolding Map.find
busy-IsBetween = record {
  quiet = refl;
  apart = λ h. omega (arith, h);
  k = client_of 4;
  found = refl;
  idle = idle;
  t = foo_topic;
  there = foo_found;
  sorted = busy-IsSorted;
  told = five_subscribed;
  untold = untold;
}

publishes_hi-Carries : (now : ℕ) → Carries foo 4 (publishes_hi now) one_item
publishes_hi-Carries now = record {
  fd = refl;
  publication = foo-IsPublication;
  small = unfold htonl in omega arith;
  flows = unfold htonl in tt;
  bytes = append-nil (frame (encode cs_publish foo one_item));
}

serve_all-frames_example :
    (s : Server) × (serve_all machine (publishes_hi 1 ∷ publishes_hi 2 ∷ []) busy ≡ ok s)
    × (stream 5 s.net.out
        ≡ stream 5 []
          ++ frames (encode sc_notify foo one_item ∷ encode sc_notify foo one_item ∷ []))
serve_all-frames_example =
    serve_all-frames machine foo foo-not_stats 5 4 (publishes_hi 1 ∷ publishes_hi 2 ∷ [])
      (one_item ∷ one_item ∷ []) busy busy-IsBetween
      (publishes_hi-Carries 1, (publishes_hi-Carries 2, tt))
