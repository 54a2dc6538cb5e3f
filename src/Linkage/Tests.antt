-- ===== src/Linkage/Tests.antt =====
-- Programs in C that exchange one topic.
use diamond_apparatus.Base.{ℕ, ◌≡◌, refl, ap, true, false, none, some, arith}
use diamond_apparatus.Base.Int.{pos}
use diamond_apparatus.Base.Result.{Result, ok, throws, fault, ◌>>=◌, set_reuse_failed}
use diamond_apparatus.Base.Bytes.{htonl}
use diamond_apparatus.Topic.{Topic, new_topic, get_waitany, topic_changed}
use diamond_apparatus.Topic.Message.Encode.{encode}
use diamond_apparatus.Topic.Tests.{filling}
use diamond_apparatus.Tcp.Send.Frames.{sent_frame}
use diamond_apparatus.Messages.{cs_publish, sc_notify}
use diamond_apparatus.Client.{Client, Name, process}
use diamond_apparatus.Client.Get.{Phase, Get, done, wake}
use diamond_apparatus.Client.Library.{Library, Attempt, Dial, client_library}
use diamond_apparatus.Client.Tests.{foo, one_item, foo-IsPublication, eager, foo_known, foo_found}
use diamond_apparatus.Linkage.{Linkage, cleared, publish, get, newtopic}
use diamond_apparatus.Linkage.Exchange.{add_items, Fetches, IsWoken, exchanged}

abbrev pub dial : Dial
dial = record { socket = some 6; hostname = true; connected = true; reusable = true }

abbrev resumed : Client → Result (Get × Client) → Attempt Topic Client
resumed c (ok (done t, d)) = (ok t, d)
resumed c r = (fault, c)

-- A wait that ends with the notification.
abbrev pub notified : Phase → ℕ → Name → Client → Attempt Topic Client
notified phase cell n c =
    resumed c (process (pos 5) (encode sc_notify foo one_item) c >>= wake phase cell n)

pub notified-IsWoken : IsWoken notified (pos 5) (encode sc_notify foo one_item)
notified-IsWoken phase cell n c d t e = ap (resumed c) e

abbrev pub lib : Library Client
lib = client_library filling dial (λ c. c) (λ c. c) (throws set_reuse_failed) notified

abbrev pub program : Linkage Client
program = record {
  world = eager;
  exception = none;
  inerror = false;
  topic_to_publish = new_topic;
  topic_to_access = new_topic;
}

exchanged_example :
    (publish lib foo (add_items one_item (newtopic program))
      ≡ ok (
        pos 0,
        cleared
            (record eager { net = sent_frame 6 (encode cs_publish foo one_item) eager.net })
            (add_items one_item (newtopic program)),
      ))
    × ((m : Linkage Client) × (get lib foo get_waitany program ≡ ok (pos topic_changed, m))
        × Fetches one_item m)
exchanged_example =
    exchanged filling dial (λ c. c) (λ c. c) (throws set_reuse_failed) notified foo one_item program
      program (pos 5) 0 new_topic foo-IsPublication (unfold htonl in omega arith) refl refl
      notified-IsWoken refl foo_known foo_found refl
