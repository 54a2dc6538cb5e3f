-- ===== src/Client/Tests.antt =====
-- Runs of the client with one topic, for which a get() waits, and of a program with two users.
pub mod Threads
pub mod Locks
use diamond_apparatus.Base.{
  ℕ, ◌+◌, ◌-◌, ◌&&◌, ◌≡◌, refl, true, false, none, some, List, [], ◌∷◌, arith, if◌then◌else◌, ◌==◌,
}
use diamond_apparatus.Base.Int.{pos}
use diamond_apparatus.Base.Text.{codes}
use diamond_apparatus.Base.Order.{nat_ord, bytes_ord, compare_bytes}
use diamond_apparatus.Base.Result.{ok, throws, not_connected, ◌>>=◌, Ensures}
use diamond_apparatus.Base.Bytes.{htonl}
use diamond_apparatus.Map
use diamond_apparatus.Topic.{Datum, str, new_topic, topic_unchanged, topic_notconnected}
use diamond_apparatus.Topic.Message.Encode.{encode}
use diamond_apparatus.Topic.Tests.{filling}
use diamond_apparatus.Tcp.Send.{other}
use diamond_apparatus.Tcp.Socket.{setsock}
use diamond_apparatus.Tcp.Send.Frames.{sent_frame}
use diamond_apparatus.Messages.{cs_publish, sc_notify, sc_killclient}
use diamond_apparatus.Server
use diamond_apparatus.Server.{Platform, Server, getfd, rebuild_stats_topic}
use diamond_apparatus.Server.Process
use diamond_apparatus.Server.Delivery.{IsPublication}
use diamond_apparatus.Client
use diamond_apparatus.Client.{Client, Name, process, enter_topic}
use diamond_apparatus.Client.Interface
use diamond_apparatus.Client.Library.{Dial, connect_client}
use diamond_apparatus.Client.Users.{inits, destroys, inits-destroys}
use diamond_apparatus.Client.Get.{
  until_data, until_changed, done, waiting, only_state, stalls, wake,
}
use diamond_apparatus.Client.Waiting.{
  IsAnswer, wake-IsAnswer, news, wake_notified, wake_killed, wake_resubscribed,
}
use diamond_apparatus.Client.Wire.{subscription, subscribe_received, publish_sent}

abbrev pub foo : Name
foo = codes "foo"

abbrev pub one_item : List Datum
one_item = str (codes "hi") ∷ []

pub foo-IsPublication : IsPublication foo one_item
foo-IsPublication = record {
  text = omega arith;
  short = omega arith;
  count = omega arith;
  items = omega arith;
}

abbrev pub eager : Client
eager = record {
  fd = 6;
  topics = (foo, 0) ∷ [];
  heap = (0, new_topic) ∷ [];
  next = 1;
  running = true;
  waittopic = some foo;
  signals = 0;
  init_count = 2;
  synced = true;
  net = record { script = []; errno = other; out = [] };
}

abbrev ended : Client
ended = record eager { running = false }

pub foo_known : Map.find foo eager.topics ≡ some 0
unfolding Map.find compare_bytes
foo_known = refl

pub foo_found : Map.find 0 eager.heap ≡ some new_topic
unfolding Map.find
foo_found = refl

wake_notified_example :
    (process (pos 5) (encode sc_notify foo one_item) eager >>= wake until_data 0 foo)
    ≡ ok (
      done (news one_item (pos 5)),
      record eager {
        heap =
            Map.insert 0
              (record (news one_item (pos 5)) { state = topic_unchanged })
              (Map.insert 0 (news one_item (pos 5)) eager.heap);
        waittopic = none;
        signals = 0 + 1;
      },
    )
wake_notified_example =
    wake_notified foo one_item foo-IsPublication (pos 5) until_data 0 new_topic eager refl refl
      foo_known foo_found

wake-IsAnswer_example : Ensures (λ x. IsAnswer until_changed x.0) (wake until_changed 0 foo eager)
wake-IsAnswer_example = wake-IsAnswer until_changed 0 foo eager

new_topic-stalls : stalls until_data new_topic ≡ true
unfolding stalls
new_topic-stalls = refl

wake_resubscribed_example :
    (process (pos 5) (encode sc_notify foo one_item) (enter_topic foo eager)
      >>= wake until_data 0 foo)
    ≡ ok (
      waiting until_data 0 foo,
      record (enter_topic foo eager) {
        heap = Map.insert 1 (news one_item (pos 5)) (enter_topic foo eager).heap;
        waittopic = some foo;
        signals = 0 + 1;
      },
    )
wake_resubscribed_example =
    wake_resubscribed foo one_item foo-IsPublication (pos 5) until_data 0 new_topic eager refl refl
      foo_found (omega arith) new_topic-stalls

-- A program with two users.
abbrev dial : Dial
dial = record { socket = some 6; hostname = true; connected = true; reusable = true }

abbrev unused : Client
unused = record eager { running = false; init_count = 0 }

dialled : connect_client dial ≡ ok 6
unfolding connect_client setsock
dialled = refl

inits-destroys_example :
    (d : Client) × (inits (dial ∷ dial ∷ []) unused ≡ ok d)
    × (d.running ≡ true)
    × ((destroys 2 d).init_count ≡ 1 - 1)
    × ((destroys 2 d).running ≡ (1 == 0))
    × ((destroys 2 d).synced ≡ (1 == 0 && true))
inits-destroys_example = inits-destroys dial 6 (dial ∷ []) unused 1 dialled refl (omega arith)
