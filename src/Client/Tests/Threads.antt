-- ===== src/Client/Tests/Threads.antt =====
-- Runs of the client's threads: two packets in one read, and a get() that waits behind
-- subscribe(), or races against the end of the client's thread.
use diamond_apparatus.Base.{ℕ, ◌≡◌, refl, ap, true, some, List, [], ◌∷◌, ◌++◌, arith}
use diamond_apparatus.Base.Int.{ℤ, pos}
use diamond_apparatus.Base.Order.{nat_ord, bytes_ord, compare_bytes}
use diamond_apparatus.Base.Result.{Result, ok, fault, ◌>>=◌}
use diamond_apparatus.Base.Bytes.{htonl}
use diamond_apparatus.Map
use diamond_apparatus.Topic.{get_waitany}
use diamond_apparatus.Topic.Message.Encode.{encode}
use diamond_apparatus.Topic.Tests.{filling}
use diamond_apparatus.Tcp.Send.Frames.{sent_frame}
use diamond_apparatus.Tcp.Receive.{Event, chunk, new_receiver}
use diamond_apparatus.Messages.{sc_notify, sc_killclient}
use diamond_apparatus.Client.{Client, enter_topic}
use diamond_apparatus.Client.Interface
use diamond_apparatus.Client.Get.{until_data}
use diamond_apparatus.Client.Wire.{subscription, subscribe_received}
use diamond_apparatus.Client.Thread.{threadfunc, stopped}
use diamond_apparatus.Client.Thread.Stream.{frames, receive_all, threadfunc-receive_all}
use diamond_apparatus.Client.Thread.Ends.{threadfunc_ends}
use diamond_apparatus.Client.Races.{
  System, started, subscribes, gets, User, idle, enters, asleep, returns, body, resume, resumed,
  calls, resumes, Reached, here, after,
}
use diamond_apparatus.Client.Races.Window.{resume-deleted}
use diamond_apparatus.Client.Tests

abbrev clock : ℕ → ℤ
clock k = pos k

abbrev packets : List (List ℕ)
packets = encode sc_notify Tests.foo Tests.one_item ∷ htonl sc_killclient ∷ []

abbrev at_once : List Event
at_once = chunk (frames packets) ∷ []

at_once-bytes : frames packets ++ [] ≡ frames packets
unfolding htonl
at_once-bytes = refl

threadfunc-receive_all_example :
    threadfunc clock new_receiver at_once Tests.eager
    ≡ some (receive_all clock 0 packets Tests.eager >>= λ c. ok (stopped c))
threadfunc-receive_all_example =
    threadfunc-receive_all clock packets new_receiver at_once Tests.eager
      (unfold htonl in omega arith)
      (record { empty = refl; no_size = refl; no_buffer = refl; unforced = refl })
      (unfold htonl in tt) at_once-bytes

threadfunc_ends_example :
    (x : Result Client) × (threadfunc clock new_receiver at_once Tests.eager ≡ some x)
threadfunc_ends_example = threadfunc_ends clock new_receiver at_once Tests.eager

abbrev s0 : System
s0 = started 6 Tests.eager.net

-- subscribe() of one thread.
abbrev s1 : System
s1 = resumed 0 (enters (subscribes Tests.foo), s0.client) s0

abbrev subscribed : Client
subscribed = record (enter_topic Tests.foo s0.client) {
  net = sent_frame 6 (subscription filling Tests.foo) s0.client.net;
}

s1-subscribed : resume filling (s1.users 0) s1 ≡ ok (idle, subscribed)
unfolding resume body Interface.subscribe
s1-subscribed =
    ap (λ r. r >>= returns)
      (subscribe_received filling Tests.foo s0.client (omega arith) (omega arith) refl).0

abbrev s2 : System
s2 = resumed 0 (idle, subscribed) s1

s2-Reached : Reached filling s0 s2
s2-Reached = after (after here (calls 0 (subscribes Tests.foo) refl refl)) (resumes 0 s1-subscribed)

-- Its get(), which comes to wait.
abbrev s3 : System
s3 = resumed 0 (enters (gets Tests.foo get_waitany), s2.client) s2

abbrev sleeps : User × Client
sleeps = (asleep until_data 0 Tests.foo, record subscribed { waittopic = some Tests.foo })

subscribed-foo : Map.find Tests.foo subscribed.topics ≡ some 0
unfolding Map.find Map.insert enter_topic compare_bytes
subscribed-foo = refl

resume-deleted_example :
    (t : System) × (Reached filling s0 t)
    × (t.client.running ≡ true)
    × (t.users 0 ≡ enters (gets Tests.foo get_waitany))
    × (resume filling (t.users 0) t ≡ fault)
unfolding enter_topic
resume-deleted_example =
    resume-deleted filling s0 s2 0 Tests.foo get_waitany 0 s2-Reached refl refl refl subscribed-foo
      refl
