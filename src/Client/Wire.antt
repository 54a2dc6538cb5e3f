-- ===== src/Client/Wire.antt =====
-- What the client's requests are on the wire, and what the server makes of them.
use diamond_apparatus.Base.{
  ℕ, ◌+◌, ◌^◌, ◌<◌, ◌≡◌, refl, List, [], ◌∷◌, ◌++◌, arith, length, drop, le→leb,
}
use diamond_apparatus.Base.Result.{ok, ◌>>=◌}
use diamond_apparatus.Base.Bytes.{htonl, ntohl-htonl, IsText, c_string-append}
use diamond_apparatus.Topic.{Topic}
use diamond_apparatus.Topic.Message.{Allocator}
use diamond_apparatus.Topic.Message.Encode.{encode, length-encode, IsTagged-of_well_formed}
use diamond_apparatus.Topic.Message.Write.{to_message-eq-encode}
use diamond_apparatus.Tcp.Send.Frames.{basesend_complete, sent_frame}
use diamond_apparatus.Messages.{cs_publish, cs_subscribe, str_msg_size}
use diamond_apparatus.Server
use diamond_apparatus.Server.{Platform, Server, getfd, rebuild_stats_topic}
use diamond_apparatus.Server.Process
use diamond_apparatus.Server.Process.{subscribe_packet, dispatch}
use diamond_apparatus.Server.Delivery.{IsPublication}
use diamond_apparatus.Client.{Client, Name, request, str_msg, enter_topic, subscribe, publish}

-- The packet of a subscription: the name with its terminator, and what stood on the stack.
abbrev pub subscription : Allocator → Name → List ℕ
subscription a n = htonl cs_subscribe ++ (n ++ 0 ∷ drop (length n + 1) (a.malloc str_msg_size))

-- subscribe(), for a C string of at most 255 bytes and while every write is complete, sends one
-- packet, which the server's process(), when it has rebuilt its statistics, takes for a subscription
-- of the current client to just this name, whatever stood on the client's stack.
pub subscribe_received :
    (a : Allocator) (n : Name) (c : Client)
    → IsText n
    → length n < str_msg_size
    → c.net.script ≡ []
    → (subscribe a n c
        ≡ ok (record (enter_topic n c) { net = sent_frame c.fd (subscription a n) c.net }))
      × ((pf : Platform) (now : ℕ) (s : Server)
          → Process.process pf now (subscription a n) s ≡ (
              rebuild_stats_topic pf now (record s { msgsrecvd = s.msgsrecvd + 1 }) >>= λ s.
              getfd s >>= λ fd. Server.subscribe pf fd n s))
unfolding subscribe str_msg request enter_topic Process.process dispatch subscribe_packet
subscribe_received a n c text short e = (
  rw
      (
        le→leb (length n + 1) str_msg_size (omega arith),
        basesend_complete c.fd (subscription a n) c.net e (unfold htonl in omega arith),
      )
      refl,
  λ pf now s.
      rw
        (
          ntohl-htonl cs_subscribe (n ++ 0 ∷ drop (length n + 1) (a.malloc str_msg_size))
              (omega arith),
          c_string-append n (drop (length n + 1) (a.malloc str_msg_size)) text,
        )
        refl,
)

-- publish(), for a name and items that a message can carry, in a message of fewer than 2^31 bytes,
-- and while every write is complete: the client sends the encoding of the topic, behind its size,
-- once, and is otherwise as it was.
pub publish_sent :
    (a : Allocator) (n : Name) (t : Topic) (c : Client)
    → IsPublication n t.d
    → length (encode cs_publish n t.d) < 2 ^ 31
    → c.net.script ≡ []
    → publish a n t c ≡ ok (record c { net = sent_frame c.fd (encode cs_publish n t.d) c.net })
unfolding publish request
publish_sent a n t c v small e =
    rw
      (
        to_message-eq-encode a cs_publish n t v.short (IsTagged-of_well_formed t.d v.items) small,
        basesend_complete c.fd (encode cs_publish n t.d) c.net e
            (omega (arith, length-encode cs_publish n t.d)),
      )
      refl
