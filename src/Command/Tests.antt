-- ===== src/Command/Tests.antt =====
-- Runs of the command line program: over the client, and over a script of topics.
use diamond_apparatus.Base.{◌≡◌, refl, ap, true, false, none, some, List, [], ◌∷◌, arith}
use diamond_apparatus.Base.Order.{nat_ord, bytes_ord}
use diamond_apparatus.Base.Result.{Result, ok, throws, fault, error_connecting}
use diamond_apparatus.Base.Bytes.{htonl}
use diamond_apparatus.Base.Text.{codes}
use diamond_apparatus.Topic.{Topic, new_topic, topic_changed}
use diamond_apparatus.Topic.Message.Encode.{encode}
use diamond_apparatus.Topic.Tests.{filling}
use diamond_apparatus.Tcp.Send.Frames.{sent_frame}
use diamond_apparatus.Messages.{cs_publish}
use diamond_apparatus.Client.{Client}
use diamond_apparatus.Client.Interface
use diamond_apparatus.Tcp.Socket.{setsock}
use diamond_apparatus.Client.Library.{
  Library, Dial, client_library, init, connect_client, attempted,
}
use diamond_apparatus.Client.Tests.{foo, one_item, foo-IsPublication, eager}
use diamond_apparatus.Client.Wire.{publish_sent}
use diamond_apparatus.Program.{Numbers, Process, exits, set_options, default_options}
use diamond_apparatus.Command.{main}
use diamond_apparatus.Command.Publishing.{string_of, main_publishes}
use diamond_apparatus.Command.Endings.{main_disconnected}
use diamond_apparatus.Command.Listening.{Yields, listing, main_listens}

abbrev pub numbers : Numbers
numbers = record { show_int = λ n. 48 ∷ []; show_float = λ f. 49 ∷ []; atof = λ s. 0 }

abbrev pub dial : Dial
dial = record { socket = some 6; hostname = true; connected = true; reusable = true }

abbrev refused : Dial
refused = record dial { connected = false }

abbrev pub lib_of : Dial → Library Client
lib_of d = client_library filling d (λ c. c) (λ c. c) (ok tt) (λ phase cell n c. (fault, c))

abbrev pub unstarted : Process Client
unstarted = record { world = record eager { running = false; init_count = 0 }; out = [] }

abbrev pub started : Client
started = record eager { waittopic = none; init_count = 1 }

pub init-started : (lib_of dial).init unstarted.world ≡ (ok tt, started)
unfolding client_library init connect_client setsock
init-started = refl

init-refused : (lib_of refused).init unstarted.world ≡ (throws error_connecting, unstarted.world)
unfolding client_library init connect_client setsock
init-refused = refl

abbrev pub told : Client
told = record started { net = sent_frame 6 (encode cs_publish foo one_item) started.net }

pub publish-told :
    (lib_of dial).publish foo (record new_topic { d = one_item }) started ≡ (ok tt, told)
unfolding client_library Interface.publish
publish-told = ap (attempted (λ c. c) started) (
    publish_sent filling foo (record new_topic { d = one_item }) started foo-IsPublication
      (unfold htonl in omega arith) refl)

main_publishes_example :
    main numbers
      (lib_of dial)
      []
      false
      0
      (codes "pub" ∷ foo ∷ codes "s" ∷ codes "hi" ∷ [])
      unstarted
    ≡ exits 0 (record unstarted { world = ((lib_of dial).destroy told).1 })
main_publishes_example =
    main_publishes numbers (lib_of dial) [] false 0 foo (string_of (codes "hi")) [] [] unstarted
      started told (omega arith) init-started publish-told

main_disconnected_example :
    let gone =
      exits 1 (record unstarted { world = ((lib_of refused).destroy unstarted.world).1 }) in
    (main numbers (lib_of refused) [] false 0 (codes "check" ∷ []) unstarted ≡ gone)
    × (main numbers (lib_of refused) [] false 0 (codes "listen" ∷ foo ∷ []) unstarted ≡ gone)
    × (main numbers (lib_of refused) [] false 0 (codes "show" ∷ foo ∷ []) unstarted ≡ gone)
    × (main numbers (lib_of refused) [] false 0 (codes "pub" ∷ []) unstarted ≡ gone)
    × (main numbers (lib_of refused) [] false 0 (codes "kill" ∷ []) unstarted ≡ gone)
main_disconnected_example =
    main_disconnected numbers (lib_of refused) [] false 0 foo [] unstarted error_connecting
      unstarted.world init-refused

-- A library that has some topics to give.
abbrev scripted : Library (List Topic)
scripted = record {
  init = λ w. (ok tt, w);
  server = λ w. (ok tt, w);
  destroy = λ w. (0, w);
  subscribe = λ n w. (ok tt, w);
  publish = λ n t w. (ok tt, w);
  kill_server = λ w. (ok tt, w);
  clear_server = λ w. (ok tt, w);
  wait_for_any = λ w. (ok tt, w);
  is_running = λ w. true;
  get = λ n wait. next;
}
  where
    next : List Topic → Result Topic × List Topic
    next [] = (fault, [])
    next (t ∷ ts) = (ok t, ts)

abbrev given : List Topic
given = record new_topic { d = one_item; state = topic_changed } ∷ new_topic ∷ []

abbrev listener : Process (List Topic)
listener = record { world = given; out = [] }

given-Yields : Yields numbers scripted foo given given []
given-Yields = (refl, (_, refl, (refl, (_, refl, refl))))

main_listens_example :
    main numbers scripted [] false 2 (codes "listen" ∷ foo ∷ []) listener
    ≡ exits 0
        (record { world = []; out = listing numbers (set_options [] default_options) foo given })
main_listens_example =
    main_listens numbers scripted [] false foo [] given listener given given [] refl refl
      given-Yields
