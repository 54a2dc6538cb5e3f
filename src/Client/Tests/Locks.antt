-- ===== src/Client/Tests/Locks.antt =====
-- A client whose connection takes nothing any more.
use diamond_apparatus.Base.{◌≡◌, refl, false, none, some, [], arith, if◌then◌else◌}
use diamond_apparatus.Base.Result.{throws, cannot_send}
use diamond_apparatus.Base.Bytes.{htonl}
use diamond_apparatus.Topic.{Topic, new_topic, get_waitany}
use diamond_apparatus.Topic.Tests.{filling}
use diamond_apparatus.Tcp.Send.{other, tries}
use diamond_apparatus.Tcp.Send.Frames.{failures}
use diamond_apparatus.Client.{Client}
use diamond_apparatus.Client.Mutex.{Guarded, publishes, gets, comes_to_lock, perform}
use diamond_apparatus.Client.Mutex.Paths.{unguarded, refusal, to_leave, perform-unguarded}
use diamond_apparatus.Client.Mutex.Stuck.{publish-perform_blocks}
use diamond_apparatus.Client.Tests.{foo, one_item, foo-IsPublication, eager}

abbrev item_topic : Topic
item_topic = record new_topic { d = one_item }

abbrev stalled : Client
stalled = record eager { net = record { script = failures tries []; errno = other; out = [] } }

abbrev free : Guarded
free = record { client = stalled; held = false }

perform-unguarded_example :
    perform filling (λ c. c) (gets foo get_waitany) free
    ≡ some (
        if comes_to_lock (gets foo get_waitany) free
        then to_leave (λ c. c) stalled (unguarded filling (gets foo get_waitany) stalled)
        else (refusal (gets foo get_waitany), free))
perform-unguarded_example = perform-unguarded filling (λ c. c) (gets foo get_waitany) free refl

publish-perform_blocks_example :
    (h : Guarded) × (perform filling (λ c. c) (publishes foo item_topic) free
      ≡ some (throws cannot_send, h))
    × (perform filling (λ c. c) (gets foo get_waitany) h ≡ none)
publish-perform_blocks_example =
    publish-perform_blocks filling (λ c. c) foo item_topic free [] (gets foo get_waitany)
      foo-IsPublication (unfold htonl in omega arith) refl refl refl refl
