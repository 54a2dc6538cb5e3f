-- ===== src/Python/Tests.antt =====
-- Programs in Python that exchange one topic; strings are their bytes here.
use diamond_apparatus.Base.{ℕ, ◌≡◌, refl, none, some, List, [], ◌∷◌, ◌++◌, arith}
use diamond_apparatus.Base.Int.{pos}
use diamond_apparatus.Base.Text.{codes}
use diamond_apparatus.Base.Result.{ok, throws, set_reuse_failed}
use diamond_apparatus.Base.Bytes.{htonl}
use diamond_apparatus.Topic.{new_topic}
use diamond_apparatus.Topic.Message.Encode.{encode}
use diamond_apparatus.Topic.Tests.{filling}
use diamond_apparatus.Tcp.Send.Frames.{sent_frame}
use diamond_apparatus.Messages.{cs_publish}
use diamond_apparatus.Client.{Client}
use diamond_apparatus.Client.Tests.{foo, one_item, foo-IsPublication, eager, foo_known, foo_found}
use diamond_apparatus.Client.Library.{client_library}
use diamond_apparatus.Linkage.{Linkage, cleared, newtopic}
use diamond_apparatus.Linkage.Exchange.{add_items}
use diamond_apparatus.Linkage.Tests.{dial, lib, notified, notified-IsWoken, program}
use diamond_apparatus.Python.{
  Interpreter, Item, unicode, nothing, tuple, raises, neither, bad_sequence, publish, get,
}
use diamond_apparatus.Python.Exchange.{Matches, no_more, strings, cells_of, publish-get}
use diamond_apparatus.Python.Errors.{publish-neither}

abbrev bytes_only : Interpreter
bytes_only = record { String = List ℕ; encoded = λ s. some s; decoded = λ b. some b }

abbrev hi : List (Item bytes_only)
hi = unicode (codes "hi") ∷ []

hi-Matches : Matches bytes_only hi one_item
hi-Matches = strings (codes "hi") (codes "hi") refl refl no_more

publish-get_example :
    (publish bytes_only lib (some (foo, record { size = pos 1; fast = some hi })) program
      ≡ ok (
        nothing,
        cleared
            (record eager { net = sent_frame 6 (encode cs_publish foo one_item) eager.net })
            (add_items one_item (newtopic program)),
      ))
    × ((m : Linkage Client) × (get bytes_only lib (some (foo, none)) program
          ≡ ok (tuple (cells_of bytes_only hi), m)))
publish-get_example =
    publish-get bytes_only filling dial (λ c. c) (λ c. c) (throws set_reuse_failed) notified hi foo
      one_item program program (pos 5) 0 new_topic hi-Matches foo-IsPublication
      (unfold htonl in omega arith) refl refl notified-IsWoken refl foo_known foo_found refl

publish-neither_example :
    (publish bytes_only lib
        (some (foo, record { size = pos 2; fast = some (hi ++ neither ∷ []) }))
        program
      ≡ ok (raises bad_sequence, add_items one_item (newtopic program)))
    × ((add_items one_item (newtopic program)).world ≡ eager)
unfolding client_library
publish-neither_example = publish-neither bytes_only lib hi [] one_item foo program hi-Matches refl
