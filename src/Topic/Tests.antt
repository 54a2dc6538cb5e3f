-- ===== src/Topic/Tests.antt =====
-- Runs of toMessage(), fromMessage() and appendCSVToStringStream() on small topics.
use diamond_apparatus.Base.{ℕ, zero, suc, ◌≡◌, refl, ap, List, [], ◌∷◌, ◌++◌, arith, length, All}
use diamond_apparatus.Base.Text.{codes}
use diamond_apparatus.Base.Result.{ok, fault}
use diamond_apparatus.Base.Bytes.{htonl, ntohl, memcpy, until_nul}
use diamond_apparatus.Topic.{Datum, flt, str, Topic, new_topic, append_csv_to_string_stream}
use diamond_apparatus.Topic.Csv.{joined, append_csv_to_string_stream-joined}
use diamond_apparatus.Topic.Message.{Allocator, to_message, from_message}
use diamond_apparatus.Topic.Message.Encode.{encode, IsWellFormed}
use diamond_apparatus.Topic.Message.Write.{to_message-eq-encode}
use diamond_apparatus.Topic.Message.Fail.{to_message_overflow}
use diamond_apparatus.Topic.Message.Read.{from_message-encode}
use diamond_apparatus.Topic.Message.WellFormed.{from_message-IsWellFormed}
use diamond_apparatus.Messages.{sc_notify}

abbrev repeated : ℕ → ℕ → List ℕ
repeated b zero = []
repeated b (suc n) = b ∷ repeated b n

pub length-repeated : (b n : ℕ) → length (repeated b n) ≡ n
length-repeated b zero = refl
length-repeated b (suc n) = ap suc (length-repeated b n)

abbrev pub filling : Allocator
filling = record { malloc = repeated 204; length-malloc = length-repeated 204 }

abbrev two_items : List Datum
two_items = flt 1_065_353_216 ∷ str (codes "ab") ∷ []

abbrev topic_of : List Datum → Topic
topic_of d = record new_topic { d = d }

abbrev foo : List ℕ
foo = codes "foo"

to_message-eq-encode_example :
    to_message filling sc_notify foo (topic_of two_items) ≡ ok (encode sc_notify foo two_items)
to_message-eq-encode_example =
    to_message-eq-encode filling sc_notify foo (topic_of two_items) (omega arith) (tt, (tt, tt))
      (unfold htonl in omega arith)

two_items-IsWellFormed : All IsWellFormed two_items
two_items-IsWellFormed = omega arith

from_message-encode_example :
    from_message (encode sc_notify foo two_items ++ 9 ∷ []) (topic_of (str foo ∷ []))
    ≡ ok (topic_of two_items)
from_message-encode_example =
    from_message-encode sc_notify foo two_items (9 ∷ []) (topic_of (str foo ∷ [])) (omega arith)
      (omega arith) two_items-IsWellFormed

to_message_overflow_example :
    to_message filling sc_notify (repeated 97 200) (topic_of (flt 0 ∷ [])) ≡ fault
to_message_overflow_example =
    to_message_overflow filling sc_notify (repeated 97 200) (topic_of (flt 0 ∷ []))
      (unfold htonl in omega arith) (tt, tt)

-- A packet with no name and one string, in which a terminator stands.
abbrev odd_packet : List ℕ
odd_packet = 0 ∷ 0 ∷ 0 ∷ 0 ∷ 0 ∷ 0 ∷ 0 ∷ 1 ∷ 1 ∷ 0 ∷ 1 ∷ 0 ∷ 0 ∷ 0 ∷ 3 ∷ 97 ∷ 0 ∷ 98 ∷ []

odd_packet-read : from_message odd_packet new_topic ≡ ok (topic_of (str (97 ∷ []) ∷ []))
unfolding from_message ntohl memcpy until_nul
odd_packet-read = refl

from_message-IsWellFormed_example : All IsWellFormed (str (97 ∷ []) ∷ [])
from_message-IsWellFormed_example =
    from_message-IsWellFormed odd_packet new_topic {t' = topic_of (str (97 ∷ []) ∷ [])}
      (omega arith) odd_packet-read

append_csv_to_string_stream-joined_example :
    append_csv_to_string_stream (repeated 48) (topic_of (str foo ∷ flt 2 ∷ []))
    ≡ joined (repeated 48) (str foo ∷ flt 2 ∷ [])
append_csv_to_string_stream-joined_example =
    append_csv_to_string_stream-joined (repeated 48) (topic_of (str foo ∷ flt 2 ∷ []))
