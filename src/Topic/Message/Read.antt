-- ===== src/Topic/Message/Read.antt =====
-- What fromMessage() reads back.
use diamond_apparatus.Base.{
  arith, ℕ, suc, ◌+◌, ◌≡◌, ap, List, [], ◌∷◌, ◌++◌, length, length-append, All, append_assoc,
  append-nil, ◌∙◌, ◌*◌,
}
use diamond_apparatus.Base.Result.{ok}
use diamond_apparatus.Base.Bytes.{
  htonl, memcpy, ntohl-htonl, memcpy-append, c_string-append, IsText, IsWord, until_nul-eq,
}
use diamond_apparatus.Topic.{Datum, flt, str, raw, Topic, dt_float, dt_string, clear}
use diamond_apparatus.Topic.Message.{
  read_loop, int_length, skip_name, from_message, get_name_from_msg,
}
use diamond_apparatus.Topic.Message.Encode.{encode_items, encode, IsIntLength, IsWellFormed}

-- A well formed datum is read and pushed as it was.
read_loop-float :
    (n f : ℕ) (d : List Datum) (p : List ℕ)
    → IsWord f
    → read_loop (suc n) d (dt_float ∷ (htonl f ++ p)) ≡ read_loop n (d ++ flt f ∷ []) p
unfolding read_loop
read_loop-float n f d p h = rw (ntohl-htonl f p h)

int_length-ok : (n : ℕ) → IsIntLength n → int_length n ≡ ok n
unfolding int_length
int_length-ok n h = ground arith

read_loop-string :
    (n : ℕ) (s : List ℕ) (d : List Datum) (p : List ℕ)
    → IsText s
    → IsIntLength (length s)
    → read_loop (suc n) d (dt_string ∷ (htonl (length s) ++ (s ++ p)))
      ≡ read_loop n (d ++ str s ∷ []) p
unfolding read_loop
read_loop-string n s d p text h = rw (
  ntohl-htonl (length s) (s ++ p) (omega arith),
  int_length-ok (length s) h,
  memcpy-append s p,
  until_nul-eq s text,
)

read_loop-encode :
    (d done : List Datum) (rest : List ℕ)
    → All IsWellFormed d
    → read_loop (length d) done (encode_items d ++ rest) ≡ ok (done ++ d)
read_loop-encode [] done rest h = unfold read_loop in rw append-nil
read_loop-encode (flt f ∷ d) done rest h = rw (append_assoc (htonl f) (encode_items d) rest) (
    read_loop-float (length d) f done (encode_items d ++ rest) h.0
    ∙ read_loop-encode d (done ++ flt f ∷ []) rest h.1
    ∙ ap ok (append_assoc done (flt f ∷ []) d))
read_loop-encode (str s ∷ d) done rest h =
    rw
      (
        append_assoc (htonl (length s)) (s ++ encode_items d) rest,
        append_assoc s (encode_items d) rest,
      )
      (read_loop-string (length d) s done (encode_items d ++ rest) h.0.0 h.0.1
        ∙ read_loop-encode d (done ++ str s ∷ []) rest h.1
        ∙ ap ok (append_assoc done (str s ∷ []) d))
read_loop-encode (raw t ∷ d) done rest h = absurd h.0

-- An encoding, as a packet with anything behind it, in the form in which it is read.
encode-append :
    (msgtype : ℕ) (name : List ℕ) (d : List Datum) (rest : List ℕ)
    → encode msgtype name d ++ rest
      ≡ htonl msgtype
        ++ (htonl (length d)
            ++ ((length name + 1) ∷ ((name ++ 0 ∷ []) ++ (encode_items d ++ rest))))
encode-append msgtype name d rest = simp append_assoc

skip_name-lem : (name p : List ℕ) → skip_name ((length name + 1) ∷ ((name ++ 0 ∷ []) ++ p)) ≡ ok p
unfolding skip_name
skip_name-lem name p = rw (← length-append name (0 ∷ [])) (rw (memcpy-append (name ++ 0 ∷ []) p))

-- fromMessage() of an encoding restores the items, whatever the topic held and whatever stands
-- behind the message, if the message type and the number of items have 32 bits and each item is
-- well formed: a float of 32 bits, or a C string of fewer than 2^31 - 1 bytes.
pub from_message-encode :
    (msgtype : ℕ) (name : List ℕ) (d : List Datum) (rest : List ℕ) (t : Topic)
    → IsWord msgtype
    → IsWord (length d)
    → All IsWellFormed d
    → from_message (encode msgtype name d ++ rest) t ≡ ok (record t { d = d })
unfolding from_message clear
from_message-encode msgtype name d rest t hm hd h = rw (
  encode-append msgtype name d rest,
  ntohl-htonl msgtype _ hm,
  ntohl-htonl (length d) _ hd,
  skip_name-lem name (encode_items d ++ rest),
  read_loop-encode d [] rest h,
)

memcpy-header :
    (m n c : ℕ) (p : List ℕ)
    → memcpy (4 * 2 + 1) (htonl m ++ (htonl n ++ (c ∷ p)))
      ≡ ok (htonl m ++ (htonl n ++ (c ∷ [])), p)
unfolding htonl
memcpy-header m n c p = memcpy-append (htonl m ++ (htonl n ++ (c ∷ []))) p

-- getNameFromMsg() of the encoding of a name, a C string, and any items, is the name, whatever
-- stands behind the message.
pub get_name_from_msg-encode :
    (msgtype : ℕ) (name : List ℕ) (d : List Datum) (rest : List ℕ)
    → IsText name
    → get_name_from_msg (encode msgtype name d ++ rest) ≡ ok name
unfolding get_name_from_msg
get_name_from_msg-encode msgtype name d rest text = rw (
  encode-append msgtype name d rest,
  memcpy-header msgtype (length d) (length name + 1) ((name ++ 0 ∷ []) ++ (encode_items d ++ rest)),
  append_assoc name (0 ∷ []) (encode_items d ++ rest),
  c_string-append name (encode_items d ++ rest) text,
)
