-- ===== src/Topic/Message/Tags.antt =====
-- toMessage() of items with a type throws nothing, and the items that fromMessage() reads have one.
use diamond_apparatus.Base.{
  ℕ, zero, suc, ◌+◌, ◌^◌, List, [], ◌∷◌, ◌++◌, All, All-append, length, ltb, leb, ◌==◌, Bool-cases,
  inl, inr, if_true, if_false, subst, sym,
}
use diamond_apparatus.Base.Result.{
  bad_data, Avoids, Avoids-bind, Avoids-any, Avoids-guard, Whatever, Exception,
}
use diamond_apparatus.Base.Bytes.{htonl, ntohl, memcpy, c_string}
use diamond_apparatus.Topic.{Datum, flt, str, raw, Topic, dt_float, dt_string, copy, clear}
use diamond_apparatus.Topic.Message.{
  Allocator, Cursor, size_loop, int_size, store, put, put_loop, put_name, name_length, fill,
  to_message, read_float, int_length, read_string, read_datum, read_loop, skip_name, from_message,
  get_name_from_msg,
}
use diamond_apparatus.Topic.Message.Encode.{IsTagged}

size_loop-Avoids :
    (n : ℕ) (d : List Datum) → All IsTagged d → Avoids bad_data Whatever (size_loop n d)
unfolding size_loop
size_loop-Avoids n [] h = tt
size_loop-Avoids n (flt f ∷ d) h = size_loop-Avoids (n + 1 + 4) d h.1
size_loop-Avoids n (str s ∷ d) h = size_loop-Avoids (n + 1 + 4 + length s) d h.1
size_loop-Avoids n (raw t ∷ d) h = absurd h.0

store-Avoids : (bs : List ℕ) (c : Cursor) → Avoids bad_data Whatever (store bs c)
unfolding store
store-Avoids bs c = Avoids-guard bad_data (leb (c.p + length bs) (length c.buf)) _

put-Avoids : (bs : List ℕ) (c : Cursor) → Avoids bad_data Whatever (put bs c)
unfolding put
put-Avoids bs c = Avoids-any bad_data Whatever (store bs c) _ (store-Avoids bs c) λ c. tt

put_loop-Avoids :
    (d : List Datum) (c : Cursor) → All IsTagged d → Avoids bad_data Whatever (put_loop d c)
unfolding put_loop
put_loop-Avoids [] c h = tt
put_loop-Avoids (flt f ∷ d) c h =
    Avoids-any bad_data Whatever (put (dt_float ∷ []) c) _ (put-Avoids (dt_float ∷ []) c) λ c.
      Avoids-any bad_data Whatever (put (htonl f) c) _ (put-Avoids (htonl f) c)
        λ c. put_loop-Avoids d c h.1
put_loop-Avoids (str s ∷ d) c h =
    Avoids-any bad_data Whatever (put (dt_string ∷ []) c) _ (put-Avoids (dt_string ∷ []) c) λ c.
      Avoids-any bad_data Whatever (put (htonl (length s)) c) _ (put-Avoids (htonl (length s)) c)
        λ c. Avoids-any bad_data Whatever (put s c) _ (put-Avoids s c) λ c. put_loop-Avoids d c h.1
put_loop-Avoids (raw t ∷ d) c h = absurd h.0

pub to_message-Avoids :
    (a : Allocator) (msgtype : ℕ) (name : List ℕ) (t : Topic)
    → All IsTagged t.d
    → Avoids bad_data Whatever (to_message a msgtype name t)
unfolding to_message fill put_name int_size
to_message-Avoids a msgtype name t h =
    Avoids-any bad_data Whatever (size_loop _ t.d) _ (size_loop-Avoids _ t.d h) λ n.
      Avoids-any bad_data Whatever (int_size n) _ (Avoids-guard bad_data (ltb n (2 ^ 31)) n) λ n.
        Avoids-any bad_data Whatever (fill msgtype name t.d (record { buf = a.malloc n; p = 0 })) _
          (filled (record { buf = a.malloc n; p = 0 })) λ c. tt
  where
    filled : (c : Cursor) → Avoids bad_data Whatever (fill msgtype name t.d c)
    filled c =
        Avoids-any bad_data Whatever (put (htonl msgtype) c) _ (put-Avoids (htonl msgtype) c) λ c.
          Avoids-any bad_data Whatever (put (htonl (length t.d)) c) _
            (put-Avoids (htonl (length t.d)) c)
            λ c.
              Avoids-any bad_data Whatever (put ((name_length name + 1) ∷ []) c) _
                (put-Avoids ((name_length name + 1) ∷ []) c)
                λ c.
                  Avoids-any bad_data Whatever (put_name name c) _
                    (Avoids-any bad_data Whatever (store (name ++ 0 ∷ []) c) _
                      (store-Avoids (name ++ 0 ∷ []) c) λ c. tt)
                    λ c. put_loop-Avoids t.d c h

pub ntohl-Avoids : (bad : Exception) (p : List ℕ) → Avoids bad Whatever (ntohl p)
unfolding ntohl
ntohl-Avoids bad [] = tt
ntohl-Avoids bad (a ∷ []) = tt
ntohl-Avoids bad (a ∷ b ∷ []) = tt
ntohl-Avoids bad (a ∷ b ∷ c ∷ []) = tt
ntohl-Avoids bad (a ∷ b ∷ c ∷ d ∷ p) = tt

memcpy-Avoids : (bad : Exception) (n : ℕ) (p : List ℕ) → Avoids bad Whatever (memcpy n p)
unfolding memcpy
memcpy-Avoids bad n p = Avoids-guard bad (leb n (length p)) _

pub c_string-Avoids : (bad : Exception) (p : List ℕ) → Avoids bad Whatever (c_string p)
unfolding c_string
c_string-Avoids bad [] = tt
c_string-Avoids bad (zero ∷ p) = tt
c_string-Avoids bad (suc c ∷ p) =
    Avoids-any bad Whatever (c_string p) _ (c_string-Avoids bad p) λ s. tt

pub get_name_from_msg-Avoids : (p : List ℕ) → Avoids bad_data Whatever (get_name_from_msg p)
unfolding get_name_from_msg
get_name_from_msg-Avoids p =
    Avoids-any bad_data Whatever (memcpy 9 p) _ (memcpy-Avoids bad_data 9 p)
      λ (q, rest). c_string-Avoids bad_data rest

-- What is read is a float or a string.
abbrev IsItem : Datum × List ℕ → Type 0
IsItem (t, q) = IsTagged (copy t)

read_datum-Avoids : (p : List ℕ) → Avoids bad_data IsItem (read_datum p)
unfolding read_datum read_float read_string int_length copy
read_datum-Avoids [] = tt
read_datum-Avoids (c ∷ p) = elim (Bool-cases (c == dt_float)) [
  | inl e ↦
      subst (Avoids bad_data IsItem) (sym (if_true _ _ e))
        (Avoids-any bad_data IsItem (ntohl p) _ (ntohl-Avoids bad_data p) λ (f, q). tt)
  | inr e ↦
      subst (Avoids bad_data IsItem) (sym (if_false _ _ e)) (elim (Bool-cases (c == dt_string)) [
        | inl e ↦ subst (Avoids bad_data IsItem) (sym (if_true _ _ e)) (
            Avoids-any bad_data IsItem (ntohl p) _ (ntohl-Avoids bad_data p) λ (len, q).
              Avoids-any bad_data IsItem (int_length len) _
                (Avoids-guard bad_data (ltb (len + 1) (2 ^ 31)) len)
                λ len.
                  Avoids-any bad_data IsItem (memcpy len q) _ (memcpy-Avoids bad_data len q)
                    λ (s, q). tt)
        | inr e ↦ subst (Avoids bad_data IsItem) (sym (if_false _ _ e)) (λ k. cc k)
      ])
]

read_loop-Avoids :
    (n : ℕ) (d : List Datum) (p : List ℕ)
    → All IsTagged d
    → Avoids bad_data (λ d. All IsTagged d) (read_loop n d p)
unfolding read_loop
read_loop-Avoids zero d p h = h
read_loop-Avoids (suc n) d p h =
    Avoids-bind bad_data IsItem (λ d. All IsTagged d) (read_datum p) _ (read_datum-Avoids p)
      λ (t, q) k.
        read_loop-Avoids n (d ++ copy t ∷ []) q (All-append IsTagged d (copy t ∷ []) h (k, tt))

pub from_message-Avoids :
    (p : List ℕ) (t : Topic) → Avoids bad_data (λ t. All IsTagged t.d) (from_message p t)
unfolding from_message skip_name clear
from_message-Avoids p t = Avoids-any bad_data _ (ntohl p) _ (ntohl-Avoids bad_data p) λ (msg, p).
    Avoids-any bad_data _ (ntohl p) _ (ntohl-Avoids bad_data p) λ (count, p).
      Avoids-any bad_data _ (skip_name p) _ (skipped p) λ p.
        Avoids-bind bad_data (λ d. All IsTagged d) _ (read_loop count [] p) _
          (read_loop-Avoids count [] p tt) λ d h. h
  where
    skipped : (p : List ℕ) → Avoids bad_data Whatever (skip_name p)
    skipped [] = tt
    skipped (n ∷ p) =
        Avoids-any bad_data Whatever (memcpy n p) _ (memcpy-Avoids bad_data n p) λ (name, q). tt
