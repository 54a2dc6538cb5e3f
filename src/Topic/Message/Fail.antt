-- ===== src/Topic/Message/Fail.antt =====
-- Where toMessage() fails.
use diamond_apparatus.Base.{
  ℕ, ◌+◌, ◌^◌, Bool-cases, inl, inr, ltb, ◌*◌, ◌≤◌, ◌<◌, ◌≡◌, refl, List, [], ◌∷◌, ◌++◌, arith,
  length, length-append, All, drop, length-drop, lt→leb_false,
}
use diamond_apparatus.Base.Result.{Result, ok, throws, fault, bad_data, ◌>>=◌}
use diamond_apparatus.Base.Bytes.{htonl, length-htonl}
use diamond_apparatus.Topic.{Datum, flt, str, raw, Topic}
use diamond_apparatus.Topic.Message.{
  Allocator, max_name, size_loop, int_size, Cursor, store, put, name_length, put_name, fill,
  to_message,
}
use diamond_apparatus.Topic.Message.Encode.{encode_items, IsTagged}
use diamond_apparatus.Topic.Message.Write.{behind, put_at, size_loop-ok}

size_loop-bad_data :
    (pre : List Datum) (n : ℕ) (post : List Datum) (m : ℕ)
    → size_loop m (pre ++ raw n ∷ post) ≡ throws bad_data
unfolding size_loop
size_loop-bad_data [] n post m = refl
size_loop-bad_data (flt f ∷ pre) n post m = size_loop-bad_data pre n post (m + 1 + 4)
size_loop-bad_data (str s ∷ pre) n post m = size_loop-bad_data pre n post (m + 1 + 4 + length s)
size_loop-bad_data (raw t ∷ pre) n post m = refl

-- A datum of neither type makes toMessage() throw, whatever stands before and behind it.
pub to_message-bad_data :
    (a : Allocator) (msgtype : ℕ) (name : List ℕ) (t : Topic) (pre : List Datum) (n : ℕ)
    (post : List Datum)
    → t.d ≡ pre ++ raw n ∷ post
    → to_message a msgtype name t ≡ throws bad_data
unfolding to_message
to_message-bad_data a msgtype name t pre n post e = rw (e, size_loop-bad_data pre n post _)

name_length-long : (name : List ℕ) → max_name < length name → name_length name ≡ max_name
name_length-long name long = ground arith

put_name_outside :
    (name done junk : List ℕ)
    → length junk < length name + 1
    → put_name name (behind done junk) ≡ fault
unfolding put_name store
put_name_outside name done junk small = rw (
    lt→leb_false (length done + length (name ++ 0 ∷ [])) (length (done ++ junk))
      (omega (arith, length-append done junk, length-append name (0 ∷ []))))

put_then_fault :
    (bs done junk : List ℕ) (next : Cursor → Result Cursor)
    → length bs ≤ length junk
    → next (behind (done ++ bs) (drop (length bs) junk)) ≡ fault
    → (put bs (behind done junk) >>= next) ≡ fault
put_then_fault bs done junk next fits h = rw (put_at bs done junk fits) h

fill_outside :
    (msgtype : ℕ) (name : List ℕ) (d : List Datum) (junk : List ℕ)
    → 9 ≤ length junk
    → length junk < length name + 10
    → fill msgtype name d (behind [] junk) ≡ fault
unfolding fill
fill_outside msgtype name d junk header small =
    let a = length-htonl msgtype in
    let b = length-htonl (length d) in
    let j4 = drop (length (htonl msgtype)) junk in
    let j8 = drop (length (htonl (length d))) j4 in
    let l4 = length-drop (length (htonl msgtype)) junk in
    let l8 = length-drop (length (htonl (length d))) j4 in
    put_then_fault (htonl msgtype) [] junk _ (omega arith) (
      put_then_fault (htonl (length d)) _ j4 _ (omega arith) (
        put_then_fault ((name_length name + 1) ∷ []) _ j8 _ (omega arith)
          (rw (put_name_outside name _ (drop 1 j8) (omega (arith, length-drop 1 j8))))))

sized_fault : (n : ℕ) (next : ℕ → Result (List ℕ)) → next n ≡ fault → (int_size n >>= next) ≡ fault
unfolding int_size
sized_fault n next h = elim (Bool-cases (ltb n (2 ^ 31))) [ inl e ↦ rw e h | inr e ↦ rw e refl ]

-- The copy of a longer name is not cut as its length is: if the name is longer than 128 bytes and
-- the encoded items together, and each item has one of the two known types, then toMessage() leaves
-- its memory.
pub to_message_overflow :
    (a : Allocator) (msgtype : ℕ) (name : List ℕ) (t : Topic)
    → max_name + length (encode_items t.d) < length name
    → All IsTagged t.d
    → to_message a msgtype name t ≡ fault
unfolding to_message
to_message_overflow a msgtype name t long tagged =
    let n = 4 * 2 + (max_name + 1 + 1) + length (encode_items t.d) in
    let whole : length (a.malloc n) ≡ n = a.length-malloc n in
    rw (name_length-long name (omega arith), size_loop-ok (4 * 2 + (max_name + 1 + 1)) t.d tagged)
      (sized_fault n (λ size. fill msgtype name t.d (behind [] (a.malloc size)) >>= λ c. ok c.buf)
        (rw (fill_outside msgtype name t.d (a.malloc n) (omega arith) (omega arith)) refl))
