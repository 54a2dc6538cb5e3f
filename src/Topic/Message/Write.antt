-- ===== src/Topic/Message/Write.antt =====
-- What toMessage() writes.
use diamond_apparatus.Base.{
  ℕ, ◌+◌, ◌*◌, ◌^◌, ◌<◌, ◌≤◌, ◌≡◌, ap, List, [], ◌∷◌, ◌++◌, arith, length, length-append, All,
  append_assoc, append-nil, drop, take_left, drop_past, drop_all, length-drop, drop-drop, sym, ◌∙◌,
  le→leb,
}
use diamond_apparatus.Base.Result.{Result, ok, ◌>>=◌}
use diamond_apparatus.Base.Bytes.{htonl, length-htonl}
use diamond_apparatus.Topic.{Datum, flt, str, raw, Topic, dt_float, dt_string}
use diamond_apparatus.Topic.Message.{
  Allocator, max_name, size_loop, int_size, Cursor, store, put, put_loop, name_length, put_name,
  fill, to_message,
}
use diamond_apparatus.Topic.Message.Encode.{encode_items, encode, IsTagged, length-encode}

pub size_loop-ok :
    (n : ℕ) (d : List Datum) → All IsTagged d → size_loop n d ≡ ok (n + length (encode_items d))
unfolding size_loop
size_loop-ok n [] h = ap ok (omega arith)
size_loop-ok n (flt f ∷ d) h =
    rw (size_loop-ok (n + 1 + 4) d h.1)
      (ap ok (omega (arith, length-append (htonl f) (encode_items d), length-htonl f)))
size_loop-ok n (str s ∷ d) h = rw (size_loop-ok (n + 1 + 4 + length s) d h.1) (
    ap ok (
      omega (
        arith,
        length-append (htonl (length s)) (s ++ encode_items d),
        length-append s (encode_items d),
        length-htonl (length s),
      )))
size_loop-ok n (raw t ∷ d) h = absurd h.0

-- The cursor behind what has been written, with the rest of the buffer as it was allocated.
abbrev pub behind : List ℕ → List ℕ → Cursor
behind done junk = record { buf = done ++ junk; p = length done }

store_at :
    (bs done junk : List ℕ)
    → length bs ≤ length junk
    → store bs (behind done junk)
      ≡ ok (record { buf = (done ++ bs) ++ drop (length bs) junk; p = length done })
unfolding store
store_at bs done junk h = rw (
  le→leb (length done + length bs) (length (done ++ junk)) (omega (arith, length-append done junk)),
  take_left done junk,
  drop_past done junk (length bs),
  append_assoc done bs (drop (length bs) junk),
)

pub put_at :
    (bs done junk : List ℕ)
    → length bs ≤ length junk
    → put bs (behind done junk) ≡ ok (behind (done ++ bs) (drop (length bs) junk))
unfolding put
put_at bs done junk h = rw (store_at bs done junk h) (rw (length-append done bs))

-- The remaining junk after two stores.
drop_twice :
    (bs cs junk : List ℕ) → drop (length cs) (drop (length bs) junk) ≡ drop (length (bs ++ cs)) junk
drop_twice bs cs junk =
    drop-drop (length bs) (length cs) junk ∙ ap (λ n. drop n junk) (sym (length-append bs cs))

-- A store followed by what writes `cs` writes both.
put_then :
    (bs cs done junk : List ℕ) (next : Cursor → Result Cursor)
    → length (bs ++ cs) ≤ length junk
    → (length cs ≤ length (drop (length bs) junk)
        → next (behind (done ++ bs) (drop (length bs) junk))
          ≡ ok (behind ((done ++ bs) ++ cs) (drop (length cs) (drop (length bs) junk))))
    → (put bs (behind done junk) >>= next)
      ≡ ok (behind (done ++ (bs ++ cs)) (drop (length (bs ++ cs)) junk))
put_then bs cs done junk next fits h =
    rw (put_at bs done junk (omega (arith, length-append bs cs))) (
      h (omega (arith, length-append bs cs, length-drop (length bs) junk))
      ∙ rw (append_assoc done bs cs, drop_twice bs cs junk))

-- The loop over the items writes their encoding.
put_loop_at :
    (d : List Datum) (done junk : List ℕ)
    → All IsTagged d
    → length (encode_items d) ≤ length junk
    → put_loop d (behind done junk)
      ≡ ok (behind (done ++ encode_items d) (drop (length (encode_items d)) junk))
unfolding put_loop
put_loop_at [] done junk h fits = rw append-nil
put_loop_at (flt f ∷ d) done junk h fits =
    put_then (dt_float ∷ []) (htonl f ++ encode_items d) done junk _ fits
      λ fits. put_then (htonl f) (encode_items d) _ _ _ fits λ fits. put_loop_at d _ _ h.1 fits
put_loop_at (str s ∷ d) done junk h fits =
    put_then (dt_string ∷ []) (htonl (length s) ++ (s ++ encode_items d)) done junk _ fits λ fits.
      put_then (htonl (length s)) (s ++ encode_items d) _ _ _ fits
        λ fits. put_then s (encode_items d) _ _ _ fits λ fits. put_loop_at d _ _ h.1 fits
put_loop_at (raw t ∷ d) done junk h fits = absurd h.0

name_length-eq : (name : List ℕ) → length name ≤ max_name → name_length name ≡ length name
name_length-eq name short = ground arith

-- strcpy() of a name that the length byte can speak of is a store like the others.
put_name_short :
    (name : List ℕ) (c : Cursor) → length name ≤ max_name → put_name name c ≡ put (name ++ 0 ∷ []) c
unfolding put_name put
put_name_short name c short = rw (name_length-eq name short, length-append name (0 ∷ []))

fill_at :
    (msgtype : ℕ) (name : List ℕ) (d : List Datum) (junk : List ℕ)
    → length name ≤ max_name
    → All IsTagged d
    → length (encode msgtype name d) ≤ length junk
    → fill msgtype name d (behind [] junk)
      ≡ ok (behind (encode msgtype name d) (drop (length (encode msgtype name d)) junk))
unfolding fill
fill_at msgtype name d junk short tagged fits =
    let e = append_assoc name (0 ∷ []) (encode_items d) in
    rw (← e) (
      put_then (htonl msgtype) _ [] junk _ (rw (← e) at fits) λ fits.
        put_then (htonl (length d)) _ _ _ _ fits λ fits. rw (name_length-eq name short) (
          put_then ((length name + 1) ∷ []) ((name ++ 0 ∷ []) ++ encode_items d) _ _ _ fits λ fits.
            rw (put_name_short name _ short) (
              put_then (name ++ 0 ∷ []) (encode_items d) _ _ _ fits
                λ fits. put_loop_at d _ _ tagged fits)))

sized :
    (msgtype : ℕ) (name : List ℕ) (d : List Datum)
    → length name ≤ max_name
    → All IsTagged d
    → size_loop (4 * 2 + (name_length name + 1 + 1)) d ≡ ok (length (encode msgtype name d))
sized msgtype name d short tagged =
    rw (name_length-eq name short, size_loop-ok (4 * 2 + (length name + 1 + 1)) d tagged)
      (ap ok (omega (arith, length-encode msgtype name d)))

int_size_then : (n : ℕ) (next : ℕ → Result (List ℕ)) → n < 2 ^ 31 → (int_size n >>= next) ≡ next n
unfolding int_size
int_size_then n next h = ground arith

-- toMessage(), for a name of at most 128 bytes, items of the two known types and a message of fewer
-- than 2^31 bytes, whatever the allocator's block holds: the buffer is the encoding, every byte of
-- it written, with no store outside it.
pub to_message-eq-encode :
    (a : Allocator) (msgtype : ℕ) (name : List ℕ) (t : Topic)
    → length name ≤ max_name
    → All IsTagged t.d
    → length (encode msgtype name t.d) < 2 ^ 31
    → to_message a msgtype name t ≡ ok (encode msgtype name t.d)
unfolding to_message
to_message-eq-encode a msgtype name t short tagged small =
    let n = length (encode msgtype name t.d) in
    let whole : length (a.malloc n) ≡ n = a.length-malloc n in
    rw (sized msgtype name t.d short tagged) (
      int_size_then n (λ size. fill msgtype name t.d (behind [] (a.malloc size)) >>= λ c. ok c.buf)
        small
      ∙ rw (fill_at msgtype name t.d (a.malloc n) short tagged (omega arith))
          (ap ok (rw (drop_all n (a.malloc n) (omega arith)) (append-nil _))))
