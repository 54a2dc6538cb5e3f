-- ===== src/Topic/Message.antt =====
-- data.cpp: a topic as a message, and back. The allocator's contents are a parameter, and the
-- message is written into the buffer by the source's sequence of stores, each within the buffer or
-- a fault.
pub mod Encode
pub mod Write
pub mod Fail
pub mod Read
pub mod WellFormed
pub mod Tags
use diamond_apparatus.Base.{
  ℕ, zero, suc, ◌+◌, ◌*◌, ◌^◌, ◌≡◌, Bool, true, false, List, [], ◌∷◌, ◌++◌, length, take, drop, ltb,
  leb, ◌==◌, if◌then◌else◌, arith,
}
use diamond_apparatus.Base.Result.{
  Result, ok, throws, fault, bad_data, bad_data_in_from_message, ◌>>=◌,
}
use diamond_apparatus.Base.Bytes.{htonl, ntohl, memcpy, c_string}
use diamond_apparatus.Topic.{Datum, flt, str, raw, Topic, dt_float, dt_string, tag, copy, clear}

-- malloc(): a block of the size asked for, with any contents.
pub record Allocator : Type 0 where
  pub malloc : ℕ → List ℕ
  pub length-malloc : (n : ℕ) → length (malloc n) ≡ n

-- The longest name that the length byte can speak of.
abbrev pub max_name : ℕ
max_name = 128

-- The first loop of toMessage(): what the items need, from what is needed so far.
unfoldable pub size_loop : ℕ → List Datum → Result ℕ
size_loop n [] = ok n
size_loop n (flt f ∷ d) = size_loop (n + 1 + 4) d
size_loop n (str s ∷ d) = size_loop (n + 1 + 4 + length s) d
size_loop n (raw t ∷ d) = throws bad_data

-- The size is an `int`: from 2^31 on it has wrapped to a number that is negative or too small for
-- the stores that follow, which then leave the block.
unfoldable pub int_size : ℕ → Result ℕ
int_size n = if ltb n (2 ^ 31) then ok n else fault

-- A buffer that is being filled, and the offset of `p` in it.
pub record Cursor : Type 0 where
  pub buf : List ℕ
  pub p : ℕ

-- Stores bytes at `p` and leaves `p` alone.
unfoldable pub store : List ℕ → Cursor → Result Cursor
store bs c =
    if leb (c.p + length bs) (length c.buf)
    then ok (record c { buf = take c.p c.buf ++ (bs ++ drop (c.p + length bs) c.buf) })
    else fault

-- Stores bytes at `p` and moves `p` behind them.
unfoldable pub put : List ℕ → Cursor → Result Cursor
unfolding store
put bs c = do c' ← store bs c; ok (record c' { p = c'.p + length bs })

-- The second loop of toMessage().
unfoldable pub put_loop : List Datum → Cursor → Result Cursor
put_loop [] c = ok c
put_loop (flt f ∷ d) c = do c ← put (dt_float ∷ []) c; c ← put (htonl f) c; put_loop d c
put_loop (str s ∷ d) c = do
  c ← put (dt_string ∷ []) c
  c ← put (htonl (length s)) c
  c ← put s c
  put_loop d c
put_loop (raw t ∷ d) c = throws bad_data

-- `nll`: the length of the name, cut to 128.
abbrev pub name_length : List ℕ → ℕ
name_length name = if ltb max_name (length name) then max_name else length name

-- strcpy() of the name at `p`, which then moves by `namelen` and not by what was copied.
unfoldable pub put_name : List ℕ → Cursor → Result Cursor
put_name name c = do
  c ← store (name ++ 0 ∷ []) c
  ok (record c { p = c.p + (name_length name + 1) })

-- The stores of toMessage(), in their order.
unfoldable pub fill : ℕ → List ℕ → List Datum → Cursor → Result Cursor
fill msgtype name d c = do
  c ← put (htonl msgtype) c
  c ← put (htonl (length d)) c
  c ← put ((name_length name + 1) ∷ []) c
  c ← put_name name c
  put_loop d c

unfoldable pub to_message : Allocator → ℕ → List ℕ → Topic → Result (List ℕ)
to_message a msgtype name t = do
  size ← size_loop (4 * 2 + (name_length name + 1 + 1)) t.d
  size ← int_size size
  c ← fill msgtype name t.d (record { buf = a.malloc size; p = 0 })
  ok c.buf

-- One round of the loop of fromMessage(), with the pointer behind the item.
read_float : List ℕ → Result (Datum × List ℕ)
read_float p = do (f, p) ← ntohl p; ok (flt f, p)

-- The length is kept in an `int`, and `len+1` bytes are allocated.
unfoldable pub int_length : ℕ → Result ℕ
int_length len = if ltb (len + 1) (2 ^ 31) then ok len else fault

read_string : List ℕ → Result (Datum × List ℕ)
unfolding int_length
read_string p = do (len, p) ← ntohl p; len ← int_length len; (s, p) ← memcpy len p; ok (str s, p)

unfoldable pub read_datum : List ℕ → Result (Datum × List ℕ)
unfolding read_float read_string
read_datum [] = fault
read_datum (c ∷ p) =
    if c == dt_float
    then read_float p
    else (if c == dt_string then read_string p else throws bad_data_in_from_message)

-- push_back() copies the temporary datum, a string up to its first terminator.
unfoldable pub read_loop : ℕ → List Datum → List ℕ → Result (List Datum)
unfolding read_datum copy
read_loop zero d p = ok d
read_loop (suc n) d p = do (t, p) ← read_datum p; read_loop n (d ++ copy t ∷ []) p

-- The length byte of the name, and the pointer behind it and the name that it speaks of.
skip_name : List ℕ → Result (List ℕ)
skip_name [] = fault
skip_name (namelen ∷ p) = do (name, p) ← memcpy namelen p; ok p

-- fromMessage(), with no buffer for the name.
unfoldable pub from_message : List ℕ → Topic → Result Topic
unfolding skip_name read_loop clear
from_message p t = do
  (msg, p) ← ntohl p
  (count, p) ← ntohl p
  p ← skip_name p
  d ← read_loop count [] p
  ok (record (clear t) { d = d })

unfoldable pub get_name_from_msg : List ℕ → Result (List ℕ)
get_name_from_msg p = do (q, rest) ← memcpy (4 * 2 + 1) p; c_string rest
