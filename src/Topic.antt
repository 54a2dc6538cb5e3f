-- ===== src/Topic.antt =====
-- data.h and data.cpp: a datum, a topic, and the state codes of diamondapparatus.h.
pub mod Message
pub mod Csv
pub mod Tests
use diamond_apparatus.Base.{
  ℕ, zero, suc, ◌+◌, ◌-◌, ◌≡◌, Bool, true, false, ◌||◌, Option, none, some, List, [], ◌∷◌, ◌++◌,
  arith, length, get_elem?, if◌then◌else◌, ltb, leb, ◌==◌,
}
use diamond_apparatus.Base.Int.{ℤ, pos, negsuc, is_negative, ◌-ℤ◌}
use diamond_apparatus.Base.Bytes.{until_nul}
use diamond_apparatus.Base.Text.{codes}

-- Wait flags of get().
abbrev pub get_waitnone : ℕ
get_waitnone = 0

abbrev pub get_waitnew : ℕ
get_waitnew = 1

abbrev pub get_waitany : ℕ
get_waitany = 2

-- Topic states.
abbrev pub topic_nodata : ℕ
topic_nodata = 0

abbrev pub topic_unchanged : ℕ
topic_unchanged = 1

abbrev pub topic_changed : ℕ
topic_changed = 2

abbrev pub topic_notfound : ℕ
topic_notfound = 3

abbrev pub topic_notconnected : ℕ
topic_notconnected = 4

-- Data types.
abbrev pub dt_float : ℕ
dt_float = 0

abbrev pub dt_string : ℕ
dt_string = 1

-- A Datum by its tag `t`: a float, by its bit pattern; a `char *`, by the bytes before the
-- terminator; or a tag that is neither (`raw n` has the tag n + 2), whose union nobody reads.
pub data Datum : Type 0 where
  flt : ℕ → Datum
  str : List ℕ → Datum
  raw : ℕ → Datum

-- Datum()
abbrev pub zero_datum : Datum
zero_datum = flt 0

-- The copy constructor: a string is duplicated up to its terminator.
unfoldable pub copy : Datum → Datum
copy (flt f) = flt f
copy (str s) = str (until_nul s)
copy (raw n) = raw n

-- Datum(const char *)
unfoldable pub of_string : List ℕ → Datum
of_string s = str (until_nul s)

-- The field `t`, and type().
unfoldable pub tag : Datum → ℕ
tag (flt f) = dt_float
tag (str s) = dt_string
tag (raw n) = n + 2

-- f(); the bit pattern 0 is 0.0f.
unfoldable pub as_float : Datum → ℕ
as_float (flt f) = f
as_float _ = 0

-- s()
unfoldable pub as_string : Datum → List ℕ
as_string (str s) = s
as_string _ = codes "?notstring?"

-- clr(), and what the destructor leaves.
unfoldable pub clr : Datum → Datum
clr d = flt 0

-- The time of a topic is a whole number of nanoseconds, in place of a double of seconds; the double
-- -1 is minus one second.
abbrev pub no_time : ℤ
no_time = negsuc 999_999_999

pub record Topic : Type 0 where
  pub d : List Datum
  pub state : ℕ
  pub time_last_set : ℤ

-- Topic()
abbrev pub new_topic : Topic
new_topic = record { d = []; state = topic_nodata; time_last_set = no_time }

-- The copy constructor and the assignment: each datum of the range is copied.
unfoldable pub copy_data : List Datum → List Datum
unfolding copy
copy_data [] = []
copy_data (q ∷ qs) = copy q ∷ copy_data qs

unfoldable pub copy_topic : Topic → Topic
unfolding copy_data
copy_topic t = record { d = copy_data t.d; state = t.state; time_last_set = t.time_last_set }

-- push_back copies its argument.
unfoldable pub add : Datum → Topic → Topic
unfolding copy
add q t = record t { d = t.d ++ copy q ∷ [] }

unfoldable pub clear : Topic → Topic
clear t = record t { d = [] }

unfoldable pub size : Topic → ℕ
size t = length t.d

-- operator[]: an index out of range reads the static zero datum.
abbrev or_zero : Option Datum → Datum
or_zero none = zero_datum
or_zero (some q) = q

unfoldable pub get_item : Topic → ℤ → Datum
get_item t (pos n) = if leb (length t.d) n then zero_datum else or_zero (get_elem? t.d n)
get_item t (negsuc n) = zero_datum

unfoldable pub is_valid : Topic → Bool
is_valid t = t.state == topic_unchanged || t.state == topic_changed

-- age(); the clock is read only if data has been received.
unfoldable pub age : Topic → ℤ → ℤ
age t now = if is_negative t.time_last_set then no_time else now -ℤ t.time_last_set

-- appendToStringStream(): how the stream prints a float is the library's, `show_float`. A tag that
-- is neither prints nothing.
unfoldable pub append_to_string_stream : (ℕ → List ℕ) → Datum → List ℕ
append_to_string_stream show_float (flt f) = show_float f
append_to_string_stream show_float (str s) = s
append_to_string_stream show_float (raw n) = []

-- The loop of appendCSVToStringStream(), with the rounds left and the index: a comma after each
-- datum but the last.
append_csv_loop : (ℕ → List ℕ) → List Datum → ℕ → ℕ → List ℕ
append_csv_loop show_float d zero i = []
append_csv_loop show_float d (suc n) i =
    append_to_string_stream show_float (or_zero (get_elem? d i))
    ++ ((if ltb i (length d - 1) then b',' ∷ [] else []) ++ append_csv_loop show_float d n (i + 1))

unfoldable pub append_csv_to_string_stream : (ℕ → List ℕ) → Topic → List ℕ
unfolding append_csv_loop append_to_string_stream
append_csv_to_string_stream show_float t = append_csv_loop show_float t.d (length t.d) 0
