-- ===== src/Program.antt =====
-- main.cpp and mainc.c: what the command line programs share. A program has a state of the library
-- and an output; its arguments become the items of a topic, and a topic a line of the output. The
-- printing of numbers and atof() are parameters.
use diamond_apparatus.Base.{
  ℕ, zero, suc, ◌+◌, ◌-◌, Bool, true, false, Option, none, some, List, [], ◌∷◌, ◌++◌, map, ltb,
  ◌==◌, if◌then◌else◌,
}
use diamond_apparatus.Base.Order.{nat_ord, bytes_ord}
use diamond_apparatus.Base.Result.{ok, throws, fault, Exception}
use diamond_apparatus.Topic.{Topic, flt, add, of_string, append_csv_to_string_stream}
use diamond_apparatus.Client.Library.{Attempt}

-- The statics that the options set.
pub record Options : Type 0 where
  pub daemonize_server : Bool
  pub listen_headers : Bool
  pub replace_slash : Bool

abbrev pub default_options : Options
default_options = record { daemonize_server = false; listen_headers = true; replace_slash = false }

-- The switch over an option.
unfoldable pub set_option : ℕ → Options → Options
set_option c o =
    if c == b'd'
    then record o { daemonize_server = true }
    else (if c == b'h'
        then record o { listen_headers = false }
        else (if c == b's' then record o { replace_slash = true } else o))

unfoldable pub set_options : List ℕ → Options → Options
unfolding set_option
set_options [] o = o
set_options (c ∷ cs) o = set_options cs (set_option c o)

-- The C library: how printf() and the stream print numbers, and atof(), as a float's bit pattern.
pub record Numbers : Type 0 where
  pub show_int : ℕ → List ℕ
  pub show_float : ℕ → List ℕ
  pub atof : List ℕ → ℕ

-- The program, with its output.
pub record Process {ℓ} (W : Type ℓ) : Type ℓ where
  pub world : W
  pub out : List ℕ

-- How a part of the program goes on: behind it, with an exception, with exit(), or not defined.
pub data Flow {ℓ} (W : Type ℓ) : Type ℓ where
  runs : Process W → Flow W
  threw : Exception → Process W → Flow W
  exits : ℕ → Process W → Flow W
  crashes : Flow W

-- A negative number is given with a leading n.
unfoldable pub with_sign : List ℕ → List ℕ
with_sign [] = []
with_sign (c ∷ s) = if c == b'n' then b'-' ∷ s else c ∷ s

-- `/` is replaced by `.` for the header.
unfoldable pub dotted : List ℕ → List ℕ
dotted s = map (λ c. if c == b'/' then b'.' else c) s

module _ (num : Numbers) where
  -- What a type character makes of the next value.
  unfoldable pub take_item : ℕ → List ℕ → List (List ℕ) → Topic → List (List ℕ) × Topic
  take_item c x xs t =
      if c == b'f'
      then (xs, add (flt (num.atof (with_sign x))) t)
      else (if c == b's' then (xs, add (of_string x) t) else (x ∷ xs, t))

  -- The loop of pub over the types and the values; `none` is usagepanic().
  unfoldable pub pub_loop : List ℕ → List (List ℕ) → Topic → Option Topic
  pub_loop [] args t = some t
  pub_loop (c ∷ types) [] t = none
  pub_loop (c ∷ types) (x ∷ xs) t = let (args, t') = take_item c x xs t in pub_loop types args t'

  -- The header of listen, from an index on, with the rounds left.
  unfoldable pub header_loop : List ℕ → ℕ → ℕ → ℕ → List ℕ
  header_loop name n zero i = []
  header_loop name n (suc k) i =
      name
      ++ (num.show_int i ++ ((if ltb i (n - 1) then b',' else 10) ∷ header_loop name n k (i + 1)))

  unfoldable pub dump : Topic → List ℕ
  dump t = append_csv_to_string_stream num.show_float t ++ 10 ∷ []

module _ {ℓ} {W : Type ℓ} where
  abbrev pub then_run : Flow W → (Process W → Flow W) → Flow W
  then_run (runs p) next = next p
  then_run (threw e p) next = threw e p
  then_run (exits n p) next = exits n p
  then_run crashes next = crashes

  abbrev pub print : List ℕ → Process W → Process W
  print s p = record p { out = p.out ++ s }

  -- A call of the library.
  abbrev pub call : Attempt (Unit {0}) W → Process W → Flow W
  call (ok u, w) p = runs (record p { world = w })
  call (throws e, w) p = threw e (record p { world = w })
  call (fault, w) p = crashes

  abbrev pub call_get : Attempt Topic W → Process W → (Topic → Process W → Flow W) → Flow W
  call_get (ok t, w) p next = next t (record p { world = w })
  call_get (throws e, w) p next = threw e (record p { world = w })
  call_get (fault, w) p next = crashes

  abbrev pub usagepanic : Process W → Flow W
  usagepanic p = exits 1 p
