-- ===== src/Exceptions.antt =====
-- diamondapparatus.h: DiamondException, whose text stands in an array of 256 bytes, and what() makes
-- a message in another one. strerror() is the C library's, and so is a parameter.
pub mod Tests
use diamond_apparatus.Base.{
  ℕ, zero, suc, ◌+◌, ◌-◌, ◌≤◌, ◌<◌, ◌≡◌, refl, ap, sym, ◌∙◌, Bool, All-take, length-take, true,
  false, List, [], ◌∷◌, ◌++◌, arith, length, length-append, take, drop, take_all, take_left,
  append_assoc, leb, le→leb, All, if◌then◌else◌, ◌==◌,
}
use diamond_apparatus.Base.Int.{ℤ, pos, negsuc}
use diamond_apparatus.Base.Text.{codes}
use diamond_apparatus.Base.Result.{
  Result, ok, fault, ◌>>=◌, Exception, bad_data, bad_data_in_from_message, set_reuse_failed,
  cannot_send, cannot_open_socket, cannot_find_hostname, error_connecting, cannot_bind,
  select_failed, accept_failed, cannot_call_respond, cannot_call_getfd, not_connected,
}
use diamond_apparatus.Base.Bytes.{IsText, c_string, c_string-append, until_nul, until_nul-eq}

-- The arguments of the throw expressions.
abbrev pub text : Exception → List ℕ
text bad_data = codes "bad data"
text bad_data_in_from_message = codes "bad data in fromMessage"
text set_reuse_failed = codes "set reuse failed"
text cannot_send = codes "cannot send"
text cannot_open_socket = codes "cannot open socket"
text cannot_find_hostname = codes "cannot find hostname"
text error_connecting = codes "error connecting"
text cannot_bind = codes "cannot bind"
text select_failed = codes "select failed"
text accept_failed = codes "accept failed"
text cannot_call_respond = codes "cannot call respond() outside process()"
text cannot_call_getfd = codes "cannot call getfd() outside process()"
text not_connected = codes "not connected"

abbrev pub str_size : ℕ
str_size = 256

-- The array `str` is all its bytes.
pub record DiamondException : Type 0 where
  pub err : ℤ
  pub str : List ℕ

abbrev zeros : ℕ → List ℕ
zeros zero = []
zeros (suc n) = 0 ∷ zeros n

-- strncpy(): the string, cut off or filled up with terminators.
unfoldable pub strncpy : ℕ → List ℕ → List ℕ
strncpy n s = take n (until_nul s ++ zeros n)

-- The constructor with a text: `errno` is what it was when the exception was made.
unfoldable pub make : ℕ → List ℕ → DiamondException
make errno s = record { err = pos errno; str = take (str_size - 1) (strncpy str_size s) ++ 0 ∷ [] }

-- The constructor without one; `junk` is what stood in the memory.
unfoldable pub make_empty : List ℕ → DiamondException
make_empty junk = record { err = negsuc 0; str = 0 ∷ drop 1 junk }

-- strcpy() into an array of 256 bytes, which held `junk`.
unfoldable pub strcpy : List ℕ → List ℕ → Result (List ℕ)
strcpy junk p = do
  s ← c_string p
  if leb (length s + 1) str_size then ok (s ++ 0 ∷ drop (length s + 1) junk) else fault

-- The copy constructor, which a handler that catches by value runs.
unfoldable pub copy : List ℕ → DiamondException → Result DiamondException
copy junk e = do str ← strcpy junk e.str; ok (record { err = e.err; str = str })

-- sprintf() into an array of 256 bytes.
unfoldable pub sprintf : List ℕ → Result (List ℕ)
sprintf s = if leb (length s + 1) str_size then ok s else fault

abbrev pub no_error : ℤ → Bool
no_error (pos n) = n == 0
no_error (negsuc n) = false

module _ (strerror : ℤ → List ℕ) where
  abbrev pub message : ℤ → List ℕ → List ℕ
  message err s = if no_error err then s else s ++ codes ": " ++ strerror err

  unfoldable pub what : DiamondException → Result (List ℕ)
  what e = do s ← c_string e.str; sprintf (message e.err s)

-- The array holds a string of at most 255 bytes.
abbrev Holds : List ℕ → List ℕ → Type 0
Holds s str = IsText s × (length s < str_size) × ((rest : List ℕ) × (str ≡ s ++ 0 ∷ rest))

cut :
    (n k : ℕ) (s : List ℕ)
    → (rest : List ℕ) × (take n (take (suc n) (s ++ zeros k)) ++ 0 ∷ [] ≡ take n s ++ 0 ∷ rest)
cut zero k s = ([], refl)
cut (suc n) zero [] = ([], refl)
cut (suc n) (suc k) [] = (take n (take (suc n) (zeros k)) ++ 0 ∷ [], refl)
cut (suc n) k (c ∷ s) = let (rest, e) = cut n k s in (rest, ap (λ xs. c ∷ xs) e)

make-Holds : (errno : ℕ) (s : List ℕ) → IsText s → Holds (take (str_size - 1) s) (make errno s).str
unfolding make strncpy
make-Holds errno s v =
    let (rest, e) = cut 255 256 s in
    (
      All-take _ 255 s v,
      omega (arith, length-take 255 s),
      (rest, ap (λ t. take 255 (take 256 (t ++ zeros 256)) ++ 0 ∷ []) (until_nul-eq s v) ∙ e),
    )

Holds-read : (s str : List ℕ) → Holds s str → c_string str ≡ ok s
Holds-read s str (v, small, (rest, e)) = rw e (c_string-append s rest v)

-- A copy holds the same string.
copy-Holds :
    (junk s : List ℕ) (e : DiamondException)
    → Holds s e.str
    → (e' : DiamondException) × (copy junk e ≡ ok e') × (e'.err ≡ e.err) × Holds s e'.str
unfolding copy strcpy
copy-Holds junk s e (v, small, held) = (
  record { err = e.err; str = s ++ 0 ∷ drop (length s + 1) junk },
  rw (Holds-read s e.str (v, small, held), le→leb (length s + 1) str_size (omega arith)) refl,
  refl,
  (v, small, (drop (length s + 1) junk, refl)),
)

text-IsText : (x : Exception) → IsText (text x) × (length (text x) ≤ 39)
text-IsText bad_data = (omega arith, omega arith)
text-IsText bad_data_in_from_message = (omega arith, omega arith)
text-IsText set_reuse_failed = (omega arith, omega arith)
text-IsText cannot_send = (omega arith, omega arith)
text-IsText cannot_open_socket = (omega arith, omega arith)
text-IsText cannot_find_hostname = (omega arith, omega arith)
text-IsText error_connecting = (omega arith, omega arith)
text-IsText cannot_bind = (omega arith, omega arith)
text-IsText select_failed = (omega arith, omega arith)
text-IsText accept_failed = (omega arith, omega arith)
text-IsText cannot_call_respond = (omega arith, omega arith)
text-IsText cannot_call_getfd = (omega arith, omega arith)
text-IsText not_connected = (omega arith, omega arith)

-- A handler may copy the exception, and the one that saves it may again.
abbrev pub copies : List (List ℕ) → DiamondException → Result DiamondException
copies [] e = ok e
copies (junk ∷ junks) e = copy junk e >>= copies junks

module _ (strerror : ℤ → List ℕ) where
  what-Holds :
      (s : List ℕ) (e : DiamondException)
      → Holds s e.str
      → what strerror e ≡ sprintf (message strerror e.err s)
  unfolding what
  what-Holds s e h = rw (Holds-read s e.str h) refl

  copies-what :
      (junks : List (List ℕ)) (s : List ℕ) (e : DiamondException)
      → Holds s e.str
      → (copies junks e >>= what strerror) ≡ sprintf (message strerror e.err s)
  copies-what [] s e h = what-Holds s e h
  copies-what (junk ∷ junks) s e h =
      let (e', copied, same_err, held) = copy-Holds junk s e h in
      rw copied
        (copies-what junks s e' held ∙ ap (λ err. sprintf (message strerror err s)) same_err)

  -- What what() makes of an exception that was made with a text, a C string, after any number of
  -- copies, whatever stood in the memory of these: the first 255 bytes of the text and, if errno was
  -- not 0, the system's message behind it; where these do not fit into the 256 bytes of its array,
  -- terminator included, the write leaves the array.
  pub make-copies-what :
      (errno : ℕ) (s : List ℕ) (junks : List (List ℕ))
      → IsText s
      → (copies junks (make errno s) >>= what strerror) ≡ (
          let m = message strerror (pos errno) (take 255 s) in
          if leb (length m + 1) 256 then ok m else fault)
  unfolding make sprintf
  make-copies-what errno s junks v =
      copies-what junks (take 255 s) (make errno s) (make-Holds errno s v)

  -- Every exception of the library, while no message of the system has more than 214 bytes: what()
  -- stays inside its array, and makes the text of the throw expression and the system's message.
  pub what-text :
      (errno : ℕ) (x : Exception) (junks : List (List ℕ))
      → length (strerror (pos errno)) ≤ 214
      → (copies junks (make errno (text x)) >>= what strerror)
        ≡ ok (message strerror (pos errno) (text x))
  what-text errno x junks h =
      let (v, short) = text-IsText x in
      let whole : take 255 (text x) ≡ text x = take_all 255 (text x) (omega arith) in
      rw (make-copies-what errno (text x) junks v, whole)
        (ground (arith, length-append (text x) (58 ∷ 32 ∷ strerror (pos errno))))
