-- ===== src/Base/Bytes.antt =====
-- Bytes in memory: network order words, C strings, and reads through a pointer. A pointer into a
-- packet is the list of the bytes from there to the end of the packet; a read past the end is a
-- fault.
use Prim.Native.Nat.{ℕ, zero, suc, ◌+◌, ◌*◌, ◌/◌, ◌%◌, ◌^◌, ◌≤◌, ◌<◌}
use mathlib.Core.Path.{◌≡◌, refl, ap, subst}
use mathlib.Core.List.{List, [], ◌∷◌, ◌++◌}
use native.Mathlib.Omega.{arith}
use diamond_apparatus.Base.Tests.{leb, if◌then◌else◌, le→leb}
use diamond_apparatus.Base.Lists.{
  length, take, drop, length-append, All, take_left, drop_left, All-take, All-drop, length-take,
}
use diamond_apparatus.Base.Result.{Result, ok, fault, ◌>>=◌, >>=-eq-ok, ok-injective}

abbrev pub IsByte : ℕ → Type 0
IsByte b = b < 256

abbrev pub IsWord : ℕ → Type 0
IsWord n = n < 2 ^ 32

-- The memory after `*(uint32_t *)p = htonl(n)`.
unfoldable pub htonl : ℕ → List ℕ
htonl n = (n / 2 ^ 24 % 256) ∷ (n / 2 ^ 16 % 256) ∷ (n / 2 ^ 8 % 256) ∷ (n % 256) ∷ []

-- `ntohl(*(uint32_t *)p)`, and the pointer behind the word.
unfoldable pub ntohl : List ℕ → Result (ℕ × List ℕ)
ntohl (a ∷ b ∷ c ∷ d ∷ p) = ok (a * 2 ^ 24 + b * 2 ^ 16 + c * 2 ^ 8 + d, p)
ntohl _ = fault

-- `memcpy(to,p,n)`, and the pointer behind what was copied.
unfoldable pub memcpy : ℕ → List ℕ → Result (List ℕ × List ℕ)
memcpy n p = if leb n (length p) then ok (take n p, drop n p) else fault

-- A `char *` that is read as a C string: the bytes before the terminator.
unfoldable pub c_string : List ℕ → Result (List ℕ)
c_string [] = fault
c_string (zero ∷ p) = ok []
c_string (suc c ∷ p) = do s ← c_string p; ok (suc c ∷ s)

-- The string in a buffer of its own that ends with a terminator: what `strdup`, `strlen` and
-- `strcpy` see of it.
unfoldable pub until_nul : List ℕ → List ℕ
until_nul [] = []
until_nul (zero ∷ p) = []
until_nul (suc c ∷ p) = suc c ∷ until_nul p

abbrev pub IsNonzeroByte : ℕ → Type 0
IsNonzeroByte c = (0 < c) × (c < 256)

-- A C string holds no terminator.
abbrev pub IsText : List ℕ → Type 0
IsText = All IsNonzeroByte

pub length-htonl : (n : ℕ) → length (htonl n) ≡ 4
unfolding htonl
length-htonl n = refl

pub htonl-IsByte : (n : ℕ) → All IsByte (htonl n)
unfolding htonl
htonl-IsByte n = omega arith

-- A word that was stored in network order is read back.
pub ntohl-htonl : (n : ℕ) (p : List ℕ) → IsWord n → ntohl (htonl n ++ p) ≡ ok (n, p)
unfolding ntohl htonl
ntohl-htonl n p h = ap (λ m. ok (m, p)) (omega arith)

pub memcpy-append : (s p : List ℕ) → memcpy (length s) (s ++ p) ≡ ok (s, p)
unfolding memcpy
memcpy-append s p =
    ground
      (arith, le→leb (length s) (length (s ++ p)), length-append s p, take_left s p, drop_left s p)

pub c_string-append : (s p : List ℕ) → IsText s → c_string (s ++ 0 ∷ p) ≡ ok s
unfolding c_string
c_string-append [] p h = refl
c_string-append (zero ∷ s) p h = absurd (omega arith)
c_string-append (suc c ∷ s) p h = ground (arith, c_string-append s p h.1)

pub until_nul-eq : (s : List ℕ) → IsText s → until_nul s ≡ s
unfolding until_nul
until_nul-eq [] h = refl
until_nul-eq (zero ∷ s) h = absurd (omega arith)
until_nul-eq (suc c ∷ s) h = ap (λ t. suc c ∷ t) (until_nul-eq s h.1)

pub until_nul-IsText : (s : List ℕ) → All IsByte s → IsText (until_nul s)
unfolding until_nul
until_nul-IsText [] h = tt
until_nul-IsText (zero ∷ s) h = tt
until_nul-IsText (suc c ∷ s) h = ((omega arith, h.0), until_nul-IsText s h.1)

pub length-until_nul : (s : List ℕ) → length (until_nul s) ≤ length s
unfolding until_nul
length-until_nul [] = omega arith
length-until_nul (zero ∷ s) = omega arith
length-until_nul (suc c ∷ s) = omega (arith, length-until_nul s)

pub c_string-IsText : (p : List ℕ) {s : List ℕ} → All IsByte p → c_string p ≡ ok s → IsText s
unfolding c_string
c_string-IsText [] b h = cc
c_string-IsText (zero ∷ p) b h = subst IsText (ok-injective h) tt
c_string-IsText (suc c ∷ p) b h =
    let (s, e, k) = >>=-eq-ok (c_string p) _ h in
    subst IsText (ok-injective k) ((omega arith, b.0), c_string-IsText p b.1 e)

pub memcpy-IsByte :
    (n : ℕ) (p : List ℕ) {s q : List ℕ}
    → All IsByte p
    → memcpy n p ≡ ok (s, q)
    → All IsByte s × All IsByte q × (length s ≡ n)
unfolding memcpy
memcpy-IsByte n p b h =
    ground (arith, All-take IsByte n p b, All-drop IsByte n p b, length-take n p)
