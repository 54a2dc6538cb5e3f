-- ===== src/Base/Result.antt =====
-- How a call ends: with a value, with a DiamondException (each message is a constructor), or with
-- a memory access outside its object, which C++ leaves undefined.
use mathlib.Core.Path.{◌≡◌, refl, subst}
use mathlib.Core.Option.{Option, none, some}
use mathlib.Core.Bool.{Bool, true, false}
use mathlib.Core.Logic.{◌≢◌}
use diamond_apparatus.Base.Tests.{if◌then◌else◌}

-- The texts given to the constructor of DiamondException, in the order of the source.
pub data Exception : Type 0 where
  bad_data bad_data_in_from_message : Exception
  set_reuse_failed cannot_send cannot_open_socket cannot_find_hostname error_connecting : Exception
  cannot_bind select_failed accept_failed : Exception
  cannot_call_respond cannot_call_getfd not_connected : Exception

pub data Result {ℓ} (A : Type ℓ) : Type ℓ where
  ok : A → Result A
  throws : Exception → Result A
  fault : Result A

infixl 5 ◌>>=◌
abbrev pub ◌>>=◌ {ℓ κ} : {A : Type ℓ} {B : Type κ} → Result A → (A → Result B) → Result B
ok a >>= f = f a
throws e >>= f = throws e
fault >>= f = fault

abbrev pub or_fault {ℓ} : {A : Type ℓ} → Option A → Result A
or_fault none = fault
or_fault (some a) = ok a

abbrev pub or_throw {ℓ} : {A : Type ℓ} → Option A → Exception → Result A
or_throw none e = throws e
or_throw (some a) e = ok a

-- What holds of the value, if there is one.
abbrev pub Ensures {ℓ κ} : {A : Type ℓ} → (A → Type κ) → Result A → Type κ
Ensures P (ok a) = P a
Ensures P (throws e) = Unit {_}
Ensures P fault = Unit {_}

-- A sequence returns only if both its steps do.
pub >>=-eq-ok {ℓ κ} :
    {A : Type ℓ} {B : Type κ} (first : Result A) (next : A → Result B) {y : B}
    → (first >>= next) ≡ ok y
    → (x : A) × (first ≡ ok x) × (next x ≡ ok y)
>>=-eq-ok fault next h = cc
>>=-eq-ok (throws e) next h = cc
>>=-eq-ok (ok x) next h = (x, refl, h)

pub ok-injective {ℓ} : {A : Type ℓ} {a b : A} → ok a ≡ ok b → a ≡ b
ok-injective h = cc

pub Ensures-bind {ℓ κ μ ν} :
    {A : Type ℓ} {B : Type κ} (P : A → Type μ) (Q : B → Type ν) (m : Result A) (f : A → Result B)
    → Ensures P m
    → ((a : A) → P a → Ensures Q (f a))
    → Ensures Q (m >>= f)
Ensures-bind P Q (ok a) f h k = k a h
Ensures-bind P Q (throws e) f h k = tt
Ensures-bind P Q fault f h k = tt

-- Where nothing need be known of the value.
pub Ensures-any {ℓ κ ν} :
    {A : Type ℓ} {B : Type κ} (Q : B → Type ν) (m : Result A) (f : A → Result B)
    → ((a : A) → Ensures Q (f a))
    → Ensures Q (m >>= f)
Ensures-any Q (ok a) f k = k a
Ensures-any Q (throws e) f k = tt
Ensures-any Q fault f k = tt

-- Two things that hold of a result hold together.
pub Ensures-both {ℓ κ μ} :
    {A : Type ℓ} (P : A → Type κ) (Q : A → Type μ) (r : Result A)
    → Ensures P r
    → Ensures Q r
    → Ensures (λ a. P a × Q a) r
Ensures-both P Q (ok a) p q = (p, q)
Ensures-both P Q (throws e) p q = tt
Ensures-both P Q fault p q = tt

pub Ensures-mono {ℓ κ μ} :
    {A : Type ℓ} (P : A → Type κ) (Q : A → Type μ) (r : Result A)
    → Ensures P r
    → ((a : A) → P a → Q a)
    → Ensures Q r
Ensures-mono P Q (ok a) p f = f a p
Ensures-mono P Q (throws e) p f = tt
Ensures-mono P Q fault p f = tt

-- From a call that is known to return.
pub Ensures-ok {ℓ κ} :
    {A : Type ℓ} (P : A → Type κ) {r : Result A} {a : A} → r ≡ ok a → Ensures P r → P a
Ensures-ok P e h = subst (Ensures P) e h

-- A call that does not throw a certain exception, and what holds of its value.
abbrev pub Avoids {ℓ} : {A : Type ℓ} → Exception → (A → Type 0) → Result A → Type 0
Avoids bad P (ok a) = P a
Avoids bad P (throws e) = e ≢ bad
Avoids bad P fault = Unit {0}

pub Avoids-bind {ℓ κ} :
    {A : Type ℓ} {B : Type κ} (bad : Exception) (P : A → Type 0) (Q : B → Type 0) (m : Result A)
    (f : A → Result B)
    → Avoids bad P m
    → ((a : A) → P a → Avoids bad Q (f a))
    → Avoids bad Q (m >>= f)
Avoids-bind bad P Q (ok a) f h k = k a h
Avoids-bind bad P Q (throws e) f h k = h
Avoids-bind bad P Q fault f h k = tt

-- Where nothing need be known of the value.
abbrev pub Whatever {ℓ} : {A : Type ℓ} → A → Type 0
Whatever a = Unit {0}

-- A sequence whose first step only returns or leaves its object.
pub Avoids-any {ℓ κ} :
    {A : Type ℓ} {B : Type κ} (bad : Exception) (Q : B → Type 0) (m : Result A) (f : A → Result B)
    → Avoids bad Whatever m
    → ((a : A) → Avoids bad Q (f a))
    → Avoids bad Q (m >>= f)
Avoids-any bad Q m f h k = Avoids-bind bad Whatever Q m f h λ a u. k a

pub Avoids-Whatever {ℓ} :
    {A : Type ℓ} (bad : Exception) (P : A → Type 0) (m : Result A)
    → Avoids bad P m
    → Avoids bad Whatever m
Avoids-Whatever bad P (ok a) h = tt
Avoids-Whatever bad P (throws e) h = h
Avoids-Whatever bad P fault h = tt

-- A test, whose one side is a fault.
pub Avoids-guard {ℓ} :
    {A : Type ℓ} (bad : Exception) (b : Bool) (a : A)
    → Avoids bad Whatever (if b then ok a else fault)
Avoids-guard bad true a = tt
Avoids-guard bad false a = tt

-- A call that returns, and what holds of its value.
abbrev pub Succeeds {ℓ} : {A : Type ℓ} → (A → Type 0) → Result A → Type 0
Succeeds P (ok a) = P a
Succeeds P (throws e) = ⊥
Succeeds P fault = ⊥

pub Succeeds-bind {ℓ κ} :
    {A : Type ℓ} {B : Type κ} (P : A → Type 0) (Q : B → Type 0) (m : Result A) (f : A → Result B)
    → Succeeds P m
    → ((a : A) → P a → Succeeds Q (f a))
    → Succeeds Q (m >>= f)
Succeeds-bind P Q (ok a) f h k = k a h
Succeeds-bind P Q (throws e) f h k = absurd h
Succeeds-bind P Q fault f h k = absurd h

pub Succeeds-ok {ℓ} :
    {A : Type ℓ} (P : A → Type 0) (r : Result A) → Succeeds P r → (a : A) × (r ≡ ok a) × P a
Succeeds-ok P (ok a) h = (a, refl, h)
Succeeds-ok P (throws e) h = absurd h
Succeeds-ok P fault h = absurd h
