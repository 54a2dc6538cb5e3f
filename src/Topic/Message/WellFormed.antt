-- ===== src/Topic/Message/WellFormed.antt =====
-- Whatever bytes arrive, what fromMessage() stores can be sent on.
use diamond_apparatus.Base.{
  ltb, ltb→lt, ◌+◌, ◌^◌, ℕ, zero, suc, ◌≡◌, ap, subst, List, [], ◌∷◌, ◌++◌, arith, length, All,
  All-append, Bool-cases, inl, inr, ◌==◌,
}
use diamond_apparatus.Base.Result.{ok, >>=-eq-ok, ok-injective}
use diamond_apparatus.Base.Bytes.{
  ntohl, memcpy, IsByte, IsWord, until_nul-IsText, length-until_nul, memcpy-IsByte,
}
use diamond_apparatus.Topic.{Datum, str, Topic, dt_float, dt_string, copy}
use diamond_apparatus.Topic.Message.{
  read_float, read_string, read_datum, read_loop, int_length, skip_name, from_message,
}
use diamond_apparatus.Topic.Message.Encode.{IsWellFormed, IsIntLength}

ntohl-IsWord :
    (p : List ℕ) {n : ℕ} {q : List ℕ} → All IsByte p → ntohl p ≡ ok (n, q) → IsWord n × All IsByte q
unfolding ntohl
ntohl-IsWord [] b h = cc
ntohl-IsWord (x ∷ []) b h = cc
ntohl-IsWord (x ∷ y ∷ []) b h = cc
ntohl-IsWord (x ∷ y ∷ z ∷ []) b h = cc
ntohl-IsWord (x ∷ y ∷ z ∷ w ∷ p) b h =
    let e = ok-injective h in
    (subst IsWord (ap (λ r. r.0) e) (omega arith), subst (All IsByte) (ap (λ r. r.1) e) b.1.1.1.1)

copy-string-IsWellFormed :
    (s : List ℕ) → All IsByte s → IsIntLength (length s) → IsWellFormed (copy (str s))
unfolding copy
copy-string-IsWellFormed s b h = (until_nul-IsText s b, omega (arith, length-until_nul s))

-- What a read of one item delivers: a datum that is well formed once it is pushed, and the bytes
-- behind it.
abbrev Delivers : Datum × List ℕ → Type 0
Delivers (t, q) = IsWellFormed (copy t) × All IsByte q

read_float-Delivers :
    (p : List ℕ) {r : Datum × List ℕ} → All IsByte p → read_float p ≡ ok r → Delivers r
unfolding read_float
read_float-Delivers p b h =
    let ((f, q), e, k) = >>=-eq-ok (ntohl p) _ h in
    subst Delivers (ok-injective k) (unfold copy in ntohl-IsWord p b e)

int_length-IsIntLength : (n : ℕ) {m : ℕ} → int_length n ≡ ok m → IsIntLength m
unfolding int_length
int_length-IsIntLength n h = elim (Bool-cases (ltb (n + 1) (2 ^ 31))) [
  | inl e ↦ subst IsIntLength (ok-injective (rw e at h)) (omega (arith, ltb→lt (n + 1) (2 ^ 31) e))
  | inr e ↦ absurd (let k = rw e at h in cc)
]

read_string-Delivers :
    (p : List ℕ) {r : Datum × List ℕ} → All IsByte p → read_string p ≡ ok r → Delivers r
unfolding read_string
read_string-Delivers p b h =
    let ((len, q), e, k) = >>=-eq-ok (ntohl p) _ h in
    let (len', el, kl) = >>=-eq-ok (int_length len) _ k in
    let ((s, q'), e', k') = >>=-eq-ok (memcpy len' q) _ kl in
    let small : IsIntLength len' = int_length-IsIntLength len el in
    let (w, bq) = ntohl-IsWord p b e in
    let (bs, bq', l) = memcpy-IsByte len' q bq e' in
    subst Delivers (ok-injective k') (copy-string-IsWellFormed s bs (omega arith), bq')

read_datum-Delivers :
    (p : List ℕ) {r : Datum × List ℕ} → All IsByte p → read_datum p ≡ ok r → Delivers r
unfolding read_datum
read_datum-Delivers [] b h = cc
read_datum-Delivers (c ∷ p) b h = elim (Bool-cases (c == dt_float)) [
  | inl e ↦ read_float-Delivers p b.1 (rw e at h)
  | inr e ↦ elim (Bool-cases (c == dt_string)) [
    | inl e' ↦ read_string-Delivers p b.1 (rw (e, e') at h)
    | inr e' ↦ absurd (let k = rw (e, e') at h in cc)
  ]
]

read_loop-IsWellFormed :
    (n : ℕ) (d : List Datum) (p : List ℕ) {r : List Datum}
    → All IsWellFormed d
    → All IsByte p
    → read_loop n d p ≡ ok r
    → All IsWellFormed r
unfolding read_loop
read_loop-IsWellFormed zero d p w b h = subst (All IsWellFormed) (ok-injective h) w
read_loop-IsWellFormed (suc n) d p w b h =
    let ((t, q), e, k) = >>=-eq-ok (read_datum p) _ h in
    let (wt, bq) = read_datum-Delivers p b e in
    read_loop-IsWellFormed n (d ++ copy t ∷ []) q
      (All-append IsWellFormed d (copy t ∷ []) w (wt, tt)) bq k

skip_name-IsByte : (p : List ℕ) {q : List ℕ} → All IsByte p → skip_name p ≡ ok q → All IsByte q
unfolding skip_name
skip_name-IsByte [] b h = cc
skip_name-IsByte (n ∷ p) b h =
    let ((name, q), e, k) = >>=-eq-ok (memcpy n p) _ h in
    subst (All IsByte) (ok-injective k) (memcpy-IsByte n p b.1 e).1

-- Whatever bytes a packet holds, if fromMessage() returns then every item of the topic is a float of
-- 32 bits or a C string, so that toMessage() can send the topic on.
pub from_message-IsWellFormed :
    (p : List ℕ) (t : Topic) {t' : Topic}
    → All IsByte p
    → from_message p t ≡ ok t'
    → All IsWellFormed t'.d
unfolding from_message
from_message-IsWellFormed p t b h =
    let ((msg, p1), e1, k1) = >>=-eq-ok (ntohl p) _ h in
    let b1 = (ntohl-IsWord p b e1).1 in
    let ((count, p2), e2, k2) = >>=-eq-ok (ntohl p1) _ k1 in
    let b2 = (ntohl-IsWord p1 b1 e2).1 in
    let (p3, e3, k3) = >>=-eq-ok (skip_name p2) _ k2 in
    let (d, e4, k4) = >>=-eq-ok (read_loop count [] p3) _ k3 in
    subst (λ (r : Topic). All IsWellFormed r.d) (ok-injective k4)
      (read_loop-IsWellFormed count [] p3 tt (skip_name-IsByte p2 b2 e3) e4)
