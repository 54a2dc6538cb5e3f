-- ===== src/Tcp/Receive/Spends.antt =====
-- A call of update() that returns true has read something.
use diamond_apparatus.Base.{
  ℕ, zero, suc, ◌-◌, ◌≤◌, ◌<◌, ◌≡◌, refl, ap, sym, subst, false, Option, none, some, List, [], ◌∷◌,
  arith, length, length-append, length-drop, drop, Bool-cases, if◌then◌else◌, ◌⊎◌, inl, inr,
}
use diamond_apparatus.Tcp.Receive.{
  Event, chunk, failure, Read, got, minus_one, read, TcpReceiver, Loop, Flow, on, leave, deliver,
  round, data_phase, first_phase, second_part, then_flow, force_check, data_read, size_phase,
  Update, update_loop, update, update_fuel, bytes_of,
}

abbrev ReadSpends : ℕ → Read × List Event → Type 0
ReadSpends n (got [], net) = length (bytes_of net) ≤ n
ReadSpends n (got (b ∷ bs), net) = length (bytes_of net) < n
ReadSpends n (minus_one, net) = length (bytes_of net) ≤ n

read-ReadSpends : (k : ℕ) (net : List Event) → ReadSpends (length (bytes_of net)) (read k net)
unfolding read
read-ReadSpends k [] = omega arith
read-ReadSpends k (failure ∷ net) = omega arith
read-ReadSpends k (chunk [] ∷ net) = ground arith
read-ReadSpends zero (chunk (b ∷ bs) ∷ net) = ground arith
read-ReadSpends (suc k) (chunk (b ∷ bs) ∷ net) = ground (
  arith,
  length-append (drop k bs) (bytes_of net),
  length-append bs (bytes_of net),
  length-drop k bs,
)

-- From the beginning of the call, with `n` bytes to come: either nothing has been read and `rv` is
-- false, or less than `n` is left.
abbrev IsSpent : ℕ → Loop → Type 0
IsSpent n l = ((l.rv ≡ false) × (length (bytes_of l.net) ≤ n)) ⊎ (length (bytes_of l.net) < n)

abbrev Spends : ℕ → Flow → Type 0
Spends n (on l) = IsSpent n l
Spends n (leave b l) = (b ≡ false) ⊎ (length (bytes_of l.net) < n)
Spends n (deliver p l) = length (bytes_of l.net) < n

size_phase-Spends :
    (n : ℕ) (x : Read × List Event) (l : Loop)
    → IsSpent n l
    → ReadSpends (length (bytes_of l.net)) x
    → Spends n (size_phase x l)
unfolding size_phase
size_phase-Spends n (got [], net) l h r = ground arith
size_phase-Spends n (got (b ∷ bs), net) l h r = ground arith
size_phase-Spends n (minus_one, net) l h r = ground arith

force_check-Spends : (n : ℕ) (l : Loop) → IsSpent n l → Spends n (force_check l)
force_check-Spends n l h = elim (Bool-cases l.r.is_force_exit) [
  | inl e ↦ rw e (inl refl)
  | inr e ↦ subst (Spends n) (sym (ap (λ b. if b then leave false l else on l) e)) h
]

data_read-Spends :
    (n : ℕ) (buf : List ℕ) (x : Read × List Event) (l : Loop)
    → IsSpent n l
    → ReadSpends (length (bytes_of l.net)) x
    → Spends n (data_read buf x l)
unfolding data_read
data_read-Spends n buf (got [], net) l h r = ground arith
data_read-Spends n buf (got (b ∷ bs), net) l h r = ground arith
data_read-Spends n buf (minus_one, net) l h r = ground arith

then_force : (n : ℕ) (f : Flow) → Spends n f → Spends n (then_flow f force_check)
then_force n (on l) h = force_check-Spends n l h
then_force n (leave b l) h = h
then_force n (deliver p l) h = h

second_part-Spends :
    (n : ℕ) (o : Option (List ℕ)) (l : Loop)
    → IsSpent n l
    → Spends n (then_flow (data_phase o l) force_check)
unfolding data_phase
second_part-Spends n none l h = force_check-Spends n l h
second_part-Spends n (some buf) l h =
    then_force n _
      (data_read-Spends n buf _ l h (read-ReadSpends (l.r.recvsize - l.r.recvct) l.net))

then_second : (n : ℕ) (f : Flow) → Spends n f → Spends n (then_flow f second_part)
then_second n (on l) h = second_part-Spends n l.r.recvdata l h
then_second n (leave b l) h = h
then_second n (deliver p l) h = h

first_phase-Spends :
    (n : ℕ) (o : Option (List ℕ)) (l : Loop) → IsSpent n l → Spends n (first_phase o l)
unfolding first_phase
first_phase-Spends n none l h = size_phase-Spends n _ l h (read-ReadSpends (4 - l.r.recvct) l.net)
first_phase-Spends n (some buf) l h = h

round-Spends : (n : ℕ) (l : Loop) → IsSpent n l → Spends n (round l)
unfolding round
round-Spends n l h = then_second n _ (first_phase-Spends n l.r.recvdata l h)

-- What the end of a call comes to.
abbrev SpendsAll : ℕ → Option Update → Type 0
SpendsAll n none = Unit {0}
SpendsAll n (some u) = (u.returned ≡ false) ⊎ (length (bytes_of u.events) < n)

by_flow :
    (n fuel : ℕ) (l : Loop) (f : Flow)
    → round l ≡ f
    → Spends n f
    → ((m : Loop) → IsSpent n m → SpendsAll n (update_loop fuel m))
    → SpendsAll n (update_loop (suc fuel) l)
unfolding update_loop
by_flow n fuel l (on m) e s ih = rw (e, update_loop) (ih m s)
by_flow n fuel l (leave b m) e s ih = rw (e, update_loop) s
by_flow n fuel l (deliver q m) e s ih = rw (e, update_loop) (inr s)

update_loop-Spends : (n fuel : ℕ) (l : Loop) → IsSpent n l → SpendsAll n (update_loop fuel l)
update_loop-Spends n zero l h = unfold update_loop in tt
update_loop-Spends n (suc fuel) l h =
    by_flow n fuel l (round l) refl (round-Spends n l h) (update_loop-Spends n fuel)

pub update-Spends :
    (r : TcpReceiver) (net : List Event) {u : Update}
    → update r net ≡ some u
    → (u.returned ≡ false) ⊎ (length (bytes_of u.events) < length (bytes_of net))
unfolding update
update-Spends r net e =
    subst (SpendsAll (length (bytes_of net))) e
      (update_loop-Spends (length (bytes_of net)) (update_fuel net) _ (inl (refl, omega arith)))
