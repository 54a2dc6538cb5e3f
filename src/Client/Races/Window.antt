-- ===== src/Client/Races/Window.antt =====
-- The time between the test of `running` and the lock(), against the end of the client's thread.
use diamond_apparatus.Base.{ℕ, ◌≡◌, ap, ◌∙◌, true, some, ◌==◌, if_true, arith}
use diamond_apparatus.Base.Order.{nat_ord, bytes_ord}
use diamond_apparatus.Base.Result.{fault}
use diamond_apparatus.Map
use diamond_apparatus.Topic.Message.{Allocator}
use diamond_apparatus.Client.{Name}
use diamond_apparatus.Client.Races.{
  gets, idle, enters, loops, deleted, System, get_entered, body, resume, resumed, deletes, calls,
  Reached, after,
}

-- The window: a thread has entered get() of a topic that is in the map, and the object has gone.
abbrev entered : ℕ → Name → ℕ → System → System
entered i n wait s = resumed i (enters (gets n wait), s.client) s

abbrev gone : System → System
gone s = record s { thread = deleted }

entered-there :
    (i : ℕ) (n : Name) (wait : ℕ) (s : System) → (entered i n wait s).users i ≡ enters (gets n wait)
entered-there i n wait s = if_true (enters (gets n wait)) (s.users i) (same i)
  where
    same : (i : ℕ) → (i == i) ≡ true
    same i = ground arith

gone-faults :
    (a : Allocator) (n : Name) (wait cell : ℕ) (s : System)
    → s.client.synced ≡ true
    → Map.find n s.client.topics ≡ some cell
    → resume a (enters (gets n wait)) (gone s) ≡ fault
unfolding resume body get_entered
gone-faults a n wait cell s there found =
    if_true _ _ there ∙ ap (λ o. get_entered n wait o (gone s)) found

-- From any state that the threads have come to, with the client's thread in its loop, the mutex
-- there, the client running and subscribed to a topic, and a user's thread outside the library,
-- there is a state that they can come to, with the client running still, in which that thread is in
-- get() of the topic, behind its test of running and before its lock(), and its next step is a use
-- of the object that has been deleted.
pub resume-deleted :
    (a : Allocator) (s0 s : System) (i : ℕ) (n : Name) (wait cell : ℕ)
    → Reached a s0 s
    → s.thread ≡ loops
    → s.client.synced ≡ true
    → s.client.running ≡ true
    → Map.find n s.client.topics ≡ some cell
    → s.users i ≡ idle
    → (t : System) × (Reached a s0 t)
      × (t.client.running ≡ true)
      × (t.users i ≡ enters (gets n wait))
      × (resume a (t.users i) t ≡ fault)
resume-deleted a s0 s i n wait cell r living mutex running found outside =
    let t = entered i n wait s in
    let there = entered-there i n wait s in
    (
      gone t,
      after (after r (calls i (gets n wait) outside running)) (deletes living),
      running,
      there,
      ap (λ u. resume a u (gone t)) there ∙ gone-faults a n wait cell t mutex found,
    )
