-- ===== src/Client/Races/Safety.antt =====
-- The threads of a client follow no pointer to a topic that is not there.
use diamond_apparatus.Base.{ℕ, ◌≡◌, Bool, true, false}
use diamond_apparatus.Base.Order.{nat_ord, bytes_ord}
use diamond_apparatus.Base.Result.{Result, ok}
use diamond_apparatus.Map
use diamond_apparatus.Client.{Client}
use diamond_apparatus.Client.Get.{Get}
use diamond_apparatus.Client.Owned.{IsOwned, Grows}
use diamond_apparatus.Client.Races.{waits_any, gets, User, enters, asleep, asleep_any, System}

-- A get() that sleeps holds a pointer to a cell.
abbrev IsUser : Client → User → Type 0
IsUser c (asleep phase cell n) = Map.has cell c.heap ≡ true
IsUser c _ = Unit {0}

record IsSafe (s : System) : Type 0 where
  owned : IsOwned s.client
  users : (i : ℕ) → IsUser s.client (s.users i)

-- A state and a user that a step may come to.
abbrev Kept : Client → User × Client → Type 0
Kept c (u, d) = Grows c d × IsUser d u

-- A thread that is in get(), before its lock() or in its wait, or in waitForAny().
abbrev pub is_getting : User → Bool
is_getting (enters (gets n wait)) = true
is_getting (enters waits_any) = true
is_getting (asleep phase cell n) = true
is_getting asleep_any = true
is_getting _ = false

-- A part of a call that returns or sleeps.
abbrev Resumes : Result (User × Client) → Type 0
Resumes r = (x : User × Client) × (r ≡ ok x)
