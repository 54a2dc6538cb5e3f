-- ===== src/Client/Races.antt =====
-- client.cpp: the thread that takes packets and any number of the user's threads, interleaved. A
-- function looks at `running` before it takes the mutex, so others go on in between; a get() that
-- waits gives the mutex away, so they go on until it wakes, which may be at any time. When the
-- client's thread ends, it deletes the client's object, and only then clears `running`, without the
-- mutex.
pub mod Safety
pub mod Window
use diamond_apparatus.Base.{
  ℕ, ◌≡◌, Bool, true, false, Option, none, some, List, [], ◌==◌, if◌then◌else◌,
}
use diamond_apparatus.Base.Int.{ℤ}
use diamond_apparatus.Base.Order.{nat_ord, bytes_ord}
use diamond_apparatus.Base.Result.{Result, ok, fault, ◌>>=◌}
use diamond_apparatus.Map
use diamond_apparatus.Topic.{Topic}
use diamond_apparatus.Topic.Message.{Allocator}
use diamond_apparatus.Tcp.Send.{Net}
use diamond_apparatus.Messages.{cs_killserver, cs_clearserver}
use diamond_apparatus.Client
use diamond_apparatus.Client.{Client, Name, process, simple_msg}
use diamond_apparatus.Client.Interface.{destroy}
use diamond_apparatus.Client.Get.{
  Phase, Get, done, waiting, get_found, wake, no_waiter, wait_for_any,
}
use diamond_apparatus.Client.Thread.{stopped}

-- The functions of the library that use the client's object.
pub data Request : Type 0 where
  subscribes : Name → Request
  publishes : Name → Topic → Request
  kills clears waits_any : Request
  gets : Name → ℕ → Request

-- Where a user's thread is: outside the library, behind the test of a function and before its
-- lock(), or in the pthread_cond_wait() of get() or of waitForAny().
pub data User : Type 0 where
  idle : User
  enters : Request → User
  asleep : Phase → ℕ → Name → User
  asleep_any : User

-- Where the client's thread is: in its loop, behind `delete client`, or at its end.
pub data Life : Type 0 where
  loops deleted ended : Life

pub record System : Type 0 where
  pub client : Client
  pub thread : Life
  pub users : ℕ → User

abbrev pub has_object : Life → Bool
has_object loops = true
has_object _ = false

-- A use of the client's object.
abbrev pub with_object : System → Result (User × Client) → Result (User × Client)
with_object s r = if has_object s.thread then r else fault

-- A lock() of the mutex, which destroy() may have destroyed.
abbrev pub with_mutex : System → Result (User × Client) → Result (User × Client)
with_mutex s r = if s.client.synced then r else fault

abbrev pub returns : Client → Result (User × Client)
returns c = ok (idle, c)

abbrev pub came_to : Get × Client → Result (User × Client)
came_to (done t, c) = ok (idle, c)
came_to (waiting phase cell n, c) = ok (asleep phase cell n, c)

-- get() looks into the map first, and uses the object for a topic that is in it.
unfoldable pub get_entered : Name → ℕ → Option ℕ → System → Result (User × Client)
get_entered n wait none s = get_found n wait none s.client >>= came_to
get_entered n wait (some cell) s = with_object s (get_found n wait (some cell) s.client >>= came_to)

module _ (a : Allocator) where
  -- What a function does behind its lock().
  unfoldable pub body : Request → System → Result (User × Client)
  body (subscribes n) s = with_object s (Client.subscribe a n s.client >>= returns)
  body (publishes n t) s = with_object s (Client.publish a n t s.client >>= returns)
  body kills s = with_object s (simple_msg cs_killserver s.client >>= returns)
  body clears s = with_object s (simple_msg cs_clearserver s.client >>= returns)
  body waits_any s = with_object s (ok (asleep_any, wait_for_any s.client))
  body (gets n wait) s = get_entered n wait (Map.find n s.client.topics) s

  -- What a user's thread does next, until it is outside or asleep.
  unfoldable pub resume : User → System → Result (User × Client)
  resume idle s = returns s.client
  resume (enters r) s = with_mutex s (body r s)
  resume (asleep phase cell n) s =
      with_mutex s (with_object s (wake phase cell n s.client >>= came_to))
  resume asleep_any s = with_mutex s (with_object s (returns (no_waiter s.client)))

-- The test in front of a lock(); waitForAny() has none.
abbrev pub connected : Request → Client → Bool
connected waits_any c = true
connected _ c = c.running

abbrev pub with_user : ℕ → User → (ℕ → User) → ℕ → User
with_user i u users j = if j == i then u else users j

abbrev pub with_client : Client → System → System
with_client c s = record s { client = c }

abbrev pub resumed : ℕ → User × Client → System → System
resumed i (u, c) s = record s { client = c; users = with_user i u s.users }

-- What one of the threads does between two moments at which another may.
pub data Step (a : Allocator) : System → System → Type 0 where
  receives :
      {s : System} {c : Client} (now : ℤ) (p : List ℕ)
      → s.thread ≡ loops
      → s.client.synced ≡ true
      → process now p s.client ≡ ok c
      → Step a s (with_client c s)
  deletes : {s : System} → s.thread ≡ loops → Step a s (record s { thread = deleted })
  stops :
      {s : System}
      → s.thread ≡ deleted
      → Step a s (record s { client = stopped s.client; thread = ended })
  calls :
      {s : System} (i : ℕ) (r : Request)
      → s.users i ≡ idle
      → connected r s.client ≡ true
      → Step a s (resumed i (enters r, s.client) s)
  resumes :
      {s : System} {x : User × Client} (i : ℕ)
      → resume a (s.users i) s ≡ ok x
      → Step a s (resumed i x s)
  destroys : {s : System} → Step a s (with_client (destroy s.client).1 s)

-- The client behind init(), which has waited for the thread to start.
abbrev pub started : ℕ → Net → System
started fd net = record {
  client = record {
    fd = fd;
    topics = [];
    heap = [];
    next = 0;
    running = true;
    waittopic = none;
    signals = 0;
    init_count = 1;
    synced = true;
    net = net;
  };
  thread = loops;
  users = λ i. idle;
}

-- What the threads can have come to.
pub data Reached (a : Allocator) (s : System) : System → Type 0 where
  here : Reached a s s
  after : {t u : System} → Reached a s t → Step a t u → Reached a s u
