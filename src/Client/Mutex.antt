-- ===== src/Client/Mutex.antt =====
-- client.cpp: the mutex, with each lock() and unlock() of what the client's functions and its thread
-- do. An exception passes by the unlock(). pthread_cond_wait() releases the mutex, and takes it
-- again before it returns.
pub mod Paths
pub mod Stuck
use diamond_apparatus.Base.{
  ℕ, ◌≡◌, refl, Bool, true, false, ◌||◌, Option, none, some, List, ◌==◌, if◌then◌else◌,
}
use diamond_apparatus.Base.Int.{ℤ}
use diamond_apparatus.Base.Order.{nat_ord, bytes_ord}
use diamond_apparatus.Base.Result.{Result, ok, throws, fault, or_fault, not_connected, ◌>>=◌}
use diamond_apparatus.Topic.{
  Topic, copy_topic, topic_nodata, topic_unchanged, topic_notfound, topic_notconnected, get_waitany,
  get_waitnew,
}
use diamond_apparatus.Topic.Message.{Allocator}
use diamond_apparatus.Messages.{cs_killserver, cs_clearserver}
use diamond_apparatus.Map
use diamond_apparatus.Client
use diamond_apparatus.Client.{Client, Name, simple_msg, process}
use diamond_apparatus.Client.Get.{
  Phase, until_data, until_changed, Get, done, waiting, stalls, only_state, no_waiter, wait_for_any,
}

-- The client, and whether the mutex is held.
pub record Guarded : Type 0 where
  pub client : Client
  pub held : Bool

-- What goes through the mutex: the functions of the library, the thread that takes a packet, and a
-- get() or a waitForAny() whose wait has ended.
pub data Call : Type 0 where
  subscribes : Name → Call
  publishes : Name → Topic → Call
  kills clears waits_any wakes_any : Call
  gets : Name → ℕ → Call
  wakes : Phase → ℕ → Name → Call
  takes : ℤ → List ℕ → Call

-- A call that returns; a function without a value has `none`.
abbrev pub Returned : Type 0
Returned = Result (Option Get) × Guarded

-- lock(), also that at the end of pthread_cond_wait(), and what is behind it: `none` is a thread
-- that waits for the mutex for ever.
unfoldable pub lock : (Guarded → Returned) → Guarded → Option Returned
lock behind g = if g.held then none else some (behind (record g { held = true }))

unfoldable pub unlock : Guarded → Guarded
unlock g = record g { held = false }

-- The release of the mutex by pthread_cond_wait(), which then sleeps.
unfoldable pub cond_wait : Guarded → Guarded
cond_wait g = record g { held = false }

abbrev pub set_client : Client → Guarded → Guarded
set_client c g = record g { client = c }

-- How a body is left. `thrown` says what it has changed before it throws; nothing unlocks then, nor
-- where the behaviour is undefined.
unfoldable pub leave : (Client → Client) → Guarded → Result (Option Get × Guarded) → Returned
leave thrown g (ok (x, g')) = (ok x, g')
leave thrown g (throws e) = (throws e, set_client (thrown g.client) g)
leave thrown g fault = (fault, g)

-- The end of get().
unfoldable pub end_get : ℕ → Topic → Guarded → Option Get × Guarded
end_get cell t g =
    let c = g.client in
    let stored = record c {
      heap = Map.insert cell (record t { state = topic_unchanged }) c.heap;
    } in
    (some (done (copy_topic t)), unlock (set_client stored g))

-- The head of a loop, and what is behind it.
unfoldable pub loop_head : Phase → ℕ → Name → Topic → Guarded → Option Get × Guarded
loop_head phase cell n t g =
    if stalls phase t
    then (
      some (waiting phase cell n),
      cond_wait (set_client (record g.client { waittopic = some n }) g),
    )
    else end_get cell t g

unfoldable pub get_subscribed : Name → ℕ → ℕ → Topic → Guarded → Option Get × Guarded
get_subscribed n wait cell t g =
    if t.state == topic_nodata
    then (if (wait == get_waitany || wait == get_waitnew)
        then loop_head until_data cell n t g
        else (some (done (only_state topic_notfound)), unlock g))
    else (if wait == get_waitnew then loop_head until_changed cell n t g else end_get cell t g)

-- get() behind its lock(), with what it finds under the name.
unfoldable pub get_locked : Name → ℕ → Option ℕ → Guarded → Result (Option Get × Guarded)
get_locked n wait none g = ok (some (done (only_state topic_notfound)), unlock g)
get_locked n wait (some cell) g = do
  t ← or_fault (Map.find cell g.client.heap)
  ok (get_subscribed n wait cell t (set_client (no_waiter g.client) g))

-- get() when pthread_cond_wait() has taken the mutex again.
unfoldable pub woken_locked : Phase → ℕ → Name → Guarded → Result (Option Get × Guarded)
woken_locked phase cell n g =
    let cleared = set_client (no_waiter g.client) g in
    if g.client.running
    then (do t ← or_fault (Map.find cell g.client.heap); ok (loop_head phase cell n t cleared))
    else ok (some (done (only_state topic_notconnected)), unlock cleared)

-- The end of a body without a value.
abbrev pub then_unlock : Guarded → Result Client → Result (Option Get × Guarded)
then_unlock g r = r >>= λ c. ok (none, unlock (set_client c g))

-- `if(!running)` in front of the lock.
abbrev pub if_connected : Result (Option Get) → Guarded → Option Returned → Option Returned
if_connected refusal g r = if g.client.running then r else some (refusal, g)

module _ (a : Allocator) (thrown : Client → Client) where
  unfoldable pub perform : Call → Guarded → Option Returned
  perform (subscribes n) g =
      if_connected (throws not_connected) g
        (lock (λ g. leave thrown g (then_unlock g (Client.subscribe a n g.client))) g)
  perform (publishes n t) g =
      if_connected (throws not_connected) g
        (lock (λ g. leave thrown g (then_unlock g (Client.publish a n t g.client))) g)
  perform kills g =
      if_connected (throws not_connected) g
        (lock (λ g. leave thrown g (then_unlock g (simple_msg cs_killserver g.client))) g)
  perform clears g =
      if_connected (throws not_connected) g
        (lock (λ g. leave thrown g (then_unlock g (simple_msg cs_clearserver g.client))) g)
  perform waits_any g = lock (λ g. (ok none, cond_wait (set_client (wait_for_any g.client) g))) g
  perform wakes_any g = lock (λ g. (ok none, unlock (set_client (no_waiter g.client) g))) g
  perform (gets n wait) g =
      if_connected (ok (some (done (only_state topic_notconnected)))) g
        (lock (λ g. leave thrown g (get_locked n wait (Map.find n g.client.topics) g)) g)
  perform (wakes phase cell n) g = lock (λ g. leave thrown g (woken_locked phase cell n g)) g
  perform (takes now p) g = lock (λ g. leave thrown g (then_unlock g (process now p g.client))) g

-- Whether a call comes to the lock: the functions look first whether the client runs, but for
-- waitForAny().
abbrev pub comes_to_lock : Call → Guarded → Bool
comes_to_lock waits_any g = true
comes_to_lock wakes_any g = true
comes_to_lock (wakes phase cell n) g = true
comes_to_lock (takes now p) g = true
comes_to_lock _ g = g.client.running

module _ (a : Allocator) (thrown : Client → Client) where
  pub perform_held :
      (call : Call) (g : Guarded)
      → g.held ≡ true
      → comes_to_lock call g ≡ true
      → perform a thrown call g ≡ none
  unfolding perform lock
  perform_held (subscribes n) g held reached = rw (reached, held) refl
  perform_held (publishes n t) g held reached = rw (reached, held) refl
  perform_held kills g held reached = rw (reached, held) refl
  perform_held clears g held reached = rw (reached, held) refl
  perform_held (gets n wait) g held reached = rw (reached, held) refl
  perform_held waits_any g held reached = rw held refl
  perform_held wakes_any g held reached = rw held refl
  perform_held (wakes phase cell n) g held reached = rw held refl
  perform_held (takes now p) g held reached = rw held refl
