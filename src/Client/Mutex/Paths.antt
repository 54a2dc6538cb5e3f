-- ===== src/Client/Mutex/Paths.antt =====
-- Every path through the mutex, against what the calls do without it.
use diamond_apparatus.Base.{
  ℕ, ◌≡◌, refl, ap, sym, ◌∙◌, true, false, ◌||◌, Option, none, some, ◌==◌, if◌then◌else◌, if_true,
  if_false, Bool-cases, inl, inr,
}
use diamond_apparatus.Base.Order.{nat_ord, bytes_ord}
use diamond_apparatus.Base.Result.{Result, ok, throws, fault, or_fault, not_connected, ◌>>=◌}
use diamond_apparatus.Topic.{Topic, topic_nodata, topic_notconnected, get_waitany, get_waitnew}
use diamond_apparatus.Topic.Message.{Allocator}
use diamond_apparatus.Messages.{cs_killserver, cs_clearserver}
use diamond_apparatus.Map
use diamond_apparatus.Client
use diamond_apparatus.Client.{Client, Name, simple_msg, process}
use diamond_apparatus.Client.Get.{
  Phase, until_data, until_changed, Get, done, stalls, only_state, no_waiter, wait_for_any, finish,
  check, get_cell, get_found, wake,
}
use diamond_apparatus.Client.Mutex.{
  Guarded, Call, subscribes, publishes, kills, clears, waits_any, wakes_any, gets, wakes, takes,
  Returned, lock, unlock, cond_wait, set_client, leave, end_get, loop_head, get_subscribed,
  get_locked, woken_locked, then_unlock, if_connected, perform, comes_to_lock,
}

abbrev free : Client → Guarded
free c = record { client = c; held = false }

-- A value and a client, behind which the mutex is free.
abbrev freed : Get × Client → Option Get × Guarded
freed (x, c) = (some x, free c)

loop_head-check :
    (phase : Phase) (cell : ℕ) (n : Name) (t : Topic) (c : Client) (g : Guarded)
    → g.client ≡ c
    → loop_head phase cell n t g ≡ freed (check phase cell n t c)
unfolding loop_head check end_get finish unlock cond_wait
loop_head-check phase cell n t c g e = elim (Bool-cases (stalls phase t)) [
  | inl h ↦ rw (h, e) refl
  | inr h ↦ rw (h, e) refl
]

get_subscribed-get_cell :
    (n : Name) (wait cell : ℕ) (t : Topic) (c : Client) (g : Guarded)
    → g.client ≡ c
    → get_subscribed n wait cell t g ≡ freed (get_cell n wait cell t c)
unfolding get_subscribed get_cell unlock
get_subscribed-get_cell n wait cell t c g e = elim (Bool-cases (t.state == topic_nodata)) [
  | inl empty ↦ elim (Bool-cases (wait == get_waitany || wait == get_waitnew)) [
    | inl w ↦ rw (empty, w) (loop_head-check until_data cell n t c g e)
    | inr w ↦ rw (empty, w, e) refl
  ]
  | inr full ↦ elim (Bool-cases (wait == get_waitnew)) [
    | inl w ↦ rw (full, w) (loop_head-check until_changed cell n t c g e)
    | inr w ↦ rw (full, w) (unfold end_get finish unlock in rw e refl)
  ]
]

get_locked-get_found :
    (n : Name) (wait : ℕ) (o : Option ℕ) (g : Guarded)
    → get_locked n wait o g ≡ (get_found n wait o g.client >>= λ x. ok (freed x))
unfolding get_locked get_found unlock
get_locked-get_found n wait none g = refl
get_locked-get_found n wait (some cell) g = by_cell (Map.find cell g.client.heap)
  where
    by_cell :
        (o : Option Topic)
        → (or_fault o >>= λ t.
            ok (get_subscribed n wait cell t (set_client (no_waiter g.client) g)))
          ≡ ((or_fault o >>= λ t. ok (get_cell n wait cell t (no_waiter g.client))) >>= λ x.
              ok (freed x))
    by_cell none = refl
    by_cell (some t) = ap ok (get_subscribed-get_cell n wait cell t (no_waiter g.client) _ refl)

woken_locked-wake :
    (phase : Phase) (cell : ℕ) (n : Name) (g : Guarded)
    → woken_locked phase cell n g ≡ (wake phase cell n g.client >>= λ x. ok (freed x))
unfolding woken_locked wake unlock
woken_locked-wake phase cell n g = elim (Bool-cases g.client.running) [
  | inl e ↦
      if_true _ _ e
      ∙ by_cell (Map.find cell g.client.heap)
      ∙ ap (λ r. r >>= λ x. ok (freed x)) (sym (if_true _ _ e))
  | inr e ↦ if_false _ _ e ∙ ap (λ r. r >>= λ x. ok (freed x)) (sym (if_false _ _ e))
]
  where
    by_cell :
        (o : Option Topic)
        → (or_fault o >>= λ t. ok (loop_head phase cell n t (set_client (no_waiter g.client) g)))
          ≡ ((or_fault o >>= λ t. ok (check phase cell n t (no_waiter g.client))) >>= λ x.
              ok (freed x))
    by_cell none = refl
    by_cell (some t) = ap ok (loop_head-check phase cell n t (no_waiter g.client) _ refl)

-- What a call that comes to the lock does to the client, without a mutex.
abbrev pub silent : Result Client → Result (Option Get × Client)
silent r = r >>= λ c. ok (none, c)

abbrev pub valued : Result (Get × Client) → Result (Option Get × Client)
valued r = r >>= λ x. ok (some x.0, x.1)

abbrev pub unguarded : Allocator → Call → Client → Result (Option Get × Client)
unguarded a (subscribes n) c = silent (Client.subscribe a n c)
unguarded a (publishes n t) c = silent (Client.publish a n t c)
unguarded a kills c = silent (simple_msg cs_killserver c)
unguarded a clears c = silent (simple_msg cs_clearserver c)
unguarded a waits_any c = ok (none, wait_for_any c)
unguarded a wakes_any c = ok (none, no_waiter c)
unguarded a (gets n wait) c = valued (get_found n wait (Map.find n c.topics) c)
unguarded a (wakes phase cell n) c = valued (wake phase cell n c)
unguarded a (takes now p) c = silent (process now p c)

-- The value of a call that finds that the client does not run.
abbrev pub refusal : Call → Result (Option Get)
refusal (gets n wait) = ok (some (done (only_state topic_notconnected)))
refusal _ = throws not_connected

-- How a call is to leave the mutex: free behind what returns, and held behind what throws.
abbrev pub to_leave : (Client → Client) → Client → Result (Option Get × Client) → Returned
to_leave thrown c (ok (x, c')) = (ok x, free c')
to_leave thrown c (throws e) = (throws e, record { client = thrown c; held = true })
to_leave thrown c fault = (fault, record { client = c; held = true })

module _ (thrown : Client → Client) (g : Guarded) (unheld : g.held ≡ false) where
  abbrev locked : Guarded
  locked = record g { held = true }

  lock-silent :
      (r : Client → Result Client)
      → lock (λ g. leave thrown g (then_unlock g (r g.client))) g
        ≡ some (to_leave thrown g.client (silent (r g.client)))
  unfolding lock leave unlock
  lock-silent r = rw unheld (by_result (r g.client))
    where
      by_result :
          (x : Result Client)
          → some (leave thrown locked (then_unlock locked x))
            ≡ some (to_leave thrown g.client (silent x))
      by_result (ok c) = refl
      by_result (throws e) = refl
      by_result fault = refl

  lock-valued :
      (f : Guarded → Result (Option Get × Guarded)) (r : Result (Get × Client))
      → f locked ≡ (r >>= λ x. ok (freed x))
      → lock (λ g. leave thrown g (f g)) g ≡ some (to_leave thrown g.client (valued r))
  unfolding lock leave
  lock-valued f r e = rw (unheld, e) (by_result r)
    where
      by_result :
          (r : Result (Get × Client))
          → some (leave thrown locked (r >>= λ x. ok (freed x)))
            ≡ some (to_leave thrown g.client (valued r))
      by_result (ok (x, c)) = refl
      by_result (throws e) = refl
      by_result fault = refl

if_connected-cases :
    (r : Result (Option Get)) (g : Guarded) (o : Option Returned) (x : Returned)
    → o ≡ some x
    → if_connected r g o ≡ some (if g.client.running then x else (r, g))
if_connected-cases r g o x e = elim (Bool-cases g.client.running) [
  | inl h ↦ rw h e
  | inr h ↦ rw h refl
]

module _ (a : Allocator) (thrown : Client → Client) where
  -- Any function of the library, the thread that takes a packet, and a get() or a waitForAny() whose
  -- wait has ended, while nobody holds the mutex: the call returns or throws. If it came to its
  -- lock(), it has done to the client what it does without a mutex, and the mutex is free behind it
  -- on every path on which it returns or waits, and held exactly where an exception was thrown, or
  -- the behaviour is undefined; otherwise nothing is changed.
  pub perform-unguarded :
      (call : Call) (g : Guarded)
      → g.held ≡ false
      → perform a thrown call g
        ≡ some (
            if comes_to_lock call g
            then to_leave thrown g.client (unguarded a call g.client)
            else (refusal call, g))
  unfolding perform
  perform-unguarded (subscribes n) g unheld =
      if_connected-cases _ g _ _ (lock-silent thrown g unheld (Client.subscribe a n))
  perform-unguarded (publishes n t) g unheld =
      if_connected-cases _ g _ _ (lock-silent thrown g unheld (Client.publish a n t))
  perform-unguarded kills g unheld =
      if_connected-cases _ g _ _ (lock-silent thrown g unheld (simple_msg cs_killserver))
  perform-unguarded clears g unheld =
      if_connected-cases _ g _ _ (lock-silent thrown g unheld (simple_msg cs_clearserver))
  perform-unguarded (gets n wait) g unheld = if_connected-cases _ g _ _ (
      lock-valued thrown g unheld (λ g. get_locked n wait (Map.find n g.client.topics) g) _
        (get_locked-get_found n wait (Map.find n g.client.topics) (locked thrown g unheld)))
  perform-unguarded waits_any g unheld = unfold lock cond_wait in rw unheld refl
  perform-unguarded wakes_any g unheld = unfold lock unlock in rw unheld refl
  perform-unguarded (wakes phase cell n) g unheld =
      lock-valued thrown g unheld (woken_locked phase cell n) _
        (woken_locked-wake phase cell n (locked thrown g unheld))
  perform-unguarded (takes now p) g unheld = lock-silent thrown g unheld (process now p)
