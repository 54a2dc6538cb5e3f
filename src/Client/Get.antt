-- ===== src/Client/Get.antt =====
-- client.cpp: get() and waitForAny(). pthread_cond_wait() gives the mutex away, so what happens
-- until it returns are other steps; what the function does then is `wake`. It may return at any
-- time.
use diamond_apparatus.Base.{ℕ, Bool, true, false, ◌||◌, Option, none, some, [], ◌==◌, if◌then◌else◌}
use diamond_apparatus.Base.Order.{nat_ord, bytes_ord}
use diamond_apparatus.Base.Result.{Result, ok, or_fault, ◌>>=◌}
use diamond_apparatus.Map
use diamond_apparatus.Topic.{
  Topic, new_topic, copy_topic, topic_nodata, topic_unchanged, topic_changed, topic_notfound,
  topic_notconnected, get_waitany, get_waitnew,
}
use diamond_apparatus.Client.{Client, Name}

-- The two loops of get().
pub data Phase : Type 0 where
  until_data until_changed : Phase

-- get() returns a topic, or waits in a loop with its pointer and the name.
pub data Get : Type 0 where
  done : Topic → Get
  waiting : Phase → ℕ → Name → Get

-- The conditions of the loops.
unfoldable pub stalls : Phase → Topic → Bool
stalls until_data t = t.state == topic_nodata
stalls until_changed t = if t.state == topic_changed then false else true

abbrev pub no_waiter : Client → Client
no_waiter c = record c { waittopic = none }

-- `rv`, where only the state is set.
abbrev pub only_state : ℕ → Topic
only_state n = record new_topic { state = n }

-- The end of get(): a copy for the caller, and the topic is no longer new.
unfoldable pub finish : ℕ → Topic → Client → Get × Client
finish cell t c = (
  done (copy_topic t),
  record c { heap = Map.insert cell (record t { state = topic_unchanged }) c.heap },
)

-- The head of a loop.
unfoldable pub check : Phase → ℕ → Name → Topic → Client → Get × Client
check phase cell n t c =
    if stalls phase t
    then (waiting phase cell n, record c { waittopic = some n })
    else finish cell t c

unfoldable pub get_cell : Name → ℕ → ℕ → Topic → Client → Get × Client
get_cell n wait cell t c =
    if t.state == topic_nodata
    then (if (wait == get_waitany || wait == get_waitnew)
        then check until_data cell n t c
        else (done (only_state topic_notfound), c))
    else (if wait == get_waitnew then check until_changed cell n t c else finish cell t c)

unfoldable pub get_found : Name → ℕ → Option ℕ → Client → Result (Get × Client)
get_found n wait none c = ok (done (only_state topic_notfound), c)
get_found n wait (some cell) c = do
  t ← or_fault (Map.find cell c.heap)
  ok (get_cell n wait cell t (no_waiter c))

unfoldable pub get : Name → ℕ → Client → Result (Get × Client)
get n wait c =
    if c.running
    then get_found n wait (Map.find n c.topics) c
    else ok (done (only_state topic_notconnected), c)

-- Behind pthread_cond_wait().
unfoldable pub wake : Phase → ℕ → Name → Client → Result (Get × Client)
wake phase cell n c =
    if c.running
    then (do t ← or_fault (Map.find cell c.heap); ok (check phase cell n t (no_waiter c)))
    else ok (done (only_state topic_notconnected), no_waiter c)

-- waitForAny(), up to its wait; behind it, `no_waiter`.
abbrev pub wait_for_any : Client → Client
wait_for_any c = record c { waittopic = some [] }
