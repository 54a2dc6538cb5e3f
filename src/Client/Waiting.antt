-- ===== src/Client/Waiting.antt =====
-- A get() that waits, and what wakes it.
use diamond_apparatus.Base.{
  ℕ, ◌+◌, ◌≡◌, ◌≢◌, refl, ap, true, false, none, some, List, [], ◌∷◌, arith, All, ◌==◌, Bool-cases,
  inl, inr, ◌⊎◌,
}
use diamond_apparatus.Base.Int.{ℤ}
use diamond_apparatus.Base.Order.{nat_ord, bytes_ord}
use diamond_apparatus.Base.Result.{ok, or_fault, ◌>>=◌, Ensures, Ensures-any}
use diamond_apparatus.Base.Bytes.{htonl, ntohl, ntohl-htonl, until_nul-eq}
use diamond_apparatus.Map
use diamond_apparatus.Map.{same}
use diamond_apparatus.Map.Laws.{find-insert, find-insert_self, same_refl, same_of_ne}
use diamond_apparatus.Topic.{
  Datum, flt, str, raw, Topic, new_topic, copy, copy_data, copy_topic, topic_nodata,
  topic_unchanged, topic_changed, topic_notconnected,
}
use diamond_apparatus.Topic.Message.Encode.{encode, IsWellFormed}
use diamond_apparatus.Messages.{sc_notify, sc_killclient}
use diamond_apparatus.Server.Delivery.{IsPublication, packet_read, packet_name}
use diamond_apparatus.Client.{
  Client, Name, is_waited_for, signal_waiter, notify_cell, notify_found, notify, force_end, by_type,
  process, enter_topic,
}
use diamond_apparatus.Client.Get.{
  Phase, until_data, until_changed, Get, done, waiting, stalls, only_state, finish, check, wake,
}

-- What a caller that waits may be given: the news of the end, or what its loop waits for.
abbrev pub IsAnswer : Phase → Get → Type 0
IsAnswer until_data (done rv) = (rv.state ≡ topic_notconnected) ⊎ (rv.state ≢ topic_nodata)
IsAnswer until_changed (done rv) = (rv.state ≡ topic_notconnected) ⊎ (rv.state ≡ topic_changed)
IsAnswer phase (waiting other cell n) = other ≡ phase

check-IsAnswer :
    (phase : Phase) (cell : ℕ) (n : Name) (t : Topic) (c : Client)
    → IsAnswer phase (check phase cell n t c).0
unfolding check stalls finish copy_topic
check-IsAnswer until_data cell n t c = elim (Bool-cases (t.state == topic_nodata)) [
  | inl e ↦ rw e refl
  | inr e ↦ rw e (inr (ground arith))
]
check-IsAnswer until_changed cell n t c = elim (Bool-cases (t.state == topic_changed)) [
  | inl e ↦ rw e (inr (ground arith))
  | inr e ↦ rw e refl
]

-- Whenever and why ever a waiting get() is woken: it goes on waiting in its loop, or returns that
-- the client has ended, or else a topic: in the first loop, until_data, one that has data; in the
-- second, until_changed, one that has new data.
pub wake-IsAnswer :
    (phase : Phase) (cell : ℕ) (n : Name) (c : Client)
    → Ensures (λ x. IsAnswer phase x.0) (wake phase cell n c)
unfolding wake
wake-IsAnswer phase cell n c = elim (Bool-cases c.running) [
  | inl e ↦ rw e (
      Ensures-any (λ x. IsAnswer phase x.0) (or_fault (Map.find cell c.heap)) _
        λ t. check-IsAnswer phase cell n t _)
  | inr e ↦ rw e (ended phase)
]
  where
    ended : (phase : Phase) → IsAnswer phase (done (only_state topic_notconnected))
    ended until_data = inl refl
    ended until_changed = inl refl

pub copy_data-eq : (d : List Datum) → All IsWellFormed d → copy_data d ≡ d
unfolding copy_data copy
copy_data-eq [] h = refl
copy_data-eq (flt f ∷ d) h = ap (λ e. flt f ∷ e) (copy_data-eq d h.1)
copy_data-eq (str s ∷ d) h = rw (until_nul-eq s h.0.0, copy_data-eq d h.1) refl
copy_data-eq (raw n ∷ d) h = absurd h.0

is_waited_for_self : (n : Name) → is_waited_for n (some n) ≡ true
is_waited_for_self [] = refl
is_waited_for_self (b ∷ n) = same_refl (b ∷ n)

-- What a notification makes of a topic.
abbrev pub news : List Datum → ℤ → Topic
news d now = record { d = d; state = topic_changed; time_last_set = now }

check-news :
    (n : Name) (cell : ℕ) (d : List Datum) (now : ℤ)
    → All IsWellFormed d
    → (phase : Phase) (c : Client)
    → check phase cell n (news d now) c ≡ (
      done (news d now),
      record c { heap = Map.insert cell (record (news d now) { state = topic_unchanged }) c.heap },
    )
unfolding check stalls finish copy_topic
check-news n cell d now h until_data c = rw (copy_data-eq d h) refl
check-news n cell d now h until_changed c = rw (copy_data-eq d h) refl

module _ (n : Name) (d : List Datum) (v : IsPublication n d) (now : ℤ) where
  -- process() of a notification, for a topic of the client's.
  pub process_notified :
      (cell : ℕ) (t : Topic) (c : Client)
      → Map.find n c.topics ≡ some cell
      → Map.find cell c.heap ≡ some t
      → process now (encode sc_notify n d) c
        ≡ ok (signal_waiter n (record c { heap = Map.insert cell (news d now) c.heap }))
  unfolding process by_type notify notify_found notify_cell
  process_notified cell t c known found =
      rw
        (
          ntohl-htonl sc_notify _ (omega arith),
          packet_name sc_notify n d v,
          known,
          found,
          packet_read sc_notify n d v (omega arith) t,
        )
        refl

  -- A get() that waits, in either loop, for a topic of a running client, when the notification of
  -- the topic arrives, its name a C string of at most 128 bytes and its items well formed: the
  -- receiving thread signals, and get() returns the items that were published, as new, with the
  -- time of their arrival; nobody waits any more, and the topic is no longer new.
  pub wake_notified :
      (phase : Phase) (cell : ℕ) (t : Topic) (c : Client)
      → c.running ≡ true
      → c.waittopic ≡ some n
      → Map.find n c.topics ≡ some cell
      → Map.find cell c.heap ≡ some t
      → (process now (encode sc_notify n d) c >>= wake phase cell n)
        ≡ ok (
          done (news d now),
          record c {
            heap =
                Map.insert cell
                  (record (news d now) { state = topic_unchanged })
                  (Map.insert cell (news d now) c.heap);
            waittopic = none;
            signals = c.signals + 1;
          },
        )
  unfolding signal_waiter wake
  wake_notified phase cell t c running waits known found =
      rw
        (
          process_notified cell t c known found,
          waits,
          is_waited_for_self n,
          running,
          find-insert_self cell (news d now) c.heap,
        )
        (ap ok (check-news n cell d now v.items phase _))

-- A get() that waits when the server ends: the receiving thread signals, and get(), if it wakes
-- before that thread has ended, returns that the client is not connected.
pub wake_killed :
    (phase : Phase) (cell : ℕ) (n w : Name) (now : ℤ) (c : Client)
    → c.waittopic ≡ some w
    → (process now (htonl sc_killclient) c >>= wake phase cell n)
      ≡ ok (
        done (only_state topic_notconnected),
        record c { running = false; waittopic = none; signals = c.signals + 1 },
      )
unfolding process by_type force_end wake htonl ntohl
wake_killed phase cell n w now c waits = rw waits refl

-- A get() that waits for a topic of a running client, when the topic of the same name is entered
-- again, as a second subscription does, and then its notification arrives: the new data is stored in
-- the new topic, and the get(), woken, waits on for the old one.
pub wake_resubscribed :
    (n : Name) (d : List Datum)
    → IsPublication n d
    → (now : ℤ) (phase : Phase) (cell : ℕ) (t : Topic) (c : Client) → c.running ≡ true
    → c.waittopic ≡ some n
    → Map.find cell c.heap ≡ some t
    → cell ≢ c.next
    → stalls phase t ≡ true
    → (process now (encode sc_notify n d) (enter_topic n c) >>= wake phase cell n)
      ≡ ok (
        waiting phase cell n,
        record (enter_topic n c) {
          heap = Map.insert c.next (news d now) (enter_topic n c).heap;
          waittopic = some n;
          signals = c.signals + 1;
        },
      )
unfolding enter_topic signal_waiter wake check
wake_resubscribed n d v now phase cell t c running waits found other stalled =
    rw
      (
        process_notified n d v now c.next new_topic (enter_topic n c)
            (find-insert_self n c.next c.topics) (find-insert_self c.next new_topic c.heap),
        waits,
        is_waited_for_self n,
        running,
        old_cell,
        stalled,
      )
      refl
  where
    old_cell :
        Map.find cell (Map.insert c.next (news d now) (Map.insert c.next new_topic c.heap)) ≡ some t
    old_cell =
        let apart : same cell c.next ≡ false = same_of_ne cell c.next other in
        ground (
          arith,
          find-insert cell c.next (news d now) (Map.insert c.next new_topic c.heap),
          find-insert cell c.next new_topic c.heap,
        )
