-- ===== src/Client/Owned.antt =====
-- The heap of a client: every pointer is to a cell, through every call.
use diamond_apparatus.Base.{
  ℕ, ◌<◌, ◌≡◌, refl, ap, sym, subst, ◌∙◌, true, false, Option, none, some, List, arith, ◌==◌,
  if◌then◌else◌, if_true, if_false, Bool-cases, inl, inr,
}
use diamond_apparatus.Base.Int.{ℤ}
use diamond_apparatus.Base.Order.{nat_ord, bytes_ord}
use diamond_apparatus.Base.Result.{ok, Ensures, Ensures-any}
use diamond_apparatus.Base.Bytes.{htonl, ntohl}
use diamond_apparatus.Map
use diamond_apparatus.Map.{same, is_some}
use diamond_apparatus.Map.Laws.{find-insert, has-insert, same-eq, same_refl}
use diamond_apparatus.Topic.{Topic, new_topic}
use diamond_apparatus.Topic.Message.{Allocator, to_message, from_message, get_name_from_msg}
use diamond_apparatus.Tcp.Send.{basesend}
use diamond_apparatus.Messages.{cs_publish, sc_notify, sc_killclient, str_msg_size}
use diamond_apparatus.Client.{
  Client, Name, signal_waiter, is_waited_for, notify_cell, notify_found, notify, force_end, by_type,
  process, request, str_msg, enter_topic, subscribe, publish, simple_msg,
}

-- Every pointer of the client's is to a cell, and a cell that has been allocated is not handed out
-- again.
pub record IsOwned (c : Client) : Type 0 where
  pub held : (n : Name) (cell : ℕ) → Map.find n c.topics ≡ some cell → Map.has cell c.heap ≡ true
  pub below : (cell : ℕ) → Map.has cell c.heap ≡ true → cell < c.next

-- What a step does to the heap: it is in order still, and no cell is lost.
pub record Grows (c d : Client) : Type 0 where
  pub owned : IsOwned d
  pub kept : (cell : ℕ) → Map.has cell c.heap ≡ true → Map.has cell d.heap ≡ true

pub Grows-refl : (c : Client) → IsOwned c → Grows c c
Grows-refl c v = record { owned = v; kept = λ cell h. h }

-- A change of neither the pointers nor the heap.
pub Grows-other :
    {c d e : Client}
    → e.topics ≡ d.topics
    → e.heap ≡ d.heap
    → e.next ≡ d.next
    → Grows c d
    → Grows c e
Grows-other p q r g = record {
  owned = record {
    held = λ n cell h. rw q (g.owned.held n cell (sym (ap (Map.find n) p) ∙ h));
    below = λ cell h. rw r (g.owned.below cell (sym (ap (Map.has cell) q) ∙ h));
  };
  kept = λ cell h. rw q (g.kept cell h);
}

-- A store into a cell that is there.
pub store-Grows :
    (cell : ℕ) (t u : Topic) (c : Client)
    → Map.find cell c.heap ≡ some t
    → IsOwned c
    → Grows c (record c { heap = Map.insert cell u c.heap })
store-Grows cell t u c found v =
    let there : Map.has cell c.heap ≡ true = unfold Map.has in rw found in
    record {
      owned = record {
        held = λ n other h. ground (arith, has-insert other cell u c.heap, v.held n other h);
        below = λ other h. ground (
          arith,
          has-insert other cell u c.heap,
          v.below other,
          v.below cell there,
          same-eq other cell,
        );
      };
      kept = λ other h. ground (arith, has-insert other cell u c.heap);
    }

enter_topic-Grows : (n : Name) (c : Client) → IsOwned c → Grows c (enter_topic n c)
unfolding enter_topic
enter_topic-Grows n c v = record {
  owned = record {
    held = λ m cell h. ground (
      arith,
      find-insert m n c.next c.topics,
      has-insert cell c.next new_topic c.heap,
      v.held m cell,
      same-eq cell c.next,
      h,
      cell_refl cell,
    );
    below = λ cell h.
        ground
          (arith, has-insert cell c.next new_topic c.heap, v.below cell, same-eq cell c.next, h);
  };
  kept = λ cell h. ground (arith, has-insert cell c.next new_topic c.heap);
}
  where
    cell_refl : (cell : ℕ) → same cell cell ≡ true
    cell_refl cell = same_refl cell

signal_waiter-Grows : (n : Name) (c d : Client) → Grows c d → Grows c (signal_waiter n d)
unfolding signal_waiter
signal_waiter-Grows n c d g = elim (Bool-cases (is_waited_for n d.waittopic)) [
  | inl e ↦ subst (Grows c) (sym (if_true _ _ e)) (Grows-other refl refl refl g)
  | inr e ↦ subst (Grows c) (sym (if_false _ _ e)) g
]

notify_cell-Grows :
    (now : ℤ) (n : Name) (p : List ℕ) (cell : ℕ) (o : Option Topic) (c : Client)
    → Map.find cell c.heap ≡ o
    → IsOwned c
    → Ensures (Grows c) (notify_cell now n p cell o c)
unfolding notify_cell
notify_cell-Grows now n p cell none c found v = tt
notify_cell-Grows now n p cell (some t) c found v =
    Ensures-any (Grows c) (from_message p t) _
      λ t'. signal_waiter-Grows n c _ (store-Grows cell t _ c found v)

notify_found-Grows :
    (now : ℤ) (n : Name) (p : List ℕ) (o : Option ℕ) (c : Client)
    → IsOwned c
    → Ensures (Grows c) (notify_found now n p o c)
unfolding notify_found
notify_found-Grows now n p none c v = Grows-refl c v
notify_found-Grows now n p (some cell) c v =
    notify_cell-Grows now n p cell (Map.find cell c.heap) c refl v

notify-Grows : (now : ℤ) (p : List ℕ) (c : Client) → IsOwned c → Ensures (Grows c) (notify now p c)
unfolding notify
notify-Grows now p c v =
    Ensures-any (Grows c) (get_name_from_msg p) _
      λ n. notify_found-Grows now n p (Map.find n c.topics) c v

force_end-Grows : (c : Client) → IsOwned c → Grows c (force_end c)
unfolding force_end
force_end-Grows c v = elim (Bool-cases (is_some c.waittopic)) [
  | inl e ↦
      subst (λ d. Grows c (record d { running = false })) (sym (if_true _ _ e))
        (Grows-other refl refl refl (Grows-refl c v))
  | inr e ↦
      subst (λ d. Grows c (record d { running = false })) (sym (if_false _ _ e))
        (Grows-other refl refl refl (Grows-refl c v))
]

pub process-Grows :
    (now : ℤ) (p : List ℕ) (c : Client) → IsOwned c → Ensures (Grows c) (process now p c)
unfolding process by_type
process-Grows now p c v = Ensures-any (Grows c) (ntohl p) _ λ (type, rest). by_kind type
  where
    by_kind :
        (type : ℕ)
        → Ensures (Grows c) (
            let c' = if type == sc_killclient then force_end c else c in
            if type == sc_notify then notify now p c' else ok c')
    by_kind type = elim (Bool-cases (type == sc_notify)) [
      | inl e ↦
          let other : (type == sc_killclient) ≡ false = ground arith in
          rw (other, e) (notify-Grows now p c v)
      | inr e ↦ elim (Bool-cases (type == sc_killclient)) [
        | inl k ↦ rw (k, e) (force_end-Grows c v)
        | inr k ↦ rw (k, e) (Grows-refl c v)
      ]
    ]

request-Grows : (p : List ℕ) (c d : Client) → Grows c d → Ensures (Grows c) (request p d)
unfolding request
request-Grows p c d g =
    Ensures-any (Grows c) (basesend d.fd p d.net) _ λ net. Grows-other refl refl refl g

pub subscribe-Grows :
    (a : Allocator) (n : Name) (c : Client) → IsOwned c → Ensures (Grows c) (subscribe a n c)
unfolding subscribe
subscribe-Grows a n c v =
    Ensures-any (Grows c) (str_msg (a.malloc str_msg_size) n) _
      λ msg. request-Grows _ c (enter_topic n c) (enter_topic-Grows n c v)

pub publish-Grows :
    (a : Allocator) (n : Name) (t : Topic) (c : Client)
    → IsOwned c
    → Ensures (Grows c) (publish a n t c)
unfolding publish
publish-Grows a n t c v =
    Ensures-any (Grows c) (to_message a cs_publish n t) _ λ p. request-Grows p c c (Grows-refl c v)

pub simple_msg-Grows : (msg : ℕ) (c : Client) → IsOwned c → Ensures (Grows c) (simple_msg msg c)
unfolding simple_msg
simple_msg-Grows msg c v = request-Grows (htonl msg) c c (Grows-refl c v)
