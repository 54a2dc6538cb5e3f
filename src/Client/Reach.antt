-- ===== src/Client/Reach.antt =====
-- What get() comes to, before its wait and behind it, while the pointers of the client are in order.
use diamond_apparatus.Base.{
  ℕ, ◌≡◌, refl, ap, sym, subst, ◌∙◌, true, false, ◌||◌, Option, none, some, ◌==◌, if_true, if_false,
  Bool-cases, inl, inr,
}
use diamond_apparatus.Base.Order.{nat_ord, bytes_ord}
use diamond_apparatus.Base.Result.{Result, ok, or_fault, ◌>>=◌}
use diamond_apparatus.Map
use diamond_apparatus.Topic.{
  Topic, topic_nodata, topic_notfound, topic_notconnected, get_waitany, get_waitnew,
}
use diamond_apparatus.Client.{Client, Name}
use diamond_apparatus.Client.Get.{
  Phase, until_data, until_changed, Get, done, waiting, stalls, no_waiter, only_state, finish,
  check, get_cell, get_found, wake,
}
use diamond_apparatus.Client.Owned.{IsOwned, Grows, Grows-refl, Grows-other, store-Grows}

-- A get() that waits holds a pointer to a cell.
abbrev pub IsHeld : Client → Get → Type 0
IsHeld c (done t) = Unit {0}
IsHeld c (waiting phase cell n) = Map.has cell c.heap ≡ true

-- What a part of get() comes to: a state with its pointers in order.
pub record Returns (c : Client) (r : Result (Get × Client)) : Type 0 where
  pub g : Get
  pub d : Client
  pub ends : r ≡ ok (g, d)
  pub grows : Grows c d
  pub held : IsHeld d g

-- The cell that a pointer points to.
load :
    (cell : ℕ) (c : Client)
    → Map.has cell c.heap ≡ true
    → (t : Topic) × (Map.find cell c.heap ≡ some t)
load cell c h = by_find (Map.find cell c.heap) refl
  where
    by_find :
        (o : Option Topic)
        → Map.find cell c.heap ≡ o
        → (t : Topic) × (Map.find cell c.heap ≡ some t)
    by_find none e =
        absurd (let k : Map.has cell c.heap ≡ false = unfold Map.has in rw e in cc (h, k))
    by_find (some t) e = (t, e)

-- Both ends of a pair that is computed.
abbrev Sound : Client → Get × Client → Type 0
Sound c (g, d) = Grows c d × IsHeld d g

finish-Sound :
    (cell : ℕ) (t : Topic) (b c : Client)
    → Map.find cell c.heap ≡ some t
    → b.topics ≡ c.topics
    → b.heap ≡ c.heap
    → b.next ≡ c.next
    → IsOwned b
    → Sound b (finish cell t c)
unfolding finish
finish-Sound cell t b c found p q r v =
    let g : Grows b c = Grows-other (sym p) (sym q) (sym r) (Grows-refl b v) in
    let s : Grows c _ = store-Grows cell t _ c found g.owned in
    (record { owned = s.owned; kept = λ other h. s.kept other (g.kept other h) }, tt)

check-Sound :
    (phase : Phase) (cell : ℕ) (n : Name) (t : Topic) (b c : Client)
    → Map.find cell c.heap ≡ some t
    → b.topics ≡ c.topics
    → b.heap ≡ c.heap
    → b.next ≡ c.next
    → IsOwned b
    → Sound b (check phase cell n t c)
unfolding check
check-Sound phase cell n t b c found p q r v = elim (Bool-cases (stalls phase t)) [
  | inl e ↦
      subst (Sound b) (sym (if_true _ _ e))
        (Grows-other (sym p) (sym q) (sym r) (Grows-refl b v), unfold Map.has in rw found refl)
  | inr e ↦ subst (Sound b) (sym (if_false _ _ e)) (finish-Sound cell t b c found p q r v)
]

returned :
    (c : Client) (r : Result (Get × Client)) (x : Get × Client) → r ≡ ok x → Sound c x → Returns c r
returned c r (g, d) e s = record { g = g; d = d; ends = e; grows = s.0; held = s.1 }

pub wake-Returns :
    (phase : Phase) (cell : ℕ) (n : Name) (c : Client)
    → IsOwned c
    → Map.has cell c.heap ≡ true
    → Returns c (wake phase cell n c)
unfolding wake
wake-Returns phase cell n c v there = elim (Bool-cases c.running) [
  | inl e ↦
      let (t, found) = load cell c there in
      returned c _ (check phase cell n t (no_waiter c))
        (if_true _ _ e
          ∙ ap (λ o. or_fault o >>= λ t. ok (check phase cell n t (no_waiter c))) found)
        (check-Sound phase cell n t c (no_waiter c) found refl refl refl v)
  | inr e ↦
      returned c _ (done (only_state topic_notconnected), no_waiter c) (if_false _ _ e)
        (Grows-other refl refl refl (Grows-refl c v), tt)
]

get_cell-Sound :
    (n : Name) (wait cell : ℕ) (t : Topic) (b c : Client)
    → Map.find cell c.heap ≡ some t
    → b.topics ≡ c.topics
    → b.heap ≡ c.heap
    → b.next ≡ c.next
    → IsOwned b
    → Sound b (get_cell n wait cell t c)
unfolding get_cell
get_cell-Sound n wait cell t b c found p q r v = elim (Bool-cases (t.state == topic_nodata)) [
  | inl e ↦
      subst (Sound b) (sym (if_true _ _ e))
        (elim (Bool-cases (wait == get_waitany || wait == get_waitnew)) [
          | inl w ↦
              subst (Sound b) (sym (if_true _ _ w))
                (check-Sound until_data cell n t b c found p q r v)
          | inr w ↦
              subst (Sound b) (sym (if_false _ _ w))
                (Grows-other (sym p) (sym q) (sym r) (Grows-refl b v), tt)
        ])
  | inr e ↦ subst (Sound b) (sym (if_false _ _ e)) (elim (Bool-cases (wait == get_waitnew)) [
    | inl w ↦
        subst (Sound b) (sym (if_true _ _ w)) (check-Sound until_changed cell n t b c found p q r v)
    | inr w ↦ subst (Sound b) (sym (if_false _ _ w)) (finish-Sound cell t b c found p q r v)
  ])
]

pub get_found-Returns :
    (n : Name) (wait : ℕ) (o : Option ℕ) (c : Client)
    → Map.find n c.topics ≡ o
    → IsOwned c
    → Returns c (get_found n wait o c)
unfolding get_found
get_found-Returns n wait none c known v =
    returned c _ (done (only_state topic_notfound), c) refl (Grows-refl c v, tt)
get_found-Returns n wait (some cell) c known v =
    let (t, found) = load cell c (v.held n cell known) in
    returned c _ (get_cell n wait cell t (no_waiter c))
      (ap (λ o. or_fault o >>= λ t. ok (get_cell n wait cell t (no_waiter c))) found)
      (get_cell-Sound n wait cell t c (no_waiter c) found refl refl refl v)
