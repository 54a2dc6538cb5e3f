-- ===== src/Client/Thread/Ends.antt =====
-- The thread ends, whatever arrives.
use diamond_apparatus.Base.{
  ℕ, zero, suc, ◌+◌, ◌<◌, ◌≡◌, refl, ap, ◌∙◌, Bool, true, false, Option, some, List, length, arith,
  Bool-cases, inl, inr, ◌⊎◌, if_true, if_false,
}
use diamond_apparatus.Base.Int.{ℤ}
use diamond_apparatus.Base.Result.{Result, ok, throws, fault}
use diamond_apparatus.Tcp.Receive.{TcpReceiver, Event, Update, update, bytes_of}
use diamond_apparatus.Tcp.Receive.Ends.{update-ends}
use diamond_apparatus.Tcp.Receive.Spends.{update-Spends}
use diamond_apparatus.Client.{Client}
use diamond_apparatus.Client.Thread.{
  process_packet, after_process, after_update, thread_loop, with_end, threadfunc,
}

abbrev Ends : Option (Result Client) → Type 0
Ends o = (x : Result Client) × (o ≡ some x)

after_process-Ends :
    (x : Result Client) (returned : Bool) (again : Client → Option (Result Client))
    → ((c : Client) → returned ≡ true → Ends (again c))
    → Ends (after_process x returned again)
after_process-Ends (ok c) true again h = h c refl
after_process-Ends (ok c) false again h = (ok c, refl)
after_process-Ends (throws e) returned again h = (throws e, refl)
after_process-Ends fault returned again h = (fault, refl)

after_update-Ends :
    (o : Option Update) (now : ℤ) (c : Client) (again : Update → Client → Option (Result Client))
    (u : Update)
    → o ≡ some u
    → ((c : Client) → u.returned ≡ true → Ends (again u c))
    → Ends (after_update o now c again)
after_update-Ends o now c again u e h =
    let (x, ends) = after_process-Ends (process_packet now u.packet c) u.returned (again u) h in
    (x, ap (λ o. after_update o now c again) e ∙ ends)

thread_loop-Ends :
    (n : ℕ) (clock : ℕ → ℤ) (k : ℕ) (r : TcpReceiver) (net : List Event) (c : Client)
    → length (bytes_of net) < n
    → Ends (thread_loop n clock k r net c)
unfolding thread_loop
thread_loop-Ends zero clock k r net c h = absurd (omega arith)
thread_loop-Ends (suc n) clock k r net c h = elim (Bool-cases c.running) [
  | inl on ↦
      let (u, updated) = update-ends r net in
      let spends = update-Spends r net updated in
      let (x, ends) =
        after_update-Ends (update r net) (clock k) c
          (λ u c'. thread_loop n clock (k + 1) u.receiver u.events c') u updated
          λ c' returned.
            thread_loop-Ends n clock (k + 1) u.receiver u.events c'
              (spent u net spends returned h) in
      (x, if_true _ _ on ∙ ends)
  | inr off ↦ (ok c, if_false _ _ off)
]
  where
    spent :
        (u : Update) (net : List Event)
        → (u.returned ≡ false) ⊎ (length (bytes_of u.events) < length (bytes_of net))
        → u.returned ≡ true
        → length (bytes_of net) < suc n
        → length (bytes_of u.events) < n
    spent u net (inl e) returned h = absurd (cc (e, returned))
    spent u net (inr less) returned h = omega arith

-- The client's thread ends, with a state or an exception, whatever state it starts in and whatever
-- arrives, once there is nothing more to be read: the fuel of the model never runs out.
pub threadfunc_ends :
    (clock : ℕ → ℤ) (r : TcpReceiver) (net : List Event) (c : Client)
    → (x : Result Client) × (threadfunc clock r net c ≡ some x)
unfolding threadfunc
threadfunc_ends clock r net c =
    let (x, e) =
      thread_loop-Ends (length (bytes_of net) + 1) clock 0 r net (record c { running = true })
        (omega arith) in
    (_, ap with_end e)
