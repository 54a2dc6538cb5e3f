-- ===== src/Client/Mutex/Stuck.antt =====
-- A publication that cannot be sent, and who comes to the mutex behind it.
use diamond_apparatus.Base.{
  if_true, ◌^◌, ◌<◌, ◌≡◌, refl, ◌∙◌, true, false, none, some, List, length,
}
use diamond_apparatus.Base.Result.{Result, Exception, throws, cannot_send}
use diamond_apparatus.Topic.{Topic}
use diamond_apparatus.Topic.Message.{Allocator}
use diamond_apparatus.Topic.Message.Encode.{encode, IsTagged-of_well_formed}
use diamond_apparatus.Topic.Message.Write.{to_message-eq-encode}
use diamond_apparatus.Tcp.Send.{tries, Write}
use diamond_apparatus.Tcp.Send.Frames.{failures, basesend_gives_up}
use diamond_apparatus.Messages.{cs_publish}
use diamond_apparatus.Server.Delivery.{IsPublication}
use diamond_apparatus.Client
use diamond_apparatus.Client.{Client, Name, request}
use diamond_apparatus.Client.Mutex.{
  Guarded, Call, subscribes, publishes, kills, clears, waits_any, wakes_any, gets, wakes, takes,
  lock, leave, then_unlock, perform, perform_held, comes_to_lock,
}

publish_fails :
    (a : Allocator) (n : Name) (t : Topic) (c : Client) (rest : List Write)
    → IsPublication n t.d
    → length (encode cs_publish n t.d) < 2 ^ 31
    → c.net.script ≡ failures tries rest
    → Client.publish a n t c ≡ throws cannot_send
unfolding Client.publish request
publish_fails a n t c rest v small failing =
    rw
      (
        to_message-eq-encode a cs_publish n t v.short (IsTagged-of_well_formed t.d v.items) small,
        basesend_gives_up c.fd (encode cs_publish n t.d) c.net rest failing,
      )
      refl

lock_throws :
    (thrown : Client → Client) (r : Client → Result Client) (g : Guarded) (e : Exception)
    → g.held ≡ false
    → r g.client ≡ throws e
    → lock (λ g. leave thrown g (then_unlock g (r g.client))) g
      ≡ some (throws e, record { client = thrown g.client; held = true })
unfolding lock leave
lock_throws thrown r g e unheld h = rw (unheld, h) refl

-- While the client runs, every call comes to the lock.
running-comes_to_lock :
    (call : Call) (g : Guarded) → g.client.running ≡ true → comes_to_lock call g ≡ true
running-comes_to_lock (subscribes n) g h = h
running-comes_to_lock (publishes n t) g h = h
running-comes_to_lock kills g h = h
running-comes_to_lock clears g h = h
running-comes_to_lock (gets n wait) g h = h
running-comes_to_lock waits_any g h = refl
running-comes_to_lock wakes_any g h = refl
running-comes_to_lock (wakes phase cell n) g h = refl
running-comes_to_lock (takes now p) g h = refl

module _ (a : Allocator) (thrown : Client → Client) where
  -- publish() of a topic that a message can carry, while the client runs and nobody holds the
  -- mutex, when both writes of each of the ten tries fail, and not with a broken pipe: it throws,
  -- and the mutex stays held, so that any call behind it, of the functions of the library, of the
  -- thread that takes a packet, and of a get() or a waitForAny() whose wait has ended, waits for ever, as long as the
  -- throwing call has not stopped the client.
  pub publish-perform_blocks :
      (n : Name) (t : Topic) (g : Guarded) (rest : List Write) (call : Call)
      → IsPublication n t.d
      → length (encode cs_publish n t.d) < 2 ^ 31
      → g.client.running ≡ true
      → g.held ≡ false
      → g.client.net.script ≡ failures tries rest
      → (thrown g.client).running ≡ true
      → (h : Guarded) × (perform a thrown (publishes n t) g ≡ some (throws cannot_send, h))
        × (perform a thrown call h ≡ none)
  unfolding perform
  publish-perform_blocks n t g rest call v small running free failing still =
      let h : Guarded = record { client = thrown g.client; held = true } in
      (
        h,
        if_true _ _ running
            ∙ lock_throws thrown (Client.publish a n t) g cannot_send free
                (publish_fails a n t g.client rest v small failing),
        perform_held a thrown call h refl (running-comes_to_lock call h still),
      )
