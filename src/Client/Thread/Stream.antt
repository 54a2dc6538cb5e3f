-- ===== src/Client/Thread/Stream.antt =====
-- The thread against its packets: a stream of packets is taken one by one, however it is cut.
use diamond_apparatus.Base.{
  ℕ, zero, suc, ◌+◌, ◌<◌, ◌≡◌, refl, ap, sym, ◌∙◌, true, false, Option, some, List, [], ◌∷◌, ◌++◌,
  length, length-append, All, arith, Bool-cases, inl, inr, if◌then◌else◌, if_true, if_false,
}
use diamond_apparatus.Base.Int.{ℤ}
use diamond_apparatus.Base.Result.{Result, ok, throws, fault, ◌>>=◌}
use diamond_apparatus.Base.Bytes.{IsWord, htonl}
use diamond_apparatus.Tcp.Send.Frames.{frame}
use diamond_apparatus.Tcp.Receive.{TcpReceiver, Event, chunk, failure, Update, update, bytes_of}
use diamond_apparatus.Tcp.Receive.Chunks.{IsFlowing}
use diamond_apparatus.Tcp.Receive.Phases.{IsIdle}
use diamond_apparatus.Tcp.Receive.Reassembly.{Delivers, update-Delivers}
use diamond_apparatus.Tcp.Receive.Ends.{update-closed}
use diamond_apparatus.Client.{Client, process}
use diamond_apparatus.Client.Thread.{
  process_packet, after_process, after_update, thread_loop, stopped, with_end, threadfunc,
}

-- The stream of some packets.
abbrev pub frames : List (List ℕ) → List ℕ
frames [] = []
frames (p ∷ ps) = frame p ++ frames ps

-- What the packets do, one after another, until one of them ends the client.
pub receive_all : (ℕ → ℤ) → ℕ → List (List ℕ) → Client → Result Client
receive_all clock k [] c = ok c
receive_all clock k (p ∷ ps) c =
    if c.running then (do c' ← process (clock k) p c; receive_all clock (k + 1) ps c') else ok c

abbrev pub IsPayload : List ℕ → Type 0
IsPayload p = (0 < length p) × IsWord (length p)

nothing_left : (net : List Event) → IsFlowing net → bytes_of net ≡ [] → net ≡ []
nothing_left [] h e = refl
nothing_left (chunk [] ∷ net) h e = absurd h
nothing_left (chunk (b ∷ bs) ∷ net) h e = cc
nothing_left (failure ∷ net) h e = absurd h

shorter :
    (n : ℕ) (p : List ℕ) (ps : List (List ℕ)) (net rest : List Event)
    → length (bytes_of net) < suc n
    → 0 < length p
    → bytes_of net ≡ frames (p ∷ ps)
    → bytes_of rest ≡ frames ps
    → length (bytes_of rest) < n
shorter n p ps net rest fuel pos e f = omega (
  arith,
  ap length e,
  ap length f,
  length-append (frame p) (frames ps),
  length-append (htonl (length p)) p,
)

module _ (clock : ℕ → ℤ) where
  thread_loop-stopped :
      (n k : ℕ) (r : TcpReceiver) (net : List Event) (c : Client)
      → c.running ≡ false
      → thread_loop (suc n) clock k r net c ≡ some (ok c)
  unfolding thread_loop
  thread_loop-stopped n k r net c e = if_false _ _ e

  thread_loop-closed :
      (n k : ℕ) (r : TcpReceiver) (c : Client)
      → IsIdle r
      → thread_loop (suc n) clock k r [] c ≡ some (ok c)
  unfolding thread_loop process_packet
  thread_loop-closed n k r c idle = elim (Bool-cases c.running) [
    | inl e ↦
        if_true _ _ e
        ∙ ap
            (λ o.
              after_update o (clock k) c λ u c'. thread_loop n clock (k + 1) u.receiver u.events c')
            (update-closed r [] idle.no_buffer).0
    | inr e ↦ if_false _ _ e
  ]

  thread_loop-packet :
      (n k : ℕ) (r : TcpReceiver) (net : List Event) (c : Client) (p : List ℕ) (u : Update)
      → c.running ≡ true
      → update r net ≡ some u
      → u.packet ≡ some p
      → u.returned ≡ true
      → (rest : Client → Result Client)
      → ((c' : Client) → thread_loop n clock (k + 1) u.receiver u.events c' ≡ some (rest c'))
      → thread_loop (suc n) clock k r net c ≡ some (process (clock k) p c >>= rest)
  unfolding thread_loop process_packet
  thread_loop-packet n k r net c p u running updated packet returned rest ih =
      if_true _ _ running
      ∙ ap (λ o. after_update o (clock k) c again) updated
      ∙ ap (λ o. after_process (process_packet (clock k) o c) u.returned (again u)) packet
      ∙ ap (λ b. after_process (process (clock k) p c) b (again u)) returned
      ∙ taken (process (clock k) p c)
    where
      again : Update → Client → Option (Result Client)
      again u c' = thread_loop n clock (k + 1) u.receiver u.events c'

      taken : (x : Result Client) → after_process x true (again u) ≡ some (x >>= rest)
      taken (ok c') = ih c'
      taken (throws e) = refl
      taken fault = refl

  thread_loop-receive_all :
      (n k : ℕ) (ps : List (List ℕ)) (r : TcpReceiver) (net : List Event) (c : Client)
      → length (bytes_of net) < n
      → All IsPayload ps
      → IsIdle r
      → IsFlowing net
      → bytes_of net ≡ frames ps
      → thread_loop n clock k r net c ≡ some (receive_all clock k ps c)
  unfolding receive_all
  thread_loop-receive_all zero k ps r net c fuel h idle flows e = absurd (omega arith)
  thread_loop-receive_all (suc n) k [] r net c fuel h idle flows e =
      rw (nothing_left net flows e) (thread_loop-closed n k r c idle)
  thread_loop-receive_all (suc n) k (p ∷ ps) r net c fuel h idle flows e =
      elim (Bool-cases c.running) [
        | inl on ↦
            let d : Delivers p (frames ps) (update r net) =
              update-Delivers p (frames ps) r net h.0.0 h.0.1 idle flows e in
            (thread_loop-packet n k r net c p d.u on d.ends d.packet d.returned
              (receive_all clock (k + 1) ps)
              λ c'.
                thread_loop-receive_all n (k + 1) ps d.u.receiver d.u.events c'
                  (shorter n p ps net d.u.events fuel h.0.0 e d.left) h.1 d.idle d.flows d.left)
            ∙ ap some (sym (if_true _ _ on))
        | inr off ↦ thread_loop-stopped n k r net c off ∙ ap some (sym (if_false _ _ off))
      ]

-- The client's thread, from an idle receiver, over the stream of any packets, none of them empty or
-- 2^32 bytes long, however the stream is cut into reads, while no read fails: it processes the
-- packets one by one, in their order, and each exactly once, until one of them ends the client or
-- throws, or the stream ends; then the client is not running.
pub threadfunc-receive_all :
    (clock : ℕ → ℤ) (ps : List (List ℕ)) (r : TcpReceiver) (net : List Event) (c : Client)
    → All IsPayload ps
    → IsIdle r
    → IsFlowing net
    → bytes_of net ≡ frames ps
    → threadfunc clock r net c
      ≡ some (receive_all clock 0 ps (record c { running = true }) >>= λ c. ok (stopped c))
unfolding threadfunc
threadfunc-receive_all clock ps r net c h idle flows e = ap with_end (
    thread_loop-receive_all clock (length (bytes_of net) + 1) 0 ps r net
      (record c { running = true }) (omega arith) h idle flows e)
