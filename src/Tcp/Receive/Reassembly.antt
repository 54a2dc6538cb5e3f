-- ===== src/Tcp/Receive/Reassembly.antt =====
-- Packets are put together again, however the stream is cut into reads.
use diamond_apparatus.Base.{
  ℕ, zero, suc, ◌<◌, ◌≡◌, refl, ap, ◌∙◌, true, Option, some, List, ◌++◌, arith, length, ◌⊎◌, inl,
}
use diamond_apparatus.Base.Bytes.{IsWord}
use diamond_apparatus.Tcp.Send.Frames.{frame}
use diamond_apparatus.Tcp.Receive.{
  Event, TcpReceiver, Loop, Flow, on, leave, deliver, round, Update, update_loop, update,
  update_fuel, bytes_of,
}
use diamond_apparatus.Tcp.Receive.Chunks.{IsFlowing}
use diamond_apparatus.Tcp.Receive.Phases.{InSize, InData, IsIdle, Progress, Progress-mono}
use diamond_apparatus.Tcp.Receive.Rounds.{round-Progress}

-- A call of update() that has handed over a packet: it returns true, the receiver is idle, and the
-- rest of the stream is unread.
pub record Delivers (pkt rest : List ℕ) (o : Option Update) : Type 0 where
  pub u : Update
  pub ends : o ≡ some u
  pub returned : u.returned ≡ true
  pub packet : u.packet ≡ some pkt
  pub idle : IsIdle u.receiver
  pub left : bytes_of u.events ≡ rest
  pub flows : IsFlowing u.events

module _ (pkt rest : List ℕ) (nonempty : 0 < length pkt) (small : IsWord (length pkt)) where
  by_flow :
      (n : ℕ) (l : Loop) (f : Flow)
      → round l ≡ f
      → ((m : Loop)
          → InSize pkt rest m ⊎ InData pkt rest m
          → length (bytes_of m.net) < n
          → Delivers pkt rest (update_loop n m))
      → Progress pkt rest n f
      → Delivers pkt rest (update_loop (suc n) l)
  unfolding update_loop
  by_flow n l (on m) e ih p = rw (e, update_loop) (ih m p.0 p.1)
  by_flow n l (leave b m) e ih p = absurd p
  by_flow n l (deliver q m) e ih p =
      rw (e, update_loop)
        (record {
          u = record { returned = true; packet = some q; receiver = m.r; events = m.net };
          ends = refl;
          returned = refl;
          packet = ap some p.0;
          idle = p.1;
          left = p.2;
          flows = p.3;
        })

  update_loop-Delivers :
      (n : ℕ) (l : Loop)
      → InSize pkt rest l ⊎ InData pkt rest l
      → length (bytes_of l.net) < n
      → Delivers pkt rest (update_loop n l)
  update_loop-Delivers zero l state h = absurd (omega arith)
  update_loop-Delivers (suc n) l state h = by_flow n l (round l) refl (update_loop-Delivers n) (
      Progress-mono pkt rest (length (bytes_of l.net)) n (round l) (omega arith)
        (round-Progress pkt rest l nonempty small state))

-- From an idle receiver, whatever the stream is cut into: if the bytes to come are a packet behind
-- its size and then anything, the packet neither empty nor 2^32 bytes long, no read fails and the
-- peer does not close before the packet's end, then update() ends, gives that packet and no other
-- to process(), returns true, and leaves an idle receiver and the rest of the stream.
pub update-Delivers :
    (pkt rest : List ℕ) (r : TcpReceiver) (net : List Event)
    → 0 < length pkt
    → IsWord (length pkt)
    → IsIdle r
    → IsFlowing net
    → bytes_of net ≡ frame pkt ++ rest
    → Delivers pkt rest (update r net)
unfolding update
update-Delivers pkt rest r net nonempty small idle flowing e =
    update_loop-Delivers pkt rest nonempty small (update_fuel net) _
      (inl (record {
        no_buffer = idle.no_buffer;
        counted = omega (arith, ap length idle.no_size, idle.empty);
        partial = omega (arith, idle.empty);
        stream_eq = ap (λ b. b ++ bytes_of net) idle.no_size ∙ e;
        flows = flowing;
        unforced = idle.unforced;
      }))
      (omega arith)
