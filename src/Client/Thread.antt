-- ===== src/Client/Thread.antt =====
-- client.cpp: the thread of the client, which takes packets until it is told to end or the
-- connection goes. The clock's reading in each round is an argument.
pub mod Stream
pub mod Ends
use diamond_apparatus.Base.{
  ℕ, zero, suc, ◌+◌, Bool, true, false, Option, none, some, List, length, if◌then◌else◌,
}
use diamond_apparatus.Base.Int.{ℤ}
use diamond_apparatus.Base.Result.{Result, ok, throws, fault, ◌>>=◌}
use diamond_apparatus.Tcp.Receive.{TcpReceiver, Event, Update, update, bytes_of}
use diamond_apparatus.Client.{Client, process}

-- The call of process() inside update() of the receiver.
unfoldable pub process_packet : ℤ → Option (List ℕ) → Client → Result Client
process_packet now none c = ok c
process_packet now (some p) c = process now p c

-- Behind process(): what update() returned decides whether there is another round.
abbrev pub after_process :
    Result Client → Bool → (Client → Option (Result Client)) → Option (Result Client)
after_process (ok c) true again = again c
after_process (ok c) false again = some (ok c)
after_process (throws e) returned again = some (throws e)
after_process fault returned again = some fault

abbrev pub after_update :
    Option Update → ℤ → Client → (Update → Client → Option (Result Client)) → Option (Result Client)
after_update none now c again = none
after_update (some u) now c again =
    after_process (process_packet now u.packet c) u.returned (again u)

-- The loop; `none` is fuel that ran out.
unfoldable pub thread_loop :
    ℕ → (ℕ → ℤ) → ℕ → TcpReceiver → List Event → Client → Option (Result Client)
thread_loop zero clock k r net c = none
thread_loop (suc n) clock k r net c =
    if c.running
    then after_update (update r net) (clock k) c
        (λ u c'. thread_loop n clock (k + 1) u.receiver u.events c')
    else some (ok c)

abbrev pub stopped : Client → Client
stopped c = record c { running = false }

abbrev pub with_end : Option (Result Client) → Option (Result Client)
with_end none = none
with_end (some r) = some (do c ← r; ok (stopped c))

-- A round after which there is another one has read a byte, so this is enough fuel.
unfoldable pub threadfunc : (ℕ → ℤ) → TcpReceiver → List Event → Client → Option (Result Client)
threadfunc clock r net c =
    with_end (thread_loop (length (bytes_of net) + 1) clock 0 r net (record c { running = true }))
