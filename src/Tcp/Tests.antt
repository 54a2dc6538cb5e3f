-- ===== src/Tcp/Tests.antt =====
-- Runs of basesend() and of TCPReceiver.update() on short packets.
use diamond_apparatus.Base.{ℕ, ◌≡◌, refl, some, List, [], ◌∷◌, ◌++◌, arith}
use diamond_apparatus.Base.Result.{ok}
use diamond_apparatus.Base.Bytes.{htonl}
use diamond_apparatus.Tcp.Send.{Net, Write, wrote, failed, other, basesend}
use diamond_apparatus.Tcp.Send.Frames.{basesend_short}
use diamond_apparatus.Tcp.Receive.{Event, chunk, failure, new_receiver, Update, update}
use diamond_apparatus.Tcp.Receive.Reassembly.{Delivers, update-Delivers}
use diamond_apparatus.Tcp.Receive.Ends.{update-ends}

abbrev three_bytes : List ℕ
three_bytes = 7 ∷ 8 ∷ 9 ∷ []

-- A packet of three bytes and one of a single byte, cut inside the size and inside the payload.
abbrev cut_up : List Event
cut_up =
    chunk (0 ∷ 0 ∷ [])
    ∷ chunk (0 ∷ 3 ∷ 7 ∷ [])
    ∷ chunk (8 ∷ 9 ∷ 0 ∷ 0 ∷ 0 ∷ 1 ∷ [])
    ∷ chunk (5 ∷ [])
    ∷ []

abbrev net_of : List Write → Net
net_of script = record { script = script; errno = other; out = (4, 1 ∷ []) ∷ [] }

update-Delivers_example : Delivers three_bytes (0 ∷ 0 ∷ 0 ∷ 1 ∷ 5 ∷ []) (update new_receiver cut_up)
unfolding htonl
update-Delivers_example =
    update-Delivers three_bytes (0 ∷ 0 ∷ 0 ∷ 1 ∷ 5 ∷ []) new_receiver cut_up (omega arith)
      (omega arith) (record { empty = refl; no_size = refl; no_buffer = refl; unforced = refl }) tt
      refl

update-ends_example : (u : Update) × (update new_receiver (failure ∷ cut_up) ≡ some u)
update-ends_example = update-ends new_receiver (failure ∷ cut_up)

abbrev cut_write : Net
cut_write = net_of (wrote 4 ∷ wrote 2 ∷ failed other ∷ [])

basesend_short_example :
    basesend 5 three_bytes cut_write
    ≡ ok (record cut_write {
      script = failed other ∷ [];
      out = cut_write.out ++ (5, htonl 3) ∷ (5, 7 ∷ 8 ∷ []) ∷ [];
    })
basesend_short_example =
    basesend_short 5 2 three_bytes cut_write (failed other ∷ []) refl (omega arith) (omega arith)
