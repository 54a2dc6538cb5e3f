-- ===== src/Tcp/Receive/Ends.antt =====
-- Every call of update() ends, whatever the receiver's state and whatever the reads return.
use diamond_apparatus.Base.{
  ℕ, zero, suc, ◌+◌, ◌-◌, ◌≤◌, ◌<◌, ◌≡◌, refl, sym, subst, true, false, Option, none, some, List,
  [], ◌∷◌, arith, length, drop, length-drop, length-append,
}
use diamond_apparatus.Tcp.Receive.{
  Event, chunk, failure, Read, got, minus_one, read, TcpReceiver, Loop, Flow, on, leave, deliver,
  round, data_phase, first_phase, second_part, then_flow, force_check, data_read, size_phase,
  Update, update_loop, update, update_fuel, bytes_of,
}

-- A part of the loop's body that goes on leaves fewer than `n` bytes to read.
abbrev Shrinks : ℕ → Flow → Type 0
Shrinks n (on l) = length (bytes_of l.net) < n
Shrinks n (leave b l) = Unit {0}
Shrinks n (deliver p l) = Unit {0}

abbrev ReadLeft : ℕ → Read × List Event → Type 0
ReadLeft n (got [], net) = Unit {0}
ReadLeft n (got (b ∷ bs), net) = length (bytes_of net) < n
ReadLeft n (minus_one, net) = Unit {0}

read-left : (n : ℕ) (net : List Event) → ReadLeft (length (bytes_of net)) (read n net)
unfolding read
read-left n [] = tt
read-left n (failure ∷ net) = tt
read-left n (chunk [] ∷ net) = ground arith
read-left zero (chunk (b ∷ bs) ∷ net) = ground arith
read-left (suc n) (chunk (b ∷ bs) ∷ net) = ground (
  arith,
  length-append (drop n bs) (bytes_of net),
  length-append bs (bytes_of net),
  length-drop n bs,
)

size_phase-Shrinks :
    (n : ℕ) (x : Read × List Event) (l : Loop) → ReadLeft n x → Shrinks n (size_phase x l)
unfolding size_phase
size_phase-Shrinks n (got [], net) l h = tt
size_phase-Shrinks n (got (b ∷ bs), net) l h = ground arith
size_phase-Shrinks n (minus_one, net) l h = tt

data_read-Shrinks :
    (n : ℕ) (buf : List ℕ) (x : Read × List Event) (l : Loop)
    → ReadLeft n x
    → Shrinks n (then_flow (data_read buf x l) force_check)
unfolding data_read
data_read-Shrinks n buf (got [], net) l h = tt
data_read-Shrinks n buf (got (b ∷ bs), net) l h = ground arith
data_read-Shrinks n buf (minus_one, net) l h = tt

force_check-Shrinks : (n : ℕ) (l : Loop) → length (bytes_of l.net) < n → Shrinks n (force_check l)
force_check-Shrinks n l h = ground arith

-- The second phase with no buffer reads nothing.
second_none :
    (n : ℕ) (l : Loop)
    → length (bytes_of l.net) < n
    → Shrinks n (then_flow (data_phase none l) force_check)
unfolding data_phase
second_none n l h = force_check-Shrinks n l h

second_some :
    (buf : List ℕ) (l : Loop)
    → Shrinks (length (bytes_of l.net)) (then_flow (data_phase (some buf) l) force_check)
unfolding data_phase
second_some buf l =
    data_read-Shrinks (length (bytes_of l.net)) buf _ l
      (read-left (l.r.recvsize - l.r.recvct) l.net)

Shrinks-mono : (m n : ℕ) (f : Flow) → m ≤ n → Shrinks m f → Shrinks n f
Shrinks-mono m n (on l) h s = omega arith
Shrinks-mono m n (leave b l) h s = tt
Shrinks-mono m n (deliver p l) h s = tt

second_part-Shrinks :
    (n : ℕ) (o : Option (List ℕ)) (l : Loop)
    → length (bytes_of l.net) < n
    → Shrinks n (then_flow (data_phase o l) force_check)
second_part-Shrinks n none l h = second_none n l h
second_part-Shrinks n (some buf) l h =
    Shrinks-mono (length (bytes_of l.net)) n _ (omega arith) (second_some buf l)

then_second-Shrinks : (n : ℕ) (f : Flow) → Shrinks n f → Shrinks n (then_flow f second_part)
then_second-Shrinks n (on l) s = second_part-Shrinks n l.r.recvdata l s
then_second-Shrinks n (leave b l) s = tt
then_second-Shrinks n (deliver p l) s = tt

by_buffer :
    (o : Option (List ℕ)) (l : Loop)
    → l.r.recvdata ≡ o
    → Shrinks (length (bytes_of l.net)) (then_flow (first_phase o l) second_part)
unfolding first_phase
by_buffer none l e =
    then_second-Shrinks (length (bytes_of l.net)) _
      (size_phase-Shrinks (length (bytes_of l.net)) _ l (read-left (4 - l.r.recvct) l.net))
by_buffer (some buf) l e =
    subst (λ o. Shrinks (length (bytes_of l.net)) (then_flow (data_phase o l) force_check)) (sym e)
      (second_some buf l)

round-Shrinks : (l : Loop) → Shrinks (length (bytes_of l.net)) (round l)
unfolding round
round-Shrinks l = by_buffer l.r.recvdata l refl

by_flow :
    (n : ℕ) (l : Loop) (f : Flow)
    → round l ≡ f
    → ((m : Loop) → length (bytes_of m.net) < n → (u : Update) × (update_loop n m ≡ some u))
    → Shrinks n f
    → (u : Update) × (update_loop (suc n) l ≡ some u)
unfolding update_loop
by_flow n l (on m) e ih s = rw (e, update_loop) (ih m s)
by_flow n l (leave b m) e ih s =
    (record { returned = b; packet = none; receiver = m.r; events = m.net }, rw (e, update_loop))
by_flow n l (deliver q m) e ih s = (
  record { returned = true; packet = some q; receiver = m.r; events = m.net },
  rw (e, update_loop),
)

update_loop-ends :
    (n : ℕ) (l : Loop) → length (bytes_of l.net) < n → (u : Update) × (update_loop n l ≡ some u)
update_loop-ends zero l h = absurd (omega arith)
update_loop-ends (suc n) l h =
    by_flow n l (round l) refl (update_loop-ends n)
      (Shrinks-mono (length (bytes_of l.net)) n (round l) (omega arith) (round-Shrinks l))

-- Every call of update() ends, whatever the receiver's state, the bytes and the failures: the fuel
-- of the model never runs out.
pub update-ends : (r : TcpReceiver) (net : List Event) → (u : Update) × (update r net ≡ some u)
unfolding update
update-ends r net = update_loop-ends (update_fuel net) _ (omega arith)

-- While the receiver has no buffer for a packet, a first read that fails, or that meets the end of
-- the stream, ends update() with false, which is what makes the server drop the client; only a
-- failure marks the port as closed.
pub update-closed :
    (r : TcpReceiver) (net : List Event)
    → r.recvdata ≡ none
    → (update r [] ≡ some (record { returned = false; packet = none; receiver = r; events = [] }))
      × (update r (failure ∷ net)
          ≡ some (record {
            returned = false;
            packet = none;
            receiver = record r { port_closed = true };
            events = net;
          }))
unfolding update update_loop round size_phase first_phase read
update-closed r net e =
    let fuel : length (bytes_of net) + 1 ≡ suc (length (bytes_of net)) = omega arith in
    (rw (e, update_loop, first_phase), rw (fuel, update_loop, e, first_phase))
