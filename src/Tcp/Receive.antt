-- ===== src/Tcp/Receive.antt =====
-- TCPReceiver of tcp.h. What read() returns comes from the peer and the operating system: a list of
-- events, at whose end the peer has closed.
pub mod Chunks
pub mod Phases
pub mod Rounds
pub mod Reassembly
pub mod Ends
pub mod Spends
use diamond_apparatus.Base.{
  ℕ, zero, suc, ◌+◌, ◌-◌, Bool, true, false, Option, none, some, List, [], ◌∷◌, ◌++◌, length, take,
  drop, leb, ◌==◌, if◌then◌else◌,
}
use diamond_apparatus.Base.Result.{Result, ok}
use diamond_apparatus.Base.Bytes.{ntohl}

-- The next bytes to be read, or a failure.
pub data Event : Type 0 where
  chunk : List ℕ → Event
  failure : Event

-- What one read() delivers: bytes, none of them at the end, or -1.
pub data Read : Type 0 where
  got : List ℕ → Read
  minus_one : Read

-- read(fd,to,n): at most n bytes of the next chunk; what is left of it stays.
unfoldable pub read : ℕ → List Event → Read × List Event
read n [] = (got [], [])
read n (failure ∷ net) = (minus_one, net)
read n (chunk bs ∷ net) =
    if leb (length bs) n then (got bs, net) else (got (take n bs), chunk (drop n bs) ∷ net)

-- `size_bytes` is the memory of recvsize while the size is being received, `recvsize` its value
-- after ntohl(); `recvdata` is the buffer as far as it has been filled, `none` for NULL.
pub record TcpReceiver : Type 0 where
  pub recvct : ℕ
  pub size_bytes : List ℕ
  pub recvdata : Option (List ℕ)
  pub recvsize : ℕ
  pub port_closed : Bool
  pub is_force_exit : Bool

abbrev pub new_receiver : TcpReceiver
new_receiver = record {
  recvct = 0;
  size_bytes = [];
  recvdata = none;
  recvsize = 0;
  port_closed = false;
  is_force_exit = false;
}

abbrev pub is_closed : TcpReceiver → Bool
is_closed r = r.port_closed

abbrev pub force_exit : TcpReceiver → TcpReceiver
force_exit r = record r { is_force_exit = true }

-- The locals of update(): the receiver, what is to be read, and `rv`.
pub record Loop : Type 0 where
  pub r : TcpReceiver
  pub net : List Event
  pub rv : Bool

-- How a part of the loop's body ends: it goes on, breaks off with what update() returns, or has a
-- whole packet, which goes to process() before update() returns true.
pub data Flow : Type 0 where
  on : Loop → Flow
  leave : Bool → Loop → Flow
  deliver : List ℕ → Loop → Flow

-- The bytes stored at an offset of a buffer that is filled up to there.
abbrev pub fill_at : ℕ → List ℕ → List ℕ → List ℕ
fill_at n buf bs = take n buf ++ bs

-- The value of the four bytes by ntohl(); four bytes are there whenever it is called.
abbrev pub word_of : Result (ℕ × List ℕ) → ℕ
word_of (ok (n, p)) = n
word_of _ = 0

-- The whole size is there: allocate, and prepare for the payload.
abbrev pub size_received : Loop → Loop
size_received l = record l {
  r = record l.r { recvsize = word_of (ntohl l.r.size_bytes); recvdata = some []; recvct = 0 };
}

-- The first phase.
unfoldable pub size_bytes_in : List ℕ → Loop → Flow
size_bytes_in [] l = leave l.rv l
size_bytes_in (b ∷ bs) l =
    let l' : Loop = record l {
      r = record l.r {
        size_bytes = fill_at l.r.recvct l.r.size_bytes (b ∷ bs);
        recvct = l.r.recvct + length (b ∷ bs);
      };
      rv = true;
    } in
    on (if l'.r.recvct == 4 then size_received l' else l')

abbrev pub close_port : Loop → Loop
close_port l = record l { r = record l.r { port_closed = true } }

unfoldable pub size_phase : Read × List Event → Loop → Flow
unfolding size_bytes_in
size_phase (minus_one, net) l = let l' = close_port (record l { net = net }) in leave l'.rv l'
size_phase (got bs, net) l = size_bytes_in bs (record l { net = net })

abbrev pub reset : TcpReceiver → TcpReceiver
reset r = record r { recvct = 0; recvdata = none; recvsize = 0; size_bytes = [] }

-- The second phase, with the buffer.
unfoldable pub data_bytes_in : List ℕ → List ℕ → Loop → Flow
data_bytes_in buf [] l = leave l.rv l
data_bytes_in buf (b ∷ bs) l =
    let whole = fill_at l.r.recvct buf (b ∷ bs) in
    let l' : Loop = record l {
      r = record l.r { recvdata = some whole; recvct = l.r.recvct + length (b ∷ bs) };
      rv = true;
    } in
    if l'.r.recvct == l'.r.recvsize then deliver whole (record l' { r = reset l'.r }) else on l'

unfoldable pub data_read : List ℕ → Read × List Event → Loop → Flow
unfolding data_bytes_in
data_read buf (minus_one, net) l = let l' = close_port (record l { net = net }) in leave l'.rv l'
data_read buf (got bs, net) l = data_bytes_in buf bs (record l { net = net })

unfoldable pub data_phase : Option (List ℕ) → Loop → Flow
unfolding data_read
data_phase none l = on l
data_phase (some buf) l = data_read buf (read (l.r.recvsize - l.r.recvct) l.net) l

abbrev pub then_flow : Flow → (Loop → Flow) → Flow
then_flow (on l) f = f l
then_flow (leave b l) f = leave b l
then_flow (deliver p l) f = deliver p l

abbrev pub force_check : Loop → Flow
force_check l = if l.r.is_force_exit then leave false l else on l

unfoldable pub first_phase : Option (List ℕ) → Loop → Flow
unfolding size_phase
first_phase none l = size_phase (read (4 - l.r.recvct) l.net) l
first_phase (some buf) l = on l

abbrev pub second_part : Loop → Flow
second_part l = then_flow (data_phase l.r.recvdata l) λ l. force_check l

-- One round of the loop.
unfoldable pub round : Loop → Flow
unfolding first_phase data_phase
round l = then_flow (first_phase l.r.recvdata l) second_part

-- The end of a call of update(): what it returns, the packet that it gave to process(), if it gave
-- one, and the receiver and the events after it.
pub record Update : Type 0 where
  pub returned : Bool
  pub packet : Option (List ℕ)
  pub receiver : TcpReceiver
  pub events : List Event

-- `none` is fuel that ran out.
unfoldable pub update_loop : ℕ → Loop → Option Update
update_loop zero l = none
update_loop (suc n) l = elim (round l) [
  | on l' ↦ update_loop n l'
  | leave b l' ↦ some (record { returned = b; packet = none; receiver = l'.r; events = l'.net })
  | deliver p l' ↦
      some (record { returned = true; packet = some p; receiver = l'.r; events = l'.net })
]

-- The bytes that are still to be read.
abbrev pub bytes_of : List Event → List ℕ
bytes_of [] = []
bytes_of (chunk bs ∷ net) = bs ++ bytes_of net
bytes_of (failure ∷ net) = bytes_of net

-- Each round that goes on has read a byte, so this is enough fuel.
abbrev pub update_fuel : List Event → ℕ
update_fuel net = length (bytes_of net) + 1

unfoldable pub update : TcpReceiver → List Event → Option Update
update r net = update_loop (update_fuel net) (record { r = r; net = net; rv = false })
