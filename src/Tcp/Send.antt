-- ===== src/Tcp/Send.antt =====
-- basesend() of tcp.h. What write() returns is the operating system's: a script says it, call by
-- call, and behind its end every write is complete. The bytes that went out are kept with the
-- descriptor that took them, one entry for each call.
pub mod Frames
use diamond_apparatus.Base.{
  ℕ, zero, suc, ◌+◌, Bool, true, false, ◌&&◌, ◌||◌, Option, none, some, List, [], ◌∷◌, ◌++◌, length,
  take, ltb, if◌then◌else◌,
}
use diamond_apparatus.Base.Result.{Result, ok, throws, cannot_send}
use diamond_apparatus.Base.Bytes.{htonl}

pub data Errno : Type 0 where
  epipe other : Errno

-- One call of write(): it takes at most this many bytes, or fails and sets errno.
pub data Write : Type 0 where
  wrote : ℕ → Write
  failed : Errno → Write

pub record Net : Type 0 where
  pub script : List Write
  pub errno : Errno
  pub out : List (ℕ × List ℕ)

-- The result of a call, with the calls that are left.
perform : Write → List Write → ℕ → List ℕ → Net → Option ℕ × Net
perform (wrote k) rest fd bs net =
    (some (length (take k bs)), record net { script = rest; out = net.out ++ (fd, take k bs) ∷ [] })
perform (failed e) rest fd bs net = (none, record net { script = rest; errno = e })

write_by : List Write → ℕ → List ℕ → Net → Option ℕ × Net
unfolding perform
write_by [] fd bs net = perform (wrote (length bs)) [] fd bs net
write_by (w ∷ rest) fd bs net = perform w rest fd bs net

unfoldable pub write : ℕ → List ℕ → Net → Option ℕ × Net
unfolding write_by
write fd bs net = write_by net.script fd bs net

-- `rv>0`; -1 is `none`.
abbrev is_positive : Option ℕ → Bool
is_positive none = false
is_positive (some n) = ltb 0 n

abbrev is_epipe : Errno → Bool
is_epipe epipe = true
is_epipe other = false

-- One round: the size and then the data, and whether the loop is left behind it: both calls wrote
-- something, or the pipe is broken.
unfoldable pub attempt : ℕ → List ℕ → Net → Bool × Net
attempt fd bs net =
    let (rv, net1) = write fd (htonl (length bs)) net in
    let (rv2, net2) = write fd bs net1 in
    ((is_positive rv && is_positive rv2) || is_epipe net2.errno, net2)

-- The rounds that are left of the ten.
unfoldable pub send_loop : ℕ → ℕ → List ℕ → Net → Result Net
send_loop zero fd bs net = throws cannot_send
send_loop (suc n) fd bs net =
    let (done, net') = attempt fd bs net in
    let retry = send_loop n fd bs net' in if done then ok net' else retry

abbrev pub tries : ℕ
tries = 10

unfoldable pub basesend : ℕ → List ℕ → Net → Result Net
basesend = send_loop tries
