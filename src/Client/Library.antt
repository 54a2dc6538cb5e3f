-- ===== src/Client/Library.antt =====
-- diamondapparatus.h: the functions of the library as an interface, for the programs that only call
-- them, and the client that implements it. What a call does before it throws is kept, so a call
-- comes to a result and a state.
use diamond_apparatus.Base.{ℕ, ◌+◌, Bool, true, Option, none, ◌==◌, if◌then◌else◌}
use diamond_apparatus.Base.Result.{
  Result, ok, throws, fault, or_throw, ◌>>=◌, cannot_open_socket, cannot_find_hostname,
  error_connecting,
}
use diamond_apparatus.Topic.{Topic}
use diamond_apparatus.Topic.Message.{Allocator}
use diamond_apparatus.Tcp.Socket.{setsock}
use diamond_apparatus.Client.{Client, Name}
use diamond_apparatus.Client.Interface
use diamond_apparatus.Client.Get.{Phase, Get, done, waiting, get, no_waiter, wait_for_any}

abbrev pub Attempt {ℓ} : Type 0 → Type ℓ → Type ℓ
Attempt A W = Result A × W

-- The functions of the library; get() and wait_for_any() come to what they come to once they return.
pub record Library {ℓ} (W : Type ℓ) : Type ℓ where
  pub init : W → Attempt (Unit {0}) W
  pub server : W → Attempt (Unit {0}) W
  pub destroy : W → ℕ × W
  pub subscribe : Name → W → Attempt (Unit {0}) W
  pub publish : Name → Topic → W → Attempt (Unit {0}) W
  pub kill_server : W → Attempt (Unit {0}) W
  pub clear_server : W → Attempt (Unit {0}) W
  pub wait_for_any : W → Attempt (Unit {0}) W
  pub is_running : W → Bool
  pub get : Name → ℕ → W → Attempt Topic W

-- What the calls of TCPClient() come to: socket(), whether the host is found, connect(), and the
-- setsockopt() of setsock().
pub record Dial : Type 0 where
  pub socket : Option ℕ
  pub hostname : Bool
  pub connected : Bool
  pub reusable : Bool

unfoldable pub connect_client : Dial → Result ℕ
connect_client dial = do
  fd ← or_throw dial.socket cannot_open_socket
  if dial.hostname
      then (if dial.connected
          then (setsock dial.reusable >>= λ u. ok fd)
          else throws error_connecting)
      else throws cannot_find_hostname

-- init(), until the new thread has started; the topics of an earlier client are kept.
unfoldable pub init : Dial → Client → Result Client
init dial c =
    if c.init_count == 0
    then (do
      fd ← connect_client dial
      ok (record c { fd = fd; waittopic = none; running = true; init_count = c.init_count + 1 }))
    else ok (record c { init_count = c.init_count + 1 })

-- A call that throws leaves what `thrown` says.
abbrev pub attempted : (Client → Client) → Client → Result Client → Attempt (Unit {0}) Client
attempted thrown c (ok c') = (ok tt, c')
attempted thrown c (throws e) = (throws e, thrown c)
attempted thrown c fault = (fault, c)

-- The rest of a get(): what its wait comes to is the other threads' doing.
abbrev pub waited :
    (Phase → ℕ → Name → Client → Attempt Topic Client)
    → Client
    → Result (Get × Client)
    → Attempt Topic Client
waited wait c (ok (done t, c')) = (ok t, c')
waited wait c (ok (waiting phase cell n, c')) = wait phase cell n c'
waited wait c (throws e) = (throws e, c)
waited wait c fault = (fault, c)

-- The client: `serve` is server(), which keeps a state of its own, and `rest` what the other threads
-- do while waitForAny() waits.
module _ (a : Allocator) (dial : Dial) (thrown rest : Client → Client) (serve : Result (Unit {0}))
    (wait : Phase → ℕ → Name → Client → Attempt Topic Client) where
  unfoldable pub client_library : Library Client
  client_library = record {
    init = λ c. attempted (λ c. c) c (init dial c);
    server = λ c. (serve, c);
    destroy = Interface.destroy;
    subscribe = λ n c. attempted thrown c (Interface.subscribe a n c);
    publish = λ n t c. attempted thrown c (Interface.publish a n t c);
    kill_server = λ c. attempted thrown c (Interface.kill_server c);
    clear_server = λ c. attempted thrown c (Interface.clear_server c);
    wait_for_any = λ c. (ok tt, no_waiter (rest (wait_for_any c)));
    is_running = Interface.is_running;
    get = λ n flag c. waited wait c (get n flag c);
  }
