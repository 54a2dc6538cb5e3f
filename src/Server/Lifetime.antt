-- ===== src/Server/Lifetime.antt =====
-- The server's sockets, from the listening one to their end: the constructor and the destructor of
-- TCPServer (tcp.h), server() and the handler of its signals (server.cpp).
pub mod Kill
use diamond_apparatus.Base.{
  ℕ, ◌≡◌, refl, ap, sym, ◌∙◌, Bool, true, false, ◌&&◌, ◌||◌, Option, List, [], ◌∷◌, arith, ◌==◌,
  if◌then◌else◌,
}
use diamond_apparatus.Base.Order.{nat_ord, bytes_ord}
use diamond_apparatus.Base.Result.{
  Result, ok, throws, or_throw, cannot_open_socket, cannot_bind, ◌>>=◌, Ensures, Ensures-bind,
  Ensures-any,
}
use diamond_apparatus.Map
use diamond_apparatus.Map.{keys, same}
use diamond_apparatus.Map.Multi.{listed, listed-keys}
use diamond_apparatus.Tcp.Send.{Net}
use diamond_apparatus.Tcp.Socket.{setsock}
use diamond_apparatus.Server.{Platform, Server}
use diamond_apparatus.Server.Process.{make_server, shutdown}
use diamond_apparatus.Server.Loop.{Ready, server_loop}
use diamond_apparatus.Server.Invariant.{Inv}
use diamond_apparatus.Server.History.{make_server-Inv, server_loop-Inv, shutdown-Inv}

-- What the calls of TCPServer() come to: socket(), bind(), and the setsockopt() of setsock(); what
-- listen() returns is not looked at.
pub record Listening : Type 0 where
  pub socket : Option ℕ
  pub bound : Bool
  pub reusable : Bool

unfoldable pub open_listener : Listening → Result ℕ
open_listener l = do
  fd ← or_throw l.socket cannot_open_socket
  if l.bound then (setsock l.reusable >>= λ u. ok fd) else throws cannot_bind

-- What ~TCPServer() closes, in order.
unfoldable pub closed_by : Server → List ℕ
closed_by s = s.listenfd ∷ keys s.clients

-- How far server() has come: whether it has returned, what has been closed by then, and the server.
pub record Ending : Type 0 where
  pub returned : Bool
  pub closed : List ℕ
  pub server : Server

abbrev pub end_of : Bool × Server → Ending
end_of (b, s) = record { returned = b; closed = if b then closed_by s else []; server = s }

unfoldable pub server : Platform → Listening → ℕ → Net → List (Option (List Ready)) → Result Ending
server pf l now net rounds = do
  fd ← open_listener l
  s ← make_server pf now fd net
  x ← server_loop pf rounds s
  ok (end_of x)

-- The handler of SIGINT and SIGQUIT, up to exit(1).
unfoldable pub handler : Server → Result Ending
handler s = do s ← shutdown s; ok (end_of (true, s))

-- What is closed is just what select() was watching, and nothing before the end.
abbrev pub ClosesAll : Ending → Type 0
ClosesAll r = (fd : ℕ) → listed fd r.closed ≡ (r.returned && Map.has fd r.server.active_fd_set)

pub listed-closed_by :
    (s : Server) → Inv s → (fd : ℕ) → listed fd (closed_by s) ≡ Map.has fd s.active_fd_set
unfolding closed_by listed
listed-closed_by s v fd = ground (arith, v.watched fd, listed-keys fd s.clients)

end_of-ClosesAll : (x : Bool × Server) → Inv x.1 → ClosesAll (end_of x)
unfolding listed
end_of-ClosesAll (true, s) v fd = listed-closed_by s v fd
end_of-ClosesAll (false, s) v fd = refl

-- server(), from its first socket through any rounds, whatever the environment answers, and the
-- handler of the signals in any state that keeps the server's invariant: if they return, the
-- destructor has closed the descriptors that select() was watching, and no other; and while the
-- server still runs, none.
pub server-ClosesAll :
    (pf : Platform) (l : Listening) (now : ℕ) (net : Net) (rounds : List (Option (List Ready)))
    (s : Server)
    → Inv s
    → Ensures ClosesAll (server pf l now net rounds) × Ensures ClosesAll (handler s)
unfolding server handler
server-ClosesAll pf l now net rounds s v = (
  Ensures-any ClosesAll (open_listener l) _ λ fd.
      Ensures-bind Inv ClosesAll (make_server pf now fd net) _ (make_server-Inv pf now fd net)
        λ t w.
          Ensures-bind (λ x. Inv x.1) ClosesAll (server_loop pf rounds t) _
            (server_loop-Inv pf rounds t w) end_of-ClosesAll,
  Ensures-bind Inv ClosesAll (shutdown s) _ (shutdown-Inv pf s v)
      λ t w. end_of-ClosesAll (true, t) w,
)
