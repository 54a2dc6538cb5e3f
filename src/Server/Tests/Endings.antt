-- ===== src/Server/Tests/Endings.antt =====
-- The server that two clients use, told to end by one of them.
use diamond_apparatus.Base.{
  ℕ, ◌≡◌, ◌++◌, refl, true, ◌==◌, ◌||◌, none, some, [], ◌∷◌, arith, if◌then◌else◌,
}
use diamond_apparatus.Base.Order.{nat_ord, bytes_ord, compare_bytes}
use diamond_apparatus.Base.Result.{ok, Ensures, Ensures-ok}
use diamond_apparatus.Base.Bytes.{htonl}
use diamond_apparatus.Map
use diamond_apparatus.Map.Sorted.{IsSorted}
use diamond_apparatus.Map.Multi.{member, listed}
use diamond_apparatus.Tcp.Send.Frames.{frame, stream}
use diamond_apparatus.Tcp.Receive.{chunk}
use diamond_apparatus.Messages.{cs_killserver}
use diamond_apparatus.Server.{Server, stats_name}
use diamond_apparatus.Server.Loop.{Ready, connect, serve_ready, serve_all, server_loop}
use diamond_apparatus.Server.Invariant.{Inv}
use diamond_apparatus.Server.Lifetime.{
  Listening, server, handler, closed_by, ClosesAll, server-ClosesAll,
}
use diamond_apparatus.Server.Lifetime.Kill.{farewell, statistics, server_loop-killserver}
use diamond_apparatus.Server.History.{make_server-Inv}
use diamond_apparatus.Server.Tests
use diamond_apparatus.Server.Tests.Runs.{s0, s0-made}
use diamond_apparatus.Server.Tests.{busy, client_of, machine, idle}

abbrev open_port : Listening
open_port = record { socket = some 3; bound = true; reusable = true }

server-ClosesAll_example :
    Ensures ClosesAll (
      server machine open_port 0 Tests.quiet
        (some (Tests.hello ∷ []) ∷ some (Tests.asks ∷ []) ∷ []))
    × Ensures ClosesAll (handler s0)
server-ClosesAll_example =
    server-ClosesAll machine open_port 0 Tests.quiet
      (some (Tests.hello ∷ []) ∷ some (Tests.asks ∷ []) ∷ []) s0
      (Ensures-ok Inv s0-made (make_server-Inv machine 0 3 Tests.quiet))

abbrev kills : Ready
kills = record {
  fd = 4;
  accepted = none;
  events = chunk (frame (htonl cs_killserver)) ∷ [];
  now = 9;
}

-- A client that comes in front of the packet.
abbrev comes : Ready
comes = record { fd = 3; accepted = some 9; events = []; now = 8 }

abbrev joined : Server
joined = connect 9 busy

comes-served : serve_all machine (comes ∷ []) busy ≡ ok joined
unfolding serve_all serve_ready
comes-served = refl

no_stats : IsSorted {K = ℕ} {V = Unit {0}} (Map.at [] stats_name joined.subscribers)
unfolding connect Map.at Map.find compare_bytes
no_stats = tt

server_loop-killserver_example :
    (t : Server) × (server_loop machine (some (comes ∷ kills ∷ []) ∷ []) busy ≡ ok (true, t))
    × (stream 5 t.net.out
        ≡ (stream 5 []
            ++ (if member stats_name 5 joined.subscribers
                then frame (statistics machine kills (client_of 4) joined)
                else []))
          ++ (if Map.has 5 joined.clients then frame farewell else []))
    × (listed 5 (closed_by t) ≡ (5 == 3 || Map.has 5 joined.clients))
unfolding connect htonl Map.find Map.insert
server_loop-killserver_example =
    server_loop-killserver machine (comes ∷ []) kills (client_of 4) busy joined [] 5 comes-served
      refl (λ h. omega (arith, h)) refl idle tt refl ((refl, (refl, tt)), ((refl, tt), (tt, tt)))
      no_stats
