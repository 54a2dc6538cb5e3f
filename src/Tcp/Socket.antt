-- ===== src/Tcp/Socket.antt =====
-- setsock() of tcp.h, which the client calls for its connection and the server for its listening
-- socket.
use diamond_apparatus.Base.{Bool, if◌then◌else◌}
use diamond_apparatus.Base.Result.{Result, ok, throws, set_reuse_failed}

-- The argument is whether setsockopt() succeeds.
unfoldable pub setsock : Bool → Result (Unit {0})
setsock reusable = if reusable then ok tt else throws set_reuse_failed
