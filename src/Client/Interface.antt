-- ===== src/Client/Interface.antt =====
-- client.cpp: the functions of the library, but for get().
use diamond_apparatus.Base.{ℕ, ◌-◌, Bool, false, ◌==◌, if◌then◌else◌}
use diamond_apparatus.Base.Result.{Result, throws, not_connected}
use diamond_apparatus.Topic.{Topic}
use diamond_apparatus.Topic.Message.{Allocator}
use diamond_apparatus.Messages.{cs_killserver, cs_clearserver}
use diamond_apparatus.Client
use diamond_apparatus.Client.{Client, Name, simple_msg}

-- `if(!running)throw ...` in front of a call.
abbrev pub if_running : Client → Result Client → Result Client
if_running c r = if c.running then r else throws not_connected

unfoldable pub subscribe : Allocator → Name → Client → Result Client
subscribe a n c = if_running c (Client.subscribe a n c)

unfoldable pub publish : Allocator → Name → Topic → Client → Result Client
publish a n t c = if_running c (Client.publish a n t c)

unfoldable pub kill_server : Client → Result Client
kill_server c = if_running c (simple_msg cs_killserver c)

unfoldable pub clear_server : Client → Result Client
clear_server c = if_running c (simple_msg cs_clearserver c)

abbrev pub is_running : Client → Bool
is_running c = c.running

-- destroy(): `initCount && --initCount`.
unfoldable pub destroy : Client → ℕ × Client
destroy c =
    let left = c.init_count - 1 in
    (
      left,
      if left == 0
          then record c { init_count = left }
          else record c { init_count = left; running = false; synced = false },
    )
