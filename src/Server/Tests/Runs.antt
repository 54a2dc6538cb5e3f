-- ===== src/Server/Tests/Runs.antt =====
-- A run of the server: a client connects and subscribes to "foo".
use diamond_apparatus.Base.{ℕ, ◌≡◌, refl, true, some, List, [], ◌∷◌, arith}
use diamond_apparatus.Base.Order.{nat_ord, bytes_ord, compare_bytes}
use diamond_apparatus.Base.Result.{Result, ok, throws, fault}
use diamond_apparatus.Base.Bytes.{htonl, ntohl, memcpy, c_string, until_nul}
use diamond_apparatus.Map
use diamond_apparatus.Map.{same}
use diamond_apparatus.Topic.{add, copy, copy_data, copy_topic, size, of_string, clear}
use diamond_apparatus.Topic.Message.{
  fill, int_length, int_size, put, put_loop, put_name, size_loop, store, to_message,
}
use diamond_apparatus.Tcp.Send.{attempt, basesend, send_loop, write}
use diamond_apparatus.Tcp.Receive.{
  Update, read, size_bytes_in, size_phase, data_bytes_in, data_read, data_phase, first_phase, round,
  update_loop, update, new_receiver,
}
use diamond_apparatus.Server
use diamond_apparatus.Server.{
  Server, getfd, find_or_create_topic, send_to_subscribers, add_names, publish_internal,
  rebuild_topics_topic, stats, rebuild_stats_topic, send_present, subscribe,
}
use diamond_apparatus.Server.Process.{
  version_topic, make_server, subscribe_packet, dispatch, process,
}
use diamond_apparatus.Server.Loop.{
  connect, keep_receiver, process_packet, after_update, serve_client, serve_ready,
}
use diamond_apparatus.Server.Broker.{subscribes, Refines}
use diamond_apparatus.Server.Traces.{
  Turn, asks, waits, take_turns, Runs, done, next, accepts, reads, fresh_broker, Runs-Refines_fresh,
}
use diamond_apparatus.Base.Result.{Avoids, bad_data, ◌>>=◌}
use diamond_apparatus.Server.Loop.{server_loop}
use diamond_apparatus.Server.Throws.Always.{IsTaggedEnd, server-Avoids}
use diamond_apparatus.Base.{sym, ◌∙◌, subst}
use diamond_apparatus.Base.Result.{ok-injective}
use diamond_apparatus.Server.Traces.{Heard}
use diamond_apparatus.Server.Progress.Histories.{Arrives, over, comes, Runs-serve}
use diamond_apparatus.Server.Tests

abbrev server_of : Result Server → Server
server_of (ok s) = s
server_of (throws e) = Tests.fresh
server_of fault = Tests.fresh

abbrev pub s0 : Server
s0 = server_of (make_server Tests.machine 0 3 Tests.quiet)

pub s0-made : make_server Tests.machine 0 3 Tests.quiet ≡ ok s0
unfolding make_server Map.insert Map.find compare_bytes version_topic rebuild_stats_topic
    rebuild_topics_topic publish_internal stats find_or_create_topic add_names to_message size_loop
    int_size int_length fill put put_loop put_name store copy copy_data copy_topic
    send_to_subscribers Server.send_loop htonl memcpy until_nul clear add size Map.at of_string
    Map.enter
s0-made = refl

-- What client 4 has when it asks.
abbrev s1 : Server
unfolding connect
s1 = connect 4 s0

s1-served : serve_ready Tests.machine Tests.hello s0 ≡ ok s1
unfolding make_server Map.insert Map.find compare_bytes version_topic rebuild_stats_topic
    rebuild_topics_topic publish_internal stats find_or_create_topic add_names to_message size_loop
    int_size int_length fill put put_loop put_name store copy copy_data copy_topic
    send_to_subscribers Server.send_loop htonl memcpy until_nul clear add size Map.at of_string
    Map.enter basesend send_loop write attempt serve_ready connect
s1-served = refl

abbrev heard : Update
heard = record {
  returned = true;
  packet = some Tests.ask_packet;
  receiver = new_receiver;
  events = [];
}

heard-updated : update new_receiver Tests.asks.events ≡ some heard
unfolding update update_loop round first_phase data_phase data_read data_bytes_in size_phase
    size_bytes_in read ntohl
heard-updated = refl

abbrev s2 : Server
s2 = server_of (serve_ready Tests.machine Tests.asks s1)

s2-served : serve_ready Tests.machine Tests.asks s1 ≡ ok s2
unfolding make_server Map.insert Map.find compare_bytes version_topic rebuild_stats_topic
    rebuild_topics_topic publish_internal stats find_or_create_topic add_names to_message size_loop
    int_size int_length fill put put_loop put_name store copy copy_data copy_topic
    send_to_subscribers Server.send_loop htonl memcpy until_nul clear add size Map.at of_string
    Map.enter basesend send_loop write attempt serve_ready connect s1 serve_client update
    update_loop round first_phase data_phase data_read data_bytes_in size_phase size_bytes_in read
    ntohl after_update process_packet process dispatch subscribe_packet c_string getfd subscribe
    send_present keep_receiver Map.has
s2-served = refl

abbrev turns : List (ℕ × Turn)
turns = (3, waits) ∷ (4, asks (subscribes Tests.foo)) ∷ []

asks-Heard : Heard (asks (subscribes Tests.foo)) Tests.asks s1
unfolding make_server Map.insert Map.find compare_bytes version_topic rebuild_stats_topic
    rebuild_topics_topic publish_internal stats find_or_create_topic add_names to_message size_loop
    int_size int_length fill put put_loop put_name store copy copy_data copy_topic
    send_to_subscribers Server.send_loop htonl memcpy until_nul clear add size Map.at of_string
    Map.enter connect s1
asks-Heard =
    reads (Tests.client_of 4) heard (λ h. omega (arith, h)) refl heard-updated
      (refl, (Tests.ask_packet, refl, (omega arith, ([], refl))))

s2-Runs : Runs Tests.machine (Tests.hello ∷ Tests.asks ∷ []) s0 turns s2
unfolding make_server Map.insert Map.find compare_bytes version_topic rebuild_stats_topic
    rebuild_topics_topic publish_internal stats find_or_create_topic add_names to_message size_loop
    int_size int_length fill put put_loop put_name store copy copy_data copy_topic
    send_to_subscribers Server.send_loop htonl memcpy until_nul clear add size Map.at of_string
    Map.enter connect s1
s2-Runs = next (accepts refl refl) s1-served (next asks-Heard s2-served (done s2))

s0-Arrives : Arrives Tests.machine (Tests.hello ∷ Tests.asks ∷ []) turns s0
unfolding make_server Map.insert Map.find compare_bytes version_topic rebuild_stats_topic
    rebuild_topics_topic publish_internal stats find_or_create_topic add_names to_message size_loop
    int_size int_length fill put put_loop put_name store copy copy_data copy_topic
    send_to_subscribers Server.send_loop htonl memcpy until_nul clear add size Map.at of_string
    Map.enter connect s1
s0-Arrives =
    comes Tests.hello waits (accepts refl refl) (λ h. (4, refl))
      λ u e.
        subst (Arrives Tests.machine (Tests.asks ∷ []) ((4, asks (subscribes Tests.foo)) ∷ []))
          (ok-injective (sym s1-served ∙ e))
          (comes Tests.asks (asks (subscribes Tests.foo)) asks-Heard
            (λ h. absurd (omega (arith, h))) λ v f. over v)

Runs-serve_example :
    (s : Server) × (t : Server) × (make_server Tests.machine 0 3 Tests.quiet ≡ ok s)
    × Runs Tests.machine (Tests.hello ∷ Tests.asks ∷ []) s turns t
    × Refines t (take_turns turns fresh_broker)
Runs-serve_example =
    Runs-serve Tests.machine 0 3 Tests.quiet (Tests.hello ∷ Tests.asks ∷ []) turns refl
      (omega arith)
      λ s e.
        subst (Arrives Tests.machine (Tests.hello ∷ Tests.asks ∷ []) turns)
          (ok-injective (sym s0-made ∙ e)) s0-Arrives

Runs-Refines_fresh_example : Refines s2 (take_turns turns fresh_broker)
Runs-Refines_fresh_example = Runs-Refines_fresh Tests.machine 0 3 Tests.quiet s0-made s2-Runs

server-Avoids_example : Avoids bad_data IsTaggedEnd (
    make_server Tests.machine 0 3 Tests.quiet
    >>= server_loop Tests.machine (some (Tests.hello ∷ []) ∷ some (Tests.asks ∷ []) ∷ []))
server-Avoids_example =
    server-Avoids Tests.machine 0 3 Tests.quiet
      (some (Tests.hello ∷ []) ∷ some (Tests.asks ∷ []) ∷ [])
