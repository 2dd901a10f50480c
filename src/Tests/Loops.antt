-- ===== src/Tests/Loops.antt =====
-- The threads of a server, turn by turn: the listener, the workers, the heartbeat and Stop.
use distributed_chat_system.Prelude.{
  ◌≡◌, refl, for_each, [], ◌∷◌, List, some, none, false, arith, pos, ◌*◌, ◌^◌, ◌==◌, ℤ_discrete,
}
use distributed_chat_system.Text.Decimal.{to_string}
use distributed_chat_system.Dict.{lookup}
use distributed_chat_system.Networking.{fails, moves, Feed, send_all, recv_all}
use distributed_chat_system.Protocol.{room_join, serialize, read_packet, s2s_heartbeat}
use distributed_chat_system.Server.Users.Refinement.{location}
use distributed_chat_system.Server.Connections.{get_peer_node, get_all_sessions, get_all_peer_nodes}
use distributed_chat_system.Server.State.{ChatServer}
use distributed_chat_system.Server.State.Sends.{Adds}
use distributed_chat_system.Server.Replication.Reach.{to_peers}
use distributed_chat_system.Server.Links.{stop}
use distributed_chat_system.Server.Links.Stopping.{IsHalted, stop-IsHalted}
use distributed_chat_system.Server.Heartbeat.{heartbeat_round, heartbeat_loop}
use distributed_chat_system.Server.Heartbeat.Pings.{AllRecent, heartbeat_round-Adds}
use distributed_chat_system.Server.Heartbeat.Silence.{IsQuiet, silent_peer_dropped}
use distributed_chat_system.Server.Events.{Reaches, wait, read_client, client_task, enqueue}
use distributed_chat_system.Server.Events.Invariant.{IsSteady}
use distributed_chat_system.Server.Events.Workers.{engine_of}
use distributed_chat_system.Server.Loops.{
  Turn, listens, takes_task, finishes, beats, is_stopped, Readiness, ready, run_server,
}
use distributed_chat_system.Server.Loops.Rounds.{run_server-Reaches}
use distributed_chat_system.Server.Loops.Overtaking.{
  in_order, overtaken, came, went, notices_overtake,
}
use distributed_chat_system.Tests.Scene.{lobby, scene, connections}
use distributed_chat_system.Tests.Crossing.{peers_take}
use distributed_chat_system.Tests.Running.{engine, engine-IsSteady}

-- alice's socket is readable and holds a request to join the room.
abbrev joining_feed : Feed
joining_feed = record {
  answers = moves 3 (moves 1000 (moves 1000 (moves 1000 fails)));
  stream = serialize room_join lobby;
}

abbrev readiness : Readiness
readiness = record { activity = ready (λ h. h == 100); incoming = 77; feeds = λ k. joining_feed }

abbrev turns : List Turn
turns = listens readiness ∷ takes_task ∷ finishes 0 ∷ beats ∷ is_stopped ∷ []

run_server-Reaches_example :
    Reaches engine (run_server turns engine) × IsSteady (run_server turns engine)
run_server-Reaches_example = run_server-Reaches turns engine engine-IsSteady

notices_overtake_example :
    let e = engine_of 4 scene (came 0 lobby scene ∷ went 0 lobby scene ∷ []) [] in
    (location (run_server in_order e).server.users lobby ≡ none)
    × (location (run_server overtaken e).server.users lobby ≡ some (pos 1))
notices_overtake_example =
    notices_overtake 0 4 lobby scene scene (omega arith) (omega arith) (omega arith)

stop-IsHalted_example : IsHalted scene (stop scene) × (stop (stop scene) ≡ stop scene)
stop-IsHalted_example = stop-IsHalted scene refl

abbrev five_seconds : ChatServer → ChatServer
five_seconds s = wait (5 * 10 ^ 9) s

five_seconds-IsQuiet : IsQuiet 0 five_seconds
five_seconds-IsQuiet = record {
  node = λ s. refl;
  peer_nodes = λ s. refl;
  running = λ s. refl;
  clock = λ s. omega arith;
}

silent_peer_dropped_example :
    ((heartbeat_loop (five_seconds ∷ five_seconds ∷ five_seconds ∷ []) scene).connections.node_at
      0).is_connected
    ≡ false
unfolding get_peer_node lookup ℤ_discrete
silent_peer_dropped_example =
    silent_peer_dropped 0 (five_seconds ∷ five_seconds ∷ five_seconds ∷ []) scene refl refl
      (omega arith) (five_seconds-IsQuiet, (five_seconds-IsQuiet, (five_seconds-IsQuiet, tt)))
      (omega arith)

-- The peer was heard of a moment ago.
abbrev lately : ChatServer
lately = record scene { connections = record connections { now = 8 } }

lately-AllRecent : AllRecent 8 lately.connections
lately-AllRecent n on = omega arith

heartbeat_round-Adds_example :
    Adds
      (to_peers (serialize s2s_heartbeat (to_string (pos 1))) lately.connections)
      lately
      (heartbeat_round lately)
unfolding to_string send_all serialize
heartbeat_round-Adds_example =
    heartbeat_round-Adds lately lately-AllRecent
      (peers_take (serialize s2s_heartbeat (to_string (pos 1))) refl)

-- The round of the listener puts the request on the queue.
listener_enqueues :
    (run_server (listens readiness ∷ []) engine).tasks
    ≡ client_task 0 (record { type = room_join; payload = lobby }) ∷ []
unfolding run_server for_each get_all_sessions get_all_peer_nodes read_client read_packet recv_all
    serialize enqueue
listener_enqueues = refl
