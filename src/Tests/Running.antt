-- ===== src/Tests/Running.antt =====
-- A server that runs: events from the scene.
use distributed_chat_system.Prelude.{refl, [], ◌∷◌, some, arith, ℤ_discrete}
use distributed_chat_system.Text.{bytes_discrete}
use distributed_chat_system.Dict.{lookup}
use distributed_chat_system.Protocol.{room_join}
use distributed_chat_system.Server.Connections.{get_session_by_username, get_peer_node}
use distributed_chat_system.Server.Events.{
  Task, client_task, Engine, Reaches, here, next, reads_client, takes, runs, run_task, read_client,
  enqueue,
}
use distributed_chat_system.Server.Events.Keeps.{IsConsistent}
use distributed_chat_system.Server.Events.Invariant.{IsSteady, Reaches-IsSteady}
use distributed_chat_system.Tests.Scene.{lobby, scene}

abbrev pub engine : Engine
engine = record { server = scene; threads = 4; tasks = []; held = [] }

abbrev joining : Task
joining = client_task 0 (record { type = room_join; payload = lobby })

abbrev later : Engine
later = record engine { server = run_task joining scene }

pub scene-IsConsistent : IsConsistent scene
unfolding get_session_by_username
scene-IsConsistent = record {
  sound =
      unfold get_peer_node lookup ℤ_discrete bytes_discrete in
      record { not_own_peer = refl; table = (refl, (refl, tt)) };
  listed = omega arith;
  named = λ name r e. unfold lookup in ground arith;
}

pub engine-IsSteady : IsSteady engine
engine-IsSteady = record { server = scene-IsConsistent; tasks = tt; held = tt }

join-Reaches : Reaches engine later
unfolding read_client enqueue
join-Reaches =
    next
      (next
        (next here (
          reads_client engine 0 (some (record { type = room_join; payload = lobby }))
            (omega arith)))
        (takes (record engine { tasks = joining ∷ [] }) joining [] refl (omega arith)))
      (runs (record engine { held = joining ∷ [] }) [] joining [] refl)

Reaches-IsSteady_example : IsSteady later
Reaches-IsSteady_example = Reaches-IsSteady join-Reaches engine-IsSteady
