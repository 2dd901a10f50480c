-- ===== src/Tests/Starting.antt =====
-- Servers that start and run: a configuration, the workers of the pool, and two logins at once.
use distributed_chat_system.Prelude.{◌≡◌, refl, [], ◌∷◌, some, arith, true, for_each, ℤ_discrete}
use distributed_chat_system.Text.{Bytes, codes, trim, split, bytes_discrete}
use distributed_chat_system.Text.Decimal.{to_string, stoi}
use distributed_chat_system.Dict.{lookup, insert}
use distributed_chat_system.Networking.{new_socket}
use distributed_chat_system.Protocol.{room_join, msg_room, pack}
use distributed_chat_system.Config.{ConfigManager, new_config, load, get_int}
use distributed_chat_system.Startup.{server_id_of, peer_id, rounds, prefix}
use distributed_chat_system.Startup.Peering.{NamesOthers, peer_count, started, started-IsSteady}
use distributed_chat_system.Server.Users.{is_user_online}
use distributed_chat_system.Server.Connections.{get_session_by_username, get_peer_node}
use distributed_chat_system.Server.State.{ChatServer}
use distributed_chat_system.Server.Clients.{username_of, is_bad_name}
use distributed_chat_system.Server.Replication.Spares.{IsSound}
use distributed_chat_system.Server.Events.{Task, client_task, Engine, here}
use distributed_chat_system.Server.Events.Invariant.{IsSteady}
use distributed_chat_system.Server.Events.LoginRace.{begin_login, end_login, two_logins_race}
use distributed_chat_system.Tests.Scene.{lobby, hello, scene}

abbrev file : Bytes
file = codes "# node 1\nserver_id = 1\npeer_count=1\npeer_1_id = 2\npeer_1_port = 9002\n"

abbrev config : ConfigManager
config = (load (some file) new_config).0

abbrev booted : ChatServer
booted = started config (new_socket 99) 5 scene.network

abbrev pool : Engine
pool = record { server = booted; threads = 16; tasks = []; held = [] }

one_peer :
    NamesOthers (peer_count config (new_socket 99) 5 scene.network) 1 config (server_id_of config)
unfolding load server_id_of get_int stoi peer_id prefix rounds lookup bytes_discrete to_string
    for_each split trim insert
one_peer = (λ e. cc, tt)

started-IsSteady_example : IsSteady pool
started-IsSteady_example =
    started-IsSteady config (new_socket 99) 5 scene.network 16 pool one_peer here

abbrev joining : Task
joining = client_task 0 (record { type = room_join; payload = lobby })

abbrev talking : Task
talking = client_task 0 (record { type = msg_room; payload = pack (lobby ∷ hello ∷ []) })

scene-IsSound : IsSound scene
unfolding get_peer_node lookup ℤ_discrete bytes_discrete
scene-IsSound = record { not_own_peer = refl; table = (refl, (refl, tt)) }

abbrev raced : ChatServer
raced =
    let (s1, first) = begin_login 1 (codes "carol") scene in
    let (s2, second) = begin_login 5 (codes "carol") s1 in end_login 5 second (end_login 1 first s2)

two_logins_race_example :
    ((raced.connections.session_at 1).is_authenticated ≡ true)
    × (username_of 1 raced ≡ trim (codes "carol"))
    × ((raced.connections.session_at 5).is_authenticated ≡ true)
    × (username_of 5 raced ≡ trim (codes "carol"))
    × (get_session_by_username (trim (codes "carol")) raced.connections ≡ some 5)
unfolding is_bad_name trim is_user_online lookup bytes_discrete
two_logins_race_example =
    two_logins_race 1 5 (codes "carol") scene (omega arith) refl refl scene-IsSound
