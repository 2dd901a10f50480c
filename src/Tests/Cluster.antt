-- ===== src/Tests/Cluster.antt =====
-- Peers, heartbeats and lost connections on the scene.
use distributed_chat_system.Prelude.{
  ◌≡◌, refl, List, [], ◌∷◌, ◌++◌, arith, some, pos, ℤ, ℕ_discrete, ℤ_discrete,
}
use distributed_chat_system.Text.{Bytes, trim, bytes_discrete}
use distributed_chat_system.Dict.{lookup}
use distributed_chat_system.Protocol.{msg_private, serialize, pack}
use distributed_chat_system.Server.Users.{is_user_online}
use distributed_chat_system.Server.Users.Refinement.{
  UserCall, registers, unregisters, clears, run, run-refines, location, history, IsTable,
}
use distributed_chat_system.Server.Rooms.Refinement.{
  apply, apply-refines, is_member, is_remote, local_after, remote_after, leaves_there,
}
use distributed_chat_system.Server.Connections.{
  get_session_by_username, get_session_by_socket, get_peer_node, get_peer_node_by_socket,
}
use distributed_chat_system.Server.State.{ChatServer, handle_peer_disconnect}
use distributed_chat_system.Server.State.Sends.{Adds}
use distributed_chat_system.Server.State.Disconnect.{
  IsForgotten, handle_peer_disconnect-IsForgotten, disconnect_leaves_entry,
}
use distributed_chat_system.Server.Replication.Spares.{IsSound}
use distributed_chat_system.Server.Clients.{handle_login, is_bad_name}
use distributed_chat_system.Server.Peers.{handle_s2s_route_msg}
use distributed_chat_system.Server.Peers.Sync.{broadcast_taken_for_private}
use distributed_chat_system.Server.Links.{lose_client}
use distributed_chat_system.Server.Links.Losses.{
  IsLost, lose_client-IsLost, second_login_leaves_user,
}
use distributed_chat_system.Tests.Scene.{alice, bob, lobby, hello, scene, alone}

scene-IsTable : IsTable scene.users
unfolding lookup bytes_discrete
scene-IsTable = (refl, (refl, tt))

scene-IsSound : IsSound scene
unfolding get_peer_node lookup ℤ_discrete bytes_discrete
scene-IsSound = record { not_own_peer = refl; table = scene-IsTable }

abbrev calls : List UserCall
calls = clears (pos 2) ∷ registers hello (pos 3) ∷ unregisters alice ∷ []

run-refines_example :
    (location (run calls scene.users) bob ≡ history calls bob (location scene.users bob))
    × IsTable (run calls scene.users)
run-refines_example = run-refines calls scene.users bob scene-IsTable

apply-refines_example :
    ((u : Bytes)
      → is_member (apply (leaves_there lobby (pos 2)) scene.rooms) lobby u
        ≡ local_after (leaves_there lobby (pos 2)) lobby u (is_member scene.rooms lobby u))
    × ((k : ℤ)
        → is_remote (apply (leaves_there lobby (pos 2)) scene.rooms) lobby k
          ≡ remote_after (leaves_there lobby (pos 2)) lobby k (is_remote scene.rooms lobby k))
apply-refines_example = apply-refines (leaves_there lobby (pos 2)) scene.rooms lobby

handle_peer_disconnect-IsForgotten_example :
    IsForgotten (pos 2) 0 scene (handle_peer_disconnect (pos 2) scene)
unfolding get_peer_node lookup ℤ_discrete
handle_peer_disconnect-IsForgotten_example =
    handle_peer_disconnect-IsForgotten (pos 2) 0 scene refl refl scene-IsTable

disconnect_leaves_entry_example :
    get_peer_node_by_socket 102 (handle_peer_disconnect (pos 2) scene).connections ≡ some 0
unfolding get_peer_node get_peer_node_by_socket lookup ℤ_discrete ℕ_discrete
disconnect_leaves_entry_example =
    disconnect_leaves_entry (pos 2) 0 2 scene refl refl refl refl (omega arith) refl

abbrev server_2 : ChatServer
server_2 = record alone { server_id = pos 2 }

broadcast_taken_for_private_example :
    Adds
      ((0, serialize msg_private (pack (bob ∷ hello ∷ []))) ∷ [])
      scene
      (handle_s2s_route_msg (pack (bob ∷ (alice ++ (0 ∷ hello)) ∷ [])) scene)
unfolding get_session_by_username lookup bytes_discrete
broadcast_taken_for_private_example =
    broadcast_taken_for_private bob scene (omega arith) alice hello (omega arith) (omega arith)

lose_client-IsLost_example : IsLost 100 alice scene (lose_client 0 100 scene)
unfolding get_session_by_socket lookup ℕ_discrete
lose_client-IsLost_example = lose_client-IsLost 0 100 scene refl refl scene-IsSound

second_login_leaves_user_example :
    location (lose_client 0 100 (handle_login 0 hello scene)).users alice ≡ some (pos 1)
unfolding get_session_by_socket get_session_by_username is_user_online is_bad_name trim lookup
    ℕ_discrete bytes_discrete
second_login_leaves_user_example =
    (second_login_leaves_user 0 100 alice hello scene refl refl (λ e. ground arith) refl refl refl
      scene-IsSound).0
