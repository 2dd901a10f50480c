-- ===== src/Tests/Chat.antt =====
-- The packets of clients on the scene.
use distributed_chat_system.Prelude.{refl, [], ◌∷◌, true, false, arith, ℤ_discrete}
use distributed_chat_system.Text.{Bytes, codes, trim, bytes_discrete}
use distributed_chat_system.Dict.{lookup, contains}
use distributed_chat_system.Protocol.{
  login_resp, room_join, status_update, s2s_connect, s2s_route_msg, serialize, pack,
}
use distributed_chat_system.Server.Users.{get_user_location, is_user_online}
use distributed_chat_system.Server.Connections.{
  get_peer_node, is_in_room, register_peer_socket, remove_session,
}
use distributed_chat_system.Server.State.{ChatServer, send_buffer}
use distributed_chat_system.Server.State.Texts.{
  zero_text, authentication_required, success_tag, routed_text,
}
use distributed_chat_system.Server.State.Sends.{Adds, to_session}
use distributed_chat_system.Server.Replication.Spares.{IsSound}
use distributed_chat_system.Server.Clients.{
  handle_client_packet, handle_login, handle_private_msg, handle_room_join, handle_room_leave,
  needs_login, is_bad_name, username_of,
}
use distributed_chat_system.Server.Clients.Impostor.{impostor_reads_messages}
use distributed_chat_system.Text.Decimal.{stoi}
use distributed_chat_system.Networking.{send_all}
use distributed_chat_system.Server.Clients.Guards.{handle_client_packet_refuses}
use distributed_chat_system.Server.Clients.Routing.{handle_private_msg_lost}
use distributed_chat_system.Server.Clients.Login.{SignsOn, handle_login-SignsOn}
use distributed_chat_system.Server.Clients.Membership.{
  Moves, handle_room_join-Moves, handle_room_leave-Moves,
}
use distributed_chat_system.Tests.Scene.{bob, lobby, hello, scene, alone}

abbrev carol : Bytes
carol = codes "carol"

abbrev carol_line : Bytes
carol_line = codes " carol\r\n"

scene-IsSound : IsSound scene
unfolding get_peer_node lookup ℤ_discrete bytes_discrete
scene-IsSound = record { not_own_peer = refl; table = (refl, (refl, tt)) }

handle_login-SignsOn_example : SignsOn 1 (trim carol_line) scene (handle_login 1 carol_line scene)
unfolding is_bad_name trim is_user_online lookup bytes_discrete
handle_login-SignsOn_example = handle_login-SignsOn 1 carol_line scene refl refl scene-IsSound

handle_client_packet_refuses_example :
    Adds
      ((1, serialize login_resp (pack (zero_text ∷ authentication_required ∷ []))) ∷ [])
      scene
      (handle_client_packet 1 (record { type = room_join; payload = lobby }) scene)
unfolding needs_login
handle_client_packet_refuses_example =
    handle_client_packet_refuses 1 (record { type = room_join; payload = lobby }) scene refl refl

handle_private_msg_lost_example :
    Adds
      ((0, serialize status_update (pack (success_tag ∷ routed_text ∷ []))) ∷ [])
      alone
      (handle_private_msg 0 (pack (bob ∷ hello ∷ [])) alone)
unfolding get_user_location get_peer_node lookup bytes_discrete ℤ_discrete
handle_private_msg_lost_example =
    handle_private_msg_lost 0 bob hello alone (omega arith) (omega arith) refl refl 0 refl refl

handle_room_join-Moves_example : Moves 1 (trim lobby) true scene (handle_room_join 1 lobby scene)
unfolding trim
handle_room_join-Moves_example = handle_room_join-Moves 1 lobby scene refl

handle_room_leave-Moves_example : Moves 0 (trim lobby) false scene (handle_room_leave 0 lobby scene)
unfolding trim is_in_room contains bytes_discrete
handle_room_leave-Moves_example = handle_room_leave-Moves 0 lobby scene refl refl

-- Session 1 never logged in, and says that it is server 2.
abbrev fooled : ChatServer
fooled = handle_client_packet 1 (record { type = s2s_connect; payload = codes "2" }) scene

impostor_reads_messages_example :
    Adds
      ((1, serialize s2s_route_msg (pack (username_of 0 fooled ∷ bob ∷ hello ∷ [])))
        ∷ to_session status_update (success_tag ∷ routed_text ∷ []) fooled.connections 0)
      fooled
      (handle_private_msg 0 (pack (bob ∷ hello ∷ [])) fooled)
unfolding get_user_location get_peer_node lookup bytes_discrete ℤ_discrete stoi send_buffer send_all
    serialize pack handle_client_packet register_peer_socket remove_session
impostor_reads_messages_example =
    impostor_reads_messages 1 0 1 0 (codes "2") bob hello scene refl refl refl refl (omega arith)
      (omega arith) refl refl refl
