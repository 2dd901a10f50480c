-- ===== src/Server/Peers.antt =====
-- server/ChatServer.cpp: the packets of other servers, from HandleServerPacket to
-- HandleS2SRoomMemberSync.
pub mod Sync
use distributed_chat_system.Prelude.{
  ℕ, ℤ, Bool, true, false, Option, none, some, List, [], ◌∷◌, if◌then◌else◌, for_each,
}
use distributed_chat_system.Text.{Bytes, bytes_discrete}
use distributed_chat_system.Text.Decimal.{stoi, to_string}
use distributed_chat_system.Protocol.{
  PacketType, msg_private, msg_broadcast, msg_room, s2s_heartbeat, s2s_heartbeat_ack,
  s2s_replicate_user, s2s_route_msg, s2s_route_room_msg, s2s_room_member_sync, RawPacket, serialize,
  unpack,
}
use distributed_chat_system.Server.Users.{register_user, unregister_user}
use distributed_chat_system.Server.Rooms.{join_room_remote, leave_room_remote}
use distributed_chat_system.Server.Connections.{modify_node, update_heartbeat, get_all_sessions}
use distributed_chat_system.Server.State.{
  ChatServer, send_buffer, tell_authenticated, announce_users,
}
use distributed_chat_system.Server.State.Texts.{one_text}
use distributed_chat_system.Server.Clients.{tell_user, tell_members}

-- SendAll's result is not looked at.
unfoldable pub handle_s2s_heartbeat : ℕ → ChatServer → ChatServer
handle_s2s_heartbeat n s = elim (s.connections.node_at n).socket [
  | none ↦ s
  | some k ↦ (send_buffer k (serialize s2s_heartbeat_ack (to_string s.server_id)) s).0
]

-- text == "1"
abbrev pub is_one : Bytes → Bool
is_one text = elim (bytes_discrete text one_text) [ yes e ↦ true | no e ↦ false ]

unfoldable pub replicate_user : Bytes → ℤ → Bool → ChatServer → ChatServer
replicate_user name location_id online s = announce_users (record s {
  users = if online then register_user name location_id s.users else unregister_user name s.users;
})

unfoldable pub user_fields : List Bytes → ChatServer → ChatServer
unfolding replicate_user
user_fields (name ∷ id_text ∷ flag ∷ rest) s = elim (stoi id_text) [
  | none ↦ s
  | some location_id ↦ replicate_user name location_id (is_one flag) s
]
user_fields _ s = s

unfoldable pub handle_s2s_replicate_user : Bytes → ChatServer → ChatServer
unfolding user_fields
handle_s2s_replicate_user payload s = user_fields (unpack payload) s

-- Three fields are a private message, two a broadcast, and any other number is nothing.
unfoldable pub route_fields : List Bytes → ChatServer → ChatServer
route_fields (sender ∷ receiver ∷ text ∷ []) s =
    tell_user msg_private (sender ∷ text ∷ []) receiver s
route_fields (sender ∷ text ∷ []) s =
    for_each (get_all_sessions s.connections)
      (tell_authenticated msg_broadcast (sender ∷ text ∷ [])) s
route_fields _ s = s

unfoldable pub handle_s2s_route_msg : Bytes → ChatServer → ChatServer
unfolding route_fields
handle_s2s_route_msg payload s = route_fields (unpack payload) s

unfoldable pub route_room_fields : List Bytes → ChatServer → ChatServer
route_room_fields (sender ∷ room ∷ text ∷ rest) s =
    tell_members msg_room (sender ∷ room ∷ text ∷ []) room s
route_room_fields _ s = s

unfoldable pub handle_s2s_route_room_msg : Bytes → ChatServer → ChatServer
unfolding route_room_fields
handle_s2s_route_room_msg payload s = route_room_fields (unpack payload) s

unfoldable pub sync_fields : List Bytes → ChatServer → ChatServer
sync_fields (room ∷ id_text ∷ flag ∷ rest) s = elim (stoi id_text) [
  | none ↦ s
  | some peer_id ↦ record s {
    rooms =
        if is_one flag
        then join_room_remote room peer_id s.rooms
        else leave_room_remote room peer_id s.rooms;
  }
]
sync_fields _ s = s

unfoldable pub handle_s2s_room_member_sync : Bytes → ChatServer → ChatServer
unfolding sync_fields
handle_s2s_room_member_sync payload s = sync_fields (unpack payload) s

unfoldable pub dispatch_server : ℕ → PacketType → Bytes → ChatServer → ChatServer
dispatch_server n s2s_heartbeat payload s = handle_s2s_heartbeat n s
dispatch_server n s2s_heartbeat_ack payload s = s
dispatch_server n s2s_replicate_user payload s = handle_s2s_replicate_user payload s
dispatch_server n s2s_route_msg payload s = handle_s2s_route_msg payload s
dispatch_server n s2s_route_room_msg payload s = handle_s2s_route_room_msg payload s
dispatch_server n s2s_room_member_sync payload s = handle_s2s_room_member_sync payload s
dispatch_server n _ payload s = s

unfoldable pub handle_server_packet : ℕ → RawPacket → ChatServer → ChatServer
unfolding dispatch_server
handle_server_packet n packet s =
    dispatch_server n packet.type packet.payload
      (record s { connections = modify_node n (update_heartbeat s.connections.now) s.connections })
