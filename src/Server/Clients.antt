-- ===== src/Server/Clients.antt =====
-- server/ChatServer.cpp: the packets of clients, from HandleClientPacket to HandleRoomCreate.
pub mod Guards
pub mod Deliveries
pub mod Login
pub mod Membership
pub mod Promotion
pub mod Impostor
pub mod Routing
pub mod Broadcasts
use distributed_chat_system.Prelude.{
  ℕ, ℤ, Bool, true, false, ◌||◌, Option, none, some, List, [], ◌∷◌, ◌++◌, if◌then◌else◌, for_each,
  is_positive,
}
use distributed_chat_system.Text.{Bytes, trim, has_byte, is_empty}
use distributed_chat_system.Text.Decimal.{stoi}
use distributed_chat_system.Protocol.{
  PacketType, login, login_resp, msg_private, msg_room, msg_broadcast, room_join, room_leave,
  room_create, status_update, s2s_connect, s2s_route_msg, RawPacket, pack, unpack,
}
use distributed_chat_system.Server.Users.{same_id, register_user, is_user_online, get_user_location}
use distributed_chat_system.Server.Rooms.{join_room_local, leave_room_local, get_local_members}
use distributed_chat_system.Server.Connections.{
  modify_session, modify_node, session_join, session_leave, is_in_room, authenticate_session,
  remove_session, register_peer_socket, get_session_by_username, get_all_sessions, get_peer_node,
  handle_of, set_connected, update_heartbeat, Connections,
}
use distributed_chat_system.Server.State.{ChatServer, tell, tell_authenticated, announce_users}
use distributed_chat_system.Server.State.Texts.{
  success_tag, error_tag, info_tag, zero_text, one_text, authentication_required, invalid_username,
  already_online, welcome, delivered_to, routed_text, user_offline, join_first, joined_room,
  left_room, user_text, entered_text, left_text, room_text, created_text, to_enter,
}
use distributed_chat_system.Server.Replication.{
  broadcast_s2s, replicate_user_login, replicate_room_join, replicate_room_leave,
  route_private_message, route_room_message,
}

-- session->GetUsername()
abbrev pub username_of : ℕ → ChatServer → Bytes
username_of r s = (s.connections.session_at r).username

-- The test on a trimmed login name.
unfoldable pub is_bad_name : Bytes → Bool
unfolding has_byte
is_bad_name name = is_empty name || (has_byte 0 name || has_byte 32 name)

-- The user is registered at this server and the session is authenticated.
unfoldable pub sign_on : ℕ → Bytes → ChatServer → ChatServer
sign_on r name s = record s {
  users = register_user name s.server_id s.users;
  connections = authenticate_session r name s.connections;
}

unfoldable pub complete_login : ℕ → Bytes → ChatServer → ChatServer
complete_login r name s =
    announce_users
      (replicate_user_login name (tell r login_resp (one_text ∷ welcome ∷ []) (sign_on r name s)))

unfoldable pub handle_login : ℕ → Bytes → ChatServer → ChatServer
unfolding complete_login is_bad_name
handle_login r payload s =
    let name = trim payload in
    if is_bad_name name
    then tell r login_resp (zero_text ∷ invalid_username ∷ []) s
    else if is_user_online name s.users
    then tell r login_resp (zero_text ∷ already_online ∷ []) s
    else complete_login r name s

-- A packet to the session of a user, if there is one.
unfoldable pub tell_user : PacketType → List Bytes → Bytes → ChatServer → ChatServer
tell_user type fields name s = elim (get_session_by_username name s.connections) [
  | none ↦ s
  | some r ↦ tell r type fields s
]

unfoldable pub deliver_private : ℕ → Bytes → Bytes → ChatServer → ChatServer
deliver_private r receiver text s = elim (get_session_by_username receiver s.connections) [
  | none ↦ s
  | some target ↦
      tell r status_update (success_tag ∷ (delivered_to ++ receiver) ∷ [])
        (tell target msg_private (username_of r s ∷ text ∷ []) s)
]

unfoldable pub send_private : ℕ → Bytes → Bytes → ChatServer → ChatServer
unfolding deliver_private
send_private r receiver text s =
    let at = get_user_location receiver s.users in
    if same_id at s.server_id
    then deliver_private r receiver text s
    else if is_positive at
    then tell r status_update (success_tag ∷ routed_text ∷ [])
        (route_private_message (username_of r s) receiver text at s)
    else tell r status_update (error_tag ∷ user_offline ∷ []) s

unfoldable pub private_fields : ℕ → List Bytes → ChatServer → ChatServer
unfolding send_private
private_fields r (receiver ∷ text ∷ rest) s = send_private r receiver text s
private_fields r _ s = s

unfoldable pub handle_private_msg : ℕ → Bytes → ChatServer → ChatServer
unfolding private_fields
handle_private_msg r payload s = private_fields r (unpack payload) s

-- A packet to every local member of a room.
unfoldable pub tell_members : PacketType → List Bytes → Bytes → ChatServer → ChatServer
unfolding tell_user
tell_members type fields room s =
    for_each (get_local_members room s.rooms) (tell_user type fields) s

unfoldable pub send_to_room : ℕ → Bytes → Bytes → ChatServer → ChatServer
unfolding tell_members
send_to_room r room text s =
    let sender = username_of r s in
    if is_in_room room (s.connections.session_at r)
    then route_room_message sender room text
        (tell_members msg_room (sender ∷ room ∷ text ∷ []) room s)
    else tell r status_update (error_tag ∷ join_first ∷ []) s

unfoldable pub room_fields : ℕ → List Bytes → ChatServer → ChatServer
unfolding send_to_room
room_fields r (room ∷ text ∷ rest) s = send_to_room r room text s
room_fields r _ s = s

unfoldable pub handle_room_msg : ℕ → Bytes → ChatServer → ChatServer
unfolding room_fields
handle_room_msg r payload s = room_fields r (unpack payload) s

unfoldable pub handle_broadcast_msg : ℕ → Bytes → ChatServer → ChatServer
handle_broadcast_msg r payload s =
    let fields = username_of r s ∷ payload ∷ [] in
    broadcast_s2s s2s_route_msg (pack fields)
      (for_each (get_all_sessions s.connections) (tell_authenticated msg_broadcast fields) s)

-- The effect of a join on the session and on the room, before anyone is told.
unfoldable pub enter_room : ℕ → Bytes → ChatServer → ChatServer
enter_room r room s = record s {
  connections = modify_session r (session_join room) s.connections;
  rooms = join_room_local room (username_of r s) s.rooms;
}

abbrev pub is_nil : List Bytes → Bool
is_nil [] = true
is_nil (x ∷ xs) = false

unfoldable pub join_named : ℕ → Bytes → ChatServer → ChatServer
unfolding enter_room tell_members
join_named r room s =
    let name = username_of r s in
    let told =
      tell_members status_update (info_tag ∷ (user_text ++ (name ++ (entered_text ++ room))) ∷ [])
        room
        (tell r status_update (success_tag ∷ (joined_room ++ room) ∷ []) (enter_room r room s)) in
    if is_nil (get_local_members room s.rooms) then replicate_room_join room told else told

unfoldable pub handle_room_join : ℕ → Bytes → ChatServer → ChatServer
unfolding join_named
handle_room_join r payload s =
    let room = trim payload in if is_empty room then s else join_named r room s

unfoldable pub exit_room : ℕ → Bytes → ChatServer → ChatServer
exit_room r room s = record s {
  connections = modify_session r (session_leave room) s.connections;
  rooms = leave_room_local room (username_of r s) s.rooms;
}

unfoldable pub leave_named : ℕ → Bytes → ChatServer → ChatServer
unfolding exit_room tell_members
leave_named r room s =
    let name = username_of r s in
    let left = tell r status_update (success_tag ∷ (left_room ++ room) ∷ []) (exit_room r room s) in
    let told =
      tell_members status_update (info_tag ∷ (user_text ++ (name ++ (left_text ++ room))) ∷ []) room
        left in
    if is_nil (get_local_members room left.rooms) then replicate_room_leave room told else told

unfoldable pub handle_room_leave : ℕ → Bytes → ChatServer → ChatServer
unfolding leave_named
handle_room_leave r payload s =
    let room = trim payload in
    if is_empty room
    then s
    else if is_in_room room (s.connections.session_at r)
    then leave_named r room s
    else s

unfoldable pub handle_room_create : ℕ → Bytes → ChatServer → ChatServer
handle_room_create r payload s =
    let room = trim payload in
    let text = room_text ++ (room ++ (created_text ++ (room ++ to_enter))) in
    if is_empty room then s else tell r status_update (success_tag ∷ text ∷ []) s

-- peerNode->SetConnected(true); peerNode->UpdateHeartbeat();
unfoldable pub mark_connected : ℤ → Connections → Connections
mark_connected peer_id c = elim (get_peer_node peer_id c) [
  | none ↦ c
  | some n ↦ modify_node n (λ x. update_heartbeat c.now (set_connected true x)) c
]

unfoldable pub promote : ℕ → ℤ → ChatServer → ChatServer
unfolding mark_connected
promote r peer_id s = elim (s.connections.session_at r).socket [
  | none ↦ s
  | some k ↦ record s {
    connections =
        mark_connected peer_id (
          register_peer_socket peer_id k
            (remove_session (handle_of k s.connections) s.connections));
  }
]

-- The switch of HandleClientPacket. An exception of std::stoi ends the task, and the pool keeps it
-- in a future that nobody reads.
unfoldable pub dispatch_client : ℕ → PacketType → Bytes → ChatServer → ChatServer
unfolding promote
dispatch_client r login payload s = handle_login r payload s
dispatch_client r msg_private payload s = handle_private_msg r payload s
dispatch_client r msg_room payload s = handle_room_msg r payload s
dispatch_client r msg_broadcast payload s = handle_broadcast_msg r payload s
dispatch_client r room_join payload s = handle_room_join r payload s
dispatch_client r room_leave payload s = handle_room_leave r payload s
dispatch_client r room_create payload s = handle_room_create r payload s
dispatch_client r s2s_connect payload s = elim (stoi payload) [
  | none ↦ s
  | some peer_id ↦ promote r peer_id s
]
dispatch_client r _ payload s = s

-- packet.type != LOGIN && packet.type != S2S_CONNECT
unfoldable pub needs_login : PacketType → Bool
needs_login login = false
needs_login s2s_connect = false
needs_login _ = true

unfoldable pub handle_client_packet : ℕ → RawPacket → ChatServer → ChatServer
unfolding dispatch_client needs_login
handle_client_packet r packet s =
    if (s.connections.session_at r).is_authenticated
    then dispatch_client r packet.type packet.payload s
    else if needs_login packet.type
    then tell r login_resp (zero_text ∷ authentication_required ∷ []) s
    else dispatch_client r packet.type packet.payload s
