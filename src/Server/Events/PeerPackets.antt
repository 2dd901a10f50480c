-- ===== src/Server/Events/PeerPackets.antt =====
-- The packets of other servers keep a server consistent.
use distributed_chat_system.Prelude.{
  ℕ, ℤ, ◌≡◌, refl, ap, sym, subst, ◌∙◌, Bool, List, [], ◌∷◌, if◌then◌else◌, arith, Bool-cases,
  Option-cases, inl, inr,
}
use distributed_chat_system.Text.{Bytes, bytes_discrete}
use distributed_chat_system.Text.Decimal.{stoi}
use distributed_chat_system.Dict.{lookup, insert-Distinct, erase-Distinct}
use distributed_chat_system.Protocol.{
  RawPacket, PacketType, unpack, s2s_heartbeat, s2s_replicate_user, s2s_route_msg,
  s2s_route_room_msg, s2s_room_member_sync,
}
use distributed_chat_system.Server.Users.{register_user, unregister_user}
use distributed_chat_system.Server.Connections.{Connections, get_session_by_username}
use distributed_chat_system.Server.State.{ChatServer}
use distributed_chat_system.Server.State.Sends.{
  tell_all-Adds, announce_users-Adds, send_buffer-Adds,
}
use distributed_chat_system.Server.Clients.Deliveries.{tell_user-Adds, tell_members-Adds}
use distributed_chat_system.Server.Peers.{
  handle_server_packet, dispatch_server, handle_s2s_heartbeat, handle_s2s_replicate_user,
  user_fields, replicate_user, handle_s2s_route_msg, route_fields, handle_s2s_route_room_msg,
  route_room_fields, handle_s2s_room_member_sync, sync_fields,
}
use distributed_chat_system.Server.Events.Keeps.{
  Listed, Keeps, Keeps-trans, Keeps-refl, Adds-Keeps, rooms-Keeps,
}
use distributed_chat_system.Server.Events.Consistency.{Trims-Keeps}

-- A change of the table of users that adds no name twice.
replicate_user-Keeps :
    (name : Bytes) (id : ℤ) (online : Bool) (s : ChatServer)
    → Keeps s (replicate_user name id online s)
unfolding replicate_user
replicate_user-Keeps name id online s = Keeps-trans changed (Adds-Keeps (announce_users-Adds _))
  where
    changed : Keeps s (record s {
      users = if online then register_user name id s.users else unregister_user name s.users;
    })
    changed = record {
      allocated = omega arith;
      running = unfold register_user unregister_user in refl;
      consistent = λ h. record {
        sound = record {
          not_own_peer = h.sound.not_own_peer;
          table = elim (Bool-cases online) [
            | inl e ↦ rw e (
                unfold register_user in
                insert-Distinct bytes_discrete name id s.users.user_locations h.sound.table)
            | inr e ↦ rw e (
                unfold unregister_user in
                erase-Distinct bytes_discrete name s.users.user_locations h.sound.table)
          ];
        };
        listed = h.listed;
        named = h.named;
      };
    }

user_fields-Keeps : (fields : List Bytes) (s : ChatServer) → Keeps s (user_fields fields s)
unfolding user_fields
user_fields-Keeps (name ∷ id_text ∷ flag ∷ rest) s = elim (Option-cases (stoi id_text)) [
  | inl e ↦ rw (e, user_fields) (Keeps-refl s)
  | inr (id, e) ↦ rw (e, user_fields) (replicate_user-Keeps name id _ s)
]
user_fields-Keeps _ s = Keeps-refl s

route_fields-Keeps : (fields : List Bytes) (s : ChatServer) → Keeps s (route_fields fields s)
unfolding route_fields
route_fields-Keeps (sender ∷ receiver ∷ text ∷ []) s = Adds-Keeps (tell_user-Adds _ _ receiver s)
route_fields-Keeps (sender ∷ text ∷ []) s = Adds-Keeps (tell_all-Adds _ _ s)
route_fields-Keeps _ s = Keeps-refl s

route_room_fields-Keeps :
    (fields : List Bytes) (s : ChatServer) → Keeps s (route_room_fields fields s)
unfolding route_room_fields
route_room_fields-Keeps (sender ∷ room ∷ text ∷ rest) s = Adds-Keeps (tell_members-Adds _ _ room s)
route_room_fields-Keeps _ s = Keeps-refl s

sync_fields-Keeps : (fields : List Bytes) (s : ChatServer) → Keeps s (sync_fields fields s)
unfolding sync_fields
sync_fields-Keeps (room ∷ id_text ∷ flag ∷ rest) s = elim (Option-cases (stoi id_text)) [
  | inl e ↦ rw (e, sync_fields) (Keeps-refl s)
  | inr (id, e) ↦ rw (e, sync_fields) (rooms-Keeps _ s)
]
sync_fields-Keeps _ s = Keeps-refl s

handle_s2s_heartbeat-Keeps : (n : ℕ) (s : ChatServer) → Keeps s (handle_s2s_heartbeat n s)
unfolding handle_s2s_heartbeat
handle_s2s_heartbeat-Keeps n s = elim (Option-cases (s.connections.node_at n).socket) [
  | inl e ↦ rw (e, handle_s2s_heartbeat) (Keeps-refl s)
  | inr (k, e) ↦ rw (e, handle_s2s_heartbeat) (Adds-Keeps (send_buffer-Adds k _ s))
]

dispatch_server-Keeps :
    (n : ℕ) (type : PacketType) (payload : Bytes) (s : ChatServer)
    → Keeps s (dispatch_server n type payload s)
unfolding dispatch_server handle_s2s_replicate_user handle_s2s_route_msg handle_s2s_route_room_msg
    handle_s2s_room_member_sync
dispatch_server-Keeps n s2s_heartbeat payload s = handle_s2s_heartbeat-Keeps n s
dispatch_server-Keeps n s2s_replicate_user payload s = user_fields-Keeps (unpack payload) s
dispatch_server-Keeps n s2s_route_msg payload s = route_fields-Keeps (unpack payload) s
dispatch_server-Keeps n s2s_route_room_msg payload s = route_room_fields-Keeps (unpack payload) s
dispatch_server-Keeps n s2s_room_member_sync payload s = sync_fields-Keeps (unpack payload) s
dispatch_server-Keeps n _ payload s = Keeps-refl s

-- A change of the connections that keeps the known peers, the sessions and the names.
pub same-Keeps :
    (c : Connections) (s : ChatServer)
    → c.peer_nodes ≡ s.connections.peer_nodes
    → c.session_at ≡ s.connections.session_at
    → c.next_session ≡ s.connections.next_session
    → c.sessions_by_socket ≡ s.connections.sessions_by_socket
    → c.sessions_by_username ≡ s.connections.sessions_by_username
    → Keeps s (record s { connections = c })
same-Keeps c s peers sessions count sockets names = Trims-Keeps c s (record {
  peer_nodes = peers;
  session_at = sessions;
  next_session = count;
  listed = λ n h. subst (Listed n) (sym sockets) h;
  names = λ q p e.
      unfold get_session_by_username in
      (ap (lookup bytes_discrete q) (sym names) ∙ (unfold get_session_by_username in e));
})

pub handle_server_packet-Keeps :
    (n : ℕ) (packet : RawPacket) (s : ChatServer) → Keeps s (handle_server_packet n packet s)
unfolding handle_server_packet
handle_server_packet-Keeps n packet s =
    Keeps-trans (same-Keeps _ s refl refl refl refl refl)
      (dispatch_server-Keeps n packet.type packet.payload _)
