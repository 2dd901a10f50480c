-- ===== src/Server/Replication.antt =====
-- server/ReplicationManager: what one server tells the others.
pub mod Spares
pub mod Reach
use distributed_chat_system.Prelude.{
  ℕ, ℤ, Bool, true, false, ◌&&◌, Option, none, some, List, [], ◌∷◌, if◌then◌else◌, for_each,
  is_some,
}
use distributed_chat_system.Text.{Bytes}
use distributed_chat_system.Text.Decimal.{to_string}
use distributed_chat_system.Protocol.{
  PacketType, s2s_replicate_user, s2s_room_member_sync, s2s_route_msg, s2s_route_room_msg,
  serialize, pack,
}
use distributed_chat_system.Server.Rooms.{get_remote_servers}
use distributed_chat_system.Server.Connections.{get_all_peer_nodes, get_peer_node}
use distributed_chat_system.Server.State.{ChatServer, send_buffer, handle_peer_disconnect}
use distributed_chat_system.Server.State.Texts.{zero_text, one_text}

-- A send loop to a peer; if it fails, the peer with this id is disconnected.
unfoldable pub relay : ℤ → ℕ → Bytes → ChatServer → ChatServer
relay peer_id k frame s =
    let (s', ok) = send_buffer k frame s in if ok then s' else handle_peer_disconnect peer_id s'

-- `if (peer->IsConnected() && peer->GetSocket())`, then the send loop to that socket.
unfoldable pub relay_to_node : ℤ → Bytes → ℕ → ChatServer → ChatServer
unfolding relay
relay_to_node peer_id frame n s =
    if (s.connections.node_at n).is_connected
    then elim (s.connections.node_at n).socket [ none ↦ s | some k ↦ relay peer_id k frame s ]
    else s

unfoldable pub broadcast_s2s : PacketType → Bytes → ChatServer → ChatServer
unfolding relay_to_node
broadcast_s2s type payload s =
    let frame = serialize type payload in
    for_each (get_all_peer_nodes s.connections)
      (λ n t. relay_to_node (t.connections.node_at n).server_id frame n t) s

-- The subject, this server's id and a flag, as the four notices below pack them.
unfoldable pub notice : Bytes → Bytes → ChatServer → Bytes
notice subject flag s = pack (subject ∷ to_string s.server_id ∷ flag ∷ [])

unfoldable pub replicate_user_login : Bytes → ChatServer → ChatServer
replicate_user_login username s = broadcast_s2s s2s_replicate_user (notice username one_text s) s

unfoldable pub replicate_user_logout : Bytes → ChatServer → ChatServer
replicate_user_logout username s = broadcast_s2s s2s_replicate_user (notice username zero_text s) s

unfoldable pub replicate_room_join : Bytes → ChatServer → ChatServer
replicate_room_join room s = broadcast_s2s s2s_room_member_sync (notice room one_text s) s

unfoldable pub replicate_room_leave : Bytes → ChatServer → ChatServer
replicate_room_leave room s = broadcast_s2s s2s_room_member_sync (notice room zero_text s) s

-- A relay to the peer with an id, if it is known, connected and has a socket.
unfoldable pub relay_to_id : Bytes → ℤ → ChatServer → ChatServer
unfolding relay_to_node
relay_to_id frame peer_id s = elim (get_peer_node peer_id s.connections) [
  | none ↦ s
  | some n ↦ relay_to_node peer_id frame n s
]

unfoldable pub route_private_message : Bytes → Bytes → Bytes → ℤ → ChatServer → ChatServer
unfolding relay_to_id
route_private_message sender receiver text target_id s =
    relay_to_id (serialize s2s_route_msg (pack (sender ∷ receiver ∷ text ∷ []))) target_id s

-- With no remote server in the room the loop has no round.
unfoldable pub route_room_message : Bytes → Bytes → Bytes → ChatServer → ChatServer
unfolding relay_to_id
route_room_message sender room text s =
    for_each (get_remote_servers room s.rooms)
      (relay_to_id (serialize s2s_route_room_msg (pack (sender ∷ room ∷ text ∷ [])))) s
