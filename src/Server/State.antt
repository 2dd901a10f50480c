-- ===== src/Server/State.antt =====
-- server/ChatServer: the state of one server, what it sends, and HandlePeerDisconnect.
pub mod Texts
pub mod Sends
pub mod Disconnect
use distributed_chat_system.Prelude.{
  ℕ, ℤ, Bool, true, false, Option, none, some, List, [], ◌∷◌, ◌++◌, if◌then◌else◌, for_each,
}
use distributed_chat_system.Text.{Bytes}
use distributed_chat_system.Networking.{TcpSocket, Answers, is_valid, send_all}
use distributed_chat_system.Protocol.{PacketType, status_update, serialize, pack}
use distributed_chat_system.Server.Users.{UserManager, clear_server_users, get_online_users}
use distributed_chat_system.Server.Rooms.{ChatRoomManager, clear_server_memberships}
use distributed_chat_system.Server.Connections.{
  Connections, close_socket, unregister_peer_socket, get_all_sessions, get_peer_node, handle_of,
}
use Texts.{status_tag}

-- One run of a send loop: the socket, the buffer, the bytes that the system took, and the result.
pub record Sent : Type 0 where
  pub to : ℕ
  pub frame : Bytes
  pub taken : Bytes
  pub ok : Bool

-- The system's answers to the next send loop may depend on all that was sent, on the socket and on
-- the buffer. `wire` lists the send loops in the order in which they ran.
pub record Network : Type 0 where
  pub answers : List Sent → ℕ → Bytes → Answers
  pub wire : List Sent

pub record PeerConfig : Type 0 where
  pub id : ℤ
  pub host : Bytes
  pub port : ℤ

pub record ChatServer : Type 0 where
  pub server_id : ℤ
  pub port : ℤ
  pub running : Bool
  pub heartbeat_running : Bool
  pub listener : TcpSocket
  pub connections : Connections
  pub users : UserManager
  pub rooms : ChatRoomManager
  pub peer_configs : List PeerConfig
  pub network : Network

-- A send loop on a socket: the new state and the loop's result.
unfoldable pub send_buffer : ℕ → Bytes → ChatServer → ChatServer × Bool
send_buffer k frame s =
    let net = s.network in
    let (ok, taken) =
      send_all (is_valid (s.connections.socket_at k)) (net.answers net.wire k frame) frame in
    (
      record s {
        network = record net {
          wire = net.wire ++ record { to = k; frame = frame; taken = taken; ok = ok } ∷ [];
        };
      },
      ok,
    )

-- ClientSession::SendPacket
unfoldable pub send_packet : ℕ → PacketType → Bytes → ChatServer → ChatServer × Bool
unfolding send_buffer
send_packet r type payload s = elim (s.connections.session_at r).socket [
  | none ↦ (s, false)
  | some k ↦ send_buffer k (serialize type payload) s
]

-- The handlers do not look at the result of SendPacket.
unfoldable pub tell : ℕ → PacketType → List Bytes → ChatServer → ChatServer
unfolding send_packet
tell r type fields s = (send_packet r type (pack fields) s).0

-- `if (session->IsAuthenticated()) session->SendPacket(...)`
unfoldable pub tell_authenticated : PacketType → List Bytes → ℕ → ChatServer → ChatServer
unfolding tell
tell_authenticated type fields r s =
    if (s.connections.session_at r).is_authenticated then tell r type fields s else s

-- The list of online users, to every authenticated session.
unfoldable pub announce_users : ChatServer → ChatServer
unfolding tell_authenticated
announce_users s =
    let online_list = pack (get_online_users s.users) in
    for_each (get_all_sessions s.connections)
      (tell_authenticated status_update (status_tag ∷ online_list ∷ [])) s

-- `if (peer->GetSocket()) peer->GetSocket()->Close();`
unfoldable pub close_node_socket : ℕ → Connections → Connections
close_node_socket n c = elim (c.node_at n).socket [ none ↦ c | some k ↦ close_socket k c ]

-- The state once a lost peer is cleaned up, before anyone is told.
unfoldable pub forget_peer : ℕ → ℤ → ChatServer → ChatServer
unfolding close_node_socket
forget_peer n peer_id s = record s {
  connections = unregister_peer_socket peer_id (close_node_socket n s.connections);
  users = clear_server_users peer_id s.users;
  rooms = clear_server_memberships peer_id s.rooms;
}

unfoldable pub disconnect_peer : ℕ → ℤ → ChatServer → ChatServer
disconnect_peer n peer_id s = announce_users (forget_peer n peer_id s)

unfoldable pub handle_peer_disconnect : ℤ → ChatServer → ChatServer
unfolding disconnect_peer
handle_peer_disconnect peer_id s = elim (get_peer_node peer_id s.connections) [
  | none ↦ s
  | some n ↦ if (s.connections.node_at n).is_connected then disconnect_peer n peer_id s else s
]
