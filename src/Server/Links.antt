-- ===== src/Server/Links.antt =====
-- server/ChatServer.cpp: connections that come and go, in ListenerLoop, PeerConnectorLoop,
-- AddPeerConfig, Start and Stop.
pub mod Losses
pub mod Stopping
use distributed_chat_system.Prelude.{
  ℕ, suc, ℤ, Bool, true, false, not, ◌&&◌, Option, none, some, List, [], ◌∷◌, ◌++◌, if◌then◌else◌,
  ◌==◌, for_each,
}
use distributed_chat_system.Text.{Bytes, is_empty}
use distributed_chat_system.Text.Decimal.{to_string}
use distributed_chat_system.Networking.{TcpSocket, new_socket, accept, connect, close, bind, listen}
use distributed_chat_system.Protocol.{RawPacket, status_update, s2s_connect, serialize, pack}
use distributed_chat_system.Server.Users.{unregister_user, get_online_users}
use distributed_chat_system.Server.Connections.{
  Connections, update, modify_node, new_session, new_node, add_session, remove_session,
  add_peer_node, register_peer_socket, get_all_sessions, get_all_peer_nodes, get_peer_node,
  handle_of, set_connected, update_heartbeat, close_socket,
}
use distributed_chat_system.Server.State.{
  ChatServer, PeerConfig, send_buffer, tell_authenticated, handle_peer_disconnect,
  close_node_socket,
}
use distributed_chat_system.Server.State.Texts.{status_tag}
use distributed_chat_system.Server.Replication.{replicate_user_logout}
use distributed_chat_system.Server.Heartbeat.{start_heartbeat, stop_heartbeat}
use distributed_chat_system.Server.Clients.{username_of, handle_client_packet}
use distributed_chat_system.Server.Peers.{handle_server_packet}

-- A new socket object, and its address.
unfoldable pub allocate_socket : TcpSocket → Connections → Connections × ℕ
allocate_socket k c = (
  record c { socket_at = update c.socket_at c.next_socket k; next_socket = suc c.next_socket },
  c.next_socket,
)

unfoldable pub allocate_session : ℕ → Connections → Connections × ℕ
allocate_session k c = (
  record c {
    session_at = update c.session_at c.next_session (new_session (some k));
    next_session = suc c.next_session;
  },
  c.next_session,
)

unfoldable pub add_peer_config : ℤ → Bytes → ℤ → ChatServer → ChatServer
add_peer_config peer_id host port s =
    let c = s.connections in
    record s {
      peer_configs = s.peer_configs ++ record { id = peer_id; host = host; port = port } ∷ [];
      connections = add_peer_node c.next_node (record c {
        node_at = update c.node_at c.next_node (new_node peer_id host port c.now);
        next_node = suc c.next_node;
      });
    }

unfoldable pub admit : Option TcpSocket → ChatServer → ChatServer
unfolding allocate_socket allocate_session
admit none s = s
admit (some k) s =
    let (c, socket) = allocate_socket k s.connections in
    let (c', session) = allocate_session socket c in
    record s { connections = add_session session c' }

-- `incoming` is what the system's accept returned: a session for the new connection, if there is
-- one.
unfoldable pub accept_client : ℕ → ChatServer → ChatServer
unfolding admit
accept_client incoming s = admit (accept s.listener incoming) s

-- The status list to one of the other sessions: authenticated, and not on the handle that is gone.
unfoldable pub tell_other : ℕ → List Bytes → ℕ → ChatServer → ChatServer
tell_other gone fields r s = elim (s.connections.session_at r).socket [
  | none ↦ s
  | some k ↦
      if handle_of k s.connections == gone then s else tell_authenticated status_update fields r s
]

unfoldable pub sign_off : ℕ → Bytes → ChatServer → ChatServer
unfolding tell_other
sign_off gone name s =
    let s' = replicate_user_logout name (record s { users = unregister_user name s.users }) in
    for_each (get_all_sessions s'.connections)
      (tell_other gone (status_tag ∷ pack (get_online_users s'.users) ∷ [])) s'

-- A session whose socket could not be read.
unfoldable pub lose_client : ℕ → ℕ → ChatServer → ChatServer
unfolding sign_off
lose_client r handle s =
    let name = username_of r s in
    let s' = if is_empty name then s else sign_off handle name s in
    record s' { connections = remove_session handle s'.connections }

unfoldable pub introduce : ℕ → ℤ → ℕ → ChatServer → ChatServer
introduce n peer_id k s =
    let c = register_peer_socket peer_id k s.connections in
    let c' = modify_node n (λ x. update_heartbeat c.now (set_connected true x)) c in
    (send_buffer k (serialize s2s_connect (to_string s.server_id))
      (record s { connections = c' })).0

-- One attempt of the peer connector: `handle` is what the system gave the new socket, `resolved`
-- what it answered to Connect.
unfoldable pub connect_peer : PeerConfig → ℕ → Option (List Bool) → ChatServer → ChatServer
unfolding introduce allocate_socket
connect_peer config handle resolved s = elim (get_peer_node config.id s.connections) [
  | none ↦ s
  | some n ↦
      if (s.connections.node_at n).is_connected
      then s
      else let (c, k) = allocate_socket (new_socket handle) s.connections in
        let s' = record s { connections = c } in
        if connect (new_socket handle) resolved then introduce n config.id k s' else s'
]

-- `bound` and `listening` are the system's answers on the listener.
unfoldable pub start : Bool → Bool → ChatServer → ChatServer × Bool
start bound listening s =
    if bind s.listener bound && listen s.listener listening
    then ((start_heartbeat (record s { running = true })).0, true)
    else (s, false)

unfoldable pub close_session_socket : ℕ → Connections → Connections
close_session_socket r c = elim (c.session_at r).socket [ none ↦ c | some k ↦ close_socket k c ]

unfoldable pub stop : ChatServer → ChatServer
unfolding close_session_socket
stop s =
    let c = s.connections in
    let closed =
      for_each (get_all_peer_nodes c) close_node_socket
        (for_each (get_all_sessions c) close_session_socket c) in
    if s.running
    then record (stop_heartbeat (record s { running = false })).0 {
      listener = (close s.listener).0;
      connections = closed;
    }
    else s
