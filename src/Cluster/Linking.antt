-- ===== src/Cluster/Linking.antt =====
-- PeerConnectorLoop on one server and the S2S_CONNECT case of HandleClientPacket on the other.
use distributed_chat_system.Prelude.{
  ℕ, ℤ, ◌≡◌, ◌<◌, refl, ap, ◌∙◌, Bool, true, false, Option, some, List, [], ◌∷◌, ◌++◌, arith,
  Bool-cases, inl, inr,
}
use distributed_chat_system.Text.{Bytes, trim}
use distributed_chat_system.Text.Decimal.{IsInt, to_string, stoi-to_string}
use distributed_chat_system.Networking.{connect, new_socket}
use distributed_chat_system.Protocol.{RawPacket, s2s_connect, serialize}
use distributed_chat_system.Server.Users.{is_user_online}
use distributed_chat_system.Server.Users.Refinement.{location}
use distributed_chat_system.Server.Connections.{
  Connections, modify_node, get_peer_node, set_connected, update_heartbeat, register_peer_socket,
}
use distributed_chat_system.Server.Connections.Lookups.{register_peer_socket-IsLinked}
use distributed_chat_system.Server.Clients.Promotion.{
  Promoted, promote-Promoted, register_peer_socket_same,
}
use distributed_chat_system.Server.State.{ChatServer, PeerConfig}
use distributed_chat_system.Server.State.Sends.{sends, send_buffer-Adds}
use distributed_chat_system.Server.Clients.{
  handle_client_packet, dispatch_client, handle_login, is_bad_name, needs_login,
}
use distributed_chat_system.Server.Clients.Login.{handle_login-SignsOn, SignsOn}
use distributed_chat_system.Server.Links.{connect_peer, introduce, allocate_socket}
use distributed_chat_system.Server.Events.Keeps.{IsConsistent}
use distributed_chat_system.Server.Events.Consistency.{handle_client_packet-Keeps}

-- The handshake of a server.
abbrev pub introduction : ChatServer → RawPacket
introduction a = record { type = s2s_connect; payload = to_string a.server_id }

-- The frame of the handshake, for a socket.
abbrev pub handshake : ℕ → ChatServer → List (ℕ × Bytes)
handshake k a = (k, serialize s2s_connect (to_string a.server_id)) ∷ []

-- What a server has done once it is linked to the peer at node `n` by a new socket.
pub record Connected (n : ℕ) (a t : ChatServer) : Type 0 where
  pub connected : (t.connections.node_at n).is_connected ≡ true
  pub socket : (t.connections.node_at n).socket ≡ some a.connections.next_socket
  pub since : (t.connections.node_at n).last_heartbeat ≡ a.connections.now
  pub sent : sends t ≡ sends a ++ handshake a.connections.next_socket a
  pub users : t.users ≡ a.users
  pub rooms : t.rooms ≡ a.rooms

introduction-Promoted :
    (r k n : ℕ) (a b : ChatServer)
    → IsInt a.server_id
    → (b.connections.session_at r).socket ≡ some k
    → get_peer_node a.server_id b.connections ≡ some n
    → Promoted a.server_id n k b (handle_client_packet r (introduction a) b)
unfolding handle_client_packet dispatch_client needs_login
introduction-Promoted r k n a b int has known =
    let p = promote-Promoted r k n a.server_id b has known in
    elim (Bool-cases (b.connections.session_at r).is_authenticated) [
      | inl e ↦ rw (e, stoi-to_string a.server_id int, dispatch_client) p
      | inr e ↦ rw (e, stoi-to_string a.server_id int, dispatch_client) p
    ]

-- The state at the send of the handshake.
abbrev greeting : ℕ → ℤ → ℕ → ChatServer → ChatServer
greeting n id k s =
    let c = register_peer_socket id k s.connections in
    record s { connections = modify_node n (λ x. update_heartbeat c.now (set_connected true x)) c }

greeting-node :
    (n k : ℕ) (id : ℤ) (s : ChatServer)
    → get_peer_node id s.connections ≡ some n
    → let x = (greeting n id k s).connections.node_at n in
      (x.is_connected ≡ true) × (x.socket ≡ some k) × (x.last_heartbeat ≡ s.connections.now)
unfolding update_heartbeat set_connected
greeting-node n k id s known =
    let l = register_peer_socket-IsLinked id n k s.connections known in
    let has = l.socket in
    let clock = (register_peer_socket_same id k s.connections).1 in
    (ground arith, ground (arith, has), ground (arith, clock))

introduce-Connected :
    (n k : ℕ) (id : ℤ) (a : ChatServer) (c : Connections)
    → k ≡ a.connections.next_socket
    → c.now ≡ a.connections.now
    → get_peer_node id c ≡ some n
    → Connected n a (introduce n id k (record a { connections = c }))
unfolding introduce
introduce-Connected n k id a c fresh clock known =
    let s = record a { connections = c } in
    let sent =
      send_buffer-Adds k (serialize s2s_connect (to_string a.server_id)) (greeting n id k s) in
    let node = greeting-node n k id s known in
    record {
      connected = ap (λ (d : Connections). (d.node_at n).is_connected) sent.connections ∙ node.0;
      socket =
          ap (λ (d : Connections). (d.node_at n).socket) sent.connections ∙ node.1 ∙ ap some fresh;
      since =
          ap (λ (d : Connections). (d.node_at n).last_heartbeat) sent.connections ∙ node.2 ∙ clock;
      sent = sent.wire ∙ ap (λ q. sends a ++ handshake q a) fresh;
      users = sent.users;
      rooms = sent.rooms;
    }

-- A configured peer that is not connected, on an attempt that connects.
connect_peer-Connected :
    (config : PeerConfig) (handle n : ℕ) (resolved : Option (List Bool)) (a : ChatServer)
    → get_peer_node config.id a.connections ≡ some n
    → (a.connections.node_at n).is_connected ≡ false
    → connect (new_socket handle) resolved ≡ true
    → Connected n a (connect_peer config handle resolved a)
unfolding connect_peer allocate_socket
connect_peer-Connected config handle n resolved a known off ok =
    rw (known, connect_peer, off, ok)
      (introduce-Connected n a.connections.next_socket config.id a _ refl refl
        (unfold get_peer_node in known))

-- Two servers link: server `a` has a configured peer that is not connected and connects to it; the
-- other server `b` knows the id of `a`, an int, as a peer, and handles the handshake of `a` on the
-- session that it gave the connection. Then each has the other's node connected by the new
-- connection, heard of just now; `a` has sent its handshake and nothing more, and `b` nothing; the
-- connection is no session of `b` any more; and neither has changed its users or its rooms.
pub peers_link :
    (config : PeerConfig) (handle m r k n : ℕ) (resolved : Option (List Bool)) (a b : ChatServer)
    → get_peer_node config.id a.connections ≡ some m
    → (a.connections.node_at m).is_connected ≡ false
    → connect (new_socket handle) resolved ≡ true
    → IsInt a.server_id
    → (b.connections.session_at r).socket ≡ some k
    → get_peer_node a.server_id b.connections ≡ some n
    → Connected m a (connect_peer config handle resolved a)
      × Promoted a.server_id n k b (handle_client_packet r (introduction a) b)
peers_link config handle m r k n resolved a b known off ok int has other = (
  connect_peer-Connected config handle m resolved a known off ok,
  introduction-Promoted r k n a b int has other,
)

-- A link that comes up late brings no users. Server `a` has a user online when it connects to its
-- configured peer `b`, to which it was not connected; `b` is consistent, knows the id of `a`, an
-- int, as a peer, handles the handshake on an existing session with a socket, and has the user's
-- name, a good one, nowhere. Then the handshake is all that `a` sends, so `b` still lets a session
-- in under that name afterwards, and the name is online at both servers, each of which has it at
-- itself.
pub late_link_admits_twice :
    (config : PeerConfig) (handle m r q k n : ℕ) (resolved : Option (List Bool)) (payload : Bytes)
    (a b : ChatServer)
    → get_peer_node config.id a.connections ≡ some m
    → (a.connections.node_at m).is_connected ≡ false
    → connect (new_socket handle) resolved ≡ true
    → IsInt a.server_id
    → (b.connections.session_at r).socket ≡ some k
    → get_peer_node a.server_id b.connections ≡ some n
    → r < b.connections.next_session
    → IsConsistent b
    → is_bad_name (trim payload) ≡ false
    → location a.users (trim payload) ≡ some a.server_id
    → is_user_online (trim payload) b.users ≡ false
    → let a' = connect_peer config handle resolved a in
      let linked = handle_client_packet r (introduction a) b in
      (sends a' ≡ sends a ++ handshake a.connections.next_socket a)
      × (location a'.users (trim payload) ≡ some a.server_id)
      × SignsOn q (trim payload) linked (handle_login q payload linked)
late_link_admits_twice config handle m r q k n resolved payload a b known off ok int has other there
      h good there_online free =
    let l = peers_link config handle m r k n resolved a b known off ok int has other in
    let steady = (handle_client_packet-Keeps r (introduction a) b there).consistent h in
    (
      l.0.sent,
      ap (λ u. location u (trim payload)) l.0.users ∙ there_online,
      handle_login-SignsOn q payload (handle_client_packet r (introduction a) b) good
          (ap (is_user_online (trim payload)) l.1.users ∙ free) steady.sound,
    )
