-- ===== src/Server/Connections/Lookups.antt =====
-- What the maps of sessions and peers give after each call of the connection manager.
use distributed_chat_system.Prelude.{
  ℕ, ℤ, ◌≡◌, ◌≢◌, true, false, none, some, arith, ite, ℕ_discrete,
}
use distributed_chat_system.Text.{Bytes, bytes_discrete, is_empty}
use distributed_chat_system.Dict.{lookup-insert, lookup-erase}
use distributed_chat_system.Server.Connections.{
  Connections, remove_session, get_session_by_socket, get_session_by_username, register_peer_socket,
  get_peer_node, get_peer_node_by_socket, handle_of, set_socket,
}

-- A removed socket leads to no session, whatever it led to before.
pub get_session_by_socket-remove_session :
    (handle : ℕ) (c : Connections) → get_session_by_socket handle (remove_session handle c) ≡ none
unfolding get_session_by_socket remove_session
get_session_by_socket-remove_session handle c =
    ground (arith, lookup-erase ℕ_discrete handle handle c.sessions_by_socket)

-- With the socket of a named session its name goes, and no other name.
pub get_session_by_username-remove_session :
    (handle r : ℕ) (name q : Bytes) (c : Connections)
    → get_session_by_socket handle c ≡ some r
    → (c.session_at r).username ≡ name
    → is_empty name ≡ false
    → get_session_by_username q (remove_session handle c)
      ≡ ite (bytes_discrete q name) none (get_session_by_username q c)
unfolding get_session_by_socket get_session_by_username remove_session
get_session_by_username-remove_session handle r name q c found e named =
    ground (arith, lookup-erase bytes_discrete q name c.sessions_by_username)

-- A registered peer socket leads to its node, which is connected by that socket since now.
pub record IsLinked (id : ℤ) (n k : ℕ) (c d : Connections) : Type 0 where
  pub by_socket : get_peer_node_by_socket (handle_of k c) d ≡ some n
  pub node : get_peer_node id d ≡ some n
  pub socket : (d.node_at n).socket ≡ some k
  pub connected : (d.node_at n).is_connected ≡ true
  pub since : (d.node_at n).last_heartbeat ≡ c.now
  pub others : (m : ℕ) → m ≢ n → d.node_at m ≡ c.node_at m
  pub sessions : d.sessions_by_username ≡ c.sessions_by_username

-- A socket that is registered for a known peer leads to the peer's node and the node to the socket;
-- the node counts as connected from now on, and no other node and no user name is touched.
pub register_peer_socket-IsLinked :
    (id : ℤ) (n k : ℕ) (c : Connections)
    → get_peer_node id c ≡ some n
    → IsLinked id n k c (register_peer_socket id k c)
unfolding register_peer_socket get_peer_node get_peer_node_by_socket set_socket
register_peer_socket-IsLinked id n k c known = record {
  by_socket =
      ground
        (arith, lookup-insert ℕ_discrete (handle_of k c) (handle_of k c) n c.peer_nodes_by_socket);
  node = ground arith;
  socket = ground arith;
  connected = ground arith;
  since = ground arith;
  others = λ m ne. ground arith;
  sessions = ground arith;
}
