-- ===== src/Server/Clients/Promotion.antt =====
-- The S2S_CONNECT case of HandleClientPacket: a session becomes the link to a peer.
use distributed_chat_system.Prelude.{
  ℕ, ℤ, ◌≡◌, refl, ap, subst, ◌∙◌, ℤ_discrete, ℕ_discrete, true, none, some, arith,
}
use distributed_chat_system.Dict.{lookup}
use distributed_chat_system.Networking.{TcpSocket}
use distributed_chat_system.Server.Connections.{
  Connections, get_peer_node, get_session_by_socket, get_peer_node_by_socket, handle_of,
  set_connected, update_heartbeat, remove_session, register_peer_socket,
}
use distributed_chat_system.Server.Connections.Lookups.{
  get_session_by_socket-remove_session, register_peer_socket-IsLinked,
}
use distributed_chat_system.Server.State.{ChatServer}
use distributed_chat_system.Server.Clients.{promote, mark_connected}

-- What becomes of a session on socket `k` that is now the link to the peer at node `n`.
pub record Promoted (id : ℤ) (n k : ℕ) (s t : ChatServer) : Type 0 where
  pub connected : (t.connections.node_at n).is_connected ≡ true
  pub socket : (t.connections.node_at n).socket ≡ some k
  pub since : (t.connections.node_at n).last_heartbeat ≡ s.connections.now
  pub by_socket : get_peer_node_by_socket (handle_of k s.connections) t.connections ≡ some n
  pub no_session : get_session_by_socket (handle_of k s.connections) t.connections ≡ none
  pub known : get_peer_node id t.connections ≡ some n
  pub server_id : t.server_id ≡ s.server_id
  pub users : t.users ≡ s.users
  pub rooms : t.rooms ≡ s.rooms
  pub network : t.network ≡ s.network

remove_session_same :
    (handle : ℕ) (c : Connections)
    → ((remove_session handle c).peer_nodes ≡ c.peer_nodes)
      × ((remove_session handle c).socket_at ≡ c.socket_at)
      × ((remove_session handle c).now ≡ c.now)
unfolding remove_session
remove_session_same handle c = (ground arith, ground arith, ground arith)

pub register_peer_socket_same :
    (id : ℤ) (k : ℕ) (c : Connections)
    → ((register_peer_socket id k c).sessions_by_socket ≡ c.sessions_by_socket)
      × ((register_peer_socket id k c).now ≡ c.now)
unfolding register_peer_socket
register_peer_socket_same id k c = (ground arith, ground arith)

-- The objects and tables after a promotion.
record Marked (id : ℤ) (n k handle time : ℕ) (d : Connections) : Type 0 where
  connected : (d.node_at n).is_connected ≡ true
  socket : (d.node_at n).socket ≡ some k
  since : (d.node_at n).last_heartbeat ≡ time
  by_socket : get_peer_node_by_socket handle d ≡ some n
  no_session : get_session_by_socket handle d ≡ none
  known : get_peer_node id d ≡ some n

mark_connected-Marked :
    (id : ℤ) (n k handle : ℕ) (c : Connections)
    → get_peer_node id c ≡ some n
    → (c.node_at n).socket ≡ some k
    → get_peer_node_by_socket handle c ≡ some n
    → get_session_by_socket handle c ≡ none
    → Marked id n k handle c.now (mark_connected id c)
unfolding mark_connected get_peer_node_by_socket get_session_by_socket set_connected
    update_heartbeat
mark_connected-Marked id n k handle c known has by gone = record {
  connected = ground arith;
  socket = ground arith;
  since = ground arith;
  by_socket = ground arith;
  no_session = ground arith;
  known = unfold get_peer_node in ground arith;
}

get_peer_node-remove_session :
    (id : ℤ) (handle : ℕ) (c : Connections)
    → get_peer_node id (remove_session handle c) ≡ get_peer_node id c
unfolding get_peer_node
get_peer_node-remove_session id handle c =
    ap (lookup ℤ_discrete id) (remove_session_same handle c).0

no_session-register :
    (id : ℤ) (k handle : ℕ) (c : Connections)
    → get_session_by_socket handle (register_peer_socket id k (remove_session handle c)) ≡ none
unfolding get_session_by_socket
no_session-register id k handle c =
    ap (lookup ℕ_discrete handle) (register_peer_socket_same id k (remove_session handle c)).0
    ∙ (unfold get_session_by_socket in get_session_by_socket-remove_session handle c)

relinked-Marked :
    (id : ℤ) (n k : ℕ) (c : Connections)
    → get_peer_node id c ≡ some n
    → Marked id n k
        (handle_of k c)
        c.now
        (mark_connected id (register_peer_socket id k (remove_session (handle_of k c) c)))
relinked-Marked id n k c known =
    let h = handle_of k c in
    let removed = remove_session h c in
    let same = remove_session_same h c in
    let linked = register_peer_socket id k removed in
    let l =
      register_peer_socket-IsLinked id n k removed (get_peer_node-remove_session id h c ∙ known) in
    let by =
      subst
        (λ (sockets : ℕ → TcpSocket). get_peer_node_by_socket (sockets k).handle linked ≡ some n)
        same.1 l.by_socket in
    subst (λ time. Marked id n k h time (mark_connected id linked))
      ((register_peer_socket_same id k removed).1 ∙ same.2)
      (mark_connected-Marked id n k h linked l.node l.socket by (no_session-register id k h c))

pub promote-Promoted :
    (r k n : ℕ) (id : ℤ) (s : ChatServer)
    → (s.connections.session_at r).socket ≡ some k
    → get_peer_node id s.connections ≡ some n
    → Promoted id n k s (promote r id s)
unfolding promote
promote-Promoted r k n id s has known =
    let m = relinked-Marked id n k s.connections known in
    rw (has, promote)
      (record {
        connected = m.connected;
        socket = m.socket;
        since = m.since;
        by_socket = m.by_socket;
        no_session = m.no_session;
        known = m.known;
        server_id = refl;
        users = refl;
        rooms = refl;
        network = refl;
      })
