-- ===== src/Server/Replication/Spares.antt =====
-- What losing peers never touches: the sessions, the rooms' local members and the local users.
use distributed_chat_system.Prelude.{
  subst, ℕ, ℤ, ℤ_discrete, ℕ_discrete, ◌≡◌, ◌≢◌, refl, ap, sym, ◌∙◌, none, some, List, arith,
  for_each_induction, Option-cases, Bool-cases, inl, inr,
}
use distributed_chat_system.Text.{Bytes, bytes_discrete}
use distributed_chat_system.Dict.{lookup, lookup-erase_if}
use distributed_chat_system.Protocol.{PacketType}
use distributed_chat_system.Server.Users.{UserManager, same_id, clear_server_users}
use distributed_chat_system.Server.Users.Refinement.{location, IsTable, apply-IsTable, clears}
use distributed_chat_system.Server.Users.Refinement
use distributed_chat_system.Server.Rooms.{
  get_local_members, clear_server_memberships, ChatRoomManager,
}
use distributed_chat_system.Server.Rooms.Refinement.{lookup-clear_rooms}
use distributed_chat_system.Server.Connections.{
  Connections, unregister_peer_socket, close_socket, get_peer_node, get_all_peer_nodes,
  get_session_by_username, get_session_by_socket,
}
use distributed_chat_system.Server.State.{
  ChatServer, send_buffer, disconnect_peer, forget_peer, close_node_socket, handle_peer_disconnect,
}
use distributed_chat_system.Server.State.Sends.{Adds, send_buffer-Adds, announce_users-Adds}
use distributed_chat_system.Server.Replication.{relay, relay_to_node, broadcast_s2s}

get_local_members-clear :
    (id : ℤ) (room : Bytes) (m : ChatRoomManager)
    → get_local_members room (clear_server_memberships id m) ≡ get_local_members room m
unfolding get_local_members clear_server_memberships
get_local_members-clear id room m = ground (arith, lookup-clear_rooms id room m.rooms)

-- The objects and maps of sessions, and the peers that are known, are the same.
pub record SameClients (c d : Connections) : Type 0 where
  pub session_at : d.session_at ≡ c.session_at
  pub sessions_by_socket : d.sessions_by_socket ≡ c.sessions_by_socket
  pub sessions_by_username : d.sessions_by_username ≡ c.sessions_by_username
  pub peer_nodes : d.peer_nodes ≡ c.peer_nodes
  pub next_session : d.next_session ≡ c.next_session

-- This server is not configured as its own peer, and its table of users has no name twice.
pub record IsSound (s : ChatServer) : Type 0 where
  pub not_own_peer : get_peer_node s.server_id s.connections ≡ none
  pub table : IsTable s.users

pub record Spares (s t : ChatServer) : Type 0 where
  pub clients : SameClients s.connections t.connections
  pub server_id : t.server_id ≡ s.server_id
  pub running : t.running ≡ s.running
  pub members : (room : Bytes) → get_local_members room t.rooms ≡ get_local_members room s.rooms
  pub sound : IsSound s → IsSound t
  pub own_users :
      IsSound s
      → (q : Bytes) → location s.users q ≡ some s.server_id
      → location t.users q ≡ some s.server_id
  pub absent : IsSound s → (q : Bytes) → location s.users q ≡ none → location t.users q ≡ none

SameClients-refl : (c : Connections) → SameClients c c
SameClients-refl c = record {
  session_at = refl;
  sessions_by_socket = refl;
  sessions_by_username = refl;
  peer_nodes = refl;
  next_session = refl;
}

SameClients-trans : {c d e : Connections} → SameClients c d → SameClients d e → SameClients c e
SameClients-trans p q = record {
  session_at = q.session_at ∙ p.session_at;
  sessions_by_socket = q.sessions_by_socket ∙ p.sessions_by_socket;
  sessions_by_username = q.sessions_by_username ∙ p.sessions_by_username;
  peer_nodes = q.peer_nodes ∙ p.peer_nodes;
  next_session = q.next_session ∙ p.next_session;
}

pub same_names :
    {c d : Connections}
    → SameClients c d
    → (q : Bytes) → get_session_by_username q d ≡ get_session_by_username q c
unfolding get_session_by_username
same_names p q = ap (lookup bytes_discrete q) p.sessions_by_username

pub same_sockets :
    {c d : Connections}
    → SameClients c d
    → (h : ℕ) → get_session_by_socket h d ≡ get_session_by_socket h c
unfolding get_session_by_socket
same_sockets p h = ap (lookup ℕ_discrete h) p.sessions_by_socket

pub Spares-refl : (s : ChatServer) → Spares s s
Spares-refl s = record {
  clients = SameClients-refl s.connections;
  server_id = refl;
  running = refl;
  members = λ room. refl;
  sound = λ h. h;
  own_users = λ h q e. e;
  absent = λ h q e. e;
}

pub Spares-trans : {s t u : ChatServer} → Spares s t → Spares t u → Spares s u
Spares-trans p q = record {
  clients = SameClients-trans p.clients q.clients;
  server_id = q.server_id ∙ p.server_id;
  running = q.running ∙ p.running;
  members = λ room. q.members room ∙ p.members room;
  sound = λ h. q.sound (p.sound h);
  own_users = λ h n e.
      q.own_users (p.sound h) n (p.own_users h n e ∙ ap some (sym p.server_id))
      ∙ ap some p.server_id;
  absent = λ h n e. q.absent (p.sound h) n (p.absent h n e);
}

SameClients-of_eq : {c d : Connections} → d ≡ c → SameClients c d
SameClients-of_eq e = record {
  session_at = ap (λ (x : Connections). x.session_at) e;
  sessions_by_socket = ap (λ (x : Connections). x.sessions_by_socket) e;
  sessions_by_username = ap (λ (x : Connections). x.sessions_by_username) e;
  peer_nodes = ap (λ (x : Connections). x.peer_nodes) e;
  next_session = ap (λ (x : Connections). x.next_session) e;
}

pub Adds-Spares : {more : List (ℕ × Bytes)} {s t : ChatServer} → Adds more s t → Spares s t
Adds-Spares {s} {t} a = record {
  clients = SameClients-of_eq a.connections;
  server_id = a.server_id;
  running = ap (λ (x : ChatServer). x.running) a.all_else;
  members = λ room. ap (get_local_members room) a.rooms;
  sound = λ h. record {
    not_own_peer =
        ap (λ id. get_peer_node id t.connections) a.server_id
        ∙ (ap (get_peer_node s.server_id) a.connections ∙ h.not_own_peer);
    table = subst IsTable (sym a.users) h.table;
  };
  own_users = λ h q e. ap (λ u. location u q) a.users ∙ e;
  absent = λ h q e. ap (λ u. location u q) a.users ∙ e;
}

close_node_socket-SameClients : (n : ℕ) (c : Connections) → SameClients c (close_node_socket n c)
unfolding close_node_socket close_socket
close_node_socket-SameClients n c = ground arith

unregister-SameClients : (id : ℤ) (c : Connections) → SameClients c (unregister_peer_socket id c)
unfolding unregister_peer_socket
unregister-SameClients id c = ground arith

own_user-clear :
    (id own : ℤ) (q : Bytes) (m : UserManager)
    → id ≢ own
    → IsTable m
    → location m q ≡ some own
    → location (clear_server_users id m) q ≡ some own
unfolding clear_server_users
own_user-clear id own q m other h e =
    ground (arith, lookup-erase_if bytes_discrete (λ (at : ℤ). same_id at id) q m.user_locations h)

absent_user-clear :
    (id : ℤ) (q : Bytes) (m : UserManager)
    → IsTable m
    → location m q ≡ none
    → location (clear_server_users id m) q ≡ none
unfolding clear_server_users
absent_user-clear id q m h e =
    ground (arith, lookup-erase_if bytes_discrete (λ (at : ℤ). same_id at id) q m.user_locations h)

forget_peer-Spares :
    (n : ℕ) (id : ℤ) (s : ChatServer)
    → get_peer_node id s.connections ≡ some n
    → Spares s (forget_peer n id s)
unfolding forget_peer
forget_peer-Spares n id s known = record {
  clients = same;
  server_id = refl;
  running = refl;
  members = λ room. get_local_members-clear id room s.rooms;
  sound = λ h. record {
    not_own_peer =
        unfold get_peer_node in
        ap (lookup ℤ_discrete s.server_id) same.peer_nodes
        ∙ (unfold get_peer_node in h.not_own_peer);
    table = unfold Refinement.apply in apply-IsTable (clears id) s.users h.table;
  };
  own_users = λ h q e.
      own_user-clear id s.server_id q s.users
        (λ own. cc (known, h.not_own_peer, ap (λ x. get_peer_node x s.connections) own)) h.table e;
  absent = λ h q e. absent_user-clear id q s.users h.table e;
}
  where
    same : SameClients s.connections (unregister_peer_socket id (close_node_socket n s.connections))
    same =
        SameClients-trans (close_node_socket-SameClients n s.connections)
          (unregister-SameClients id (close_node_socket n s.connections))

pub handle_peer_disconnect-Spares :
    (id : ℤ) (s : ChatServer) → Spares s (handle_peer_disconnect id s)
unfolding handle_peer_disconnect disconnect_peer
handle_peer_disconnect-Spares id s = elim (Option-cases (get_peer_node id s.connections)) [
  | inl e ↦ rw (e, handle_peer_disconnect) (Spares-refl s)
  | inr (n, e) ↦ elim (Bool-cases (s.connections.node_at n).is_connected) [
    | inl on ↦
        rw (e, handle_peer_disconnect, on)
          (Spares-trans (forget_peer-Spares n id s e)
            (Adds-Spares (announce_users-Adds (forget_peer n id s))))
    | inr off ↦ rw (e, handle_peer_disconnect, off) (Spares-refl s)
  ]
]

pub relay-Spares : (id : ℤ) (k : ℕ) (frame : Bytes) (s : ChatServer) → Spares s (relay id k frame s)
unfolding relay
relay-Spares id k frame s = elim (Bool-cases (send_buffer k frame s).1) [
  | inl ok ↦ rw ok (Adds-Spares (send_buffer-Adds k frame s))
  | inr bad ↦ rw bad (
      Spares-trans (Adds-Spares (send_buffer-Adds k frame s))
        (handle_peer_disconnect-Spares id (send_buffer k frame s).0))
]

pub relay_to_node-Spares :
    (id : ℤ) (frame : Bytes) (n : ℕ) (s : ChatServer) → Spares s (relay_to_node id frame n s)
unfolding relay_to_node
relay_to_node-Spares id frame n s = elim (Bool-cases (s.connections.node_at n).is_connected) [
  | inl on ↦ elim (Option-cases (s.connections.node_at n).socket) [
    | inl e ↦ rw (on, e, relay_to_node) (Spares-refl s)
    | inr (k, e) ↦ rw (on, e, relay_to_node) (relay-Spares id k frame s)
  ]
  | inr off ↦ rw off (Spares-refl s)
]

-- Telling the other servers, peers lost on the way included, never touches a session, a local
-- member of a room or a user of this server.
pub broadcast_s2s-Spares :
    (type : PacketType) (payload : Bytes) (s : ChatServer) → Spares s (broadcast_s2s type payload s)
unfolding broadcast_s2s
broadcast_s2s-Spares type payload s =
    for_each_induction (Spares s) (get_all_peer_nodes s.connections) _ s
      (λ n t h. Spares-trans h (relay_to_node-Spares _ _ n t)) (Spares-refl s)
