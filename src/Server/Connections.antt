-- ===== src/Server/Connections.antt =====
-- server/ClientSession, server/ServerNode and server/ConnectionManager: the objects behind shared
-- pointers stand on a heap, and the maps hold their addresses, so a session that two maps hold is
-- one object. A function on addresses is the heap; `next_*` is the first address not yet used.
pub mod Lookups
use distributed_chat_system.Prelude.{
  ℕ, suc, ℤ, ℕ_discrete, ℤ_discrete, Bool, true, false, Option, none, some, List, [], ◌∷◌, is_some,
  if◌then◌else◌, ◌==◌,
}
use distributed_chat_system.Text.{Bytes, bytes_discrete, is_empty}
use distributed_chat_system.Dict.{insert, erase, lookup, values, contains, put, remove}
use distributed_chat_system.Networking.{TcpSocket, close, new_socket}

pub record Session : Type 0 where
  pub socket : Option ℕ
  pub username : Bytes
  pub is_authenticated : Bool
  pub joined_rooms : List Bytes

-- ClientSession(socket)
abbrev pub new_session : Option ℕ → Session
new_session k = record { socket = k; username = []; is_authenticated = false; joined_rooms = [] }

abbrev pub set_username : Bytes → Session → Session
set_username username c = record c { username = username }

abbrev pub set_authenticated : Bool → Session → Session
set_authenticated b c = record c { is_authenticated = b }

-- A copy of the rooms.
abbrev pub get_joined_rooms : Session → List Bytes
get_joined_rooms c = c.joined_rooms

unfoldable pub session_join : Bytes → Session → Session
session_join room c = record c { joined_rooms = put bytes_discrete room c.joined_rooms }

unfoldable pub session_leave : Bytes → Session → Session
session_leave room c = record c { joined_rooms = remove bytes_discrete room c.joined_rooms }

unfoldable pub is_in_room : Bytes → Session → Bool
is_in_room room c = contains bytes_discrete room c.joined_rooms

-- Times are readings of steady_clock, in nanoseconds.
pub record ServerNode : Type 0 where
  pub server_id : ℤ
  pub host : Bytes
  pub port : ℤ
  pub socket : Option ℕ
  pub last_heartbeat : ℕ
  pub is_connected : Bool

-- ServerNode(serverId, host, port) at the time `now`
unfoldable pub new_node : ℤ → Bytes → ℤ → ℕ → ServerNode
new_node server_id host port now = record {
  server_id = server_id;
  host = host;
  port = port;
  socket = none;
  last_heartbeat = now;
  is_connected = false;
}

unfoldable pub update_heartbeat : ℕ → ServerNode → ServerNode
update_heartbeat now n = record n { last_heartbeat = now }

unfoldable pub set_connected : Bool → ServerNode → ServerNode
set_connected b n = record n { is_connected = b }

unfoldable pub set_socket : Option ℕ → ℕ → ServerNode → ServerNode
unfolding update_heartbeat
set_socket none now n = record n { socket = none; is_connected = false }
set_socket (some k) now n = update_heartbeat now (record n { socket = some k; is_connected = true })

pub record Connections : Type 0 where
  pub session_at : ℕ → Session
  pub node_at : ℕ → ServerNode
  pub socket_at : ℕ → TcpSocket
  pub next_session : ℕ
  pub next_node : ℕ
  pub next_socket : ℕ
  -- what steady_clock::now() returns
  pub now : ℕ
  pub sessions_by_socket : List (ℕ × ℕ)
  pub sessions_by_username : List (Bytes × ℕ)
  pub peer_nodes : List (ℤ × ℕ)
  pub peer_nodes_by_socket : List (ℕ × ℕ)

-- A write through a pointer.
abbrev pub update {ℓ} : {A : Type ℓ} → (ℕ → A) → ℕ → A → ℕ → A
update heap p a q = if p == q then a else heap q

abbrev pub modify_session : ℕ → (Session → Session) → Connections → Connections
modify_session r f c = record c { session_at = update c.session_at r (f (c.session_at r)) }

abbrev pub modify_node : ℕ → (ServerNode → ServerNode) → Connections → Connections
modify_node n f c = record c { node_at = update c.node_at n (f (c.node_at n)) }

-- socket->GetHandle()
abbrev pub handle_of : ℕ → Connections → ℕ
handle_of k c = (c.socket_at k).handle

-- socket->Close()
unfoldable pub close_socket : ℕ → Connections → Connections
close_socket k c = record c { socket_at = update c.socket_at k (close (c.socket_at k)).0 }

-- A session always has a socket: the listener makes one from what it accepted.
unfoldable pub add_session : ℕ → Connections → Connections
add_session r c = elim (c.session_at r).socket [
  | none ↦ c
  | some k ↦ record c {
    sessions_by_socket = insert ℕ_discrete (handle_of k c) r c.sessions_by_socket;
  }
]

unfoldable pub authenticate_session : ℕ → Bytes → Connections → Connections
authenticate_session r username c =
    record (modify_session r (λ x. set_authenticated true (set_username username x)) c) {
      sessions_by_username = insert bytes_discrete username r c.sessions_by_username;
    }

unfoldable pub remove_session : ℕ → Connections → Connections
remove_session socket c = elim (lookup ℕ_discrete socket c.sessions_by_socket) [
  | none ↦ c
  | some r ↦
      let username = (c.session_at r).username in
      record c {
        sessions_by_username =
            if is_empty username
            then c.sessions_by_username
            else erase bytes_discrete username c.sessions_by_username;
        sessions_by_socket = erase ℕ_discrete socket c.sessions_by_socket;
      }
]

unfoldable pub get_session_by_socket : ℕ → Connections → Option ℕ
get_session_by_socket socket c = lookup ℕ_discrete socket c.sessions_by_socket

unfoldable pub get_session_by_username : Bytes → Connections → Option ℕ
get_session_by_username username c = lookup bytes_discrete username c.sessions_by_username

unfoldable pub get_all_sessions : Connections → List ℕ
get_all_sessions c = values c.sessions_by_socket

unfoldable pub add_peer_node : ℕ → Connections → Connections
add_peer_node n c = record c {
  peer_nodes = insert ℤ_discrete (c.node_at n).server_id n c.peer_nodes;
}

-- The socket that stood there before is not closed here: the object's destructor, which would close
-- it once no pointer to it is left, is no part of the model.
unfoldable pub register_peer_socket : ℤ → ℕ → Connections → Connections
register_peer_socket server_id k c = elim (lookup ℤ_discrete server_id c.peer_nodes) [
  | none ↦ c
  | some n ↦ record (modify_node n (set_socket (some k) c.now) c) {
    peer_nodes_by_socket = insert ℕ_discrete (handle_of k c) n c.peer_nodes_by_socket;
  }
]

unfoldable pub unregister_peer_socket : ℤ → Connections → Connections
unregister_peer_socket server_id c = elim (lookup ℤ_discrete server_id c.peer_nodes) [
  | none ↦ c
  | some n ↦ record (modify_node n (set_socket none c.now) c) {
    peer_nodes_by_socket = elim (c.node_at n).socket [
      | none ↦ c.peer_nodes_by_socket
      | some k ↦ erase ℕ_discrete (handle_of k c) c.peer_nodes_by_socket
    ];
  }
]

unfoldable pub get_peer_node : ℤ → Connections → Option ℕ
get_peer_node server_id c = lookup ℤ_discrete server_id c.peer_nodes

unfoldable pub get_peer_node_by_socket : ℕ → Connections → Option ℕ
get_peer_node_by_socket socket c = lookup ℕ_discrete socket c.peer_nodes_by_socket

unfoldable pub get_all_peer_nodes : Connections → List ℕ
get_all_peer_nodes c = values c.peer_nodes
