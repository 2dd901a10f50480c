-- ===== src/Tests/Scene.antt =====
-- Server 1 with alice signed on (session 0, socket 0), a raw connection (session 1, socket 1), and
-- server 2 as a peer (node 0): connected by socket 2 in `scene`, not connected in `alone`.
use distributed_chat_system.Prelude.{
  ℕ, ◌*◌, ◌^◌, pos, none, some, List, [], ◌∷◌, if◌then◌else◌, ◌==◌, true, false,
}
use distributed_chat_system.Text.{Bytes, codes}
use distributed_chat_system.Networking.{Answers, fails, would_block, moves, new_socket}
use distributed_chat_system.Server.Connections.{Session, ServerNode, Connections, new_session}
use distributed_chat_system.Server.State.{ChatServer, Sent}

abbrev pub alice : Bytes
alice = codes "alice"

abbrev pub bob : Bytes
bob = codes "bob"

abbrev pub lobby : Bytes
lobby = codes "lobby"

abbrev pub hello : Bytes
hello = codes "hello"

-- The system blocks once and then takes all.
abbrev pub taking : List Sent → ℕ → Bytes → Answers
taking wire k frame = would_block (moves 2 (moves 1000 fails))

abbrev pub alice_session : Session
alice_session = record {
  socket = some 0;
  username = alice;
  is_authenticated = true;
  joined_rooms = lobby ∷ [];
}

abbrev pub peer_node : ServerNode
peer_node = record {
  server_id = pos 2;
  host = codes "127.0.0.1";
  port = pos 9002;
  socket = some 2;
  last_heartbeat = 7;
  is_connected = true;
}

abbrev pub connections : Connections
connections = record {
  session_at = λ r. if r == 0 then alice_session else new_session (some 1);
  node_at = λ n. peer_node;
  socket_at = λ k. new_socket (if k == 0 then 100 else if k == 1 then 101 else 102);
  next_session = 2;
  next_node = 1;
  next_socket = 3;
  now = 16 * 10 ^ 9;
  sessions_by_socket = (100, 0) ∷ (101, 1) ∷ [];
  sessions_by_username = (alice, 0) ∷ [];
  peer_nodes = (pos 2, 0) ∷ [];
  peer_nodes_by_socket = (102, 0) ∷ [];
}

-- bob is at server 2, carol at no server.
abbrev pub scene : ChatServer
scene = record {
  server_id = pos 1;
  port = pos 9001;
  running = true;
  heartbeat_running = true;
  listener = new_socket 99;
  connections = connections;
  users = record { user_locations = (alice, pos 1) ∷ (bob, pos 2) ∷ []; local_server_id = pos 1 };
  rooms = record {
    rooms = (lobby, record { local_members = alice ∷ []; remote_servers = pos 2 ∷ [] }) ∷ [];
  };
  peer_configs = [];
  network = record { answers = taking; wire = [] };
}

abbrev pub alone : ChatServer
alone = record scene {
  connections = record connections {
    node_at = λ n. record peer_node { socket = none; is_connected = false };
  };
}
