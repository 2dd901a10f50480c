-- ===== src/Startup.antt =====
-- main_server.cpp: a server from its configuration file.
pub mod Peering
use distributed_chat_system.Prelude.{
  ℕ, zero, suc, ◌+◌, ◌-◌, ℤ, pos, negsuc, Bool, true, false, ◌&&◌, ◌||◌, Option, none, some, List,
  [], ◌∷◌, ◌++◌, if◌then◌else◌, leb, is_positive,
}
use distributed_chat_system.Text.{Bytes, codes, trim, bytes_discrete}
use distributed_chat_system.Text.Decimal.{to_string}
use distributed_chat_system.Networking.{TcpSocket}
use distributed_chat_system.Config.{ConfigManager, new_config, load, get_string, get_int}
use distributed_chat_system.Server.Connections.{
  Connections, Session, ServerNode, new_session, new_node,
}
use distributed_chat_system.Server.State.{ChatServer, Network}
use distributed_chat_system.Server.Links.{add_peer_config, start, stop}
use distributed_chat_system.Server.Events.{Engine}
use distributed_chat_system.Server.Loops.{Turn, run_server}

-- 9000 + serverId. Past the range of `int` the sum is undefined in C++; it is not cut off here.
unfoldable pub default_port : ℤ → ℤ
default_port (pos n) = pos (9000 + n)
default_port (negsuc n) = if leb (suc n) 9000 then pos (9000 - suc n) else negsuc (n - 9000)

-- No object stands on the heaps yet; what is read there before an allocation does not matter.
abbrev pub no_connections : ℕ → (ℕ → TcpSocket) → Connections
no_connections now sockets = record {
  session_at = λ r. new_session none;
  node_at = λ n. new_node (pos 0) [] (pos 0) now;
  socket_at = sockets;
  next_session = 0;
  next_node = 0;
  next_socket = 0;
  now = now;
  sessions_by_socket = [];
  sessions_by_username = [];
  peer_nodes = [];
  peer_nodes_by_socket = [];
}

-- ChatServer(serverId, port), with its listener, the time and the network to come.
unfoldable pub new_server : ℤ → ℤ → TcpSocket → ℕ → Network → ChatServer
new_server server_id port listener now network = record {
  server_id = server_id;
  port = port;
  running = false;
  heartbeat_running = false;
  listener = listener;
  connections = no_connections now (λ k. listener);
  users = record { user_locations = []; local_server_id = server_id };
  rooms = record { rooms = [] };
  peer_configs = [];
  network = network;
}

unfoldable pub prefix : ℕ → Bytes
prefix i = codes "peer_" ++ (to_string (pos i) ++ codes "_")

unfoldable pub peer_id : ConfigManager → ℕ → ℤ
peer_id m i = get_int (prefix i ++ codes "id") (pos 0) m

unfoldable pub peer_host : ConfigManager → ℕ → Bytes
peer_host m i = get_string (prefix i ++ codes "host") (codes "127.0.0.1") m

unfoldable pub peer_port : ConfigManager → ℕ → ℤ
peer_port m i = get_int (prefix i ++ codes "port") (pos 0) m

-- The body of the loop over the peers.
unfoldable pub add_peer : ConfigManager → ℕ → ChatServer → ChatServer
add_peer m i s =
    if is_positive (peer_id m i) && is_positive (peer_port m i)
    then add_peer_config (peer_id m i) (peer_host m i) (peer_port m i) s
    else s

-- `for (int i = 1; i <= peerCount; ++i)`: the first argument counts the rounds that are left.
unfoldable pub add_peers : ℕ → ℕ → ConfigManager → ChatServer → ChatServer
unfolding add_peer
add_peers zero i m s = s
add_peers (suc left) i m s = add_peers left (suc i) m (add_peer m i s)

unfoldable pub rounds : ℤ → ℕ
rounds (pos n) = n
rounds (negsuc n) = 0

unfoldable pub server_id_of : ConfigManager → ℤ
server_id_of m = get_int (codes "server_id") (pos 1) m

-- The server that `main` makes of a configuration, before Start.
unfoldable pub configure : ConfigManager → TcpSocket → ℕ → Network → ChatServer
unfolding add_peers new_server server_id_of
configure m listener now network =
    let id = server_id_of m in
    let port = get_int (codes "port") (default_port id) m in
    add_peers (rounds (get_int (codes "peer_count") (pos 0) m)) 1 m
      (new_server id port listener now network)

-- `main` up to the loop over std::cin: `none` is a return of 1. `bound` and `listening` are the
-- system's answers on the listener.
unfoldable pub boot : Option Bytes → TcpSocket → ℕ → Network → Bool → Bool → Option ChatServer
unfolding configure
boot file listener now network bound listening =
    let (m, ok) = load file new_config in
    let (s, started) = start bound listening (configure m listener now network) in
    if ok then if started then some s else none else none

abbrev pub is_exit : Bytes → Bool
is_exit cmd =
    elim (bytes_discrete cmd (codes "exit")) [ yes e ↦ true | no e ↦ false ]
    || elim (bytes_discrete cmd (codes "quit")) [ yes e ↦ true | no e ↦ false ]

-- The server with the threads of its pool, none of them in a task: `poolThreads` is left at its 4.
abbrev pub with_pool : ChatServer → Engine
with_pool s = record { server = s; threads = 4; tasks = []; held = [] }

-- The loop over std::cin and Stop after it, with the rounds that the server's threads are through
-- with when each line is read. The answer is whether the program got to its end.
unfoldable pub serve_until_exit : List (List Turn × Bytes) → Engine → Engine × Bool
serve_until_exit [] e = (e, false)
serve_until_exit ((turns, cmd) ∷ rest) e =
    let now = run_server turns e in
    let later = serve_until_exit rest now in
    if is_exit (trim cmd) then (record now { server = stop now.server }, true) else later
