-- ===== src/Tests/Mains.antt =====
-- Links between servers that come up, and the two programs, from their start to their end.
use distributed_chat_system.Prelude.{
  ◌≡◌, refl, [], ◌∷◌, ◌++◌, List, some, none, true, false, arith, pos, ℤ_discrete, Option, for_each,
  Bool,
}
use distributed_chat_system.Text.{Bytes, codes, bytes_discrete, trim, is_blank, split}
use distributed_chat_system.Text.Decimal.{stoi, to_string}
use distributed_chat_system.Dict.{lookup, insert}
use distributed_chat_system.Networking.{
  Answers, Feed, fails, moves, would_block, new_socket, connect, accept,
}
use distributed_chat_system.Protocol.{login, serialize}
use distributed_chat_system.Config.{new_config, load, get_int, get_string}
use distributed_chat_system.Server.Connections.{
  ServerNode, get_peer_node, get_session_by_username, get_session_by_socket, get_all_peer_nodes,
  get_all_sessions, add_session, add_peer_node, new_node,
}
use distributed_chat_system.Server.State.{ChatServer, PeerConfig}
use distributed_chat_system.Server.State.Sends.{sends}
use distributed_chat_system.Server.Users.{is_user_online}
use distributed_chat_system.Server.Users.Refinement.{location}
use distributed_chat_system.Server.Clients.{handle_client_packet, handle_login, is_bad_name}
use distributed_chat_system.Server.Clients.Login.{SignsOn}
use distributed_chat_system.Server.Clients.Promotion.{Promoted}
use distributed_chat_system.Server.Links.{connect_peer, stop, accept_client, add_peer_config}
use distributed_chat_system.Server.Links.Stopping.{IsHalted}
use distributed_chat_system.Server.Events.Keeps.{IsConsistent}
use distributed_chat_system.Cluster.Linking.{
  Connected, introduction, handshake, peers_link, late_link_admits_twice,
}
use distributed_chat_system.Client.{lose_connection, print}
use distributed_chat_system.Console.{Command, exit_app, broadcast}
use distributed_chat_system.Console.Typing.{typed}
use distributed_chat_system.Server.Loops.{Turn, listens, ready, run_server}
use distributed_chat_system.Startup.{
  with_pool, configure, rounds, peer_id, prefix, peer_port, peer_host, server_id_of,
}
use distributed_chat_system.Startup.Peering.{started}
use distributed_chat_system.Programs.{returns, terminates}
use distributed_chat_system.Programs.Orders.{order_frames, typed_orders}
use distributed_chat_system.Programs.ServerMain.{Machine, active_banner, server_main}
use distributed_chat_system.Programs.ServerRuns.{PeersAreOthers, server_main-halts}
use distributed_chat_system.Programs.ClientMain.{Surroundings, client_main}
use distributed_chat_system.Programs.ClientRuns.{opening, session_sends, loss_terminates}
use distributed_chat_system.Tests.Scene.{alice, bob, hello, scene, alone, connections, peer_node}

-- Two servers that know each other and are not linked: bob is on the second, alice on the first.
abbrev server_one : ChatServer
server_one = record alone {
  users = record { user_locations = (alice, pos 1) ∷ []; local_server_id = pos 1 };
}

abbrev node_of_one : ServerNode
node_of_one = record peer_node { server_id = pos 1; socket = none; is_connected = false }

abbrev server_two : ChatServer
server_two = record alone {
  server_id = pos 2;
  connections = record connections {
    node_at = λ n. node_of_one;
    peer_nodes = (pos 1, 0) ∷ [];
    peer_nodes_by_socket = [];
  };
  users = record { user_locations = (bob, pos 2) ∷ []; local_server_id = pos 2 };
}

abbrev to_first : PeerConfig
to_first = record { id = pos 1; host = codes "127.0.0.1"; port = pos 9001 }

abbrev resolved : Option (List Bool)
resolved = some (false ∷ true ∷ [])

peers_link_example :
    Connected 0 server_two (connect_peer to_first 55 resolved server_two)
    × Promoted (pos 2) 0 1 server_one (handle_client_packet 1 (introduction server_two) server_one)
unfolding get_peer_node lookup ℤ_discrete connect
peers_link_example =
    peers_link to_first 55 0 1 1 0 resolved server_two server_one refl refl refl (omega arith) refl
      refl

server_one-IsConsistent : IsConsistent server_one
unfolding get_session_by_username
server_one-IsConsistent = record {
  sound =
      unfold get_peer_node lookup ℤ_discrete bytes_discrete in
      record { not_own_peer = refl; table = (refl, tt) };
  listed = omega arith;
  named = λ name r e. unfold lookup in ground arith;
}

late_link_admits_twice_example :
    let a = connect_peer to_first 55 resolved server_two in
    let linked = handle_client_packet 1 (introduction server_two) server_one in
    (sends a ≡ sends server_two ++ handshake 3 server_two)
    × (location a.users (trim bob) ≡ some (pos 2))
    × SignsOn 0 (trim bob) linked (handle_login 0 bob linked)
unfolding get_peer_node lookup ℤ_discrete bytes_discrete connect trim is_bad_name is_user_online
late_link_admits_twice_example =
    late_link_admits_twice to_first 55 0 1 0 1 0 resolved bob server_two server_one refl refl refl
      (omega arith) refl refl (omega arith) server_one-IsConsistent refl refl refl

abbrev machine : Machine
machine = record {
  files = λ path. some (codes "server_id = 1\npeer_count=1\npeer_1_id = 2\npeer_1_port = 9002\n");
  listener = new_socket 99;
  bound = true;
  listening = true;
  last_error = pos 0;
  now = 5;
  network = scene.network;
}

abbrev nothing : Feed
nothing = record { answers = fails; stream = [] }

abbrev described : ChatServer
described =
    started
      (load (some (codes "server_id = 1\npeer_count=1\npeer_1_id = 2\npeer_1_port = 9002\n"))
        new_config).0
      (new_socket 99) 5 scene.network

-- The listener accepts a client.
abbrev arrival : List Turn
arrival =
    listens (record { activity = ready (λ handle. true); incoming = 71; feeds = λ k. nothing }) ∷ []

abbrev visited : ChatServer
visited = (run_server arrival (with_pool described)).server

visited_session : get_session_by_socket 71 visited.connections ≡ some 0
unfolding run_server get_session_by_socket lookup for_each get_all_peer_nodes configure rounds
    get_int load split trim insert bytes_discrete stoi peer_id prefix to_string peer_port
    add_peer_config add_peer_node get_all_sessions add_session peer_host get_string accept
    accept_client new_node
visited_session = refl

peers_are_others :
    PeersAreOthers machine
      (codes "server_id = 1\npeer_count=1\npeer_1_id = 2\npeer_1_port = 9002\n")
unfolding load server_id_of get_int stoi peer_id prefix rounds lookup bytes_discrete to_string
    for_each split trim insert
peers_are_others = (λ e. cc, tt)

server_main-halts_example :
    let run = server_main [] machine ((arrival, hello) ∷ ([], codes " exit") ∷ []) in
    (run.outcome ≡ returns 0)
    × (run.printed ≡ active_banner described.server_id)
    × (run.server ≡ some (stop visited))
    × IsHalted visited (stop visited)
unfolding trim bytes_discrete
server_main-halts_example =
    server_main-halts [] machine
      (codes "server_id = 1\npeer_count=1\npeer_1_id = 2\npeer_1_port = 9002\n")
      ((arrival, hello) ∷ []) [] (codes " exit") [] refl refl refl refl (refl, tt) refl
      peers_are_others (refl, tt)

abbrev some_text : Bytes
some_text = codes "Login success: Welcome\n"

abbrev desk : Surroundings
desk = record {
  socket = new_socket 31;
  resolved = λ host port. some (true ∷ []);
  meanwhile = print some_text;
}

abbrev patient : Answers
patient = moves 3 (
    would_block (
      moves 200 (
        moves 3 (
          moves 3 (
            moves 3 (moves 3 (moves 3 (moves 3 (moves 3 (moves 3 (moves 3 (moves 3 fails))))))))))))

abbrev orders : List (Command × Answers)
orders = (broadcast hello, patient) ∷ []

session_sends_example :
    let run =
      client_main desk
        (opening [] [] alice patient (typed_orders orders ++ (typed exit_app, patient) ∷ [])) in
    (run.outcome ≡ returns 0)
    × (run.client.sent ≡ serialize login (trim alice) ++ order_frames orders)
    × (run.client.socket.is_closed ≡ true)
unfolding trim is_blank connect
session_sends_example =
    session_sends desk [] [] alice some_text patient patient orders [] refl refl refl
      (tt, omega arith) (omega arith) (λ c. refl)
      (
        (record { some_byte = refl; starts = refl; ends = refl }, ((tt, omega arith), omega arith)),
        tt,
      )

abbrev lossy : Surroundings
lossy = record desk { meanwhile = lose_connection }

loss_terminates_example : (client_main lossy (opening [] [] alice patient [])).outcome ≡ terminates
unfolding trim is_blank connect
loss_terminates_example =
    loss_terminates lossy [] [] alice patient [] refl refl refl (tt, omega arith) (omega arith)
      (λ c. refl)
