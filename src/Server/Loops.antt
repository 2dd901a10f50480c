-- ===== src/Server/Loops.antt =====
-- server/ChatServer.cpp, ListenerLoop and PeerConnectorLoop, server/HeartbeatManager.cpp,
-- HeartbeatLoop, and core/threading/ThreadPool.cpp, the loop of a worker: what each thread does
-- in one round. A run of the server is a list of such rounds.
pub mod Running
pub mod Threads
pub mod Rounds
pub mod Overtaking
use distributed_chat_system.Prelude.{
  ℕ, zero, suc, Bool, Option, none, some, List, [], ◌∷◌, ◌++◌, if◌then◌else◌, length, ltb, leb,
  for_each, ◌^◌, ◌*◌,
}
use distributed_chat_system.Networking.{Feed, is_valid}
use distributed_chat_system.Protocol.{RawPacket, read_packet}
use distributed_chat_system.Server.Connections.{
  Connections, handle_of, get_all_sessions, get_all_peer_nodes,
}
use distributed_chat_system.Server.State.{ChatServer, PeerConfig}
use distributed_chat_system.Server.Heartbeat.{heartbeat_turn}
use distributed_chat_system.Server.Links.{accept_client, connect_peer, stop}
use distributed_chat_system.Server.Events.{Task, Engine, run_task, read_client, read_peer, wait}

-- What `select` returned: SOCKET_ERROR, 0, or the set of handles that it left.
pub data Activity : Type 0 where
  select_failed : Activity
  no_activity : Activity
  ready : (ℕ → Bool) → Activity

-- The system's part of one round of the listener: the answer of `select`, the handle that `accept`
-- returns, and what can be received on each socket.
pub record Readiness : Type 0 where
  pub activity : Activity
  pub incoming : ℕ
  pub feeds : ℕ → Feed

-- MessageSerializer::ReadPacket on a socket
abbrev pub received : (ℕ → Feed) → ℕ → Connections → Option RawPacket
received feeds k c = (read_packet (is_valid (c.socket_at k)) (feeds k)).0

-- The round of the second loop of the listener, for one session of the list taken before.
unfoldable pub serve_session : (ℕ → Bool) → (ℕ → Feed) → ℕ → Engine → Engine
serve_session set feeds r e = elim (e.server.connections.session_at r).socket [
  | none ↦ e
  | some k ↦
      if set (handle_of k e.server.connections)
      then read_client r (received feeds k e.server.connections) e
      else e
]

-- The round of the third loop, for one peer.
unfoldable pub serve_peer : (ℕ → Bool) → (ℕ → Feed) → ℕ → Engine → Engine
serve_peer set feeds n e =
    if (e.server.connections.node_at n).is_connected
    then elim (e.server.connections.node_at n).socket [
      | none ↦ e
      | some k ↦
          if set (handle_of k e.server.connections)
          then read_peer n (received feeds k e.server.connections) e
          else e
    ]
    else e

-- `if (FD_ISSET(m_listenerSocket->GetHandle(), &readfds))`
unfoldable pub serve_listener : (ℕ → Bool) → ℕ → Engine → Engine
serve_listener set incoming e =
    if set e.server.listener.handle
    then record e { server = accept_client incoming e.server }
    else e

-- The lists of sessions and of peers are taken before `select`, so before the accept.
unfoldable pub serve : (ℕ → Bool) → ℕ → (ℕ → Feed) → Engine → Engine
unfolding serve_listener serve_session serve_peer
serve set incoming feeds e =
    for_each (get_all_peer_nodes e.server.connections) (serve_peer set feeds) (
      for_each (get_all_sessions e.server.connections) (serve_session set feeds)
        (serve_listener set incoming e))

unfoldable pub react : Readiness → Activity → Engine → Engine
unfolding serve
react w select_failed e = e
react w no_activity e = e
react w (ready set) e = serve set w.incoming w.feeds e

-- One round of ListenerLoop, with the test of `m_running` before it.
unfoldable pub listener_round : Readiness → Engine → Engine
unfolding react
listener_round w e = if e.server.running then react w w.activity e else e

-- The system's answers to the attempts of a round of the connector: the handle of a new socket and
-- what it connects to, by the address of the socket.
abbrev pub Attempts : Type 0
Attempts = ℕ → ℕ × Option (List Bool)

unfoldable pub attempt : Attempts → PeerConfig → ChatServer → ChatServer
attempt answers config s =
    let (handle, resolved) = answers s.connections.next_socket in
    connect_peer config handle resolved s

-- One round of PeerConnectorLoop.
unfoldable pub connector_round : Attempts → ChatServer → ChatServer
unfolding attempt
connector_round answers s = if s.running then for_each s.peer_configs (attempt answers) s else s

-- A worker takes the first task off the queue.
unfoldable pub take_task : List Task → Engine → Engine
take_task [] e = e
take_task (t ∷ rest) e =
    if ltb (length e.held) e.threads then record e { tasks = rest; held = e.held ++ t ∷ [] } else e

-- The task in place `i` of a list, and the others.
unfoldable pub pick : ℕ → List Task → Option (Task × List Task)
pick i [] = none
pick zero (t ∷ ts) = some (t, ts)
pick (suc i) (t ∷ ts) = elim (pick i ts) [ none ↦ none | some found ↦ some (found.0, t ∷ found.1) ]

-- The worker that holds the task in place `i` runs it to its end.
unfoldable pub finish_task : ℕ → Engine → Engine
unfolding pick
finish_task i e = elim (pick i e.held) [
  | none ↦ e
  | some found ↦ record e { server = run_task found.0 e.server; held = found.1 }
]

-- Which thread goes next, with what the system answers it.
pub data Turn : Type 0 where
  listens : Readiness → Turn
  reconnects : Attempts → Turn
  beats : Turn
  takes_task : Turn
  finishes : ℕ → Turn
  passes : ℕ → Turn
  is_stopped : Turn

unfoldable pub turn : Turn → Engine → Engine
unfolding listener_round connector_round heartbeat_turn take_task finish_task
turn (listens w) e = listener_round w e
turn (reconnects answers) e = record e { server = connector_round answers e.server }
turn beats e = record e { server = heartbeat_turn e.server }
turn takes_task e = take_task e.tasks e
turn (finishes i) e = finish_task i e
turn (passes d) e = record e { server = wait d e.server }
turn is_stopped e = record e { server = stop e.server }

unfoldable pub run_server : List Turn → Engine → Engine
unfolding turn
run_server turns e = for_each turns turn e
