-- ===== src/Server/Events.antt =====
-- server/ChatServer with core/threading/ThreadPool: what can happen to a running server, one event
-- at a time. The listener puts packets on the queue of the pool, a worker takes the first task off
-- it, and the tasks that the workers hold end in any order.
pub mod Keeps
pub mod Consistency
pub mod PeerPackets
pub mod LinkEvents
pub mod Invariant
pub mod Workers
pub mod LoginRace
use distributed_chat_system.Prelude.{
  ℕ, ◌+◌, ◌<◌, ◌≡◌, Bool, Option, none, some, List, [], ◌∷◌, ◌++◌, length,
}
use distributed_chat_system.Protocol.{RawPacket}
use distributed_chat_system.Server.Connections.{Connections, handle_of}
use distributed_chat_system.Server.State.{ChatServer, PeerConfig, handle_peer_disconnect}
use distributed_chat_system.Server.Clients.{handle_client_packet}
use distributed_chat_system.Server.Peers.{handle_server_packet}
use distributed_chat_system.Server.Heartbeat.{check_peer}
use distributed_chat_system.Server.Links.{accept_client, lose_client, connect_peer, stop}

-- The two closures that the listener enqueues.
pub data Task : Type 0 where
  client_task : ℕ → RawPacket → Task
  peer_task : ℕ → RawPacket → Task

-- A server with its pool: `tasks` is m_tasks, `held` are the tasks that workers have taken.
pub record Engine : Type 0 where
  pub server : ChatServer
  pub threads : ℕ
  pub tasks : List Task
  pub held : List Task

unfoldable pub enqueue : Task → Engine → Engine
enqueue t e = record e { tasks = e.tasks ++ t ∷ [] }

unfoldable pub run_task : Task → ChatServer → ChatServer
run_task (client_task r packet) s = handle_client_packet r packet s
run_task (peer_task n packet) s = handle_server_packet n packet s

-- What ReadPacket returned for a client that select reported.
unfoldable pub read_client : ℕ → Option RawPacket → Engine → Engine
unfolding enqueue
read_client r (some packet) e = enqueue (client_task r packet) e
read_client r none e = elim (e.server.connections.session_at r).socket [
  | none ↦ e
  | some k ↦ record e { server = lose_client r (handle_of k e.server.connections) e.server }
]

-- The same for a peer.
unfoldable pub read_peer : ℕ → Option RawPacket → Engine → Engine
unfolding enqueue
read_peer n (some packet) e = enqueue (peer_task n packet) e
read_peer n none e = record e {
  server = handle_peer_disconnect (e.server.connections.node_at n).server_id e.server;
}

-- The passing of time.
abbrev pub wait : ℕ → ChatServer → ChatServer
wait d s = record s { connections = record s.connections { now = s.connections.now + d } }

pub data Step : Engine → Engine → Type 0 where
  accepts :
      (e : Engine) (incoming : ℕ) → Step e (record e { server = accept_client incoming e.server })
  reads_client :
      (e : Engine) (r : ℕ) (answer : Option RawPacket)
      → r < e.server.connections.next_session
      → Step e (read_client r answer e)
  reads_peer : (e : Engine) (n : ℕ) (answer : Option RawPacket) → Step e (read_peer n answer e)
  takes :
      (e : Engine) (t : Task) (rest : List Task)
      → e.tasks ≡ t ∷ rest
      → length e.held < e.threads
      → Step e (record e { tasks = rest; held = e.held ++ t ∷ [] })
  runs :
      (e : Engine) (before : List Task) (t : Task) (after : List Task)
      → e.held ≡ before ++ t ∷ after
      → Step e (record e { server = run_task t e.server; held = before ++ after })
  connects :
      (e : Engine) (config : PeerConfig) (handle : ℕ) (resolved : Option (List Bool))
      → Step e (record e { server = connect_peer config handle resolved e.server })
  checks : (e : Engine) (now n : ℕ) → Step e (record e { server = check_peer now n e.server })
  waits : (e : Engine) (d : ℕ) → Step e (record e { server = wait d e.server })
  stops : (e : Engine) → Step e (record e { server = stop e.server })

-- What can come of an engine.
pub data Reaches (e : Engine) : Engine → Type 0 where
  here : Reaches e e
  next : {f g : Engine} → Reaches e f → Step f g → Reaches e g
