-- ===== src/Server/Events/Invariant.antt =====
-- Every event keeps a server consistent, so a server that can be reached is.
use distributed_chat_system.Prelude.{
  ℕ, ◌≤◌, ◌<◌, refl, subst, Option, none, some, List, [], ◌∷◌, ◌++◌, arith, Option-cases, inl, inr,
  All, All-append,
}
use distributed_chat_system.Protocol.{RawPacket}
use distributed_chat_system.Server.State.{ChatServer}
use distributed_chat_system.Server.Replication.Spares.{handle_peer_disconnect-Spares}
use distributed_chat_system.Server.Links.{accept_client, stop}
use distributed_chat_system.Server.Events.{
  Task, client_task, peer_task, Engine, enqueue, run_task, read_client, read_peer, Step, accepts,
  reads_client, reads_peer, takes, runs, connects, checks, waits, stops, Reaches, here, next,
}
use distributed_chat_system.Server.Events.Keeps.{IsConsistent, Keeps, Spares-Keeps}
use distributed_chat_system.Server.Events.LinkEvents.{
  lose_client-Keeps, connect_peer-Keeps, check_peer-Keeps, admit-Keeps, stop-Keeps,
}
use distributed_chat_system.Server.Events.PeerPackets.{same-Keeps, handle_server_packet-Keeps}
use distributed_chat_system.Server.Events.Consistency.{handle_client_packet-Keeps}

-- The session of a task exists.
abbrev pub IsReady : ℕ → Task → Type 0
IsReady count (client_task r packet) = r < count
IsReady count (peer_task n packet) = Unit

IsReady-le : (a b : ℕ) (ts : List Task) → a ≤ b → All (IsReady a) ts → All (IsReady b) ts
IsReady-le a b [] more h = tt
IsReady-le a b (client_task r packet ∷ ts) more h = (omega (arith, h.0), IsReady-le a b ts more h.1)
IsReady-le a b (peer_task n packet ∷ ts) more h = (tt, IsReady-le a b ts more h.1)

pub run_task-Keeps :
    (t : Task) (s : ChatServer) → IsReady s.connections.next_session t → Keeps s (run_task t s)
unfolding run_task
run_task-Keeps (client_task r packet) s h = handle_client_packet-Keeps r packet s h
run_task-Keeps (peer_task n packet) s h = handle_server_packet-Keeps n packet s

-- A consistent server whose tasks are all about sessions that exist.
pub record IsSteady (e : Engine) : Type 0 where
  pub server : IsConsistent e.server
  pub tasks : All (IsReady e.server.connections.next_session) e.tasks
  pub held : All (IsReady e.server.connections.next_session) e.held

IsSteady-Keeps :
    (e : Engine) (t : ChatServer)
    → Keeps e.server t
    → IsSteady e
    → IsSteady (record e { server = t })
IsSteady-Keeps e t k h = record {
  server = k.consistent h.server;
  tasks = IsReady-le _ _ e.tasks k.allocated h.tasks;
  held = IsReady-le _ _ e.held k.allocated h.held;
}

enqueue-IsSteady :
    (t : Task) (e : Engine)
    → IsReady e.server.connections.next_session t
    → IsSteady e
    → IsSteady (enqueue t e)
unfolding enqueue
enqueue-IsSteady t e ready h = record {
  server = h.server;
  tasks = All-append _ e.tasks (t ∷ []) h.tasks (ready, tt);
  held = h.held;
}

read_client-IsSteady :
    (r : ℕ) (answer : Option RawPacket) (e : Engine)
    → r < e.server.connections.next_session
    → IsSteady e
    → IsSteady (read_client r answer e)
unfolding read_client
read_client-IsSteady r (some packet) e there h = enqueue-IsSteady (client_task r packet) e there h
read_client-IsSteady r none e there h =
    elim (Option-cases (e.server.connections.session_at r).socket) [
      | inl none' ↦ rw (none', read_client) h
      | inr (k, found) ↦
          rw (found, read_client) (IsSteady-Keeps e _ (lose_client-Keeps r _ e.server) h)
    ]

read_peer-IsSteady :
    (n : ℕ) (answer : Option RawPacket) (e : Engine) → IsSteady e → IsSteady (read_peer n answer e)
unfolding read_peer
read_peer-IsSteady n (some packet) e h = enqueue-IsSteady (peer_task n packet) e tt h
read_peer-IsSteady n none e h =
    IsSteady-Keeps e _ (Spares-Keeps (handle_peer_disconnect-Spares _ e.server)) h

-- The parts of a list of ready tasks.
pub middle-IsReady :
    (count : ℕ) (before : List Task) (t : Task) (after : List Task)
    → All (IsReady count) (before ++ t ∷ after)
    → IsReady count t × All (IsReady count) (before ++ after)
middle-IsReady count [] t after h = h
middle-IsReady count (b ∷ before) t after h =
    let m = middle-IsReady count before t after h.1 in (m.0, (h.0, m.1))

Step-IsSteady : {e f : Engine} → Step e f → IsSteady e → IsSteady f
Step-IsSteady (accepts e incoming) h =
    IsSteady-Keeps e _ (unfold accept_client in admit-Keeps _ e.server) h
Step-IsSteady (reads_client e r answer there) h = read_client-IsSteady r answer e there h
Step-IsSteady (reads_peer e n answer) h = read_peer-IsSteady n answer e h
Step-IsSteady (takes e t rest first room) h =
    let ready = subst (All (IsReady e.server.connections.next_session)) first h.tasks in
    record {
      server = h.server;
      tasks = ready.1;
      held = All-append _ e.held (t ∷ []) h.held (ready.0, tt);
    }
Step-IsSteady (runs e before t after among) h =
    let ready =
      middle-IsReady e.server.connections.next_session before t after
        (subst (All (IsReady e.server.connections.next_session)) among h.held) in
    IsSteady-Keeps (record e { held = before ++ after }) (run_task t e.server)
      (run_task-Keeps t e.server ready.0)
      (record { server = h.server; tasks = h.tasks; held = ready.1 })
Step-IsSteady (connects e config handle resolved) h =
    IsSteady-Keeps e _ (connect_peer-Keeps config handle resolved e.server) h
Step-IsSteady (checks e now n) h = IsSteady-Keeps e _ (check_peer-Keeps now n e.server) h
Step-IsSteady (waits e d) h = IsSteady-Keeps e _ (same-Keeps _ e.server refl refl refl refl refl) h
Step-IsSteady (stops e) h =
    let s = record e.server { running = (stop e.server).running } in
    IsSteady-Keeps (record e { server = s }) (stop e.server) (stop-Keeps e.server)
      (record {
        server = record {
          sound = record {
            not_own_peer = h.server.sound.not_own_peer;
            table = h.server.sound.table;
          };
          listed = h.server.listed;
          named = h.server.named;
        };
        tasks = h.tasks;
        held = h.held;
      })

-- Whatever happens to a server that starts out so, in any order of its packets, tasks, losses,
-- reconnections and checks: every session that a table lists exists, a name only ever leads to one that
-- has logged in, the
-- table of users has no name twice, the server is never its own peer, and every task about a
-- session is about one that exists.
pub Reaches-IsSteady : {e f : Engine} → Reaches e f → IsSteady e → IsSteady f
Reaches-IsSteady here h = h
Reaches-IsSteady (next before last) h = Step-IsSteady last (Reaches-IsSteady before h)
