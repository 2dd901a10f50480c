-- ===== src/Server/Loops/Running.antt =====
-- Which events keep a server running: all but Stop.
use distributed_chat_system.Prelude.{
  ◌≡◌, refl, ◌∙◌, subst, Bool, true, false, Option, none, some, Option-cases, inl, inr, All,
}
use distributed_chat_system.Protocol.{RawPacket}
use distributed_chat_system.Server.Replication.Spares.{handle_peer_disconnect-Spares}
use distributed_chat_system.Server.Links.{accept_client}
use distributed_chat_system.Server.Events.{
  Engine, enqueue, read_client, read_peer, Step, accepts, reads_client, reads_peer, takes, runs,
  connects, checks, waits, stops, Reaches, here, next,
}
use distributed_chat_system.Server.Events.LinkEvents.{
  lose_client-Keeps, connect_peer-Keeps, check_peer-Keeps, admit-Keeps,
}
use distributed_chat_system.Server.Events.Invariant.{
  IsReady, IsSteady, Reaches-IsSteady, run_task-Keeps, middle-IsReady,
}

abbrev pub is_other : {e f : Engine} → Step e f → Bool
is_other (accepts e incoming) = true
is_other (reads_client e r answer there) = true
is_other (reads_peer e n answer) = true
is_other (takes e t rest first room) = true
is_other (runs e before t after among) = true
is_other (connects e config handle resolved) = true
is_other (checks e now n) = true
is_other (waits e d) = true
is_other (stops e) = false

-- What can come of an engine that nobody stops.
pub data Unstopped (e : Engine) : Engine → Type 0 where
  at_rest : Unstopped e e
  and_then : {f g : Engine} → Unstopped e f → (x : Step f g) → is_other x ≡ true → Unstopped e g

pub Unstopped-trans : {e f g : Engine} → Unstopped e f → Unstopped f g → Unstopped e g
Unstopped-trans p at_rest = p
Unstopped-trans p (and_then q x o) = and_then (Unstopped-trans p q) x o

pub Unstopped-Reaches : {e f : Engine} → Unstopped e f → Reaches e f
Unstopped-Reaches at_rest = here
Unstopped-Reaches (and_then p x o) = next (Unstopped-Reaches p) x

read_client_runs :
    (r : _) (answer : Option RawPacket) (e : Engine)
    → (read_client r answer e).server.running ≡ e.server.running
unfolding read_client enqueue
read_client_runs r (some packet) e = refl
read_client_runs r none e = elim (Option-cases (e.server.connections.session_at r).socket) [
  | inl gone ↦ rw (gone, read_client) refl
  | inr (k, found) ↦ rw (found, read_client) (lose_client-Keeps r _ e.server).running
]

read_peer_runs :
    (n : _) (answer : Option RawPacket) (e : Engine)
    → (read_peer n answer e).server.running ≡ e.server.running
unfolding read_peer enqueue
read_peer_runs n (some packet) e = refl
read_peer_runs n none e = (handle_peer_disconnect-Spares _ e.server).running

Step-running :
    {e f : Engine} (x : Step e f)
    → is_other x ≡ true
    → IsSteady e
    → f.server.running ≡ e.server.running
Step-running (accepts e incoming) o h = unfold accept_client in (admit-Keeps _ e.server).running
Step-running (reads_client e r answer there) o h = read_client_runs r answer e
Step-running (reads_peer e n answer) o h = read_peer_runs n answer e
Step-running (takes e t rest first room) o h = refl
Step-running (runs e before t after among) o h =
    let ready =
      middle-IsReady e.server.connections.next_session before t after
        (subst (All (IsReady e.server.connections.next_session)) among h.held) in
    (run_task-Keeps t e.server ready.0).running
Step-running (connects e config handle resolved) o h =
    (connect_peer-Keeps config handle resolved e.server).running
Step-running (checks e now n) o h = (check_peer-Keeps now n e.server).running
Step-running (waits e d) o h = refl
Step-running (stops e) o h = absurd (cc o)

pub Unstopped-running :
    {e f : Engine} → Unstopped e f → IsSteady e → f.server.running ≡ e.server.running
Unstopped-running at_rest h = refl
Unstopped-running (and_then p x o) h =
    Step-running x o (Reaches-IsSteady (Unstopped-Reaches p) h) ∙ Unstopped-running p h
