-- ===== src/Server/Events/Workers.antt =====
-- The workers of the pool: how many tasks they hold, and that they can finish all of them.
use distributed_chat_system.Prelude.{
  ℕ, ◌≤◌, ◌<◌, ◌≡◌, refl, ap, ◌∙◌, Option, none, some, List, [], ◌∷◌, ◌++◌, arith, length,
  length-append, for_each, Option-cases, inl, inr,
}
use distributed_chat_system.Protocol.{RawPacket}
use distributed_chat_system.Server.State.{ChatServer}
use distributed_chat_system.Server.Events.{
  Task, Engine, enqueue, run_task, read_client, read_peer, Step, accepts, reads_client, reads_peer,
  takes, runs, connects, checks, waits, stops, Reaches, here, next,
}

-- What a step leaves of the pool: its size, and no more tasks in hand than it has threads.
abbrev pub IsStaffed : Engine → Type 0
IsStaffed e = length e.held ≤ e.threads

read_client_pool :
    (r : ℕ) (answer : Option RawPacket) (e : Engine)
    → ((read_client r answer e).threads ≡ e.threads) × ((read_client r answer e).held ≡ e.held)
unfolding read_client enqueue
read_client_pool r (some packet) e = (refl, refl)
read_client_pool r none e = elim (Option-cases (e.server.connections.session_at r).socket) [
  | inl gone ↦ rw (gone, read_client) (refl, refl)
  | inr (k, found) ↦ rw (found, read_client) (refl, refl)
]

read_peer_pool :
    (n : ℕ) (answer : Option RawPacket) (e : Engine)
    → ((read_peer n answer e).threads ≡ e.threads) × ((read_peer n answer e).held ≡ e.held)
unfolding read_peer enqueue
read_peer_pool n (some packet) e = (refl, refl)
read_peer_pool n none e = (refl, refl)

Step-IsStaffed : {e f : Engine} → Step e f → IsStaffed e → (f.threads ≡ e.threads) × IsStaffed f
Step-IsStaffed (accepts e incoming) h = (refl, h)
Step-IsStaffed (reads_client e r answer there) h =
    let p = read_client_pool r answer e in (p.0, omega (arith, p.0, ap length p.1))
Step-IsStaffed (reads_peer e n answer) h =
    let p = read_peer_pool n answer e in (p.0, omega (arith, p.0, ap length p.1))
Step-IsStaffed (takes e t rest first room) h = (refl, omega (arith, length-append e.held (t ∷ [])))
Step-IsStaffed (runs e before t after among) h = (
  refl,
  omega (arith, length-append before after, length-append before (t ∷ after), ap length among),
)
Step-IsStaffed (connects e config handle resolved) h = (refl, h)
Step-IsStaffed (checks e now n) h = (refl, h)
Step-IsStaffed (waits e d) h = (refl, h)
Step-IsStaffed (stops e) h = (refl, h)

-- However the events come, the workers never hold more tasks than the pool has threads, and the
-- number of threads does not change.
pub Reaches-IsStaffed :
    {e f : Engine} → Reaches e f → IsStaffed e → (f.threads ≡ e.threads) × IsStaffed f
Reaches-IsStaffed here h = (refl, h)
Reaches-IsStaffed (next before last) h =
    let p = Reaches-IsStaffed before h in let q = Step-IsStaffed last p.1 in (q.0 ∙ p.0, q.1)

pub Reaches-trans : {e f g : Engine} → Reaches e f → Reaches f g → Reaches e g
Reaches-trans p here = p
Reaches-trans p (next q s) = next (Reaches-trans p q) s

abbrev pub engine_of : ℕ → ChatServer → List Task → List Task → Engine
engine_of n s queue hands = record { server = s; threads = n; tasks = queue; held = hands }

-- With empty hands a worker takes and runs the queue, one task after the other.
queue_drains :
    (queue : List Task) (n : ℕ) (s : ChatServer)
    → 0 < n
    → Reaches (engine_of n s queue []) (engine_of n (for_each queue run_task s) [] [])
unfolding for_each
queue_drains [] n s some_thread = here
queue_drains (t ∷ queue) n s some_thread =
    Reaches-trans
      (next (next here (takes (engine_of n s (t ∷ queue) []) t queue refl some_thread))
        (runs (engine_of n s queue (t ∷ [])) [] t [] refl))
      (queue_drains queue n (run_task t s) some_thread)

-- As long as the pool has a thread, whatever the workers hold and whatever is queued can be finished:
-- some sequence of events runs every held task and then every queued one, in the order in which they
-- were enqueued, and leaves nothing to do.
pub pool_drains :
    (hands queue : List Task) (n : ℕ) (s : ChatServer)
    → 0 < n
    → Reaches (engine_of n s queue hands) (engine_of n (for_each (hands ++ queue) run_task s) [] [])
unfolding for_each
pool_drains [] queue n s some_thread = queue_drains queue n s some_thread
pool_drains (t ∷ hands) queue n s some_thread =
    Reaches-trans (next here (runs (engine_of n s queue (t ∷ hands)) [] t hands refl))
      (pool_drains hands queue n (run_task t s) some_thread)
