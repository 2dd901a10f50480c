-- ===== src/Server/Loops/Threads.antt =====
-- What each thread of the server does in a round is a sequence of events, none of them a stop.
use distributed_chat_system.Prelude.{
  ℕ, zero, suc, ◌≤◌, ◌<◌, ◌≡◌, refl, ap, sym, subst, Bool, true, false, Option, none, some, List,
  [], ◌∷◌, ◌++◌, arith, Bool-cases, Option-cases, inl, inr, All, for_each, for_each_induction,
  length, ltb, if◌then◌else◌,
}
use distributed_chat_system.Networking.{Feed}
use distributed_chat_system.Protocol.{RawPacket}
use distributed_chat_system.Dict.{values}
use distributed_chat_system.Server.Connections.{handle_of, get_all_sessions, get_all_peer_nodes}
use distributed_chat_system.Server.State.{ChatServer}
use distributed_chat_system.Server.Heartbeat.{heartbeat_round, heartbeat_turn, check_peer}
use distributed_chat_system.Server.Links.{accept_client}
use distributed_chat_system.Server.Events.{
  Task, Engine, enqueue, run_task, read_client, accepts, reads_client, reads_peer, takes, runs,
  connects, checks,
}
use distributed_chat_system.Server.Events.Keeps.{Listed}
use distributed_chat_system.Server.Events.LinkEvents.{lose_client-Keeps, admit-Keeps}
use distributed_chat_system.Server.Events.Invariant.{IsSteady}
use distributed_chat_system.Server.Loops.Running.{Unstopped, at_rest, and_then, Unstopped-trans}
use distributed_chat_system.Server.Loops.{
  Activity, select_failed, no_activity, ready, Readiness, Attempts, serve_session, serve_peer,
  serve_listener, serve, react, listener_round, attempt, connector_round, take_task, pick,
  finish_task,
}

-- The sessions are among those that exist.
abbrev Exist : List ℕ → Engine → Type 0
Exist rs e = All (λ r. r < e.server.connections.next_session) rs

-- A sequence of events after which no fewer sessions exist.
record Goes (e f : Engine) : Type 0 where
  reaches : Unstopped e f
  grown : e.server.connections.next_session ≤ f.server.connections.next_session

Goes-refl : (e : Engine) → Goes e e
Goes-refl e = record { reaches = at_rest; grown = omega arith }

Exist-le : (rs : List ℕ) (a b : ℕ) → a ≤ b → All (λ r. r < a) rs → All (λ r. r < b) rs
Exist-le [] a b more h = tt
Exist-le (r ∷ rs) a b more h = (omega (arith, h.0), Exist-le rs a b more h.1)

values-Exist : (count : ℕ) (m : List (ℕ × ℕ)) → Listed count m → All (λ r. r < count) (values m)
values-Exist count [] h = tt
values-Exist count (x ∷ m) h = (h.0, values-Exist count m h.1)

read_client_grows :
    (r : ℕ) (answer : Option RawPacket) (e : Engine)
    → e.server.connections.next_session ≤ (read_client r answer e).server.connections.next_session
unfolding read_client enqueue
read_client_grows r (some packet) e = omega arith
read_client_grows r none e = elim (Option-cases (e.server.connections.session_at r).socket) [
  | inl gone ↦ rw (gone, read_client) (omega arith)
  | inr (k, found) ↦ rw (found, read_client) (lose_client-Keeps r _ e.server).allocated
]

read_client-Goes :
    (r : ℕ) (answer : Option RawPacket) (e : Engine)
    → r < e.server.connections.next_session
    → Goes e (read_client r answer e)
read_client-Goes r answer e there = record {
  reaches = and_then at_rest (reads_client e r answer there) refl;
  grown = read_client_grows r answer e;
}

serve_session-Goes :
    (set : ℕ → Bool) (feeds : ℕ → Feed) (r : ℕ) (e : Engine)
    → r < e.server.connections.next_session
    → Goes e (serve_session set feeds r e)
unfolding serve_session
serve_session-Goes set feeds r e there =
    elim (Option-cases (e.server.connections.session_at r).socket) [
      | inl gone ↦ rw (gone, serve_session) (Goes-refl e)
      | inr (k, found) ↦ elim (Bool-cases (set (handle_of k e.server.connections))) [
        | inl sets ↦ rw (found, serve_session, sets) (read_client-Goes r _ e there)
        | inr unset ↦ rw (found, serve_session, unset) (Goes-refl e)
      ]
    ]

sessions-Goes :
    (set : ℕ → Bool) (feeds : ℕ → Feed) (rs : List ℕ) (e : Engine)
    → Exist rs e
    → Unstopped e (for_each rs (serve_session set feeds) e)
unfolding for_each
sessions-Goes set feeds [] e h = at_rest
sessions-Goes set feeds (r ∷ rs) e h =
    let first = serve_session-Goes set feeds r e h.0 in
    Unstopped-trans first.reaches
      (sessions-Goes set feeds rs (serve_session set feeds r e) (Exist-le rs _ _ first.grown h.1))

serve_peer-Unstopped :
    (set : ℕ → Bool) (feeds : ℕ → Feed) (n : ℕ) (e : Engine)
    → Unstopped e (serve_peer set feeds n e)
unfolding serve_peer
serve_peer-Unstopped set feeds n e =
    elim (Bool-cases (e.server.connections.node_at n).is_connected) [
      | inl on ↦ elim (Option-cases (e.server.connections.node_at n).socket) [
        | inl gone ↦ rw (on, gone, serve_peer) at_rest
        | inr (k, found) ↦ elim (Bool-cases (set (handle_of k e.server.connections))) [
          | inl sets ↦ rw (on, found, serve_peer, sets) (and_then at_rest (reads_peer e n _) refl)
          | inr unset ↦ rw (on, found, serve_peer, unset) at_rest
        ]
      ]
      | inr off ↦ rw off at_rest
    ]

-- What is done behind a test.
if-Unstopped : (b : Bool) (e f : Engine) → Unstopped e f → Unstopped e (if b then f else e)
if-Unstopped true e f p = p
if-Unstopped false e f p = at_rest

server-if-Unstopped :
    (b : Bool) (e : Engine) (s : ChatServer)
    → Unstopped e (record e { server = s })
    → Unstopped e (record e { server = if b then s else e.server })
server-if-Unstopped true e s p = p
server-if-Unstopped false e s p = at_rest

serve_listener-Goes :
    (set : ℕ → Bool) (incoming : ℕ) (e : Engine) → Goes e (serve_listener set incoming e)
unfolding serve_listener
serve_listener-Goes set incoming e = elim (Bool-cases (set e.server.listener.handle)) [
  | inl sets ↦ rw sets (record {
    reaches = and_then at_rest (accepts e incoming) refl;
    grown = unfold accept_client in (admit-Keeps _ e.server).allocated;
  })
  | inr unset ↦ rw unset (Goes-refl e)
]

serve-Unstopped :
    (set : ℕ → Bool) (incoming : ℕ) (feeds : ℕ → Feed) (e : Engine)
    → IsSteady e
    → Unstopped e (serve set incoming feeds e)
unfolding serve get_all_sessions
serve-Unstopped set incoming feeds e h =
    let first = serve_listener-Goes set incoming e in
    let rs = get_all_sessions e.server.connections in
    let exist =
      Exist-le rs _ _ first.grown
        (values-Exist _ e.server.connections.sessions_by_socket h.server.listed) in
    let f = serve_listener set incoming e in
    for_each_induction (Unstopped e) (get_all_peer_nodes e.server.connections)
      (serve_peer set feeds) (for_each rs (serve_session set feeds) f)
      (λ n g p. Unstopped-trans p (serve_peer-Unstopped set feeds n g))
      (Unstopped-trans first.reaches (sessions-Goes set feeds rs f exist))

react-Unstopped :
    (w : Readiness) (a : Activity) (e : Engine) → IsSteady e → Unstopped e (react w a e)
unfolding react
react-Unstopped w select_failed e h = at_rest
react-Unstopped w no_activity e h = at_rest
react-Unstopped w (ready set) e h = serve-Unstopped set w.incoming w.feeds e h

pub listener_round-Unstopped :
    (w : Readiness) (e : Engine) → IsSteady e → Unstopped e (listener_round w e)
unfolding listener_round
listener_round-Unstopped w e h =
    if-Unstopped e.server.running e _ (react-Unstopped w w.activity e h)

pub connector_round-Unstopped :
    (answers : Attempts) (e : Engine)
    → Unstopped e (record e { server = connector_round answers e.server })
unfolding connector_round
connector_round-Unstopped answers e = server-if-Unstopped e.server.running e _ (
    for_each_induction (λ s. Unstopped e (record e { server = s })) e.server.peer_configs
      (attempt answers) e.server
      (λ config s p.
        unfold attempt in and_then p (connects (record e { server = s }) config _ _) refl)
      at_rest)

pub heartbeat_turn-Unstopped :
    (e : Engine) → Unstopped e (record e { server = heartbeat_turn e.server })
unfolding heartbeat_turn heartbeat_round
heartbeat_turn-Unstopped e = server-if-Unstopped e.server.heartbeat_running e _ (
    for_each_induction (λ s. Unstopped e (record e { server = s }))
      (get_all_peer_nodes e.server.connections) (check_peer e.server.connections.now) e.server
      (λ n s p. and_then p (checks (record e { server = s }) e.server.connections.now n) refl)
      at_rest)

pub take_task-Unstopped :
    (tasks : List Task) (e : Engine) → e.tasks ≡ tasks → Unstopped e (take_task tasks e)
unfolding take_task
take_task-Unstopped [] e same = at_rest
take_task-Unstopped (t ∷ rest) e same = elim (Bool-cases (ltb (length e.held) e.threads)) [
  | inl room ↦ rw room (and_then at_rest (takes e t rest same (ground arith)) refl)
  | inr full ↦ rw full at_rest
]

-- What was picked stands between the others.
abbrev Splits : List Task → Option (Task × List Task) → Type 0
Splits ts none = Unit
Splits ts (some found) =
    (before : List Task) × (after : List Task) × (ts ≡ before ++ found.0 ∷ after)
    × (found.1 ≡ before ++ after)

pick-Splits : (i : ℕ) (ts : List Task) → Splits ts (pick i ts)
unfolding pick
pick-Splits i [] = tt
pick-Splits zero (t ∷ ts) = ([], ts, refl, refl)
pick-Splits (suc i) (t ∷ ts) = later (pick i ts) (pick-Splits i ts)
  where
    later :
        (o : Option (Task × List Task))
        → Splits ts o
        → Splits (t ∷ ts) (elim o [ none ↦ none | some found ↦ some (found.0, t ∷ found.1) ])
    later none h = tt
    later (some found) (before, after, whole, others) =
        (t ∷ before, after, ap (◌∷◌ t) whole, ap (◌∷◌ t) others)

pub finish_task-Unstopped : (i : ℕ) (e : Engine) → Unstopped e (finish_task i e)
unfolding finish_task
finish_task-Unstopped i e = finishes_one (pick i e.held) (pick-Splits i e.held)
  where
    finishes_one :
        (o : Option (Task × List Task))
        → Splits e.held o
        → Unstopped e (elim o [
          | none ↦ e
          | some found ↦ record e { server = run_task found.0 e.server; held = found.1 }
        ])
    finishes_one none h = at_rest
    finishes_one (some found) (before, after, whole, others) =
        subst (λ rest. Unstopped e (record e { server = run_task found.0 e.server; held = rest }))
          (sym others) (and_then at_rest (runs e before found.0 after whole) refl)
