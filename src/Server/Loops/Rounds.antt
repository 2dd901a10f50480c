-- ===== src/Server/Loops/Rounds.antt =====
-- A run of the server, round by round, is a sequence of events.
use distributed_chat_system.Prelude.{
  ◌≡◌, refl, Bool, true, false, List, [], ◌∷◌, All, for_each, ◌∙◌,
}
use distributed_chat_system.Server.Events.{Engine, waits, stops, Reaches, here, next}
use distributed_chat_system.Server.Events.Workers.{Reaches-trans}
use distributed_chat_system.Server.Events.Invariant.{IsSteady, Reaches-IsSteady}
use distributed_chat_system.Server.Loops.Threads.{
  listener_round-Unstopped, connector_round-Unstopped, heartbeat_turn-Unstopped,
  take_task-Unstopped, finish_task-Unstopped,
}
use distributed_chat_system.Server.Loops.Running.{
  Unstopped, at_rest, and_then, Unstopped-Reaches, Unstopped-running,
}
use distributed_chat_system.Server.Loops.{
  Turn, listens, reconnects, beats, takes_task, finishes, passes, is_stopped, turn, run_server,
}

abbrev pub is_stop : Turn → Bool
is_stop is_stopped = true
is_stop _ = false

turn-Unstopped : (x : Turn) (e : Engine) → IsSteady e → is_stop x ≡ false → Unstopped e (turn x e)
unfolding turn
turn-Unstopped (listens w) e h o = listener_round-Unstopped w e h
turn-Unstopped (reconnects answers) e h o = connector_round-Unstopped answers e
turn-Unstopped beats e h o = heartbeat_turn-Unstopped e
turn-Unstopped takes_task e h o = take_task-Unstopped e.tasks e refl
turn-Unstopped (finishes i) e h o = finish_task-Unstopped i e
turn-Unstopped (passes d) e h o = and_then at_rest (waits e d) refl
turn-Unstopped is_stopped e h o = absurd (cc o)

turn-Reaches : (x : Turn) (e : Engine) → IsSteady e → Reaches e (turn x e)
unfolding turn
turn-Reaches is_stopped e h = next here (stops e)
turn-Reaches (listens w) e h = Unstopped-Reaches (turn-Unstopped (listens w) e h refl)
turn-Reaches (reconnects answers) e h =
    Unstopped-Reaches (turn-Unstopped (reconnects answers) e h refl)
turn-Reaches beats e h = Unstopped-Reaches (turn-Unstopped beats e h refl)
turn-Reaches takes_task e h = Unstopped-Reaches (turn-Unstopped takes_task e h refl)
turn-Reaches (finishes i) e h = Unstopped-Reaches (turn-Unstopped (finishes i) e h refl)
turn-Reaches (passes d) e h = Unstopped-Reaches (turn-Unstopped (passes d) e h refl)

-- Whatever the threads do, round by round and in any order: a run of the server that starts out
-- consistent, with tasks about sessions that exist, is a sequence of the events, and the server at
-- its end is as consistent as at its start.
pub run_server-Reaches :
    (turns : List Turn) (e : Engine)
    → IsSteady e
    → Reaches e (run_server turns e) × IsSteady (run_server turns e)
unfolding run_server for_each
run_server-Reaches [] e h = (here, h)
run_server-Reaches (x ∷ turns) e h =
    let first = turn-Reaches x e h in
    let rest = run_server-Reaches turns (turn x e) (Reaches-IsSteady first h) in
    (Reaches-trans first rest.0, rest.1)

-- The rounds of all threads but the one that calls Stop leave a server running.
pub run_server_runs :
    (turns : List Turn) (e : Engine)
    → IsSteady e
    → All (λ x. is_stop x ≡ false) turns
    → (run_server turns e).server.running ≡ e.server.running
unfolding run_server for_each
run_server_runs [] e h o = refl
run_server_runs (x ∷ turns) e h o =
    let first = turn-Unstopped x e h o.0 in
    run_server_runs turns (turn x e) (Reaches-IsSteady (Unstopped-Reaches first) h) o.1
    ∙ Unstopped-running first h
