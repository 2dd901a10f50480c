-- ===== src/Programs/ServerRuns.antt =====
-- How the server program ends.
use distributed_chat_system.Prelude.{
  ◌≡◌, refl, ap, ◌∙◌, Bool, if◌then◌else◌, true, false, Option, none, some, List, [], ◌∷◌, ◌++◌,
  ◌==◌, All, append_assoc, for_each,
}
use distributed_chat_system.Text.{Bytes, trim}
use distributed_chat_system.Networking.{invalid_socket}
use distributed_chat_system.Config.{new_config, load}
use distributed_chat_system.Server.State.{ChatServer}
use distributed_chat_system.Server.Links.{stop}
use distributed_chat_system.Server.Links.Stopping.{IsHalted, stop-IsHalted}
use distributed_chat_system.Server.Events.{Engine, here}
use distributed_chat_system.Server.Loops.{Turn, turn, run_server}
use distributed_chat_system.Startup.{boot, with_pool, serve_until_exit, is_exit, server_id_of}
use distributed_chat_system.Server.Loops.Rounds.{is_stop, run_server_runs}
use distributed_chat_system.Startup.Peering.{
  NamesOthers, peer_count, started, boot-starts, started-IsSteady,
}
use distributed_chat_system.Programs.{returns, waits}
use distributed_chat_system.Programs.ServerMain.{
  Machine, ServerRun, config_path, log_path, active_banner, load_failed, run_console, launch,
  server_main,
}

-- All rounds that go with some lines.
abbrev pub rounds_of : List (List Turn × Bytes) → List Turn
rounds_of [] = []
rounds_of (l ∷ lines) = l.0 ++ rounds_of lines

run_server-append :
    (xs ys : List Turn) (e : Engine) → run_server (xs ++ ys) e ≡ run_server ys (run_server xs e)
unfolding run_server for_each
run_server-append [] ys e = refl
run_server-append (x ∷ xs) ys e = run_server-append xs ys (turn x e)

-- The loop over std::cin ends at the first line that asks for it.
serve_until_exit-stops :
    (before : List (List Turn × Bytes)) (turns : List Turn) (last : Bytes)
    (after : List (List Turn × Bytes)) (e : Engine)
    → All (λ l. is_exit (trim l.1) ≡ false) before
    → is_exit (trim last) ≡ true
    → let f = run_server (rounds_of before ++ turns) e in
      serve_until_exit (before ++ (turns, last) ∷ after) e
      ≡ (record f { server = stop f.server }, true)
unfolding serve_until_exit
serve_until_exit-stops [] turns last after e h asks = rw asks refl
serve_until_exit-stops (l ∷ before) turns last after e h asks = rw h.0 (
    rw (append_assoc l.0 (rounds_of before) turns) (
      rw (run_server-append l.0 (rounds_of before ++ turns) e)
        (serve_until_exit-stops before turns last after (run_server l.0 e) h.1 asks)))

-- A run that got as far as the console.
abbrev at_console : ChatServer → Bytes → Engine × Bool → ServerRun
at_console s log end = record {
  outcome = if end.1 then returns 0 else waits;
  printed = active_banner s.server_id;
  errors = [];
  log_file = some log;
  server = some end.0.server;
}

-- `main` by what the system answers.
abbrev main_on :
    List Bytes → Machine → List (List Turn × Bytes) → Option Bytes → Bool → Bool → ServerRun
main_on argv w lines file bound listening =
    if (load file new_config).1
    then launch w (log_path (server_id_of (load file new_config).0))
        (boot file w.listener w.now w.network bound listening) lines
    else record {
      outcome = returns 1;
      printed = [];
      errors = load_failed (config_path argv);
      log_file = none;
      server = none;
    }

main_on_lem :
    (argv : List Bytes) (w : Machine) (lines : List (List Turn × Bytes))
    → server_main argv w lines
      ≡ main_on argv w lines (w.files (config_path argv)) w.bound w.listening
unfolding server_main
main_on_lem argv w lines = refl

load_reads : (text : Bytes) → (load (some text) new_config).1 ≡ true
unfolding load
load_reads text = refl

-- The server of a machine that has this file, as it was started.
abbrev pub started_on : Machine → Bytes → ChatServer
started_on w text = started (load (some text) new_config).0 w.listener w.now w.network

-- The file of the machine names no peer by the server's own id.
abbrev pub PeersAreOthers : Machine → Bytes → Type 0
PeersAreOthers w text =
    let m = (load (some text) new_config).0 in
    NamesOthers (peer_count m w.listener w.now w.network) 1 m (server_id_of m)

server_main-launches :
    (argv : List Bytes) (w : Machine) (text : Bytes) (lines : List (List Turn × Bytes))
    → w.files (config_path argv) ≡ some text
    → (w.listener.handle == invalid_socket) ≡ false
    → w.bound ≡ true
    → w.listening ≡ true
    → let s = started_on w text in
      server_main argv w lines
      ≡ at_console s
          (log_path (server_id_of (load (some text) new_config).0))
          (serve_until_exit lines (with_pool s))
server_main-launches argv w text lines found valid bound listens =
    let m = (load (some text) new_config).0 in
    let up = boot-starts m w.listener w.now w.network text refl valid in
    let log = log_path (server_id_of m) in
    main_on_lem argv w lines
    ∙ ap (λ f. main_on argv w lines f w.bound w.listening) found
    ∙ ap (λ b. main_on argv w lines (some text) b w.listening) bound
    ∙ ap (λ b. main_on argv w lines (some text) true b) listens
    ∙ ap
        (λ ok.
          if ok
          then launch w log (boot (some text) w.listener w.now w.network true true) lines
          else record {
            outcome = returns 1;
            printed = [];
            errors = load_failed (config_path argv);
            log_file = none;
            server = none;
          })
        (load_reads text)
    ∙ ap (λ o. launch w log o lines) up.0
    ∙ (unfold launch run_console in refl)

-- The server program, given a configuration file that can be read and names no peer by the server's
-- own id, and a valid listener that can be bound and can listen: it prints its banner and ignores all
-- lines up to the first that is `exit` or `quit` but for white space at its ends, while the threads
-- of the server that the file describes go through any rounds, none of which is a stop; then it stops
-- what the rounds made of that server and returns 0, and this server is left with the listener
-- closed and the sockets of all sessions in its table by socket and of all its peers.
pub server_main-halts :
    (argv : List Bytes) (w : Machine) (text : Bytes) (before : List (List Turn × Bytes))
    (turns : List Turn) (last : Bytes) (after : List (List Turn × Bytes))
    → w.files (config_path argv) ≡ some text
    → (w.listener.handle == invalid_socket) ≡ false
    → w.bound ≡ true
    → w.listening ≡ true
    → All (λ l. is_exit (trim l.1) ≡ false) before
    → is_exit (trim last) ≡ true
    → PeersAreOthers w text
    → All (λ x. is_stop x ≡ false) (rounds_of before ++ turns)
    → let s = started_on w text in
      let t = (run_server (rounds_of before ++ turns) (with_pool s)).server in
      let run = server_main argv w (before ++ (turns, last) ∷ after) in
      (run.outcome ≡ returns 0)
      × (run.printed ≡ active_banner s.server_id)
      × (run.server ≡ some (stop t))
      × IsHalted t (stop t)
server_main-halts argv w text before turns last after found valid bound listens others asks peers
      unstopped =
    let s = started_on w text in
    let all = rounds_of before ++ turns in
    let steady =
      started-IsSteady (load (some text) new_config).0 w.listener w.now w.network 4 (with_pool s)
        peers here in
    let run =
      server_main-launches argv w text (before ++ (turns, last) ∷ after) found valid bound listens
      ∙ ap (at_console s (log_path (server_id_of (load (some text) new_config).0)))
          (serve_until_exit-stops before turns last after (with_pool s) others asks) in
    (
      ap (λ x. x.outcome) run,
      ap (λ x. x.printed) run,
      ap (λ x. x.server) run,
      (stop-IsHalted _ (run_server_runs all (with_pool s) steady unstopped)).0,
    )
