-- ===== src/Programs/ServerMain.antt =====
-- src/main_server.cpp: `main`, with what it prints. The log calls are left out but for the name of
-- the log file.
use distributed_chat_system.Prelude.{
  ℕ, ℤ, ◌==◌, Bool, Option, none, some, List, [], ◌∷◌, ◌++◌, if◌then◌else◌,
}
use distributed_chat_system.Text.{Bytes, codes}
use distributed_chat_system.Text.Decimal.{to_string}
use distributed_chat_system.Networking.{TcpSocket, invalid_socket}
use distributed_chat_system.Networking.Winsock.{get_last_error_string}
use distributed_chat_system.Config.{new_config, load}
use distributed_chat_system.Server.State.{ChatServer, Network}
use distributed_chat_system.Server.Loops.{Turn}
use distributed_chat_system.Startup.{boot, server_id_of, with_pool, serve_until_exit}
use distributed_chat_system.Programs.{Outcome, waits, returns}

-- What the system gives the program: its files, the socket of the listener and the answers on it
-- with the error code that WSAGetLastError has for them, the time and the network.
pub record Machine : Type 0 where
  pub files : Bytes → Option Bytes
  pub listener : TcpSocket
  pub bound : Bool
  pub listening : Bool
  pub last_error : ℤ
  pub now : ℕ
  pub network : Network

-- `printed` and `errors` are what this thread writes to std::cout and std::cerr.
pub record ServerRun : Type 0 where
  pub outcome : Outcome
  pub printed : Bytes
  pub errors : Bytes
  pub log_file : Option Bytes
  pub server : Option ChatServer

-- argv[1] if there is one.
unfoldable pub config_path : List Bytes → Bytes
config_path (program ∷ path ∷ rest) = path
config_path _ = codes "configs/server_1.cfg"

unfoldable pub load_failed : Bytes → Bytes
load_failed path =
    codes "Failed to load config file: "
    ++ (path ++ codes "\nUsage: main_server <config_file_path>\n")

unfoldable pub log_path : ℤ → Bytes
log_path id = codes "logs/server_" ++ (to_string id ++ codes ".log")

unfoldable pub active_banner : ℤ → Bytes
active_banner id =
    codes "\n=======================================================\n Server "
    ++ (to_string id
        ++ codes
            " is active. Type 'exit' to shut down gracefully.\n=======================================================\n\n")

-- From the started server to the end.
unfoldable pub run_console : Bytes → List (List Turn × Bytes) → ChatServer → ServerRun
unfolding active_banner
run_console log lines s =
    let (e, ended) = serve_until_exit lines (with_pool s) in
    record {
      outcome = if ended then returns 0 else waits;
      printed = active_banner s.server_id;
      errors = [];
      log_file = some log;
      server = some e.server;
    }

-- What the listener's constructor, Bind and Listen write when the server does not start.
unfoldable pub listener_errors : Machine → Bytes
listener_errors w =
    let reason = get_last_error_string w.last_error ++ codes "\n" in
    if w.listener.handle == invalid_socket
    then codes "Socket creation failed: " ++ reason
    else if w.bound
    then if w.listening then [] else codes "Listen failed: " ++ reason
    else codes "Bind failed: " ++ reason

-- What follows a configuration file that was read.
unfoldable pub launch : Machine → Bytes → Option ChatServer → List (List Turn × Bytes) → ServerRun
unfolding run_console listener_errors
launch w log none lines = record {
  outcome = returns 1;
  printed = [];
  errors = listener_errors w;
  log_file = some log;
  server = none;
}
launch w log (some s) lines = run_console log lines s

unfoldable pub server_main : List Bytes → Machine → List (List Turn × Bytes) → ServerRun
unfolding config_path load_failed log_path launch
server_main argv w lines =
    let path = config_path argv in
    let file = w.files path in
    let (m, ok) = load file new_config in
    if ok
    then launch w (log_path (server_id_of m))
        (boot file w.listener w.now w.network w.bound w.listening) lines
    else record {
      outcome = returns 1;
      printed = [];
      errors = load_failed path;
      log_file = none;
      server = none;
    }
