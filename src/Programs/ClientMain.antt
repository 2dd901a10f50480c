-- ===== src/Programs/ClientMain.antt =====
-- src/main_client.cpp: `main`, with what it prints. The mode of the terminal is left out.
use distributed_chat_system.Prelude.{
  ℤ, ℕ, Bool, Option, none, some, List, [], ◌∷◌, ◌++◌, if◌then◌else◌, String,
}
use distributed_chat_system.Text.{Bytes, codes, trim, is_empty}
use distributed_chat_system.Text.Decimal.{to_string, stoi}
use distributed_chat_system.Networking.{TcpSocket, Answers}
use distributed_chat_system.Client.{
  ChatClient, new_client, connect_client, disconnect, send_login, print,
}
use distributed_chat_system.Console.{
  chosen_host, chosen_port, help_text, chat_rounds, close_application,
}
use distributed_chat_system.Programs.{Outcome, waits, returns, terminates}

-- What the system gives the program: the client's socket, the answers to Connect for a host and a
-- port, and what the receive thread does in the half second after the login.
pub record Surroundings : Type 0 where
  pub socket : TcpSocket
  pub resolved : Bytes → ℤ → Option (List Bool)
  pub meanwhile : ChatClient → ChatClient

pub record ClientRun : Type 0 where
  pub client : ChatClient
  pub outcome : Outcome

-- A typed line, with the system's answers to the send loop that it leads to, if any.
abbrev pub Typed : Type 0
Typed = Bytes × Answers

abbrev coloured : String → Bytes
coloured s = 27 ∷ codes s

abbrev reset : Bytes
reset = coloured "[0m\n"

-- PrintWelcomeArt
unfoldable pub welcome_art : Bytes
welcome_art =
    coloured "[96m"
    ++ (codes
          "  _____  _     _  _______  ______  _____  ______  _     _  _______ _______ ______  \n"
        ++ (codes
              "  |     \\ |     |  |       |_____/ |_____] |_____] |     |     |    |_____/ |     \\ \n"
            ++ (codes
                  "  |_____/ |_____|  |_____  |    \\_ |       |_____] |_____u     |    |    \\_ |_____/ \n"
                ++ (codes
                      "                                                                                   \n"
                    ++ (codes "          -- ENTERPRISE CLUSTER-ROUTED CHAT SYSTEM CLIENT --\n"
                        ++ reset)))))

unfoldable pub connecting_line : Bytes → ℤ → Bytes
connecting_line host port =
    coloured "[94mConnecting to server at "
    ++ (host ++ (codes ":" ++ (to_string port ++ (codes "..." ++ reset))))

unfoldable pub refused_line : Bytes
refused_line =
    coloured "[91mFailed to connect to the server. Ensure it is online and running." ++ reset

unfoldable pub connected_line : Bytes
connected_line = coloured "[92mConnected!" ++ coloured "[0m\n\n"

unfoldable pub login_unsent : Bytes
login_unsent = coloured "[91mFailed to send login packet." ++ reset

unfoldable pub not_authenticated : Bytes
not_authenticated = coloured "[91mAuthentication unsuccessful or disconnected." ++ reset

-- What the handler of an exception of std::stoi prints.
unfoldable pub port_note : Bytes → Bytes
port_note line =
    if is_empty (trim line)
    then []
    else elim (stoi line) [ none ↦ codes "Invalid port, using 9001\n" | some port ↦ [] ]

-- A return of `main` destroys the client: its destructor calls Disconnect, and then the receive
-- thread is destroyed, which must not be joinable any more.
unfoldable pub leave_main : ℕ → ChatClient → ClientRun
leave_main code c =
    let d = disconnect c in
    record { client = d; outcome = if d.has_thread then terminates else returns code }

unfoldable pub still_waits : ChatClient → ClientRun
still_waits c = record { client = c; outcome = waits }

-- From the half second of sleep to the end.
unfoldable pub chat : List Typed → ChatClient → ClientRun
unfolding leave_main still_waits
chat lines c =
    let (d, waiting) = chat_rounds lines (print help_text c) in
    if c.connected
    then if waiting then still_waits d else leave_main 0 (close_application d)
    else leave_main 1 (print not_authenticated c)

unfoldable pub log_in : Surroundings → Bytes → Answers → List Typed → ChatClient → ClientRun
unfolding chat
log_in w name a lines c =
    let (d, ok) = send_login name a c in
    if ok then chat lines (w.meanwhile d) else leave_main 1 (print login_unsent d)

-- The loop that asks for a name until it is not blank.
unfoldable pub ask_name : Surroundings → List Typed → ChatClient → ClientRun
unfolding log_in
ask_name w [] c = still_waits (print (codes "Enter username: ") c)
ask_name w ((line, a) ∷ rest) c =
    let d = print (codes "Enter username: ") c in
    let again = ask_name w rest d in
    if is_empty (trim line) then again else log_in w (trim line) a rest d

unfoldable pub open_connection : Surroundings → Bytes → ℤ → List Typed → ChatClient → ClientRun
unfolding ask_name connecting_line refused_line connected_line
open_connection w host port lines c =
    let (d, ok) = connect_client (w.resolved host port) (print (connecting_line host port) c) in
    if ok then ask_name w lines (print connected_line d) else leave_main 1 (print refused_line d)

unfoldable pub ask_port : Surroundings → Bytes → List Typed → ChatClient → ClientRun
unfolding open_connection port_note
ask_port w host [] c = still_waits c
ask_port w host ((line, a) ∷ rest) c =
    open_connection w host (chosen_port line) rest (print (port_note line) c)

unfoldable pub ask_host : Surroundings → List Typed → ChatClient → ClientRun
unfolding ask_port
ask_host w [] c = still_waits c
ask_host w ((line, a) ∷ rest) c =
    ask_port w (chosen_host line) rest (print (codes "Enter Server Port (default: 9001): ") c)

unfoldable pub client_main : Surroundings → List Typed → ClientRun
unfolding ask_host welcome_art
client_main w lines = ask_host w lines (
    print (codes "Enter Server Host (default: 127.0.0.1): ")
      (print welcome_art (new_client w.socket)))
