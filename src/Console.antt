-- ===== src/Console.antt =====
-- main_client.cpp: the commands that a user types, and the loop that runs them.
pub mod Typing
pub mod Sending
use distributed_chat_system.Prelude.{
  ℕ, ℤ, pos, String, Bool, true, false, ◌||◌, Option, none, some, List, [], ◌∷◌, ◌++◌,
  if◌then◌else◌,
}
use distributed_chat_system.Text.{Bytes, codes, bytes_discrete, trim, is_empty, cut_at, starts_with}
use distributed_chat_system.Text.Decimal.{stoi}
use distributed_chat_system.Networking.{Answers}
use distributed_chat_system.Client.{
  ChatClient, print, disconnect, send_login, send_private_message, send_room_message,
  send_broadcast_message, join_room, leave_room, create_room,
}

-- What a line asks for.
pub data Command : Type 0 where
  nothing exit_app logout help : Command
  private_msg room_msg : Bytes → Bytes → Command
  create join leave broadcast : Bytes → Command
  usage unknown : Bytes → Command

abbrev equals : Bytes → String → Bool
equals a s = elim (bytes_discrete a (codes s)) [ yes e ↦ true | no e ↦ false ]

-- A command with one argument, or its usage.
unfoldable pub with_one : (Bytes → Command) → String → Bytes → Command
with_one make hint args = if is_empty args then usage (codes hint) else make args

-- A command with a word and a text.
unfoldable pub with_two : (Bytes → Bytes → Command) → String → Bytes → Command
with_two make hint args = elim (cut_at 32 args) [
  | none ↦ usage (codes hint)
  | some (word, text) ↦ if is_empty word then usage (codes hint) else make word text
]

unfoldable pub command_named : Bytes → Bytes → Command
unfolding with_one with_two
command_named cmd args =
    if equals cmd "/exit"
    then exit_app
    else if equals cmd "/logout"
    then logout
    else if equals cmd "/help"
    then help
    else if equals cmd "/msg"
    then with_two private_msg "/msg <username> <text>" args
    else if equals cmd "/create"
    then with_one create "/create <room>" args
    else if equals cmd "/join"
    then with_one join "/join <room>" args
    else if equals cmd "/leave"
    then with_one leave "/leave <room>" args
    else if equals cmd "/roommsg"
    then with_two room_msg "/roommsg <room> <text>" args
    else if equals cmd "/broadcast"
    then with_one broadcast "/broadcast <text>" args
    else unknown cmd

-- input.find(' ') cuts the command from its arguments.
unfoldable pub slash_command : Bytes → Command
unfolding command_named
slash_command input = elim (cut_at 32 input) [
  | none ↦ command_named input []
  | some (cmd, args) ↦ command_named cmd (trim args)
]

unfoldable pub command_of : Bytes → Command
unfolding slash_command
command_of line =
    let input = trim line in
    if is_empty input
    then nothing
    else if starts_with 47 input
    then slash_command input
    else broadcast input

-- An escape sequence of the terminal.
abbrev escape : String → Bytes
escape s = 27 ∷ codes s

unfoldable pub usage_line : Bytes → Bytes
usage_line hint = escape "[91mUsage: " ++ (hint ++ escape "[0m\n")

unfoldable pub unknown_line : Bytes → Bytes
unknown_line cmd =
    escape "[91mUnknown command: "
    ++ (cmd ++ (codes ". Type /help to see guidelines." ++ escape "[0m\n"))

unfoldable pub logged_out : Bytes
logged_out = escape "[93mLogged out successfully." ++ escape "[0m\n"

-- PrintHelp
unfoldable pub help_text : Bytes
help_text =
    escape "[93mAvailable Commands:\n"
    ++ (codes "  /msg <username> <text>      - Send a private message to any user in the cluster\n"
        ++ (codes "  /create <room>              - Register a new chat room\n"
            ++ (codes "  /join <room>                - Join a chat room\n"
                ++ (codes
                      "  /roommsg <room> <text>      - Send a message to all users in a chat room\n"
                    ++ (codes "  /leave <room>               - Exit a chat room\n"
                        ++ (codes
                              "  /broadcast <text>           - Broadcast a global message to all servers\n"
                            ++ (codes "  /help                       - Show this guide\n"
                                ++ (codes
                                      "  /logout                     - Disconnect from the server\n"
                                    ++ (codes
                                          "  /exit                       - Close the application\n"
                                        ++ escape "[0m\n")))))))))

-- What a command does, with the system's answers to its send loop, and whether the loop goes on.
unfoldable pub run_command : Command → Answers → ChatClient → ChatClient × Bool
run_command nothing a c = (c, true)
run_command exit_app a c = (c, false)
run_command logout a c = (print logged_out (disconnect c), false)
run_command help a c = (print help_text c, true)
run_command (private_msg receiver text) a c = (send_private_message receiver text a c, true)
run_command (room_msg room text) a c = (send_room_message room text a c, true)
run_command (create room) a c = (create_room room a c, true)
run_command (join room) a c = (join_room room a c, true)
run_command (leave room) a c = (leave_room room a c, true)
run_command (broadcast text) a c = (send_broadcast_message text a c, true)
run_command (usage hint) a c = (print (usage_line hint) c, true)
run_command (unknown cmd) a c = (print (unknown_line cmd) c, true)

-- `while (client.IsConnected())` over the lines that are typed, each with the answers to its send
-- loop; the loop waits for more when they are used up, which `true` says.
unfoldable pub chat_rounds : List (Bytes × Answers) → ChatClient → ChatClient × Bool
unfolding command_of run_command
chat_rounds [] c = (if c.connected then print (codes ">>> ") c else c, c.connected)
chat_rounds ((line, a) ∷ rest) c = elim c.connected [
  | false ↦ (c, false)
  | true ↦
      let (c', on) = run_command (command_of line) a (print (codes ">>> ") c) in
      elim on [ true ↦ chat_rounds rest c' | false ↦ (c', false) ]
]

unfoldable pub application_closed : Bytes
application_closed = escape "[90mApplication closed." ++ escape "[0m\n"

-- The end of `main`.
unfoldable pub close_application : ChatClient → ChatClient
close_application c = print application_closed (disconnect c)

-- The loop that asks for a name: the first that is not blank.
unfoldable pub first_name : List Bytes → Option Bytes
first_name [] = none
first_name (line ∷ rest) =
    let more = first_name rest in if is_empty (trim line) then more else some (trim line)

-- The host, and the port that std::stoi reads; 9001 if it throws or nothing is typed.
unfoldable pub chosen_host : Bytes → Bytes
chosen_host line = if is_empty (trim line) then codes "127.0.0.1" else line

unfoldable pub chosen_port : Bytes → ℤ
chosen_port line =
    if is_empty (trim line)
    then pos 9001
    else elim (stoi line) [ none ↦ pos 9001 | some port ↦ port ]
