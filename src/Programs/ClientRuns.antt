-- ===== src/Programs/ClientRuns.antt =====
-- How the client program ends.
use distributed_chat_system.Prelude.{
  ℤ, ◌+◌, ◌≤◌, ◌≡◌, refl, ap, ◌∙◌, Bool, true, false, List, ◌∷◌, ◌++◌, length, All, arith,
  if◌then◌else◌,
}
use distributed_chat_system.Text.{Bytes, codes, trim, is_empty}
use distributed_chat_system.Networking.{
  TcpSocket, Answers, patience, is_valid, connect, close, send_all,
}
use distributed_chat_system.Networking.Sending.{send_all_enough}
use distributed_chat_system.Protocol.{login, serialize}
use distributed_chat_system.Client.{
  ChatClient, request, print, connect_client, disconnect, send_login, lose_connection, new_client,
}
use distributed_chat_system.Client.Display.{IsSendable, length-serialize}
use distributed_chat_system.Console.{
  Command, exit_app, chat_rounds, close_application, chosen_host, chosen_port, help_text,
}
use distributed_chat_system.Console.Typing.{typed}
use distributed_chat_system.Programs.{returns, terminates}
use distributed_chat_system.Programs.Orders.{
  IsOrder, order_frames, typed_orders, ordered, orders_then_exit, ordered-rest,
}
use distributed_chat_system.Programs.ClientMain.{
  Surroundings, ClientRun, Typed, leave_main, still_waits, chat, log_in, ask_name, open_connection,
  ask_port, ask_host, client_main, connecting_line, connected_line, port_note, welcome_art,
  not_authenticated, login_unsent,
}

-- The first three lines of a session are the host, the port and a name.
abbrev pub opening : Bytes → Bytes → Bytes → Answers → List Typed → List Typed
opening host port name a rest = (host, a) ∷ (port, a) ∷ (name, a) ∷ rest

-- A client that only printed so far, and one that is connected and has logged in.
abbrev fresh : TcpSocket → Bytes → ChatClient
fresh k text = record (new_client k) { printed = text }

abbrev linked : TcpSocket → Bytes → ChatClient
linked k text = record (fresh k text) { connected = true; running = true; has_thread = true }

abbrev logged_in : TcpSocket → Bytes → Bytes → ChatClient
logged_in k name text = record (linked k text) { username = name; sent = serialize login name }

opens :
    (w : Surroundings) (host : Bytes) (port : ℤ) (lines : List Typed) (text : Bytes)
    → connect w.socket (w.resolved host port) ≡ true
    → open_connection w host port lines (fresh w.socket text)
      ≡ ask_name w lines (linked w.socket ((text ++ connecting_line host port) ++ connected_line))
unfolding open_connection connect_client
opens w host port lines text ok = rw ok refl

takes_name :
    (w : Surroundings) (name : Bytes) (a : Answers) (rest : List Typed) (c : ChatClient)
    → is_empty (trim name) ≡ false
    → ask_name w ((name, a) ∷ rest) c
      ≡ log_in w (trim name) a rest (print (codes "Enter username: ") c)
unfolding ask_name
takes_name w name a rest c some_byte = rw some_byte refl

-- `log_in` after the send loop, by its result and the bytes that were taken.
abbrev log_in_on : Surroundings → List Typed → ChatClient → Bool × Bytes → ClientRun
log_in_on w rest c sent =
    let d = record c { sent = c.sent ++ sent.1 } in
    if sent.0 then chat rest (w.meanwhile d) else leave_main 1 (print login_unsent d)

logs_in :
    (w : Surroundings) (name : Bytes) (a : Answers) (rest : List Typed) (text : Bytes)
    → is_valid w.socket ≡ true
    → IsSendable (record { type = login; payload = name })
    → 5 + length name ≤ patience a
    → log_in w name a rest (linked w.socket text)
      ≡ chat rest (w.meanwhile (logged_in w.socket name text))
unfolding log_in send_login request
logs_in w name a rest text valid h enough =
    let whole =
      send_all_enough a (serialize login name)
        (omega (arith, length-serialize (record { type = login; payload = name }) h)) in
    let asked = record (linked w.socket text) { username = name } in
    ap (λ v. let sent = send_all v a (serialize login name) in log_in_on w rest asked sent) valid
    ∙ ap (log_in_on w rest asked) whole

-- What is printed before the login.
abbrev shown_first : Bytes → Bytes
shown_first port =
    ((welcome_art ++ codes "Enter Server Host (default: 127.0.0.1): ")
      ++ codes "Enter Server Port (default: 9001): ")
    ++ port_note port

abbrev shown_connected : Bytes → Bytes → Bytes
shown_connected host port =
    (shown_first port ++ connecting_line (chosen_host host) (chosen_port port)) ++ connected_line

abbrev shown_before : Bytes → Bytes → Bytes
shown_before host port = shown_connected host port ++ codes "Enter username: "

-- `main` up to the half second of sleep.
begins :
    (w : Surroundings) (host port name : Bytes) (a : Answers) (rest : List Typed)
    → connect w.socket (w.resolved (chosen_host host) (chosen_port port)) ≡ true
    → is_empty (trim name) ≡ false
    → is_valid w.socket ≡ true
    → IsSendable (record { type = login; payload = trim name })
    → 5 + length (trim name) ≤ patience a
    → client_main w (opening host port name a rest)
      ≡ chat rest (w.meanwhile (logged_in w.socket (trim name) (shown_before host port)))
unfolding client_main ask_host ask_port
begins w host port name a rest ok some_byte valid h enough =
    opens w (chosen_host host) (chosen_port port) ((name, a) ∷ rest) (shown_first port) ok
    ∙ (takes_name w name a rest (linked w.socket (shown_connected host port)) some_byte
        ∙ logs_in w (trim name) a rest (shown_before host port) valid h enough)

leaves :
    (c : ChatClient)
    → c.connected ≡ true
    → let run = leave_main 0 (close_application c) in
      (run.outcome ≡ returns 0) × (run.client.sent ≡ c.sent) × (run.client.socket.is_closed ≡ true)
unfolding leave_main close_application disconnect close
leaves c on = (ground arith, ground arith, ground arith)

chat_ends :
    (orders : List (Command × Answers)) (a : Answers) (rest : List Typed) (c : ChatClient)
    → c.connected ≡ true
    → is_valid c.socket ≡ true
    → All IsOrder orders
    → chat (typed_orders orders ++ (typed exit_app, a) ∷ rest) c
      ≡ leave_main 0 (close_application (ordered orders (print help_text c)))
unfolding chat
chat_ends orders a rest c on valid h =
    let ends = orders_then_exit orders a rest (print help_text c) on valid h in
    ap
      (λ b.
        let (d, waiting) =
          chat_rounds (typed_orders orders ++ (typed exit_app, a) ∷ rest) (print help_text c) in
        if b
        then if waiting then still_waits d else leave_main 0 (close_application d)
        else leave_main 1 (print not_authenticated c))
      on
    ∙ ap
        (λ (x : ChatClient × Bool).
          if x.1 then still_waits x.0 else leave_main 0 (close_application x.0))
        ends

-- A whole session of the client program. The user types a host, a port and a name that is not
-- blank, then commands for messages and rooms as the help describes them, and `/exit`. The
-- connection comes up, the socket is valid, the system takes every packet whole, each is within the
-- size limit, and the receive thread only prints a text in the half second after the login. Then the
-- client sends the login and the packet of each command, in this order and nothing else, closes its
-- socket and returns 0.
pub session_sends :
    (w : Surroundings) (host port name text : Bytes) (a b : Answers)
    (orders : List (Command × Answers)) (rest : List Typed)
    → connect w.socket (w.resolved (chosen_host host) (chosen_port port)) ≡ true
    → is_empty (trim name) ≡ false
    → is_valid w.socket ≡ true
    → IsSendable (record { type = login; payload = trim name })
    → 5 + length (trim name) ≤ patience a
    → ((c : ChatClient) → w.meanwhile c ≡ print text c)
    → All IsOrder orders
    → let run =
        client_main w
          (opening host port name a (typed_orders orders ++ (typed exit_app, b) ∷ rest)) in
      (run.outcome ≡ returns 0)
      × (run.client.sent ≡ serialize login (trim name) ++ order_frames orders)
      × (run.client.socket.is_closed ≡ true)
session_sends w host port name text a b orders rest ok some_byte valid h enough prints good =
    let c = print text (logged_in w.socket (trim name) (shown_before host port)) in
    let lines = typed_orders orders ++ (typed exit_app, b) ∷ rest in
    let run =
      begins w host port name a lines ok some_byte valid h enough
      ∙ (ap (chat lines) (prints _) ∙ chat_ends orders b rest c refl valid good) in
    let typed_all = ordered-rest orders (print help_text c) in
    let end = leaves (ordered orders (print help_text c)) typed_all.1 in
    (
      ap (λ (x : ClientRun). x.outcome) run ∙ end.0,
      ap (λ (x : ClientRun). x.client.sent) run ∙ (end.1 ∙ typed_all.0),
      ap (λ (x : ClientRun). x.client.socket.is_closed) run ∙ end.2,
    )

-- A client program that is left by its server in the half second after its login. The user has typed a host,
-- a port and a name that is not blank, the connection came up on a valid socket, and the system took
-- the login, within the size limit, whole; then the receive thread finds the connection lost. The
-- program does not return 1 as it means to: Disconnect does nothing after a loss, so the receive
-- thread is destroyed while it can still be joined, which calls std::terminate.
pub loss_terminates :
    (w : Surroundings) (host port name : Bytes) (a : Answers) (rest : List Typed)
    → connect w.socket (w.resolved (chosen_host host) (chosen_port port)) ≡ true
    → is_empty (trim name) ≡ false
    → is_valid w.socket ≡ true
    → IsSendable (record { type = login; payload = trim name })
    → 5 + length (trim name) ≤ patience a
    → ((c : ChatClient) → w.meanwhile c ≡ lose_connection c)
    → (client_main w (opening host port name a rest)).outcome ≡ terminates
loss_terminates w host port name a rest ok some_byte valid h enough loses =
    let c = logged_in w.socket (trim name) (shown_before host port) in
    ap (λ (x : ClientRun). x.outcome)
      (begins w host port name a rest ok some_byte valid h enough ∙ ap (chat rest) (loses c))
    ∙ (unfold chat lose_connection leave_main disconnect in refl)
