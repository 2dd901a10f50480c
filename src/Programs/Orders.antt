-- ===== src/Programs/Orders.antt =====
-- What the commands of a session put on the wire, one after the other.
use distributed_chat_system.Prelude.{
  ◌+◌, ◌≤◌, ◌≡◌, refl, ap, sym, ◌∙◌, Bool, true, false, Option, none, some, List, [], ◌∷◌, ◌++◌,
  length, All, append_assoc, append-nil, if◌then◌else◌,
}
use distributed_chat_system.Text.{Bytes}
use distributed_chat_system.Networking.{Answers, patience, is_valid, send_all}
use distributed_chat_system.Protocol.{RawPacket, PacketType, serialize}
use distributed_chat_system.Client.{
  ChatClient, request, send_private_message, send_room_message, send_broadcast_message, join_room,
  leave_room, create_room,
}
use distributed_chat_system.Client.Display.{IsSendable}
use distributed_chat_system.Console.{
  Command, nothing, exit_app, logout, help, private_msg, room_msg, create, join, leave, broadcast,
  usage, unknown, command_of, run_command, chat_rounds,
}
use distributed_chat_system.Console.Typing.{IsTypable, typed, command_of-typed}
use distributed_chat_system.Console.Sending.{wanted, SendsPacket, run_command-sends, prompted}
use distributed_chat_system.Programs.ClientMain.{Typed}

request_only_sends :
    (type : PacketType) (payload : Bytes) (a : Answers) (c : ChatClient)
    → (request type payload a c).0 ≡ record c { sent = (request type payload a c).0.sent }
unfolding request
request_only_sends type payload a c = cases c.connected
  where
    cases :
        (b : Bool)
        → let (ok, taken) = send_all (is_valid c.socket) a (serialize type payload) in
          let r : ChatClient × Bool =
            if b then (record c { sent = c.sent ++ taken }, ok) else (c, false) in
          r.0 ≡ record c { sent = r.0.sent }
    cases true = refl
    cases false = refl

-- A command with a packet changes what was sent and nothing else.
abbrev OnlySends : Option RawPacket → Command → Answers → ChatClient → Type 0
OnlySends none cmd a c = Unit
OnlySends (some p) cmd a c =
    (run_command cmd a c).0 ≡ record c { sent = (run_command cmd a c).0.sent }

run_command-OnlySends :
    (cmd : Command) (a : Answers) (c : ChatClient) → OnlySends (wanted cmd) cmd a c
unfolding run_command send_private_message send_room_message send_broadcast_message join_room
    leave_room create_room
run_command-OnlySends (private_msg receiver text) a c = request_only_sends _ _ a c
run_command-OnlySends (room_msg room text) a c = request_only_sends _ _ a c
run_command-OnlySends (create room) a c = request_only_sends _ _ a c
run_command-OnlySends (join room) a c = request_only_sends _ _ a c
run_command-OnlySends (leave room) a c = request_only_sends _ _ a c
run_command-OnlySends (broadcast text) a c = request_only_sends _ _ a c
run_command-OnlySends nothing a c = tt
run_command-OnlySends exit_app a c = tt
run_command-OnlySends logout a c = tt
run_command-OnlySends help a c = tt
run_command-OnlySends (usage hint) a c = tt
run_command-OnlySends (unknown cmd) a c = tt

-- A command and the system's answers to its send loop, which take its packet whole.
abbrev Asks : Option RawPacket → Answers → Type 0
Asks none a = ⊥
Asks (some p) a = IsSendable p × (5 + length p.payload ≤ patience a)

abbrev pub IsOrder : Command × Answers → Type 0
IsOrder (cmd, a) = IsTypable cmd × Asks (wanted cmd) a

abbrev pub frame_of : Option RawPacket → Bytes
frame_of none = []
frame_of (some p) = serialize p.type p.payload

-- The packets of commands, one after the other.
abbrev pub order_frames : List (Command × Answers) → Bytes
order_frames [] = []
order_frames ((cmd, a) ∷ orders) = frame_of (wanted cmd) ++ order_frames orders

abbrev pub typed_orders : List (Command × Answers) → List Typed
typed_orders [] = []
typed_orders ((cmd, a) ∷ orders) = (typed cmd, a) ∷ typed_orders orders

-- One round of the loop at the prompt: `goes` says whether there is another.
chat_rounds_step :
    (cmd : Command) (a : Answers) (rest : List Typed) (c d : ChatClient) (goes : Bool)
    → c.connected ≡ true
    → IsTypable cmd
    → run_command cmd a (prompted c) ≡ (d, goes)
    → chat_rounds ((typed cmd, a) ∷ rest) c
      ≡ (elim goes [ true ↦ chat_rounds rest d | false ↦ (d, false) ])
unfolding chat_rounds
chat_rounds_step cmd a rest c d goes on typable e =
    let same = ap (λ x. run_command x a (prompted c)) (command_of-typed cmd typable) ∙ e in
    ap
      (λ b. elim b [
        | false ↦ (c, false)
        | true ↦
            let (x, more) = run_command (command_of (typed cmd)) a (prompted c) in
            elim more [ true ↦ chat_rounds rest x | false ↦ (x, false) ]
      ])
      on
    ∙ ap
        (λ (x : ChatClient × Bool). elim x.1 [ true ↦ chat_rounds rest x.0 | false ↦ (x.0, false) ])
        same

-- What an order leaves of the client.
run_order :
    (o : Option RawPacket) (cmd : Command) (a : Answers) (c : ChatClient)
    → Asks o a
    → SendsPacket o cmd a c
    → OnlySends o cmd a c
    → run_command cmd a c ≡ (record c { sent = c.sent ++ frame_of o }, true)
run_order none cmd a c asks sends only = absurd asks
run_order (some p) cmd a c asks sends only =
    let s = sends asks.0 asks.1 in
    let client = only ∙ ap (λ (t : Bytes). record c { sent = t }) s.1 in λ i. (client i, s.0 i)

-- The state of a client after a prompt for each order, and their packets sent.
abbrev pub ordered : List (Command × Answers) → ChatClient → ChatClient
ordered [] c = prompted c
ordered ((cmd, a) ∷ orders) c =
    ordered orders (record (prompted c) { sent = c.sent ++ frame_of (wanted cmd) })

pub orders_then_exit :
    (orders : List (Command × Answers)) (a : Answers) (rest : List Typed) (c : ChatClient)
    → c.connected ≡ true
    → is_valid c.socket ≡ true
    → All IsOrder orders
    → chat_rounds (typed_orders orders ++ (typed exit_app, a) ∷ rest) c ≡ (ordered orders c, false)
orders_then_exit [] a rest c on valid h =
    chat_rounds_step exit_app a rest c (prompted c) false on tt (unfold run_command in refl)
orders_then_exit ((cmd, b) ∷ orders) a rest c on valid h =
    let after = record (prompted c) { sent = c.sent ++ frame_of (wanted cmd) } in
    chat_rounds_step cmd b (typed_orders orders ++ (typed exit_app, a) ∷ rest) c after true on h.0.0
      (run_order (wanted cmd) cmd b (prompted c) h.0.1
        (run_command-sends cmd b (prompted c) on valid) (run_command-OnlySends cmd b (prompted c)))
    ∙ orders_then_exit orders a rest after on valid h.1

pub ordered-rest :
    (orders : List (Command × Answers)) (c : ChatClient)
    → ((ordered orders c).sent ≡ c.sent ++ order_frames orders)
      × ((ordered orders c).connected ≡ c.connected)
ordered-rest [] c = (sym (append-nil c.sent), refl)
ordered-rest ((cmd, a) ∷ orders) c =
    let r = ordered-rest orders (record (prompted c) { sent = c.sent ++ frame_of (wanted cmd) }) in
    (r.0 ∙ append_assoc c.sent (frame_of (wanted cmd)) (order_frames orders), r.1)
