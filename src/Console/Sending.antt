-- ===== src/Console/Sending.antt =====
-- What a typed line puts on the wire.
use distributed_chat_system.Prelude.{
  ◌+◌, ◌≤◌, ◌≡◌, refl, ap, subst, ◌∙◌, true, Option, none, some, [], ◌∷◌, ◌++◌, length, arith,
}
use distributed_chat_system.Text.{Bytes, codes}
use distributed_chat_system.Networking.{Answers, patience, is_valid}
use distributed_chat_system.Protocol.{
  RawPacket, msg_private, msg_room, msg_broadcast, room_create, room_join, room_leave, serialize,
  pack,
}
use distributed_chat_system.Client.{
  ChatClient, print, send_private_message, send_room_message, send_broadcast_message, join_room,
  leave_room, create_room,
}
use distributed_chat_system.Client.Display.{IsSendable}
use distributed_chat_system.Client.Requests.{request-sent}
use distributed_chat_system.Console.{
  Command, nothing, exit_app, logout, help, private_msg, room_msg, create, join, leave, broadcast,
  usage, unknown, command_of, run_command, chat_rounds,
}
use distributed_chat_system.Console.Typing.{IsTypable, typed, command_of-typed}

-- The packet that a command asks for.
abbrev pub wanted : Command → Option RawPacket
wanted (private_msg receiver text) =
    some (record { type = msg_private; payload = pack (receiver ∷ text ∷ []) })
wanted (room_msg room text) = some (record { type = msg_room; payload = pack (room ∷ text ∷ []) })
wanted (create room) = some (record { type = room_create; payload = room })
wanted (join room) = some (record { type = room_join; payload = room })
wanted (leave room) = some (record { type = room_leave; payload = room })
wanted (broadcast text) = some (record { type = msg_broadcast; payload = text })
wanted _ = none

abbrev pub SendsPacket : Option RawPacket → Command → Answers → ChatClient → Type 0
SendsPacket none cmd a c = Unit
SendsPacket (some p) cmd a c =
    IsSendable p
    → 5 + length p.payload ≤ patience a
    → ((run_command cmd a c).1 ≡ true)
      × ((run_command cmd a c).0.sent ≡ c.sent ++ serialize p.type p.payload)

pub run_command-sends :
    (cmd : Command) (a : Answers) (c : ChatClient)
    → c.connected ≡ true
    → is_valid c.socket ≡ true
    → SendsPacket (wanted cmd) cmd a c
unfolding run_command send_private_message send_room_message send_broadcast_message join_room
    leave_room create_room
run_command-sends (private_msg receiver text) a c on valid =
    λ h enough. (refl, request-sent msg_private (pack (receiver ∷ text ∷ [])) a c on valid h enough)
run_command-sends (room_msg room text) a c on valid =
    λ h enough. (refl, request-sent msg_room (pack (room ∷ text ∷ [])) a c on valid h enough)
run_command-sends (create room) a c on valid =
    λ h enough. (refl, request-sent room_create room a c on valid h enough)
run_command-sends (join room) a c on valid =
    λ h enough. (refl, request-sent room_join room a c on valid h enough)
run_command-sends (leave room) a c on valid =
    λ h enough. (refl, request-sent room_leave room a c on valid h enough)
run_command-sends (broadcast text) a c on valid =
    λ h enough. (refl, request-sent msg_broadcast text a c on valid h enough)
run_command-sends nothing a c on valid = tt
run_command-sends exit_app a c on valid = tt
run_command-sends logout a c on valid = tt
run_command-sends help a c on valid = tt
run_command-sends (usage hint) a c on valid = tt
run_command-sends (unknown cmd) a c on valid = tt

abbrev pub prompted : ChatClient → ChatClient
prompted c = print (codes ">>> ") c

-- One round and the next prompt.
chat_rounds_one :
    (line : Bytes) (a : Answers) (c : ChatClient)
    → c.connected ≡ true
    → (run_command (command_of line) a (prompted c)).1 ≡ true
    → (chat_rounds ((line, a) ∷ []) c).0.sent
      ≡ (run_command (command_of line) a (prompted c)).0.sent
unfolding chat_rounds
chat_rounds_one line a c on goes = ground (arith, on, goes)

-- A line that is typed as the help describes a message or a room command leaves a connected client
-- with a valid socket as exactly one packet, of that command's type and arguments, if the packet is
-- within the size limit and the system takes enough bytes.
pub typed_line_sends :
    (cmd : Command) (p : RawPacket) (a : Answers) (c : ChatClient)
    → IsTypable cmd
    → wanted cmd ≡ some p
    → c.connected ≡ true
    → is_valid c.socket ≡ true
    → IsSendable p
    → 5 + length p.payload ≤ patience a
    → (chat_rounds ((typed cmd, a) ∷ []) c).0.sent ≡ c.sent ++ serialize p.type p.payload
typed_line_sends cmd p a c typable asks on valid h enough =
    let read = command_of-typed cmd typable in
    let done =
      subst (λ o. SendsPacket o cmd a (prompted c)) asks
        (run_command-sends cmd a (prompted c) on valid) h enough in
    chat_rounds_one (typed cmd) a c on (ap (λ x. (run_command x a (prompted c)).1) read ∙ done.0)
    ∙ (ap (λ x. (run_command x a (prompted c)).0.sent) read ∙ done.1)
