-- ===== src/Client/Requests.antt =====
-- What the server reads of what a client sends.
use distributed_chat_system.Prelude.{◌+◌, ◌≤◌, ◌≡◌, ap, ◌∙◌, Bool, true, ◌++◌, arith, length}
use distributed_chat_system.Text.{Bytes}
use distributed_chat_system.Networking.{Answers, patience, is_valid, send_all}
use distributed_chat_system.Networking.Sending.{send_all_enough}
use distributed_chat_system.Protocol.{PacketType, serialize}
use distributed_chat_system.Client.{ChatClient, request}
use distributed_chat_system.Client.Display.{IsSendable, length-serialize}

sends_when :
    (type : PacketType) (payload : Bytes) (a : Answers) (c : ChatClient)
    → c.connected ≡ true
    → is_valid c.socket ≡ true
    → request type payload a c ≡ (
      record c { sent = c.sent ++ (send_all true a (serialize type payload)).1 },
      (send_all true a (serialize type payload)).0,
    )
unfolding request
sends_when type payload a c on valid = ground arith

-- A request of a connected client leaves whole, if the system takes enough bytes.
pub request-sent :
    (type : PacketType) (payload : Bytes) (a : Answers) (c : ChatClient)
    → c.connected ≡ true
    → is_valid c.socket ≡ true
    → IsSendable (record { type = type; payload = payload })
    → 5 + length payload ≤ patience a
    → (request type payload a c).0.sent ≡ c.sent ++ serialize type payload
unfolding request
request-sent type payload a c on valid h enough =
    let whole =
      send_all_enough a (serialize type payload)
        (omega (arith, length-serialize (record { type = type; payload = payload }) h)) in
    ap (λ (x : ChatClient × Bool). x.0.sent) (sends_when type payload a c on valid)
    ∙ ap (λ (x : Bool × Bytes). c.sent ++ x.1) whole
