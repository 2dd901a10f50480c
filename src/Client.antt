-- ===== src/Client.antt =====
-- client/ChatClient: the requests of a client, and what it prints of the packets that it receives.
pub mod Texts
pub mod Display
pub mod Requests
pub mod Endings
pub mod Termination
use distributed_chat_system.Prelude.{
  ℕ, zero, suc, ◌+◌, Bool, true, false, Option, none, some, List, [], ◌∷◌, ◌++◌, if◌then◌else◌,
  length,
}
use distributed_chat_system.Text.{Bytes, bytes_discrete}
use distributed_chat_system.Networking.{
  TcpSocket, is_valid, close, connect, Answers, send_all, Feed,
}
use distributed_chat_system.Protocol.{
  PacketType, login, login_resp, msg_private, msg_room, msg_broadcast, room_join, room_leave,
  room_create, status_update, RawPacket, serialize, read_packet, pack, unpack,
}
use distributed_chat_system.Server.State.Texts.{
  status_tag, success_tag, error_tag, info_tag, one_text,
}
use Texts.{
  login_succeeded, login_failed, private_line, room_line, broadcast_line, broadcast_raw, users_line,
  success_line, info_line, error_line, connection_lost,
}

-- `has_thread` says whether m_receiveThread is joinable: it was started and nobody joined it yet.
-- `sent` is what the system took of all send loops, `printed` what went to std::cout.
pub record ChatClient : Type 0 where
  pub socket : TcpSocket
  pub username : Bytes
  pub connected : Bool
  pub running : Bool
  pub has_thread : Bool
  pub sent : Bytes
  pub printed : Bytes

-- ChatClient(), with the socket that its constructor made.
abbrev pub new_client : TcpSocket → ChatClient
new_client k = record {
  socket = k;
  username = [];
  connected = false;
  running = false;
  has_thread = false;
  sent = [];
  printed = [];
}

-- `resolved` is what the system answered to the socket's Connect.
unfoldable pub connect_client : Option (List Bool) → ChatClient → ChatClient × Bool
connect_client resolved c =
    if c.connected
    then (c, false)
    else if connect c.socket resolved
    then (record c { connected = true; running = true; has_thread = true }, true)
    else (c, false)

-- The receive thread is joined, if there is one.
unfoldable pub disconnect : ChatClient → ChatClient
disconnect c =
    if c.connected
    then record c {
      running = false;
      socket = (close c.socket).0;
      has_thread = false;
      connected = false;
    }
    else c

-- `if (!m_connected) return;`, then Serialize and SendAll, with the system's answers.
unfoldable pub request : PacketType → Bytes → Answers → ChatClient → ChatClient × Bool
request type payload a c =
    let (ok, taken) = send_all (is_valid c.socket) a (serialize type payload) in
    if c.connected then (record c { sent = c.sent ++ taken }, ok) else (c, false)

unfoldable pub send_login : Bytes → Answers → ChatClient → ChatClient × Bool
unfolding request
send_login username a c =
    if c.connected then request login username a (record c { username = username }) else (c, false)

unfoldable pub send_private_message : Bytes → Bytes → Answers → ChatClient → ChatClient
unfolding request
send_private_message receiver message a c =
    (request msg_private (pack (receiver ∷ message ∷ [])) a c).0

unfoldable pub send_room_message : Bytes → Bytes → Answers → ChatClient → ChatClient
unfolding request
send_room_message room message a c = (request msg_room (pack (room ∷ message ∷ [])) a c).0

unfoldable pub send_broadcast_message : Bytes → Answers → ChatClient → ChatClient
unfolding request
send_broadcast_message message a c = (request msg_broadcast message a c).0

unfoldable pub join_room : Bytes → Answers → ChatClient → ChatClient
unfolding request
join_room room a c = (request room_join room a c).0

unfoldable pub leave_room : Bytes → Answers → ChatClient → ChatClient
unfolding request
leave_room room a c = (request room_leave room a c).0

unfoldable pub create_room : Bytes → Answers → ChatClient → ChatClient
unfolding request
create_room room a c = (request room_create room a c).0

abbrev equals : Bytes → Bytes → Bool
equals a b = elim (bytes_discrete a b) [ yes e ↦ true | no e ↦ false ]

unfoldable pub show_login : List Bytes → Bytes
show_login (flag ∷ text ∷ rest) =
    if equals flag one_text then login_succeeded text else login_failed text
show_login _ = []

unfoldable pub show_private : List Bytes → Bytes
show_private (sender ∷ text ∷ rest) = private_line sender text
show_private _ = []

unfoldable pub show_room : List Bytes → Bytes
show_room (sender ∷ room ∷ text ∷ rest) = room_line sender room text
show_room _ = []

unfoldable pub show_broadcast : Bytes → List Bytes → Bytes
show_broadcast payload (sender ∷ text ∷ rest) = broadcast_line sender text
show_broadcast payload _ = broadcast_raw payload

-- `fields[1]`: `none` is a read past the end of the vector, which C++ leaves undefined.
unfoldable pub second : (Bytes → Bytes) → List Bytes → Option Bytes
second line [] = none
second line (text ∷ rest) = some (line text)

unfoldable pub show_status : List Bytes → Option Bytes
unfolding second
show_status [] = some []
show_status (cat ∷ rest) =
    if equals cat status_tag
    then some (users_line rest)
    else if equals cat success_tag
    then second success_line rest
    else if equals cat info_tag
    then second info_line rest
    else if equals cat error_tag
    then second error_line rest
    else some []

-- HandlePacket: what it prints.
unfoldable pub show_packet : PacketType → Bytes → Option Bytes
unfolding show_login show_private show_room show_broadcast show_status
show_packet login_resp payload = some (show_login (unpack payload))
show_packet msg_private payload = some (show_private (unpack payload))
show_packet msg_room payload = some (show_room (unpack payload))
show_packet msg_broadcast payload = some (show_broadcast payload (unpack payload))
show_packet status_update payload = show_status (unpack payload)
show_packet _ payload = some []

abbrev pub print : Bytes → ChatClient → ChatClient
print text c = record c { printed = c.printed ++ text }

unfoldable pub handle_packet : RawPacket → ChatClient → Option ChatClient
unfolding show_packet
handle_packet packet c = elim (show_packet packet.type packet.payload) [
  | none ↦ none
  | some text ↦ some (print text c)
]

-- The end of ReceiveLoop, when no packet could be read.
unfoldable pub lose_connection : ChatClient → ChatClient
lose_connection c =
    if c.running then record (print connection_lost c) { connected = false; running = false } else c

-- What follows a read: the packet is handled and the loop goes on, or the connection is lost.
unfoldable pub after_read :
    Option RawPacket → (ChatClient → Option ChatClient) → ChatClient → Option ChatClient
unfolding handle_packet lose_connection
after_read none next c = some (lose_connection c)
after_read (some packet) next c = elim (handle_packet packet c) [ none ↦ none | some c' ↦ next c' ]

-- `while (m_running)`: one round for each packet, which takes bytes off the stream, so one round more
-- than the stream has bytes is enough.
unfoldable pub receive_rounds : ℕ → Feed → ChatClient → Option ChatClient
unfolding after_read
receive_rounds zero f c = some c
receive_rounds (suc n) f c = elim c.running [
  | false ↦ some c
  | true ↦
      let (read, f') = read_packet (is_valid c.socket) f in after_read read (receive_rounds n f') c
]

unfoldable pub receive_loop : Feed → ChatClient → Option ChatClient
unfolding receive_rounds
receive_loop f c = receive_rounds (length f.stream + 1) f c
