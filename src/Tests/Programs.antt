-- ===== src/Tests/Programs.antt =====
-- The programs at concrete inputs: typed lines, a configuration, clients and their messages.
use distributed_chat_system.Prelude.{
  ℕ, zero, suc, ◌≡◌, refl, pos, true, some, List, [], ◌∷◌, arith, ℤ_discrete, drop, length, Option,
  if◌then◌else◌, ◌==◌,
}
use distributed_chat_system.Text.{Bytes, codes, bytes_discrete, is_blank, has_byte}
use distributed_chat_system.Dict.{lookup}
use distributed_chat_system.Networking.{Answers, moves, fails, new_socket}
use distributed_chat_system.Protocol.{
  RawPacket, login, msg_private, msg_room, status_update, s2s_route_msg, serialize, read_packet,
  pack,
}
use distributed_chat_system.Config.{new_config, load, get_string, is_comment}
use distributed_chat_system.Config.Entries.{print_config, load-print_config}
use distributed_chat_system.Console.{Command, private_msg}
use distributed_chat_system.Console.Typing.{IsTypable}
use distributed_chat_system.Client.{ChatClient, new_client, receive_loop, lose_connection, print}
use distributed_chat_system.Client.{send_private_message}
use distributed_chat_system.Client.Texts.{private_line}
use distributed_chat_system.Server.Users.{get_user_location}
use distributed_chat_system.Server.Connections.{get_session_by_username, get_peer_node}
use distributed_chat_system.Server.State.{ChatServer, send_buffer}
use distributed_chat_system.Server.State.Sends.{Adds}
use distributed_chat_system.Server.State.Texts.{success_tag, routed_text}
use distributed_chat_system.Server.Clients.{handle_client_packet}
use distributed_chat_system.Server.Peers.{handle_server_packet}
use distributed_chat_system.Server.Heartbeat.Timeouts.{heard}
use distributed_chat_system.Networking.{send_all}
use distributed_chat_system.Cluster.Messages.{private_packet, private_message_crosses}
use distributed_chat_system.Tests.Scene.{
  alice, bob, lobby, hello, scene, connections, alice_session,
}

abbrev to_bob : Command
to_bob = private_msg bob hello

to_bob-IsTypable : IsTypable to_bob
unfolding is_blank has_byte
to_bob-IsTypable = (
  record { some_byte = refl; starts = refl; no_space = refl },
  record { some_byte = refl; ends = refl },
)

abbrev entries : List (Bytes × Bytes)
entries = (codes "server_id", codes "2") ∷ []

load-print_config_example :
    ((load (some (print_config entries)) new_config).1 ≡ true)
    × (get_string (codes "server_id") [] (load (some (print_config entries)) new_config).0
        ≡ codes "2")
unfolding lookup bytes_discrete is_blank has_byte is_comment
load-print_config_example = load-print_config entries new_config (codes "server_id") [] (
  record {
    key_some = refl;
    key_starts = refl;
    key_ends = refl;
    key_no_equals = refl;
    key_no_comment = refl;
    key_one_line = refl;
    value_some = refl;
    value_starts = refl;
    value_ends = refl;
    value_one_line = refl;
  },
  tt,
)

abbrev client : ChatClient
client = record (new_client (new_socket 7)) { connected = true; running = true }

-- Server 1 with alice in session 0 and bob in session 1.
abbrev town : ChatServer
town = record scene {
  connections = record connections {
    session_at = λ r.
        if r == 0
        then alice_session
        else record alice_session { socket = some 1; username = bob; joined_rooms = [] };
    sessions_by_username = (alice, 0) ∷ (bob, 1) ∷ [];
  };
  users = record { user_locations = (alice, pos 1) ∷ (bob, pos 1) ∷ []; local_server_id = pos 1 };
}

abbrev greetings : List RawPacket
greetings =
    record { type = msg_private; payload = pack (alice ∷ hello ∷ []) }
    ∷ record { type = msg_room; payload = pack (alice ∷ lobby ∷ hello ∷ []) }
    ∷ []

-- The system moves one byte at a time.
abbrev slow : ℕ → Answers
slow zero = fails
slow (suc n) = moves 0 (slow n)

-- The client of alice, who has logged in.
abbrev alice_client : ChatClient
alice_client = record client { sent = serialize login alice }

-- What alice's client sends when the user typed a message to bob.
abbrev asked : Option RawPacket
asked =
    (read_packet true (record {
      answers = slow 30;
      stream =
          drop (length alice_client.sent)
            (send_private_message bob hello (slow 30) alice_client).sent;
    })).0

abbrev reply : Bytes
reply = serialize msg_private (pack (alice ∷ hello ∷ []))

abbrev routed : RawPacket
routed = record { type = s2s_route_msg; payload = pack (alice ∷ bob ∷ hello ∷ []) }

private_message_crosses_example :
    (asked ≡ some (private_packet (bob ∷ hello ∷ [])))
    × Adds
        ((2, serialize s2s_route_msg routed.payload)
          ∷ (0, serialize status_update (pack (success_tag ∷ routed_text ∷ [])))
          ∷ [])
        scene
        (handle_client_packet 0 (private_packet (bob ∷ hello ∷ [])) scene)
    × ((read_packet true
          (record { answers = slow 30; stream = serialize s2s_route_msg routed.payload })).0
        ≡ some routed)
    × Adds ((1, reply) ∷ []) (heard 0 town) (handle_server_packet 0 routed town)
    × (receive_loop (record { answers = slow 30; stream = reply }) client
        ≡ some (lose_connection (print (private_line alice hello) client)))
unfolding get_user_location get_session_by_username get_peer_node lookup bytes_discrete ℤ_discrete
    pack send_buffer send_all serialize
private_message_crosses_example =
    private_message_crosses bob hello alice_client client scene 0 (slow 30) (slow 30) (slow 30) refl
      refl refl refl (omega arith) (omega arith) (omega arith) refl (omega arith) (omega arith)
      (omega arith) (omega arith) (omega arith) town 0 2 0 1 1 (slow 30) (omega arith) (omega arith)
      refl refl refl refl refl refl refl refl
