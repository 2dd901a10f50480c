-- ===== src/Tests/Lines.antt =====
-- Typed lines, the client's receive loop, the log and the socket library at concrete inputs.
use distributed_chat_system.Prelude.{
  ℕ, zero, suc, ◌+◌, ◌<◌, ◌≡◌, refl, true, List, [], ◌∷◌, arith, length,
}
use distributed_chat_system.Text.{Bytes, codes}
use distributed_chat_system.Networking.{Answers, moves, fails, new_socket, recv_all, Feed}
use distributed_chat_system.Networking.Winsock.{Winsock, new_winsock, initialize_winsock}
use distributed_chat_system.Protocol.{
  RawPacket, msg_private, pack, read_packet, max_payload_size, of_be32,
}
use distributed_chat_system.Protocol.Bounds.{read_packet-bounded}
use distributed_chat_system.Client.{ChatClient, new_client, receive_loop, receive_rounds}
use distributed_chat_system.Client.Termination.{Ended, receive_loop_ends}
use distributed_chat_system.Logging.{Entry, info_level, debug_level}
use distributed_chat_system.Tests.Scene.{alice, lobby, hello}

abbrev client : ChatClient
client = record (new_client (new_socket 7)) { connected = true; running = true; has_thread = true }

-- The system moves one byte at a time.
abbrev slow : ℕ → Answers
slow zero = fails
slow (suc n) = moves 0 (slow n)

abbrev message : RawPacket
message = record { type = msg_private; payload = pack (alice ∷ hello ∷ []) }

-- A frame that is cut off in the middle.
abbrev cut_off : Bytes
cut_off = 0 ∷ 0 ∷ 0 ∷ 9 ∷ 2 ∷ 65 ∷ []

receive_loop_ends_example :
    Ended (receive_loop (record { answers = slow 30; stream = cut_off }) client)
    × (receive_rounds 9 (record { answers = slow 30; stream = cut_off }) client
        ≡ receive_loop (record { answers = slow 30; stream = cut_off }) client)
receive_loop_ends_example =
    receive_loop_ends (record { answers = slow 30; stream = cut_off }) client 9 (omega arith)

-- A whole frame, and a byte of the next one.
abbrev greeting : Feed
greeting = record { answers = slow 30; stream = 0 ∷ 0 ∷ 0 ∷ 2 ∷ 3 ∷ 65 ∷ 66 ∷ [] }

read_packet-bounded_example :
    (1 < max_payload_size)
    × (length greeting.stream ≡ 5 + 1 + length (read_packet true greeting).1.stream)
unfolding read_packet recv_all of_be32
read_packet-bounded_example =
    read_packet-bounded true greeting (record { type = msg_private; payload = 65 ∷ [] }) refl

abbrev entries : List Entry
entries =
    record { level = info_level; message = hello; category = lobby; time_str = codes "12:00" }
    ∷ record { level = debug_level; message = hello; category = lobby; time_str = codes "12:01" }
    ∷ []

abbrev two_sockets : Winsock
two_sockets = initialize_winsock true (initialize_winsock true new_winsock)
