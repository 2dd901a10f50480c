-- ===== src/Tests/Crossing.antt =====
-- Messages to many and a login on the scene, where both send loops to the peer succeed.
use distributed_chat_system.Prelude.{
  ℕ, zero, suc, ◌≡◌, refl, ap, sym, ◌∙◌, ℤ_discrete, subst, Option, none, pos, true, some, List, [],
  ◌∷◌, ◌++◌, arith,
}
use distributed_chat_system.Text.{Bytes, codes, trim, bytes_discrete}
use distributed_chat_system.Text.Decimal.{to_string}
use distributed_chat_system.Dict.{lookup, contains}
use distributed_chat_system.Networking.{Answers, moves, fails, send_all, is_valid}
use distributed_chat_system.Protocol.{
  RawPacket, msg_broadcast, msg_room, s2s_route_msg, s2s_route_room_msg, s2s_replicate_user,
  serialize, read_packet, pack,
}
use distributed_chat_system.Server.Users.{get_user_location, is_user_online}
use distributed_chat_system.Server.Rooms.{get_local_members, get_remote_servers}
use distributed_chat_system.Server.Connections.{
  is_in_room, authenticate_session, get_peer_node, update_heartbeat,
}
use distributed_chat_system.Server.State.{ChatServer}
use distributed_chat_system.Server.State.Sends.{Adds, to_all_authenticated}
use distributed_chat_system.Server.State.Texts.{one_text}
use distributed_chat_system.Server.Replication.{notice}
use distributed_chat_system.Server.Replication.Reach.{PeersTake, to_peers, to_servers}
use distributed_chat_system.Server.Clients.{
  handle_broadcast_msg, handle_room_msg, handle_login, sign_on, is_bad_name,
}
use distributed_chat_system.Server.Clients.Deliveries.{to_users}
use distributed_chat_system.Server.Clients.Broadcasts.{
  handle_broadcast_msg-Adds, handle_room_msg-Adds, login_frames,
}
use distributed_chat_system.Server.Peers.{handle_server_packet}
use distributed_chat_system.Cluster.Rooms.{Among, room_notice, room_frames, room_message_crosses}
use distributed_chat_system.Server.Heartbeat.Timeouts.{heard}
use distributed_chat_system.Cluster.Presence.{login_notice, login_crosses}
use distributed_chat_system.Tests.Scene.{alice, lobby, hello, scene, taking, connections}

abbrev carol : Bytes
carol = codes "carol"

abbrev or_two : Option ℕ → ℕ
or_two none = 2
or_two (some k) = k

-- The peer's socket takes a frame that the answers let through.
pub peers_take :
    (frame : Bytes)
    → (send_all true (taking [] 2 frame) frame).0 ≡ true
    → PeersTake frame connections taking
peers_take frame ok = λ n k wire on has.
    subst
      (λ j. (send_all (is_valid (connections.socket_at j)) (taking wire j frame) frame).0 ≡ true)
      (ap or_two has) ok

abbrev hello_fields : List Bytes
hello_fields = alice ∷ hello ∷ []

abbrev lobby_fields : List Bytes
lobby_fields = alice ∷ lobby ∷ hello ∷ []

handle_broadcast_msg-Adds_example :
    Adds
      (to_all_authenticated msg_broadcast hello_fields connections
        ++ to_peers (serialize s2s_route_msg (pack hello_fields)) connections)
      scene
      (handle_broadcast_msg 0 hello scene)
unfolding send_all serialize pack
handle_broadcast_msg-Adds_example =
    handle_broadcast_msg-Adds 0 scene hello
      (peers_take (serialize s2s_route_msg (pack hello_fields)) refl)

handle_room_msg-Adds_example :
    Adds
      (to_users msg_room lobby_fields connections (get_local_members lobby scene.rooms)
        ++ to_servers
            (serialize s2s_route_room_msg (pack lobby_fields))
            connections
            (get_remote_servers lobby scene.rooms))
      scene
      (handle_room_msg 0 (pack (lobby ∷ hello ∷ [])) scene)
unfolding is_in_room contains bytes_discrete send_all serialize pack
handle_room_msg-Adds_example =
    handle_room_msg-Adds 0 scene lobby hello (omega arith) (omega arith) refl
      (peers_take (serialize s2s_route_room_msg (pack lobby_fields)) refl)

abbrev carol_notice : RawPacket
carol_notice = login_notice 1 (trim carol) scene

abbrev carol_on : ChatServer
carol_on = sign_on 1 (trim carol) scene

-- The system moves one byte at a time.
abbrev slow : ℕ → Answers
slow zero = fails
slow (suc n) = moves 0 (slow n)

-- Server 2 of the cluster, with a node for server 1.
abbrev other : ChatServer
other = record scene { server_id = pos 2 }

login_crosses_example :
    Adds (login_frames 1 (trim carol) carol_on) carol_on (handle_login 1 carol scene)
    × ((read_packet true (record {
      answers = slow 40;
      stream = serialize s2s_replicate_user carol_notice.payload ++ hello;
    })).0
        ≡ some carol_notice)
    × (get_user_location (trim carol) (handle_server_packet 0 carol_notice other).users ≡ pos 1)
    × (is_user_online (trim carol) (handle_server_packet 0 carol_notice other).users ≡ true)
unfolding is_bad_name is_user_online lookup bytes_discrete trim notice to_string sign_on
    authenticate_session send_all serialize pack one_text
login_crosses_example =
    login_crosses 1 0 carol scene other (slow 40) hello refl refl (omega arith) (omega arith)
      (omega arith) (peers_take (serialize s2s_replicate_user carol_notice.payload) refl)

heard_socket_two : (n : ℕ) → ((heard 0 scene).connections.node_at n).socket ≡ some 2
unfolding update_heartbeat
heard_socket_two n = ground arith

heard-PeersTake :
    (frame : Bytes)
    → (send_all true (taking [] 2 frame) frame).0 ≡ true
    → PeersTake frame (heard 0 scene).connections taking
heard-PeersTake frame ok = λ n k wire on has.
    subst
      (λ j. (send_all (is_valid (connections.socket_at j)) (taking wire j frame) frame).0 ≡ true)
      (ap or_two (sym (heard_socket_two n) ∙ has)) ok

abbrev lobby_routed : RawPacket
lobby_routed = record { type = s2s_route_room_msg; payload = pack lobby_fields }

abbrev lobby_frame : Bytes
lobby_frame = serialize s2s_route_room_msg lobby_routed.payload

room_message_crosses_example :
    let t = handle_server_packet 0 (room_notice lobby other) scene in
    let frames = room_frames 0 0 2 0 lobby hello scene other t in
    Adds frames t (handle_room_msg 0 (pack (lobby ∷ hello ∷ [])) t)
    × Among (2, lobby_frame) frames
    × ((read_packet true (record { answers = slow 40; stream = lobby_frame ++ hello })).0
        ≡ some lobby_routed)
    × Adds
        (to_users msg_room lobby_fields other.connections (get_local_members lobby other.rooms))
        (heard 0 other)
        (handle_server_packet 0 lobby_routed other)
unfolding is_in_room contains bytes_discrete get_peer_node lookup ℤ_discrete send_all serialize pack
room_message_crosses_example =
    room_message_crosses 0 0 2 0 lobby hello scene other (slow 40) hello (omega arith) (omega arith)
      (omega arith) (omega arith) refl refl refl refl (omega arith) (omega arith)
      (heard-PeersTake lobby_frame refl)
