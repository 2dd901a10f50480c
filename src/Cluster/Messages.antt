-- ===== src/Cluster/Messages.antt =====
-- A private message on its whole way from one client to another, on one server and across two.
use distributed_chat_system.Prelude.{
  ℕ, ◌+◌, ◌≤◌, ◌<◌, ◌≡◌, ap, sym, subst, ◌∙◌, true, false, Option, some, List, [], ◌∷◌, ◌++◌, arith,
  length, append-nil, is_positive, drop, drop-length_append,
}
use distributed_chat_system.Text.{Bytes}
use distributed_chat_system.Networking.{Answers, patience, is_valid}
use distributed_chat_system.Protocol.{
  RawPacket, msg_private, status_update, s2s_route_msg, serialize, read_packet, pack,
  max_payload_size,
}
use distributed_chat_system.Protocol.Fields.{IsNulFree, unpack-pack}
use distributed_chat_system.Server.Heartbeat.Timeouts.{heard}
use distributed_chat_system.Server.Users.{same_id, get_user_location}
use distributed_chat_system.Server.Connections.{
  get_session_by_username, get_peer_node, update_heartbeat,
}
use distributed_chat_system.Server.State.{ChatServer, send_buffer}
use distributed_chat_system.Server.State.Sends.{Adds, to_session, frame_for}
use distributed_chat_system.Server.State.Texts.{success_tag, delivered_to, routed_text}
use distributed_chat_system.Server.Clients.{
  username_of, handle_client_packet, dispatch_client, handle_private_msg,
}
use distributed_chat_system.Server.Clients.Deliveries.{handle_private_msg_local, to_found}
use distributed_chat_system.Server.Clients.Routing.{handle_private_msg_remote}
use distributed_chat_system.Server.Peers.{handle_server_packet, dispatch_server}
use distributed_chat_system.Server.Peers.Sync.{handle_s2s_route_msg_private}
use distributed_chat_system.Client.{
  ChatClient, send_private_message, print, lose_connection, receive_loop, show_packet, show_private,
}
use distributed_chat_system.Client.Texts.{private_line}
use distributed_chat_system.Client.Display.{
  receive_loop-frames, read_packet-frame, length-serialize,
}
use distributed_chat_system.Client.Requests.{request-sent}

-- The packet of a private message, as each program sends it.
abbrev pub private_packet : List Bytes → RawPacket
private_packet fields = record { type = msg_private; payload = pack fields }

-- A client that reads the one frame of a private message shows it.
receive_private :
    (sender text : Bytes) (a : Answers) (c : ChatClient)
    → c.running ≡ true
    → is_valid c.socket ≡ true
    → IsNulFree sender
    → IsNulFree text
    → length (pack (sender ∷ text ∷ [])) < max_payload_size
    → 5 + length (pack (sender ∷ text ∷ [])) ≤ patience a
    → receive_loop
        (record { answers = a; stream = serialize msg_private (pack (sender ∷ text ∷ [])) })
        c
      ≡ some (lose_connection (print (private_line sender text) c))
receive_private sender text a c run valid h k short enough =
    let packet = private_packet (sender ∷ text ∷ []) in
    let frame = serialize msg_private packet.payload in
    subst
      (λ st.
        receive_loop (record { answers = a; stream = st }) c
        ≡ some (lose_connection (print (private_line sender text) c)))
      (append-nil frame)
      (receive_loop-frames (packet ∷ []) a c run valid ((tt, short), tt)
          (omega (arith, length-serialize packet (tt, short), ap length (append-nil frame)))
        ∙ (unfold show_packet show_private in
            rw (unpack-pack (sender ∷ text ∷ []) (h, (k, tt))) (
              ap (λ x. some (lose_connection (print x c)))
                (append-nil (private_line sender text)))))

-- What the server reads of a client's private message.
read_private :
    (receiver text : Bytes) (a b : Answers) (c : ChatClient)
    → c.connected ≡ true
    → is_valid c.socket ≡ true
    → length (pack (receiver ∷ text ∷ [])) < max_payload_size
    → 5 + length (pack (receiver ∷ text ∷ [])) ≤ patience a
    → 5 + length (pack (receiver ∷ text ∷ [])) ≤ patience b
    → (read_packet true (record {
      answers = b;
      stream = drop (length c.sent) (send_private_message receiver text a c).sent;
    })).0
      ≡ some (private_packet (receiver ∷ text ∷ []))
unfolding send_private_message
read_private receiver text a b c on valid short enough enough' =
    let packet = private_packet (receiver ∷ text ∷ []) in
    let sent =
      ap (drop (length c.sent))
        (request-sent msg_private packet.payload a c on valid (tt, short) enough)
      ∙ drop-length_append c.sent (serialize msg_private packet.payload) in
    (read_packet-frame packet [] (record { answers = b; stream = _ }) (tt, short)
      (sent ∙ sym (append-nil (serialize msg_private packet.payload))) enough').packet

module _ (receiver text : Bytes) (alice bob : ChatClient) (s : ChatServer) (r : ℕ) (a b d : Answers)
    (alice_on : alice.connected ≡ true) (alice_valid : is_valid alice.socket ≡ true)
    (bob_on : bob.running ≡ true) (bob_valid : is_valid bob.socket ≡ true)
    (name_ok : IsNulFree receiver) (text_ok : IsNulFree text)
    (sender_ok : IsNulFree (username_of r s))
    (logged_in : (s.connections.session_at r).is_authenticated ≡ true)
    (short : length (pack (receiver ∷ text ∷ [])) < max_payload_size)
    (short' : length (pack (username_of r s ∷ text ∷ [])) < max_payload_size)
    (sends_all : 5 + length (pack (receiver ∷ text ∷ [])) ≤ patience a)
    (reads_all : 5 + length (pack (receiver ∷ text ∷ [])) ≤ patience b)
    (shows_all : 5 + length (pack (username_of r s ∷ text ∷ [])) ≤ patience d) where
  -- What the server reads next once it has read all that alice sent before.
  abbrev asked : Option RawPacket
  asked =
      (read_packet true (record {
        answers = b;
        stream = drop (length alice.sent) (send_private_message receiver text a alice).sent;
      })).0

  abbrev packet : RawPacket
  packet = private_packet (receiver ∷ text ∷ [])

  abbrev reply : Bytes
  reply = serialize msg_private (pack (username_of r s ∷ text ∷ []))

  -- A private message between two connected clients of one server, the sender logged in, of fields
  -- without NUL and within the size limit, arrives when the server has the receiver here with a
  -- session that has a socket and the connections move enough bytes: after all that the sender sent
  -- before, the server reads its request, sends one frame to the receiver's socket and reports to the sender, and the receiver's client shows the text under the sender's
  -- name when that frame arrives.
  pub private_message_shown :
      (target k : ℕ)
      → same_id (get_user_location receiver s.users) s.server_id ≡ true
      → get_session_by_username receiver s.connections ≡ some target
      → (s.connections.session_at target).socket ≡ some k
      → (asked ≡ some packet)
        × Adds
            ((k, reply)
              ∷ to_session status_update
                  (success_tag ∷ (delivered_to ++ receiver) ∷ [])
                  s.connections
                  r)
            s
            (handle_client_packet r packet s)
        × (receive_loop (record { answers = d; stream = reply }) bob
            ≡ some (lose_connection (print (private_line (username_of r s) text) bob)))
  unfolding handle_client_packet dispatch_client
  private_message_shown target k here found has = (
    read_private receiver text a b alice alice_on alice_valid short sends_all reads_all,
    rw logged_in (
        subst
          (λ o.
            Adds
              (frame_for msg_private (username_of r s ∷ text ∷ []) o
                ++ to_session status_update (success_tag ∷ (delivered_to ++ receiver) ∷ [])
                    s.connections r)
              s (handle_private_msg r packet.payload s))
          has (handle_private_msg_local r receiver text s target name_ok text_ok here found)),
    receive_private (username_of r s) text d bob bob_on bob_valid sender_ok text_ok short'
        shows_all,
  )

  abbrev routed : RawPacket
  routed = record { type = s2s_route_msg; payload = pack (username_of r s ∷ receiver ∷ text ∷ []) }

  -- A private message between clients of two servers crosses from one to the other. The conditions:
  -- both clients are connected by valid sockets, the receiver's still runs its loop, and the sender
  -- is logged in; the receiver's name, the text and the sender's name have no NUL, and the three
  -- packets are within the size limit; the connections move enough bytes; the sender's server has
  -- the receiver at a peer that is connected and takes the frame, and that peer has a session of the
  -- receiver with a socket. Then, after all that the sender's client sent before, its server reads
  -- the request, sends one frame to the peer and reports to the sender, and nothing else; the peer
  -- reads that frame, notes the time and sends one frame to the receiver's socket, and nothing else; and the
  -- receiver's client shows the text under the sender's name.
  pub private_message_crosses :
      (t : ChatServer) (n k m target k' : ℕ) (e : Answers)
      → length routed.payload < max_payload_size
      → 5 + length routed.payload ≤ patience e
      → same_id (get_user_location receiver s.users) s.server_id ≡ false
      → is_positive (get_user_location receiver s.users) ≡ true
      → get_peer_node (get_user_location receiver s.users) s.connections ≡ some n
      → (s.connections.node_at n).is_connected ≡ true
      → (s.connections.node_at n).socket ≡ some k
      → (send_buffer k (serialize s2s_route_msg routed.payload) s).1 ≡ true
      → get_session_by_username receiver t.connections ≡ some target
      → (t.connections.session_at target).socket ≡ some k'
      → (asked ≡ some packet)
        × Adds
            ((k, serialize s2s_route_msg routed.payload)
              ∷ to_session status_update (success_tag ∷ routed_text ∷ []) s.connections r)
            s
            (handle_client_packet r packet s)
        × ((read_packet true
              (record { answers = e; stream = serialize s2s_route_msg routed.payload })).0
            ≡ some routed)
        × Adds ((k', reply) ∷ []) (heard m t) (handle_server_packet m routed t)
        × (receive_loop (record { answers = d; stream = reply }) bob
            ≡ some (lose_connection (print (private_line (username_of r s) text) bob)))
  unfolding handle_client_packet dispatch_client handle_server_packet dispatch_server
      update_heartbeat get_session_by_username
  private_message_crosses t n k m target k' e fits reads away known peer on has ok found has' = (
    read_private receiver text a b alice alice_on alice_valid short sends_all reads_all,
    rw logged_in
        (handle_private_msg_remote r receiver text s name_ok text_ok away known n k peer on has ok),
    (read_packet-frame routed []
        (record { answers = e; stream = serialize s2s_route_msg routed.payload }) (tt, fits)
        (sym (append-nil (serialize s2s_route_msg routed.payload))) reads).packet,
    subst
        (λ o.
          Adds (frame_for msg_private (username_of r s ∷ text ∷ []) o) (heard m t)
            (handle_server_packet m routed t))
        has'
        (subst
          (λ o.
            Adds (to_found msg_private (username_of r s ∷ text ∷ []) (heard m t).connections o)
              (heard m t) (handle_server_packet m routed t))
          found
          (handle_s2s_route_msg_private (username_of r s) (heard m t) sender_ok receiver text
            name_ok text_ok)),
    receive_private (username_of r s) text d bob bob_on bob_valid sender_ok text_ok short'
        shows_all,
  )
