-- ===== src/Cluster/Rooms.antt =====
-- A message to a room with members on two servers.
use distributed_chat_system.Prelude.{
  ℕ, ℤ, ◌+◌, ◌≤◌, ◌<◌, ◌≡◌, refl, ap, sym, subst, ◌∙◌, true, some, List, [], ◌∷◌, ◌++◌, arith,
  length, append_assoc, ℤ_discrete, if_pos, if_neg,
}
use distributed_chat_system.Text.{Bytes, bytes_discrete}
use distributed_chat_system.Text.Decimal.{IsInt}
use distributed_chat_system.Dict.{contains}
use distributed_chat_system.Networking.{Answers, patience}
use distributed_chat_system.Protocol.{
  RawPacket, msg_room, s2s_room_member_sync, s2s_route_room_msg, serialize, read_packet, pack,
  max_payload_size,
}
use distributed_chat_system.Protocol.Fields.{IsNulFree}
use distributed_chat_system.Server.Heartbeat.Timeouts.{heard, heard_socket}
use distributed_chat_system.Server.Rooms.{
  ChatRoomManager, join_room_remote, get_local_members, get_remote_servers,
}
use distributed_chat_system.Server.Rooms.Refinement.{
  apply, apply-refines, is_remote, remote_after, joins_there,
}
use distributed_chat_system.Server.Connections.{
  Connections, get_peer_node, get_session_by_username, is_in_room, update_heartbeat,
}
use distributed_chat_system.Server.State.{ChatServer}
use distributed_chat_system.Server.State.Texts.{one_text}
use distributed_chat_system.Server.State.Sends.{Adds}
use distributed_chat_system.Server.Replication.{notice}
use distributed_chat_system.Server.Replication.Reach.{PeersTake, to_server, to_servers, to_node}
use distributed_chat_system.Server.Clients.{username_of, handle_room_msg}
use distributed_chat_system.Server.Clients.Deliveries.{to_users}
use distributed_chat_system.Server.Clients.Broadcasts.{handle_room_msg-Adds}
use distributed_chat_system.Server.Peers.{handle_server_packet, dispatch_server}
use distributed_chat_system.Server.Peers.Sync.{
  handle_s2s_room_member_sync-notice, handle_s2s_route_room_msg-Adds,
}
use distributed_chat_system.Client.Display.{read_packet-frame}

-- What server `b` tells its peers when it has members of a room.
abbrev pub room_notice : Bytes → ChatServer → RawPacket
room_notice room b = record { type = s2s_room_member_sync; payload = notice room one_text b }

-- Server `a` once it was told.
abbrev told : ℕ → Bytes → ChatServer → ChatServer → ChatServer
told n room b a = record (heard n a) { rooms = join_room_remote room b.server_id a.rooms }

told_lem :
    (n : ℕ) (room : Bytes) (a b : ChatServer)
    → IsNulFree room
    → IsInt b.server_id
    → handle_server_packet n (room_notice room b) a ≡ told n room b a
unfolding handle_server_packet dispatch_server
told_lem n room a b h int = handle_s2s_room_member_sync-notice room true b (heard n a) h int

told-is_remote :
    (room : Bytes) (id : ℤ) (m : ChatRoomManager)
    → is_remote (join_room_remote room id m) room id ≡ true
told-is_remote room id m =
    unfold apply remote_after in
    (apply-refines (joins_there room id) m room).1 id
    ∙ (if_pos (bytes_discrete room room) refl _ _ ∙ if_pos (ℤ_discrete id id) refl _ _)

-- The frame for a server of a list is among the frames for the list.
abbrev pub Among : ℕ × Bytes → List (ℕ × Bytes) → Type 0
Among x xs = (before : List (ℕ × Bytes)) × (after : List (ℕ × Bytes)) × (xs ≡ before ++ x ∷ after)

Among-append : (x : ℕ × Bytes) (ys xs : List (ℕ × Bytes)) → Among x xs → Among x (ys ++ xs)
Among-append x ys xs (before, after, e) =
    (ys ++ before, after, ap (λ z. ys ++ z) e ∙ sym (append_assoc ys before (x ∷ after)))

to_servers-Among :
    (frame : Bytes) (c : Connections) (id : ℤ) (k : ℕ) (ids : List ℤ)
    → contains ℤ_discrete id ids ≡ true
    → to_server frame c id ≡ (k, frame) ∷ []
    → Among (k, frame) (to_servers frame c ids)
unfolding contains
to_servers-Among frame c id k [] h one = absurd (cc h)
to_servers-Among frame c id k (j ∷ ids) h one = elim (ℤ_discrete id j) [
  | yes e ↦ (
    [],
    to_servers frame c ids,
    ap (λ x. x ++ to_servers frame c ids)
        (subst (λ i. to_server frame c i ≡ (k, frame) ∷ []) e one),
  )
  | no ne ↦
      Among-append (k, frame) (to_server frame c j) (to_servers frame c ids)
        (to_servers-Among frame c id k ids (sym (if_neg (ℤ_discrete id j) ne _ _) ∙ h) one)
]

heard_on :
    (n : ℕ) (a : ChatServer)
    → (a.connections.node_at n).is_connected ≡ true
    → ((heard n a).connections.node_at n).is_connected ≡ true
unfolding update_heartbeat
heard_on n a on = ground arith

to_node-linked :
    (frame : Bytes) (n k : ℕ) (c : Connections)
    → (c.node_at n).is_connected ≡ true
    → (c.node_at n).socket ≡ some k
    → to_node frame c n ≡ (k, frame) ∷ []
to_node-linked frame n k c on has = rw (on, has) refl

to_server-linked :
    (frame : Bytes) (id : ℤ) (n k : ℕ) (c : Connections)
    → get_peer_node id c ≡ some n
    → (c.node_at n).is_connected ≡ true
    → (c.node_at n).socket ≡ some k
    → to_server frame c id ≡ (k, frame) ∷ []
to_server-linked frame id n k c known on has = rw known (to_node-linked frame n k c on has)

module _ (r n k m : ℕ) (room text : Bytes) (a b : ChatServer) where
  abbrev fields : List Bytes
  fields = username_of r a ∷ room ∷ text ∷ []

  abbrev routed : RawPacket
  routed = record { type = s2s_route_room_msg; payload = pack fields }

  abbrev frame : Bytes
  frame = serialize s2s_route_room_msg routed.payload

  -- What `a` sends: to its own members of the room, and to the servers that it lists for it.
  abbrev pub room_frames : ChatServer → List (ℕ × Bytes)
  room_frames t =
      to_users msg_room fields t.connections (get_local_members room t.rooms)
      ++ to_servers frame t.connections (get_remote_servers room t.rooms)

  room_frames-Among :
      (t : ChatServer)
      → is_remote t.rooms room b.server_id ≡ true
      → get_peer_node b.server_id t.connections ≡ some n
      → (t.connections.node_at n).is_connected ≡ true
      → (t.connections.node_at n).socket ≡ some k
      → Among (k, frame) (room_frames t)
  room_frames-Among t listed known on has =
      Among-append (k, frame)
        (to_users msg_room fields t.connections (get_local_members room t.rooms)) _
        (to_servers-Among frame t.connections b.server_id k (get_remote_servers room t.rooms) listed
          (to_server-linked frame b.server_id n k t.connections known on has))

  -- A room with members on two servers. Server `b`, a connected peer of `a`, told `a` that it has
  -- members of the room; then a session of `a` that is in the room sends it a message. The fields
  -- have no NUL, the packet is within the size limit, the send loops to the connected peers succeed
  -- and `b` is moved enough bytes. Then `a` sends the message to its own members and to the servers
  -- that it lists, among them one frame on the socket of `b`; `b` reads that frame as it was sent,
  -- whatever follows it, and sends the message once to the session of each of its own members.
  pub room_message_crosses :
      (e : Answers) (rest : Bytes)
      → IsNulFree room
      → IsNulFree text
      → IsNulFree (username_of r a)
      → IsInt b.server_id
      → is_in_room room (a.connections.session_at r) ≡ true
      → get_peer_node b.server_id a.connections ≡ some n
      → (a.connections.node_at n).is_connected ≡ true
      → (a.connections.node_at n).socket ≡ some k
      → length routed.payload < max_payload_size
      → 5 + length routed.payload ≤ patience e
      → PeersTake frame (heard n a).connections a.network.answers
      → let t = handle_server_packet n (room_notice room b) a in
        Adds (room_frames t) t (handle_room_msg r (pack (room ∷ text ∷ [])) t)
        × Among (k, frame) (room_frames t)
        × ((read_packet true (record { answers = e; stream = frame ++ rest })).0 ≡ some routed)
        × Adds
            (to_users msg_room fields b.connections (get_local_members room b.rooms))
            (heard m b)
            (handle_server_packet m routed b)
  unfolding handle_server_packet dispatch_server get_session_by_username
  room_message_crosses e rest room_ok text_ok sender_ok int inside known on has short enough takes =
      let is_told = told_lem n room a b room_ok int in
      (
        subst (λ t. Adds (room_frames t) t (handle_room_msg r (pack (room ∷ text ∷ [])) t))
            (sym is_told)
            (handle_room_msg-Adds r (told n room b a) room text room_ok text_ok inside takes),
        subst (λ t. Among (k, frame) (room_frames t)) (sym is_told)
            (room_frames-Among (told n room b a) (told-is_remote room b.server_id a.rooms)
              (unfold get_peer_node in known) (heard_on n a on) (heard_socket n k a has)),
        (read_packet-frame routed rest (record { answers = e; stream = _ }) (tt, short) refl
            enough).packet,
        handle_s2s_route_room_msg-Adds (username_of r a) (heard m b) sender_ok room text room_ok
            text_ok,
      )
