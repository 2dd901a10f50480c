-- ===== src/Server/Events/Consistency.antt =====
-- The packets of clients keep a server consistent.
use distributed_chat_system.Prelude.{
  ℕ, ℤ, ◌<◌, ◌≡◌, refl, ap, sym, subst, ◌∙◌, some, arith, Bool-cases, Option-cases, inl, inr,
  ℕ_discrete, ℤ_discrete,
}
use distributed_chat_system.Text.{Bytes, bytes_discrete, trim, is_empty}
use distributed_chat_system.Text.Decimal.{stoi}
use distributed_chat_system.Dict.{lookup, lookup-erase, erase-All}
use distributed_chat_system.Protocol.{
  RawPacket, PacketType, unpack, login, login_resp, msg_private, msg_room, msg_broadcast, room_join,
  room_leave, room_create, s2s_connect,
}
use distributed_chat_system.Server.Connections.{
  Connections, get_session_by_username, get_peer_node, remove_session, register_peer_socket,
  is_in_room,
}
use distributed_chat_system.Server.State.{ChatServer}
use distributed_chat_system.Server.State.Sends.{tell-Adds}
use distributed_chat_system.Server.Clients.{
  handle_client_packet, dispatch_client, handle_private_msg, handle_room_msg, handle_room_join,
  handle_room_leave, handle_room_create, promote, mark_connected, needs_login,
}
use distributed_chat_system.Server.Clients.Membership.{join_named-Spares, leave_named-Spares}
use distributed_chat_system.Server.Events.Keeps.{
  Listed, Keeps, Keeps-trans, Keeps-refl, Spares-Keeps, Adds-Keeps, handle_login-Keeps,
  private_fields-Spares, room_fields-Spares, handle_broadcast_msg-Spares, enter_room-Keeps,
  exit_room-Keeps,
}

handle_room_join-Keeps :
    (r : ℕ) (payload : Bytes) (s : ChatServer) → Keeps s (handle_room_join r payload s)
unfolding handle_room_join
handle_room_join-Keeps r payload s = elim (Bool-cases (is_empty (trim payload))) [
  | inl e ↦ rw e (Keeps-refl s)
  | inr e ↦ rw e (
      Keeps-trans (enter_room-Keeps r (trim payload) s)
        (Spares-Keeps (join_named-Spares r (trim payload) s)))
]

handle_room_leave-Keeps :
    (r : ℕ) (payload : Bytes) (s : ChatServer) → Keeps s (handle_room_leave r payload s)
unfolding handle_room_leave
handle_room_leave-Keeps r payload s = elim (Bool-cases (is_empty (trim payload))) [
  | inl e ↦ rw e (Keeps-refl s)
  | inr e ↦ elim (Bool-cases (is_in_room (trim payload) (s.connections.session_at r))) [
    | inl inside ↦
        rw (e, inside)
          (Keeps-trans (exit_room-Keeps r (trim payload) s)
            (Spares-Keeps (leave_named-Spares r (trim payload) s)))
    | inr outside ↦ rw (e, outside) (Keeps-refl s)
  ]
]

handle_room_create-Keeps :
    (r : ℕ) (payload : Bytes) (s : ChatServer) → Keeps s (handle_room_create r payload s)
unfolding handle_room_create
handle_room_create-Keeps r payload s = elim (Bool-cases (is_empty (trim payload))) [
  | inl e ↦ rw e (Keeps-refl s)
  | inr e ↦ rw e (Adds-Keeps (tell-Adds r _ _ s))
]

-- A change of the connections that keeps the known peers and the sessions, and adds no name.
pub record Trims (c d : Connections) : Type 0 where
  pub peer_nodes : d.peer_nodes ≡ c.peer_nodes
  pub session_at : d.session_at ≡ c.session_at
  pub next_session : d.next_session ≡ c.next_session
  pub listed : (count : ℕ) → Listed count c.sessions_by_socket → Listed count d.sessions_by_socket
  pub names :
      (q : Bytes) (p : ℕ)
      → get_session_by_username q d ≡ some p
      → get_session_by_username q c ≡ some p

pub Trims-trans : {c d e : Connections} → Trims c d → Trims d e → Trims c e
Trims-trans t u = record {
  peer_nodes = u.peer_nodes ∙ t.peer_nodes;
  session_at = u.session_at ∙ t.session_at;
  next_session = u.next_session ∙ t.next_session;
  listed = λ count h. u.listed count (t.listed count h);
  names = λ q p e. t.names q p (u.names q p e);
}

pub Trims-Keeps :
    (c : Connections) (s : ChatServer)
    → Trims s.connections c
    → Keeps s (record s { connections = c })
Trims-Keeps c s t = record {
  allocated = omega (arith, t.next_session);
  running = refl;
  consistent = λ h. record {
    sound = record {
      not_own_peer =
          unfold get_peer_node in
          ap (lookup ℤ_discrete s.server_id) t.peer_nodes
          ∙ (unfold get_peer_node in h.sound.not_own_peer);
      table = h.sound.table;
    };
    listed = subst (λ n. Listed n c.sessions_by_socket) (sym t.next_session) (t.listed _ h.listed);
    named = λ q p e.
        let old = h.named q p (t.names q p e) in
        (
          omega (arith, old.0, t.next_session),
          ap (λ a. (a p).is_authenticated) t.session_at ∙ old.1,
        );
  };
}

pub remove_session-Trims : (handle : ℕ) (c : Connections) → Trims c (remove_session handle c)
unfolding remove_session get_session_by_username
remove_session-Trims handle c = record {
  peer_nodes = ground arith;
  session_at = ground arith;
  next_session = ground arith;
  listed = λ count h. elim (Option-cases (lookup ℕ_discrete handle c.sessions_by_socket)) [
    | inl gone ↦ rw (gone, remove_session) h
    | inr (r, found) ↦
        rw (found, remove_session)
          (erase-All ℕ_discrete (λ e. e.1 < count) handle c.sessions_by_socket h)
  ];
  names = λ q p e. elim (Option-cases (lookup ℕ_discrete handle c.sessions_by_socket)) [
    | inl gone ↦ ground arith
    | inr (r, found) ↦
        ground
          (arith, lookup-erase bytes_discrete q (c.session_at r).username c.sessions_by_username)
  ];
}

pub register_peer_socket-Trims :
    (id : ℤ) (k : ℕ) (c : Connections) → Trims c (register_peer_socket id k c)
unfolding register_peer_socket get_session_by_username
register_peer_socket-Trims id k c = record {
  peer_nodes = ground arith;
  session_at = ground arith;
  next_session = ground arith;
  listed = λ count h. ground arith;
  names = λ q p e. ground arith;
}

mark_connected-Trims : (id : ℤ) (c : Connections) → Trims c (mark_connected id c)
unfolding mark_connected get_session_by_username
mark_connected-Trims id c = record {
  peer_nodes = ground arith;
  session_at = ground arith;
  next_session = ground arith;
  listed = λ count h. ground arith;
  names = λ q p e. ground arith;
}

promote-Keeps : (r : ℕ) (id : ℤ) (s : ChatServer) → Keeps s (promote r id s)
unfolding promote
promote-Keeps r id s = elim (Option-cases (s.connections.session_at r).socket) [
  | inl e ↦ rw (e, promote) (Keeps-refl s)
  | inr (k, e) ↦
      rw (e, promote)
        (Trims-Keeps _ s (
          Trims-trans (remove_session-Trims _ s.connections)
            (Trims-trans (register_peer_socket-Trims id k _) (mark_connected-Trims id _))))
]

dispatch_client-Keeps :
    (r : ℕ) (type : PacketType) (payload : Bytes) (s : ChatServer)
    → r < s.connections.next_session
    → Keeps s (dispatch_client r type payload s)
unfolding dispatch_client
dispatch_client-Keeps r login payload s h = handle_login-Keeps r payload s h
dispatch_client-Keeps r msg_private payload s h =
    Spares-Keeps (unfold handle_private_msg in private_fields-Spares r (unpack payload) s)
dispatch_client-Keeps r msg_room payload s h =
    Spares-Keeps (unfold handle_room_msg in room_fields-Spares r (unpack payload) s)
dispatch_client-Keeps r msg_broadcast payload s h =
    Spares-Keeps (handle_broadcast_msg-Spares r payload s)
dispatch_client-Keeps r room_join payload s h = handle_room_join-Keeps r payload s
dispatch_client-Keeps r room_leave payload s h = handle_room_leave-Keeps r payload s
dispatch_client-Keeps r room_create payload s h = handle_room_create-Keeps r payload s
dispatch_client-Keeps r s2s_connect payload s h = elim (Option-cases (stoi payload)) [
  | inl e ↦ rw (e, dispatch_client) (Keeps-refl s)
  | inr (id, e) ↦ rw (e, dispatch_client) (promote-Keeps r id s)
]
dispatch_client-Keeps r _ payload s h = Keeps-refl s

pub handle_client_packet-Keeps :
    (r : ℕ) (packet : RawPacket) (s : ChatServer)
    → r < s.connections.next_session
    → Keeps s (handle_client_packet r packet s)
unfolding handle_client_packet
handle_client_packet-Keeps r packet s h =
    elim (Bool-cases (s.connections.session_at r).is_authenticated) [
      | inl e ↦ rw e (dispatch_client-Keeps r packet.type packet.payload s h)
      | inr e ↦ elim (Bool-cases (needs_login packet.type)) [
        | inl n ↦ rw (e, n) (Adds-Keeps (tell-Adds r login_resp _ s))
        | inr n ↦ rw (e, n) (dispatch_client-Keeps r packet.type packet.payload s h)
      ]
    ]
