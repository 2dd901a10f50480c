-- ===== src/Server/Events/Keeps.antt =====
-- Which operations keep a server consistent: the packets of clients and of peers.
use distributed_chat_system.Prelude.{
  ℕ, ℤ, ◌≤◌, ◌<◌, ◌≡◌, ap, sym, ◌∙◌, true, some, List, [], ◌∷◌, arith, Bool-cases, Option-cases,
  inl, inr, All, subst, refl, for_each_induction, is_positive,
}
use distributed_chat_system.Text.{Bytes, bytes_discrete, trim}
use distributed_chat_system.Dict.{lookup-insert}
use distributed_chat_system.Server.Users.{same_id, get_user_location, is_user_online}
use distributed_chat_system.Server.Rooms.{ChatRoomManager}
use distributed_chat_system.Server.Connections.{
  Connections, get_session_by_username, get_peer_node, authenticate_session, is_in_room,
  session_join, session_leave,
}
use distributed_chat_system.Server.State.{ChatServer}
use distributed_chat_system.Server.State.Sends.{Adds, tell-Adds, tell_all-Adds, Adds-tell}
use distributed_chat_system.Server.Replication.{
  relay_to_id, route_private_message, route_room_message,
}
use distributed_chat_system.Server.Replication.Spares.{
  Spares, Spares-refl, Spares-trans, Adds-Spares, IsSound, relay_to_node-Spares,
  broadcast_s2s-Spares, same_names,
}
use distributed_chat_system.Server.Clients.{
  handle_login, is_bad_name, sign_on, private_fields, send_private, deliver_private, room_fields,
  send_to_room, handle_broadcast_msg, enter_room, exit_room,
}
use distributed_chat_system.Server.Clients.Deliveries.{tell_members-Adds}
use distributed_chat_system.Server.Clients.Login.{complete_login-Spares, sign_on-IsSound}

-- A name that leads to a session leads to one that exists and that is authenticated.
abbrev pub IsNamed : Connections → Bytes → ℕ → Type 0
IsNamed c name r =
    get_session_by_username name c ≡ some r
    → (r < c.next_session) × ((c.session_at r).is_authenticated ≡ true)

-- Every session of a table of sessions exists.
abbrev pub Listed : ℕ → List (ℕ × ℕ) → Type 0
Listed count = All (λ e. e.1 < count)

pub Listed-le : (a b : ℕ) (m : List (ℕ × ℕ)) → a ≤ b → Listed a m → Listed b m
Listed-le a b [] more h = tt
Listed-le a b (e ∷ m) more h = (omega (arith, h.0), Listed-le a b m more h.1)

pub record IsConsistent (s : ChatServer) : Type 0 where
  pub sound : IsSound s
  pub listed : Listed s.connections.next_session s.connections.sessions_by_socket
  pub named : (name : Bytes) (r : ℕ) → IsNamed s.connections name r

-- What an operation keeps: sessions stay allocated, the server runs on if it ran, and it stays
-- consistent.
pub record Keeps (s t : ChatServer) : Type 0 where
  pub allocated : s.connections.next_session ≤ t.connections.next_session
  pub running : t.running ≡ s.running
  pub consistent : IsConsistent s → IsConsistent t

pub Keeps-trans : {s t u : ChatServer} → Keeps s t → Keeps t u → Keeps s u
Keeps-trans p q = record {
  allocated = omega (arith, p.allocated, q.allocated);
  running = q.running ∙ p.running;
  consistent = λ h. q.consistent (p.consistent h);
}

pub Spares-Keeps : {s t : ChatServer} → Spares s t → Keeps s t
Spares-Keeps {s} {t} p = record {
  allocated = omega (arith, p.clients.next_session);
  running = p.running;
  consistent = λ h. record {
    sound = p.sound h.sound;
    listed =
        subst (λ n. Listed n t.connections.sessions_by_socket) (sym p.clients.next_session)
          (subst (Listed s.connections.next_session) (sym p.clients.sessions_by_socket) h.listed);
    named = λ name r e.
        let old = h.named name r (sym (same_names p.clients name) ∙ e) in
        (
          omega (arith, p.clients.next_session, old.0),
          ap (λ a. (a r).is_authenticated) p.clients.session_at ∙ old.1,
        );
  };
}

pub Keeps-refl : (s : ChatServer) → Keeps s s
Keeps-refl s = Spares-Keeps (Spares-refl s)

pub Adds-Keeps : {more : List (ℕ × Bytes)} {s t : ChatServer} → Adds more s t → Keeps s t
Adds-Keeps a = Spares-Keeps (Adds-Spares a)

-- A change of the rooms alone.
pub rooms-Keeps : (m : ChatRoomManager) (s : ChatServer) → Keeps s (record s { rooms = m })
rooms-Keeps m s = record {
  allocated = omega arith;
  running = refl;
  consistent = λ h. record {
    sound = record { not_own_peer = h.sound.not_own_peer; table = h.sound.table };
    listed = h.listed;
    named = h.named;
  };
}

sign_on-Keeps :
    (r : ℕ) (name : Bytes) (s : ChatServer)
    → r < s.connections.next_session
    → Keeps s (sign_on r name s)
sign_on-Keeps r name s there = record {
  allocated = unfold sign_on authenticate_session in omega arith;
  running = unfold sign_on in refl;
  consistent = λ h. record {
    sound = sign_on-IsSound r name s h.sound;
    listed = unfold sign_on authenticate_session in h.listed;
    named = λ q p e.
        let old = h.named q p in
        unfold sign_on authenticate_session get_session_by_username in
        ground (arith, lookup-insert bytes_discrete q name r s.connections.sessions_by_username);
  };
}

pub handle_login-Keeps :
    (r : ℕ) (payload : Bytes) (s : ChatServer)
    → r < s.connections.next_session
    → Keeps s (handle_login r payload s)
unfolding handle_login
handle_login-Keeps r payload s there = elim (Bool-cases (is_bad_name (trim payload))) [
  | inl bad ↦ rw bad (Adds-Keeps (tell-Adds r _ _ s))
  | inr good ↦ elim (Bool-cases (is_user_online (trim payload) s.users)) [
    | inl online ↦ rw (good, online) (Adds-Keeps (tell-Adds r _ _ s))
    | inr free ↦
        rw (good, free)
          (Keeps-trans (sign_on-Keeps r (trim payload) s there)
            (Spares-Keeps (complete_login-Spares r (trim payload) s)))
  ]
]

relay_to_id-Spares : (frame : Bytes) (id : ℤ) (s : ChatServer) → Spares s (relay_to_id frame id s)
unfolding relay_to_id
relay_to_id-Spares frame id s = elim (Option-cases (get_peer_node id s.connections)) [
  | inl e ↦ rw (e, relay_to_id) (Spares-refl s)
  | inr (n, e) ↦ rw (e, relay_to_id) (relay_to_node-Spares id frame n s)
]

deliver_private-Spares :
    (r : ℕ) (receiver text : Bytes) (s : ChatServer) → Spares s (deliver_private r receiver text s)
unfolding deliver_private
deliver_private-Spares r receiver text s =
    elim (Option-cases (get_session_by_username receiver s.connections)) [
      | inl e ↦ rw (e, deliver_private) (Spares-refl s)
      | inr (target, e) ↦
          rw (e, deliver_private) (Adds-Spares (Adds-tell r _ _ (tell-Adds target _ _ s)))
    ]

send_private-Spares :
    (r : ℕ) (receiver text : Bytes) (s : ChatServer) → Spares s (send_private r receiver text s)
unfolding send_private route_private_message
send_private-Spares r receiver text s =
    elim (Bool-cases (same_id (get_user_location receiver s.users) s.server_id)) [
      | inl local ↦ rw local (deliver_private-Spares r receiver text s)
      | inr away ↦ elim (Bool-cases (is_positive (get_user_location receiver s.users))) [
        | inl known ↦
            rw (away, known)
              (Spares-trans (relay_to_id-Spares _ _ s) (Adds-Spares (tell-Adds r _ _ _)))
        | inr offline ↦ rw (away, offline) (Adds-Spares (tell-Adds r _ _ s))
      ]
    ]

pub private_fields-Spares :
    (r : ℕ) (fields : List Bytes) (s : ChatServer) → Spares s (private_fields r fields s)
unfolding private_fields
private_fields-Spares r [] s = Spares-refl s
private_fields-Spares r (receiver ∷ []) s = Spares-refl s
private_fields-Spares r (receiver ∷ text ∷ rest) s = send_private-Spares r receiver text s

send_to_room-Spares :
    (r : ℕ) (room text : Bytes) (s : ChatServer) → Spares s (send_to_room r room text s)
unfolding send_to_room route_room_message
send_to_room-Spares r room text s =
    elim (Bool-cases (is_in_room room (s.connections.session_at r))) [
      | inl inside ↦ rw inside (
          for_each_induction (Spares s) _ _ _ (λ id t h. Spares-trans h (relay_to_id-Spares _ id t))
            (Adds-Spares (tell_members-Adds _ _ room s)))
      | inr outside ↦ rw outside (Adds-Spares (tell-Adds r _ _ s))
    ]

pub room_fields-Spares :
    (r : ℕ) (fields : List Bytes) (s : ChatServer) → Spares s (room_fields r fields s)
unfolding room_fields
room_fields-Spares r [] s = Spares-refl s
room_fields-Spares r (room ∷ []) s = Spares-refl s
room_fields-Spares r (room ∷ text ∷ rest) s = send_to_room-Spares r room text s

pub handle_broadcast_msg-Spares :
    (r : ℕ) (payload : Bytes) (s : ChatServer) → Spares s (handle_broadcast_msg r payload s)
unfolding handle_broadcast_msg
handle_broadcast_msg-Spares r payload s =
    Spares-trans (Adds-Spares (tell_all-Adds _ _ s)) (broadcast_s2s-Spares _ _ _)

-- A change of one session's rooms and of the rooms.
pub enter_room-Keeps : (r : ℕ) (room : Bytes) (s : ChatServer) → Keeps s (enter_room r room s)
enter_room-Keeps r room s = record {
  allocated = unfold enter_room in omega arith;
  running = unfold enter_room in refl;
  consistent = λ h. record {
    sound =
        unfold enter_room get_peer_node in
        record { not_own_peer = h.sound.not_own_peer; table = h.sound.table };
    listed = unfold enter_room in h.listed;
    named = λ q p e.
        let old = h.named q p in
        unfold enter_room session_join get_session_by_username in ground arith;
  };
}

pub exit_room-Keeps : (r : ℕ) (room : Bytes) (s : ChatServer) → Keeps s (exit_room r room s)
exit_room-Keeps r room s = record {
  allocated = unfold exit_room in omega arith;
  running = unfold exit_room in refl;
  consistent = λ h. record {
    sound =
        unfold exit_room get_peer_node in
        record { not_own_peer = h.sound.not_own_peer; table = h.sound.table };
    listed = unfold exit_room in h.listed;
    named = λ q p e.
        let old = h.named q p in
        unfold exit_room session_leave get_session_by_username in ground arith;
  };
}
