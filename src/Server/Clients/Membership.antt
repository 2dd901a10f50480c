-- ===== src/Server/Clients/Membership.antt =====
-- Joining and leaving a room.
use distributed_chat_system.Prelude.{
  ℕ, ◌≡◌, ◌≢◌, ap, ◌∙◌, subst, Bool, true, false, List, [], ◌∷◌, ◌++◌, arith, Bool-cases, inl, inr,
}
use distributed_chat_system.Text.{Bytes, bytes_discrete, trim, is_empty}
use distributed_chat_system.Dict.{contains, contains-put, contains-remove}
use distributed_chat_system.Protocol.{status_update, s2s_room_member_sync}
use distributed_chat_system.Server.Rooms.{get_local_members}
use distributed_chat_system.Server.Rooms.Refinement.{
  is_member, apply, apply-refines, local_after, joins_here, leaves_here,
}
use distributed_chat_system.Server.Connections.{is_in_room, session_join, session_leave}
use distributed_chat_system.Server.State.{ChatServer, tell}
use distributed_chat_system.Server.State.Texts.{
  success_tag, info_tag, user_text, entered_text, joined_room, left_room,
}
use distributed_chat_system.Server.State.Sends.{Adds, Adds-append, tell-Adds, to_session}
use distributed_chat_system.Server.Replication.{replicate_room_join, replicate_room_leave}
use distributed_chat_system.Server.Replication.Spares.{
  Spares, Spares-trans, Adds-Spares, broadcast_s2s-Spares,
}
use distributed_chat_system.Server.Clients.Deliveries.{tell_members-Adds, to_users}
use distributed_chat_system.Server.Clients.{
  username_of, enter_room, exit_room, join_named, leave_named, handle_room_join, handle_room_leave,
  tell_members, is_nil,
}

told-Adds :
    (r : ℕ) (ack info : List Bytes) (room : Bytes) (s : ChatServer)
    → Adds
        (to_session status_update ack s.connections r
          ++ to_users status_update info s.connections (get_local_members room s.rooms))
        s
        (tell_members status_update info room (tell r status_update ack s))
told-Adds r ack info room s =
    let a = tell-Adds r status_update ack s in
    let t = tell r status_update ack s in
    Adds-append a (
      subst
        (λ c.
          Adds (to_users status_update info c (get_local_members room s.rooms)) t
            (tell_members status_update info room t))
        a.connections
        (subst
          (λ m.
            Adds (to_users status_update info t.connections (get_local_members room m)) t
              (tell_members status_update info room t))
          a.rooms (tell_members-Adds status_update info room t)))

pub join_named-Spares :
    (r : ℕ) (room : Bytes) (s : ChatServer) → Spares (enter_room r room s) (join_named r room s)
unfolding join_named replicate_room_join
join_named-Spares r room s =
    let told = Adds-Spares (told-Adds r _ _ room (enter_room r room s)) in
    elim (Bool-cases (is_nil (get_local_members room s.rooms))) [
      | inl first ↦ rw first (Spares-trans told (broadcast_s2s-Spares s2s_room_member_sync _ _))
      | inr later ↦ rw later told
    ]

pub leave_named-Spares :
    (r : ℕ) (room : Bytes) (s : ChatServer) → Spares (exit_room r room s) (leave_named r room s)
unfolding leave_named replicate_room_leave
leave_named-Spares r room s =
    let told = Adds-Spares (told-Adds r _ _ room (exit_room r room s)) in
    elim (Bool-cases (
      is_nil (
        get_local_members room
          (tell r status_update (success_tag ∷ (left_room ++ room) ∷ [])
            (exit_room r room s)).rooms))) [
              | inl last ↦
                  rw last (Spares-trans told (broadcast_s2s-Spares s2s_room_member_sync _ _))
              | inr others ↦ rw others told
            ]

-- What a join or a leave of `room` by the session makes of both sides of the membership.
pub record Moves (r : ℕ) (room : Bytes) (inside : Bool) (s t : ChatServer) : Type 0 where
  pub session : is_in_room room (t.connections.session_at r) ≡ inside
  pub room_list : is_member t.rooms room (username_of r s) ≡ inside
  pub room_others :
      (u : Bytes) → u ≢ username_of r s → is_member t.rooms room u ≡ is_member s.rooms room u
  pub other_members : (q u : Bytes) → q ≢ room → is_member t.rooms q u ≡ is_member s.rooms q u
  pub other_sessions : (q : ℕ) → q ≢ r → t.connections.session_at q ≡ s.connections.session_at q

Moves-Spares :
    (r : ℕ) (room : Bytes) (inside : Bool) (s t u : ChatServer)
    → Moves r room inside s t
    → Spares t u
    → Moves r room inside s u
Moves-Spares r room inside s t u a p = record {
  session = ap (λ h. is_in_room room (h r)) p.clients.session_at ∙ a.session;
  room_list = ap (contains bytes_discrete (username_of r s)) (p.members room) ∙ a.room_list;
  room_others = λ v ne. ap (contains bytes_discrete v) (p.members room) ∙ a.room_others v ne;
  other_members = λ q v ne. ap (contains bytes_discrete v) (p.members q) ∙ a.other_members q v ne;
  other_sessions = λ q ne. ap (λ h. h q) p.clients.session_at ∙ a.other_sessions q ne;
}

enter_room-Moves :
    (r : ℕ) (room : Bytes) (s : ChatServer) → Moves r room true s (enter_room r room s)
unfolding enter_room
enter_room-Moves r room s = record {
  session =
      unfold is_in_room session_join in
      ground
        (arith, contains-put bytes_discrete room room (s.connections.session_at r).joined_rooms);
  room_list =
      unfold apply local_after in
      ((apply-refines (joins_here room (username_of r s)) s.rooms room).0 (username_of r s)
        ∙ ground arith);
  room_others = λ u ne.
      unfold apply local_after in
      ((apply-refines (joins_here room (username_of r s)) s.rooms room).0 u ∙ ground arith);
  other_members = λ q u ne.
      unfold apply local_after in
      ((apply-refines (joins_here room (username_of r s)) s.rooms q).0 u ∙ ground arith);
  other_sessions = λ q ne. ground arith;
}

exit_room-Moves :
    (r : ℕ) (room : Bytes) (s : ChatServer) → Moves r room false s (exit_room r room s)
unfolding exit_room
exit_room-Moves r room s = record {
  session =
      unfold is_in_room session_leave in
      ground
        (arith, contains-remove bytes_discrete room room (s.connections.session_at r).joined_rooms);
  room_list =
      unfold apply local_after in
      ((apply-refines (leaves_here room (username_of r s)) s.rooms room).0 (username_of r s)
        ∙ ground arith);
  room_others = λ u ne.
      unfold apply local_after in
      ((apply-refines (leaves_here room (username_of r s)) s.rooms room).0 u ∙ ground arith);
  other_members = λ q u ne.
      unfold apply local_after in
      ((apply-refines (leaves_here room (username_of r s)) s.rooms q).0 u ∙ ground arith);
  other_sessions = λ q ne. ground arith;
}

-- After a join of a room whose trimmed name is not empty both sides agree: the session is in the
-- room and the room lists its user. No other member of any room and no other session is touched,
-- whichever peers are lost while they are told.
pub handle_room_join-Moves :
    (r : ℕ) (payload : Bytes) (s : ChatServer)
    → is_empty (trim payload) ≡ false
    → Moves r (trim payload) true s (handle_room_join r payload s)
unfolding handle_room_join
handle_room_join-Moves r payload s h = rw h (
    Moves-Spares r (trim payload) true s (enter_room r (trim payload) s) _
      (enter_room-Moves r (trim payload) s) (join_named-Spares r (trim payload) s))

-- After a leave of a room that the session was in, whose trimmed name is not empty, neither side
-- has it: the session is not in the room and the room does not list its user. No other member of
-- any room and no other session is touched.
pub handle_room_leave-Moves :
    (r : ℕ) (payload : Bytes) (s : ChatServer)
    → is_empty (trim payload) ≡ false
    → is_in_room (trim payload) (s.connections.session_at r) ≡ true
    → Moves r (trim payload) false s (handle_room_leave r payload s)
unfolding handle_room_leave
handle_room_leave-Moves r payload s h inside =
    rw (h, inside)
      (Moves-Spares r (trim payload) false s (exit_room r (trim payload) s) _
        (exit_room-Moves r (trim payload) s) (leave_named-Spares r (trim payload) s))

-- A join of a room that has a local member already is not announced to the peers: the server sends
-- the acknowledgement and one notice to each local member's session, and no more.
pub handle_room_join_later :
    (r : ℕ) (payload : Bytes) (s : ChatServer)
    → is_empty (trim payload) ≡ false
    → is_nil (get_local_members (trim payload) s.rooms) ≡ false
    → let room = trim payload in
      let e = enter_room r room s in
      let info = user_text ++ (username_of r s ++ (entered_text ++ room)) in
      Adds
        (to_session status_update (success_tag ∷ (joined_room ++ room) ∷ []) e.connections r
          ++ to_users status_update
              (info_tag ∷ info ∷ [])
              e.connections
              (get_local_members room e.rooms))
        e
        (handle_room_join r payload s)
unfolding handle_room_join
handle_room_join_later r payload s h later =
    rw h (
      unfold join_named in
      rw later (told-Adds r _ _ (trim payload) (enter_room r (trim payload) s)))
