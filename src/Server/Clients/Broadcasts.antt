-- ===== src/Server/Clients/Broadcasts.antt =====
-- The frames of messages to many and of a login, when the send loops to the other servers succeed.
use distributed_chat_system.Prelude.{ℕ, ◌≡◌, ap, sym, subst, ◌∙◌, true, false, List, [], ◌∷◌, ◌++◌}
use distributed_chat_system.Text.{Bytes, trim}
use distributed_chat_system.Text.Decimal.{to_string}
use distributed_chat_system.Protocol.{
  login_resp, msg_room, msg_broadcast, status_update, s2s_route_msg, s2s_route_room_msg,
  s2s_replicate_user, serialize, pack,
}
use distributed_chat_system.Protocol.Fields.{IsNulFree, unpack-pack}
use distributed_chat_system.Server.Users.{UserManager, is_user_online, get_online_users}
use distributed_chat_system.Server.Rooms.{get_local_members, get_remote_servers}
use distributed_chat_system.Server.Connections.{is_in_room}
use distributed_chat_system.Server.State.{ChatServer, tell}
use distributed_chat_system.Server.State.Texts.{one_text, welcome, status_tag}
use distributed_chat_system.Server.State.Sends.{
  Adds, Adds-append, to_session, tell-Adds, to_all_authenticated, tell_all-Adds,
  announce_users-Adds,
}
use distributed_chat_system.Server.Replication.{notice, replicate_user_login, broadcast_s2s}
use distributed_chat_system.Server.Replication.Reach.{
  PeersTake, PeersTake-same, to_peers, to_servers, broadcast_s2s-Adds, route_room_message-Adds,
}
use distributed_chat_system.Server.Clients.{
  username_of, is_bad_name, sign_on, complete_login, handle_login, room_fields, send_to_room,
  tell_members, handle_room_msg, handle_broadcast_msg,
}
use distributed_chat_system.Server.Clients.Deliveries.{to_users, tell_members-Adds}

-- A step whose frames are known at the state before it, after one that only sends.
pub Adds-then :
    {a b : List (ℕ × Bytes)} {s t u : ChatServer} (more : ChatServer → List (ℕ × Bytes))
    → more t ≡ b
    → Adds a s t
    → Adds (more t) t u
    → Adds (a ++ b) s u
Adds-then {a} {s} {t} {u} more e p q = Adds-append p (subst (λ m. Adds m t u) e q)

module _ (r : ℕ) (s : ChatServer) where
  -- A broadcast is sent once to every authenticated session, the sender's own too, and once to every
  -- connected peer with a socket, each send loop to which succeeds; nothing else is sent or changed.
  pub handle_broadcast_msg-Adds :
      (text : Bytes)
      → let fields = username_of r s ∷ text ∷ [] in
        let frame = serialize s2s_route_msg (pack fields) in
        PeersTake frame s.connections s.network.answers
        → Adds
            (to_all_authenticated msg_broadcast fields s.connections
              ++ to_peers frame s.connections)
            s
            (handle_broadcast_msg r text s)
  unfolding handle_broadcast_msg
  handle_broadcast_msg-Adds text takes =
      let fields = username_of r s ∷ text ∷ [] in
      let frame = serialize s2s_route_msg (pack fields) in
      let here = tell_all-Adds msg_broadcast fields s in
      Adds-then (λ t. to_peers frame t.connections) (ap (to_peers frame) here.connections) here
        (broadcast_s2s-Adds s2s_route_msg (pack fields) _
          (PeersTake-same frame here.connections here.answers takes))

  -- A message of fields without NUL to a room that the session has joined is sent once to the session
  -- of each local member and once to each server with members that is a connected peer with a socket,
  -- each send loop to which succeeds; nothing else is sent or changed.
  pub handle_room_msg-Adds :
      (room text : Bytes)
      → IsNulFree room
      → IsNulFree text
      → is_in_room room (s.connections.session_at r) ≡ true
      → let fields = username_of r s ∷ room ∷ text ∷ [] in
        let frame = serialize s2s_route_room_msg (pack fields) in
        PeersTake frame s.connections s.network.answers
        → Adds
            (to_users msg_room fields s.connections (get_local_members room s.rooms)
              ++ to_servers frame s.connections (get_remote_servers room s.rooms))
            s
            (handle_room_msg r (pack (room ∷ text ∷ [])) s)
  unfolding handle_room_msg
  handle_room_msg-Adds room text h k inside takes =
      let fields = username_of r s ∷ room ∷ text ∷ [] in
      let frame = serialize s2s_route_room_msg (pack fields) in
      let here = tell_members-Adds msg_room fields room s in
      rw (unpack-pack (room ∷ text ∷ []) (h, (k, tt))) (
        unfold room_fields send_to_room in
        rw inside (
          Adds-then (λ t. to_servers frame t.connections (get_remote_servers room t.rooms))
            (ap
                (λ c.
                  to_servers frame c
                    (get_remote_servers room (tell_members msg_room fields room s).rooms))
                here.connections
              ∙ ap (λ m. to_servers frame s.connections (get_remote_servers room m)) here.rooms)
            here
            (route_room_message-Adds (username_of r s) room text _
              (PeersTake-same frame here.connections here.answers takes))))

abbrev users_fields : UserManager → List Bytes
users_fields u = status_tag ∷ pack (get_online_users u) ∷ []

abbrev users_frames : ChatServer → List (ℕ × Bytes)
users_frames t = to_all_authenticated status_update (users_fields t.users) t.connections

-- The three groups of frames of an accepted login.
abbrev pub login_frames : ℕ → Bytes → ChatServer → List (ℕ × Bytes)
login_frames r name t =
    (to_session login_resp (one_text ∷ welcome ∷ []) t.connections r
      ++ to_peers (serialize s2s_replicate_user (notice name one_text t)) t.connections)
    ++ users_frames t

complete_login-Adds :
    (r : ℕ) (name : Bytes) (s : ChatServer)
    → let t = sign_on r name s in
      PeersTake
        (serialize s2s_replicate_user (notice name one_text t))
        t.connections
        t.network.answers
      → Adds (login_frames r name t) t (complete_login r name s)
unfolding complete_login replicate_user_login
complete_login-Adds r name s takes =
    let t = sign_on r name s in
    let frame = serialize s2s_replicate_user (notice name one_text t) in
    let welcomed = tell-Adds r login_resp (one_text ∷ welcome ∷ []) t in
    let t1 = tell r login_resp (one_text ∷ welcome ∷ []) t in
    let same : notice name one_text t1 ≡ notice name one_text t =
      unfold notice in ap (λ id. pack (name ∷ to_string id ∷ one_text ∷ [])) welcomed.server_id in
    let told =
      subst (λ p. Adds (to_peers frame t1.connections) t1 (broadcast_s2s s2s_replicate_user p t1))
        (sym same)
        (broadcast_s2s-Adds s2s_replicate_user (notice name one_text t) t1
          (PeersTake-same frame welcomed.connections welcomed.answers takes)) in
    let before =
      Adds-then (λ u. to_peers frame u.connections) (ap (to_peers frame) welcomed.connections)
        welcomed told in
    Adds-then users_frames
      (ap
          (λ c.
            to_all_authenticated status_update (users_fields (replicate_user_login name t1).users)
              c)
          before.connections
        ∙ ap (λ u. to_all_authenticated status_update (users_fields u) t.connections) before.users)
      before (announce_users-Adds _)

-- A login under a good name that is not online anywhere sends, from the state with the session signed
-- on: the welcome to the session, then one notice to every connected peer with a socket, each send
-- loop to which succeeds, then the new list of users to every authenticated session, this one too.
-- Nothing else is sent or changed after the sign-on.
pub handle_login-Adds :
    (r : ℕ) (payload : Bytes) (s : ChatServer)
    → is_bad_name (trim payload) ≡ false
    → is_user_online (trim payload) s.users ≡ false
    → let t = sign_on r (trim payload) s in
      PeersTake
        (serialize s2s_replicate_user (notice (trim payload) one_text t))
        t.connections
        t.network.answers
      → Adds (login_frames r (trim payload) t) t (handle_login r payload s)
unfolding handle_login
handle_login-Adds r payload s good free takes =
    rw (good, free) (complete_login-Adds r (trim payload) s takes)
