-- ===== src/Server/Clients/Deliveries.antt =====
-- Who is told what: the packets to users and to the members of a room.
use distributed_chat_system.Prelude.{
  ℕ, ◌≡◌, refl, subst, true, false, Option, none, some, List, [], ◌∷◌, ◌++◌, Option-cases, inl, inr,
  is_positive,
}
use distributed_chat_system.Text.{Bytes}
use distributed_chat_system.Protocol.{PacketType, msg_private, status_update, pack}
use distributed_chat_system.Protocol.Fields.{IsNulFree, unpack-pack}
use distributed_chat_system.Server.Users.{same_id, get_user_location}
use distributed_chat_system.Server.Rooms.{get_local_members}
use distributed_chat_system.Server.Connections.{Connections, get_session_by_username}
use distributed_chat_system.Server.State.{ChatServer}
use distributed_chat_system.Server.State.Texts.{success_tag, delivered_to, error_tag, user_offline}
use distributed_chat_system.Server.State.Sends.{
  Adds, Adds-nil, Adds-tell, to_session, tell-Adds, concat_map, for_each-Adds,
}
use distributed_chat_system.Server.Clients.{
  username_of, tell_user, tell_members, deliver_private, send_private, handle_private_msg,
  private_fields,
}

-- The frame for a session that may be missing.
abbrev pub to_found : PacketType → List Bytes → Connections → Option ℕ → List (ℕ × Bytes)
to_found type fields c none = []
to_found type fields c (some r) = to_session type fields c r

abbrev pub to_user : PacketType → List Bytes → Connections → Bytes → List (ℕ × Bytes)
to_user type fields c name = to_found type fields c (get_session_by_username name c)

pub tell_user-Adds :
    (type : PacketType) (fields : List Bytes) (name : Bytes) (s : ChatServer)
    → Adds (to_user type fields s.connections name) s (tell_user type fields name s)
unfolding tell_user
tell_user-Adds type fields name s =
    elim (Option-cases (get_session_by_username name s.connections)) [
      | inl e ↦ rw (e, tell_user) (Adds-nil s)
      | inr (r, e) ↦ rw (e, tell_user) (tell-Adds r type fields s)
    ]

-- The frames for the sessions of a list of users, one for each user that has one.
abbrev pub to_users : PacketType → List Bytes → Connections → List Bytes → List (ℕ × Bytes)
to_users type fields c = concat_map (to_user type fields c)

pub tell_members-Adds :
    (type : PacketType) (fields : List Bytes) (room : Bytes) (s : ChatServer)
    → Adds
        (to_users type fields s.connections (get_local_members room s.rooms))
        s
        (tell_members type fields room s)
unfolding tell_members
tell_members-Adds type fields room s =
    for_each-Adds (to_user type fields s.connections) s.connections (tell_user type fields)
      (λ name t e.
        subst (λ c. Adds (to_user type fields c name) t (tell_user type fields name t)) e
          (tell_user-Adds type fields name t))
      (get_local_members room s.rooms) s refl

module _ (r : ℕ) (receiver text : Bytes) (s : ChatServer) where
  -- A private message to a user of this server that has a session is sent once to that session,
  -- and then the sender is told so; nothing else is sent or changed.
  pub handle_private_msg_local :
      (target : ℕ)
      → IsNulFree receiver
      → IsNulFree text
      → same_id (get_user_location receiver s.users) s.server_id ≡ true
      → get_session_by_username receiver s.connections ≡ some target
      → Adds
          (to_session msg_private (username_of r s ∷ text ∷ []) s.connections target
            ++ to_session status_update
                (success_tag ∷ (delivered_to ++ receiver) ∷ [])
                s.connections
                r)
          s
          (handle_private_msg r (pack (receiver ∷ text ∷ [])) s)
  unfolding handle_private_msg
  handle_private_msg_local target h k here found =
      rw (unpack-pack (receiver ∷ text ∷ []) (h, (k, tt))) (
        unfold private_fields send_private deliver_private in
        rw here (
          rw (found, deliver_private)
            (Adds-tell r status_update _ (tell-Adds target msg_private _ s))))

  -- A private message to a user that is on no server is answered with an error, and nothing else is
  -- sent or changed.
  pub handle_private_msg_offline :
      IsNulFree receiver
      → IsNulFree text
      → same_id (get_user_location receiver s.users) s.server_id ≡ false
      → is_positive (get_user_location receiver s.users) ≡ false
      → Adds
          (to_session status_update (error_tag ∷ user_offline ∷ []) s.connections r)
          s
          (handle_private_msg r (pack (receiver ∷ text ∷ [])) s)
  unfolding handle_private_msg
  handle_private_msg_offline h k elsewhere nowhere =
      rw (unpack-pack (receiver ∷ text ∷ []) (h, (k, tt))) (
        unfold private_fields send_private in
        rw (elsewhere, nowhere) (tell-Adds r status_update _ s))
