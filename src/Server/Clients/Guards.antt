-- ===== src/Server/Clients/Guards.antt =====
-- What a session may not do.
use distributed_chat_system.Prelude.{
  ℕ, ◌≡◌, true, false, [], ◌∷◌, if◌then◌else◌, inl, inr, Bool-cases,
}
use distributed_chat_system.Text.{Bytes, trim}
use distributed_chat_system.Protocol.{RawPacket, login_resp, status_update, pack}
use distributed_chat_system.Protocol.Fields.{IsNulFree, unpack-pack}
use distributed_chat_system.Server.Users.{is_user_online}
use distributed_chat_system.Server.Connections.{is_in_room}
use distributed_chat_system.Server.State.{ChatServer}
use distributed_chat_system.Server.State.Texts.{
  zero_text, authentication_required, invalid_username, already_online, error_tag, join_first,
}
use distributed_chat_system.Server.State.Sends.{Adds, to_session, tell-Adds}
use distributed_chat_system.Server.Clients.{
  handle_client_packet, needs_login, handle_login, is_bad_name, handle_room_msg, room_fields,
  send_to_room,
}

-- Before its login a session can only log in or introduce a peer: any other packet changes nothing
-- and is answered by one LOGIN_RESP that asks for authentication.
pub handle_client_packet_refuses :
    (r : ℕ) (packet : RawPacket) (s : ChatServer)
    → (s.connections.session_at r).is_authenticated ≡ false
    → needs_login packet.type ≡ true
    → Adds
        (to_session login_resp (zero_text ∷ authentication_required ∷ []) s.connections r)
        s
        (handle_client_packet r packet s)
unfolding handle_client_packet
handle_client_packet_refuses r packet s e h = rw (e, h) (tell-Adds r login_resp _ s)

abbrev refusal : Bytes → ChatServer → Bytes
refusal payload s = if is_bad_name (trim payload) then invalid_username else already_online

-- A login under a bad name, or under a name that is online anywhere in the cluster, changes
-- nothing: the session gets one refusal, which says which of the two it was.
pub handle_login_refuses :
    (r : ℕ) (payload : Bytes) (s : ChatServer)
    → (if is_bad_name (trim payload) then true else is_user_online (trim payload) s.users) ≡ true
    → Adds
        (to_session login_resp (zero_text ∷ refusal payload s ∷ []) s.connections r)
        s
        (handle_login r payload s)
unfolding handle_login
handle_login_refuses r payload s h = elim (Bool-cases (is_bad_name (trim payload))) [
  | inl bad ↦ rw bad (tell-Adds r login_resp _ s)
  | inr good ↦ rw (good, rw good at h) (tell-Adds r login_resp _ s)
]

-- A message to a room that the session has not joined changes nothing and reaches nobody: the
-- sender gets one error.
pub handle_room_msg_refuses :
    (r : ℕ) (room text : Bytes) (s : ChatServer)
    → IsNulFree room
    → IsNulFree text
    → is_in_room room (s.connections.session_at r) ≡ false
    → Adds
        (to_session status_update (error_tag ∷ join_first ∷ []) s.connections r)
        s
        (handle_room_msg r (pack (room ∷ text ∷ [])) s)
unfolding handle_room_msg
handle_room_msg_refuses r room text s h k out =
    rw (unpack-pack (room ∷ text ∷ []) (h, (k, tt)))
      (unfold room_fields send_to_room in rw out (tell-Adds r status_update _ s))
