-- ===== src/Server/Peers/Sync.antt =====
-- What one server tells another is what the other takes over.
use distributed_chat_system.Prelude.{
  ℤ, ◌≡◌, refl, ap, sym, subst, Bool, true, false, [], ◌∷◌, ◌++◌, arith, if◌then◌else◌,
  append_assoc,
}
use distributed_chat_system.Text.{Bytes, bytes_discrete}
use distributed_chat_system.Text.Decimal.{to_string, stoi-to_string, to_string-ne-nul, IsInt}
use distributed_chat_system.Protocol.{
  msg_private, msg_room, msg_broadcast, status_update, pack, unpack,
}
use distributed_chat_system.Protocol.Fields.{IsNulFree, unpack-pack}
use distributed_chat_system.Server.Users.{register_user, unregister_user, get_online_users}
use distributed_chat_system.Server.Rooms.{join_room_remote, leave_room_remote, get_local_members}
use distributed_chat_system.Server.State.{ChatServer}
use distributed_chat_system.Server.State.Texts.{one_text, zero_text, status_tag}
use distributed_chat_system.Server.State.Sends.{
  Adds, announce_users-Adds, to_all_authenticated, tell_all-Adds,
}
use distributed_chat_system.Server.Replication.{notice}
use distributed_chat_system.Server.Clients.Deliveries.{
  to_user, to_users, tell_user-Adds, tell_members-Adds,
}
use distributed_chat_system.Server.Peers.{
  is_one, replicate_user, user_fields, handle_s2s_replicate_user, sync_fields,
  handle_s2s_room_member_sync, handle_s2s_route_msg, route_fields, handle_s2s_route_room_msg,
  route_room_fields,
}

-- The two flags of a notice.
abbrev pub flag_text : Bool → Bytes
flag_text b = if b then one_text else zero_text

flag-IsNulFree : (b : Bool) → IsNulFree (flag_text b)
unfolding one_text zero_text
flag-IsNulFree true = omega arith
flag-IsNulFree false = omega arith

is_one-flag : (b : Bool) → is_one (flag_text b) ≡ b
unfolding one_text zero_text bytes_discrete
is_one-flag true = refl
is_one-flag false = refl

unpack-notice :
    (subject : Bytes) (b : Bool) (a : ChatServer)
    → IsNulFree subject
    → unpack (notice subject (flag_text b) a) ≡ subject ∷ to_string a.server_id ∷ flag_text b ∷ []
unfolding notice
unpack-notice subject b a h =
    unpack-pack (subject ∷ to_string a.server_id ∷ flag_text b ∷ [])
      (h, (to_string-ne-nul a.server_id, (flag-IsNulFree b, tt)))

abbrev pub with_user : Bytes → ℤ → Bool → ChatServer → ChatServer
with_user name id online s = record s {
  users = if online then register_user name id s.users else unregister_user name s.users;
}

-- The notice of a login or a logout on server `a` makes a peer put the user at `a`, or drop the
-- user, and then send the new list to its own authenticated sessions; it does nothing else.
pub handle_s2s_replicate_user-notice :
    (name : Bytes) (online : Bool) (a s : ChatServer)
    → IsNulFree name
    → IsInt a.server_id
    → Adds
        (to_all_authenticated status_update
          (status_tag ∷ pack (get_online_users (with_user name a.server_id online s).users) ∷ [])
          s.connections)
        (with_user name a.server_id online s)
        (handle_s2s_replicate_user (notice name (flag_text online) a) s)
unfolding handle_s2s_replicate_user
handle_s2s_replicate_user-notice name online a s h k = rw (unpack-notice name online a h) (
    unfold user_fields replicate_user in
    rw (stoi-to_string a.server_id k, user_fields, is_one-flag online)
      (announce_users-Adds (with_user name a.server_id online s)))

-- The notice that server `a` has, or no longer has, members of a room makes a peer list `a` for the
-- room, or no longer; it changes nothing else and sends nothing.
pub handle_s2s_room_member_sync-notice :
    (room : Bytes) (active : Bool) (a s : ChatServer)
    → IsNulFree room
    → IsInt a.server_id
    → handle_s2s_room_member_sync (notice room (flag_text active) a) s ≡ record s {
      rooms =
          if active
          then join_room_remote room a.server_id s.rooms
          else leave_room_remote room a.server_id s.rooms;
    }
unfolding handle_s2s_room_member_sync
handle_s2s_room_member_sync-notice room active a s h k =
    rw (unpack-notice room active a h)
      (unfold sync_fields in rw (stoi-to_string a.server_id k, sync_fields, is_one-flag active))

module _ (sender : Bytes) (s : ChatServer) (h : IsNulFree sender) where
  -- A routed private message, its fields without NUL, is sent once to the receiver's session on
  -- this server if there is one, and nothing else is sent or changed.
  pub handle_s2s_route_msg_private :
      (receiver text : Bytes)
      → IsNulFree receiver
      → IsNulFree text
      → Adds
          (to_user msg_private (sender ∷ text ∷ []) s.connections receiver)
          s
          (handle_s2s_route_msg (pack (sender ∷ receiver ∷ text ∷ [])) s)
  unfolding handle_s2s_route_msg
  handle_s2s_route_msg_private receiver text k l =
      rw (unpack-pack (sender ∷ receiver ∷ text ∷ []) (h, (k, (l, tt))))
        (unfold route_fields in tell_user-Adds msg_private (sender ∷ text ∷ []) receiver s)

  -- A routed broadcast whose text holds no NUL is sent once to every authenticated session.
  pub handle_s2s_route_msg_broadcast :
      (text : Bytes)
      → IsNulFree text
      → Adds
          (to_all_authenticated msg_broadcast (sender ∷ text ∷ []) s.connections)
          s
          (handle_s2s_route_msg (pack (sender ∷ text ∷ [])) s)
  unfolding handle_s2s_route_msg
  handle_s2s_route_msg_broadcast text k =
      rw (unpack-pack (sender ∷ text ∷ []) (h, (k, tt)))
        (unfold route_fields in tell_all-Adds msg_broadcast (sender ∷ text ∷ []) s)

  -- A broadcast whose text holds exactly one NUL, from a sender without NUL, is taken for a private
  -- message by a server that it is routed to: the part before the NUL is the receiver, the part after
  -- it the text, and nobody else is sent anything.
  pub broadcast_taken_for_private :
      (receiver text : Bytes)
      → IsNulFree receiver
      → IsNulFree text
      → Adds
          (to_user msg_private (sender ∷ text ∷ []) s.connections receiver)
          s
          (handle_s2s_route_msg (pack (sender ∷ (receiver ++ (0 ∷ text)) ∷ [])) s)
  unfolding pack
  broadcast_taken_for_private receiver text k l =
      subst
        (λ p.
          Adds (to_user msg_private (sender ∷ text ∷ []) s.connections receiver) s
            (handle_s2s_route_msg p s))
        same (handle_s2s_route_msg_private receiver text k l)
    where
      same : pack (sender ∷ receiver ∷ text ∷ []) ≡ pack (sender ∷ (receiver ++ (0 ∷ text)) ∷ [])
      same = ap (λ b. sender ++ (0 ∷ b)) (sym (append_assoc receiver (0 ∷ text) (0 ∷ [])))

  -- A routed room message, its fields without NUL, is sent once to the session of each local
  -- member, and nothing else is sent, to no server either.
  pub handle_s2s_route_room_msg-Adds :
      (room text : Bytes)
      → IsNulFree room
      → IsNulFree text
      → Adds
          (to_users msg_room
            (sender ∷ room ∷ text ∷ [])
            s.connections
            (get_local_members room s.rooms))
          s
          (handle_s2s_route_room_msg (pack (sender ∷ room ∷ text ∷ [])) s)
  unfolding handle_s2s_route_room_msg
  handle_s2s_route_room_msg-Adds room text k l =
      rw (unpack-pack (sender ∷ room ∷ text ∷ []) (h, (k, (l, tt))))
        (unfold route_room_fields in tell_members-Adds msg_room (sender ∷ room ∷ text ∷ []) room s)
