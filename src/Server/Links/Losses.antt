-- ===== src/Server/Links/Losses.antt =====
-- What is left when a client's connection is lost.
use distributed_chat_system.Prelude.{
  ℕ, ◌≡◌, ◌≢◌, refl, ap, sym, ◌∙◌, false, none, some, List, [], ◌∷◌, arith, ◌==◌, Bool-cases,
  Option-cases, inl, inr, if_pos, if_neg,
}
use distributed_chat_system.Text.{Bytes, bytes_discrete, is_empty, trim}
use distributed_chat_system.Dict.{lookup-erase, erase-Distinct}
use distributed_chat_system.Protocol.{s2s_replicate_user, status_update}
use distributed_chat_system.Server.Users.{unregister_user}
use distributed_chat_system.Server.Users.Refinement.{location}
use distributed_chat_system.Server.Rooms.{get_local_members}
use distributed_chat_system.Server.Connections.{
  get_session_by_username, get_session_by_socket, handle_of,
}
use distributed_chat_system.Server.Connections.Lookups.{
  get_session_by_socket-remove_session, get_session_by_username-remove_session,
}
use distributed_chat_system.Server.State.{ChatServer}
use distributed_chat_system.Server.State.Sends.{tell_authenticated-Adds}
use distributed_chat_system.Server.Replication.{replicate_user_logout}
use distributed_chat_system.Server.Replication.Spares.{
  Spares, Spares-trans, Spares-refl, Adds-Spares, broadcast_s2s-Spares, IsSound, same_names,
  same_sockets,
}
use distributed_chat_system.Server.Clients.{username_of, handle_login, is_bad_name}
use distributed_chat_system.Server.Users.{is_user_online}
use distributed_chat_system.Server.Clients.Login.{handle_login-SignsOn}
use distributed_chat_system.Server.Links.{lose_client, sign_off, tell_other}
use distributed_chat_system.Prelude.{for_each_induction}

tell_other-Spares :
    (gone : ℕ) (fields : List Bytes) (r : ℕ) (s : ChatServer)
    → Spares s (tell_other gone fields r s)
unfolding tell_other
tell_other-Spares gone fields r s = elim (Option-cases (s.connections.session_at r).socket) [
  | inl e ↦ rw (e, tell_other) (Spares-refl s)
  | inr (k, e) ↦ elim (Bool-cases (handle_of k s.connections == gone)) [
    | inl same ↦ rw (e, tell_other, same) (Spares-refl s)
    | inr other ↦
        rw (e, tell_other, other) (Adds-Spares (tell_authenticated-Adds status_update fields r s))
  ]
]

abbrev pub without_user : Bytes → ChatServer → ChatServer
without_user name s = record s { users = unregister_user name s.users }

pub sign_off-Spares :
    (gone : ℕ) (name : Bytes) (s : ChatServer) → Spares (without_user name s) (sign_off gone name s)
unfolding sign_off replicate_user_logout
sign_off-Spares gone name s =
    for_each_induction (Spares (without_user name s)) _ _ _
      (λ r t h. Spares-trans h (tell_other-Spares gone _ r t))
      (broadcast_s2s-Spares s2s_replicate_user _ (without_user name s))

-- What the loss of the session on `handle`, whose user was `name`, leaves.
pub record IsLost (handle : ℕ) (name : Bytes) (s t : ChatServer) : Type 0 where
  pub offline : location t.users name ≡ none
  pub no_socket : get_session_by_socket handle t.connections ≡ none
  pub no_name : get_session_by_username name t.connections ≡ none
  pub other_names :
      (q : Bytes)
      → q ≢ name
      → get_session_by_username q t.connections ≡ get_session_by_username q s.connections
  pub other_users :
      (q : Bytes)
      → q ≢ name
      → location s.users q ≡ some s.server_id
      → location t.users q ≡ some s.server_id
  pub members : (room : Bytes) → get_local_members room t.rooms ≡ get_local_members room s.rooms

pub without_user-IsSound :
    (name : Bytes) (s : ChatServer) → IsSound s → IsSound (without_user name s)
unfolding unregister_user
without_user-IsSound name s h = record {
  not_own_peer = h.not_own_peer;
  table = erase-Distinct bytes_discrete name s.users.user_locations h.table;
}

user_gone : (name : Bytes) (s : ChatServer) → location (without_user name s).users name ≡ none
unfolding unregister_user
user_gone name s = ground (arith, lookup-erase bytes_discrete name name s.users.user_locations)

user_kept :
    (name q : Bytes) (s : ChatServer)
    → q ≢ name
    → location (without_user name s).users q ≡ location s.users q
unfolding unregister_user
user_kept name q s ne = ground (arith, lookup-erase bytes_discrete q name s.users.user_locations)

-- Losing a client that has a name, on a server that is not its own peer and whose table has no
-- name twice, takes its user, its socket and its name off the tables, and touches no other name or
-- user of this server. The local members of every room stay as they were, so the lost user stays a
-- member of every room that it was in.
pub lose_client-IsLost :
    (r handle : ℕ) (s : ChatServer)
    → is_empty (username_of r s) ≡ false
    → get_session_by_socket handle s.connections ≡ some r
    → IsSound s
    → IsLost handle (username_of r s) s (lose_client r handle s)
unfolding lose_client
lose_client-IsLost r handle s signed found h =
    let name = username_of r s in
    let p = sign_off-Spares handle name s in
    let w = without_user-IsSound name s h in
    let there = same_sockets p.clients handle ∙ found in
    let same_name = ap (λ h. (h r).username) p.clients.session_at in
    let names = λ (q : Bytes).
      get_session_by_username-remove_session handle r name q (sign_off handle name s).connections
        there same_name signed in
    rw signed (record {
      offline = p.absent w name (user_gone name s);
      no_socket = get_session_by_socket-remove_session handle _;
      no_name = names name ∙ if_pos (bytes_discrete name name) refl _ _;
      other_names =
          λ q ne. names q ∙ (if_neg (bytes_discrete q name) ne _ _ ∙ same_names p.clients q);
      other_users = λ q ne e. p.own_users w q (user_kept name q s ne ∙ e);
      members = p.members;
    })

good_name : (name : Bytes) → is_bad_name name ≡ false → is_empty name ≡ false
unfolding is_bad_name
good_name [] h = cc
good_name (c ∷ name) h = refl

-- A session that logs in a second time under another name leaves its first user behind: once the
-- connection is lost the first user still counts as online here, and its name still leads to the
-- session that is gone.
pub second_login_leaves_user :
    (r handle : ℕ) (old payload : Bytes) (s : ChatServer)
    → location s.users old ≡ some s.server_id
    → get_session_by_username old s.connections ≡ some r
    → old ≢ trim payload
    → is_bad_name (trim payload) ≡ false
    → is_user_online (trim payload) s.users ≡ false
    → get_session_by_socket handle s.connections ≡ some r
    → IsSound s
    → let t = lose_client r handle (handle_login r payload s) in
      (location t.users old ≡ some s.server_id)
      × (get_session_by_username old t.connections ≡ some r)
second_login_leaves_user r handle old payload s here leads other good free found h =
    let a = handle_login-SignsOn r payload s good free h in
    let t = handle_login r payload s in
    let named = ap is_empty a.named ∙ good_name (trim payload) good in
    let l = lose_client-IsLost r handle t named (a.sockets handle ∙ found) a.sound in
    let apart = λ (e : old ≡ username_of r t). other (e ∙ a.named) in
    (
      l.other_users old apart (a.other_users old other here ∙ ap some (sym a.server_id))
          ∙ ap some a.server_id,
      l.other_names old apart ∙ (a.other_names old other ∙ leads),
    )
