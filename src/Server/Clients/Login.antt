-- ===== src/Server/Clients/Login.antt =====
-- A login that is accepted, a client that is lost, and the two together.
use distributed_chat_system.Prelude.{ℕ, ◌≡◌, ◌≢◌, refl, ap, sym, ◌∙◌, true, false, some, arith}
use distributed_chat_system.Text.{Bytes, bytes_discrete, trim}
use distributed_chat_system.Dict.{lookup-insert, insert-Distinct}
use distributed_chat_system.Protocol.{login_resp, s2s_replicate_user}
use distributed_chat_system.Server.Users.{is_user_online, register_user}
use distributed_chat_system.Server.Users.Refinement.{location}
use distributed_chat_system.Server.Connections.{
  authenticate_session, get_session_by_username, get_session_by_socket, get_peer_node,
}
use distributed_chat_system.Server.State.{ChatServer}
use distributed_chat_system.Server.State.Sends.{tell-Adds, announce_users-Adds}
use distributed_chat_system.Server.Replication.{replicate_user_login}
use distributed_chat_system.Server.Replication.Spares.{
  Spares, Spares-trans, Adds-Spares, broadcast_s2s-Spares, IsSound, same_names, same_sockets,
}
use distributed_chat_system.Server.Clients.{
  username_of, is_bad_name, sign_on, complete_login, handle_login,
}

pub complete_login-Spares :
    (r : ℕ) (name : Bytes) (s : ChatServer) → Spares (sign_on r name s) (complete_login r name s)
unfolding complete_login replicate_user_login
complete_login-Spares r name s =
    Spares-trans (Adds-Spares (tell-Adds r login_resp _ (sign_on r name s))) (
      Spares-trans (broadcast_s2s-Spares s2s_replicate_user _ _)
        (Adds-Spares (announce_users-Adds _)))

-- What an accepted login establishes.
pub record SignsOn (r : ℕ) (name : Bytes) (s t : ChatServer) : Type 0 where
  pub here : location t.users name ≡ some s.server_id
  pub session : get_session_by_username name t.connections ≡ some r
  pub authenticated : (t.connections.session_at r).is_authenticated ≡ true
  pub named : username_of r t ≡ name
  pub other_sessions : (q : ℕ) → q ≢ r → t.connections.session_at q ≡ s.connections.session_at q
  pub other_names :
      (q : Bytes)
      → q ≢ name
      → get_session_by_username q t.connections ≡ get_session_by_username q s.connections
  pub sockets :
      (handle : ℕ)
      → get_session_by_socket handle t.connections ≡ get_session_by_socket handle s.connections
  pub other_users :
      (q : Bytes)
      → q ≢ name
      → location s.users q ≡ some s.server_id
      → location t.users q ≡ some s.server_id
  pub sound : IsSound t
  pub server_id : t.server_id ≡ s.server_id

pub sign_on-IsSound :
    (r : ℕ) (name : Bytes) (s : ChatServer) → IsSound s → IsSound (sign_on r name s)
unfolding sign_on authenticate_session register_user get_peer_node
sign_on-IsSound r name s h = record {
  not_own_peer = h.not_own_peer;
  table = insert-Distinct bytes_discrete name s.server_id s.users.user_locations h.table;
}

sign_on-SignsOn :
    (r : ℕ) (name : Bytes) (s : ChatServer) → IsSound s → SignsOn r name s (sign_on r name s)
sign_on-SignsOn r name s h = record {
  here =
      unfold sign_on register_user in
      ground (arith, lookup-insert bytes_discrete name name s.server_id s.users.user_locations);
  session =
      unfold sign_on authenticate_session get_session_by_username in
      ground (arith, lookup-insert bytes_discrete name name r s.connections.sessions_by_username);
  authenticated = unfold sign_on authenticate_session in ground arith;
  named = unfold sign_on authenticate_session in ground arith;
  other_sessions = λ q ne. unfold sign_on authenticate_session in ground arith;
  other_names = λ q ne.
      unfold sign_on authenticate_session get_session_by_username in
      ground (arith, lookup-insert bytes_discrete q name r s.connections.sessions_by_username);
  sockets = λ handle. unfold sign_on authenticate_session get_session_by_socket in refl;
  other_users = λ q ne e.
      unfold sign_on register_user in
      ground (arith, lookup-insert bytes_discrete q name s.server_id s.users.user_locations);
  sound = sign_on-IsSound r name s h;
  server_id = unfold sign_on in refl;
}

SignsOn-Spares :
    (r : ℕ) (name : Bytes) (s t u : ChatServer)
    → t.server_id ≡ s.server_id
    → SignsOn r name s t
    → Spares t u
    → SignsOn r name s u
SignsOn-Spares r name s t u id a p = record {
  here = own name a.here;
  session = same_names p.clients name ∙ a.session;
  authenticated = ap (λ h. (h r).is_authenticated) p.clients.session_at ∙ a.authenticated;
  named = ap (λ h. (h r).username) p.clients.session_at ∙ a.named;
  other_sessions = λ q ne. ap (λ h. h q) p.clients.session_at ∙ a.other_sessions q ne;
  other_names = λ q ne. same_names p.clients q ∙ a.other_names q ne;
  sockets = λ handle. same_sockets p.clients handle ∙ a.sockets handle;
  other_users = λ q ne e. own q (a.other_users q ne e);
  sound = p.sound a.sound;
  server_id = p.server_id ∙ id;
}
  where
    own :
        (q : Bytes) → location t.users q ≡ some s.server_id → location u.users q ≡ some s.server_id
    own q e = p.own_users a.sound q (e ∙ ap some (sym id)) ∙ ap some id

pub complete_login-SignsOn :
    (r : ℕ) (name : Bytes) (s : ChatServer) → IsSound s → SignsOn r name s (complete_login r name s)
complete_login-SignsOn r name s h =
    SignsOn-Spares r name s (sign_on r name s) (complete_login r name s) (unfold sign_on in refl)
      (sign_on-SignsOn r name s h) (complete_login-Spares r name s)

-- A login under a good name that is not online anywhere signs the session on, whichever peers are
-- lost while they are told, on a server that is not its own peer and whose table has no name
-- twice: the user is at this server, the session is authenticated under the name and the name
-- leads to it, every socket leads to the session it led to, and no other session, name or user of
-- this server is touched.
pub handle_login-SignsOn :
    (r : ℕ) (payload : Bytes) (s : ChatServer)
    → is_bad_name (trim payload) ≡ false
    → is_user_online (trim payload) s.users ≡ false
    → IsSound s
    → SignsOn r (trim payload) s (handle_login r payload s)
unfolding handle_login
handle_login-SignsOn r payload s good free h =
    rw (good, free) (complete_login-SignsOn r (trim payload) s h)
