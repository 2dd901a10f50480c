-- ===== src/Server/Events/LoginRace.antt =====
-- HandleLogin as two workers run it at the same time: the test of the name, and what follows it, are
-- steps of their own, since each call of UserManager takes its lock and gives it back.
use distributed_chat_system.Prelude.{
  ℕ, ◌≡◌, ◌≢◌, refl, ap, ◌∙◌, true, false, Option, none, some, [], ◌∷◌, if◌then◌else◌, Bool-cases,
  inl, inr,
}
use distributed_chat_system.Text.{Bytes, trim}
use distributed_chat_system.Protocol.{login_resp}
use distributed_chat_system.Server.Users.{is_user_online}
use distributed_chat_system.Server.Connections.{get_session_by_username}
use distributed_chat_system.Server.State.{ChatServer, tell}
use distributed_chat_system.Server.State.Texts.{zero_text, invalid_username, already_online}
use distributed_chat_system.Server.Replication.Spares.{IsSound}
use distributed_chat_system.Server.Clients.{username_of, is_bad_name, complete_login, handle_login}
use distributed_chat_system.Server.Clients.Login.{complete_login-SignsOn}

-- Up to the tests: the answer to a name that is refused, or the name that goes on.
unfoldable pub begin_login : ℕ → Bytes → ChatServer → ChatServer × Option Bytes
begin_login r payload s =
    let name = trim payload in
    if is_bad_name name
    then (tell r login_resp (zero_text ∷ invalid_username ∷ []) s, none)
    else if is_user_online name s.users
    then (tell r login_resp (zero_text ∷ already_online ∷ []) s, none)
    else (s, some name)

-- From RegisterUser to the end.
unfoldable pub end_login : ℕ → Option Bytes → ChatServer → ChatServer
end_login r none s = s
end_login r (some name) s = complete_login r name s

-- One worker alone does what the handler does.
pub login_alone :
    (r : ℕ) (payload : Bytes) (s : ChatServer)
    → end_login r (begin_login r payload s).1 (begin_login r payload s).0 ≡ handle_login r payload s
unfolding begin_login end_login handle_login
login_alone r payload s = elim (Bool-cases (is_bad_name (trim payload))) [
  | inl bad ↦ rw bad refl
  | inr good ↦ elim (Bool-cases (is_user_online (trim payload) s.users)) [
    | inl online ↦ rw (good, online) refl
    | inr free ↦ rw (good, free) refl
  ]
]

begin_login-free :
    (r : ℕ) (payload : Bytes) (s : ChatServer)
    → is_bad_name (trim payload) ≡ false
    → is_user_online (trim payload) s.users ≡ false
    → begin_login r payload s ≡ (s, some (trim payload))
unfolding begin_login
begin_login-free r payload s good free = rw (good, free) refl

-- Two workers whose two sessions ask for one good name that is not online anywhere, and that both
-- test it before either registers it, let both sessions in, on a server that is not its own peer
-- and whose table has no name twice: both sessions are authenticated under the one name, which
-- leads to the session whose worker came last.
pub two_logins_race :
    (q r : ℕ) (payload : Bytes) (s : ChatServer)
    → q ≢ r
    → is_bad_name (trim payload) ≡ false
    → is_user_online (trim payload) s.users ≡ false
    → IsSound s
    → let (s1, first) = begin_login q payload s in
      let (s2, second) = begin_login r payload s1 in
      let t = end_login r second (end_login q first s2) in
      ((t.connections.session_at q).is_authenticated ≡ true)
      × (username_of q t ≡ trim payload)
      × ((t.connections.session_at r).is_authenticated ≡ true)
      × (username_of r t ≡ trim payload)
      × (get_session_by_username (trim payload) t.connections ≡ some r)
unfolding end_login
two_logins_race q r payload s apart good free h =
    let name = trim payload in
    let a = complete_login-SignsOn q name s h in
    let b = complete_login-SignsOn r name (complete_login q name s) a.sound in
    let same = b.other_sessions q apart in
    rw (begin_login-free q payload s good free) (
      rw (begin_login-free r payload s good free) (
        ap (λ x. x.is_authenticated) same ∙ a.authenticated,
        ap (λ x. x.username) same ∙ a.named,
        b.authenticated,
        b.named,
        b.session,
      ))
