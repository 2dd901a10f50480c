-- ===== src/Server/State/Sends.antt =====
-- What telling sessions changes: the network only, and which frames it adds.
use distributed_chat_system.Prelude.{
  ℕ, ◌≡◌, refl, ap, sym, subst, ◌∙◌, Option, none, some, List, [], ◌∷◌, ◌++◌, map, append-nil,
  append_assoc, if◌then◌else◌, for_each, Option-cases, Bool-cases, inl, inr,
}
use mathlib.Core.List.{map-append}
use distributed_chat_system.Text.{Bytes}
use distributed_chat_system.Protocol.{PacketType, serialize, pack, status_update}
use distributed_chat_system.Server.Connections.{Connections, get_all_sessions}
use distributed_chat_system.Server.Users.{get_online_users}
use distributed_chat_system.Server.State.Texts.{status_tag}
use distributed_chat_system.Server.State.{
  ChatServer, Sent, send_buffer, send_packet, tell, tell_authenticated, announce_users,
}

-- The sockets and buffers of the send loops so far.
abbrev pub sends : ChatServer → List (ℕ × Bytes)
sends s = map (λ (x : Sent). (x.to, x.frame)) s.network.wire

-- `t` is `s` after some more send loops, for these sockets and buffers; nothing else differs.
pub record Adds (more : List (ℕ × Bytes)) (s t : ChatServer) : Type 0 where
  pub connections : t.connections ≡ s.connections
  pub users : t.users ≡ s.users
  pub rooms : t.rooms ≡ s.rooms
  pub server_id : t.server_id ≡ s.server_id
  pub all_else : t ≡ record s { network = t.network }
  pub answers : t.network.answers ≡ s.network.answers
  pub wire : sends t ≡ sends s ++ more

pub Adds-nil : (s : ChatServer) → Adds [] s s
Adds-nil s = record {
  connections = refl;
  users = refl;
  rooms = refl;
  server_id = refl;
  all_else = refl;
  answers = refl;
  wire = sym (append-nil (sends s));
}

pub Adds-append :
    {a b : List (ℕ × Bytes)} {s t u : ChatServer} → Adds a s t → Adds b t u → Adds (a ++ b) s u
Adds-append {a} {b} {s} {t} {u} p q = record {
  connections = q.connections ∙ p.connections;
  users = q.users ∙ p.users;
  rooms = q.rooms ∙ p.rooms;
  server_id = q.server_id ∙ p.server_id;
  all_else = q.all_else ∙ ap (λ (x : ChatServer). record x { network = u.network }) p.all_else;
  answers = q.answers ∙ p.answers;
  wire = q.wire ∙ (ap (λ w. w ++ b) p.wire ∙ append_assoc (sends s) a b);
}

pub send_buffer-Adds :
    (k : ℕ) (frame : Bytes) (s : ChatServer) → Adds ((k, frame) ∷ []) s (send_buffer k frame s).0
unfolding send_buffer
send_buffer-Adds k frame s = record {
  connections = refl;
  users = refl;
  rooms = refl;
  server_id = refl;
  all_else = refl;
  answers = refl;
  wire = map-append _ s.network.wire _;
}

-- The frame for a socket, if there is one.
abbrev pub frame_for : PacketType → List Bytes → Option ℕ → List (ℕ × Bytes)
frame_for type fields none = []
frame_for type fields (some k) = (k, serialize type (pack fields)) ∷ []

-- The frame for one session, if it has a socket.
abbrev pub to_session : PacketType → List Bytes → Connections → ℕ → List (ℕ × Bytes)
to_session type fields c r = frame_for type fields (c.session_at r).socket

pub tell-Adds :
    (r : ℕ) (type : PacketType) (fields : List Bytes) (s : ChatServer)
    → Adds (to_session type fields s.connections r) s (tell r type fields s)
unfolding tell
tell-Adds r type fields s = elim (Option-cases (s.connections.session_at r).socket) [
  | inl e ↦ rw (e, tell, send_packet) (Adds-nil s)
  | inr (k, e) ↦ rw (e, tell, send_packet) (send_buffer-Adds k (serialize type (pack fields)) s)
]

-- One more packet to a session.
pub Adds-tell :
    (r : ℕ) (type : PacketType) (fields : List Bytes) {more : List (ℕ × Bytes)} {s t : ChatServer}
    → Adds more s t
    → Adds (more ++ to_session type fields s.connections r) s (tell r type fields t)
Adds-tell r type fields {s} {t} a = Adds-append a (
    subst (λ c. Adds (to_session type fields c r) t (tell r type fields t)) a.connections
      (tell-Adds r type fields t))

-- The frames of a loop over a list.
abbrev pub concat_map {ℓ} : {A : Type ℓ} → (A → List (ℕ × Bytes)) → List A → List (ℕ × Bytes)
concat_map f [] = []
concat_map f (x ∷ xs) = f x ++ concat_map f xs

-- A loop whose rounds only send, and look at the objects and maps only, sends what its rounds send.
pub for_each-Adds {ℓ} :
    {A : Type ℓ} (f : A → List (ℕ × Bytes)) (c : Connections) (body : A → ChatServer → ChatServer)
    → ((x : A) (t : ChatServer) → t.connections ≡ c → Adds (f x) t (body x t))
    → (xs : List A) (s : ChatServer) → s.connections ≡ c
    → Adds (concat_map f xs) s (for_each xs body s)
unfolding for_each
for_each-Adds f c body round [] s e = Adds-nil s
for_each-Adds f c body round (x ∷ xs) s e =
    let first = round x s e in
    Adds-append first (for_each-Adds f c body round xs (body x s) (first.connections ∙ e))

-- The frame for one session, if it is authenticated.
abbrev pub to_authenticated : PacketType → List Bytes → Connections → ℕ → List (ℕ × Bytes)
to_authenticated type fields c r =
    if (c.session_at r).is_authenticated then to_session type fields c r else []

pub tell_authenticated-Adds :
    (type : PacketType) (fields : List Bytes) (r : ℕ) (s : ChatServer)
    → Adds (to_authenticated type fields s.connections r) s (tell_authenticated type fields r s)
unfolding tell_authenticated
tell_authenticated-Adds type fields r s =
    elim (Bool-cases (s.connections.session_at r).is_authenticated) [
      | inl e ↦ rw (e, tell_authenticated) (tell-Adds r type fields s)
      | inr e ↦ rw (e, tell_authenticated) (Adds-nil s)
    ]

-- The frames for every authenticated session.
abbrev pub to_all_authenticated : PacketType → List Bytes → Connections → List (ℕ × Bytes)
to_all_authenticated type fields c =
    concat_map (to_authenticated type fields c) (get_all_sessions c)

pub tell_all-Adds :
    (type : PacketType) (fields : List Bytes) (s : ChatServer)
    → Adds
        (to_all_authenticated type fields s.connections)
        s
        (for_each (get_all_sessions s.connections) (tell_authenticated type fields) s)
tell_all-Adds type fields s =
    for_each-Adds (to_authenticated type fields s.connections) s.connections
      (tell_authenticated type fields)
      (λ r t e.
        subst (λ c. Adds (to_authenticated type fields c r) t (tell_authenticated type fields r t))
          e (tell_authenticated-Adds type fields r t))
      (get_all_sessions s.connections) s refl

pub announce_users-Adds :
    (s : ChatServer)
    → Adds
        (to_all_authenticated status_update
          (status_tag ∷ pack (get_online_users s.users) ∷ [])
          s.connections)
        s
        (announce_users s)
unfolding announce_users
announce_users-Adds s = tell_all-Adds status_update _ s
