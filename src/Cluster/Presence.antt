-- ===== src/Cluster/Presence.antt =====
-- A login on one server, as the whole cluster comes to know it.
use distributed_chat_system.Prelude.{
  ℕ, ℤ, [], ◌∷◌, ◌+◌, ◌≤◌, ◌<◌, ◌≡◌, refl, ap, ◌∙◌, true, false, some, ◌++◌, arith, length,
  Bool-cases, inl, inr, ◌==◌,
}
use distributed_chat_system.Text.{Bytes, bytes_discrete, trim, has_byte}
use distributed_chat_system.Text.Decimal.{IsInt}
use distributed_chat_system.Dict.{lookup-insert}
use distributed_chat_system.Networking.{Answers, patience}
use distributed_chat_system.Protocol.{
  RawPacket, s2s_replicate_user, serialize, read_packet, max_payload_size,
}
use distributed_chat_system.Protocol.Fields.{IsNulFree}
use distributed_chat_system.Server.Users.{
  UserManager, get_user_location, is_user_online, register_user,
}
use distributed_chat_system.Server.Heartbeat.Timeouts.{heard}
use distributed_chat_system.Server.State.{ChatServer}
use distributed_chat_system.Server.State.Texts.{one_text}
use distributed_chat_system.Server.State.Sends.{Adds}
use distributed_chat_system.Server.Replication.{notice}
use distributed_chat_system.Server.Replication.Reach.{PeersTake}
use distributed_chat_system.Server.Clients.{is_bad_name, sign_on, handle_login}
use distributed_chat_system.Server.Clients.Broadcasts.{login_frames, handle_login-Adds}
use distributed_chat_system.Server.Peers.{handle_server_packet, dispatch_server}
use distributed_chat_system.Server.Peers.Sync.{handle_s2s_replicate_user-notice}
use distributed_chat_system.Client.Display.{read_packet-frame}

has_byte-IsNulFree : (s : Bytes) → has_byte 0 s ≡ false → IsNulFree s
unfolding has_byte
has_byte-IsNulFree [] h = tt
has_byte-IsNulFree (c ∷ s) h = elim (Bool-cases (c == 0)) [
  | inl e ↦ absurd (cc (rw e at h))
  | inr e ↦ (ground (arith, e), has_byte-IsNulFree s (rw e at h))
]

-- A name that the login accepts has no NUL.
good_name : (name : Bytes) → is_bad_name name ≡ false → IsNulFree name
unfolding is_bad_name
good_name name good = has_byte-IsNulFree name (ground (arith, good))

register_user-location :
    (name : Bytes) (id : ℤ) (u : UserManager)
    → (get_user_location name (register_user name id u) ≡ id)
      × (is_user_online name (register_user name id u) ≡ true)
unfolding get_user_location is_user_online register_user
register_user-location name id u =
    let e = lookup-insert bytes_discrete name name id u.user_locations in
    (ground (arith, e), ground (arith, e))

-- What server `a` sends its peers.
abbrev pub login_notice : ℕ → Bytes → ChatServer → RawPacket
login_notice r name a = record {
  type = s2s_replicate_user;
  payload = notice name one_text (sign_on r name a);
}

module _ (r m : ℕ) (payload : Bytes) (a b : ChatServer) where
  abbrev name : Bytes
  name = trim payload

  abbrev told_peers : RawPacket
  told_peers = login_notice r name a

  -- A login on server `a` under a good name that is not online anywhere, with a server id that is an
  -- int, a notice within the size limit and send loops to the connected peers that succeed, reaches the
  -- cluster: `a` sends its frames, each peer's among them; a server `b` that is moved enough bytes reads
  -- the notice as it was sent, whatever follows it, and from then on has the user at `a`, so that
  -- the name counts as online there too.
  pub login_crosses :
      (e : Answers) (rest : Bytes)
      → is_bad_name name ≡ false
      → is_user_online name a.users ≡ false
      → IsInt a.server_id
      → length told_peers.payload < max_payload_size
      → 5 + length told_peers.payload ≤ patience e
      → PeersTake
          (serialize s2s_replicate_user told_peers.payload)
          (sign_on r name a).connections
          (sign_on r name a).network.answers
      → Adds (login_frames r name (sign_on r name a)) (sign_on r name a) (handle_login r payload a)
        × ((read_packet true (record {
          answers = e;
          stream = serialize s2s_replicate_user told_peers.payload ++ rest;
        })).0
            ≡ some told_peers)
        × (get_user_location name (handle_server_packet m told_peers b).users ≡ a.server_id)
        × (is_user_online name (handle_server_packet m told_peers b).users ≡ true)
  unfolding handle_server_packet dispatch_server sign_on
  login_crosses e rest good free int short enough takes =
      let told =
        handle_s2s_replicate_user-notice name true (sign_on r name a) (heard m b)
          (good_name name good) int in
      let known = register_user-location name a.server_id b.users in
      (
        handle_login-Adds r payload a good free takes,
        (read_packet-frame told_peers rest (record { answers = e; stream = _ }) (tt, short) refl
            enough).packet,
        ap (get_user_location name) told.users ∙ known.0,
        ap (is_user_online name) told.users ∙ known.1,
      )
