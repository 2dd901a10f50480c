-- ===== src/Server/Clients/Impostor.antt =====
-- A client that says S2S_CONNECT.
use distributed_chat_system.Prelude.{ℕ, ℤ, ◌≡◌, ap, ◌∙◌, true, false, some, [], ◌∷◌, is_positive}
use distributed_chat_system.Text.{Bytes}
use distributed_chat_system.Text.Decimal.{stoi}
use distributed_chat_system.Protocol.{s2s_connect, s2s_route_msg, status_update, serialize, pack}
use distributed_chat_system.Protocol.Fields.{IsNulFree}
use distributed_chat_system.Server.Users.{same_id, get_user_location}
use distributed_chat_system.Server.Connections.{get_peer_node}
use distributed_chat_system.Server.State.{ChatServer, send_buffer}
use distributed_chat_system.Server.State.Sends.{Adds, to_session}
use distributed_chat_system.Server.State.Texts.{success_tag, routed_text}
use distributed_chat_system.Server.Clients.{
  username_of, handle_client_packet, dispatch_client, needs_login, handle_private_msg,
}
use distributed_chat_system.Server.Clients.Promotion.{Promoted, promote-Promoted}
use distributed_chat_system.Server.Clients.Routing.{handle_private_msg_remote}

-- The state after a session that has not logged in has said the id of a peer.
claimed-Promoted :
    (q k n : ℕ) (id : ℤ) (payload : Bytes) (s : ChatServer)
    → (s.connections.session_at q).is_authenticated ≡ false
    → (s.connections.session_at q).socket ≡ some k
    → stoi payload ≡ some id
    → get_peer_node id s.connections ≡ some n
    → Promoted id n k s
        (handle_client_packet q (record { type = s2s_connect; payload = payload }) s)
unfolding handle_client_packet dispatch_client needs_login
claimed-Promoted q k n id payload s outside has says known =
    rw (outside, says, dispatch_client) (promote-Promoted q k n id s has known)

-- A session that never logged in takes the place of a peer, connected or not, by saying the peer's
-- id in S2S_CONNECT. From then on a private message without NUL from any session to a user of that
-- peer is sent to the socket of that session, if the send loop succeeds, and its sender is told that
-- it was routed.
pub impostor_reads_messages :
    (q r k n : ℕ) (payload receiver text : Bytes) (s : ChatServer)
    → (s.connections.session_at q).is_authenticated ≡ false
    → (s.connections.session_at q).socket ≡ some k
    → stoi payload ≡ some (get_user_location receiver s.users)
    → get_peer_node (get_user_location receiver s.users) s.connections ≡ some n
    → IsNulFree receiver
    → IsNulFree text
    → same_id (get_user_location receiver s.users) s.server_id ≡ false
    → is_positive (get_user_location receiver s.users) ≡ true
    → let t = handle_client_packet q (record { type = s2s_connect; payload = payload }) s in
      let frame = serialize s2s_route_msg (pack (username_of r t ∷ receiver ∷ text ∷ [])) in
      (send_buffer k frame t).1 ≡ true
      → Adds
          ((k, frame) ∷ to_session status_update (success_tag ∷ routed_text ∷ []) t.connections r)
          t
          (handle_private_msg r (pack (receiver ∷ text ∷ [])) t)
impostor_reads_messages q r k n payload receiver text s outside has says known name_ok text_ok away
      positive ok =
    let t = handle_client_packet q (record { type = s2s_connect; payload = payload }) s in
    let id = get_user_location receiver s.users in
    let p = claimed-Promoted q k n id payload s outside has says known in
    let same = ap (get_user_location receiver) p.users in
    handle_private_msg_remote r receiver text t name_ok text_ok
      (ap (λ at. same_id at t.server_id) same ∙ (ap (same_id id) p.server_id ∙ away))
      (ap is_positive same ∙ positive) n k
      (ap (λ at. get_peer_node at t.connections) same ∙ p.known) p.connected p.socket ok
