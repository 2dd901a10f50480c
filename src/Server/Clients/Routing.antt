-- ===== src/Server/Clients/Routing.antt =====
-- Private messages to users of other servers.
use distributed_chat_system.Prelude.{ℕ, ◌≡◌, true, false, some, List, [], ◌∷◌, is_positive}
use distributed_chat_system.Text.{Bytes}
use distributed_chat_system.Protocol.{status_update, s2s_route_msg, pack, serialize}
use distributed_chat_system.Protocol.Fields.{IsNulFree, unpack-pack}
use distributed_chat_system.Server.Users.{same_id, get_user_location}
use distributed_chat_system.Server.Connections.{get_peer_node}
use distributed_chat_system.Server.State.{ChatServer, send_buffer}
use distributed_chat_system.Server.State.Texts.{success_tag, routed_text}
use distributed_chat_system.Server.State.Sends.{
  Adds, Adds-tell, to_session, tell-Adds, send_buffer-Adds,
}
use distributed_chat_system.Server.Replication.{
  route_private_message, relay_to_id, relay_to_node, relay,
}
use distributed_chat_system.Server.Clients.{
  username_of, send_private, handle_private_msg, private_fields,
}

module _ (r : ℕ) (receiver text : Bytes) (s : ChatServer) (name_ok : IsNulFree receiver)
    (text_ok : IsNulFree text)
    (elsewhere : same_id (get_user_location receiver s.users) s.server_id ≡ false)
    (known : is_positive (get_user_location receiver s.users) ≡ true) where
  abbrev reported : List (ℕ × Bytes)
  reported = to_session status_update (success_tag ∷ routed_text ∷ []) s.connections r

  -- A private message without NUL to a user of a connected server is sent there once, in a frame
  -- that names the sender, and the sender is told that it was routed, if the send loop to that
  -- server succeeds. Nothing else is sent or changed.
  pub handle_private_msg_remote :
      (n k : ℕ)
      → get_peer_node (get_user_location receiver s.users) s.connections ≡ some n
      → (s.connections.node_at n).is_connected ≡ true
      → (s.connections.node_at n).socket ≡ some k
      → (send_buffer k
          (serialize s2s_route_msg (pack (username_of r s ∷ receiver ∷ text ∷ [])))
          s).1
        ≡ true
      → Adds
          ((k, serialize s2s_route_msg (pack (username_of r s ∷ receiver ∷ text ∷ []))) ∷ reported)
          s
          (handle_private_msg r (pack (receiver ∷ text ∷ [])) s)
  unfolding handle_private_msg
  handle_private_msg_remote n k found on has ok =
      rw (unpack-pack (receiver ∷ text ∷ []) (name_ok, (text_ok, tt))) (
        unfold private_fields send_private route_private_message in
        rw (elsewhere, known)
          (rw (found, relay_to_id)
            (rw (on, has, relay_to_node)
              (unfold relay in rw ok (Adds-tell r status_update _ (send_buffer-Adds k _ s))))))

  -- A private message without NUL to a user whose server is known and not connected is lost:
  -- nothing is sent to any server, and the sender is told all the same that it was routed.
  pub handle_private_msg_lost :
      (n : ℕ)
      → get_peer_node (get_user_location receiver s.users) s.connections ≡ some n
      → (s.connections.node_at n).is_connected ≡ false
      → Adds reported s (handle_private_msg r (pack (receiver ∷ text ∷ [])) s)
  unfolding handle_private_msg
  handle_private_msg_lost n found off =
      rw (unpack-pack (receiver ∷ text ∷ []) (name_ok, (text_ok, tt))) (
        unfold private_fields send_private route_private_message in
        rw (elsewhere, known)
          (rw (found, relay_to_id)
            (unfold relay_to_node in rw off (tell-Adds r status_update _ s))))
