-- ===== src/Server/Heartbeat/Timeouts.antt =====
-- Who is pinged, who is dropped, and what keeps a peer alive.
use distributed_chat_system.Prelude.{
  ℕ, ◌+◌, ◌*◌, ◌^◌, ◌<◌, ◌≤◌, ◌≡◌, refl, ap, ◌∙◌, true, false, some, [], ◌∷◌, arith,
}
use distributed_chat_system.Text.{Bytes}
use distributed_chat_system.Text.Decimal.{to_string}
use distributed_chat_system.Protocol.{s2s_heartbeat, s2s_heartbeat_ack, serialize}
use distributed_chat_system.Server.Users.Refinement.{IsTable}
use distributed_chat_system.Server.Connections.{
  ServerNode, get_peer_node, update_heartbeat, modify_node, Connections,
}
use distributed_chat_system.Server.State.{ChatServer, send_buffer}
use distributed_chat_system.Server.State.Sends.{Adds, send_buffer-Adds}
use distributed_chat_system.Server.State.Disconnect.{
  IsForgotten, handle_peer_disconnect-IsForgotten,
}
use distributed_chat_system.Server.Replication.{relay}
use distributed_chat_system.Server.Peers.{handle_server_packet, handle_s2s_heartbeat}
use distributed_chat_system.Server.Heartbeat.{is_timed_out, check_peer, check_connected}

abbrev pub heard : ℕ → ChatServer → ChatServer
heard n s = record s {
  connections = modify_node n (update_heartbeat s.connections.now) s.connections;
}

pub timed_out :
    (now n : ℕ) (s : ChatServer)
    → (s.connections.node_at n).last_heartbeat + 15 * 10 ^ 9 ≤ now
    → is_timed_out now (s.connections.node_at n) ≡ true
unfolding is_timed_out
timed_out now n s h = ground arith

pub recent_enough :
    (now : ℕ) (x : ServerNode) → now < x.last_heartbeat + 15 * 10 ^ 9 → is_timed_out now x ≡ false
unfolding is_timed_out
recent_enough now x h = ground arith

pub heard_socket :
    (n k : ℕ) (s : ChatServer)
    → (s.connections.node_at n).socket ≡ some k
    → ((heard n s).connections.node_at n).socket ≡ some k
unfolding update_heartbeat
heard_socket n k s has = ground arith

not_timed_out_heard :
    (n later : ℕ) (s : ChatServer)
    → later < s.connections.now + 15 * 10 ^ 9
    → is_timed_out later ((heard n s).connections.node_at n) ≡ false
unfolding update_heartbeat
not_timed_out_heard n later s h =
    recent_enough later ((heard n s).connections.node_at n) (ground arith)

-- A known and connected peer that was silent for fifteen seconds or more is cleaned up as a lost
-- peer, if the table of users has no name twice.
pub check_peer-IsForgotten :
    (now n : ℕ) (s : ChatServer)
    → get_peer_node (s.connections.node_at n).server_id s.connections ≡ some n
    → (s.connections.node_at n).is_connected ≡ true
    → (s.connections.node_at n).last_heartbeat + 15 * 10 ^ 9 ≤ now
    → IsTable s.users
    → IsForgotten (s.connections.node_at n).server_id n s (check_peer now n s)
unfolding check_peer
check_peer-IsForgotten now n s known on silent table = rw on (
    unfold check_connected in
    rw (timed_out now n s silent)
      (handle_peer_disconnect-IsForgotten (s.connections.node_at n).server_id n s known on table))

-- A connected peer that was heard of less than fifteen seconds ago is sent one heartbeat, and
-- nothing else is sent or changed, if the send loop succeeds.
pub check_peer-Adds :
    (now n k : ℕ) (s : ChatServer)
    → (s.connections.node_at n).is_connected ≡ true
    → now < (s.connections.node_at n).last_heartbeat + 15 * 10 ^ 9
    → (s.connections.node_at n).socket ≡ some k
    → (send_buffer k (serialize s2s_heartbeat (to_string s.server_id)) s).1 ≡ true
    → Adds ((k, serialize s2s_heartbeat (to_string s.server_id)) ∷ []) s (check_peer now n s)
unfolding check_peer
check_peer-Adds now n k s on recent has ok = rw on (
    rw (recent_enough now (s.connections.node_at n) recent, check_connected, has)
      (unfold relay in rw ok (send_buffer-Adds k _ s)))

-- A heartbeat is answered by one acknowledgement on the node's own socket, and changes nothing but
-- the time of the last contact: the node does not time out within the next fifteen seconds.
pub heartbeat_answered :
    (n k later : ℕ) (payload : Bytes) (s : ChatServer)
    → (s.connections.node_at n).socket ≡ some k
    → later < s.connections.now + 15 * 10 ^ 9
    → let t = handle_server_packet n (record { type = s2s_heartbeat; payload = payload }) s in
      Adds ((k, serialize s2s_heartbeat_ack (to_string s.server_id)) ∷ []) (heard n s) t
      × (is_timed_out later (t.connections.node_at n) ≡ false)
unfolding handle_server_packet handle_s2s_heartbeat
heartbeat_answered n k later payload s has recent =
    let a : Adds ((k, serialize s2s_heartbeat_ack (to_string s.server_id)) ∷ []) (heard n s)
        (handle_server_packet n (record { type = s2s_heartbeat; payload = payload }) s) =
      rw (heard_socket n k s has, handle_s2s_heartbeat) (send_buffer-Adds k _ (heard n s)) in
    (
      a,
      ap (λ (c : Connections). is_timed_out later (c.node_at n)) a.connections
          ∙ not_timed_out_heard n later s recent,
    )

-- An acknowledgement changes nothing but the time of the last contact, which keeps the node from
-- timing out within the next fifteen seconds.
pub ack_keeps_alive :
    (n later : ℕ) (payload : Bytes) (s : ChatServer)
    → later < s.connections.now + 15 * 10 ^ 9
    → let t = handle_server_packet n (record { type = s2s_heartbeat_ack; payload = payload }) s in
      (t ≡ heard n s) × (is_timed_out later (t.connections.node_at n) ≡ false)
unfolding handle_server_packet
ack_keeps_alive n later payload s recent = (refl, not_timed_out_heard n later s recent)
