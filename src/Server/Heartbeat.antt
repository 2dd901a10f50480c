-- ===== src/Server/Heartbeat.antt =====
-- server/HeartbeatManager: its thread, and one round of the loop that the thread runs.
pub mod Timeouts
pub mod Pings
pub mod Silence
use distributed_chat_system.Prelude.{
  ℕ, ◌-◌, ◌/◌, ◌^◌, Bool, true, false, Option, none, some, if◌then◌else◌, leb, for_each, List, [],
  ◌∷◌, not,
}
use distributed_chat_system.Text.Decimal.{to_string}
use distributed_chat_system.Protocol.{s2s_heartbeat, serialize}
use distributed_chat_system.Server.Connections.{ServerNode, get_all_peer_nodes}
use distributed_chat_system.Server.State.{ChatServer, handle_peer_disconnect}
use distributed_chat_system.Server.Replication.{relay}

-- duration_cast<seconds>(now - last).count() >= 15. A time of last contact after `now` makes the
-- difference negative, which is no time-out either.
unfoldable pub is_timed_out : ℕ → ServerNode → Bool
is_timed_out now n = leb 15 ((now - n.last_heartbeat) / 10 ^ 9)

unfoldable pub check_connected : ℕ → ℕ → ChatServer → ChatServer
unfolding is_timed_out
check_connected now n s =
    let node = s.connections.node_at n in
    if is_timed_out now node then handle_peer_disconnect node.server_id s else elim node.socket [
      | none ↦ s
      | some k ↦ relay node.server_id k (serialize s2s_heartbeat (to_string s.server_id)) s
    ]

unfoldable pub check_peer : ℕ → ℕ → ChatServer → ChatServer
unfolding check_connected
check_peer now n s = if (s.connections.node_at n).is_connected then check_connected now n s else s

-- The body of the loop after its five seconds of sleep.
unfoldable pub heartbeat_round : ChatServer → ChatServer
unfolding check_peer
heartbeat_round s = for_each (get_all_peer_nodes s.connections) (check_peer s.connections.now) s

-- m_running.exchange(true), and whether Start makes a thread.
abbrev pub start_heartbeat : ChatServer → ChatServer × Bool
start_heartbeat s = (record s { heartbeat_running = true }, not s.heartbeat_running)

-- m_running.exchange(false), and whether Stop waits for the thread.
abbrev pub stop_heartbeat : ChatServer → ChatServer × Bool
stop_heartbeat s = (record s { heartbeat_running = false }, s.heartbeat_running)

-- What follows a sleep.
unfoldable pub heartbeat_turn : ChatServer → ChatServer
unfolding heartbeat_round
heartbeat_turn s = if s.heartbeat_running then heartbeat_round s else s

-- HeartbeatLoop for as many sleeps as are listed: each is what the rest of the server and the clock
-- do in the meantime.
unfoldable pub heartbeat_loop : List (ChatServer → ChatServer) → ChatServer → ChatServer
unfolding heartbeat_turn
heartbeat_loop [] s = s
heartbeat_loop (sleep ∷ sleeps) s =
    let rest = heartbeat_loop sleeps (heartbeat_turn (sleep s)) in
    if s.heartbeat_running then rest else s
