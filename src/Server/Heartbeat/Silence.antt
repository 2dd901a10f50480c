-- ===== src/Server/Heartbeat/Silence.antt =====
-- How long a peer that has fallen silent stays connected: three rounds of the heartbeat loop.
use distributed_chat_system.Prelude.{
  ℕ, suc, ◌+◌, ◌*◌, ◌^◌, ◌≤◌, ◌≡◌, refl, ap, ◌∙◌, true, false, some, ℤ, List, [], ◌∷◌, arith,
  length, All, subst, sym, for_each, ℤ_discrete, if◌then◌else◌, Bool-cases, Option-cases, inl, inr,
  for_each_induction,
}
use distributed_chat_system.Text.{Bytes}
use distributed_chat_system.Server.Connections.{
  Connections, ServerNode, unregister_peer_socket, set_socket, close_socket, get_peer_node,
  get_all_peer_nodes,
}
use distributed_chat_system.Server.State.{
  ChatServer, send_buffer, forget_peer, disconnect_peer, handle_peer_disconnect, close_node_socket,
}
use distributed_chat_system.Dict.{for_each-values}
use distributed_chat_system.Server.State.Disconnect.{lost}
use distributed_chat_system.Server.State.Sends.{announce_users-Adds}
use distributed_chat_system.Server.Replication.{relay}
use distributed_chat_system.Server.Heartbeat.{
  check_peer, check_connected, is_timed_out, heartbeat_round, heartbeat_turn, heartbeat_loop,
}
use distributed_chat_system.Server.Heartbeat.Timeouts.{timed_out}

-- What a round of heartbeats leaves of one node: the clock, the table of peers, the identity and
-- the last contact are the same, and a node that is not connected stays so.
record Fades (n : ℕ) (s t : ChatServer) : Type 0 where
  peer_nodes : t.connections.peer_nodes ≡ s.connections.peer_nodes
  clock : t.connections.now ≡ s.connections.now
  running : t.heartbeat_running ≡ s.heartbeat_running
  server_id : (t.connections.node_at n).server_id ≡ (s.connections.node_at n).server_id
  contact : (t.connections.node_at n).last_heartbeat ≡ (s.connections.node_at n).last_heartbeat
  off :
      (s.connections.node_at n).is_connected ≡ false
      → (t.connections.node_at n).is_connected ≡ false

Fades-refl : (n : ℕ) (s : ChatServer) → Fades n s s
Fades-refl n s = record {
  peer_nodes = refl;
  clock = refl;
  running = refl;
  server_id = refl;
  contact = refl;
  off = λ h. h;
}

Fades-trans : {n : ℕ} {s t u : ChatServer} → Fades n s t → Fades n t u → Fades n s u
Fades-trans p q = record {
  peer_nodes = q.peer_nodes ∙ p.peer_nodes;
  clock = q.clock ∙ p.clock;
  running = q.running ∙ p.running;
  server_id = q.server_id ∙ p.server_id;
  contact = q.contact ∙ p.contact;
  off = λ h. q.off (p.off h);
}

forget_peer-Fades : (m : ℕ) (id : ℤ) (n : ℕ) (s : ChatServer) → Fades n s (forget_peer m id s)
unfolding forget_peer unregister_peer_socket set_socket close_node_socket close_socket
forget_peer-Fades m id n s = record {
  peer_nodes = ground arith;
  clock = ground arith;
  running = refl;
  server_id = ground arith;
  contact = ground arith;
  off = λ h. ground arith;
}

disconnect_peer-Fades :
    (m : ℕ) (id : ℤ) (n : ℕ) (s : ChatServer) → Fades n s (disconnect_peer m id s)
unfolding disconnect_peer
disconnect_peer-Fades m id n s =
    let a = announce_users-Adds (forget_peer m id s) in
    Fades-trans (forget_peer-Fades m id n s) (record {
      peer_nodes = ap (λ (c : Connections). c.peer_nodes) a.connections;
      clock = ap (λ (c : Connections). c.now) a.connections;
      running = ap (λ (t : ChatServer). t.heartbeat_running) a.all_else;
      server_id = ap (λ (c : Connections). (c.node_at n).server_id) a.connections;
      contact = ap (λ (c : Connections). (c.node_at n).last_heartbeat) a.connections;
      off = λ h. ap (λ (c : Connections). (c.node_at n).is_connected) a.connections ∙ h;
    })

handle_peer_disconnect-Fades :
    (id : ℤ) (n : ℕ) (s : ChatServer) → Fades n s (handle_peer_disconnect id s)
unfolding handle_peer_disconnect
handle_peer_disconnect-Fades id n s = elim (Option-cases (get_peer_node id s.connections)) [
  | inl e ↦ rw (e, handle_peer_disconnect) (Fades-refl n s)
  | inr (m, e) ↦ elim (Bool-cases (s.connections.node_at m).is_connected) [
    | inl on ↦ rw (e, handle_peer_disconnect, on) (disconnect_peer-Fades m id n s)
    | inr off ↦ rw (e, handle_peer_disconnect, off) (Fades-refl n s)
  ]
]

send_buffer-Fades :
    (k : ℕ) (frame : Bytes) (n : ℕ) (s : ChatServer) → Fades n s (send_buffer k frame s).0
unfolding send_buffer
send_buffer-Fades k frame n s = record {
  peer_nodes = refl;
  clock = refl;
  running = refl;
  server_id = refl;
  contact = refl;
  off = λ h. h;
}

relay-Fades :
    (id : ℤ) (k : ℕ) (frame : Bytes) (n : ℕ) (s : ChatServer) → Fades n s (relay id k frame s)
unfolding relay
relay-Fades id k frame n s = elim (Bool-cases (send_buffer k frame s).1) [
  | inl ok ↦ rw ok (send_buffer-Fades k frame n s)
  | inr bad ↦
      rw bad (Fades-trans (send_buffer-Fades k frame n s) (handle_peer_disconnect-Fades id n _))
]

check_peer-Fades : (now m n : ℕ) (s : ChatServer) → Fades n s (check_peer now m s)
unfolding check_peer check_connected
check_peer-Fades now m n s = elim (Bool-cases (s.connections.node_at m).is_connected) [
  | inl on ↦ elim (Bool-cases (is_timed_out now (s.connections.node_at m))) [
    | inl late ↦ rw (on, late) (handle_peer_disconnect-Fades _ n s)
    | inr timely ↦ elim (Option-cases (s.connections.node_at m).socket) [
      | inl e ↦ rw (on, timely, e, check_connected) (Fades-refl n s)
      | inr (k, e) ↦ rw (on, timely, e, check_connected) (relay-Fades _ k _ n s)
    ]
  ]
  | inr off ↦ rw off (Fades-refl n s)
]

loop-Fades : (now n : ℕ) (ms : List ℕ) (s : ChatServer) → Fades n s (for_each ms (check_peer now) s)
loop-Fades now n ms s =
    for_each_induction (Fades n s) ms (check_peer now) s
      (λ m t p. Fades-trans p (check_peer-Fades now m n t)) (Fades-refl n s)

-- A node that the table of peers leads to, under its own id.
abbrev pub IsKnown : ℕ → ChatServer → Type 0
IsKnown n s = get_peer_node (s.connections.node_at n).server_id s.connections ≡ some n

IsKnown-Fades : (n : ℕ) (s t : ChatServer) → Fades n s t → IsKnown n s → IsKnown n t
unfolding get_peer_node
IsKnown-Fades n s t f known = cc (f.peer_nodes, f.server_id, known)

check_peer-off :
    (now n : ℕ) (s : ChatServer)
    → IsKnown n s
    → (s.connections.node_at n).last_heartbeat + 15 * 10 ^ 9 ≤ now
    → ((check_peer now n s).connections.node_at n).is_connected ≡ false
unfolding check_peer check_connected
check_peer-off now n s known silent = elim (Bool-cases (s.connections.node_at n).is_connected) [
  | inl on ↦ rw (on, timed_out now n s silent) (lost _ n s known on)
  | inr off ↦ rw off off
]

heartbeat_round-Fades : (n : ℕ) (s : ChatServer) → Fades n s (heartbeat_round s)
unfolding heartbeat_round
heartbeat_round-Fades n s = loop-Fades s.connections.now n (get_all_peer_nodes s.connections) s

heartbeat_round-off :
    (n : ℕ) (s : ChatServer)
    → IsKnown n s
    → (s.connections.node_at n).last_heartbeat + 15 * 10 ^ 9 ≤ s.connections.now
    → ((heartbeat_round s).connections.node_at n).is_connected ≡ false
unfolding heartbeat_round get_all_peer_nodes
heartbeat_round-off n s known silent =
    let now = s.connections.now in
    for_each-values ℤ_discrete (Fades n s) (λ t. (t.connections.node_at n).is_connected ≡ false)
      (check_peer now) (s.connections.node_at n).server_id n
      (λ m t f. Fades-trans f (check_peer-Fades now m n t))
      (λ t f.
        check_peer-off now n t (IsKnown-Fades n s t f known) (omega (arith, f.contact, silent)))
      (λ m t off. (check_peer-Fades now m n t).off off) s.connections.peer_nodes s
      (unfold get_peer_node in known) (Fades-refl n s)

-- A sleep of five seconds or more in which nothing is heard of a node, and nobody stops the thread
-- or changes the node or the table of peers.
pub record IsQuiet (n : ℕ) (sleep : ChatServer → ChatServer) : Type 0 where
  pub node : (s : ChatServer) → (sleep s).connections.node_at n ≡ s.connections.node_at n
  pub peer_nodes : (s : ChatServer) → (sleep s).connections.peer_nodes ≡ s.connections.peer_nodes
  pub running : (s : ChatServer) → (sleep s).heartbeat_running ≡ s.heartbeat_running
  pub clock : (s : ChatServer) → s.connections.now + 5 * 10 ^ 9 ≤ (sleep s).connections.now

IsKnown-IsQuiet :
    (n : ℕ) (g : ChatServer → ChatServer) (s : ChatServer)
    → IsQuiet n g
    → IsKnown n s
    → IsKnown n (g s)
unfolding get_peer_node
IsKnown-IsQuiet n g s q known = cc (q.node s, q.peer_nodes s, known)

heartbeat_turn_on :
    (s : ChatServer) → s.heartbeat_running ≡ true → heartbeat_turn s ≡ heartbeat_round s
unfolding heartbeat_turn
heartbeat_turn_on s on = rw on refl

loop_on :
    (g : ChatServer → ChatServer) (gs : List (ChatServer → ChatServer)) (s : ChatServer)
    → s.heartbeat_running ≡ true
    → (g s).heartbeat_running ≡ true
    → heartbeat_loop (g ∷ gs) s ≡ heartbeat_loop gs (heartbeat_round (g s))
unfolding heartbeat_loop
loop_on g gs s on still =
    ap (λ b. if b then heartbeat_loop gs (heartbeat_turn (g s)) else s) on
    ∙ ap (heartbeat_loop gs) (heartbeat_turn_on (g s) still)

last_loop_on :
    (g : ChatServer → ChatServer) (s : ChatServer)
    → s.heartbeat_running ≡ true
    → (g s).heartbeat_running ≡ true
    → heartbeat_loop (g ∷ []) s ≡ heartbeat_round (g s)
unfolding heartbeat_loop
last_loop_on g s on still = loop_on g [] s on still

-- Sleeps whose time adds up to the fifteen seconds of silence.
silent_loop :
    (n : ℕ) (g : ChatServer → ChatServer) (gs : List (ChatServer → ChatServer)) (s : ChatServer)
    → IsKnown n s
    → s.heartbeat_running ≡ true
    → IsQuiet n g
    → All (IsQuiet n) gs
    → (s.connections.node_at n).last_heartbeat + 15 * 10 ^ 9
      ≤ s.connections.now + 5 * 10 ^ 9 * suc (length gs)
    → ((heartbeat_loop (g ∷ gs) s).connections.node_at n).is_connected ≡ false
silent_loop n g [] s known on q qs silent =
    let still = q.running s ∙ on in
    let contact = ap (λ (x : ServerNode). x.last_heartbeat) (q.node s) in
    let time = q.clock s in
    subst (λ (t : ChatServer). (t.connections.node_at n).is_connected ≡ false)
      (sym (last_loop_on g s on still))
      (heartbeat_round-off n (g s) (IsKnown-IsQuiet n g s q known) (omega arith))
silent_loop n g (h ∷ gs) s known on q qs silent =
    let still = q.running s ∙ on in
    let contact = ap (λ (x : ServerNode). x.last_heartbeat) (q.node s) in
    let time = q.clock s in
    let f = heartbeat_round-Fades n (g s) in
    subst (λ (t : ChatServer). (t.connections.node_at n).is_connected ≡ false)
      (sym (loop_on g (h ∷ gs) s on still))
      (silent_loop n h gs (heartbeat_round (g s))
        (IsKnown-Fades n (g s) _ f (IsKnown-IsQuiet n g s q known)) (f.running ∙ still) qs.0 qs.1
        (omega (arith, f.contact, f.clock, contact, time, silent)))

-- A peer of the table that falls silent is disconnected after three rounds of the heartbeat loop,
-- whatever else happens during the sleeps: if the loop runs, the last contact is not later than now,
-- each sleep takes five seconds or more, and in none of them anything is heard of the peer, its node
-- or the table of peers is changed, or the thread is stopped.
pub silent_peer_dropped :
    (n : ℕ) (sleeps : List (ChatServer → ChatServer)) (s : ChatServer)
    → IsKnown n s
    → s.heartbeat_running ≡ true
    → (s.connections.node_at n).last_heartbeat ≤ s.connections.now
    → All (IsQuiet n) sleeps
    → 3 ≤ length sleeps
    → ((heartbeat_loop sleeps s).connections.node_at n).is_connected ≡ false
silent_peer_dropped n [] s known on past quiet three = absurd (omega arith)
silent_peer_dropped n (g ∷ gs) s known on past quiet three =
    silent_loop n g gs s known on quiet.0 quiet.1 (omega arith)
