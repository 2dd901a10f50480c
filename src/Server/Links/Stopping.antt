-- ===== src/Server/Links/Stopping.antt =====
-- What Stop closes.
use distributed_chat_system.Prelude.{
  ℕ, ℤ, ◌≡◌, refl, ap, ◌∙◌, true, false, some, arith, ℕ_discrete, ℤ_discrete, for_each_induction,
  for_each, Option-cases, inl, inr, if◌then◌else◌, sym, subst,
}
use distributed_chat_system.Dict.{for_each-values}
use distributed_chat_system.Networking.{close}
use distributed_chat_system.Server.Connections.{
  Connections, get_session_by_socket, get_peer_node, get_all_sessions, get_all_peer_nodes,
  close_socket,
}
use distributed_chat_system.Server.State.{ChatServer, close_node_socket}
use distributed_chat_system.Server.Links.{stop, close_session_socket}

close_is_closed : (k : _) → (close k).0.is_closed ≡ true
unfolding close
close_is_closed k = ground arith

-- Closing sockets only: the objects of sessions and nodes stay, and a closed socket stays closed.
record Closes (c d : Connections) : Type 0 where
  session_at : d.session_at ≡ c.session_at
  node_at : d.node_at ≡ c.node_at
  closed : (k : ℕ) → (c.socket_at k).is_closed ≡ true → (d.socket_at k).is_closed ≡ true

Closes-refl : (c : Connections) → Closes c c
Closes-refl c = record { session_at = refl; node_at = refl; closed = λ k h. h }

Closes-trans : {c d e : Connections} → Closes c d → Closes d e → Closes c e
Closes-trans p q = record {
  session_at = q.session_at ∙ p.session_at;
  node_at = q.node_at ∙ p.node_at;
  closed = λ k h. q.closed k (p.closed k h);
}

close_socket-Closes : (j : ℕ) (c : Connections) → Closes c (close_socket j c)
unfolding close_socket close
close_socket-Closes j c = record { session_at = refl; node_at = refl; closed = λ k h. ground arith }

close_socket-closed : (k : ℕ) (c : Connections) → ((close_socket k c).socket_at k).is_closed ≡ true
unfolding close_socket close
close_socket-closed k c = ground arith

close_session_socket-Closes : (r : ℕ) (c : Connections) → Closes c (close_session_socket r c)
unfolding close_session_socket
close_session_socket-Closes r c = elim (Option-cases (c.session_at r).socket) [
  | inl e ↦ rw (e, close_session_socket) (Closes-refl c)
  | inr (k, e) ↦ rw (e, close_session_socket) (close_socket-Closes k c)
]

close_node_socket-Closes : (n : ℕ) (c : Connections) → Closes c (close_node_socket n c)
unfolding close_node_socket
close_node_socket-Closes n c = elim (Option-cases (c.node_at n).socket) [
  | inl e ↦ rw (e, close_node_socket) (Closes-refl c)
  | inr (k, e) ↦ rw (e, close_node_socket) (close_socket-Closes k c)
]

close_session_socket-closed :
    (r k : ℕ) (c : Connections)
    → (c.session_at r).socket ≡ some k
    → ((close_session_socket r c).socket_at k).is_closed ≡ true
unfolding close_session_socket
close_session_socket-closed r k c has = rw (has, close_session_socket) (close_socket-closed k c)

close_node_socket-closed :
    (n k : ℕ) (c : Connections)
    → (c.node_at n).socket ≡ some k
    → ((close_node_socket n c).socket_at k).is_closed ≡ true
unfolding close_node_socket
close_node_socket-closed n k c has = rw (has, close_node_socket) (close_socket-closed k c)

abbrev close_sessions : Connections → Connections
close_sessions c = for_each (get_all_sessions c) close_session_socket c

close_sessions-Closes : (c : Connections) → Closes c (close_sessions c)
close_sessions-Closes c =
    for_each_induction (Closes c) (get_all_sessions c) close_session_socket c
      (λ r d p. Closes-trans p (close_session_socket-Closes r d)) (Closes-refl c)

close_sessions-closed :
    (c : Connections) (handle r k : ℕ)
    → get_session_by_socket handle c ≡ some r
    → (c.session_at r).socket ≡ some k
    → ((close_sessions c).socket_at k).is_closed ≡ true
unfolding get_all_sessions get_session_by_socket
close_sessions-closed c handle r k listed has =
    for_each-values ℕ_discrete (Closes c) (λ d. (d.socket_at k).is_closed ≡ true)
      close_session_socket handle r (λ q d p. Closes-trans p (close_session_socket-Closes q d))
      (λ d p. close_session_socket-closed r k d (ap (λ at. (at r).socket) p.session_at ∙ has))
      (λ q d h. (close_session_socket-Closes q d).closed k h) c.sessions_by_socket c listed
      (Closes-refl c)

close_peers-Closes :
    (c d : Connections) → Closes d (for_each (get_all_peer_nodes c) close_node_socket d)
close_peers-Closes c d =
    for_each_induction (Closes d) (get_all_peer_nodes c) close_node_socket d
      (λ n e p. Closes-trans p (close_node_socket-Closes n e)) (Closes-refl d)

close_peers-closed :
    (c d : Connections) (id : ℤ) (n k : ℕ)
    → get_peer_node id c ≡ some n
    → (d.node_at n).socket ≡ some k
    → ((for_each (get_all_peer_nodes c) close_node_socket d).socket_at k).is_closed ≡ true
unfolding get_all_peer_nodes get_peer_node
close_peers-closed c d id n k listed has =
    for_each-values ℤ_discrete (Closes d) (λ e. (e.socket_at k).is_closed ≡ true) close_node_socket
      id n (λ m e p. Closes-trans p (close_node_socket-Closes m e))
      (λ e p. close_node_socket-closed n k e (ap (λ at. (at n).socket) p.node_at ∙ has))
      (λ m e h. (close_node_socket-Closes m e).closed k h) c.peer_nodes d listed (Closes-refl d)

-- What a stopped server has closed.
pub record IsHalted (s t : ChatServer) : Type 0 where
  pub not_running : t.running ≡ false
  pub no_heartbeat : t.heartbeat_running ≡ false
  pub listener : t.listener.is_closed ≡ true
  pub sessions :
      (handle r k : ℕ)
      → get_session_by_socket handle s.connections ≡ some r
      → (s.connections.session_at r).socket ≡ some k
      → (t.connections.socket_at k).is_closed ≡ true
  pub peers :
      (id : ℤ) (n k : ℕ)
      → get_peer_node id s.connections ≡ some n
      → (s.connections.node_at n).socket ≡ some k
      → (t.connections.socket_at k).is_closed ≡ true

abbrev halted : ChatServer → ChatServer
halted s = record s {
  running = false;
  heartbeat_running = false;
  listener = (close s.listener).0;
  connections =
      for_each (get_all_peer_nodes s.connections) close_node_socket (close_sessions s.connections);
}

stop_if : (s : ChatServer) → stop s ≡ (if s.running then halted s else s)
unfolding stop
stop_if s = refl

stop-off : (s : ChatServer) → s.running ≡ false → stop s ≡ s
stop-off s off = stop_if s ∙ ap (λ b. if b then halted s else s) off

halted-IsHalted : (s : ChatServer) → IsHalted s (halted s)
halted-IsHalted s =
    let c = s.connections in
    let after = close_peers-Closes c (close_sessions c) in
    record {
      not_running = refl;
      no_heartbeat = refl;
      listener = close_is_closed s.listener;
      sessions =
          λ handle r k listed has. after.closed k (close_sessions-closed c handle r k listed has);
      peers = λ id n k listed has.
          close_peers-closed c (close_sessions c) id n k listed
            (ap (λ at. (at n).socket) (close_sessions-Closes c).node_at ∙ has);
    }

-- Stopping a server that runs clears the flags of its loops and closes the listener, the socket of
-- every session in the table of sessions by socket and the socket of every peer, connected or not;
-- stopping it again changes nothing.
pub stop-IsHalted :
    (s : ChatServer) → s.running ≡ true → IsHalted s (stop s) × (stop (stop s) ≡ stop s)
stop-IsHalted s on =
    let e : stop s ≡ halted s = stop_if s ∙ ap (λ b. if b then halted s else s) on in
    (
      subst (IsHalted s) (sym e) (halted-IsHalted s),
      stop-off (stop s) (ap (λ (t : ChatServer). t.running) e),
    )
