-- ===== src/Server/Heartbeat/Pings.antt =====
-- What a round of heartbeats sends when every connected peer was heard of lately.
use distributed_chat_system.Prelude.{
  ℕ, ◌+◌, ◌*◌, ◌^◌, ◌<◌, ◌≡◌, refl, subst, ap, sym, true, List, [], ◌∷◌, ◌++◌, for_each, Bool-cases,
  inl, inr,
}
use distributed_chat_system.Text.{Bytes}
use distributed_chat_system.Text.Decimal.{to_string}
use distributed_chat_system.Protocol.{s2s_heartbeat, serialize}
use distributed_chat_system.Server.Connections.{Connections, get_all_peer_nodes}
use distributed_chat_system.Server.State.{ChatServer}
use distributed_chat_system.Server.State.Sends.{Adds, Adds-nil, Adds-append, concat_map}
use distributed_chat_system.Server.Replication.{relay_to_node}
use distributed_chat_system.Server.Replication.Reach.{
  PeersTake, PeersTake-same, to_node, to_peers, relay_to_node-Adds,
}
use distributed_chat_system.Server.Heartbeat.{check_peer, check_connected, heartbeat_round}
use distributed_chat_system.Server.Heartbeat.Timeouts.{recent_enough}

-- Every connected peer was heard of within the last fifteen seconds.
abbrev pub AllRecent : ℕ → Connections → Type 0
AllRecent now c =
    (n : ℕ) → (c.node_at n).is_connected ≡ true → now < (c.node_at n).last_heartbeat + 15 * 10 ^ 9

-- The check of a peer that was heard of is the relay of a heartbeat.
check_recent :
    (now n : ℕ) (s : ChatServer)
    → AllRecent now s.connections
    → check_peer now n s
      ≡ relay_to_node
          (s.connections.node_at n).server_id
          (serialize s2s_heartbeat (to_string s.server_id))
          n
          s
unfolding check_peer check_connected relay_to_node
check_recent now n s recent = elim (Bool-cases (s.connections.node_at n).is_connected) [
  | inl on ↦
      let timely = recent_enough now (s.connections.node_at n) (recent n on) in rw (on, timely) refl
  | inr off ↦ rw off refl
]

-- A loop whose rounds only send, whatever was sent before them.
for_each-Adds_from {ℓ} :
    {A : Type ℓ} (f : A → List (ℕ × Bytes)) (s : ChatServer) (body : A → ChatServer → ChatServer)
    → ((x : A) (t : ChatServer) (more : List (ℕ × Bytes)) → Adds more s t → Adds (f x) t (body x t))
    → (xs : List A) (t : ChatServer) (more : List (ℕ × Bytes)) → Adds more s t
    → Adds (concat_map f xs) t (for_each xs body t)
unfolding for_each
for_each-Adds_from f s body round [] t more a = Adds-nil t
for_each-Adds_from f s body round (x ∷ xs) t more a =
    let first = round x t more a in
    Adds-append first
      (for_each-Adds_from f s body round xs (body x t) (more ++ f x) (Adds-append a first))

-- One check in such a loop.
check_peer_pings :
    (s : ChatServer)
    → AllRecent s.connections.now s.connections
    → PeersTake (serialize s2s_heartbeat (to_string s.server_id)) s.connections s.network.answers
    → (n : ℕ) (t : ChatServer) (more : List (ℕ × Bytes)) → Adds more s t
    → Adds
        (to_node (serialize s2s_heartbeat (to_string s.server_id)) s.connections n)
        t
        (check_peer s.connections.now n t)
check_peer_pings s recent takes n t more a =
    let now = s.connections.now in
    let frame = serialize s2s_heartbeat (to_string s.server_id) in
    let still = subst (AllRecent now) (sym a.connections) recent in
    let pings = check_recent now n t still in
    let sent =
      relay_to_node-Adds _ frame n t (PeersTake-same frame a.connections a.answers takes) in
    let own = ap (λ id. serialize s2s_heartbeat (to_string id)) a.server_id in
    subst (Adds (to_node frame s.connections n) t) (sym pings) (
      subst
        (λ g.
          Adds (to_node frame s.connections n) t
            (relay_to_node (t.connections.node_at n).server_id g n t))
        (sym own)
        (subst
          (λ c.
            Adds (to_node frame c n) t
              (relay_to_node (t.connections.node_at n).server_id frame n t))
          a.connections sent))

-- A round of heartbeats sends one heartbeat to each connected peer that has a socket, in the order
-- of the table of peers, and changes nothing else, if every connected peer was heard of less than
-- fifteen seconds ago and the send loops succeed.
pub heartbeat_round-Adds :
    (s : ChatServer)
    → AllRecent s.connections.now s.connections
    → PeersTake (serialize s2s_heartbeat (to_string s.server_id)) s.connections s.network.answers
    → Adds
        (to_peers (serialize s2s_heartbeat (to_string s.server_id)) s.connections)
        s
        (heartbeat_round s)
unfolding heartbeat_round
heartbeat_round-Adds s recent takes =
    for_each-Adds_from (to_node (serialize s2s_heartbeat (to_string s.server_id)) s.connections) s
      (check_peer s.connections.now) (check_peer_pings s recent takes)
      (get_all_peer_nodes s.connections) s [] (Adds-nil s)
