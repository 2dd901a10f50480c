-- ===== src/Server/Replication/Reach.antt =====
-- What reaches the other servers when the send loops to them succeed.
use distributed_chat_system.Prelude.{
  ℕ, ℤ, ◌≡◌, refl, sym, subst, ◌∙◌, true, Option, none, some, List, [], ◌∷◌, if◌then◌else◌,
  for_each, Option-cases, Bool-cases, inl, inr,
}
use distributed_chat_system.Text.{Bytes}
use distributed_chat_system.Networking.{Answers, is_valid, send_all}
use distributed_chat_system.Protocol.{PacketType, s2s_route_room_msg, serialize, pack}
use distributed_chat_system.Server.Rooms.{get_remote_servers}
use distributed_chat_system.Server.Connections.{Connections, get_all_peer_nodes, get_peer_node}
use distributed_chat_system.Server.State.{ChatServer, Sent, send_buffer}
use distributed_chat_system.Server.State.Sends.{
  Adds, Adds-nil, Adds-append, send_buffer-Adds, concat_map,
}
use distributed_chat_system.Server.Replication.{
  relay, relay_to_node, broadcast_s2s, relay_to_id, route_room_message,
}

-- How the system answers the send loops.
abbrev pub Policy : Type 0
Policy = List Sent → ℕ → Bytes → Answers

-- Whatever was sent before, the send loop for a frame to a connected peer succeeds.
abbrev pub PeersTake : Bytes → Connections → Policy → Type 0
PeersTake frame c policy =
    (n k : ℕ) (wire : List Sent)
    → (c.node_at n).is_connected ≡ true
    → (c.node_at n).socket ≡ some k
    → (send_all (is_valid (c.socket_at k)) (policy wire k frame) frame).0 ≡ true

-- The frame for the socket of a peer, if it is connected and has one.
abbrev pub to_node : Bytes → Connections → ℕ → List (ℕ × Bytes)
to_node frame c n =
    if (c.node_at n).is_connected
    then elim (c.node_at n).socket [ none ↦ [] | some k ↦ (k, frame) ∷ [] ]
    else []

abbrev pub to_peers : Bytes → Connections → List (ℕ × Bytes)
to_peers frame c = concat_map (to_node frame c) (get_all_peer_nodes c)

abbrev pub to_known : Bytes → Connections → Option ℕ → List (ℕ × Bytes)
to_known frame c none = []
to_known frame c (some n) = to_node frame c n

-- The frame for a server by its id, if it is a peer.
abbrev pub to_server : Bytes → Connections → ℤ → List (ℕ × Bytes)
to_server frame c id = to_known frame c (get_peer_node id c)

abbrev pub to_servers : Bytes → Connections → List ℤ → List (ℕ × Bytes)
to_servers frame c = concat_map (to_server frame c)

pub PeersTake-same :
    (frame : Bytes) {c d : Connections} {p q : Policy}
    → d ≡ c
    → q ≡ p
    → PeersTake frame c p
    → PeersTake frame d q
PeersTake-same frame {d} {p} e g takes =
    subst (PeersTake frame d) (sym g) (subst (λ x. PeersTake frame x p) (sym e) takes)

pub relay_to_node-Adds :
    (id : ℤ) (frame : Bytes) (n : ℕ) (s : ChatServer)
    → PeersTake frame s.connections s.network.answers
    → Adds (to_node frame s.connections n) s (relay_to_node id frame n s)
unfolding relay_to_node
relay_to_node-Adds id frame n s takes = elim (Bool-cases (s.connections.node_at n).is_connected) [
  | inl on ↦ elim (Option-cases (s.connections.node_at n).socket) [
    | inl e ↦ rw (on, e, relay_to_node) (Adds-nil s)
    | inr (k, e) ↦
        let ok : (send_buffer k frame s).1 ≡ true =
          unfold send_buffer in takes n k s.network.wire on e in
        rw (on, e, relay_to_node) (unfold relay in rw ok (send_buffer-Adds k frame s))
  ]
  | inr off ↦ rw off (Adds-nil s)
]

relay_to_id-Adds :
    (frame : Bytes) (id : ℤ) (s : ChatServer)
    → PeersTake frame s.connections s.network.answers
    → Adds (to_server frame s.connections id) s (relay_to_id frame id s)
unfolding relay_to_id
relay_to_id-Adds frame id s takes = elim (Option-cases (get_peer_node id s.connections)) [
  | inl e ↦ rw (e, relay_to_id) (Adds-nil s)
  | inr (n, e) ↦ rw (e, relay_to_id) (relay_to_node-Adds id frame n s takes)
]

-- A loop whose rounds only send, as long as the objects and the system's policy are the same.
pub for_each-Adds_while {ℓ} :
    {A : Type ℓ} (f : A → List (ℕ × Bytes)) (c : Connections) (policy : Policy)
    (body : A → ChatServer → ChatServer)
    → ((x : A) (t : ChatServer)
        → t.connections ≡ c
        → t.network.answers ≡ policy
        → Adds (f x) t (body x t))
    → (xs : List A) (s : ChatServer) → s.connections ≡ c
    → s.network.answers ≡ policy
    → Adds (concat_map f xs) s (for_each xs body s)
unfolding for_each
for_each-Adds_while f c policy body round [] s e g = Adds-nil s
for_each-Adds_while f c policy body round (x ∷ xs) s e g =
    let first = round x s e g in
    Adds-append first (
      for_each-Adds_while f c policy body round xs (body x s) (first.connections ∙ e)
        (first.answers ∙ g))

-- A notice to the other servers is sent once to each connected peer and changes nothing else.
pub broadcast_s2s-Adds :
    (type : PacketType) (payload : Bytes) (s : ChatServer)
    → PeersTake (serialize type payload) s.connections s.network.answers
    → Adds (to_peers (serialize type payload) s.connections) s (broadcast_s2s type payload s)
unfolding broadcast_s2s
broadcast_s2s-Adds type payload s takes =
    let frame = serialize type payload in
    for_each-Adds_while (to_node frame s.connections) s.connections s.network.answers _
      (λ n t e g.
        subst
          (λ c.
            Adds (to_node frame c n) t
              (relay_to_node (t.connections.node_at n).server_id frame n t))
          e (relay_to_node-Adds _ frame n t (PeersTake-same frame e g takes)))
      (get_all_peer_nodes s.connections) s refl refl

-- A room message is sent once to each server that has members of the room and is a connected peer.
pub route_room_message-Adds :
    (sender room text : Bytes) (s : ChatServer)
    → let frame = serialize s2s_route_room_msg (pack (sender ∷ room ∷ text ∷ [])) in
      PeersTake frame s.connections s.network.answers
      → Adds
          (to_servers frame s.connections (get_remote_servers room s.rooms))
          s
          (route_room_message sender room text s)
unfolding route_room_message
route_room_message-Adds sender room text s takes =
    let frame = serialize s2s_route_room_msg (pack (sender ∷ room ∷ text ∷ [])) in
    for_each-Adds_while (to_server frame s.connections) s.connections s.network.answers
      (relay_to_id frame)
      (λ id t e g.
        subst (λ c. Adds (to_server frame c id) t (relay_to_id frame id t)) e
          (relay_to_id-Adds frame id t (PeersTake-same frame e g takes)))
      (get_remote_servers room s.rooms) s refl refl
