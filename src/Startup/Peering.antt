-- ===== src/Startup/Peering.antt =====
-- What a configuration makes of a server, and why a server that starts is consistent.
use distributed_chat_system.Prelude.{
  ℕ, zero, suc, ◌≡◌, ◌≢◌, refl, sym, subst, ◌∙◌, ℤ, pos, true, false, ◌&&◌, some, List, [], ◌∷◌,
  ◌++◌, arith, Bool-cases, inl, inr, if◌then◌else◌, ℤ_discrete, append-nil, append_assoc,
  is_positive, ◌==◌,
}
use distributed_chat_system.Text.{Bytes, codes}
use distributed_chat_system.Networking.{TcpSocket, invalid_socket, bind, listen}
use distributed_chat_system.Dict.{lookup, lookup-insert}
use distributed_chat_system.Config.{ConfigManager, new_config, load, get_int}
use distributed_chat_system.Server.Connections.{
  get_peer_node, add_peer_node, get_session_by_username, new_node,
}
use distributed_chat_system.Server.State.{ChatServer, Network, PeerConfig}
use distributed_chat_system.Server.Links.{add_peer_config, start}
use distributed_chat_system.Server.Events.{Engine, Reaches}
use distributed_chat_system.Server.Events.Keeps.{IsConsistent}
use distributed_chat_system.Server.Events.Invariant.{IsSteady, Reaches-IsSteady}
use distributed_chat_system.Startup.{
  new_server, peer_id, peer_host, peer_port, add_peer, add_peers, rounds, server_id_of, configure,
  boot, default_port,
}

-- No peer of the configuration has the server's own id.
abbrev pub NamesOthers : ℕ → ℕ → ConfigManager → ℤ → Type 0
NamesOthers zero i m id = Unit {0}
NamesOthers (suc left) i m id = (peer_id m i ≢ id) × NamesOthers left (suc i) m id

new_server-IsConsistent :
    (id port : ℤ) (k : TcpSocket) (now : ℕ) (net : Network)
    → IsConsistent (new_server id port k now net)
unfolding new_server get_peer_node get_session_by_username lookup
new_server-IsConsistent id port k now net = record {
  sound = record { not_own_peer = refl; table = tt };
  listed = tt;
  named = λ q p e. cc;
}

add_peer_config-IsConsistent :
    (id : ℤ) (host : Bytes) (port : ℤ) (s : ChatServer)
    → id ≢ s.server_id
    → IsConsistent s
    → IsConsistent (add_peer_config id host port s)
unfolding add_peer_config add_peer_node get_session_by_username new_node
add_peer_config-IsConsistent id host port s other h = record {
  sound = record {
    not_own_peer =
        let own = h.sound.not_own_peer in
        unfold get_peer_node in
        ground (
          arith,
          lookup-insert ℤ_discrete s.server_id id s.connections.next_node s.connections.peer_nodes,
        );
    table = h.sound.table;
  };
  listed = h.listed;
  named = h.named;
}

add_peer-server_id :
    (m : ConfigManager) (i : ℕ) (s : ChatServer) → (add_peer m i s).server_id ≡ s.server_id
unfolding add_peer add_peer_config
add_peer-server_id m i s = ground arith

add_peer-IsConsistent :
    (m : ConfigManager) (i : ℕ) (s : ChatServer)
    → peer_id m i ≢ s.server_id
    → IsConsistent s
    → IsConsistent (add_peer m i s)
unfolding add_peer
add_peer-IsConsistent m i s other h =
    elim (Bool-cases (is_positive (peer_id m i) && is_positive (peer_port m i))) [
      | inl usable ↦ rw usable (add_peer_config-IsConsistent _ _ _ s other h)
      | inr unusable ↦ rw unusable h
    ]

add_peers-IsConsistent :
    (left i : ℕ) (m : ConfigManager) (s : ChatServer)
    → NamesOthers left i m s.server_id
    → IsConsistent s
    → IsConsistent (add_peers left i m s)
unfolding add_peers
add_peers-IsConsistent zero i m s others h = h
add_peers-IsConsistent (suc left) i m s others h =
    add_peers-IsConsistent left (suc i) m (add_peer m i s)
      (subst (NamesOthers left (suc i) m) (sym (add_peer-server_id m i s)) others.1)
      (add_peer-IsConsistent m i s others.0 h)

-- The peers that the loop adds: those whose id and port are positive.
abbrev pub listed : ℕ → ℕ → ConfigManager → List PeerConfig
listed zero i m = []
listed (suc left) i m =
    if is_positive (peer_id m i) && is_positive (peer_port m i)
    then record { id = peer_id m i; host = peer_host m i; port = peer_port m i }
      ∷ listed left (suc i) m
    else listed left (suc i) m

add_peers-listed :
    (left i : ℕ) (m : ConfigManager) (s : ChatServer)
    → (add_peers left i m s).peer_configs ≡ s.peer_configs ++ listed left i m
unfolding add_peers
add_peers-listed zero i m s = sym (append-nil s.peer_configs)
add_peers-listed (suc left) i m s =
    add_peers-listed left (suc i) m (add_peer m i s)
    ∙ elim (Bool-cases (is_positive (peer_id m i) && is_positive (peer_port m i))) [
      | inl usable ↦ unfold add_peer add_peer_config in rw usable (append_assoc s.peer_configs _ _)
      | inr unusable ↦ unfold add_peer in rw unusable refl
    ]

add_peers-rest :
    (left i : ℕ) (m : ConfigManager) (s : ChatServer)
    → ((add_peers left i m s).listener ≡ s.listener)
      × ((add_peers left i m s).server_id ≡ s.server_id)
unfolding add_peers
add_peers-rest zero i m s = (refl, refl)
add_peers-rest (suc left) i m s =
    let r = add_peers-rest left (suc i) m (add_peer m i s) in
    (r.0 ∙ (unfold add_peer add_peer_config in ground arith), r.1 ∙ add_peer-server_id m i s)

abbrev port_of : ConfigManager → ℤ
port_of m = get_int (codes "port") (default_port (server_id_of m)) m

module _ (m : ConfigManager) (k : TcpSocket) (now : ℕ) (net : Network) where
  abbrev pub peer_count : ℕ
  peer_count = rounds (get_int (codes "peer_count") (pos 0) m)

  -- The server that a configuration gives, once it runs.
  abbrev pub started : ChatServer
  started = record (configure m k now net) { running = true; heartbeat_running = true }

  started-IsConsistent : NamesOthers peer_count 1 m (server_id_of m) → IsConsistent started
  unfolding configure new_server
  started-IsConsistent others =
      let h =
        add_peers-IsConsistent peer_count 1 m (new_server (server_id_of m) _ k now net) others
          (new_server-IsConsistent (server_id_of m) _ k now net) in
      record {
        sound = record { not_own_peer = h.sound.not_own_peer; table = h.sound.table };
        listed = h.listed;
        named = h.named;
      }

  -- A server starts from a file that can be read, if its listener can be bound and can listen. It
  -- has the file's id, runs with its heartbeat, and its peers are those of the entries 1 to
  -- `peer_count` whose id and port are positive, in this order.
  pub boot-starts :
      (text : Bytes)
      → (load (some text) new_config).0 ≡ m
      → (k.handle == invalid_socket) ≡ false
      → (boot (some text) k now net true true ≡ some started)
        × (started.server_id ≡ server_id_of m)
        × (started.peer_configs ≡ listed peer_count 1 m)
  unfolding boot start bind listen
  boot-starts text e valid =
      let rest =
        add_peers-rest peer_count 1 m (new_server (server_id_of m) (port_of m) k now net) in
      let same : (configure m k now net).listener ≡ k = unfold configure new_server in rest.0 in
      let read : (load (some text) new_config).1 ≡ true = unfold load in refl in
      (
        ground (arith, e, same, read, valid),
        unfold configure new_server in rest.1,
        unfold configure new_server in
            add_peers-listed peer_count 1 m (new_server (server_id_of m) (port_of m) k now net),
      )

  -- Whatever happens to a server that was started with a configuration that does not name the server
  -- itself as a peer, the invariant of the event relation holds, with any number of worker threads.
  pub started-IsSteady :
      (threads : ℕ) (f : Engine)
      → NamesOthers peer_count 1 m (server_id_of m)
      → Reaches (record { server = started; threads = threads; tasks = []; held = [] }) f
      → IsSteady f
  started-IsSteady threads f others run =
      Reaches-IsSteady run (record { server = started-IsConsistent others; tasks = tt; held = tt })
