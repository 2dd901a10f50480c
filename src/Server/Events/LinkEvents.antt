-- ===== src/Server/Events/LinkEvents.antt =====
-- Connections that come and go, and the heartbeat, keep a server consistent.
use distributed_chat_system.Prelude.{
  ℕ, suc, ◌<◌, ◌≡◌, ℕ_discrete, ℤ, refl, Bool, true, false, Option, none, some, List, if◌then◌else◌,
  arith, Bool-cases, Option-cases, inl, inr, for_each_induction,
}
use distributed_chat_system.Text.{is_empty}
use distributed_chat_system.Dict.{insert-All}
use distributed_chat_system.Networking.{TcpSocket, connect, new_socket}
use distributed_chat_system.Server.Connections.{
  Connections, get_session_by_username, get_peer_node, add_session, close_socket, handle_of,
}
use distributed_chat_system.Server.State.{ChatServer, PeerConfig, close_node_socket}
use distributed_chat_system.Server.State.Sends.{send_buffer-Adds}
use distributed_chat_system.Server.Replication.Spares.{handle_peer_disconnect-Spares, relay-Spares}
use distributed_chat_system.Server.Clients.{username_of}
use distributed_chat_system.Server.Heartbeat.{check_peer, check_connected, is_timed_out}
use distributed_chat_system.Server.Links.{
  close_session_socket, admit, lose_client, connect_peer, introduce, stop, allocate_socket,
  allocate_session,
}
use distributed_chat_system.Server.Links.Losses.{
  sign_off-Spares, without_user, without_user-IsSound,
}
use distributed_chat_system.Server.Events.Keeps.{
  Listed, Listed-le, Keeps, Keeps-trans, Keeps-refl, Spares-Keeps, Adds-Keeps,
}
use distributed_chat_system.Server.Events.PeerPackets.{same-Keeps}
use distributed_chat_system.Server.Events.Consistency.{
  Trims, Trims-trans, Trims-Keeps, remove_session-Trims, register_peer_socket-Trims,
}

pub lose_client-Keeps : (r handle : ℕ) (s : ChatServer) → Keeps s (lose_client r handle s)
unfolding lose_client
lose_client-Keeps r handle s = elim (Bool-cases (is_empty (username_of r s))) [
  | inl e ↦ rw e (Trims-Keeps _ s (remove_session-Trims handle s.connections))
  | inr e ↦ rw e (
      Keeps-trans gone (
        Keeps-trans (Spares-Keeps (sign_off-Spares handle (username_of r s) s))
          (Trims-Keeps _ _ (remove_session-Trims handle _))))
]
  where
    gone : Keeps s (without_user (username_of r s) s)
    gone = record {
      allocated = omega arith;
      running = refl;
      consistent = λ h. record {
        sound = without_user-IsSound (username_of r s) s h.sound;
        listed = h.listed;
        named = h.named;
      };
    }

introduce-Keeps : (n : ℕ) (id : ℤ) (k : ℕ) (s : ChatServer) → Keeps s (introduce n id k s)
unfolding introduce
introduce-Keeps n id k s =
    Keeps-trans (Trims-Keeps _ s (register_peer_socket-Trims id k s.connections))
      (Keeps-trans (same-Keeps _ _ refl refl refl refl refl) (Adds-Keeps (send_buffer-Adds k _ _)))

pub connect_peer-Keeps :
    (config : PeerConfig) (handle : ℕ) (resolved : Option (List Bool)) (s : ChatServer)
    → Keeps s (connect_peer config handle resolved s)
unfolding connect_peer allocate_socket
connect_peer-Keeps config handle resolved s =
    elim (Option-cases (get_peer_node config.id s.connections)) [
      | inl e ↦ rw (e, connect_peer) (Keeps-refl s)
      | inr (n, e) ↦ elim (Bool-cases (s.connections.node_at n).is_connected) [
        | inl on ↦ rw (e, connect_peer, on) (Keeps-refl s)
        | inr off ↦ elim (Bool-cases (connect (new_socket handle) resolved)) [
          | inl ok ↦
              rw (e, connect_peer, off, ok)
                (Keeps-trans (same-Keeps _ s refl refl refl refl refl)
                  (introduce-Keeps n config.id _ _))
          | inr bad ↦ rw (e, connect_peer, off, bad) (same-Keeps _ s refl refl refl refl refl)
        ]
      ]
    ]

pub check_peer-Keeps : (now n : ℕ) (s : ChatServer) → Keeps s (check_peer now n s)
unfolding check_peer check_connected
check_peer-Keeps now n s = elim (Bool-cases (s.connections.node_at n).is_connected) [
  | inl on ↦ elim (Bool-cases (is_timed_out now (s.connections.node_at n))) [
    | inl late ↦ rw (on, late) (Spares-Keeps (handle_peer_disconnect-Spares _ s))
    | inr timely ↦ elim (Option-cases (s.connections.node_at n).socket) [
      | inl e ↦ rw (on, timely, e, check_connected) (Keeps-refl s)
      | inr (k, e) ↦ rw (on, timely, e, check_connected) (Spares-Keeps (relay-Spares _ k _ s))
    ]
  ]
  | inr off ↦ rw off (Keeps-refl s)
]

add_session-Listed :
    (count r : ℕ) (c : Connections)
    → r < count
    → Listed count c.sessions_by_socket
    → Listed count (add_session r c).sessions_by_socket
unfolding add_session
add_session-Listed count r c there h = elim (Option-cases (c.session_at r).socket) [
  | inl e ↦ rw (e, add_session) h
  | inr (k, e) ↦
      rw (e, add_session)
        (insert-All ℕ_discrete (λ e. e.1 < count) (handle_of k c) r c.sessions_by_socket there h)
]

add_session-next_session :
    (r : ℕ) (c : Connections) → (add_session r c).next_session ≡ c.next_session
add_session-next_session r c = unfold add_session in ground arith

admit-Listed :
    (k : TcpSocket) (s : ChatServer)
    → Listed s.connections.next_session s.connections.sessions_by_socket
    → Listed
        (admit (some k) s).connections.next_session
        (admit (some k) s).connections.sessions_by_socket
unfolding admit allocate_socket allocate_session
admit-Listed k s h =
    let n = s.connections.next_session in
    rw (add_session-next_session n _) (
      add_session-Listed (suc n) n _ (omega arith)
        (Listed-le n (suc n) s.connections.sessions_by_socket (omega arith) h))

pub admit-Keeps : (k : Option TcpSocket) (s : ChatServer) → Keeps s (admit k s)
unfolding admit allocate_socket allocate_session add_session
admit-Keeps none s = Keeps-refl s
admit-Keeps (some k) s = record {
  allocated = ground arith;
  running = refl;
  consistent = λ h. record {
    sound = record {
      not_own_peer = let own = h.sound.not_own_peer in unfold get_peer_node in ground arith;
      table = h.sound.table;
    };
    listed = admit-Listed k s h.listed;
    named = λ q p e. let old = h.named q p in unfold get_session_by_username in ground arith;
  };
}

close_node_socket-Trims : (n : ℕ) (c : Connections) → Trims c (close_node_socket n c)
unfolding close_node_socket close_socket get_session_by_username
close_node_socket-Trims n c = record {
  peer_nodes = ground arith;
  session_at = ground arith;
  next_session = ground arith;
  listed = λ count h. ground arith;
  names = λ q p e. ground arith;
}

close_session_socket-Trims : (r : ℕ) (c : Connections) → Trims c (close_session_socket r c)
unfolding close_session_socket close_socket get_session_by_username
close_session_socket-Trims r c = record {
  peer_nodes = ground arith;
  session_at = ground arith;
  next_session = ground arith;
  listed = λ count h. ground arith;
  names = λ q p e. ground arith;
}

Trims-refl : (c : Connections) → Trims c c
Trims-refl c = record {
  peer_nodes = refl;
  session_at = refl;
  next_session = refl;
  listed = λ count h. h;
  names = λ q p e. e;
}

-- Flags and the listener play no part in consistency.
halted-Keeps :
    (k : TcpSocket) (s : ChatServer)
    → Keeps s (record s { heartbeat_running = false; listener = k })
halted-Keeps k s = record {
  allocated = omega arith;
  running = refl;
  consistent = λ h. record {
    sound = record { not_own_peer = h.sound.not_own_peer; table = h.sound.table };
    listed = h.listed;
    named = h.named;
  };
}

-- What is done behind a test, but for whether the server runs on.
if-Keeps :
    (b : Bool) (s t : ChatServer)
    → Keeps (record s { running = t.running }) t
    → Keeps (record s { running = (if b then t else s).running }) (if b then t else s)
if-Keeps true s t k = k
if-Keeps false s t k = Keeps-refl s

-- Stop keeps all but the running.
pub stop-Keeps : (s : ChatServer) → Keeps (record s { running = (stop s).running }) (stop s)
unfolding stop
stop-Keeps s = if-Keeps s.running s _ (
    Keeps-trans
      (Trims-Keeps _ (record s { running = false })
        (for_each_induction (Trims s.connections) _ _ _
          (λ n c h. Trims-trans h (close_node_socket-Trims n c))
          (for_each_induction (Trims s.connections) _ _ _
            (λ r c h. Trims-trans h (close_session_socket-Trims r c)) (Trims-refl s.connections))))
      (halted-Keeps _ _))
