-- ===== src/Server/State/Disconnect.antt =====
-- What HandlePeerDisconnect leaves behind.
use distributed_chat_system.Prelude.{
  ℕ, ℤ, ℤ_discrete, ℕ_discrete, ◌≡◌, ◌≢◌, refl, ap, ◌∙◌, true, false, none, some, arith,
  Option-cases, Bool-cases, inl, inr, if_pos,
}
use distributed_chat_system.Text.{Bytes}
use distributed_chat_system.Dict.{lookup-erase}
use distributed_chat_system.Networking.{close, invalid_socket}
use distributed_chat_system.Server.Users.Refinement.{
  location, IsTable, moved, clears, apply as apply_user, location-apply,
}
use distributed_chat_system.Server.Rooms.Refinement.{
  is_remote, is_member, apply as apply_room, apply-refines, remote_after, local_after,
}
use distributed_chat_system.Server.Rooms.Refinement.{clears as clears_rooms}
use distributed_chat_system.Server.Connections.{
  Connections, unregister_peer_socket, get_peer_node, close_socket, set_socket,
  get_peer_node_by_socket,
}
use distributed_chat_system.Server.State.{
  ChatServer, handle_peer_disconnect, disconnect_peer, forget_peer, close_node_socket,
}
use distributed_chat_system.Server.State.Sends.{announce_users-Adds}

-- What is known of a lost peer.
pub record IsForgotten (id : ℤ) (n : ℕ) (s t : ChatServer) : Type 0 where
  pub not_connected : (t.connections.node_at n).is_connected ≡ false
  pub no_socket : (t.connections.node_at n).socket ≡ none
  pub users : (q : Bytes) → location t.users q ≡ moved (clears id) q (location s.users q)
  pub not_remote : (room : Bytes) → is_remote t.rooms room id ≡ false
  pub members : (room u : Bytes) → is_member t.rooms room u ≡ is_member s.rooms room u

forget_peer-off :
    (id : ℤ) (n : ℕ) (s : ChatServer)
    → get_peer_node id s.connections ≡ some n
    → ((forget_peer n id s).connections.node_at n).is_connected ≡ false
unfolding forget_peer unregister_peer_socket set_socket get_peer_node close_node_socket close_socket
forget_peer-off id n s known = ground arith

forget_peer-IsForgotten :
    (id : ℤ) (n : ℕ) (s : ChatServer)
    → get_peer_node id s.connections ≡ some n
    → IsTable s.users
    → IsForgotten id n s (forget_peer n id s)
unfolding forget_peer
forget_peer-IsForgotten id n s known table = record {
  not_connected = forget_peer-off id n s known;
  no_socket =
      unfold unregister_peer_socket set_socket get_peer_node close_node_socket close_socket in
      ground arith;
  users = λ q. unfold apply_user in location-apply (clears id) q s.users table;
  not_remote = λ room.
      unfold apply_room remote_after in
      ((apply-refines (clears_rooms id) s.rooms room).1 id ∙ if_pos (ℤ_discrete id id) refl _ _);
  members =
      λ room u. unfold apply_room local_after in (apply-refines (clears_rooms id) s.rooms room).0 u;
}

-- A known and connected peer that is lost is forgotten, if the table of users has no name
-- twice: its node has no socket and counts as disconnected, the users that were on it are gone and
-- no others, no room lists it any more, and the local members of every room stay.
pub handle_peer_disconnect-IsForgotten :
    (id : ℤ) (n : ℕ) (s : ChatServer)
    → get_peer_node id s.connections ≡ some n
    → (s.connections.node_at n).is_connected ≡ true
    → IsTable s.users
    → IsForgotten id n s (handle_peer_disconnect id s)
unfolding handle_peer_disconnect disconnect_peer
handle_peer_disconnect-IsForgotten id n s known on table =
    let f = forget_peer-IsForgotten id n s known table in
    let a = announce_users-Adds (forget_peer n id s) in
    rw (known, handle_peer_disconnect, on)
      (record {
        not_connected =
            ap (λ (c : Connections). (c.node_at n).is_connected) a.connections ∙ f.not_connected;
        no_socket = ap (λ (c : Connections). (c.node_at n).socket) a.connections ∙ f.no_socket;
        users = λ q. ap (λ u. location u q) a.users ∙ f.users q;
        not_remote = λ room. ap (λ m. is_remote m room id) a.rooms ∙ f.not_remote room;
        members = λ room u. ap (λ m. is_member m room u) a.rooms ∙ f.members room u;
      })

get_peer_node-forget :
    (id : ℤ) (n : ℕ) (s : ChatServer)
    → get_peer_node id s.connections ≡ some n
    → get_peer_node id (forget_peer n id s).connections ≡ some n
unfolding forget_peer
get_peer_node-forget id n s known =
    unfold unregister_peer_socket get_peer_node close_node_socket close_socket in ground arith

disconnect_unknown :
    (id : ℤ) (s : ChatServer)
    → get_peer_node id s.connections ≡ none
    → handle_peer_disconnect id s ≡ s
unfolding handle_peer_disconnect
disconnect_unknown id s e = rw (e, handle_peer_disconnect)

disconnect_idle :
    (id : ℤ) (n : ℕ) (s : ChatServer)
    → get_peer_node id s.connections ≡ some n
    → (s.connections.node_at n).is_connected ≡ false
    → handle_peer_disconnect id s ≡ s
unfolding handle_peer_disconnect
disconnect_idle id n s e off = rw (e, handle_peer_disconnect, off)

module _ (id : ℤ) (n : ℕ) (s : ChatServer) (e : get_peer_node id s.connections ≡ some n)
    (on : (s.connections.node_at n).is_connected ≡ true) where
  still_known : get_peer_node id (handle_peer_disconnect id s).connections ≡ some n
  unfolding handle_peer_disconnect disconnect_peer
  still_known =
      rw (e, handle_peer_disconnect, on)
        (ap (get_peer_node id) (announce_users-Adds (forget_peer n id s)).connections
          ∙ get_peer_node-forget id n s e)

  pub lost : ((handle_peer_disconnect id s).connections.node_at n).is_connected ≡ false
  unfolding handle_peer_disconnect disconnect_peer
  lost =
      rw (e, handle_peer_disconnect, on)
        (ap (λ (c : Connections). (c.node_at n).is_connected)
            (announce_users-Adds (forget_peer n id s)).connections
          ∙ forget_peer-off id n s e)

entry_stays :
    (id : ℤ) (n k : ℕ) (c : Connections)
    → get_peer_node id c ≡ some n
    → (c.node_at n).socket ≡ some k
    → (c.socket_at k).is_closed ≡ false
    → (c.socket_at k).handle ≢ invalid_socket
    → get_peer_node_by_socket (c.socket_at k).handle c ≡ some n
    → get_peer_node_by_socket
        (c.socket_at k).handle
        (unregister_peer_socket id (close_node_socket n c))
      ≡ some n
unfolding unregister_peer_socket get_peer_node close_node_socket close_socket
    get_peer_node_by_socket close
entry_stays id n k c known has fresh valid entry =
    ground
      (arith, lookup-erase ℕ_discrete (c.socket_at k).handle invalid_socket c.peer_nodes_by_socket)

-- Losing a peer twice is losing it once: the second call changes nothing and tells nobody.
pub handle_peer_disconnect_twice :
    (id : ℤ) (s : ChatServer)
    → handle_peer_disconnect id (handle_peer_disconnect id s) ≡ handle_peer_disconnect id s
handle_peer_disconnect_twice id s = elim (Option-cases (get_peer_node id s.connections)) [
  | inl e ↦ ap (handle_peer_disconnect id) (disconnect_unknown id s e)
  | inr (n, e) ↦ elim (Bool-cases (s.connections.node_at n).is_connected) [
    | inl on ↦
        disconnect_idle id n (handle_peer_disconnect id s) (still_known id n s e on)
          (lost id n s e on)
    | inr off ↦ ap (handle_peer_disconnect id) (disconnect_idle id n s e off)
  ]
]

-- A flaw in the cleanup of a connected peer whose open socket the table has: Close makes the
-- handle invalid before UnregisterPeerSocket erases the entry under that handle. So the entry
-- under the handle that the peer had stays, and still names the lost peer.
pub disconnect_leaves_entry :
    (id : ℤ) (n k : ℕ) (s : ChatServer)
    → get_peer_node id s.connections ≡ some n
    → (s.connections.node_at n).is_connected ≡ true
    → (s.connections.node_at n).socket ≡ some k
    → (s.connections.socket_at k).is_closed ≡ false
    → (s.connections.socket_at k).handle ≢ invalid_socket
    → get_peer_node_by_socket (s.connections.socket_at k).handle s.connections ≡ some n
    → get_peer_node_by_socket
        (s.connections.socket_at k).handle
        (handle_peer_disconnect id s).connections
      ≡ some n
unfolding handle_peer_disconnect disconnect_peer
disconnect_leaves_entry id n k s known on has fresh valid entry =
    let h = (s.connections.socket_at k).handle in
    let a = announce_users-Adds (forget_peer n id s) in
    rw (known, handle_peer_disconnect, on)
      (ap (get_peer_node_by_socket h) a.connections
        ∙ (unfold forget_peer in entry_stays id n k s.connections known has fresh valid entry))
