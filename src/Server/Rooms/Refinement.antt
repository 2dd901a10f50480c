-- ===== src/Server/Rooms/Refinement.antt =====
-- The room manager as two relations: a user is in a room here, a server has members of a room.
use distributed_chat_system.Prelude.{
  ℤ, ℤ_discrete, ◌≡◌, refl, Bool, true, false, none, some, List, [], ◌∷◌, ite, arith, Option-cases,
  inl, inr,
}
use distributed_chat_system.Text.{Bytes, bytes_discrete}
use distributed_chat_system.Dict.{
  lookup, lookup_or, lookup-insert, remove, contains, contains-put, contains-remove,
}
use distributed_chat_system.Server.Rooms.{
  ChatRoom, ChatRoomManager, join_room_local, leave_room_local, join_room_remote, leave_room_remote,
  clear_server_memberships, clear_rooms, get_local_members, get_remote_servers, without_server,
  new_room, with_room, in_room, with_member, without_member, with_server,
}

pub data RoomCall : Type 0 where
  joins_here leaves_here : Bytes → Bytes → RoomCall
  joins_there leaves_there : Bytes → ℤ → RoomCall
  clears : ℤ → RoomCall

unfoldable pub apply : RoomCall → ChatRoomManager → ChatRoomManager
apply (joins_here room u) m = join_room_local room u m
apply (leaves_here room u) m = leave_room_local room u m
apply (joins_there room id) m = join_room_remote room id m
apply (leaves_there room id) m = leave_room_remote room id m
apply (clears id) m = clear_server_memberships id m

abbrev pub is_member : ChatRoomManager → Bytes → Bytes → Bool
is_member m room u = contains bytes_discrete u (get_local_members room m)

abbrev pub is_remote : ChatRoomManager → Bytes → ℤ → Bool
is_remote m room id = contains ℤ_discrete id (get_remote_servers room m)

-- A cell of a relation after a write to the cell of one room and one value.
abbrev pub write : {K : Type 0} → Discrete K → Bytes → K → Bool → Bytes → K → Bool → Bool
write dec room k b room' k' old = ite (bytes_discrete room' room) (ite (dec k' k) b old) old

unfoldable pub local_after : RoomCall → Bytes → Bytes → Bool → Bool
local_after (joins_here room u) = write bytes_discrete room u true
local_after (leaves_here room u) = write bytes_discrete room u false
local_after _ = λ room' u' old. old

unfoldable pub remote_after : RoomCall → Bytes → ℤ → Bool → Bool
remote_after (joins_there room id) = write ℤ_discrete room id true
remote_after (leaves_there room id) = write ℤ_discrete room id false
remote_after (clears id) = λ room' id' old. ite (ℤ_discrete id' id) false old
remote_after _ = λ room' id' old. old

pub lookup-clear_rooms :
    (id : ℤ) (room : Bytes) (l : List (Bytes × ChatRoom))
    → lookup bytes_discrete room (clear_rooms id l)
      ≡ elim (lookup bytes_discrete room l) [ none ↦ none | some r ↦ some (without_server id r) ]
unfolding lookup clear_rooms
lookup-clear_rooms id room [] = refl
lookup-clear_rooms id room ((j, r) ∷ l) = ground (arith, lookup-clear_rooms id room l)

-- The room under a name, an empty one if there is none.
room_at : ChatRoomManager → Bytes → ChatRoom
unfolding lookup_or
room_at m room = lookup_or bytes_discrete new_room room m.rooms

members-room_at :
    (m : ChatRoomManager) (room : Bytes) → get_local_members room m ≡ (room_at m room).local_members
unfolding get_local_members room_at
members-room_at m room = ground arith

servers-room_at :
    (m : ChatRoomManager) (room : Bytes)
    → get_remote_servers room m ≡ (room_at m room).remote_servers
unfolding get_remote_servers room_at
servers-room_at m room = ground arith

module _ (room : Bytes) (m : ChatRoomManager) (q : Bytes) (f : ChatRoom → ChatRoom) where
  room_at-with_room :
      room_at (with_room room f m) q
      ≡ ite (bytes_discrete q room) (f (room_at m room)) (room_at m q)
  unfolding room_at with_room
  room_at-with_room =
      ground (arith, lookup-insert bytes_discrete q room (f (room_at m room)) m.rooms)

  room_at-in_room :
      f new_room ≡ new_room
      → room_at (in_room room f m) q
        ≡ ite (bytes_discrete q room) (f (room_at m room)) (room_at m q)
  unfolding room_at in_room
  room_at-in_room h = elim (Option-cases (lookup bytes_discrete room m.rooms)) [
    | inl e ↦ rw (e, in_room) (ground arith)
    | inr (r, e) ↦
        rw (e, in_room) (ground (arith, lookup-insert bytes_discrete q room (f r) m.rooms))
  ]

room_at-clear :
    (id : ℤ) (m : ChatRoomManager) (q : Bytes)
    → room_at (clear_server_memberships id m) q ≡ without_server id (room_at m q)
unfolding room_at clear_server_memberships remove
room_at-clear id m q = ground (arith, lookup-clear_rooms id q m.rooms)

-- The room under a name after a call.
room_after : RoomCall → ChatRoomManager → Bytes → ChatRoom
room_after (joins_here room u) m q =
    ite (bytes_discrete q room) (with_member u (room_at m room)) (room_at m q)
room_after (leaves_here room u) m q =
    ite (bytes_discrete q room) (without_member u (room_at m room)) (room_at m q)
room_after (joins_there room id) m q =
    ite (bytes_discrete q room) (with_server id (room_at m room)) (room_at m q)
room_after (leaves_there room id) m q =
    ite (bytes_discrete q room) (without_server id (room_at m room)) (room_at m q)
room_after (clears id) m q = without_server id (room_at m q)

room_at-apply :
    (c : RoomCall) (m : ChatRoomManager) (q : Bytes) → room_at (apply c m) q ≡ room_after c m q
unfolding apply room_after join_room_local leave_room_local join_room_remote leave_room_remote
    remove
room_at-apply (joins_here room u) m q = room_at-with_room room m q (with_member u)
room_at-apply (leaves_here room u) m q = room_at-in_room room m q (without_member u) refl
room_at-apply (joins_there room id) m q = room_at-with_room room m q (with_server id)
room_at-apply (leaves_there room id) m q = room_at-in_room room m q (without_server id) refl
room_at-apply (clears id) m q = room_at-clear id m q

member_cell :
    (c : RoomCall) (m : ChatRoomManager) (q u : Bytes)
    → contains bytes_discrete u (room_after c m q).local_members
      ≡ local_after c q u (contains bytes_discrete u (room_at m q).local_members)
unfolding room_after local_after
member_cell (joins_here room v) m q u =
    ground (arith, contains-put bytes_discrete u v (room_at m room).local_members)
member_cell (leaves_here room v) m q u =
    ground (arith, contains-remove bytes_discrete u v (room_at m room).local_members)
member_cell (joins_there room id) m q u = ground arith
member_cell (leaves_there room id) m q u = ground arith
member_cell (clears id) m q u = refl

server_cell :
    (c : RoomCall) (m : ChatRoomManager) (q : Bytes) (k : ℤ)
    → contains ℤ_discrete k (room_after c m q).remote_servers
      ≡ remote_after c q k (contains ℤ_discrete k (room_at m q).remote_servers)
unfolding room_after remote_after
server_cell (joins_here room v) m q k = ground arith
server_cell (leaves_here room v) m q k = ground arith
server_cell (joins_there room id) m q k =
    ground (arith, contains-put ℤ_discrete k id (room_at m room).remote_servers)
server_cell (leaves_there room id) m q k =
    ground (arith, contains-remove ℤ_discrete k id (room_at m room).remote_servers)
server_cell (clears id) m q k = contains-remove ℤ_discrete k id (room_at m q).remote_servers

-- Each call changes the two relations in its own cell and nowhere else: who is in a room here, and
-- which servers have members of a room. Clearing a server takes it out of every room.
pub apply-refines :
    (c : RoomCall) (m : ChatRoomManager) (q : Bytes)
    → ((u : Bytes) → is_member (apply c m) q u ≡ local_after c q u (is_member m q u))
      × ((k : ℤ) → is_remote (apply c m) q k ≡ remote_after c q k (is_remote m q k))
apply-refines c m q = (
  λ u.
      rw (members-room_at (apply c m) q, members-room_at m q, room_at-apply c m q)
        (member_cell c m q u),
  λ k.
      rw (servers-room_at (apply c m) q, servers-room_at m q, room_at-apply c m q)
        (server_cell c m q k),
)
