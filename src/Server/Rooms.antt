-- ===== src/Server/Rooms.antt =====
-- server/ChatRoomManager: who is in each room on this server, and which servers have members.
pub mod Refinement
use distributed_chat_system.Prelude.{ℤ, ℤ_discrete, Option, none, some, List, [], ◌∷◌, map}
use distributed_chat_system.Text.{Bytes, bytes_discrete}
use distributed_chat_system.Dict.{insert, lookup, lookup_or, keys, put, remove}

pub record ChatRoom : Type 0 where
  pub local_members : List Bytes
  pub remote_servers : List ℤ

abbrev pub new_room : ChatRoom
new_room = record { local_members = []; remote_servers = [] }

pub record ChatRoomManager : Type 0 where
  pub rooms : List (Bytes × ChatRoom)

-- `f(m_rooms[room])`: the room is made if it is missing.
unfoldable pub with_room : Bytes → (ChatRoom → ChatRoom) → ChatRoomManager → ChatRoomManager
unfolding lookup_or
with_room room f m = record {
  rooms = insert bytes_discrete room (f (lookup_or bytes_discrete new_room room m.rooms)) m.rooms;
}

-- `it = m_rooms.find(room); if (it != end) f(it->second)`
unfoldable pub in_room : Bytes → (ChatRoom → ChatRoom) → ChatRoomManager → ChatRoomManager
in_room room f m = elim (lookup bytes_discrete room m.rooms) [
  | none ↦ m
  | some r ↦ record { rooms = insert bytes_discrete room (f r) m.rooms }
]

abbrev pub with_member : Bytes → ChatRoom → ChatRoom
with_member u r = record r { local_members = put bytes_discrete u r.local_members }

abbrev pub without_member : Bytes → ChatRoom → ChatRoom
without_member u r = record r { local_members = remove bytes_discrete u r.local_members }

abbrev pub with_server : ℤ → ChatRoom → ChatRoom
with_server id r = record r { remote_servers = put ℤ_discrete id r.remote_servers }

abbrev pub without_server : ℤ → ChatRoom → ChatRoom
without_server id r = record r { remote_servers = remove ℤ_discrete id r.remote_servers }

unfoldable pub join_room_local : Bytes → Bytes → ChatRoomManager → ChatRoomManager
unfolding with_room
join_room_local room username = with_room room (with_member username)

unfoldable pub leave_room_local : Bytes → Bytes → ChatRoomManager → ChatRoomManager
unfolding in_room
leave_room_local room username = in_room room (without_member username)

unfoldable pub join_room_remote : Bytes → ℤ → ChatRoomManager → ChatRoomManager
unfolding with_room
join_room_remote room server_id = with_room room (with_server server_id)

unfoldable pub leave_room_remote : Bytes → ℤ → ChatRoomManager → ChatRoomManager
unfolding in_room
leave_room_remote room server_id = in_room room (without_server server_id)

unfoldable pub get_local_members : Bytes → ChatRoomManager → List Bytes
get_local_members room m = elim (lookup bytes_discrete room m.rooms) [
  | none ↦ []
  | some r ↦ r.local_members
]

unfoldable pub get_remote_servers : Bytes → ChatRoomManager → List ℤ
get_remote_servers room m = elim (lookup bytes_discrete room m.rooms) [
  | none ↦ []
  | some r ↦ r.remote_servers
]

unfoldable pub clear_rooms : ℤ → List (Bytes × ChatRoom) → List (Bytes × ChatRoom)
clear_rooms server_id [] = []
clear_rooms server_id ((room, r) ∷ rest) =
    (room, without_server server_id r) ∷ clear_rooms server_id rest

unfoldable pub clear_server_memberships : ℤ → ChatRoomManager → ChatRoomManager
unfolding clear_rooms
clear_server_memberships server_id m = record { rooms = clear_rooms server_id m.rooms }

unfoldable pub get_rooms : ChatRoomManager → List Bytes
get_rooms m = keys m.rooms
