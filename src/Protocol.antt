-- ===== src/Protocol.antt =====
-- protocol: packet types, the framing of packets, and the packing of fields.
pub mod Fields
pub mod Frames
pub mod Bounds
use distributed_chat_system.Prelude.{
  ℕ, zero, suc, ◌+◌, ◌-◌, ◌*◌, ◌/◌, ◌%◌, ◌^◌, Bool, true, false, ◌||◌, Option, none, some, List, [],
  ◌∷◌, ◌++◌, if◌then◌else◌, ◌==◌, ltb, length, take, String,
}
use distributed_chat_system.Text.{Bytes, codes, is_empty}
use distributed_chat_system.Networking.{Feed, Received, recv_all}

-- An enum over uint8_t: `unknown` holds the values that no enumerator names.
pub data PacketType : Type 0 where
  login login_resp msg_private msg_room msg_broadcast room_join room_leave room_create : PacketType
  status_update s2s_connect s2s_heartbeat s2s_heartbeat_ack s2s_replicate_user : PacketType
  s2s_route_msg s2s_route_room_msg s2s_room_member_sync : PacketType
  unknown : ℕ → PacketType

unfoldable pub to_byte : PacketType → ℕ
to_byte login = 1
to_byte login_resp = 2
to_byte msg_private = 3
to_byte msg_room = 4
to_byte msg_broadcast = 5
to_byte room_join = 6
to_byte room_leave = 7
to_byte room_create = 8
to_byte status_update = 9
to_byte s2s_connect = 100
to_byte s2s_heartbeat = 101
to_byte s2s_heartbeat_ack = 102
to_byte s2s_replicate_user = 103
to_byte s2s_route_msg = 104
to_byte s2s_route_room_msg = 105
to_byte s2s_room_member_sync = 106
to_byte (unknown b) = b

client_type : ℕ → PacketType
client_type b =
    if b == 1
    then login
    else if b == 2
    then login_resp
    else if b == 3
    then msg_private
    else if b == 4
    then msg_room
    else if b == 5
    then msg_broadcast
    else if b == 6
    then room_join
    else if b == 7
    then room_leave
    else if b == 8
    then room_create
    else if b == 9
    then status_update
    else unknown b

server_type : ℕ → PacketType
server_type b =
    if b == 100
    then s2s_connect
    else if b == 101
    then s2s_heartbeat
    else if b == 102
    then s2s_heartbeat_ack
    else if b == 103
    then s2s_replicate_user
    else if b == 104
    then s2s_route_msg
    else if b == 105
    then s2s_route_room_msg
    else if b == 106
    then s2s_room_member_sync
    else unknown b

-- static_cast<PacketType>(rawType)
unfoldable pub of_byte : ℕ → PacketType
unfolding client_type server_type
of_byte b = if ltb b 100 then client_type b else server_type b

pub record RawPacket : Type 0 where
  pub type : PacketType
  pub payload : Bytes

abbrev pub max_payload_size : ℕ
max_payload_size = 1024 * 1024

-- The four bytes of htonl(n) in memory, and ntohl of four bytes.
unfoldable pub be32 : ℕ → Bytes
be32 n = n / 2 ^ 24 % 256 ∷ n / 2 ^ 16 % 256 ∷ n / 2 ^ 8 % 256 ∷ n % 256 ∷ []

unfoldable pub of_be32 : Bytes → ℕ
of_be32 (a ∷ b ∷ c ∷ d ∷ []) = a * 2 ^ 24 + b * 2 ^ 16 + c * 2 ^ 8 + d
of_be32 _ = 0

-- MessageSerializer::Serialize. Both lengths are uint32_t.
unfoldable pub serialize : PacketType → Bytes → Bytes
unfolding be32 to_byte
serialize type payload =
    let payload_len = length payload % 2 ^ 32 in
    let total_len = (1 + payload_len) % 2 ^ 32 in
    be32 total_len ++ (to_byte type ∷ take payload_len payload)

-- The payload, once the length and the type are read.
unfoldable pub read_payload : Bool → PacketType → ℕ → Feed → Option RawPacket × Feed
read_payload valid type zero f = (some (record { type = type; payload = [] }), f)
read_payload valid type (suc n) f =
    let r = recv_all valid f (suc n) in
    if r.ok then (some (record { type = type; payload = r.got }), r.feed) else (none, r.feed)

unfoldable pub first_byte : Bytes → ℕ
first_byte [] = 0
first_byte (c ∷ s) = c

unfoldable pub read_type : Bool → ℕ → Feed → Option RawPacket × Feed
unfolding read_payload first_byte of_byte
read_type valid total_len f =
    let r = recv_all valid f 1 in
    if r.ok
    then read_payload valid (of_byte (first_byte r.got)) (total_len - 1) r.feed
    else (none, r.feed)

-- MessageSerializer::ReadPacket: the packet if it returns true, and what is left of the stream.
unfoldable pub read_packet : Bool → Feed → Option RawPacket × Feed
unfolding read_type of_be32
read_packet valid f =
    let r = recv_all valid f 4 in
    let total_len = of_be32 r.got in
    if r.ok
    then if ltb total_len 1 || ltb max_payload_size total_len
      then (none, r.feed)
      else read_type valid total_len r.feed
    else (none, r.feed)

unfoldable pub pack : List Bytes → Bytes
pack [] = []
pack (field ∷ fields) = field ++ (0 ∷ pack fields)

-- The loop of Unpack, with the field that is being read; a last one is kept if it is not empty.
unfoldable pub unpack_from : Bytes → Bytes → List Bytes
unpack_from current [] = if is_empty current then [] else current ∷ []
unpack_from current (c ∷ s) =
    let closed = unpack_from [] s in
    let longer = unpack_from (current ++ c ∷ []) s in if c == 0 then current ∷ closed else longer

unfoldable pub unpack : Bytes → List Bytes
unfolding unpack_from
unpack packed = unpack_from [] packed
