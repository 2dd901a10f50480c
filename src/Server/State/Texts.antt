-- ===== src/Server/State/Texts.antt =====
-- The literals of the replies. They are shut, so that proofs do not read their bytes.
use distributed_chat_system.Text.{Bytes, codes}

unfoldable pub status_tag : Bytes
status_tag = codes "STATUS"

unfoldable pub success_tag : Bytes
success_tag = codes "SUCCESS"

unfoldable pub error_tag : Bytes
error_tag = codes "ERROR"

unfoldable pub info_tag : Bytes
info_tag = codes "INFO"

unfoldable pub zero_text : Bytes
zero_text = codes "0"

unfoldable pub one_text : Bytes
one_text = codes "1"

unfoldable pub authentication_required : Bytes
authentication_required = codes "Authentication required"

unfoldable pub invalid_username : Bytes
invalid_username = codes "Invalid username"

unfoldable pub already_online : Bytes
already_online = codes "Username already online"

unfoldable pub welcome : Bytes
welcome = codes "Welcome to Distributed Chat!"

unfoldable pub delivered_to : Bytes
delivered_to = codes "Message delivered to "

unfoldable pub routed_text : Bytes
routed_text = codes "Message routed to remote server"

unfoldable pub user_offline : Bytes
user_offline = codes "User offline"

unfoldable pub join_first : Bytes
join_first = codes "Join room first"

unfoldable pub joined_room : Bytes
joined_room = codes "Joined room "

unfoldable pub left_room : Bytes
left_room = codes "Left room "

unfoldable pub user_text : Bytes
user_text = codes "User "

unfoldable pub entered_text : Bytes
entered_text = codes " entered "

unfoldable pub left_text : Bytes
left_text = codes " left "

unfoldable pub room_text : Bytes
room_text = codes "Room "

unfoldable pub created_text : Bytes
created_text = codes " created. Type /join "

unfoldable pub to_enter : Bytes
to_enter = codes " to enter."
