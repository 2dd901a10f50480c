-- ===== src/Client/Texts.antt =====
-- What the client prints, with the colours of the terminal.
use distributed_chat_system.Prelude.{String, List, [], ◌∷◌, ◌++◌}
use distributed_chat_system.Text.{Bytes, codes}

-- An escape sequence of the terminal.
abbrev escape : String → Bytes
escape s = 27 ∷ codes s

-- A line in a colour behind a label, and the prompt.
labelled : String → String → Bytes → Bytes
labelled colour label body = 10 ∷ (escape colour ++ (codes label ++ (body ++ escape "[0m\n>>> ")))

unfoldable pub login_succeeded : Bytes → Bytes
unfolding labelled
login_succeeded = labelled "[92m" "[LOGIN SUCCESS] "

unfoldable pub login_failed : Bytes → Bytes
unfolding labelled
login_failed = labelled "[91m" "[LOGIN FAILED] "

unfoldable pub private_line : Bytes → Bytes → Bytes
unfolding labelled
private_line sender text = labelled "[96m" "[Private Message] " (sender ++ (codes " -> " ++ text))

unfoldable pub room_line : Bytes → Bytes → Bytes → Bytes
unfolding labelled
room_line sender room text =
    labelled "[94m" "[" (room ++ (codes "] " ++ (sender ++ (codes ": " ++ text))))

unfoldable pub broadcast_line : Bytes → Bytes → Bytes
unfolding labelled
broadcast_line sender text = labelled "[95m" "[Global Broadcast] " (sender ++ (codes ": " ++ text))

unfoldable pub broadcast_raw : Bytes → Bytes
unfolding labelled
broadcast_raw = labelled "[95m" "[Global Broadcast]: "

unfoldable pub success_line : Bytes → Bytes
unfolding labelled
success_line = labelled "[92m" "[SUCCESS] "

unfoldable pub info_line : Bytes → Bytes
unfolding labelled
info_line = labelled "[93m" "[INFO] "

unfoldable pub error_line : Bytes → Bytes
unfolding labelled
error_line = labelled "[91m" "[ERROR] "

-- A black circle in UTF-8, in green, before the name.
unfoldable pub user_line : Bytes → Bytes
user_line name =
    codes " " ++ (escape "[92m" ++ (226 ∷ 151 ∷ 143 ∷ (escape "[0m " ++ (name ++ codes "\n"))))

unfoldable pub user_lines : List Bytes → Bytes
unfolding user_line
user_lines [] = []
user_lines (name ∷ names) = user_line name ++ user_lines names

unfoldable pub users_head : Bytes
users_head = 10 ∷ (escape "[90m================ ONLINE USERS =================" ++ escape "[0m\n")

unfoldable pub users_foot : Bytes
users_foot = escape "[90m===============================================" ++ escape "[0m\n>>> "

unfoldable pub users_line : List Bytes → Bytes
unfolding user_lines
users_line names = users_head ++ (user_lines names ++ users_foot)

unfoldable pub connection_lost : Bytes
connection_lost = 10 ∷ (escape "[91m[SYSTEM] Connection to server lost." ++ escape "[0m\n>>> ")
