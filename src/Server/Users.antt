-- ===== src/Server/Users.antt =====
-- server/UserManager: which server each online user is on.
pub mod Refinement
use distributed_chat_system.Prelude.{ℤ, negsuc, ℤ_discrete, Bool, true, false, List, ◌∷◌, is_some}
use distributed_chat_system.Text.{Bytes, bytes_discrete}
use distributed_chat_system.Dict.{insert, erase, erase_if, lookup, lookup_or, keys}

-- `a == b` on server ids.
abbrev pub same_id : ℤ → ℤ → Bool
same_id a b = elim (ℤ_discrete a b) [ yes e ↦ true | no e ↦ false ]

pub record UserManager : Type 0 where
  pub user_locations : List (Bytes × ℤ)
  pub local_server_id : ℤ

unfoldable pub register_user : Bytes → ℤ → UserManager → UserManager
register_user username server_id m = record m {
  user_locations = insert bytes_discrete username server_id m.user_locations;
}

unfoldable pub unregister_user : Bytes → UserManager → UserManager
unregister_user username m = record m {
  user_locations = erase bytes_discrete username m.user_locations;
}

unfoldable pub get_user_location : Bytes → UserManager → ℤ
unfolding lookup_or
get_user_location username m = lookup_or bytes_discrete (negsuc 0) username m.user_locations

unfoldable pub is_user_online : Bytes → UserManager → Bool
is_user_online username m = is_some (lookup bytes_discrete username m.user_locations)

unfoldable pub clear_server_users : ℤ → UserManager → UserManager
clear_server_users server_id m = record m {
  user_locations = erase_if (λ at. same_id at server_id) m.user_locations;
}

unfoldable pub get_online_users : UserManager → List Bytes
get_online_users m = keys m.user_locations
