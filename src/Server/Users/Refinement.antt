-- ===== src/Server/Users/Refinement.antt =====
-- The user manager as a partial map from names to servers.
use distributed_chat_system.Prelude.{
  ℤ, negsuc, ◌≡◌, refl, ◌∙◌, ap, Option, none, some, List, [], ◌∷◌, ite, arith, if◌then◌else◌,
}
use distributed_chat_system.Text.{Bytes, bytes_discrete}
use distributed_chat_system.Dict.{
  lookup, Distinct, lookup-insert, lookup-erase, lookup-erase_if, insert-Distinct, erase-Distinct,
  erase_if-Distinct,
}
use distributed_chat_system.Server.Users.{
  UserManager, same_id, register_user, unregister_user, clear_server_users, get_user_location,
}

-- A call that changes the table.
pub data UserCall : Type 0 where
  registers : Bytes → ℤ → UserCall
  unregisters : Bytes → UserCall
  clears : ℤ → UserCall

unfoldable pub apply : UserCall → UserManager → UserManager
apply (registers u id) m = register_user u id m
apply (unregisters u) m = unregister_user u m
apply (clears id) m = clear_server_users id m

unfoldable pub run : List UserCall → UserManager → UserManager
unfolding apply
run [] m = m
run (c ∷ cs) m = run cs (apply c m)

-- What the calls mean for the server of one user.
unfoldable pub moved : UserCall → Bytes → Option ℤ → Option ℤ
moved (registers u id) q at = ite (bytes_discrete q u) (some id) at
moved (unregisters u) q at = ite (bytes_discrete q u) none at
moved (clears id) q none = none
moved (clears id) q (some at) = if same_id at id then none else some at

unfoldable pub history : List UserCall → Bytes → Option ℤ → Option ℤ
unfolding moved
history [] q at = at
history (c ∷ cs) q at = history cs q (moved c q at)

abbrev pub location : UserManager → Bytes → Option ℤ
location m q = lookup bytes_discrete q m.user_locations

abbrev pub IsTable : UserManager → Type 0
IsTable m = Distinct bytes_discrete m.user_locations

pub location-apply :
    (c : UserCall) (q : Bytes) (m : UserManager)
    → IsTable m
    → location (apply c m) q ≡ moved c q (location m q)
unfolding apply moved register_user unregister_user clear_server_users
location-apply (registers u id) q m h = lookup-insert bytes_discrete q u id m.user_locations
location-apply (unregisters u) q m h = lookup-erase bytes_discrete q u m.user_locations
location-apply (clears id) q m h =
    ground (arith, lookup-erase_if bytes_discrete (λ (at : ℤ). same_id at id) q m.user_locations h)

pub apply-IsTable : (c : UserCall) (m : UserManager) → IsTable m → IsTable (apply c m)
unfolding apply register_user unregister_user clear_server_users
apply-IsTable (registers u id) m h = insert-Distinct bytes_discrete u id m.user_locations h
apply-IsTable (unregisters u) m h = erase-Distinct bytes_discrete u m.user_locations h
apply-IsTable (clears id) m h = erase_if-Distinct bytes_discrete _ m.user_locations h

-- After any calls the table gives each user the server that the calls of the partial map give, and
-- it still has one entry for each user at the most.
pub run-refines :
    (cs : List UserCall) (m : UserManager) (q : Bytes)
    → IsTable m
    → (location (run cs m) q ≡ history cs q (location m q)) × IsTable (run cs m)
unfolding run history
run-refines [] m q h = (refl, h)
run-refines (c ∷ cs) m q h =
    let r = run-refines cs (apply c m) q (apply-IsTable c m h) in
    (r.0 ∙ ap (history cs q) (location-apply c q m h), r.1)

-- After a server is cleared the location of a user that was there is -1, and that of any other user
-- is what it was.
pub get_user_location-clear_server_users :
    (id : ℤ) (q : Bytes) (m : UserManager)
    → IsTable m
    → get_user_location q (clear_server_users id m)
      ≡ (if same_id (get_user_location q m) id then negsuc 0 else get_user_location q m)
unfolding get_user_location clear_server_users
get_user_location-clear_server_users id q m h =
    ground (arith, lookup-erase_if bytes_discrete (λ (at : ℤ). same_id at id) q m.user_locations h)
