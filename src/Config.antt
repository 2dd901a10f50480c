-- ===== src/Config.antt =====
-- core/config/ConfigManager: a file of `key = value` lines.
pub mod Entries
use distributed_chat_system.Prelude.{
  ℕ, zero, suc, ◌+◌, ◌-◌, ◌≤◌, ℤ, Bool, true, false, ◌||◌, ◌&&◌, Option, none, some, List, [], ◌∷◌,
  ◌++◌, map, if◌then◌else◌, ◌==◌, leb, for_each,
}
use distributed_chat_system.Text.{
  Bytes, codes, bytes_discrete, trim, is_empty, split, cut_at, starts_with,
}
use distributed_chat_system.Text.Decimal.{stoi}
use distributed_chat_system.Dict.{insert, lookup, lookup_or}

pub record ConfigManager : Type 0 where
  pub configs : List (Bytes × Bytes)

abbrev pub new_config : ConfigManager
new_config = record { configs = [] }

-- '#' and ';'
unfoldable pub is_comment : Bytes → Bool
is_comment line = starts_with 35 line || starts_with 59 line

unfoldable pub enter : Bytes → Bytes → ConfigManager → ConfigManager
enter key val m =
    if is_empty key then m else record { configs = insert bytes_discrete key val m.configs }

unfoldable pub load_line : Bytes → ConfigManager → ConfigManager
unfolding cut_at is_comment enter
load_line raw m =
    let line = trim raw in
    if is_empty line || is_comment line then m else elim (cut_at 61 line) [
      | none ↦ m
      | some (before, behind) ↦ enter (trim before) (trim behind) m
    ]

-- `none` is a file that cannot be opened; std::getline cuts the text at '\n'.
unfoldable pub load : Option Bytes → ConfigManager → ConfigManager × Bool
unfolding load_line
load none m = (m, false)
load (some text) m = (for_each (split text 10) load_line m, true)

unfoldable pub get_string : Bytes → Bytes → ConfigManager → Bytes
get_string key default_val m = lookup_or bytes_discrete default_val key m.configs

-- An exception of std::stoi is caught.
unfoldable pub get_int : Bytes → ℤ → ConfigManager → ℤ
get_int key default_val m = elim (lookup bytes_discrete key m.configs) [
  | none ↦ default_val
  | some text ↦ elim (stoi text) [ none ↦ default_val | some z ↦ z ]
]

-- ::tolower in the "C" locale
unfoldable pub to_lower : ℕ → ℕ
to_lower c = if leb 65 c && leb c 90 then c + 32 else c

abbrev equals : Bytes → Bytes → Bool
equals a b = elim (bytes_discrete a b) [ yes e ↦ true | no e ↦ false ]

unfoldable pub truth : Bytes → Bool → Bool
unfolding to_lower
truth text default_val =
    let val = map to_lower text in
    if equals val (codes "true") || (equals val (codes "yes") || equals val (codes "1"))
    then true
    else if equals val (codes "false") || (equals val (codes "no") || equals val (codes "0"))
    then false
    else default_val

unfoldable pub get_bool : Bytes → Bool → ConfigManager → Bool
unfolding truth
get_bool key default_val m = elim (lookup bytes_discrete key m.configs) [
  | none ↦ default_val
  | some text ↦ truth text default_val
]
