-- ===== src/Text.antt =====
-- std::string as its bytes, and the text helpers of include/core/common/Common.h.
pub mod Decimal
pub mod Trimming
pub mod Cutting
pub mod Lines
use Prim.Native.Char.{code}
use Prim.Native.String.{String}
use distributed_chat_system.Prelude.{
  ℕ, zero, suc, Bool, true, false, ◌&&◌, ◌||◌, Option, none, some, List, [], ◌∷◌, ℕ_discrete,
  if◌then◌else◌, ◌==◌, length,
}

abbrev pub Bytes : Type 0
Bytes = List ℕ

-- The bytes of an ASCII literal.
abbrev pub codes : String → Bytes
codes String.[] = []
codes (String.◌∷◌ c s) = code c ∷ codes s

unfoldable pub bytes_discrete : Discrete Bytes
unfolding ℕ_discrete
bytes_discrete = hlevel ℕ_discrete

abbrev pub is_empty : Bytes → Bool
is_empty [] = true
is_empty (c ∷ s) = false

-- " \t\r\n"
unfoldable pub is_blank : ℕ → Bool
is_blank c = c == 32 || c == 9 || c == 13 || c == 10

-- str.substr(str.find_first_not_of(blanks))
unfoldable pub skip_blanks : Bytes → Bytes
unfolding is_blank
skip_blanks [] = []
skip_blanks (c ∷ s) = if is_blank c then skip_blanks s else c ∷ s

-- str.substr(0, str.find_last_not_of(blanks) + 1)
unfoldable pub drop_trailing : Bytes → Bytes
unfolding is_blank
drop_trailing [] = []
drop_trailing (c ∷ s) =
    let rest = drop_trailing s in if is_blank c && is_empty rest then [] else c ∷ rest

unfoldable pub trim : Bytes → Bytes
unfolding skip_blanks drop_trailing
trim s = drop_trailing (skip_blanks s)

-- str.find(c) != npos
unfoldable pub has_byte : ℕ → Bytes → Bool
has_byte b [] = false
has_byte b (c ∷ s) = if c == b then true else has_byte b s

-- The bytes up to the next delimiter, and those behind it.
unfoldable pub read_until : ℕ → Bytes → Bytes × Bytes
read_until d [] = ([], [])
read_until d (c ∷ s) = let (t, r) = read_until d s in if c == d then ([], s) else (c ∷ t, r)

-- std::getline(stream, token, d): it fails at the end of the stream.
unfoldable pub getline : Bytes → ℕ → Option (Bytes × Bytes)
unfolding read_until
getline [] d = none
getline (c ∷ s) d = some (read_until d (c ∷ s))

-- `while (getline(...)) tokens.push_back(token);` Every round takes a byte off the stream, so the
-- length of the text is fuel enough.
unfoldable pub split_rounds : ℕ → Bytes → ℕ → List Bytes
unfolding getline
split_rounds zero s d = []
split_rounds (suc f) s d = elim (getline s d) [ none ↦ [] | some (t, r) ↦ t ∷ split_rounds f r d ]

unfoldable pub split : Bytes → ℕ → List Bytes
unfolding split_rounds
split s d = split_rounds (length s) s d

-- s.find(b): the text before the first byte b and the text behind it.
unfoldable pub cut_at : ℕ → Bytes → Option (Bytes × Bytes)
cut_at b [] = none
cut_at b (c ∷ s) =
    let rest = cut_at b s in
    if c == b
    then some ([], s)
    else elim rest [ none ↦ none | some (before, behind) ↦ some (c ∷ before, behind) ]

abbrev pub starts_with : ℕ → Bytes → Bool
starts_with b [] = false
starts_with b (c ∷ s) = c == b
