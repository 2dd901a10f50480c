-- ===== src/Config/Entries.antt =====
-- A configuration file that was written from entries gives the entries back.
use distributed_chat_system.Prelude.{
  ◌≡◌, refl, ap, sym, ◌∙◌, true, false, ◌||◌, Option, none, some, List, [], ◌∷◌, ◌++◌, map, arith,
  All, ite, for_each, append_assoc,
}
use distributed_chat_system.Text.{Bytes, bytes_discrete, trim, is_empty, has_byte, cut_at}
use distributed_chat_system.Text.Trimming.{StartsClean, EndsClean, trim_clean}
use distributed_chat_system.Text.Cutting.{
  has_byte-append, cut_at-append, EndsClean-append, StartsClean-append, trim-space_after,
  trim-space_before,
}
use distributed_chat_system.Text.Lines.{join_lines, split-join_lines}
use distributed_chat_system.Dict.{insert, lookup, lookup_or, lookup-insert}
use distributed_chat_system.Config.{ConfigManager, is_comment, enter, load_line, load, get_string}

-- A key and a value that can be written on a line.
pub record IsEntry (e : Bytes × Bytes) : Type 0 where
  pub key_some : is_empty e.0 ≡ false
  pub key_starts : StartsClean e.0
  pub key_ends : EndsClean e.0
  pub key_no_equals : has_byte 61 e.0 ≡ false
  pub key_no_comment : is_comment e.0 ≡ false
  pub key_one_line : has_byte 10 e.0 ≡ false
  pub value_some : is_empty e.1 ≡ false
  pub value_starts : StartsClean e.1
  pub value_ends : EndsClean e.1
  pub value_one_line : has_byte 10 e.1 ≡ false

-- `key = value`
abbrev pub line_of : Bytes × Bytes → Bytes
line_of e = e.0 ++ (32 ∷ 61 ∷ 32 ∷ e.1)

abbrev pub print_config : List (Bytes × Bytes) → Bytes
print_config es = join_lines 10 (map line_of es)

-- A text behind a key changes neither test of the loop.
skipped-append :
    (s t : Bytes)
    → is_empty s ≡ false
    → is_comment s ≡ false
    → (is_empty (s ++ t) || is_comment (s ++ t)) ≡ false
unfolding is_comment
skipped-append [] t e h = cc
skipped-append (c ∷ s) t e h = h

module _ (k v : Bytes) (m : ConfigManager) (h : IsEntry (k, v)) where
  line_clean : trim (line_of (k, v)) ≡ line_of (k, v)
  line_clean = trim_clean (line_of (k, v)) starts (EndsClean-append k (32 ∷ 61 ∷ 32 ∷ v) refl ends)
    where
      starts : StartsClean (line_of (k, v))
      starts = StartsClean-append k (32 ∷ 61 ∷ 32 ∷ v) h.key_some h.key_starts

      ends : EndsClean (32 ∷ 61 ∷ 32 ∷ v)
      ends = EndsClean-append (32 ∷ 61 ∷ 32 ∷ []) v h.value_some h.value_ends

  cut_line : cut_at 61 (line_of (k, v)) ≡ some (k ++ (32 ∷ []), 32 ∷ v)
  cut_line =
      ap (cut_at 61) (sym (append_assoc k (32 ∷ []) (61 ∷ 32 ∷ v)))
      ∙ cut_at-append 61 (k ++ (32 ∷ [])) (32 ∷ v)
          (has_byte-append 61 k (32 ∷ []) ∙ rw (h.key_no_equals) (unfold has_byte in refl))

  load_line-entry :
      load_line (line_of (k, v)) m ≡ record { configs = insert bytes_discrete k v m.configs }
  unfolding load_line enter
  load_line-entry = ground (
    arith,
    line_clean,
    skipped-append k (32 ∷ 61 ∷ 32 ∷ v) h.key_some h.key_no_comment,
    cut_line,
    trim-space_after k h.key_starts h.key_ends,
    trim-space_before v h.value_starts h.value_ends,
    h.key_some,
  )

line_one_line : (e : Bytes × Bytes) → IsEntry e → has_byte 10 (line_of e) ≡ false
line_one_line e h =
    has_byte-append 10 e.0 (32 ∷ 61 ∷ 32 ∷ e.1)
    ∙ (unfold has_byte in rw (h.key_one_line, h.value_one_line))

lines_one_line :
    (es : List (Bytes × Bytes)) → All IsEntry es → All (λ l. has_byte 10 l ≡ false) (map line_of es)
lines_one_line [] h = tt
lines_one_line (e ∷ es) h = (line_one_line e h.0, lines_one_line es h.1)

-- The last value of a key in a list of entries, behind what was there before.
abbrev pub last_value : List (Bytes × Bytes) → Bytes → Option Bytes → Option Bytes
last_value [] q old = old
last_value ((k, v) ∷ es) q old = last_value es q (ite (bytes_discrete q k) (some v) old)

load_lines-last_value :
    (es : List (Bytes × Bytes)) (m : ConfigManager) (q : Bytes)
    → All IsEntry es
    → lookup bytes_discrete q (for_each (map line_of es) load_line m).configs
      ≡ last_value es q (lookup bytes_discrete q m.configs)
unfolding for_each
load_lines-last_value [] m q h = refl
load_lines-last_value ((k, v) ∷ es) m q h =
    ap (λ x. lookup bytes_discrete q (for_each (map line_of es) load_line x).configs)
      (load_line-entry k v m h.0)
    ∙ (load_lines-last_value es _ q h.1
        ∙ ap (last_value es q) (lookup-insert bytes_discrete q k v m.configs))

-- A file that is written with one line `key = value` for each entry loads, and afterwards each key
-- has the last value that the file gives it, and a key that the file does not name keeps what it had.
-- Keys and values are not empty, fit on a line and have no blank at either end; a key has no '=' in
-- it and does not begin a comment.
pub load-print_config :
    (es : List (Bytes × Bytes)) (m : ConfigManager) (q d : Bytes)
    → All IsEntry es
    → ((load (some (print_config es)) m).1 ≡ true)
      × (get_string q d (load (some (print_config es)) m).0
          ≡ elim (last_value es q (lookup bytes_discrete q m.configs)) [ none ↦ d | some v ↦ v ])
unfolding load get_string lookup_or
load-print_config es m q d h = (
  refl,
  rw (split-join_lines 10 (map line_of es) (lines_one_line es h)) (
      ap (λ (o : Option Bytes). elim o [ none ↦ d | some v ↦ v ]) (load_lines-last_value es m q h)),
)
