-- ===== src/Console/Typing.antt =====
-- Each command, typed as the help describes it, is understood.
use distributed_chat_system.Prelude.{String, ◌≡◌, refl, ap, ◌∙◌, false, [], ◌∷◌, ◌++◌}
use distributed_chat_system.Text.{
  Bytes, codes, bytes_discrete, trim, is_empty, is_blank, has_byte, cut_at,
}
use distributed_chat_system.Text.Trimming.{StartsClean, EndsClean, trim_clean}
use distributed_chat_system.Text.Cutting.{cut_at-append, EndsClean-append}
use distributed_chat_system.Console.{
  Command, nothing, exit_app, logout, help, private_msg, room_msg, create, join, leave, broadcast,
  usage, unknown, command_of, slash_command, command_named, with_one, with_two,
}

-- A name without a space, and a text that can stand behind it.
pub record IsWord (w : Bytes) : Type 0 where
  pub some_byte : is_empty w ≡ false
  pub starts : StartsClean w
  pub no_space : has_byte 32 w ≡ false

pub record IsRest (t : Bytes) : Type 0 where
  pub some_byte : is_empty t ≡ false
  pub ends : EndsClean t

pub record IsPhrase (t : Bytes) : Type 0 where
  pub some_byte : is_empty t ≡ false
  pub starts : StartsClean t
  pub ends : EndsClean t

abbrev pub IsTypable : Command → Type 0
IsTypable (private_msg receiver text) = IsWord receiver × IsRest text
IsTypable (room_msg room text) = IsWord room × IsRest text
IsTypable (create room) = IsPhrase room
IsTypable (join room) = IsPhrase room
IsTypable (leave room) = IsPhrase room
IsTypable (broadcast text) = IsPhrase text
IsTypable exit_app = Unit
IsTypable logout = Unit
IsTypable help = Unit
IsTypable _ = ⊥

abbrev pub behind : Bytes → Bytes → Bytes
behind cmd args = cmd ++ (32 ∷ args)

-- The line that the help gives for a command.
abbrev pub typed : Command → Bytes
typed exit_app = codes "/exit"
typed logout = codes "/logout"
typed help = codes "/help"
typed (private_msg receiver text) = behind (codes "/msg") (behind receiver text)
typed (room_msg room text) = behind (codes "/roommsg") (behind room text)
typed (create room) = behind (codes "/create") room
typed (join room) = behind (codes "/join") room
typed (leave room) = behind (codes "/leave") room
typed (broadcast text) = behind (codes "/broadcast") text
typed _ = []

-- A command with its arguments is cut at the first space.
command_of-behind :
    (name args : Bytes)
    → has_byte 32 name ≡ false
    → IsPhrase args
    → command_of (behind (47 ∷ name) args) ≡ command_named (47 ∷ name) args
unfolding command_of
command_of-behind name args one h =
    let line = behind (47 ∷ name) args in
    let clean : trim line ≡ line = trim_clean line (unfold is_blank in refl) (
      EndsClean-append (47 ∷ name) (32 ∷ args) refl
        (EndsClean-append (32 ∷ []) args h.some_byte h.ends)) in
    rw clean (
      unfold slash_command in
      rw (cut_at-append 32 (47 ∷ name) args (unfold has_byte in one), slash_command)
        (ap (command_named (47 ∷ name)) (trim_clean args h.starts h.ends)))

IsPhrase-behind : (w t : Bytes) → IsWord w → IsRest t → IsPhrase (behind w t)
IsPhrase-behind [] t h k = absurd (cc (h.some_byte))
IsPhrase-behind (c ∷ w) t h k = record {
  some_byte = refl;
  starts = h.starts;
  ends = EndsClean-append (c ∷ w) (32 ∷ t) refl (EndsClean-append (32 ∷ []) t k.some_byte k.ends);
}

with_one-phrase :
    (make : Bytes → Command) (hint : String) (t : Bytes)
    → IsPhrase t
    → with_one make hint t ≡ make t
unfolding with_one
with_one-phrase make hint t h = rw (h.some_byte) refl

with_two-words :
    (make : Bytes → Bytes → Command) (hint : String) (w t : Bytes)
    → IsWord w
    → with_two make hint (behind w t) ≡ make w t
unfolding with_two
with_two-words make hint w t h =
    rw (cut_at-append 32 w t h.no_space, with_two) (rw (h.some_byte) refl)

-- Every command that is typed as the help describes it is read as that command with its arguments:
-- a name has no space and begins with no blank, a text that ends a line is not empty and does not
-- end with a blank, and a single argument does not begin with one either.
pub command_of-typed : (c : Command) → IsTypable c → command_of (typed c) ≡ c
unfolding command_named
command_of-typed exit_app h = unfold command_of cut_at trim bytes_discrete in refl
command_of-typed logout h = unfold command_of cut_at trim bytes_discrete in refl
command_of-typed help h = unfold command_of cut_at trim bytes_discrete in refl
command_of-typed (private_msg receiver text) h =
    command_of-behind (codes "msg") (behind receiver text) (unfold has_byte in refl)
      (IsPhrase-behind receiver text h.0 h.1)
    ∙ (unfold bytes_discrete in
        with_two-words private_msg "/msg <username> <text>" receiver text h.0)
command_of-typed (room_msg room text) h =
    command_of-behind (codes "roommsg") (behind room text) (unfold has_byte in refl)
      (IsPhrase-behind room text h.0 h.1)
    ∙ (unfold bytes_discrete in with_two-words room_msg "/roommsg <room> <text>" room text h.0)
command_of-typed (create room) h =
    command_of-behind (codes "create") room (unfold has_byte in refl) h
    ∙ (unfold bytes_discrete in with_one-phrase create "/create <room>" room h)
command_of-typed (join room) h =
    command_of-behind (codes "join") room (unfold has_byte in refl) h
    ∙ (unfold bytes_discrete in with_one-phrase join "/join <room>" room h)
command_of-typed (leave room) h =
    command_of-behind (codes "leave") room (unfold has_byte in refl) h
    ∙ (unfold bytes_discrete in with_one-phrase leave "/leave <room>" room h)
command_of-typed (broadcast text) h =
    command_of-behind (codes "broadcast") text (unfold has_byte in refl) h
    ∙ (unfold bytes_discrete in with_one-phrase broadcast "/broadcast <text>" text h)
command_of-typed nothing h = absurd h
command_of-typed (usage hint) h = absurd h
command_of-typed (unknown cmd) h = absurd h
