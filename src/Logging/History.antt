-- ===== src/Logging/History.antt =====
-- What a history of log calls leaves on the console and in the file.
use distributed_chat_system.Prelude.{
  ◌≡◌, refl, ap, ◌∙◌, Bool, true, false, List, [], ◌∷◌, ◌++◌, if◌then◌else◌, ltb, for_each,
  Bool-cases, inl, inr, append_assoc, append-nil,
}
use distributed_chat_system.Text.{Bytes}
use distributed_chat_system.Logging.{
  LogLevel, rank, Logger, new_logger, init, Entry, console_line, file_line, writes_file, log,
}

-- The lines of the calls whose level is not below the minimum, in their order.
abbrev pub kept : LogLevel → (Entry → Bytes) → List Entry → Bytes
kept min line [] = []
kept min line (e ∷ es) =
    if ltb (rank e.level) (rank min) then kept min line es else line e ++ kept min line es

log-keeps :
    (es : List Entry) (l : Logger)
    → for_each es log l ≡ record l {
      console = l.console ++ kept l.min_log_level console_line es;
      file = if writes_file l then l.file ++ kept l.min_log_level file_line es else l.file;
    }
unfolding for_each log
log-keeps [] l = elim (Bool-cases (writes_file l)) [
  | inl on ↦ rw (on, append-nil l.console, append-nil l.file) refl
  | inr off ↦ rw (off, append-nil l.console) refl
]
log-keeps (e ∷ es) l = elim (Bool-cases (ltb (rank e.level) (rank l.min_log_level))) [
  | inl low ↦ log-keeps es (log e l) ∙ (unfold log in rw low refl)
  | inr high ↦ log-keeps es (log e l) ∙ elim (Bool-cases (writes_file l)) [
    | inl on ↦
        unfold log in
        rw
          (high, on, append_assoc l.console (console_line e) _, append_assoc l.file (file_line e) _)
          refl
    | inr off ↦ unfold log in rw (high, off, append_assoc l.console (console_line e) _) refl
  ]
]

-- After Init with a minimum level, any calls of Log leave on the console exactly the lines of those
-- whose level is not below the minimum, in the order of the calls, and add the same calls' lines,
-- without colours, to what the log file had, if the file could be opened; otherwise the file stays.
pub init-log_keeps :
    (opens : Bool) (min : LogLevel) (old : Bytes) (es : List Entry)
    → let l = for_each es log (init opens min (new_logger old)) in
      (l.console ≡ kept min console_line es)
      × (l.file ≡ (if opens then old ++ kept min file_line es else old))
unfolding init
init-log_keeps true min old es =
    let e = log-keeps es (init true min (new_logger old)) in
    (ap (λ (x : Logger). x.console) e, ap (λ (x : Logger). x.file) e)
init-log_keeps false min old es =
    let e = log-keeps es (init false min (new_logger old)) in
    (ap (λ (x : Logger). x.console) e, ap (λ (x : Logger). x.file) e)
