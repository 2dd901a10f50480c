-- ===== src/Logging.antt =====
-- core/logging/Logger: what is printed and what is kept in the log file.
pub mod History
use distributed_chat_system.Prelude.{
  ℕ, not, Bool, true, false, ◌&&◌, ◌||◌, List, [], ◌∷◌, ◌++◌, if◌then◌else◌, ltb, for_each,
  Bool-cases, inl, inr, append_assoc, append-nil, String,
}
use distributed_chat_system.Text.{Bytes, codes}

pub data LogLevel : Type 0 where
  info_level success_level warn_level err_level debug_level : LogLevel

-- The enumerators' values.
unfoldable pub rank : LogLevel → ℕ
rank info_level = 0
rank success_level = 1
rank warn_level = 2
rank err_level = 3
rank debug_level = 4

-- The static members: `is_open` and `has_failed` are the state of s_logFile; `console` is what went
-- to std::cout, and `file` what the log file has.
pub record Logger : Type 0 where
  pub min_log_level : LogLevel
  pub file_logging_enabled : Bool
  pub is_open : Bool
  pub has_failed : Bool
  pub console : Bytes
  pub file : Bytes

-- Before Init, with what the log file has already.
abbrev pub new_logger : Bytes → Logger
new_logger old = record {
  min_log_level = info_level;
  file_logging_enabled = false;
  is_open = false;
  has_failed = false;
  console = [];
  file = old;
}

unfoldable pub log_level_to_string : LogLevel → Bytes
log_level_to_string info_level = codes "INFO"
log_level_to_string success_level = codes "SUCCESS"
log_level_to_string warn_level = codes "WARN"
log_level_to_string err_level = codes "ERROR"
log_level_to_string debug_level = codes "DEBUG"

abbrev escape : String → Bytes
escape s = 27 ∷ codes s

unfoldable pub log_level_to_color : LogLevel → Bytes
log_level_to_color info_level = escape "[94m"
log_level_to_color success_level = escape "[92m"
log_level_to_color warn_level = escape "[93m"
log_level_to_color err_level = escape "[91m"
log_level_to_color debug_level = escape "[95m"

-- s_logFile.open: a stream that is open already fails and keeps its file; `opens` is whether the
-- system opens the file otherwise.
unfoldable pub open_file : Bool → Logger → Logger
open_file opens l =
    if l.is_open
    then record l { has_failed = true }
    else if opens
    then record l { is_open = true; has_failed = false }
    else record l { has_failed = true }

unfoldable pub init : Bool → LogLevel → Logger → Logger
unfolding open_file
init opens min_level l =
    let l' = open_file opens (record l { min_log_level = min_level }) in
    record l' { file_logging_enabled = l'.file_logging_enabled || l'.is_open }

-- A call of Log, with the time of the call as it is written.
pub record Entry : Type 0 where
  pub level : LogLevel
  pub message : Bytes
  pub category : Bytes
  pub time_str : Bytes

unfoldable pub console_line : Entry → Bytes
unfolding log_level_to_string log_level_to_color
console_line e =
    codes "["
    ++ (e.time_str
        ++ (codes "] "
            ++ (log_level_to_color e.level
                ++ (codes "["
                    ++ (log_level_to_string e.level
                        ++ (codes "]"
                            ++ (escape "[0m"
                                ++ (codes " ["
                                    ++ (e.category
                                        ++ (codes "] " ++ (e.message ++ codes "\n")))))))))))

unfoldable pub file_line : Entry → Bytes
unfolding log_level_to_string
file_line e =
    codes "["
    ++ (e.time_str
        ++ (codes "] "
            ++ (codes "["
                ++ (log_level_to_string e.level
                    ++ (codes "]"
                        ++ (codes " ["
                            ++ (e.category ++ (codes "] " ++ (e.message ++ codes "\n")))))))))

-- The guard of the file, and a stream that takes what is written.
abbrev pub writes_file : Logger → Bool
writes_file l = if l.file_logging_enabled && l.is_open then not l.has_failed else false

unfoldable pub log : Entry → Logger → Logger
unfolding rank console_line file_line
log e l = if ltb (rank e.level) (rank l.min_log_level) then l else record l {
  console = l.console ++ console_line e;
  file = if writes_file l then l.file ++ file_line e else l.file;
}
