-- ===== src/Logging/Levels.antt =====
-- base/Logging.h: the levels, the macros and the names of source files.
use dserver.Prelude.{
  ℕ, Bool, true, false, Option, none, some, List, [], ◌∷◌, if◌then◌else◌, ◌==◌, leb, codes,
}
use dserver.LogStream.{Item, char_item, string_item}

pub data LogLevel : Type 0 where
  trace debug info warn error fatal : LogLevel

abbrev pub level_number : LogLevel → ℕ
level_number trace = 0
level_number debug = 1
level_number info = 2
level_number warn = 3
level_number error = 4
level_number fatal = 5

abbrev pub level_name : LogLevel → List ℕ
level_name trace = codes "TRACE "
level_name debug = codes "DEBUG "
level_name info = codes "INFO  "
level_name warn = codes "WARN  "
level_name error = codes "ERROR "
level_name fatal = codes "FATAL "

abbrev pub is_fatal : LogLevel → Bool
is_fatal fatal = true
is_fatal _ = false

pub data LogMacro : Type 0 where
  log_trace log_debug log_info log_warn log_error log_fatal log_syserr log_sysfatal : LogMacro

abbrev pub level_of : LogMacro → LogLevel
level_of log_trace = trace
level_of log_debug = debug
level_of log_info = info
level_of log_warn = warn
level_of log_error = error
level_of log_fatal = fatal
level_of log_syserr = error
level_of log_sysfatal = fatal

-- The test in the macro.
unfoldable pub is_logged : LogLevel → LogMacro → Bool
is_logged g_log_level log_trace = leb (level_number g_log_level) 0
is_logged g_log_level log_debug = leb (level_number g_log_level) 1
is_logged g_log_level log_info = leb (level_number g_log_level) 2
is_logged g_log_level _ = true

-- What follows the last slash, if there is one.
latest : Option (List ℕ) → ℕ → List ℕ → Option (List ℕ)
latest (some rest) c cs = some rest
latest none c cs = if c == 47 then some cs else none

unfoldable pub after_slash : List ℕ → Option (List ℕ)
unfolding latest
after_slash [] = none
after_slash (c ∷ cs) = latest (after_slash cs) c cs

abbrev pub given_or : List ℕ → Option (List ℕ) → List ℕ
given_or path none = path
given_or path (some rest) = rest

-- `SourceFile`: the name of a file without its directories.
unfoldable pub source_file : List ℕ → List ℕ
source_file path = given_or path (after_slash path)

-- `savedErrno`, of the value of errno.
abbrev pub saved_errno : LogMacro → ℕ → ℕ
saved_errno log_syserr errno = errno
saved_errno log_sysfatal errno = errno
saved_errno _ errno = 0

-- The constructor for TRACE and DEBUG puts the name of the function.
abbrev pub function_items : LogMacro → List ℕ → List Item
function_items log_trace func = string_item (some func) ∷ char_item 32 ∷ []
function_items log_debug func = string_item (some func) ∷ char_item 32 ∷ []
function_items _ func = []
