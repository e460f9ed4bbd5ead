-- ===== src/Logging.antt =====
-- logging/level.go and logging/logger.go: leveled messages on the standard error stream.
pub mod Filter
mod Tests
use shawk.Prelude.{
  ◌∷◌, ◌++◌, ◌==◌, if◌then◌else◌, leb, Text, codes, ℕ, Bool, false, [], nat_eq, text_equality,
}
use shawk.Strconv.{format_uint}

-- `TRACE`
abbrev pub trace : ℕ
trace = 1

-- `DEBUG`
abbrev pub debug : ℕ
debug = 2

-- `INFO`
abbrev pub info : ℕ
info = 3

-- `WARNING`
abbrev pub warning : ℕ
warning = 4

-- `ERROR`
abbrev pub error : ℕ
error = 5

-- `FATAL`
abbrev pub fatal : ℕ
fatal = 6

-- `level.String`
unfoldable pub level_string : ℕ → Text
unfolding format_uint
level_string l =
    if l == trace
    then codes "TRACE"
    else if l == debug
    then codes "DEBUG"
    else if l == info
    then codes "INFO"
    else if l == warning
    then codes "WARNING"
    else if l == error
    then codes "ERROR"
    else if l == fatal
    then codes "FATAL"
    else codes "level(" ++ format_uint l ++ codes ")"

-- The state behind the messages: `logLv`, whether `lgr` has the flag `Lshortfile`, and what has been
-- written to the two streams of the process.
pub record Console : Type 0 where
  pub level : ℕ
  pub short_file : Bool
  pub stdout : Text
  pub stderr : Text

-- At the start of the process.
abbrev pub new_console : Console
new_console = record { level = info; short_file = false; stdout = []; stderr = [] }

-- `SetLogLevel`
unfoldable pub set_log_level : ℕ → Console → Console
set_log_level lv c = if c.level == lv then c else record c { level = lv; short_file = leb lv debug }

-- `fmt.Fprint` to the standard output, and to the standard error.
abbrev pub print_out : Text → Console → Console
print_out text c = record c { stdout = c.stdout ++ text }

abbrev pub print_err : Text → Console → Console
print_err text c = record c { stderr = c.stderr ++ text }

-- `Logger.message`
unfoldable pub message : Text → ℕ → Text → Text
unfolding level_string
message tag lv text = level_string lv ++ codes " <" ++ tag ++ codes "> " ++ text

-- `Output` of Go's `log` ends a message with a newline where it has none.
unfoldable pub ends_in_newline : Text → Bool
ends_in_newline [] = false
ends_in_newline (c ∷ []) = c == b'\n'
ends_in_newline (c ∷ d ∷ s) = ends_in_newline (d ∷ s)

unfoldable pub line : Text → Text
unfolding ends_in_newline
line s = if ends_in_newline s then s else s ++ b'\n' ∷ []

-- `stamp` is the header that Go's `log` puts before a message: the time, and with the flag the file.
module _ (stamp : Bool → Text) where
  -- `Logger.log` of the logger with a tag, on a message whose arguments are filled in.
  unfoldable pub log : ℕ → Text → Text → Console → Console
  unfolding line message
  log lv tag text c =
      if leb c.level lv then print_err (stamp c.short_file ++ line (message tag lv text)) c else c

  -- `Fatalf`
  abbrev pub fatalf : Text → Text → Console → Console
  fatalf = log fatal

  -- `Errorf`
  abbrev pub errorf : Text → Text → Console → Console
  errorf = log error

  -- `Warningf`
  abbrev pub warningf : Text → Text → Console → Console
  warningf = log warning

  -- `Infof`
  abbrev pub infof : Text → Text → Console → Console
  infof = log info

  -- `Debugf`
  abbrev pub debugf : Text → Text → Console → Console
  debugf = log debug

  -- `Tracef`
  abbrev pub tracef : Text → Text → Console → Console
  tracef = log trace
