-- ===== src/Logging/Tests.antt =====
-- Tests of logging, and its theorem at a concrete input.
use shawk.Prelude.{◌≡◌, ◌∷◌, if◌then◌else◌, leb, keep, Text, codes, refl, Bool, false, List, []}
use shawk.Logging.{debug, info, warning, level_string, line, message, new_console, set_log_level}
use shawk.Logging.Filter
use shawk.Logging.Filter.{Message, log_all, lines}

unknown_level : level_string 9 ≡ codes "level(9)"
unfolding level_string
unknown_level = refl

one_line : line (message (codes "main") warning (codes "slow")) ≡ codes "WARNING <main> slow\n"
unfolding line message
one_line = refl

abbrev two_messages : List Message
two_messages =
    record { level = debug; tag = codes "db"; text = codes "query" }
    ∷ record { level = warning; tag = codes "main"; text = codes "slow" }
    ∷ []

abbrev stamp : Bool → Text
stamp short_file = if short_file then codes "logger.go:1: " else []

log_all-set_log_level_example :
    (log_all stamp two_messages (set_log_level info new_console)).stderr
    ≡ lines stamp false (keep (λ m. leb info m.level) two_messages)
log_all-set_log_level_example =
    Filter.log_all-set_log_level stamp info two_messages new_console refl
