-- ===== src/Main.antt =====
-- main.go and version/version.go: the command line, from the arguments to the exit code.
pub mod Texts
pub mod Dispatch
pub mod Debug
pub mod Depth
pub mod Once
mod Tests
use shawk.Prelude.{
  ◌+◌, ◌^◌, ◌||◌, ◌∷◌, ◌++◌, ◌==◌, if◌then◌else◌, ltb, leb, Error, Outcome, ok, err, panics, Text,
  codes, ℕ, Bool, false, Option, none, some, List, [], nat_eq, text_equality,
}
use shawk.Flag.{
  Parse, Flag, FlagError, help_requested, parsed, failed, parse, bool_var, string_var, int_var,
}
use shawk.Config.{Config, load}
use shawk.Logging.{Console, debug, print_out, print_err, set_log_level, fatalf, line}
use shawk.Agent.Channel.{Progress, done, crashed, ◌>>=◌}
use shawk.Agent.Life.{Ending}
use shawk.Statik.{find_string}
use shawk.Command.{World, ProbeParam, probe, create_scheme}
use shawk.Command.Look.{LookParam, look, max_graph_depth}
use shawk.Main.Texts.{help_text, look_help_text, probe_help_text, create_scheme_help_text}

-- `exitCodeOK`
abbrev pub exit_code_ok : ℕ
exit_code_ok = 0

-- `exitCodeErr`, whose `iota` is 1.
abbrev pub exit_code_err : ℕ
exit_code_err = 10 + 1

-- The error that a sub command returns: of its flags, on its depth, or from behind.
pub data Failure : Type 0 where
  flag_failure : FlagError → Failure
  depth_failure : ℕ → Failure
  command_failure : Error → Failure

-- How `Run` ends: it returns a code, or `log.Fatalf` exits with one.
pub data Status : Type 0 where
  returned exited : ℕ → Status

-- What `Run` is told besides: the environment, of type `E`, and the value of `SHAWK_ENV_FILE` in it;
-- what `godotenv.Load` makes of it, or its error; `envconfig.Process`; how an error is printed by
-- `%v` and by `%+v`; and the variables of package `version` that the build sets.
pub record Shell (E D : Type 0) : Type 0 where
  pub world : World D
  pub environment : E
  pub env_file : Text
  pub load_env : Text → E → Outcome E
  pub process : E → Outcome Config
  pub plain : Failure → Text
  pub verbose : Failure → Text
  pub commit : Text
  pub date : Text

-- `debug` and `help` of `Run`
pub record Options : Type 0 where
  pub debug : Bool
  pub help : Bool

unfoldable pub main_flags : List (Flag Options)
unfolding bool_var
main_flags =
    bool_var "help" (λ b p. record p { help = b })
    ∷ bool_var "debug" (λ b p. record p { debug = b })
    ∷ []

-- `defaultDepth`
abbrev pub default_depth : ℕ
default_depth = 1

unfoldable pub look_flags : List (Flag LookParam)
unfolding string_var int_var
look_flags =
    string_var "ipv4" (λ s p. record p { ipv4 = s })
    ∷ string_var "since" (λ s p. record p { since = s })
    ∷ string_var "until" (λ s p. record p { until = s })
    ∷ int_var "depth" (λ n p. record p { depth = n })
    ∷ []

unfoldable pub probe_flags : List (Flag ProbeParam)
unfolding bool_var
probe_flags = bool_var "once" (λ b p. record p { once = b }) ∷ []

-- The sub commands end as `Look`, `Probe` and `CreateScheme` do, or with an error of their own.
abbrev pub Outcomes : Type 0
Outcomes = Progress (Option Failure × Console)

-- The error behind an error of a command.
unfoldable pub failure_of : Option Error → Option Failure
failure_of none = none
failure_of (some e) = some (command_failure e)

unfoldable pub from_command : Ending → Outcomes
unfolding failure_of
from_command ending = do (e, c) ← ending; done (failure_of e, c)

-- `param.Depth <= 0 || param.Depth > command.MaxGraphDepth`
unfoldable pub is_bad_depth : ℕ → Bool
is_bad_depth depth = depth == 0 || leb (2 ^ 63) depth || ltb max_graph_depth depth

module _ {E D : Type 0} (shell : Shell E D) where
  -- What `Parse` prints for an error: the error, but for a request for help, and the usage.
  unfoldable pub print_usage : Text → FlagError → Console → Console
  print_usage usage help_requested c = print_err usage c
  print_usage usage e c = print_err (shell.plain (flag_failure e) ++ codes "\n" ++ usage) c

  -- `doLook` behind `Parse`.
  unfoldable pub look_parsed : Config → Console → Parse LookParam → Outcomes
  unfolding look print_usage from_command is_bad_depth look_help_text
  look_parsed cfg c (failed e) = done (some (flag_failure e), print_usage look_help_text e c)
  look_parsed cfg c (parsed param rest) =
      if is_bad_depth param.depth
      then done (some (depth_failure param.depth), c)
      else from_command (look shell.world cfg param c)

  -- `doLook`
  unfoldable pub do_look : Config → List Text → Console → Outcomes
  unfolding parse look_flags look_parsed
  do_look cfg args c =
      look_parsed cfg c (
        parse look_flags (record { ipv4 = []; depth = default_depth; since = []; until = [] }) args)

  -- `doProbe`
  unfoldable pub do_probe : Config → List Text → Console → Outcomes
  unfolding probe parse probe_flags print_usage from_command probe_help_text
  do_probe cfg args c = elim (parse probe_flags (record { once = false }) args) [
    | failed e ↦ done (some (flag_failure e), print_usage probe_help_text e c)
    | parsed param rest ↦ from_command (probe shell.world cfg param c)
  ]

  -- `doCreateScheme`, which has no flags.
  unfoldable pub do_create_scheme : Config → List Text → Console → Outcomes
  unfolding create_scheme parse print_usage from_command create_scheme_help_text
  do_create_scheme cfg args c = elim (parse {P = Unit} [] tt args) [
    | failed e ↦ done (some (flag_failure e), print_usage create_scheme_help_text e c)
    | parsed param rest ↦ from_command (create_scheme shell.world cfg c)
  ]

  -- The end of `Run`: the error is printed, and the code is returned.
  report_failure : Option Failure → Console → Status × Console
  report_failure none c = (returned exit_code_ok, c)
  report_failure (some e) c = (returned exit_code_err, print_err (shell.verbose e ++ codes "\n") c)

  unfoldable pub report : Outcomes → Progress (Status × Console)
  unfolding report_failure
  report outcome = do (e, c) ← outcome; done (report_failure e c)

  -- `PrintVersion`
  unfoldable pub print_version : Console → Console
  print_version c =
      print_err
        (codes "shawk version 0.7.1, build "
          ++ shell.commit
          ++ codes ", date "
          ++ shell.date
          ++ codes " \n")
        c

  -- The case `credits`; `Fatalf` only logs, so a failure prints an empty text.
  unfoldable pub credits : Console → Console
  unfolding fatalf
  credits c = elim (find_string shell.world.files (codes "/CREDITS")) [
    | ok text ↦ print_out (text ++ codes "\n") c
    | err e ↦
        print_out (codes "\n")
          (fatalf shell.world.stamp (codes "main") (shell.plain (command_failure e)) c)
    | panics ↦ c
  ]

  -- The `switch` on the first argument.
  unfoldable pub dispatch : Config → Text → List Text → Console → Progress (Status × Console)
  unfolding do_look do_probe do_create_scheme report print_version credits help_text
  dispatch cfg first rest c =
      if first == codes "look"
      then report (do_look cfg rest c)
      else if first == codes "probe"
      then report (do_probe cfg rest c)
      else if first == codes "create-scheme"
      then report (do_create_scheme cfg rest c)
      else if first == codes "version"
      then done (returned exit_code_ok, print_version c)
      else if first == codes "credits"
      then done (returned exit_code_ok, credits c)
      else if first == codes "help"
      then done (returned exit_code_ok, print_out help_text c)
      else done (
        returned exit_code_err,
        print_err (codes "No such sub command: " ++ first ++ codes "\n" ++ help_text) c,
      )

  -- `Run` behind `flags.Parse`.
  unfoldable pub with_options :
      Config → Options → Text → List Text → Console → Progress (Status × Console)
  unfolding dispatch set_log_level
  with_options cfg options first rest c =
      if options.help
      then done (returned exit_code_ok, print_out help_text c)
      else dispatch cfg first rest (if options.debug then set_log_level debug c else c)

  -- `Run` behind `config.Load`.
  unfoldable pub with_config : Config → Text → List Text → Console → Progress (Status × Console)
  unfolding with_options main_flags parse print_usage
  with_config cfg first rest c =
      elim (parse main_flags (record { debug = false; help = false }) (first ∷ rest)) [
        | failed e ↦ done (returned exit_code_err, print_usage help_text e c)
        | parsed options left ↦ with_options cfg options first rest c
      ]

  -- `log.Fatalf`
  unfoldable pub die : Text → Error → Console → Progress (Status × Console)
  unfolding line
  die text e c = done (
    exited 1,
    print_err
        (shell.world.stamp false ++ line (text ++ shell.plain (command_failure e) ++ codes "\n")) c,
  )

  -- `Run` behind the file of the environment.
  unfoldable pub with_environment :
      Outcome E → Text → List Text → Console → Progress (Status × Console)
  unfolding with_config load die
  with_environment (err e) first rest c = die (codes "Cannot start load config from env: ") e c
  with_environment panics first rest c = crashed
  with_environment (ok env) first rest c = elim (load shell.process env) [
    | err e ↦ die (codes "Cannot load config from env: ") e c
    | panics ↦ crashed
    | ok cfg ↦ with_config cfg first rest c
  ]

  -- `Run`
  unfoldable pub run : List Text → Console → Progress (Status × Console)
  unfolding with_environment
  run (program ∷ first ∷ rest) c =
      with_environment
        (if shell.env_file == []
          then ok shell.environment
          else shell.load_env shell.env_file shell.environment)
        first rest c
  run args c = done (returned exit_code_err, print_err help_text c)
