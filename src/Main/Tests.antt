-- ===== src/Main/Tests.antt =====
-- Tests of the command line, and its theorems at concrete inputs.
use shawk.Prelude.{
  ◌≡◌, ◌≢◌, ◌↔◌, ◌∷◌, ◌++◌, any, ok, codes, text_eq, ℕ, refl, true, false, none, [], map,
}
use shawk.Strconv.Literals.{parse_bool}
use shawk.Flag.{parse, parsed}
use shawk.Config.{Config, load}
use shawk.Logging.{new_console, debug, print_err, set_log_level, log, line, message, level_string}
use shawk.Agent.Channel.{done}
use shawk.Command.Samples.{config, world}
use shawk.Main.{Shell, Options, main_flags, do_look, run, returned, exit_code_ok, exit_code_err}
use shawk.Main.Texts.{help_text}
use shawk.Main.Dispatch
use shawk.Main.Dispatch.{SubCommand, look_command, probe_command, scheme_command, Loads, outcome_of}
use shawk.Main.Debug
use shawk.Main.{look_flags}
use shawk.Flag.{parse}
use shawk.Main.Depth
use shawk.Main.Depth.{EndsLook, defaults}
use shawk.Main.Once

abbrev shell : Shell Config ℕ
shell = record {
  world = world;
  environment = config;
  env_file = [];
  load_env = λ file env. ok env;
  process = λ env. ok env;
  plain = λ e. codes "error";
  verbose = λ e. codes "error";
  commit = codes "d0e6d15";
  date = codes "2020-01-02";
}

loaded : Loads shell config
unfolding load text_eq
loaded = (config, refl, refl)

-- The resources of `credits` are missing, which is logged, and the code is 0.
credits_missing :
    run shell (map codes ("shawk" ∷ "credits" ∷ [])) new_console
    ≡ done (
      returned exit_code_ok,
      record new_console { stdout = codes "\n"; stderr = codes "FATAL <main> error\n" },
    )
unfolding run text_eq log line message level_string shawk.Statik.find_string
credits_missing = refl

no_arguments :
    run shell (codes "shawk" ∷ []) new_console
    ≡ done (returned exit_code_err, print_err help_text new_console)
unfolding run
no_arguments = refl

run-exit_code_example :
    (run shell (codes "shawk" ∷ codes "create-scheme" ∷ []) new_console
      ≡ done (returned exit_code_ok, new_console))
    ↔ (outcome_of shell scheme_command config [] new_console ≡ done (none, new_console))
run-exit_code_example =
    Dispatch.run-exit_code shell scheme_command config (codes "shawk") [] new_console new_console
      loaded

abbrev with_debug : Options
with_debug = record { debug = true; help = false }

debug_parsed :
    parse main_flags Dispatch.no_options (map codes ("--debug" ∷ "probe" ∷ []))
    ≡ parsed with_debug (codes "probe" ∷ [])
unfolding parse main_flags text_eq parse_bool any
debug_parsed = refl

run-debug_example :
    run shell (map codes ("shawk" ∷ "--debug" ∷ "probe" ∷ [])) new_console
    ≡ done (
      returned exit_code_err,
      print_err
          (codes "No such sub command: --debug\n" ++ help_text)
          (set_log_level debug new_console),
    )
unfolding help_text
run-debug_example =
    Debug.run-debug shell config (codes "shawk") (codes "--debug") (codes "probe" ∷ [])
      (codes "probe" ∷ []) with_debug new_console loaded debug_parsed refl refl

do_look-EndsLook_example :
    EndsLook shell config new_console
      (parse look_flags defaults (map codes ("--depth" ∷ "5" ∷ [])))
      (do_look shell config (map codes ("--depth" ∷ "5" ∷ [])) new_console)
do_look-EndsLook_example =
    Depth.do_look-EndsLook shell config (map codes ("--depth" ∷ "5" ∷ [])) new_console

run-once_example :
    run shell (map codes ("shawk" ∷ "probe" ∷ "--once" ∷ [])) new_console
    ≢ done (returned exit_code_ok, new_console)
run-once_example = Once.run-once shell config (codes "shawk") new_console new_console loaded refl
