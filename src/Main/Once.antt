-- ===== src/Main/Once.antt =====
-- `shawk probe --once`, from the arguments to the exit code.
use shawk.Prelude.{
  ◌≡◌, ◌∙◌, ◌≢◌, ◌∷◌, any, Text, codes, text_eq, refl, sym, true, none, some, [], arith,
}
use shawk.Flag.{parse}
use shawk.Strconv.Literals.{parse_bool}
use shawk.Config.{Config}
use shawk.Logging.{Console}
use shawk.Agent.Channel.{done, blocked, crashed}
use shawk.Agent.Life.{Ending}
use shawk.Command.{polling_mode, probe, probe_by_mode, probe_once}
use shawk.Command.Modes.{probe_once-fails, probe-connects}
use shawk.Main.{failure_of, Shell, from_command, probe_flags, do_probe, run, returned, exit_code_ok}
use shawk.Main.Dispatch.{Loads, probe_command, run-exit_code}

-- An error of a command stays an error.
from_command-none :
    (ending : Ending) (c' : Console)
    → from_command ending ≡ done (none, c')
    → ending ≡ done (none, c')
unfolding from_command failure_of
from_command-none (done (none, c)) c' h = ground arith
from_command-none (done (some e, c)) c' h = ground arith
from_command-none blocked c' h = ground arith
from_command-none crashed c' h = ground arith

module _ {E D : Type 0} (shell : Shell E D) where
  do_probe-once :
      (cfg : Config) (c : Console)
      → do_probe shell cfg (codes "--once" ∷ []) c
        ≡ from_command (probe shell.world cfg (record { once = true }) c)
  unfolding do_probe parse probe_flags text_eq parse_bool any
  do_probe-once cfg c = refl

  probe_by_mode-once :
      (cfg : Config) (c : Console)
      → cfg.probe_mode ≡ polling_mode
      → probe_by_mode shell.world cfg (record { once = true }) c ≡ probe_once shell.world c
  unfolding probe_by_mode text_eq
  probe_by_mode-once cfg c mode = rw mode refl

  -- If the environment can be read and its configuration is accepted with the mode `polling`, then
  -- `shawk probe --once` never returns the exit code 0.
  pub run-once :
      (cfg : Config) (program : Text) (c c' : Console)
      → Loads shell cfg
      → cfg.probe_mode ≡ polling_mode
      → run shell (program ∷ codes "probe" ∷ codes "--once" ∷ []) c
        ≢ done (returned exit_code_ok, c')
  run-once cfg program c c' loads mode h =
      let none_failed =
        (run-exit_code shell probe_command cfg program (codes "--once" ∷ []) c c' loads).0 h in
      let ended =
        from_command-none (probe shell.world cfg (record { once = true }) c) c'
          (sym (do_probe-once cfg c) ∙ none_failed) in
      let (d, ran) = probe-connects shell.world cfg (record { once = true }) c c' ended in
      probe_once-fails shell.world d c' (sym (probe_by_mode-once cfg d mode) ∙ ran)
