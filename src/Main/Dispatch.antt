-- ===== src/Main/Dispatch.antt =====
-- From the arguments of `Run` to the function of a sub command, and back to the exit code.
use shawk.Prelude.{
  ◌≡◌, ◌∙◌, ◌↔◌, ◌∷◌, ◌==◌, if◌then◌else◌, Outcome, ok, Text, codes, text_eq, refl, false, none,
  some, List, [], arith, nat_eq, text_equality,
}
use shawk.Flag.{read_flag, parse, parse-no_flag, parsed}
use shawk.Config.{Config, load}
use shawk.Logging.{Console}
use shawk.Agent.Channel.{done, blocked, crashed}
use shawk.Main.{
  Shell, Outcomes, Options, main_flags, do_look, do_probe, do_create_scheme, report, dispatch,
  with_options, with_config, with_environment, run, returned, exit_code_ok,
}

-- The sub commands that can fail, with their names and what runs them.
pub data SubCommand : Type 0 where
  look_command probe_command scheme_command : SubCommand

abbrev pub name_of : SubCommand → Text
name_of look_command = codes "look"
name_of probe_command = codes "probe"
name_of scheme_command = codes "create-scheme"

abbrev pub no_options : Options
no_options = record { debug = false; help = false }

module _ {E D : Type 0} (shell : Shell E D) where
  abbrev pub outcome_of : SubCommand → Config → List Text → Console → Outcomes
  outcome_of look_command = do_look shell
  outcome_of probe_command = do_probe shell
  outcome_of scheme_command = do_create_scheme shell

  -- The environment is read, and `Load` accepts the configuration in it.
  abbrev pub Loads : Config → Type 0
  Loads cfg =
      (env : E) × ((if shell.env_file == []
          then ok shell.environment
          else shell.load_env shell.env_file shell.environment)
        ≡ ok env)
      × (load shell.process env ≡ ok cfg)

  with_environment-loaded :
      (r : Outcome E) (env : E) (cfg : Config) (first : Text) (rest : List Text) (c : Console)
      → r ≡ ok env
      → load shell.process env ≡ ok cfg
      → with_environment shell r first rest c ≡ with_config shell cfg first rest c
  unfolding with_environment
  with_environment-loaded r env cfg first rest c read loaded =
      rw (read, with_environment, loaded) refl

  pub run-Loads :
      (cfg : Config) (program first : Text) (rest : List Text) (c : Console)
      → Loads cfg
      → run shell (program ∷ first ∷ rest) c ≡ with_config shell cfg first rest c
  unfolding run
  run-Loads cfg program first rest c (env, read, loaded) =
      with_environment-loaded
        (if shell.env_file == []
          then ok shell.environment
          else shell.load_env shell.env_file shell.environment)
        env cfg first rest c read loaded

  -- `Run` behind flags that `Parse` accepts.
  pub with_config-parsed :
      (cfg : Config) (options : Options) (first : Text) (rest left : List Text) (c : Console)
      → parse main_flags no_options (first ∷ rest) ≡ parsed options left
      → with_config shell cfg first rest c ≡ with_options shell cfg options first rest c
  unfolding with_config
  with_config-parsed cfg options first rest left c h = rw (with_config, h) refl

  dispatch-name :
      (k : SubCommand) (cfg : Config) (rest : List Text) (c : Console)
      → dispatch shell cfg (name_of k) rest c ≡ report shell (outcome_of k cfg rest c)
  unfolding dispatch text_eq
  dispatch-name look_command cfg rest c = refl
  dispatch-name probe_command cfg rest c = refl
  dispatch-name scheme_command cfg rest c = refl

  parse-name :
      (k : SubCommand) (rest : List Text)
      → parse main_flags no_options (name_of k ∷ rest) ≡ parsed no_options (name_of k ∷ rest)
  unfolding read_flag
  parse-name look_command rest = parse-no_flag main_flags no_options (codes "look") rest refl
  parse-name probe_command rest = parse-no_flag main_flags no_options (codes "probe") rest refl
  parse-name scheme_command rest =
      parse-no_flag main_flags no_options (codes "create-scheme") rest refl

  pub run-report :
      (k : SubCommand) (cfg : Config) (program : Text) (rest : List Text) (c : Console)
      → Loads cfg
      → run shell (program ∷ name_of k ∷ rest) c ≡ report shell (outcome_of k cfg rest c)
  unfolding with_options
  run-report k cfg program rest c loads =
      run-Loads cfg program (name_of k) rest c loads
      ∙ with_config-parsed cfg no_options (name_of k) rest (name_of k ∷ rest) c (parse-name k rest)
      ∙ dispatch-name k cfg rest c

  report-ok :
      (outcome : Outcomes) (c' : Console)
      → (report shell outcome ≡ done (returned exit_code_ok, c')) ↔ (outcome ≡ done (none, c'))
  unfolding report
  report-ok (done (none, c)) c' = ground arith
  report-ok (done (some e, c)) c' = ground arith
  report-ok blocked c' = ground arith
  report-ok crashed c' = ground arith

  -- If the environment can be read and its configuration is accepted, then `Run` on the name of a
  -- sub command and its arguments returns the exit code 0 exactly if the sub command ends without
  -- an error, and leaves the streams as the sub command does.
  pub run-exit_code :
      (k : SubCommand) (cfg : Config) (program : Text) (rest : List Text) (c c' : Console)
      → Loads cfg
      → (run shell (program ∷ name_of k ∷ rest) c ≡ done (returned exit_code_ok, c'))
        ↔ (outcome_of k cfg rest c ≡ done (none, c'))
  run-exit_code k cfg program rest c c' loads =
      rw (run-report k cfg program rest c loads) (report-ok (outcome_of k cfg rest c) c')
