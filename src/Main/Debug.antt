-- ===== src/Main/Debug.antt =====
-- The flag `--debug` of `Run`.
use shawk.Prelude.{
  ◌≡◌, ◌∙◌, ◌≢◌, ◌∷◌, ◌++◌, Bool-cases, Text, codes, text_eq, text_eq_iff, refl, sym, ap, inl, inr,
  true, false, List,
}
use mathlib.Core.Bool.{false≢true}
use shawk.Flag.{Parse, no_flag, read_flag, parse, parse-no_flag, parsed, failed}
use shawk.Config.{Config}
use shawk.Logging.{Console, debug, print_err, set_log_level}
use shawk.Agent.Channel.{done}
use shawk.Main.{Shell, Options, main_flags, dispatch, with_options, run, returned, exit_code_err}
use shawk.Main.Texts.{help_text}
use shawk.Main.Dispatch.{Loads, no_options, run-Loads, with_config-parsed}

-- Whether `Parse` read an option.
options_of : {A : Type 0} → Parse A → A → A
options_of (parsed options left) other = options
options_of (failed e) other = other

-- If `Parse` set a flag, then the first argument reads as a flag.
parse-some_flag :
    (first : Text) (rest left : List Text) (options : Options)
    → parse main_flags no_options (first ∷ rest) ≡ parsed options left
    → options.debug ≡ true
    → read_flag first ≢ no_flag
unfolding options_of
parse-some_flag first rest left options h set none_read =
    let same : no_options ≡ options =
      ap (λ p. options_of p no_options)
        (sym (parse-no_flag main_flags no_options first rest none_read) ∙ h) in
    false≢true (ap (λ o. o.debug) same ∙ set)

-- A text that reads as a flag is no name.
differs :
    (first name : Text)
    → read_flag first ≢ no_flag
    → read_flag name ≡ no_flag
    → text_eq first name ≡ false
differs first name flag plain = elim (Bool-cases (text_eq first name)) [
  | inr other ↦ other
  | inl same ↦ absurd (flag (ap read_flag ((text_eq_iff first name).0 same) ∙ plain))
]

module _ {E D : Type 0} (shell : Shell E D) where
  dispatch-flag :
      (cfg : Config) (first : Text) (rest : List Text) (c : Console)
      → read_flag first ≢ no_flag
      → dispatch shell cfg first rest c
        ≡ done (
          returned exit_code_err,
          print_err (codes "No such sub command: " ++ first ++ codes "\n" ++ help_text) c,
        )
  unfolding dispatch read_flag help_text
  dispatch-flag cfg first rest c flag =
      rw
        (
          dispatch,
          differs first (codes "look") flag refl,
          differs first (codes "probe") flag refl,
          differs first (codes "create-scheme") flag refl,
          differs first (codes "version") flag refl,
          differs first (codes "credits") flag refl,
          differs first (codes "help") flag refl,
        )
        refl

  -- If the environment can be read and its configuration is accepted, and `Run` reads `--debug` and
  -- not `--help`, then `Run` changes the log level, but runs no sub command: it prints that there is
  -- no sub command of the name of its first flag, and returns the exit code of an error.
  pub run-debug :
      (cfg : Config) (program first : Text) (rest left : List Text) (options : Options)
      (c : Console)
      → Loads shell cfg
      → parse main_flags no_options (first ∷ rest) ≡ parsed options left
      → options.debug ≡ true
      → options.help ≡ false
      → run shell (program ∷ first ∷ rest) c
        ≡ done (
          returned exit_code_err,
          print_err
              (codes "No such sub command: " ++ first ++ codes "\n" ++ help_text)
              (set_log_level debug c),
        )
  unfolding with_options
  run-debug cfg program first rest left options c loads read set no_help =
      run-Loads shell cfg program first rest c loads
      ∙ with_config-parsed shell cfg options first rest left c read
      ∙ rw (with_options, no_help, set)
          (dispatch-flag cfg first rest (set_log_level debug c)
            (parse-some_flag first rest left options read set))
