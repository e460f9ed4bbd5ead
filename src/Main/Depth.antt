-- ===== src/Main/Depth.antt =====
-- The depth that `doLook` lets through.
use shawk.Prelude.{
  ◌≤◌, ◌<◌, ◌≡◌, ◌∙◌, ◌↔◌, Bool-cases, Text, ℕ, refl, sym, inl, inr, true, false, some, List, [],
  arith,
}
use shawk.Flag.{
  Parse, bad_syntax, not_defined, needs_argument, invalid_value, FlagError, help_requested, parse,
  parsed, failed,
}
use shawk.Config.{Config}
use shawk.Logging.{Console}
use shawk.Agent.Channel.{done}
use shawk.Command.Look.{LookParam, look}
use shawk.Main.Texts.{look_help_text}
use shawk.Main.{
  default_depth, Outcomes, look_parsed, Shell, depth_failure, flag_failure, look_flags,
  is_bad_depth, print_usage, do_look, from_command,
}

-- The command line gives a depth from 1 to 4.
abbrev pub IsDepth : ℕ → Type 0
IsDepth n = (0 < n) × (n ≤ 4)

is_bad_depth-bounds : (n : ℕ) → (is_bad_depth n ≡ false) ↔ IsDepth n
unfolding is_bad_depth
is_bad_depth-bounds n = (λ h. ground arith, λ h. ground (arith, h.0, h.1))

-- The parameters of `doLook` before it reads the flags.
abbrev pub defaults : LookParam
defaults = record { ipv4 = []; depth = default_depth; since = []; until = [] }

true_not_false : {A : Type 0} → true ≡ false → A
true_not_false h = cc

module _ {E D : Type 0} (shell : Shell E D) where
  stdout-print_usage :
      (usage : Text) (e : FlagError) (c : Console) → (print_usage shell usage e c).stdout ≡ c.stdout
  unfolding print_usage
  stdout-print_usage usage help_requested c = refl
  stdout-print_usage usage (bad_syntax s) c = refl
  stdout-print_usage usage (not_defined s) c = refl
  stdout-print_usage usage (needs_argument s) c = refl
  stdout-print_usage usage (invalid_value v s) c = refl

  -- How `doLook` ends on what `Parse` made of its arguments.
  abbrev pub EndsLook : Config → Console → Parse LookParam → Outcomes → Type 0
  EndsLook cfg c (failed e) outcome =
      (c' : Console) × (outcome ≡ done (some (flag_failure e), c')) × (c'.stdout ≡ c.stdout)
  EndsLook cfg c (parsed param rest) outcome =
      (IsDepth param.depth → outcome ≡ from_command (look shell.world cfg param c))
      × (¬ IsDepth param.depth → outcome ≡ done (some (depth_failure param.depth), c))

  look_parsed-EndsLook :
      (cfg : Config) (c : Console) (read : Parse LookParam)
      → EndsLook cfg c read (look_parsed shell cfg c read)
  unfolding look_parsed
  look_parsed-EndsLook cfg c (failed e) =
      (print_usage shell look_help_text e c, refl, stdout-print_usage look_help_text e c)
  look_parsed-EndsLook cfg c (parsed param rest) =
      let bounds = is_bad_depth-bounds param.depth in
      elim (Bool-cases (is_bad_depth param.depth)) [
        | inl bad ↦ rw bad (λ h. true_not_false (sym bad ∙ bounds.1 h), λ h. refl)
        | inr fine ↦ rw fine (λ h. refl, λ h. absurd (h (bounds.0 fine)))
      ]

  -- If `doLook` can not read its flags, then it returns the error and leaves the standard output
  -- alone. With flags that it reads, whose depth is from 1 to 4, it ends as `Look` does on them; with
  -- any other depth it returns the error about the depth and prints nothing.
  pub do_look-EndsLook :
      (cfg : Config) (args : List Text) (c : Console)
      → EndsLook cfg c (parse look_flags defaults args) (do_look shell cfg args c)
  unfolding do_look
  do_look-EndsLook cfg args c = look_parsed-EndsLook cfg c (parse look_flags defaults args)
