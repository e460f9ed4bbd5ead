-- ===== src/Logging/Filter.antt =====
-- Which messages of logger.go reach the stream.
use shawk.Prelude.{
  ◌≡◌, ◌∙◌, ◌∷◌, ◌++◌, leb, Bool-cases, append-nil, append_assoc, keep, Text, nat_eq, ℕ, refl, sym,
  ap, inl, inr, Bool, true, false, List, [], arith,
}
use shawk.Logging.{Console, debug, set_log_level, print_err, message, line, log}

-- A message: its level, the tag of its logger, and its text.
pub record Message : Type 0 where
  pub level : ℕ
  pub tag : Text
  pub text : Text

-- The flag `Lshortfile` is set at the levels up to `DEBUG`, and only there.
abbrev pub IsFlagged : Console → Type 0
IsFlagged c = c.short_file ≡ leb c.level debug

set_log_level-IsFlagged :
    (lv : ℕ) (c : Console) → IsFlagged c → (set_log_level lv c).short_file ≡ leb lv debug
unfolding set_log_level
set_log_level-IsFlagged lv c h = ground (arith, nat_eq.beq_iff)

set_log_level-level : (lv : ℕ) (c : Console) → (set_log_level lv c).level ≡ lv
unfolding set_log_level
set_log_level-level lv c = ground arith

set_log_level-stderr : (lv : ℕ) (c : Console) → (set_log_level lv c).stderr ≡ c.stderr
unfolding set_log_level
set_log_level-stderr lv c = ground arith

module _ (stamp : Bool → Text) where
  -- Messages one after another, each by the function of its level.
  abbrev pub log_all : List Message → Console → Console
  log_all [] c = c
  log_all (m ∷ ms) c = log_all ms (log stamp m.level m.tag m.text c)

  -- The lines of messages.
  abbrev pub lines : Bool → List Message → Text
  lines short_file [] = []
  lines short_file (m ∷ ms) =
      (stamp short_file ++ line (message m.tag m.level m.text)) ++ lines short_file ms

  log-shown :
      (m : Message) (c : Console)
      → leb c.level m.level ≡ true
      → log stamp m.level m.tag m.text c
        ≡ print_err (stamp c.short_file ++ line (message m.tag m.level m.text)) c
  unfolding log
  log-shown m c h = rw h refl

  log-hidden :
      (m : Message) (c : Console)
      → leb c.level m.level ≡ false
      → log stamp m.level m.tag m.text c ≡ c
  unfolding log
  log-hidden m c h = rw h refl

  log_all-lines :
      (ms : List Message) (c : Console)
      → (log_all ms c).stderr ≡ c.stderr ++ lines c.short_file (keep (λ m. leb c.level m.level) ms)
  unfolding keep
  log_all-lines [] c = sym (append-nil c.stderr)
  log_all-lines (m ∷ ms) c = elim (Bool-cases (leb c.level m.level)) [
    | inl shown ↦
        ap (λ d. (log_all ms d).stderr) (log-shown m c shown)
        ∙ log_all-lines ms (print_err (stamp c.short_file ++ line (message m.tag m.level m.text)) c)
        ∙ append_assoc c.stderr (stamp c.short_file ++ line (message m.tag m.level m.text))
            (lines c.short_file (keep (λ n. leb c.level n.level) ms))
        ∙ rw shown refl
    | inr hidden ↦
        ap (λ d. (log_all ms d).stderr) (log-hidden m c hidden)
        ∙ log_all-lines ms c
        ∙ rw hidden refl
  ]

  -- After a change of the level in a state whose flag fits its level, the messages that follow are
  -- written in order, those below the level are left out, and each line names its file exactly if
  -- the level is at most DEBUG.
  pub log_all-set_log_level :
      (lv : ℕ) (ms : List Message) (c : Console)
      → IsFlagged c
      → (log_all ms (set_log_level lv c)).stderr
        ≡ c.stderr ++ lines (leb lv debug) (keep (λ m. leb lv m.level) ms)
  log_all-set_log_level lv ms c h =
      log_all-lines ms (set_log_level lv c)
      ∙ rw (set_log_level-stderr lv c, set_log_level-level lv c, set_log_level-IsFlagged lv c h)
          refl
