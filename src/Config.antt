-- ===== src/Config.antt =====
-- config/config.go: the configuration, which envconfig fills from the environment.
use shawk.Prelude.{
  ◌≡◌, ◌⊎◌, ◌||◌, ◌==◌, if◌then◌else◌, ◌>>=◌, format_error, Outcome, ok, err, panics, Text, codes,
  text_eq_iff, ℕ, Bool, arith, nat_eq, text_equality,
}

-- `config`; the intervals are nanoseconds.
pub record Config : Type 0 where
  pub cmdb_url : Text
  pub probe_mode : Text
  pub probe_interval : ℕ
  pub probe_flush_interval : ℕ
  pub debug : Bool

-- The `switch` on the mode.
supported_mode : Config → Outcome Config
supported_mode cfg =
    if cfg.probe_mode == codes "streaming" || cfg.probe_mode == codes "polling"
    then ok cfg
    else err format_error

-- `Load`, where `process` is `envconfig.Process("shawk", Config)` on the environment: what it makes
-- of `Config`, or its error.
unfoldable pub load : {E : Type 0} → (E → Outcome Config) → E → Outcome Config
unfolding supported_mode
load process env = do cfg ← process env; supported_mode cfg

supported_mode-modes :
    (r : Outcome Config) (cfg : Config)
    → (r >>= supported_mode) ≡ ok cfg
    → (cfg.probe_mode ≡ codes "streaming") ⊎ (cfg.probe_mode ≡ codes "polling")
unfolding supported_mode
supported_mode-modes (ok found) cfg h = ground (
  arith,
  text_eq_iff found.probe_mode (codes "streaming"),
  text_eq_iff found.probe_mode (codes "polling"),
)
supported_mode-modes (err e) cfg h = ground arith
supported_mode-modes panics cfg h = ground arith

-- The modes that `Load` accepts.
pub load-modes :
    {E : Type 0} (process : E → Outcome Config) (env : E) (cfg : Config)
    → load process env ≡ ok cfg
    → (cfg.probe_mode ≡ codes "streaming") ⊎ (cfg.probe_mode ≡ codes "polling")
unfolding load
load-modes process env cfg h = supported_mode-modes (process env) cfg h
