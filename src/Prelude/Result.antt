-- ===== src/Prelude/Result.antt =====
-- Go's error returns and panics as values.
use Prim.Native.Nat.{ℕ}

-- The error values that the code tells apart or returns: a `*netutil.NetlinkError`, an error that
-- a system call or another library returned, and an error on malformed input.
pub data Error : Type 0 where
  netlink_error : Error
  system_error : ℕ → Error
  format_error : Error

-- A call returns a value, returns an error, or panics.
pub data Outcome {ℓ} (A : Type ℓ) : Type ℓ where
  ok : A → Outcome A
  err : Error → Outcome A
  panics : Outcome A

infixl 5 ◌>>=◌
abbrev pub ◌>>=◌ {ℓ κ} : {A : Type ℓ} {B : Type κ} → Outcome A → (A → Outcome B) → Outcome B
ok a >>= f = f a
err e >>= f = err e
panics >>= f = panics
