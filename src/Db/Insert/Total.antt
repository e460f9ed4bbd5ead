-- ===== src/Db/Insert/Total.antt =====
-- When `InsertOrUpdateHostFlows` returns without error.
use shawk.Prelude.{◌+◌, ◌≡◌, Outcome, ok, err, panics, ℕ, true, false, []}
use shawk.Db.Tables.{Tables, Postgres}
use shawk.Db.Session.{
  Session, Answer, Act, ◌>>=◌, statement, query_or, query, answer, row, no_rows, query_error,
  continue,
}
use shawk.Db.Posts.{Post, Never}
use shawk.Db.Runs.{Runs}
use shawk.Db.Statements.{fits_name}
use shawk.Db.Insert.Done.{Done}

abbrev pub IsOk : {A : Type 0} → Outcome A × Session → Type 0
IsOk (ok a, s) = Unit
IsOk (err e, s) = ⊥
IsOk (panics, s) = ⊥

-- `J` is what both actions keep.
pub IsOk-bind :
    {A B : Type 0} (J : Session → Type 0) (P : A → Tables → Type 0) (m : Act A) (f : A → Act B)
    (s : Session)
    → Done P (m s)
    → J (m s).1
    → IsOk (m s)
    → ((a : A) (u : Session) → J u → P a u.tables → IsOk (f a u))
    → IsOk ((m >>= f) s)
unfolding ◌>>=◌
IsOk-bind {A} {B} J P m f s h j fine k = let (r, s') = m s in go r s' h j fine
  where
    go : (r : Outcome A) (u : Session) → Done P (r, u) → J u → IsOk (r, u) → IsOk (continue r f u)
    go (ok a) u x j y = k a u j x
    go (err e) u x j y = absurd y
    go panics u x j y = absurd y

-- No answer is a failure that the statement does not explain, and the empty text is a name.
pub record IsQuiet (pg : Postgres) : Type 0 where
  pub no_failure : (n : ℕ) → pg.fails n ≡ false
  pub empty_name : fits_name pg [] ≡ true

IsOk-answer :
    (J : Session → Type 0) (P : ℕ → Tables → Type 0) (R : Tables → Type 0) (fallback : Act ℕ)
    (a : Answer × Session)
    → Post P R a
    → J a.1
    → Runs a
    → ((u : Session) → J u → R u.tables → IsOk (fallback u))
    → IsOk (answer fallback a)
unfolding answer
IsOk-answer J P R fallback (row n, s) h j r k = tt
IsOk-answer J P R fallback (no_rows, s) h j r k = k s j h
IsOk-answer J P R fallback (query_error, s) h j r k = absurd r

pub IsOk-query_or :
    (J : Session → Type 0) (pg : Postgres) (P : ℕ → Tables → Type 0) (R : Tables → Type 0)
    (run : Session → Answer × Session) (fallback : Act ℕ) (s : Session)
    → IsQuiet pg
    → Post P R (run (record s { answers = s.answers + 1 }))
    → J (run (record s { answers = s.answers + 1 })).1
    → Runs (run (record s { answers = s.answers + 1 }))
    → ((u : Session) → J u → R u.tables → IsOk (fallback u))
    → IsOk (query_or pg run fallback s)
unfolding query_or statement
IsOk-query_or J pg P R run fallback s quiet h j r k =
    rw (quiet.no_failure s.answers, query_or)
      (IsOk-answer J P R fallback (run (record s { answers = s.answers + 1 })) h j r k)

pub IsOk-query :
    (pg : Postgres) (P : ℕ → Tables → Type 0) (run : Session → Answer × Session) (s : Session)
    → IsQuiet pg
    → Post P Never (run (record s { answers = s.answers + 1 }))
    → Runs (run (record s { answers = s.answers + 1 }))
    → IsOk (query pg run s)
unfolding query
IsOk-query pg P run s quiet h r =
    IsOk-query_or (λ s. Unit) pg P Never run _ s quiet h tt r (λ u j x. absurd x)
