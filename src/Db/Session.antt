-- ===== src/Db/Session.antt =====
-- A database session: statements in order, each of which may fail.
use shawk.Prelude.{◌+◌, if◌then◌else◌, system_error, Outcome, ok, err, panics, ℕ}
use shawk.Db.Tables.{Tables, Sequences, Postgres}

-- The state behind a connection: the tables, the sequences, and the number of answers so far.
pub record Session : Type 0 where
  pub tables : Tables
  pub sequences : Sequences
  pub answers : ℕ

-- What `QueryRow(...).Scan` gives: a value, `pgx.ErrNoRows`, or another error.
pub data Answer : Type 0 where
  row : ℕ → Answer
  no_rows query_error : Answer

-- A computation on the session. An error keeps the state, for the caller to roll back.
abbrev pub Act : Type 0 → Type 0
Act A = Session → Outcome A × Session

infixl 5 ◌>>=◌ ◌>>◌
abbrev pub continue : {A B : Type 0} → Outcome A → (A → Act B) → Act B
continue (ok a) f s = f a s
continue (err e) f s = (err e, s)
continue panics f s = (panics, s)

unfoldable pub ◌>>=◌ : {A B : Type 0} → Act A → (A → Act B) → Act B
◌>>=◌ m f s = let (r, s') = m s in continue r f s'

abbrev pub ◌>>◌ : {A B : Type 0} → Act A → Act B → Act B
m >> k = m >>= λ _. k

abbrev pub pure : {A : Type 0} → A → Act A
pure a s = (ok a, s)

abbrev pub raise : {A : Type 0} → Act A
raise s = (err (system_error 3), s)

-- One statement: it fails as the server decides, or runs.
unfoldable pub statement : Postgres → (Session → Answer × Session) → Session → Answer × Session
statement pg run s =
    let s' = record s { answers = s.answers + 1 } in
    if pg.fails s.answers then (query_error, s') else run s'

unfoldable pub answer : Act ℕ → Answer × Session → Outcome ℕ × Session
answer fallback (row n, s) = (ok n, s)
answer fallback (no_rows, s) = fallback s
answer fallback (query_error, s) = (err (system_error 3), s)

-- `switch { case err == pgx.ErrNoRows: fallback; case err != nil: return err }`
unfoldable pub query_or : Postgres → (Session → Answer × Session) → Act ℕ → Act ℕ
unfolding answer statement
query_or pg run fallback s = answer fallback (statement pg run s)

-- `if err != nil { return err }`
unfoldable pub query : Postgres → (Session → Answer × Session) → Act ℕ
unfolding query_or
query pg run = query_or pg run raise
