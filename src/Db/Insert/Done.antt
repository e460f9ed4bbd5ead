-- ===== src/Db/Insert/Done.antt =====
-- Rules for what an action on the database has established when it returns.
use shawk.Prelude.{◌+◌, Bool-cases, Outcome, ok, err, panics, ℕ, inl, inr}
use shawk.Db.Tables.{Tables, Postgres}
use shawk.Db.Session.{
  Session, Answer, Act, ◌>>=◌, statement, query_or, query, answer, row, no_rows, query_error,
  continue,
}
use shawk.Db.Posts.{Post, Never}

-- What holds if an action returns.
abbrev pub Done : {A : Type 0} → (A → Tables → Type 0) → Outcome A × Session → Type 0
Done P (ok a, s) = P a s.tables
Done P (err e, s) = Unit
Done P (panics, s) = Unit

pub Done-bind :
    {A B : Type 0} (P : A → Tables → Type 0) (Q : B → Tables → Type 0) (m : Act A) (f : A → Act B)
    (s : Session)
    → Done P (m s)
    → ((a : A) (u : Session) → P a u.tables → Done Q (f a u))
    → Done Q ((m >>= f) s)
unfolding ◌>>=◌
Done-bind {A} {B} P Q m f s h k = let (r, s') = m s in go r s' h
  where
    go : (r : Outcome A) (u : Session) → Done P (r, u) → Done Q (continue r f u)
    go (ok a) u x = k a u x
    go (err e) u x = tt
    go panics u x = tt

pub Done-answer :
    (P : ℕ → Tables → Type 0) (R : Tables → Type 0) (fallback : Act ℕ) (a : Answer × Session)
    → Post P R a
    → ((u : Session) → R u.tables → Done P (fallback u))
    → Done P (answer fallback a)
unfolding answer
Done-answer P R fallback (row n, s) h k = h
Done-answer P R fallback (no_rows, s) h k = k s h
Done-answer P R fallback (query_error, s) h k = tt

Post-statement :
    (pg : Postgres) (P : ℕ → Tables → Type 0) (R : Tables → Type 0)
    (run : Session → Answer × Session) (s : Session)
    → Post P R (run (record s { answers = s.answers + 1 }))
    → Post P R (statement pg run s)
unfolding statement
Post-statement pg P R run s h = elim (Bool-cases (pg.fails s.answers)) [
  | inl fault ↦ rw (fault, statement) tt
  | inr fine ↦ rw (fine, statement) h
]

-- A query whose answer without rows has a second try.
pub Done-query_or :
    (pg : Postgres) (P : ℕ → Tables → Type 0) (R : Tables → Type 0)
    (run : Session → Answer × Session) (fallback : Act ℕ) (s : Session)
    → Post P R (run (record s { answers = s.answers + 1 }))
    → ((u : Session) → R u.tables → Done P (fallback u))
    → Done P (query_or pg run fallback s)
unfolding query_or
Done-query_or pg P R run fallback s h k =
    Done-answer P R fallback (statement pg run s) (Post-statement pg P R run s h) k

-- An insertion always answers with a row, so the code's second try is never made.
pub Done-insertion :
    (pg : Postgres) (P : ℕ → Tables → Type 0) (run : Session → Answer × Session) (fallback : Act ℕ)
    (s : Session)
    → Post P Never (run (record s { answers = s.answers + 1 }))
    → Done P (query_or pg run fallback s)
Done-insertion pg P run fallback s h = Done-query_or pg P Never run fallback s h (λ u x. absurd x)

pub Done-query :
    (pg : Postgres) (P : ℕ → Tables → Type 0) (run : Session → Answer × Session) (s : Session)
    → Post P Never (run (record s { answers = s.answers + 1 }))
    → Done P (query pg run s)
unfolding query
Done-query pg P run s h = Done-insertion pg P run _ s h

pub Done-map :
    {A : Type 0} (P Q : A → Tables → Type 0) (r : Outcome A × Session)
    → Done P r
    → ((a : A) (t : Tables) → P a t → Q a t)
    → Done Q r
Done-map P Q (ok a, s) h k = k a s.tables h
Done-map P Q (err e, s) h k = tt
Done-map P Q (panics, s) h k = tt
