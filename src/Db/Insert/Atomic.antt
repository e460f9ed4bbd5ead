-- ===== src/Db/Insert/Atomic.antt =====
-- Errors of `InsertOrUpdateHostFlows`.
use shawk.Prelude.{
  ◌+◌, ◌≡◌, ◌≢◌, ◌⊎◌, ◌∷◌, Bool-cases, Error, Outcome, ok, err, panics, ℕ, refl, inl, inr, true,
  List, [],
}
use shawk.Probe.{HostFlow}
use shawk.Db.Tables.{Tables, Postgres}
use shawk.Db.Session.{Session}
use shawk.Db.Insert.{insert_all, finish, insert_or_update_host_flows}

ok_not_err : {e : Error} {n : ℕ} → ok n ≢ err e
ok_not_err h = cc

module _ (pg : Postgres) (now : ℕ) where
  -- The tables are as before; or every statement up to the commit succeeded, it is the answer to the
  -- commit that failed, and the tables are those that the statements made.
  abbrev pub IsAllOrNothing : Session → Outcome ℕ × Session → Tables → Type 0
  IsAllOrNothing before statements after =
      (after ≡ before.tables)
      ⊎ ((n : ℕ) × (statements.0 ≡ ok n)
          × (pg.fails statements.1.answers ≡ true)
          × (after ≡ statements.1.tables))

  finish-atomic :
      (before : Session) (r : Outcome ℕ × Session) (e : Error)
      → (finish pg now before r).0 ≡ err e
      → IsAllOrNothing before r (finish pg now before r).1.tables
  unfolding finish
  finish-atomic before (ok n, s) e h = elim (Bool-cases (pg.fails s.answers)) [
    | inl fault ↦ elim (Bool-cases (pg.commits s.answers)) [
      | inl committed ↦ inr (n, refl, fault, rw (fault, committed) refl)
      | inr refused ↦ inl (rw (fault, refused) refl)
    ]
    | inr fine ↦ absurd (ok_not_err (rw (fine, finish) at h))
  ]
  finish-atomic before (err x, s) e h = inl refl
  finish-atomic before (panics, s) e h = inl refl

  -- After a call that returns an error, at whatever statement and for whatever cause, either every
  -- table is as it was, or only the answer to the commit failed, and the tables are what all the
  -- statements of the call make of them.
  pub insert_or_update_host_flows-atomic :
      (fs : List HostFlow) (s : Session) (e : Error)
      → (insert_or_update_host_flows pg now fs s).0 ≡ err e
      → IsAllOrNothing s
          (insert_all pg now fs (record s { answers = s.answers + 1 }))
          (insert_or_update_host_flows pg now fs s).1.tables
  unfolding insert_or_update_host_flows
  insert_or_update_host_flows-atomic [] s e h = inl refl
  insert_or_update_host_flows-atomic (f ∷ fs) s e h =
      let r = insert_all pg now (f ∷ fs) (record s { answers = s.answers + 1 }) in
      elim (Bool-cases (pg.fails s.answers)) [
        | inl fault ↦ inl (rw fault refl)
        | inr fine ↦ rw fine (finish-atomic s r e (rw fine at h))
      ]
