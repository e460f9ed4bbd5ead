-- ===== src/Db/Insert/Succeeds.antt =====
-- `InsertOrUpdateHostFlows` returns without error on flows whose values the columns take.
use shawk.Prelude.{
  ◌+◌, ◌≡◌, ◌∷◌, ◌==◌, Bool-cases, All, Outcome, ok, err, panics, ℕ, refl, inl, inr, false, List,
  [], arith, nat_eq, text_equality,
}
use shawk.Probe.{HostFlow, flow_active, flow_passive}
use shawk.Db.Tables.{Postgres, IsPostgres}
use shawk.Db.Session.{Session, query}
use shawk.Db.Statements.{insert_processes}
use shawk.Db.Posts.{MadeProcess, insert_processes-Post}
use shawk.Db.Runs.{insert_processes-Runs}
use shawk.Db.Insert.{
  pgid_of, pname_of, is_local_flow, by_direction, insert_one, insert_all, finish,
  insert_or_update_host_flows,
}
use shawk.Db.Insert.Done.{Done-query}
use shawk.Db.Insert.Total.{IsOk, IsOk-bind, IsOk-query, IsQuiet}
use shawk.Db.Insert.Ahead.{IsAhead, processes-IsAhead, once-IsAhead, insert_one-IsAhead}
use shawk.Db.Insert.Edges.{LocalProcess}
use shawk.Db.Insert.Accepts.{IsStorable, insert_active-IsOk, insert_passive-IsOk}
use shawk.Db.Insert.Recorded.{insert_one-Done}

module _ (pg : Postgres) (law : IsPostgres pg) (quiet : IsQuiet pg) (now : ℕ) where
  by_direction-IsOk :
      (f : HostFlow) (pid : ℕ) (s : Session)
      → IsStorable pg f
      → IsAhead pg s
      → LocalProcess pg f pid s.tables
      → IsOk (by_direction pg now f pid s)
  unfolding by_direction
  by_direction-IsOk f pid s storable k p = elim (Bool-cases (f.direction == flow_passive)) [
    | inl passive ↦
        rw (passive, by_direction)
          (insert_passive-IsOk pg law quiet now f storable pid s k p
            (storable.local_port (ground arith)))
    | inr not_passive ↦ elim (Bool-cases (f.direction == flow_active)) [
      | inl active ↦
          rw (not_passive, by_direction, active)
            (insert_active-IsOk pg law quiet now f storable pid s k p
              (storable.peer_port (ground arith)))
      | inr other ↦ rw (not_passive, by_direction, other) tt
    ]
  ]

  insert_one-IsOk :
      (f : HostFlow) (s : Session) → IsStorable pg f → IsAhead pg s → IsOk (insert_one pg now f s)
  unfolding insert_one
  insert_one-IsOk f s storable k =
      let run = insert_processes pg now f.local.addr (pgid_of f.process) (pname_of f.process) in
      let s' = record s { answers = s.answers + 1 } in
      let post =
        insert_processes-Post pg now f.local.addr (pgid_of f.process) (pname_of f.process) s' in
      IsOk-bind (IsAhead pg)
        (MadeProcess now pg f.local.addr (pgid_of f.process) (pname_of f.process) s.tables)
        (query pg run) (λ local_process. by_direction pg now f local_process) s
        (Done-query pg _ run s post)
        (once-IsAhead pg now _
          (processes-IsAhead pg now f.local.addr (pgid_of f.process) (pname_of f.process)) s k)
        (IsOk-query pg _ run s quiet post (
          insert_processes-Runs pg now f.local.addr storable.local_ip (pgid_of f.process)
            (pname_of f.process) s' storable.local_address storable.process_fits k))
        λ pid u j (g, ip, good, is).
          by_direction-IsOk f pid u storable j (record { ip = ip; address = good; found = is })

  insert_all-IsOk :
      (fs : List HostFlow) (s : Session)
      → All (λ f. is_local_flow f ≡ false → IsStorable pg f) fs
      → IsAhead pg s
      → IsOk (insert_all pg now fs s)
  unfolding insert_all
  insert_all-IsOk [] s h k = tt
  insert_all-IsOk (f ∷ fs) s (storable, h) k = elim (Bool-cases (is_local_flow f)) [
    | inl skipped ↦ rw skipped (insert_all-IsOk fs s h k)
    | inr counted ↦ rw counted (
        IsOk-bind (IsAhead pg) _ (insert_one pg now f) (λ _. insert_all pg now fs) s
          (insert_one-Done pg law now f s) (insert_one-IsAhead pg now f s k)
          (insert_one-IsOk f s (storable counted) k) λ n u j x. insert_all-IsOk fs u h j)
  ]

  finish-ok :
      (before : Session) (r : Outcome ℕ × Session) → IsOk r → (finish pg now before r).0 ≡ ok 0
  unfolding finish
  finish-ok before (ok n, s) h = rw (quiet.no_failure s.answers, finish) refl
  finish-ok before (err e, s) h = absurd h
  finish-ok before (panics, s) h = absurd h

  -- On a server that answers a search with one of its rows and never fails by itself, on tables that
  -- meet the constraints PRIMARY KEY and CHECK and whose numbers are not above their sequences, a
  -- batch in which the columns take the values of every flow without a loopback address is inserted
  -- without error.
  pub insert_or_update_host_flows-ok :
      (fs : List HostFlow) (s : Session)
      → All (λ f. is_local_flow f ≡ false → IsStorable pg f) fs
      → IsAhead pg s
      → (insert_or_update_host_flows pg now fs s).0 ≡ ok 0
  unfolding insert_or_update_host_flows
  insert_or_update_host_flows-ok [] s h k = refl
  insert_or_update_host_flows-ok (f ∷ fs) s h k =
      let begun = record s { answers = s.answers + 1 } in
      rw (quiet.no_failure s.answers, insert_or_update_host_flows)
        (finish-ok s (insert_all pg now (f ∷ fs) begun) (insert_all-IsOk (f ∷ fs) begun h k))
