-- ===== src/Db/Consistent/SoundInserts.antt =====
-- The statements of db.go keep the constraints PRIMARY KEY and CHECK, and the type of `pname`.
use shawk.Prelude.{
  ◌+◌, ◌≡◌, ◌&&◌, ◌==◌, ltb, Bool-cases, Option-cases, any, Text, ℕ, refl, inl, inr, Bool, true,
  false, arith, nat_eq, text_equality,
}
use shawk.Probe.Keys.{All-append}
use shawk.Db.Tables.{Sequences, Postgres}
use shawk.Db.Session.{Session, Answer}
use shawk.Db.Statements.{
  fits_name, unless_taken, insert_active_nodes, fits_integer, find_process, touch_process,
  write_process, insert_processes, has_process, find_active, write_active, find_passive,
  write_passive, insert_passive_nodes, same_edge, set_connections, write_flow, insert_flows,
}
use shawk.Db.Consistent.Numbers.{IsNumbered-le, IsNumbered-same, IsNumbered-added}
use shawk.Db.Consistent.Sound.{
  Advances, Advances-trans, IsSound-Advances, SoundSince, ids-touch_process, touch_process-takes,
  ids-set_connections, set_connections-takes,
}

module _ (pg : Postgres) (q : Sequences) where
  SoundSince-unless :
      (taken : Bool) (s u : Session) (a : Answer × Session)
      → u.tables ≡ s.tables
      → Advances s.sequences u.sequences
      → SoundSince pg q s
      → SoundSince pg q a.1
      → SoundSince pg q (unless_taken taken u a).1
  unfolding unless_taken
  SoundSince-unless true s u a same step (k, later) d = (
    rw same (IsSound-Advances pg s.tables s.sequences u.sequences step k),
    Advances-trans later step,
  )
  SoundSince-unless false s u a same step c d = d

  write_process-SoundSince :
      (now : ℕ) (ip : Text) (pgid : ℕ) (pname : Text) (s : Session)
      → (fits_integer pgid && fits_name pg pname) ≡ true
      → SoundSince pg q s
      → SoundSince pg q (write_process now ip pgid pname s).1
  unfolding write_process
  write_process-SoundSince now ip pgid pname s fits (k, a) =
      let ps = s.tables.processes in
      let last = s.sequences.process_seq in
      let on : Sequences = record s.sequences { process_seq = last + 1 } in
      let later : Advances q on = record {
        process_seq = omega (arith, a.process_seq);
        active_seq = a.active_seq;
        passive_seq = a.passive_seq;
        flow_seq = a.flow_seq;
      } in
      elim (Option-cases (find_process ip pgid pname ps)) [
        | inl new ↦
            rw (new, write_process)
              (
                record {
                  process_ids = IsNumbered-added _ last ps _ refl k.process_ids;
                  active_ids = k.active_ids;
                  passive_ids = k.passive_ids;
                  flow_ids = k.flow_ids;
                  process_checks = All-append _ ps _ k.process_checks (fits, tt);
                  passive_checks = k.passive_checks;
                  flow_checks = k.flow_checks;
                },
                later,
              )
        | inr (id, old) ↦
            rw (old, write_process)
              (
                record {
                  process_ids =
                      IsNumbered-le _ last (last + 1) (touch_process now id ps) (omega arith) (
                        IsNumbered-same _ last ps (touch_process now id ps)
                          (ids-touch_process now id ps) k.process_ids);
                  active_ids = k.active_ids;
                  passive_ids = k.passive_ids;
                  flow_ids = k.flow_ids;
                  process_checks = touch_process-takes pg now id ps k.process_checks;
                  passive_checks = k.passive_checks;
                  flow_checks = k.flow_checks;
                },
                later,
              )
      ]

  pub insert_processes-SoundSince :
      (now : ℕ) (ipv4 : Text) (pgid : ℕ) (pname : Text) (s : Session)
      → SoundSince pg q s
      → SoundSince pg q (insert_processes pg now ipv4 pgid pname s).1
  unfolding insert_processes
  insert_processes-SoundSince now ipv4 pgid pname s k = elim (Option-cases (pg.to_inet ipv4)) [
    | inl bad ↦ rw (bad, insert_processes) k
    | inr (ip, good) ↦ elim (Bool-cases (fits_integer pgid && fits_name pg pname)) [
      | inl fits ↦
          rw (good, insert_processes, fits)
            (SoundSince-unless _ s _ _ refl
              (record {
                process_seq = omega arith;
                active_seq = omega arith;
                passive_seq = omega arith;
                flow_seq = omega arith;
              })
              k (write_process-SoundSince now ip pgid pname s fits k))
      | inr no_fit ↦ rw (good, insert_processes, no_fit) k
    ]
  ]

  write_active-SoundSince :
      (pid : ℕ) (s : Session) → SoundSince pg q s → SoundSince pg q (write_active pid s).1
  unfolding write_active
  write_active-SoundSince pid s (k, a) =
      let ns = s.tables.active_nodes in
      let last = s.sequences.active_seq in
      let on : Sequences = record s.sequences { active_seq = last + 1 } in
      let step : Advances s.sequences on = record {
        process_seq = omega arith;
        active_seq = omega arith;
        passive_seq = omega arith;
        flow_seq = omega arith;
      } in
      let kept = IsSound-Advances pg s.tables s.sequences on step k in
      let later = Advances-trans a step in
      elim (Bool-cases (has_process pid s.tables.processes)) [
        | inr unknown ↦ rw unknown (kept, later)
        | inl known ↦ elim (Option-cases (find_active pid ns)) [
          | inr (id, old) ↦ rw (known, old) (kept, later)
          | inl new ↦
              rw (known, new)
                (
                  record {
                    process_ids = k.process_ids;
                    active_ids = IsNumbered-added _ last ns _ refl k.active_ids;
                    passive_ids = k.passive_ids;
                    flow_ids = k.flow_ids;
                    process_checks = k.process_checks;
                    passive_checks = k.passive_checks;
                    flow_checks = k.flow_checks;
                  },
                  later,
                )
        ]
      ]

  pub insert_active_nodes-SoundSince :
      (pid : ℕ) (s : Session) → SoundSince pg q s → SoundSince pg q (insert_active_nodes pid s).1
  unfolding insert_active_nodes
  insert_active_nodes-SoundSince pid s k =
      SoundSince-unless _ s _ _ refl
        (record {
          process_seq = omega arith;
          active_seq = omega arith;
          passive_seq = omega arith;
          flow_seq = omega arith;
        })
        k (write_active-SoundSince pid s k)

  write_passive-SoundSince :
      (pid port : ℕ) (s : Session)
      → (ltb 0 port && fits_integer port) ≡ true
      → SoundSince pg q s
      → SoundSince pg q (write_passive pid port s).1
  unfolding write_passive
  write_passive-SoundSince pid port s fits (k, a) =
      let ns = s.tables.passive_nodes in
      let last = s.sequences.passive_seq in
      let on : Sequences = record s.sequences { passive_seq = last + 1 } in
      let step : Advances s.sequences on = record {
        process_seq = omega arith;
        active_seq = omega arith;
        passive_seq = omega arith;
        flow_seq = omega arith;
      } in
      let kept = IsSound-Advances pg s.tables s.sequences on step k in
      let later = Advances-trans a step in
      elim (Bool-cases (has_process pid s.tables.processes)) [
        | inr unknown ↦ rw unknown (kept, later)
        | inl known ↦ elim (Option-cases (find_passive pid port ns)) [
          | inr (id, old) ↦ rw (known, old) (kept, later)
          | inl new ↦
              rw (known, new)
                (
                  record {
                    process_ids = k.process_ids;
                    active_ids = k.active_ids;
                    passive_ids = IsNumbered-added _ last ns _ refl k.passive_ids;
                    flow_ids = k.flow_ids;
                    process_checks = k.process_checks;
                    passive_checks = All-append _ ns _ k.passive_checks (fits, tt);
                    flow_checks = k.flow_checks;
                  },
                  later,
                )
        ]
      ]

  pub insert_passive_nodes-SoundSince :
      (pid : ℕ) (port : Text) (s : Session)
      → SoundSince pg q s
      → SoundSince pg q (insert_passive_nodes pg pid port s).1
  unfolding insert_passive_nodes
  insert_passive_nodes-SoundSince pid port s k = elim (Option-cases (pg.to_integer port)) [
    | inl bad ↦ rw (bad, insert_passive_nodes) k
    | inr (p, good) ↦ elim (Bool-cases (ltb 0 p && fits_integer p)) [
      | inl fits ↦
          rw (good, insert_passive_nodes, fits)
            (SoundSince-unless _ s _ _ refl
              (record {
                process_seq = omega arith;
                active_seq = omega arith;
                passive_seq = omega arith;
                flow_seq = omega arith;
              })
              k (write_passive-SoundSince pid p s fits k))
      | inr no_fit ↦ rw (good, insert_passive_nodes, no_fit) k
    ]
  ]

  write_flow-SoundSince :
      (now source destination connections : ℕ) (s : Session)
      → (ltb 0 connections && fits_integer connections) ≡ true
      → SoundSince pg q s
      → SoundSince pg q (write_flow now source destination connections s).1
  unfolding write_flow
  write_flow-SoundSince now source destination connections s fits (k, a) =
      let fs = s.tables.flows in
      let last = s.sequences.flow_seq in
      let set = set_connections now source destination connections fs in
      let on : Sequences = record s.sequences { flow_seq = last + 1 } in
      let later : Advances q on = record {
        process_seq = a.process_seq;
        active_seq = a.active_seq;
        passive_seq = a.passive_seq;
        flow_seq = omega (arith, a.flow_seq);
      } in
      elim (Bool-cases (any (same_edge source destination) fs)) [
        | inl old ↦ rw old (
          record {
            process_ids = k.process_ids;
            active_ids = k.active_ids;
            passive_ids = k.passive_ids;
            flow_ids = IsNumbered-le _ last (last + 1) set (omega arith) (
                IsNumbered-same _ last fs set
                  (ids-set_connections now source destination connections fs) k.flow_ids);
            process_checks = k.process_checks;
            passive_checks = k.passive_checks;
            flow_checks =
                set_connections-takes now source destination connections fs fits k.flow_checks;
          },
          later,
        )
        | inr new ↦ rw new (
          record {
            process_ids = k.process_ids;
            active_ids = k.active_ids;
            passive_ids = k.passive_ids;
            flow_ids = IsNumbered-added _ last fs _ refl k.flow_ids;
            process_checks = k.process_checks;
            passive_checks = k.passive_checks;
            flow_checks = All-append _ fs _ k.flow_checks (fits, tt);
          },
          later,
        )
      ]

  pub insert_flows-SoundSince :
      (now source destination connections : ℕ) (s : Session)
      → SoundSince pg q s
      → SoundSince pg q (insert_flows now source destination connections s).1
  unfolding insert_flows
  insert_flows-SoundSince now source destination connections s k =
      let active = any (λ n. n.node_id == source) s.tables.active_nodes in
      let passive = any (λ n. n.node_id == destination) s.tables.passive_nodes in
      elim (Bool-cases (ltb 0 connections && fits_integer connections && active && passive)) [
        | inl fits ↦ rw fits (
            SoundSince-unless _ s _ _ refl
              (record {
                process_seq = omega arith;
                active_seq = omega arith;
                passive_seq = omega arith;
                flow_seq = omega arith;
              })
              k (write_flow-SoundSince now source destination connections s (ground arith) k))
        | inr no_fit ↦ rw no_fit k
      ]
