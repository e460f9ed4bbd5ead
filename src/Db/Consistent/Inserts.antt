-- ===== src/Db/Consistent/Inserts.antt =====
-- The statements of db.go keep the constraints of the schema.
use shawk.Prelude.{
  ◌+◌, ◌≡◌, ◌∙◌, ◌&&◌, ◌∷◌, ◌++◌, ◌==◌, ltb, Bool-cases, Option-cases, any, any-append_left, All,
  Text, text_eq_iff, nat_eq, ℕ, refl, inl, inr, Bool, true, false, List, [], arith, text_equality,
}
use shawk.Probe.Keys.{All-append}
use shawk.Db.Tables.{ProcessRow, FlowRow, Tables, Postgres}
use shawk.Db.Session.{Session, Answer}
use shawk.Db.Statements.{
  fits_name, unless_taken, insert_active_nodes, fits_integer, same_process, find_process,
  touch_process, write_process, insert_processes, has_process, find_active, write_active,
  find_passive, write_passive, insert_passive_nodes, same_edge, set_connections, write_flow,
  insert_flows,
}
use shawk.Db.Grows.{any-touch_process}
use shawk.Db.Consistent.{
  HasEnds, IsConsistent, with_processes, with_active, with_passive, with_flows,
}
use shawk.Db.Consistent.Keys.{
  count-touch_process, count-set_connections, process_added, active_added, passive_added,
  flow_added,
}

IsConsistent-unless :
    (taken : Bool) (s : Session) (a : Answer × Session)
    → IsConsistent s.tables
    → IsConsistent a.1.tables
    → IsConsistent (unless_taken taken s a).1.tables
unfolding unless_taken
IsConsistent-unless true s a c d = c
IsConsistent-unless false s a c d = d

has_process-append :
    (id : ℕ) (ps : List ProcessRow) (p : ProcessRow)
    → has_process id ps ≡ true
    → has_process id (ps ++ p ∷ []) ≡ true
unfolding has_process
has_process-append id ps p h = any-append_left (λ q. q.process_id == id) ps (p ∷ []) h

has_process-touch_process :
    (now at id : ℕ) (ps : List ProcessRow)
    → has_process id ps ≡ true
    → has_process id (touch_process now at ps) ≡ true
unfolding has_process
has_process-touch_process now at id ps h =
    any-touch_process now at ps (λ q. q.process_id == id) (λ p n. refl) ∙ h

same_process-itself : (p : ProcessRow) → same_process p.ipv4 p.pgid p.pname p ≡ true
unfolding same_process
same_process-itself p =
    ground
      (arith, text_eq_iff p.ipv4 p.ipv4, text_eq_iff p.pname p.pname, nat_eq.beq_iff p.pgid p.pgid)

write_process-IsConsistent :
    (now : ℕ) (ip : Text) (pgid : ℕ) (pname : Text) (s : Session)
    → IsConsistent s.tables
    → IsConsistent (write_process now ip pgid pname s).1.tables
unfolding write_process
write_process-IsConsistent now ip pgid pname s c =
    let p : ProcessRow = record {
      process_id = s.sequences.process_seq + 1;
      ipv4 = ip;
      pgid = pgid;
      pname = pname;
      created = now;
      updated = now;
    } in
    elim (Option-cases (find_process ip pgid pname s.tables.processes)) [
      | inl new ↦
          rw (new, write_process)
            (with_processes s.tables (s.tables.processes ++ p ∷ []) c
              (process_added ip pgid pname s.tables.processes p c.process_key new
                (same_process-itself p))
              (λ id. has_process-append id s.tables.processes p))
      | inr (id, old) ↦
          rw (old, write_process)
            (with_processes s.tables _ c
              (λ i g n.
                rw (count-touch_process now id i g n s.tables.processes) (c.process_key i g n))
              (λ j. has_process-touch_process now id j s.tables.processes))
    ]

pub insert_processes-IsConsistent :
    (pg : Postgres) (now : ℕ) (ipv4 : Text) (pgid : ℕ) (pname : Text) (s : Session)
    → IsConsistent s.tables
    → IsConsistent (insert_processes pg now ipv4 pgid pname s).1.tables
unfolding insert_processes
insert_processes-IsConsistent pg now ipv4 pgid pname s c = elim (Option-cases (pg.to_inet ipv4)) [
  | inl bad ↦ rw (bad, insert_processes) c
  | inr (ip, good) ↦ elim (Bool-cases (fits_integer pgid && fits_name pg pname)) [
    | inl fits ↦
        rw (good, insert_processes, fits)
          (IsConsistent-unless _ _ _ c (write_process-IsConsistent now ip pgid pname s c))
    | inr no_fit ↦ rw (good, insert_processes, no_fit) c
  ]
]

write_active-IsConsistent :
    (pid : ℕ) (s : Session) → IsConsistent s.tables → IsConsistent (write_active pid s).1.tables
unfolding write_active
write_active-IsConsistent pid s c = elim (Bool-cases (has_process pid s.tables.processes)) [
  | inl known ↦ elim (Option-cases (find_active pid s.tables.active_nodes)) [
    | inl new ↦
        rw (known, new)
          (with_active s.tables _ c (active_added pid s.tables.active_nodes _ c.active_key new refl)
            known)
    | inr (id, old) ↦ rw (known, old) c
  ]
  | inr unknown ↦ rw unknown c
]

pub insert_active_nodes-IsConsistent :
    (pid : ℕ) (s : Session)
    → IsConsistent s.tables
    → IsConsistent (insert_active_nodes pid s).1.tables
unfolding insert_active_nodes
insert_active_nodes-IsConsistent pid s c =
    IsConsistent-unless _ _ _ c (write_active-IsConsistent pid s c)

write_passive-IsConsistent :
    (pid port : ℕ) (s : Session)
    → IsConsistent s.tables
    → IsConsistent (write_passive pid port s).1.tables
unfolding write_passive
write_passive-IsConsistent pid port s c = elim (Bool-cases (has_process pid s.tables.processes)) [
  | inl known ↦ elim (Option-cases (find_passive pid port s.tables.passive_nodes)) [
    | inl new ↦
        rw (known, new)
          (with_passive s.tables _ c
            (passive_added pid port s.tables.passive_nodes _ c.passive_key new refl refl) known)
    | inr (id, old) ↦ rw (known, old) c
  ]
  | inr unknown ↦ rw unknown c
]

pub insert_passive_nodes-IsConsistent :
    (pg : Postgres) (pid : ℕ) (port : Text) (s : Session)
    → IsConsistent s.tables
    → IsConsistent (insert_passive_nodes pg pid port s).1.tables
unfolding insert_passive_nodes
insert_passive_nodes-IsConsistent pg pid port s c = elim (Option-cases (pg.to_integer port)) [
  | inl bad ↦ rw (bad, insert_passive_nodes) c
  | inr (p, good) ↦ elim (Bool-cases (ltb 0 p && fits_integer p)) [
    | inl fits ↦
        rw (good, insert_passive_nodes, fits)
          (IsConsistent-unless _ _ _ c (write_passive-IsConsistent pid p s c))
    | inr no_fit ↦ rw (good, insert_passive_nodes, no_fit) c
  ]
]

-- New numbers and times leave the ends of the flows.
set_connections-HasEnds :
    (t : Tables) (now a b connections : ℕ) (fs : List FlowRow)
    → All (HasEnds t) fs
    → All (HasEnds t) (set_connections now a b connections fs)
unfolding set_connections
set_connections-HasEnds t now a b connections [] h = tt
set_connections-HasEnds t now a b connections (f ∷ fs) h =
    let rest = set_connections-HasEnds t now a b connections fs h.1 in
    elim (Bool-cases (same_edge a b f)) [
      | inl same ↦ rw same (h.0, rest)
      | inr other ↦ rw other (h.0, rest)
    ]

write_flow-IsConsistent :
    (now source destination connections : ℕ) (s : Session)
    → IsConsistent s.tables
    → any (λ n. n.node_id == source) s.tables.active_nodes ≡ true
    → any (λ n. n.node_id == destination) s.tables.passive_nodes ≡ true
    → IsConsistent (write_flow now source destination connections s).1.tables
unfolding write_flow
write_flow-IsConsistent now source destination connections s c from to =
    elim (Bool-cases (any (same_edge source destination) s.tables.flows)) [
      | inl old ↦ rw old (
          with_flows s.tables _ c
            (λ i j.
              rw (count-set_connections now source destination connections i j s.tables.flows)
                (c.flow_key i j))
            (set_connections-HasEnds s.tables now source destination connections s.tables.flows
              c.flow_refs))
      | inr new ↦ rw new (
          with_flows s.tables _ c
            (flow_added source destination s.tables.flows _ c.flow_key new refl refl)
            (All-append _ s.tables.flows _ c.flow_refs ((from, to), tt)))
    ]

pub insert_flows-IsConsistent :
    (now source destination connections : ℕ) (s : Session)
    → IsConsistent s.tables
    → IsConsistent (insert_flows now source destination connections s).1.tables
unfolding insert_flows
insert_flows-IsConsistent now source destination connections s c =
    let active = any (λ n. n.node_id == source) s.tables.active_nodes in
    let passive = any (λ n. n.node_id == destination) s.tables.passive_nodes in
    elim (Bool-cases (ltb 0 connections && fits_integer connections && active && passive)) [
      | inl fits ↦ rw fits (
          IsConsistent-unless _ _ _ c (
            write_flow-IsConsistent now source destination connections s c (ground arith)
              (ground arith)))
      | inr no_fit ↦ rw no_fit c
    ]
