-- ===== src/Db/Runs.antt =====
-- When a statement of db.go does not fail.
use shawk.Prelude.{
  ◌≡◌, ◌&&◌, ◌==◌, ltb, Bool-cases, Option-cases, any, any_mono, Text, ℕ, inl, inr, Bool, true,
  false, some, List, arith, nat_eq, text_equality,
}
use shawk.Db.Tables.{Tables, Postgres}
use shawk.Db.Session.{Session, Answer, row, no_rows, query_error}
use shawk.Db.Statements.{
  skip_process, skip_active, skip_passive, skip_flow, fits_name, unless_taken, process_taken,
  active_taken, passive_taken, flow_taken, insert_active_nodes, fits_integer, first_row,
  same_process, find_process, write_process, insert_processes, has_process, find_active,
  write_active, find_passive, write_passive, insert_passive_nodes, active_rows, find_active_nodes,
  passive_rows, find_passive_nodes, same_edge, write_flow, insert_flows,
}
use shawk.Db.Consistent.Sound.{IsSound}
use shawk.Db.Consistent.Numbers.{IsNumbered-free}
use shawk.Db.Grows.{process_is, active_is, passive_is}

-- An answer that is not an error.
abbrev pub Runs : Answer × Session → Type 0
Runs (row n, s) = Unit
Runs (no_rows, s) = Unit
Runs (query_error, s) = ⊥

pub has_process_of_process_is :
    (id : ℕ) (ip : Text) (pgid : ℕ) (pname : Text) (t : Tables)
    → process_is id ip pgid pname t ≡ true
    → has_process id t.processes ≡ true
unfolding process_is has_process
has_process_of_process_is id ip pgid pname t h =
    any_mono (λ p. p.process_id == id && same_process ip pgid pname p) (λ p. p.process_id == id)
      t.processes (λ p e. ground arith) h

pub has_active_of_active_is :
    (id pid : ℕ) (t : Tables)
    → active_is id pid t ≡ true
    → any (λ n. n.node_id == id) t.active_nodes ≡ true
unfolding active_is
has_active_of_active_is id pid t h =
    any_mono (λ n. n.node_id == id && n.process_id == pid) (λ n. n.node_id == id) t.active_nodes
      (λ n e. ground arith) h

pub has_passive_of_passive_is :
    (id pid port : ℕ) (t : Tables)
    → passive_is id pid port t ≡ true
    → any (λ n. n.node_id == id) t.passive_nodes ≡ true
unfolding passive_is
has_passive_of_passive_is id pid port t h =
    any_mono (λ n. n.node_id == id && n.process_id == pid && n.port == port) (λ n. n.node_id == id)
      t.passive_nodes (λ n e. ground arith) h

Runs-unless :
    (taken : Bool) (s : Session) (a : Answer × Session)
    → taken ≡ false
    → Runs a
    → Runs (unless_taken taken s a)
unfolding unless_taken
Runs-unless true s a free r = cc
Runs-unless false s a free r = r

process_taken-false :
    (pg : Postgres) (ip : Text) (pgid : ℕ) (pname : Text) (s : Session)
    → IsSound pg s.tables s.sequences
    → process_taken ip pgid pname s ≡ false
unfolding process_taken has_process
process_taken-false pg ip pgid pname s k = ground (
  arith,
  IsNumbered-free (λ p. p.process_id) s.sequences.process_seq s.tables.processes k.process_ids,
)

active_taken-false :
    (pg : Postgres) (pid : ℕ) (s : Session)
    → IsSound pg s.tables s.sequences
    → active_taken pid s ≡ false
unfolding active_taken
active_taken-false pg pid s k = ground (
  arith,
  IsNumbered-free (λ n. n.node_id) s.sequences.active_seq s.tables.active_nodes k.active_ids,
)

passive_taken-false :
    (pg : Postgres) (pid port : ℕ) (s : Session)
    → IsSound pg s.tables s.sequences
    → passive_taken pid port s ≡ false
unfolding passive_taken
passive_taken-false pg pid port s k = ground (
  arith,
  IsNumbered-free (λ n. n.node_id) s.sequences.passive_seq s.tables.passive_nodes k.passive_ids,
)

flow_taken-false :
    (pg : Postgres) (source destination : ℕ) (s : Session)
    → IsSound pg s.tables s.sequences
    → flow_taken source destination s ≡ false
unfolding flow_taken
flow_taken-false pg source destination s k =
    ground (arith, IsNumbered-free (λ f. f.flow_id) s.sequences.flow_seq s.tables.flows k.flow_ids)

write_process-Runs :
    (now : ℕ) (ip : Text) (pgid : ℕ) (pname : Text) (s : Session)
    → Runs (write_process now ip pgid pname s)
unfolding write_process
write_process-Runs now ip pgid pname s =
    elim (Option-cases (find_process ip pgid pname s.tables.processes)) [
      | inl new ↦ rw (new, write_process) tt
      | inr (id, old) ↦ rw (old, write_process) tt
    ]

pub insert_processes-Runs :
    (pg : Postgres) (now : ℕ) (ipv4 ip : Text) (pgid : ℕ) (pname : Text) (s : Session)
    → pg.to_inet ipv4 ≡ some ip
    → (fits_integer pgid && fits_name pg pname) ≡ true
    → IsSound pg s.tables s.sequences
    → Runs (insert_processes pg now ipv4 pgid pname s)
unfolding insert_processes
insert_processes-Runs pg now ipv4 ip pgid pname s good fits k =
    rw (good, insert_processes, fits)
      (Runs-unless (process_taken ip pgid pname s) (skip_process s)
        (write_process now ip pgid pname s) (process_taken-false pg ip pgid pname s k)
        (write_process-Runs now ip pgid pname s))

write_active-Runs :
    (pid : ℕ) (s : Session) → has_process pid s.tables.processes ≡ true → Runs (write_active pid s)
unfolding write_active
write_active-Runs pid s known = elim (Option-cases (find_active pid s.tables.active_nodes)) [
  | inl new ↦ rw (known, new) tt
  | inr (id, old) ↦ rw (known, old) tt
]

pub insert_active_nodes-Runs :
    (pg : Postgres) (pid : ℕ) (s : Session)
    → has_process pid s.tables.processes ≡ true
    → IsSound pg s.tables s.sequences
    → Runs (insert_active_nodes pid s)
unfolding insert_active_nodes
insert_active_nodes-Runs pg pid s known k =
    Runs-unless (active_taken pid s) (skip_active s) (write_active pid s)
      (active_taken-false pg pid s k) (write_active-Runs pid s known)

write_passive-Runs :
    (pid port : ℕ) (s : Session)
    → has_process pid s.tables.processes ≡ true
    → Runs (write_passive pid port s)
unfolding write_passive
write_passive-Runs pid port s known =
    elim (Option-cases (find_passive pid port s.tables.passive_nodes)) [
      | inl new ↦ rw (known, new) tt
      | inr (id, old) ↦ rw (known, old) tt
    ]

pub insert_passive_nodes-Runs :
    (pg : Postgres) (pid : ℕ) (port : Text) (p : ℕ) (s : Session)
    → pg.to_integer port ≡ some p
    → (ltb 0 p && fits_integer p) ≡ true
    → has_process pid s.tables.processes ≡ true
    → IsSound pg s.tables s.sequences
    → Runs (insert_passive_nodes pg pid port s)
unfolding insert_passive_nodes
insert_passive_nodes-Runs pg pid port p s number fits known k =
    rw (number, insert_passive_nodes, fits)
      (Runs-unless (passive_taken pid p s) (skip_passive s) (write_passive pid p s)
        (passive_taken-false pg pid p s k) (write_passive-Runs pid p s known))

first_row-Runs : (pg : Postgres) (ids : List ℕ) (s : Session) → Runs (first_row pg ids, s)
unfolding first_row
first_row-Runs pg ids s = elim (Option-cases (pg.first ids)) [
  | inl nothing ↦ rw (nothing, first_row) tt
  | inr (id, one) ↦ rw (one, first_row) tt
]

pub find_active_nodes-Runs :
    (pg : Postgres) (port ipv4 : Text) (p : ℕ) (ip : Text) (s : Session)
    → pg.to_integer port ≡ some p
    → pg.to_inet ipv4 ≡ some ip
    → Runs (find_active_nodes pg port ipv4 s)
unfolding find_active_nodes
find_active_nodes-Runs pg port ipv4 p ip s number good =
    rw (number, find_active_nodes, good)
      (first_row-Runs pg (active_rows p ip s.tables s.tables.flows) s)

pub find_passive_nodes-Runs :
    (pg : Postgres) (ipv4 port : Text) (ip : Text) (p : ℕ) (s : Session)
    → pg.to_inet ipv4 ≡ some ip
    → pg.to_integer port ≡ some p
    → Runs (find_passive_nodes pg ipv4 port s)
unfolding find_passive_nodes
find_passive_nodes-Runs pg ipv4 port ip p s good number =
    rw (good, find_passive_nodes, number)
      (first_row-Runs pg (passive_rows ip p s.tables s.tables.passive_nodes) s)

write_flow-Runs :
    (now source destination connections : ℕ) (s : Session)
    → Runs (write_flow now source destination connections s)
unfolding write_flow
write_flow-Runs now source destination connections s =
    elim (Bool-cases (any (same_edge source destination) s.tables.flows)) [
      | inl old ↦ rw old tt
      | inr new ↦ rw new tt
    ]

pub insert_flows-Runs :
    (pg : Postgres) (now source destination connections : ℕ) (s : Session)
    → ltb 0 connections ≡ true
    → fits_integer connections ≡ true
    → any (λ n. n.node_id == source) s.tables.active_nodes ≡ true
    → any (λ n. n.node_id == destination) s.tables.passive_nodes ≡ true
    → IsSound pg s.tables s.sequences
    → Runs (insert_flows now source destination connections s)
unfolding insert_flows
insert_flows-Runs pg now source destination connections s positive fits active passive k =
    rw (positive, fits, active, passive)
      (Runs-unless (flow_taken source destination s) (skip_flow s)
        (write_flow now source destination connections s)
        (flow_taken-false pg source destination s k)
        (write_flow-Runs now source destination connections s))
