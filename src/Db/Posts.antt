-- ===== src/Db/Posts.antt =====
-- What a statement of db.go has established when it returns a row.
use shawk.Prelude.{
  ◌≡◌, ◌∙◌, ◌&&◌, ◌∷◌, ◌==◌, ltb, Bool-cases, Option-cases, any, any-append_last, Text, text_eq_iff,
  ℕ, refl, inl, inr, Bool, true, false, some, List, [], arith, nat_eq, text_equality,
}
use shawk.Db.Tables.{ProcessRow, ActiveNode, PassiveNode, Tables, Postgres}
use shawk.Db.Session.{Session, Answer, row, no_rows, query_error}
use shawk.Db.Statements.{
  process_taken, active_taken, passive_taken, flow_taken, skip_process, skip_active, skip_passive,
  skip_flow, fits_name, unless_taken, insert_active_nodes, fits_integer, same_process, find_process,
  write_process, insert_processes, has_process, find_active, write_active, find_passive,
  write_passive, insert_passive_nodes, same_edge, write_flow, insert_flows,
}
use shawk.Db.Grows.{
  Grows, process_is, active_is, passive_is, edge_is, any-touch_process, set_connections-dated,
  write_process-Grows, write_active-Grows, write_passive-Grows, write_flow-Grows,
}

find_process-found :
    (ip : Text) (pgid : ℕ) (pname : Text) (ps : List ProcessRow) (id : ℕ)
    → find_process ip pgid pname ps ≡ some id
    → any (λ p. p.process_id == id && same_process ip pgid pname p) ps ≡ true
unfolding find_process any
find_process-found ip pgid pname [] id h = cc
find_process-found ip pgid pname (p ∷ ps) id h = elim (Bool-cases (same_process ip pgid pname p)) [
  | inl same ↦ ground arith
  | inr other ↦ ground (arith, find_process-found ip pgid pname ps id)
]

-- An answer that is a row meets `P`, and one without rows meets `R`.
abbrev pub Post : (ℕ → Tables → Type 0) → (Tables → Type 0) → Answer × Session → Type 0
Post P R (row n, s) = P n s.tables
Post P R (no_rows, s) = R s.tables
Post P R (query_error, s) = Unit

-- A statement that always answers with a row, if it does not fail.
abbrev pub Never : Tables → Type 0
Never t = ⊥

abbrev pub MadeProcess : ℕ → Postgres → Text → ℕ → Text → Tables → ℕ → Tables → Type 0
MadeProcess now pg ipv4 pgid pname t id u =
    Grows now t u
    × (ip : Text) × (pg.to_inet ipv4 ≡ some ip)
    × (process_is id ip pgid pname u ≡ true)

Post-unless :
    (P : ℕ → Tables → Type 0) (R : Tables → Type 0) (taken : Bool) (s : Session)
    (a : Answer × Session)
    → Post P R a
    → Post P R (unless_taken taken s a)
unfolding unless_taken
Post-unless P R true s a h = tt
Post-unless P R false s a h = h

write_process-Post :
    (pg : Postgres) (ipv4 : Text) (now : ℕ) (ip : Text) (pgid : ℕ) (pname : Text) (s : Session)
    → pg.to_inet ipv4 ≡ some ip
    → Post (MadeProcess now pg ipv4 pgid pname s.tables) Never (write_process now ip pgid pname s)
unfolding write_process process_is same_process
write_process-Post pg ipv4 now ip pgid pname s good =
    let grows = write_process-Grows now ip pgid pname s in
    elim (Option-cases (find_process ip pgid pname s.tables.processes)) [
      | inl new ↦
          rw (new, write_process)
            (
              rw (new, write_process) at grows,
              ip,
              good,
              any-append_last _ s.tables.processes _
                  (ground (arith, text_eq_iff ip ip, text_eq_iff pname pname)),
            )
      | inr (id, old) ↦
          rw (old, write_process)
            (
              rw (old, write_process) at grows,
              ip,
              good,
              any-touch_process now id s.tables.processes
                    (λ p. p.process_id == id && same_process ip pgid pname p) (λ p n. refl)
                  ∙ find_process-found ip pgid pname s.tables.processes id old,
            )
    ]

pub insert_processes-Post :
    (pg : Postgres) (now : ℕ) (ipv4 : Text) (pgid : ℕ) (pname : Text) (s : Session)
    → Post
        (MadeProcess now pg ipv4 pgid pname s.tables)
        Never
        (insert_processes pg now ipv4 pgid pname s)
unfolding insert_processes
insert_processes-Post pg now ipv4 pgid pname s = elim (Option-cases (pg.to_inet ipv4)) [
  | inl bad ↦ rw (bad, insert_processes) tt
  | inr (ip, good) ↦ elim (Bool-cases (fits_integer pgid && fits_name pg pname)) [
    | inl fits ↦
        rw (good, insert_processes, fits)
          (Post-unless (MadeProcess now pg ipv4 pgid pname s.tables) Never
            (process_taken ip pgid pname s) (skip_process s) (write_process now ip pgid pname s)
            (write_process-Post pg ipv4 now ip pgid pname s good))
    | inr no_fit ↦ rw (good, insert_processes, no_fit) tt
  ]
]

find_active-found :
    (pid : ℕ) (ns : List ActiveNode) (id : ℕ)
    → find_active pid ns ≡ some id
    → any (λ n. n.node_id == id && n.process_id == pid) ns ≡ true
unfolding find_active any
find_active-found pid [] id h = cc
find_active-found pid (n ∷ ns) id h = ground (arith, find_active-found pid ns id)

find_passive-found :
    (pid port : ℕ) (ns : List PassiveNode) (id : ℕ)
    → find_passive pid port ns ≡ some id
    → any (λ n. n.node_id == id && n.process_id == pid && n.port == port) ns ≡ true
unfolding find_passive any
find_passive-found pid port [] id h = cc
find_passive-found pid port (n ∷ ns) id h = ground (arith, find_passive-found pid port ns id)

abbrev pub MadeActive : ℕ → ℕ → Tables → ℕ → Tables → Type 0
MadeActive now pid t id u = Grows now t u × (active_is id pid u ≡ true)

write_active-Post :
    (now pid : ℕ) (s : Session) → Post (MadeActive now pid s.tables) Never (write_active pid s)
unfolding write_active active_is
write_active-Post now pid s =
    let grows = write_active-Grows now pid s in
    elim (Bool-cases (has_process pid s.tables.processes)) [
      | inl known ↦ elim (Option-cases (find_active pid s.tables.active_nodes)) [
        | inl new ↦
            rw (known, new)
              (rw (known, new) at grows, any-append_last _ s.tables.active_nodes _ (ground arith))
        | inr (id, old) ↦
            rw (known, old)
              (rw (known, old) at grows, find_active-found pid s.tables.active_nodes id old)
      ]
      | inr unknown ↦ rw unknown tt
    ]

pub insert_active_nodes-Post :
    (now pid : ℕ) (s : Session)
    → Post (MadeActive now pid s.tables) Never (insert_active_nodes pid s)
unfolding insert_active_nodes
insert_active_nodes-Post now pid s =
    Post-unless (MadeActive now pid s.tables) Never (active_taken pid s) (skip_active s)
      (write_active pid s) (write_active-Post now pid s)

abbrev pub MadePassive : ℕ → Postgres → ℕ → Text → Tables → ℕ → Tables → Type 0
MadePassive now pg pid port t id u =
    Grows now t u × (p : ℕ) × (pg.to_integer port ≡ some p) × (passive_is id pid p u ≡ true)

write_passive-Post :
    (pg : Postgres) (port : Text) (now pid p : ℕ) (s : Session)
    → pg.to_integer port ≡ some p
    → Post (MadePassive now pg pid port s.tables) Never (write_passive pid p s)
unfolding write_passive passive_is
write_passive-Post pg port now pid p s good =
    let grows = write_passive-Grows now pid p s in
    elim (Bool-cases (has_process pid s.tables.processes)) [
      | inl known ↦ elim (Option-cases (find_passive pid p s.tables.passive_nodes)) [
        | inl new ↦
            rw (known, new)
              (
                rw (known, new) at grows,
                p,
                good,
                any-append_last _ s.tables.passive_nodes _ (ground arith),
              )
        | inr (id, old) ↦
            rw (known, old)
              (
                rw (known, old) at grows,
                p,
                good,
                find_passive-found pid p s.tables.passive_nodes id old,
              )
      ]
      | inr unknown ↦ rw unknown tt
    ]

pub insert_passive_nodes-Post :
    (pg : Postgres) (now pid : ℕ) (port : Text) (s : Session)
    → Post (MadePassive now pg pid port s.tables) Never (insert_passive_nodes pg pid port s)
unfolding insert_passive_nodes
insert_passive_nodes-Post pg now pid port s = elim (Option-cases (pg.to_integer port)) [
  | inl bad ↦ rw (bad, insert_passive_nodes) tt
  | inr (p, good) ↦ elim (Bool-cases (ltb 0 p && fits_integer p)) [
    | inl fits ↦
        rw (good, insert_passive_nodes, fits)
          (Post-unless (MadePassive now pg pid port s.tables) Never (passive_taken pid p s)
            (skip_passive s) (write_passive pid p s) (write_passive-Post pg port now pid p s good))
    | inr no_fit ↦ rw (good, insert_passive_nodes, no_fit) tt
  ]
]

abbrev pub MadeEdge : ℕ → ℕ → ℕ → Tables → ℕ → Tables → Type 0
MadeEdge now source destination t n u = Grows now t u × (edge_is now source destination u ≡ true)

write_flow-Post :
    (now source destination connections : ℕ) (s : Session)
    → Post
        (MadeEdge now source destination s.tables)
        Never
        (write_flow now source destination connections s)
unfolding write_flow edge_is same_edge
write_flow-Post now source destination connections s =
    let grows = write_flow-Grows now source destination connections s in
    elim (Bool-cases (any (same_edge source destination) s.tables.flows)) [
      | inl old ↦ rw old (
        rw old at grows,
        set_connections-dated now source destination connections s.tables.flows old,
      )
      | inr new ↦ rw new (rw new at grows, any-append_last _ s.tables.flows _ (ground arith))
    ]

pub insert_flows-Post :
    (now source destination connections : ℕ) (s : Session)
    → Post
        (MadeEdge now source destination s.tables)
        Never
        (insert_flows now source destination connections s)
unfolding insert_flows
insert_flows-Post now source destination connections s =
    elim (Bool-cases (
      ltb 0 connections
      && fits_integer connections
      && any (λ n. n.node_id == source) s.tables.active_nodes
      && any (λ n. n.node_id == destination) s.tables.passive_nodes)) [
        | inl fits ↦ rw fits (
            Post-unless (MadeEdge now source destination s.tables) Never
              (flow_taken source destination s) (skip_flow s)
              (write_flow now source destination connections s)
              (write_flow-Post now source destination connections s))
        | inr no_fit ↦ rw no_fit tt
      ]
