-- ===== src/Db/Insert/Keeps.antt =====
-- What the statements of db.go keep, the code of `InsertOrUpdateHostFlows` keeps.
use shawk.Prelude.{
  ◌+◌, ◌≡◌, ◌∷◌, Bool-cases, Outcome, ok, err, panics, Text, ℕ, sym, inl, inr, List, [], arith,
}
use mathlib.Core.Path.{subst}
use shawk.Probe.{HostFlow}
use shawk.Db.Tables.{Postgres}
use shawk.Db.Session.{
  Session, Answer, Act, ◌>>=◌, continue, statement, answer, query, query_or, row, no_rows,
  query_error,
}
use shawk.Db.Statements.{
  insert_processes, insert_active_nodes, insert_passive_nodes, insert_flows, find_active_nodes,
  find_passive_nodes, find_passive_nodes_by_process, find_active_nodes_one_argument,
}
use shawk.Db.Insert.{
  is_local_flow, pgid_of, pname_of, insert_passive, insert_active, by_direction, insert_one,
  insert_all,
}

-- An action keeps a property of the session, whatever it returns.
abbrev pub Keeps : (Session → Type 0) → Act ℕ → Type 0
Keeps I m = (s : Session) → I s → I (m s).1

-- A statement keeps it.
abbrev pub StatementKeeps : (Session → Type 0) → (Session → Answer × Session) → Type 0
StatementKeeps I run = (s : Session) → I s → I (run s).1

module _ (I : Session → Type 0) where
  continue-Keeps :
      (f : ℕ → Act ℕ) (r : Outcome ℕ) (s : Session)
      → ((n : ℕ) → Keeps I (f n))
      → I s
      → I (continue r f s).1
  continue-Keeps f (ok n) s keeps c = keeps n s c
  continue-Keeps f (err e) s keeps c = c
  continue-Keeps f panics s keeps c = c

  pub bind-Keeps :
      (m : Act ℕ) (f : ℕ → Act ℕ) → Keeps I m → ((n : ℕ) → Keeps I (f n)) → Keeps I (m >>= f)
  unfolding ◌>>=◌
  bind-Keeps m f first then_keeps s c = continue-Keeps f (m s).0 (m s).1 then_keeps (first s c)

  answer-Keeps :
      (fallback : Act ℕ) (a : Answer) (s : Session)
      → Keeps I fallback
      → I s
      → I (answer fallback (a, s)).1
  unfolding answer
  answer-Keeps fallback (row n) s keeps c = c
  answer-Keeps fallback no_rows s keeps c = keeps s c
  answer-Keeps fallback query_error s keeps c = c

  module _ (pg : Postgres)
      (answered : (s : Session) → I s → I (record s { answers = s.answers + 1 })) where
    statement-Keeps :
        (run : Session → Answer × Session)
        → StatementKeeps I run
        → StatementKeeps I (statement pg run)
    unfolding statement
    statement-Keeps run keeps s c = elim (Bool-cases (pg.fails s.answers)) [
      | inl fault ↦ rw (fault, statement) (answered s c)
      | inr fine ↦
          rw (fine, statement) (keeps (record s { answers = s.answers + 1 }) (answered s c))
    ]

    pub query_or-Keeps :
        (run : Session → Answer × Session) (fallback : Act ℕ)
        → StatementKeeps I run
        → Keeps I fallback
        → Keeps I (query_or pg run fallback)
    unfolding query_or
    query_or-Keeps run fallback keeps after s c =
        answer-Keeps fallback (statement pg run s).0 (statement pg run s).1 after
          (statement-Keeps run keeps s c)

    pub query-Keeps :
        (run : Session → Answer × Session) → StatementKeeps I run → Keeps I (query pg run)
    unfolding query
    query-Keeps run keeps = query_or-Keeps run _ keeps (λ s c. c)

    -- The searches leave the session as it is.
    pub find_active_nodes-Keeps :
        (port ipv4 : Text) → StatementKeeps I (find_active_nodes pg port ipv4)
    unfolding find_active_nodes
    find_active_nodes-Keeps port ipv4 s c =
        let same : (find_active_nodes pg port ipv4 s).1 ≡ s = ground arith in subst I (sym same) c

    pub find_passive_nodes-Keeps :
        (ipv4 port : Text) → StatementKeeps I (find_passive_nodes pg ipv4 port)
    unfolding find_passive_nodes
    find_passive_nodes-Keeps ipv4 port s c =
        let same : (find_passive_nodes pg ipv4 port s).1 ≡ s = ground arith in subst I (sym same) c

    pub find_passive_nodes_by_process-Keeps :
        (pid : ℕ) (port : Text) → StatementKeeps I (find_passive_nodes_by_process pg pid port)
    unfolding find_passive_nodes_by_process
    find_passive_nodes_by_process-Keeps pid port s c =
        let same : (find_passive_nodes_by_process pg pid port s).1 ≡ s = ground arith in
        subst I (sym same) c

    module _ (now : ℕ)
        (processes : (ipv4 : Text) (pgid : ℕ) (pname : Text)
          → StatementKeeps I (insert_processes pg now ipv4 pgid pname))
        (active_nodes : (pid : ℕ) → StatementKeeps I (insert_active_nodes pid))
        (passive_nodes : (pid : ℕ) (port : Text)
          → StatementKeeps I (insert_passive_nodes pg pid port))
        (flow_rows : (source destination connections : ℕ)
          → StatementKeeps I (insert_flows now source destination connections)) where
      insert_passive-Keeps : (flow : HostFlow) (pid : ℕ) → Keeps I (insert_passive pg now flow pid)
      unfolding insert_passive
      insert_passive-Keeps flow pid =
          bind-Keeps _ _
            (query_or-Keeps _ _ (passive_nodes pid flow.local.port)
              (query-Keeps _ (find_passive_nodes_by_process-Keeps pid flow.local.port)))
            (λ local_node.
              bind-Keeps _ _
                (query_or-Keeps _ _ (find_active_nodes-Keeps flow.local.port flow.peer.addr) (
                  bind-Keeps _ _ (query-Keeps _ (processes flow.peer.addr 0 []))
                    (λ peer_process. query-Keeps _ (active_nodes peer_process))))
                (λ peer_node. query-Keeps _ (flow_rows peer_node local_node flow.connections)))

      insert_active-Keeps : (flow : HostFlow) (pid : ℕ) → Keeps I (insert_active pg now flow pid)
      unfolding insert_active find_active_nodes_one_argument
      insert_active-Keeps flow pid =
          bind-Keeps _ _ (query_or-Keeps _ _ (active_nodes pid) (query-Keeps _ (λ s c. c)))
            (λ local_node.
              bind-Keeps _ _
                (query_or-Keeps _ _ (find_passive_nodes-Keeps flow.peer.addr flow.peer.port) (
                  bind-Keeps _ _ (query-Keeps _ (processes flow.peer.addr 0 []))
                    (λ peer_process. query-Keeps _ (passive_nodes peer_process flow.peer.port))))
                (λ peer_node. query-Keeps _ (flow_rows local_node peer_node flow.connections)))

      by_direction-Keeps : (flow : HostFlow) (pid : ℕ) → Keeps I (by_direction pg now flow pid)
      unfolding by_direction
      by_direction-Keeps flow pid s c =
          ground (arith, insert_passive-Keeps flow pid s c, insert_active-Keeps flow pid s c, c)

      pub insert_one-Keeps : (flow : HostFlow) → Keeps I (insert_one pg now flow)
      unfolding insert_one
      insert_one-Keeps flow =
          bind-Keeps _ _
            (query-Keeps _
              (processes flow.local.addr (pgid_of flow.process) (pname_of flow.process)))
            (λ pid. by_direction-Keeps flow pid)

      pub insert_all-Keeps : (fs : List HostFlow) → Keeps I (insert_all pg now fs)
      unfolding insert_all
      insert_all-Keeps [] s c = c
      insert_all-Keeps (flow ∷ fs) s c = elim (Bool-cases (is_local_flow flow)) [
        | inl skipped ↦ rw skipped (insert_all-Keeps fs s c)
        | inr other ↦
            rw other (bind-Keeps _ _ (insert_one-Keeps flow) (λ n. insert_all-Keeps fs) s c)
      ]
