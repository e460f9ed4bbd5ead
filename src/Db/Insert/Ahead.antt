-- ===== src/Db/Insert/Ahead.antt =====
-- The sequences stay ahead of the numbers in the tables, statement by statement.
use shawk.Prelude.{Text, ℕ, [], arith}
use shawk.Probe.{HostFlow}
use shawk.Db.Tables.{Postgres, Sequences}
use shawk.Db.Session.{Session, Answer, ◌>>=◌, Act, query, query_or}
use shawk.Db.Statements.{
  insert_processes, insert_active_nodes, insert_passive_nodes, insert_flows, find_active_nodes,
  find_passive_nodes, find_active_nodes_one_argument,
}
use shawk.Db.Consistent.Sound.{IsSound, Advances}
use shawk.Db.Consistent.SoundInserts.{
  insert_processes-SoundSince, insert_active_nodes-SoundSince, insert_passive_nodes-SoundSince,
  insert_flows-SoundSince,
}
use shawk.Db.Insert.{insert_one}
use shawk.Db.Insert.Keeps.{
  Keeps, StatementKeeps, bind-Keeps, query_or-Keeps, query-Keeps, find_active_nodes-Keeps,
  find_passive_nodes-Keeps, insert_one-Keeps,
}

-- PRIMARY KEY and CHECK hold, and the sequences are ahead.
abbrev pub IsAhead : Postgres → Session → Type 0
IsAhead pg s = IsSound pg s.tables s.sequences

Advances-refl : (q : Sequences) → Advances q q
Advances-refl q = record {
  process_seq = omega arith;
  active_seq = omega arith;
  passive_seq = omega arith;
  flow_seq = omega arith;
}

module _ (pg : Postgres) (now : ℕ) where
  pub processes-IsAhead :
      (ipv4 : Text) (pgid : ℕ) (pname : Text)
      → StatementKeeps (IsAhead pg) (insert_processes pg now ipv4 pgid pname)
  processes-IsAhead ipv4 pgid pname s k =
      (insert_processes-SoundSince pg s.sequences now ipv4 pgid pname s
        (k, Advances-refl s.sequences)).0

  pub active-IsAhead : (pid : ℕ) → StatementKeeps (IsAhead pg) (insert_active_nodes pid)
  active-IsAhead pid s k =
      (insert_active_nodes-SoundSince pg s.sequences pid s (k, Advances-refl s.sequences)).0

  pub passive-IsAhead :
      (pid : ℕ) (port : Text) → StatementKeeps (IsAhead pg) (insert_passive_nodes pg pid port)
  passive-IsAhead pid port s k =
      (insert_passive_nodes-SoundSince pg s.sequences pid port s (k, Advances-refl s.sequences)).0

  flows-IsAhead :
      (source destination connections : ℕ)
      → StatementKeeps (IsAhead pg) (insert_flows now source destination connections)
  flows-IsAhead source destination connections s k =
      (insert_flows-SoundSince pg s.sequences now source destination connections s
        (k, Advances-refl s.sequences)).0

  -- A statement and its second try.
  pub asked-IsAhead :
      (run : Session → Answer × Session) (fallback : Act ℕ)
      → StatementKeeps (IsAhead pg) run
      → Keeps (IsAhead pg) fallback
      → Keeps (IsAhead pg) (query_or pg run fallback)
  asked-IsAhead = query_or-Keeps (IsAhead pg) pg (λ s k. k)

  pub once-IsAhead :
      (run : Session → Answer × Session)
      → StatementKeeps (IsAhead pg) run
      → Keeps (IsAhead pg) (query pg run)
  once-IsAhead = query-Keeps (IsAhead pg) pg (λ s k. k)

  pub new_active-IsAhead :
      (addr : Text)
      → Keeps (IsAhead pg) (do
        peer_process ← query pg (insert_processes pg now addr 0 [])
        query pg (insert_active_nodes peer_process))
  new_active-IsAhead addr =
      bind-Keeps (IsAhead pg) _ _ (once-IsAhead _ (processes-IsAhead addr 0 []))
        (λ pid. once-IsAhead _ (active-IsAhead pid))

  pub new_passive-IsAhead :
      (addr port : Text)
      → Keeps (IsAhead pg) (do
        peer_process ← query pg (insert_processes pg now addr 0 [])
        query pg (insert_passive_nodes pg peer_process port))
  new_passive-IsAhead addr port =
      bind-Keeps (IsAhead pg) _ _ (once-IsAhead _ (processes-IsAhead addr 0 []))
        (λ pid. once-IsAhead _ (passive-IsAhead pid port))

  pub found_active-IsAhead :
      (port addr : Text) → StatementKeeps (IsAhead pg) (find_active_nodes pg port addr)
  found_active-IsAhead = find_active_nodes-Keeps (IsAhead pg) pg (λ s k. k)

  pub found_passive-IsAhead :
      (addr port : Text) → StatementKeeps (IsAhead pg) (find_passive_nodes pg addr port)
  found_passive-IsAhead = find_passive_nodes-Keeps (IsAhead pg) pg (λ s k. k)

  pub insert_one-IsAhead : (flow : HostFlow) → Keeps (IsAhead pg) (insert_one pg now flow)
  insert_one-IsAhead =
      insert_one-Keeps (IsAhead pg) pg (λ s k. k) now processes-IsAhead active-IsAhead
        passive-IsAhead flows-IsAhead

  pub refused-IsAhead : (pid : ℕ) → StatementKeeps (IsAhead pg) (find_active_nodes_one_argument pid)
  unfolding find_active_nodes_one_argument
  refused-IsAhead pid s k = k
