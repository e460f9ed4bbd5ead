-- ===== src/Db/Insert.antt =====
-- `InsertOrUpdateHostFlows` of db.go.
pub mod Atomic
pub mod Done
pub mod Edges
pub mod Branches
pub mod Recorded
pub mod Total
pub mod Accepts
pub mod Ahead
pub mod Succeeds
pub mod Keeps
pub mod Consistent
pub mod Samples
mod Tests
use shawk.Prelude.{
  ◌+◌, ◌||◌, ◌∷◌, ◌==◌, if◌then◌else◌, system_error, Outcome, ok, err, panics, Text, codes, ℕ, Bool,
  Option, none, some, List, [], nat_eq, text_equality,
}
use shawk.Probe.{HostFlow, Process, flow_active, flow_passive}
use shawk.Db.Tables.{Postgres}
use shawk.Db.Session.{Session, Act, ◌>>=◌, ◌>>◌, pure, raise, statement, query, query_or, row}
use shawk.Db.Statements.{
  insert_processes, insert_active_nodes, insert_passive_nodes, find_active_nodes,
  find_passive_nodes, find_passive_nodes_by_process, find_active_nodes_one_argument, insert_flows,
}

unfoldable pub is_loopback_addr : Text → Bool
is_loopback_addr addr = addr == codes "127.0.0.1" || addr == codes "::1"

-- The flows that the loop skips.
unfoldable pub is_local_flow : HostFlow → Bool
unfolding is_loopback_addr
is_local_flow flow = is_loopback_addr flow.local.addr || is_loopback_addr flow.peer.addr

unfoldable pub pgid_of : Option Process → ℕ
pgid_of none = 0
pgid_of (some p) = p.pgid

unfoldable pub pname_of : Option Process → Text
pname_of none = []
pname_of (some p) = p.name

module _ (pg : Postgres) (now : ℕ) where
  -- The branch of a flow that was opened by its peer.
  unfoldable pub insert_passive : HostFlow → ℕ → Act ℕ
  insert_passive flow local_process = do
    local_node ←
        query_or pg (insert_passive_nodes pg local_process flow.local.port)
          (query pg (find_passive_nodes_by_process pg local_process flow.local.port))
    peer_node ← query_or pg (find_active_nodes pg flow.local.port flow.peer.addr) (do
      peer_process ← query pg (insert_processes pg now flow.peer.addr 0 [])
      query pg (insert_active_nodes peer_process))
    query pg (insert_flows now peer_node local_node flow.connections)

  -- The branch of a flow that the host opened.
  unfoldable pub insert_active : HostFlow → ℕ → Act ℕ
  insert_active flow local_process = do
    local_node ←
        query_or pg (insert_active_nodes local_process)
          (query pg (find_active_nodes_one_argument local_process))
    peer_node ← query_or pg (find_passive_nodes pg flow.peer.addr flow.peer.port) (do
      peer_process ← query pg (insert_processes pg now flow.peer.addr 0 [])
      query pg (insert_passive_nodes pg peer_process flow.peer.port))
    query pg (insert_flows now local_node peer_node flow.connections)

  unfoldable pub by_direction : HostFlow → ℕ → Act ℕ
  unfolding insert_passive insert_active
  by_direction flow local_process =
      if flow.direction == flow_passive
      then insert_passive flow local_process
      else if flow.direction == flow_active
      then insert_active flow local_process
      else pure 0

  -- One round of the loop, for a flow that is not skipped.
  unfoldable pub insert_one : HostFlow → Act ℕ
  unfolding pgid_of pname_of by_direction
  insert_one flow = do
    local_process ←
        query pg
          (insert_processes pg now flow.local.addr (pgid_of flow.process) (pname_of flow.process))
    by_direction flow local_process

  unfoldable pub insert_all : List HostFlow → Act ℕ
  unfolding insert_one is_local_flow
  insert_all [] = pure 0
  insert_all (flow ∷ flows) =
      let rest = insert_all flows in if is_local_flow flow then rest else (insert_one flow >> rest)

  -- `Commit`; the deferred `Rollback` after an error puts the tables back, and leaves the sequences.
  -- After a commit that fails it does nothing, and the server has committed or rolled back.
  unfoldable pub finish : Session → Outcome ℕ × Session → Outcome ℕ × Session
  finish before (ok n, s) =
      let s' = record s { answers = s.answers + 1 } in
      if pg.fails s.answers
      then (
        err (system_error 4),
        if pg.commits s.answers then s' else record s' { tables = before.tables },
      )
      else (ok 0, s')
  finish before (err e, s) = (err e, record s { tables = before.tables })
  finish before (panics, s) = (panics, record s { tables = before.tables })

  -- `InsertOrUpdateHostFlows`, at the time `now` at which the transaction begins.
  unfoldable pub insert_or_update_host_flows : List HostFlow → Act ℕ
  unfolding insert_all finish
  insert_or_update_host_flows [] s = (ok 0, s)
  insert_or_update_host_flows (flow ∷ flows) s =
      let begun = record s { answers = s.answers + 1 } in
      if pg.fails s.answers
      then (err (system_error 5), begun)
      else finish s (insert_all (flow ∷ flows) begun)
