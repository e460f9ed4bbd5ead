-- ===== src/Db/Select.antt =====
-- The SELECT texts of `FindPassiveFlows` and `FindActiveFlows` of db.go as functions on the tables.
pub mod Joins
pub mod Distinct
pub mod Latest
pub mod Found
pub mod Samples
mod Tests
use shawk.Prelude.{
  ◌&&◌, ◌∷◌, ◌==◌, if◌then◌else◌, leb, keep, any, flat_map, Text, ℕ, Bool, true, false, not, Option,
  none, some, List, [], map, nat_eq, text_equality,
}
use shawk.Net.{Ip}
use shawk.Db.Tables.{ProcessRow, ActiveNode, PassiveNode, FlowRow, Tables}
use shawk.Db.Flows.{query_failed, FindFlowsCond, Row, RowRead, scanned, scan_failed, Rows, rows}

-- A row of the joins: a flow with its two nodes and their processes.
pub record Joined : Type 0 where
  pub flow : FlowRow
  pub active_node : ActiveNode
  pub active_process : ProcessRow
  pub passive_node : PassiveNode
  pub passive_process : ProcessRow

-- The processes `pn` and `an`, whose addresses and names the queries sort by.
abbrev pub passive_side : Joined → ProcessRow
passive_side j = j.passive_process

abbrev pub active_side : Joined → ProcessRow
active_side j = j.active_process

-- What the two queries take from the server and its driver, parameters: the `inet` value that the
-- driver sends for an address, none for one that it refuses, as it does nil; the address that `Scan` makes of an `inet` value; the
-- `timestamp` that the driver sends for a time; and the result of
-- `ORDER BY ipv4, pname, updated DESC` on the processes of a side.
pub record Selects : Type 0 where
  pub inet_of : Ip → Option Text
  pub ip_of : Text → Option Ip
  pub timestamp : ℕ → ℕ
  pub order_by : (Joined → ProcessRow) → List Joined → List Joined

-- `ipv4 = ANY($1)`
unfoldable pub listed : Selects → List Ip → ProcessRow → Bool
listed q addrs p = any (λ a. elim (q.inet_of a) [ none ↦ false | some ip ↦ p.ipv4 == ip ]) addrs

-- The driver can send every address.
unfoldable pub can_send : Selects → List Ip → Bool
can_send q [] = true
can_send q (a ∷ addrs) = elim (q.inet_of a) [ none ↦ false | some ip ↦ can_send q addrs ]

-- `updated BETWEEN $2 AND $3`
unfoldable pub between : Selects → FindFlowsCond → FlowRow → Bool
between q cond f = leb (q.timestamp cond.since) f.updated && leb f.updated (q.timestamp cond.until)

-- The passive nodes of an id with their processes that meet a condition, each as a row of a flow
-- and an active node.
unfoldable pub join_passive :
    (ProcessRow → Bool) → Tables → FlowRow → ActiveNode → ProcessRow → List Joined
join_passive which t f n p =
    flat_map
      (λ m.
        map
          (λ r. record {
            flow = f;
            active_node = n;
            active_process = p;
            passive_node = m;
            passive_process = r;
          })
          (keep (λ r. r.process_id == m.process_id && which r) t.processes))
      (keep (λ m. m.node_id == f.destination_node_id) t.passive_nodes)

unfoldable pub join_active :
    (ProcessRow → Bool) → (ProcessRow → Bool) → Tables → FlowRow → List Joined
unfolding join_passive
join_active actives passives t f =
    flat_map
      (λ n.
        flat_map (λ p. join_passive passives t f n p)
          (keep (λ p. p.process_id == n.process_id && actives p) t.processes))
      (keep (λ n. n.node_id == f.source_node_id) t.active_nodes)

-- The inner joins of the flows that meet a condition, where the two sides' processes do.
unfoldable pub inner_join :
    (FlowRow → Bool) → (ProcessRow → Bool) → (ProcessRow → Bool) → Tables → List Joined
unfolding join_active
inner_join flows actives passives t =
    flat_map (λ f. join_active actives passives t f) (keep flows t.flows)

-- The processes agree on the columns of `DISTINCT ON`.
unfoldable pub same_columns : ProcessRow → ProcessRow → Bool
same_columns p r = p.ipv4 == r.ipv4 && p.pname == r.pname

-- `DISTINCT ON (ipv4, pname)`: the first row of each pair of values.
unfoldable pub distinct_on : (Joined → ProcessRow) → List Joined → List Joined
unfolding same_columns
distinct_on side [] = []
distinct_on side (j ∷ js) =
    j ∷ keep (λ r. not (same_columns (side j) (side r))) (distinct_on side js)

-- The result columns.
unfoldable pub row_of : Ip → Ip → Joined → Row
row_of active passive j = record {
  pipv4 = passive;
  ppname = j.passive_process.pname;
  pport = j.passive_node.port;
  ppgid = j.passive_process.pgid;
  aipv4 = active;
  apname = j.active_process.pname;
  apgid = j.active_process.pgid;
  connections = j.flow.connections;
}

-- `rows.Scan`
unfoldable pub scan_row : Selects → Joined → RowRead
unfolding row_of
scan_row q j = elim (q.ip_of j.active_process.ipv4) [
  | none ↦ scan_failed
  | some active ↦ elim (q.ip_of j.passive_process.ipv4) [
    | none ↦ scan_failed
    | some passive ↦ scanned (row_of active passive j)
  ]
]

-- The rows of a query, from those of its joins.
unfoldable pub answer_of : Selects → (Joined → ProcessRow) → List Joined → Rows
unfolding distinct_on scan_row
answer_of q side js = rows (map (scan_row q) (distinct_on side (q.order_by side js))) true

-- The answer to the query of `FindPassiveFlows`, if the server does not fail: with an address that
-- the driver refuses the query is an error.
unfoldable pub select_passive : Selects → Tables → FindFlowsCond → Rows
unfolding answer_of inner_join between listed can_send
select_passive q t cond =
    if can_send q cond.addrs
    then answer_of q passive_side (inner_join (between q cond) (λ p. true) (listed q cond.addrs) t)
    else query_failed

-- The answer to the query of `FindActiveFlows`, likewise.
unfoldable pub select_active : Selects → Tables → FindFlowsCond → Rows
unfolding answer_of inner_join between listed can_send
select_active q t cond =
    if can_send q cond.addrs
    then answer_of q active_side (inner_join (between q cond) (listed q cond.addrs) (λ p. true) t)
    else query_failed
