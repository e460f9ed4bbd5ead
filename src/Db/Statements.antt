-- ===== src/Db/Statements.antt =====
-- The SQL texts of db.go as functions on the tables, with the constraints of the schema.
use shawk.Prelude.{
  ◌+◌, ◌^◌, ◌&&◌, ◌∷◌, ◌++◌, ◌==◌, if◌then◌else◌, ltb, leb, any, Text, ℕ, Bool, true, false, Option,
  none, some, List, [], nat_eq, text_equality,
}
use shawk.Db.Tables.{ProcessRow, ActiveNode, PassiveNode, FlowRow, Tables, Postgres}
use shawk.Db.Session.{Session, Answer, row, no_rows, query_error}

-- The values of an `integer` column with a check that it is not negative. Go's 64-bit pattern of a
-- negative number lies far above.
unfoldable pub fits_integer : ℕ → Bool
fits_integer n = ltb n (2 ^ 31)

-- The values of a `varchar(50)` column.
unfoldable pub fits_name : Postgres → Text → Bool
fits_name pg t = pg.is_text t && leb (pg.char_length t) 50

-- A statement that fails has taken a value of its sequence all the same.
abbrev pub skip_process : Session → Session
skip_process s = record s {
  sequences = record s.sequences { process_seq = s.sequences.process_seq + 1 };
}

abbrev pub skip_active : Session → Session
skip_active s = record s {
  sequences = record s.sequences { active_seq = s.sequences.active_seq + 1 };
}

abbrev pub skip_passive : Session → Session
skip_passive s = record s {
  sequences = record s.sequences { passive_seq = s.sequences.passive_seq + 1 };
}

abbrev pub skip_flow : Session → Session
skip_flow s = record s { sequences = record s.sequences { flow_seq = s.sequences.flow_seq + 1 } }

-- A row that would be new, but whose number a row has already, is an error.
unfoldable pub unless_taken : Bool → Session → Answer × Session → Answer × Session
unless_taken true s a = (query_error, s)
unless_taken false s a = a

unfoldable pub first_row : Postgres → List ℕ → Answer
first_row pg ids = elim (pg.first ids) [ none ↦ no_rows | some id ↦ row id ]

unfoldable pub same_process : Text → ℕ → Text → ProcessRow → Bool
same_process ip pgid pname p = p.ipv4 == ip && p.pgid == pgid && p.pname == pname

unfoldable pub find_process : Text → ℕ → Text → List ProcessRow → Option ℕ
unfolding same_process
find_process ip pgid pname [] = none
find_process ip pgid pname (p ∷ ps) =
    if same_process ip pgid pname p then some p.process_id else find_process ip pgid pname ps

-- DO UPDATE SET updated = CURRENT_TIMESTAMP
unfoldable pub touch_process : ℕ → ℕ → List ProcessRow → List ProcessRow
touch_process now id [] = []
touch_process now id (p ∷ ps) =
    (if p.process_id == id then record p { updated = now } else p) ∷ touch_process now id ps

unfoldable pub write_process : ℕ → Text → ℕ → Text → Session → Answer × Session
unfolding find_process touch_process
write_process now ip pgid pname s =
    let next = s.sequences.process_seq + 1 in
    let seqs = record s.sequences { process_seq = next } in
    elim (find_process ip pgid pname s.tables.processes) [
      | some id ↦ (
        row id,
        record s {
          tables = record s.tables { processes = touch_process now id s.tables.processes };
          sequences = seqs;
        },
      )
      | none ↦ (
        row next,
        record s {
          tables = record s.tables {
            processes =
                s.tables.processes
                ++ record {
                  process_id = next;
                  ipv4 = ip;
                  pgid = pgid;
                  pname = pname;
                  created = now;
                  updated = now;
                }
                  ∷ [];
          };
          sequences = seqs;
        },
      )
    ]

unfoldable pub has_process : ℕ → List ProcessRow → Bool
has_process id = any (λ p. p.process_id == id)

-- The number that a new process would take stands in the table.
unfoldable pub process_taken : Text → ℕ → Text → Session → Bool
unfolding find_process has_process
process_taken ip pgid pname s = elim (find_process ip pgid pname s.tables.processes) [
  | none ↦ has_process (s.sequences.process_seq + 1) s.tables.processes
  | some id ↦ false
]

-- `insertProcessesSQL`. A value that its column does not take is an error.
unfoldable pub insert_processes : Postgres → ℕ → Text → ℕ → Text → Session → Answer × Session
unfolding write_process process_taken unless_taken fits_integer fits_name
insert_processes pg now ipv4 pgid pname s = elim (pg.to_inet ipv4) [
  | none ↦ (query_error, s)
  | some ip ↦
      if fits_integer pgid && fits_name pg pname
      then unless_taken (process_taken ip pgid pname s) (skip_process s)
          (write_process now ip pgid pname s)
      else (query_error, s)
]

unfoldable pub find_active : ℕ → List ActiveNode → Option ℕ
find_active pid [] = none
find_active pid (n ∷ ns) = if n.process_id == pid then some n.node_id else find_active pid ns

-- The update on a conflict writes the value that is there.
unfoldable pub write_active : ℕ → Session → Answer × Session
unfolding find_active has_process
write_active pid s =
    let next = s.sequences.active_seq + 1 in
    let s' = record s { sequences = record s.sequences { active_seq = next } } in
    if has_process pid s.tables.processes
    then elim (find_active pid s.tables.active_nodes) [
      | some id ↦ (row id, s')
      | none ↦ (
        row next,
        record s' {
          tables = record s.tables {
            active_nodes =
                s.tables.active_nodes ++ record { node_id = next; process_id = pid } ∷ [];
          };
        },
      )
    ]
    else (query_error, s')

unfoldable pub active_taken : ℕ → Session → Bool
unfolding find_active
active_taken pid s = elim (find_active pid s.tables.active_nodes) [
  | none ↦ any (λ n. n.node_id == s.sequences.active_seq + 1) s.tables.active_nodes
  | some id ↦ false
]

-- `insertActiveNodesSQL`
unfoldable pub insert_active_nodes : ℕ → Session → Answer × Session
unfolding write_active active_taken unless_taken
insert_active_nodes pid s = unless_taken (active_taken pid s) (skip_active s) (write_active pid s)

unfoldable pub find_passive : ℕ → ℕ → List PassiveNode → Option ℕ
find_passive pid port [] = none
find_passive pid port (n ∷ ns) =
    if n.process_id == pid && n.port == port then some n.node_id else find_passive pid port ns

unfoldable pub write_passive : ℕ → ℕ → Session → Answer × Session
unfolding find_passive has_process
write_passive pid port s =
    let next = s.sequences.passive_seq + 1 in
    let s' = record s { sequences = record s.sequences { passive_seq = next } } in
    if has_process pid s.tables.processes
    then elim (find_passive pid port s.tables.passive_nodes) [
      | some id ↦ (row id, s')
      | none ↦ (
        row next,
        record s' {
          tables = record s.tables {
            passive_nodes =
                s.tables.passive_nodes
                ++ record { node_id = next; port = port; process_id = pid } ∷ [];
          };
        },
      )
    ]
    else (query_error, s')

unfoldable pub passive_taken : ℕ → ℕ → Session → Bool
unfolding find_passive
passive_taken pid port s = elim (find_passive pid port s.tables.passive_nodes) [
  | none ↦ any (λ n. n.node_id == s.sequences.passive_seq + 1) s.tables.passive_nodes
  | some id ↦ false
]

-- `insertPassiveNodesSQL`; the port must be positive.
unfoldable pub insert_passive_nodes : Postgres → ℕ → Text → Session → Answer × Session
unfolding write_passive passive_taken unless_taken fits_integer
insert_passive_nodes pg pid port s = elim (pg.to_integer port) [
  | none ↦ (query_error, s)
  | some p ↦
      if ltb 0 p && fits_integer p
      then unless_taken (passive_taken pid p s) (skip_passive s) (write_passive pid p s)
      else (query_error, s)
]

-- The processes at an address, for `process_id IN (SELECT ...)`.
unfoldable pub runs_at : Text → List ProcessRow → ℕ → Bool
runs_at ip ps pid = any (λ p. p.process_id == pid && p.ipv4 == ip) ps

unfoldable pub active_at : Text → Tables → ℕ → Bool
unfolding runs_at
active_at ip t node =
    any (λ n. n.node_id == node && runs_at ip t.processes n.process_id) t.active_nodes

unfoldable pub passive_on : ℕ → Tables → ℕ → Bool
passive_on port t node = any (λ n. n.node_id == node && n.port == port) t.passive_nodes

unfoldable pub active_rows : ℕ → Text → Tables → List FlowRow → List ℕ
unfolding active_at passive_on
active_rows port ip t [] = []
active_rows port ip t (f ∷ fs) =
    let rest = active_rows port ip t fs in
    if passive_on port t f.destination_node_id && active_at ip t f.source_node_id
    then f.source_node_id ∷ rest
    else rest

-- `findActiveNodesSQL`: the sources, at the address, of flows to a passive node on the port.
unfoldable pub find_active_nodes : Postgres → Text → Text → Session → Answer × Session
unfolding active_rows first_row
find_active_nodes pg port ipv4 s = elim (pg.to_integer port) [
  | none ↦ (query_error, s)
  | some p ↦ elim (pg.to_inet ipv4) [
    | none ↦ (query_error, s)
    | some ip ↦ (first_row pg (active_rows p ip s.tables s.tables.flows), s)
  ]
]

unfoldable pub passive_rows : Text → ℕ → Tables → List PassiveNode → List ℕ
unfolding runs_at
passive_rows ip port t [] = []
passive_rows ip port t (n ∷ ns) =
    let rest = passive_rows ip port t ns in
    if runs_at ip t.processes n.process_id && n.port == port then n.node_id ∷ rest else rest

-- `findPassiveNodesSQL`: the passive nodes at the address, on the port.
unfoldable pub find_passive_nodes : Postgres → Text → Text → Session → Answer × Session
unfolding passive_rows first_row
find_passive_nodes pg ipv4 port s = elim (pg.to_inet ipv4) [
  | none ↦ (query_error, s)
  | some ip ↦ elim (pg.to_integer port) [
    | none ↦ (query_error, s)
    | some p ↦ (first_row pg (passive_rows ip p s.tables s.tables.passive_nodes), s)
  ]
]

-- `findPassiveNodesByProcessSQL`
unfoldable pub find_passive_nodes_by_process : Postgres → ℕ → Text → Session → Answer × Session
unfolding find_passive
find_passive_nodes_by_process pg pid port s = elim (pg.to_integer port) [
  | none ↦ (query_error, s)
  | some p ↦ elim (find_passive pid p s.tables.passive_nodes) [
    | none ↦ (no_rows, s)
    | some id ↦ (row id, s)
  ]
]

-- `findActiveNodesSQL` has two parameters; with one argument the driver answers an error.
unfoldable pub find_active_nodes_one_argument : ℕ → Session → Answer × Session
find_active_nodes_one_argument pid s = (query_error, s)

unfoldable pub same_edge : ℕ → ℕ → FlowRow → Bool
same_edge source destination f = f.source_node_id == source && f.destination_node_id == destination

unfoldable pub set_connections : ℕ → ℕ → ℕ → ℕ → List FlowRow → List FlowRow
unfolding same_edge
set_connections now source destination connections [] = []
set_connections now source destination connections (f ∷ fs) =
    (if same_edge source destination f
      then record f { connections = connections; updated = now }
      else f)
    ∷ set_connections now source destination connections fs

unfoldable pub write_flow : ℕ → ℕ → ℕ → ℕ → Session → Answer × Session
unfolding set_connections
write_flow now source destination connections s =
    let next = s.sequences.flow_seq + 1 in
    let s' = record s { sequences = record s.sequences { flow_seq = next } } in
    if any (same_edge source destination) s.tables.flows
    then (
      row next,
      record s' {
        tables = record s.tables {
          flows = set_connections now source destination connections s.tables.flows;
        };
      },
    )
    else (
      row next,
      record s' {
        tables = record s.tables {
          flows =
              s.tables.flows
              ++ record {
                flow_id = next;
                source_node_id = source;
                destination_node_id = destination;
                connections = connections;
                created = now;
                updated = now;
              }
                ∷ [];
        };
      },
    )

unfoldable pub flow_taken : ℕ → ℕ → Session → Bool
unfolding same_edge
flow_taken source destination s =
    if any (same_edge source destination) s.tables.flows
    then false
    else any (λ f. f.flow_id == s.sequences.flow_seq + 1) s.tables.flows

-- `insertFlowsSQL`, whose result rows the code does not read: both nodes must exist, and the
-- connections must be positive.
unfoldable pub insert_flows : ℕ → ℕ → ℕ → ℕ → Session → Answer × Session
unfolding write_flow flow_taken unless_taken fits_integer
insert_flows now source destination connections s =
    if ltb 0 connections
      && fits_integer connections
      && any (λ n. n.node_id == source) s.tables.active_nodes
      && any (λ n. n.node_id == destination) s.tables.passive_nodes
    then unless_taken (flow_taken source destination s) (skip_flow s)
        (write_flow now source destination connections s)
    else (query_error, s)
