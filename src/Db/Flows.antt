-- ===== src/Db/Flows.antt =====
-- `FindPassiveFlows` and `FindActiveFlows` of db.go: the rows of a query become a map of flows.
pub mod Grouped
mod Tests
use shawk.Prelude.{
  ◌∷◌, ◌++◌, ◌==◌, if◌then◌else◌, ◌>>=◌, system_error, Outcome, ok, err, Text, codes, ℕ, Bool, true,
  false, none, some, List, [], map, nat_eq, text_equality,
}
use shawk.Prelude.Map.{lookup, insert}
use shawk.Strconv.{format_int}
use shawk.Net.{Ip, ip_string, to4}
use shawk.Probe.{many}

-- `Node`
pub record Node : Type 0 where
  pub ip_addr : Ip
  pub port : ℕ
  pub pgid : ℕ
  pub pname : Text

-- `Node.String`
unfoldable pub node_string : Node → Text
node_string n =
    ip_string n.ip_addr
    ++ codes ":"
    ++ (if n.port == 0 then many else format_int n.port)
    ++ codes " ('"
    ++ n.pname
    ++ codes "', pgid="
    ++ format_int n.pgid
    ++ codes ")"

-- `Flow`
pub record Flow : Type 0 where
  pub active_node : Node
  pub passive_node : Node
  pub connections : ℕ

-- `Flows`, a map from keys.
abbrev pub Flows : Type 0
Flows = List (Text × List Flow)

-- `FindFlowsCond`; the zero time is 0, and nil is the empty address.
pub record FindFlowsCond : Type 0 where
  pub addrs : List Ip
  pub since : ℕ
  pub until : ℕ

-- A row of either query.
pub record Row : Type 0 where
  pub pipv4 : Ip
  pub ppname : Text
  pub pport : ℕ
  pub ppgid : ℕ
  pub aipv4 : Ip
  pub apname : Text
  pub apgid : ℕ
  pub connections : ℕ

-- What `rows.Scan` gives.
pub data RowRead : Type 0 where
  scanned : Row → RowRead
  scan_failed : RowRead

-- What a query gives: `pgx.ErrNoRows`, another error, or rows, after which `rows.Err` is nil or not.
pub data Rows : Type 0 where
  no_rows query_failed : Rows
  rows : List RowRead → Bool → Rows

-- `flows[key]`, nil for a missing key.
unfoldable pub flows_at : Text → Flows → List Flow
flows_at key flows = elim (lookup key flows) [ none ↦ [] | some fs ↦ fs ]

unfoldable pub flow_of_row : Row → Flow
flow_of_row r = record {
  active_node = record { ip_addr = r.aipv4; port = 0; pgid = r.apgid; pname = r.apname };
  passive_node = record { ip_addr = r.pipv4; port = r.pport; pgid = r.ppgid; pname = r.ppname };
  connections = r.connections;
}

-- The keys: `fmt.Sprintf("%s-%s", pipv4, ppname)` and `fmt.Sprintf("%s-%s", aipv4, apname)`.
unfoldable pub passive_key : Row → Text
passive_key r = ip_string r.pipv4 ++ (b'-' ∷ r.ppname)

unfoldable pub active_key : Row → Text
active_key r = ip_string r.aipv4 ++ (b'-' ∷ r.apname)

unfoldable pub to4_or_nil : Ip → Ip
to4_or_nil ip = elim (to4 ip) [ none ↦ [] | some ip4 ↦ ip4 ]

-- The condition as the functions overwrite it, at the time `now`.
unfoldable pub prepared : ℕ → FindFlowsCond → FindFlowsCond
unfolding to4_or_nil
prepared now cond = record cond {
  addrs = map to4_or_nil cond.addrs;
  until = if cond.until == 0 then now else cond.until;
}

module _ (key : Row → Text) where
  -- The loop over the rows.
  unfoldable pub add_rows : Flows → List RowRead → Outcome Flows
  unfolding flows_at flow_of_row
  add_rows flows [] = ok flows
  add_rows flows (scan_failed ∷ reads) = err (system_error 12)
  add_rows flows (scanned r ∷ reads) =
      add_rows (insert (key r) (flows_at (key r) flows ++ flow_of_row r ∷ []) flows) reads

  -- The look at `rows.Err`.
  unfoldable pub checked : Bool → Flows → Outcome Flows
  checked true flows = ok flows
  checked false flows = err (system_error 13)

  unfoldable pub collect : Rows → Outcome Flows
  unfolding add_rows checked
  collect no_rows = ok []
  collect query_failed = err (system_error 14)
  collect (rows reads fine) = do flows ← add_rows [] reads; checked fine flows

  -- The two functions alike, from the addresses of the condition.
  unfoldable pub find_flows :
      (FindFlowsCond → Rows) → ℕ → FindFlowsCond → List Ip → Outcome Flows × FindFlowsCond
  unfolding collect prepared
  find_flows query now cond [] = (ok [], cond)
  find_flows query now cond (a ∷ addrs) =
      let cond' = prepared now cond in (collect (query cond'), cond')

-- `FindPassiveFlows`, where `query` is the answer of the server to the query of the function.
unfoldable pub find_passive_flows :
    (FindFlowsCond → Rows) → ℕ → FindFlowsCond → Outcome Flows × FindFlowsCond
unfolding find_flows
find_passive_flows query now cond = find_flows passive_key query now cond cond.addrs

-- `FindActiveFlows`
unfoldable pub find_active_flows :
    (FindFlowsCond → Rows) → ℕ → FindFlowsCond → Outcome Flows × FindFlowsCond
unfolding find_flows
find_active_flows query now cond = find_flows active_key query now cond cond.addrs
