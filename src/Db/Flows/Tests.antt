-- ===== src/Db/Flows/Tests.antt =====
-- Tests of the loop of `FindPassiveFlows` and of `Node.String`.
use shawk.Prelude.{
  ◌≡◌, ◌∷◌, Outcome, ok, Text, codes, text_eq, refl, true, List, [], map, nat_eq, text_equality,
}
use shawk.Net.{ip_string}
use shawk.Strconv.{format_int}
use shawk.Prelude.Map.{lookup, insert}
use shawk.Db.Flows.{
  Node, node_string, Flows, FindFlowsCond, Row, scanned, Rows, rows, passive_key,
  find_passive_flows,
}

abbrev row_to_nginx : Row
row_to_nginx = record {
  pipv4 = 10 ∷ 0 ∷ 0 ∷ 1 ∷ [];
  ppname = codes "nginx";
  pport = 80;
  ppgid = 1002;
  aipv4 = 10 ∷ 0 ∷ 0 ∷ 2 ∷ [];
  apname = codes "python";
  apgid = 1001;
  connections = 12;
}

abbrev cond : FindFlowsCond
cond = record { addrs = (10 ∷ 0 ∷ 0 ∷ 1 ∷ []) ∷ []; since = 0; until = 0 }

abbrev two : List Row
two = row_to_nginx ∷ record row_to_nginx { ppname = codes "ssh" } ∷ []

abbrev answering : FindFlowsCond → Rows
answering c = rows (map scanned two) true

abbrev client : Node
client = record { ip_addr = 10 ∷ 0 ∷ 0 ∷ 2 ∷ []; port = 0; pgid = 1001; pname = codes "python" }

string_of_client : node_string client ≡ codes "10.0.0.2:many ('python', pgid=1001)"
unfolding node_string ip_string format_int
string_of_client = refl

abbrev keys : Outcome Flows → List Text
keys (ok flows) = map (λ (k, fs). k) flows
keys _ = []

-- One group for each process name.
keys_of_two :
    keys (find_passive_flows answering 5 cond).0
    ≡ codes "10.0.0.1-nginx" ∷ codes "10.0.0.1-ssh" ∷ []
unfolding find_passive_flows passive_key ip_string format_int lookup insert text_eq
keys_of_two = refl
