-- ===== src/Db/Select/Tests.antt =====
-- Tests of the queries of `FindPassiveFlows` and `FindActiveFlows`, on the flows of db_test.go.
use shawk.Prelude.{
  ◌≡◌, ◌∷◌, length, keep, flat_map, system_error, Outcome, ok, err, Text, codes, text_eq, ℕ, refl,
  true, List, [], map, nat_eq, text_equality,
}
use shawk.Strconv.{format_uint}
use shawk.Prelude.Map.{insert, lookup}
use shawk.Net.{ip_string}
use shawk.Probe.{HostFlow}
use shawk.Db.Session.{Session}
use shawk.Db.Insert.{insert_or_update_host_flows}
use shawk.Db.Insert.Samples.{server, empty, program, flows, written, opened}
use shawk.Db.Flows.{Flows, FindFlowsCond, flows_at, prepared, find_passive_flows, find_active_flows}
use shawk.Db.Select.{can_send, passive_side, active_side, select_passive, select_active}
use shawk.Db.Select.Latest.{IsLatest}
use shawk.Db.Select.Found
use shawk.Db.Select.Samples.{
  sent, here, there, ip_of, newest, driver, driver-IsSelects, written-IsHost,
}

abbrev asked : FindFlowsCond
asked = record { addrs = here ∷ []; since = 3; until = 0 }

abbrev asked_peer : FindFlowsCond
asked_peer = record asked { addrs = there ∷ [] }

-- The second flow of a process goes to another port.
abbrev second : HostFlow
second = record opened { peer = record opened.peer { port = codes "6379" } }

abbrev two_edges : Session
two_edges = (insert_or_update_host_flows server 7 (opened ∷ second ∷ []) empty).1

abbrev lengths : Outcome Flows → List ℕ
lengths (ok flows) = map (λ (k, fs). length fs) flows
lengths _ = []

-- Two edges lead from the process, and the search has one flow.
two_flows :
    map {B = ℕ × ℕ} (λ f. (f.source_node_id, f.destination_node_id)) two_edges.tables.flows
    ≡ (1, 1) ∷ (1, 2) ∷ []
unfolding program
two_flows = refl

one_flow_of_two :
    lengths (find_active_flows (select_active driver two_edges.tables) 9 asked).0 ≡ 1 ∷ []
unfolding program ip_of ip_string text_eq format_uint newest find_active_flows select_active sent
    flat_map keep insert lookup
one_flow_of_two = refl

asked-sent : can_send driver (prepared 9 asked).addrs ≡ true
unfolding can_send sent prepared
asked-sent = refl

find_flows-IsLatest_example :
    ((found : Flows) × ((find_passive_flows (select_passive driver written.tables) 9 asked).0
        ≡ ok found)
      × ((k : Text)
          → IsLatest driver written.tables (prepared 9 asked) passive_side k (flows_at k found)))
    × ((found : Flows) × ((find_active_flows (select_active driver written.tables) 9 asked).0
          ≡ ok found)
        × ((k : Text)
            → IsLatest driver written.tables (prepared 9 asked) active_side k (flows_at k found)))
find_flows-IsLatest_example =
    Found.find_flows-IsLatest driver driver-IsSelects written.tables written-IsHost 9 asked here []
      refl asked-sent

-- `To4` makes nil of an IPv6 address, and the search fails.
refused :
    (find_active_flows (select_active driver written.tables) 9 (record asked {
      addrs = (32 ∷ 1 ∷ 13 ∷ 184 ∷ 0 ∷ 0 ∷ 0 ∷ 0 ∷ 0 ∷ 0 ∷ 0 ∷ 0 ∷ 0 ∷ 0 ∷ 0 ∷ 1 ∷ []) ∷ [];
    })).0
    ≡ err (system_error 14)
unfolding find_active_flows select_active can_send sent
refused = refl
