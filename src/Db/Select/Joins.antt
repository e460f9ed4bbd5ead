-- ===== src/Db/Select/Joins.antt =====
-- The rows of the joins of `FindPassiveFlows` and `FindActiveFlows`.
use shawk.Prelude.{
  ◌≡◌, keep, Among, Among-keep, keep-Among, Among-map, map-Among, Among-flat_map, flat_map-Among,
  nat_eq, Bool, true, arith,
}
use shawk.Db.Tables.{ProcessRow, FlowRow, Tables}
use shawk.Db.Select.{Joined, join_passive, join_active, inner_join}

-- The parts are rows of the tables, and the foreign keys connect them.
pub record IsJoin (t : Tables) (j : Joined) : Type 0 where
  pub flow : Among j.flow t.flows
  pub active_node : Among j.active_node t.active_nodes
  pub active_process : Among j.active_process t.processes
  pub passive_node : Among j.passive_node t.passive_nodes
  pub passive_process : Among j.passive_process t.processes
  pub source : j.active_node.node_id ≡ j.flow.source_node_id
  pub opens : j.active_process.process_id ≡ j.active_node.process_id
  pub destination : j.passive_node.node_id ≡ j.flow.destination_node_id
  pub accepts : j.passive_process.process_id ≡ j.passive_node.process_id

module _ (flows : FlowRow → Bool) (actives passives : ProcessRow → Bool) (t : Tables) where
  pub inner_join-Among :
      (j : Joined)
      → IsJoin t j
      → flows j.flow ≡ true
      → actives j.active_process ≡ true
      → passives j.passive_process ≡ true
      → Among j (inner_join flows actives passives t)
  unfolding inner_join join_active join_passive
  inner_join-Among j is f a p =
      flat_map-Among _ (keep flows t.flows) j.flow j (keep-Among flows t.flows j.flow is.flow f) (
        flat_map-Among _ _ j.active_node j
          (keep-Among _ t.active_nodes j.active_node is.active_node
            ((nat_eq.beq_iff _ _).1 is.source))
          (flat_map-Among _ _ j.active_process j
            (keep-Among _ t.processes j.active_process is.active_process
              (ground (arith, a, is.opens)))
            (flat_map-Among _ _ j.passive_node j
              (keep-Among _ t.passive_nodes j.passive_node is.passive_node
                ((nat_eq.beq_iff _ _).1 is.destination))
              (map-Among _ _ j.passive_process (
                keep-Among _ t.processes j.passive_process is.passive_process
                  (ground (arith, p, is.accepts)))))))

  pub Among-inner_join :
      (j : Joined)
      → Among j (inner_join flows actives passives t)
      → IsJoin t j
        × (flows j.flow ≡ true)
        × (actives j.active_process ≡ true)
        × (passives j.passive_process ≡ true)
  unfolding inner_join join_active join_passive
  Among-inner_join j m =
      let (f, in_flows, m1) = Among-flat_map _ (keep flows t.flows) j m in
      let (n, in_nodes, m2) = Among-flat_map _ _ j m1 in
      let (p, in_actives, m3) = Among-flat_map _ _ j m2 in
      let (o, in_passive_nodes, m4) = Among-flat_map _ _ j m3 in
      let (r, in_passives, e) = Among-map _ _ j m4 in
      let (a1, b1) = Among-keep flows t.flows f in_flows in
      let (a2, b2) = Among-keep _ t.active_nodes n in_nodes in
      let (a3, b3) = Among-keep _ t.processes p in_actives in
      let (a4, b4) = Among-keep _ t.passive_nodes o in_passive_nodes in
      let (a5, b5) = Among-keep _ t.processes r in_passives in
      rw e (
        record {
          flow = a1;
          active_node = a2;
          active_process = a3;
          passive_node = a4;
          passive_process = a5;
          source = (nat_eq.beq_iff _ _).0 b2;
          opens = ground (arith, b3);
          destination = (nat_eq.beq_iff _ _).0 b4;
          accepts = ground (arith, b5);
        },
        b1,
        ground (arith, b3),
        ground (arith, b5),
      )
