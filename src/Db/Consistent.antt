-- ===== src/Db/Consistent.antt =====
-- The constraints UNIQUE and REFERENCES of flows.sql, kept by the statements of db.go.
pub mod Keys
pub mod Inserts
pub mod Numbers
pub mod Sound
pub mod SoundInserts
use shawk.Prelude.{
  ◌≤◌, ◌≡◌, ◌&&◌, ◌∷◌, ◌++◌, ◌==◌, count, any, any-append_left, All, Text, ℕ, Bool, true, List, [],
  nat_eq, text_equality,
}
use shawk.Probe.Keys.{All-map, All-append}
use shawk.Db.Tables.{ProcessRow, ActiveNode, PassiveNode, FlowRow, Tables}
use shawk.Db.Statements.{
  same_process, find_process, touch_process, has_process, find_active, find_passive, same_edge,
  set_connections,
}

unfoldable pub owned_by : ℕ → ActiveNode → Bool
owned_by pid n = n.process_id == pid

unfoldable pub listens_on : ℕ → ℕ → PassiveNode → Bool
listens_on pid port n = n.process_id == pid && n.port == port

-- Both ends of a flow are there.
abbrev pub HasEnds : Tables → FlowRow → Type 0
HasEnds t f =
    (any (λ n. n.node_id == f.source_node_id) t.active_nodes ≡ true)
    × (any (λ n. n.node_id == f.destination_node_id) t.passive_nodes ≡ true)

-- No two rows of a table have the same unique columns, and every reference has its row.
pub record IsConsistent (t : Tables) : Type 0 where
  pub process_key :
      (ip : Text) (pgid : ℕ) (pname : Text) → count (same_process ip pgid pname) t.processes ≤ 1
  pub active_key : (pid : ℕ) → count (owned_by pid) t.active_nodes ≤ 1
  pub passive_key : (pid port : ℕ) → count (listens_on pid port) t.passive_nodes ≤ 1
  pub flow_key : (source destination : ℕ) → count (same_edge source destination) t.flows ≤ 1
  pub active_refs : All (λ n. has_process n.process_id t.processes ≡ true) t.active_nodes
  pub passive_refs : All (λ n. has_process n.process_id t.processes ≡ true) t.passive_nodes
  pub flow_refs : All (HasEnds t) t.flows

pub with_processes :
    (t : Tables) (ps : List ProcessRow)
    → IsConsistent t
    → ((ip : Text) (pgid : ℕ) (pname : Text) → count (same_process ip pgid pname) ps ≤ 1)
    → ((id : ℕ) → has_process id t.processes ≡ true → has_process id ps ≡ true)
    → IsConsistent (record t { processes = ps })
with_processes t ps c key grows = record {
  process_key = key;
  active_key = c.active_key;
  passive_key = c.passive_key;
  flow_key = c.flow_key;
  active_refs = All-map _ _ t.active_nodes (λ n. grows n.process_id) c.active_refs;
  passive_refs = All-map _ _ t.passive_nodes (λ n. grows n.process_id) c.passive_refs;
  flow_refs = c.flow_refs;
}

pub with_active :
    (t : Tables) (n : ActiveNode)
    → IsConsistent t
    → ((pid : ℕ) → count (owned_by pid) (t.active_nodes ++ n ∷ []) ≤ 1)
    → has_process n.process_id t.processes ≡ true
    → IsConsistent (record t { active_nodes = t.active_nodes ++ n ∷ [] })
with_active t n c key ref = record {
  process_key = c.process_key;
  active_key = key;
  passive_key = c.passive_key;
  flow_key = c.flow_key;
  active_refs = All-append _ t.active_nodes (n ∷ []) c.active_refs (ref, tt);
  passive_refs = c.passive_refs;
  flow_refs =
      All-map _ (HasEnds (record t { active_nodes = t.active_nodes ++ n ∷ [] })) t.flows
        (λ f ends. (any-append_left _ t.active_nodes (n ∷ []) ends.0, ends.1)) c.flow_refs;
}

pub with_passive :
    (t : Tables) (n : PassiveNode)
    → IsConsistent t
    → ((pid port : ℕ) → count (listens_on pid port) (t.passive_nodes ++ n ∷ []) ≤ 1)
    → has_process n.process_id t.processes ≡ true
    → IsConsistent (record t { passive_nodes = t.passive_nodes ++ n ∷ [] })
with_passive t n c key ref = record {
  process_key = c.process_key;
  active_key = c.active_key;
  passive_key = key;
  flow_key = c.flow_key;
  active_refs = c.active_refs;
  passive_refs = All-append _ t.passive_nodes (n ∷ []) c.passive_refs (ref, tt);
  flow_refs =
      All-map _ (HasEnds (record t { passive_nodes = t.passive_nodes ++ n ∷ [] })) t.flows
        (λ f ends. (ends.0, any-append_left _ t.passive_nodes (n ∷ []) ends.1)) c.flow_refs;
}

pub with_flows :
    (t : Tables) (fs : List FlowRow)
    → IsConsistent t
    → ((source destination : ℕ) → count (same_edge source destination) fs ≤ 1)
    → All (HasEnds t) fs
    → IsConsistent (record t { flows = fs })
with_flows t fs c key refs = record {
  process_key = c.process_key;
  active_key = c.active_key;
  passive_key = c.passive_key;
  flow_key = key;
  active_refs = c.active_refs;
  passive_refs = c.passive_refs;
  flow_refs = refs;
}
