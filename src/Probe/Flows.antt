-- ===== src/Probe/Flows.antt =====
-- `HostFlows.Insert` of probe/probe.go, called in a loop: what the map holds afterwards.
use shawk.Prelude.{
  ◌+◌, ◌^◌, ◌≤◌, ◌<◌, ◌≡◌, ◌∙◌, ◌∷◌, ◌==◌, if◌then◌else◌, length, keep, count, All, Text,
  text_eq_iff, ℕ, Bool, Option, none, some, List, [], arith, nat_eq, text_equality,
}
use shawk.Prelude.Map.{lookup, insert, lookup-insert}
use shawk.Probe.{
  HostFlow, HostFlows, Process, uniq_key, fill_process, merge, insert_flow, insert_flows,
}

-- The test that a flow is stored under the key `k`.
abbrev pub has_key : Text → HostFlow → Bool
has_key k f = uniq_key f == k

abbrev connections_of : Option HostFlow → ℕ
connections_of none = 0
connections_of (some f) = f.connections

-- The connections counted under a key; 0 if the key is missing.
abbrev pub connections_at : Text → HostFlows → ℕ
connections_at k hf = connections_of (lookup k hf)

abbrev process_of : Option HostFlow → Option Process
process_of none = none
process_of (some f) = f.process

abbrev pub process_at : Text → HostFlows → Option Process
process_at k hf = process_of (lookup k hf)

-- A flow that a probe has just built: nothing is counted yet.
abbrev pub IsFresh : HostFlow → Type 0
IsFresh f = f.connections ≡ 0

-- The first process that the flows name.
unfoldable pub first_process : List HostFlow → Option Process
first_process [] = none
first_process (f ∷ fs) = elim f.process [ none ↦ first_process fs | some p ↦ some p ]

module _ (k : Text) where
  pub lookup-insert_flow :
      (hf : HostFlows) (f : HostFlow)
      → lookup k (insert_flow hf f)
        ≡ (if has_key k f then some (merge (lookup k hf) f) else lookup k hf)
  unfolding insert_flow
  lookup-insert_flow hf f = ground (
    arith,
    lookup-insert (uniq_key f) k (merge (lookup (uniq_key f) hf) f) hf,
    text_eq_iff (uniq_key f) k,
  )

  connections_at-insert_flow :
      (hf : HostFlows) (f : HostFlow)
      → IsFresh f
      → connections_at k hf + 1 < 2 ^ 64
      → connections_at k (insert_flow hf f)
        ≡ (if has_key k f then connections_at k hf + 1 else connections_at k hf)
  unfolding merge
  connections_at-insert_flow hf f fresh small = ground (arith, lookup-insert_flow hf f)

  connections_at-insert_flows_from :
      (hf : HostFlows) (fs : List HostFlow)
      → All IsFresh fs
      → connections_at k hf + length fs < 2 ^ 64
      → connections_at k (insert_flows hf fs) ≡ connections_at k hf + count (has_key k) fs
  unfolding insert_flows count
  connections_at-insert_flows_from hf [] fresh small = omega arith
  connections_at-insert_flows_from hf (f ∷ fs) fresh small = ground (
    arith,
    connections_at-insert_flow hf f fresh.0,
    connections_at-insert_flows_from (insert_flow hf f) fs fresh.1,
  )

  -- Fresh flows inserted one by one into an empty map, fewer than 2^64 of them: under each key the
  -- map counts exactly the flows with that key.
  pub connections_at-insert_flows :
      (fs : List HostFlow)
      → All IsFresh fs
      → length fs < 2 ^ 64
      → connections_at k (insert_flows [] fs) ≡ count (has_key k) fs
  unfolding lookup
  connections_at-insert_flows fs fresh small =
      connections_at-insert_flows_from [] fs fresh (omega arith) ∙ omega arith

  process_at-insert_flows_from :
      (hf : HostFlows) (fs : List HostFlow)
      → process_at k (insert_flows hf fs)
        ≡ fill_process (process_at k hf) (first_process (keep (has_key k) fs))
  unfolding insert_flows keep first_process merge
  process_at-insert_flows_from hf [] = ground arith
  process_at-insert_flows_from hf (f ∷ fs) =
      ground (arith, lookup-insert_flow hf f, process_at-insert_flows_from (insert_flow hf f) fs)

  -- Under each key the map names the first process that a flow with that key named.
  pub process_at-insert_flows :
      (fs : List HostFlow) → process_at k (insert_flows [] fs) ≡ first_process (keep (has_key k) fs)
  unfolding lookup fill_process
  process_at-insert_flows fs = process_at-insert_flows_from [] fs

-- The sum of the connections of all entries.
unfoldable pub total : HostFlows → ℕ
total [] = 0
total ((k, f) ∷ hf) = f.connections + total hf

total-insert :
    (k : Text) (v : HostFlow) (hf : HostFlows)
    → total (insert k v hf) + connections_at k hf ≡ total hf + v.connections
unfolding total insert lookup
total-insert k v [] = omega arith
total-insert k v ((j, w) ∷ hf) = ground (arith, total-insert k v hf)

connections_at-le-total : (k : Text) (hf : HostFlows) → connections_at k hf ≤ total hf
unfolding total lookup
connections_at-le-total k [] = omega arith
connections_at-le-total k ((j, w) ∷ hf) = ground (arith, connections_at-le-total k hf)

pub total-insert_flow :
    (hf : HostFlows) (f : HostFlow)
    → IsFresh f
    → total hf + 1 < 2 ^ 64
    → total (insert_flow hf f) ≡ total hf + 1
unfolding insert_flow merge
total-insert_flow hf f fresh small =
    let key = uniq_key f in
    ground (arith, total-insert key (merge (lookup key hf) f) hf, connections_at-le-total key hf)

total-insert_flows_from :
    (hf : HostFlows) (fs : List HostFlow)
    → All IsFresh fs
    → total hf + length fs < 2 ^ 64
    → total (insert_flows hf fs) ≡ total hf + length fs
unfolding insert_flows
total-insert_flows_from hf [] fresh small = omega arith
total-insert_flows_from hf (f ∷ fs) fresh small = omega (
  arith,
  total-insert_flow hf f fresh.0 (omega arith),
  total-insert_flows_from (insert_flow hf f) fs fresh.1
      (rw (total-insert_flow hf f fresh.0 (omega arith)) (omega arith)),
)

-- Grouping loses no connection and counts none twice: fresh flows, fewer than 2^64 of them, give a
-- map whose connections sum to their number.
pub total-insert_flows :
    (fs : List HostFlow)
    → All IsFresh fs
    → length fs < 2 ^ 64
    → total (insert_flows [] fs) ≡ length fs
unfolding total
total-insert_flows fs fresh small = total-insert_flows_from [] fs fresh (omega arith) ∙ omega arith
