-- ===== src/Agent/Streaming/Aggregate.antt =====
-- `aggregate` counts every flow that it takes from the channel once.
use mathlib.Core.List.{Perm, Permᴰ}
use mathlib.Core.Logic.{∥∥₁_elim}
use native.Mathlib.Nat.{ℕ_set}
use shawk.Prelude.{
  ◌+◌, ◌^◌, ◌<◌, ◌≡◌, ◌∙◌, ◌∷◌, ◌++◌, ◌==◌, Option-cases, length, All, Text, text_eq_iff, ℕ, suc,
  refl, inl, inr, false, Option, none, some, List, [], arith, nat_eq, text_equality,
}
use shawk.Prelude.Map.{lookup, insert}
use shawk.Probe.{increment, HostFlow, HostFlows, uniq_key, merge, insert_flow, insert_flows, values}
use shawk.Probe.Flows.{IsFresh, total, total-insert_flows}
use shawk.Agent.Streaming.{fill, bump, aggregate_step, aggregate_loop, aggregate}

insert-insert :
    (k : Text) (f g : HostFlow) (m : HostFlows) → insert k g (insert k f m) ≡ insert k g m
unfolding insert
insert-insert k f g [] = ground (arith, text_eq_iff k k)
insert-insert k f g ((j, h) ∷ m) =
    ground (arith, text_eq_iff j k, text_eq_iff k k, insert-insert k f g m)

lookup-insert_self : (k : Text) (f : HostFlow) (m : HostFlows) → lookup k (insert k f m) ≡ some f
unfolding insert lookup
lookup-insert_self k f [] = ground (arith, text_eq_iff k k)
lookup-insert_self k f ((j, h) ∷ m) =
    ground (arith, text_eq_iff j k, text_eq_iff k k, lookup-insert_self k f m)

bump-fill :
    (key : Text) (flow : HostFlow) (m : HostFlows) (o : Option HostFlow)
    → lookup key m ≡ o
    → bump key (fill key flow o m) ≡ insert key (merge o flow) m
unfolding bump fill merge
bump-fill key flow m none e = ground (
  arith,
  lookup-insert_self key flow m,
  insert-insert key flow (record flow { connections = increment flow.connections }) m,
)
bump-fill key flow m (some old) e = elim (Option-cases old.process) [
  | inl missing ↦
      let filled = record old { process = flow.process } in
      ground (
        arith,
        lookup-insert_self key filled m,
        insert-insert key filled (record filled { connections = increment old.connections }) m,
      )
  | inr (p, named) ↦ ground arith
]

-- The loop body of `aggregate` is `HostFlows.Insert`, written out a second time.
pub aggregate_step-insert_flow :
    (m : HostFlows) (flow : HostFlow) → aggregate_step m flow ≡ insert_flow m flow
unfolding aggregate_step insert_flow merge
aggregate_step-insert_flow m flow = bump-fill (uniq_key flow) flow m (lookup (uniq_key flow) m) refl

aggregate_loop-insert_flows :
    (m : HostFlows) (buffer arrivals : List HostFlow)
    → aggregate_loop (length buffer) m (buffer ++ arrivals) ≡ (insert_flows m buffer, arrivals)
unfolding aggregate_loop insert_flows
aggregate_loop-insert_flows m [] arrivals = refl
aggregate_loop-insert_flows m (f ∷ buffer) arrivals =
    rw aggregate_step-insert_flow (aggregate_loop-insert_flows (insert_flow m f) buffer arrivals)

-- The connections of a slice of flows.
unfoldable pub sum_connections : List HostFlow → ℕ
sum_connections [] = 0
sum_connections (f ∷ fs) = f.connections + sum_connections fs

sum-permᴰ : {fs gs : List HostFlow} → Permᴰ fs gs → sum_connections fs ≡ sum_connections gs
unfolding sum_connections
sum-permᴰ Permᴰ.nil = refl
sum-permᴰ (Permᴰ.cons e p) = ground (arith, sum-permᴰ p)
sum-permᴰ (Permᴰ.swap e f) = ground arith
sum-permᴰ (Permᴰ.trans p q) = sum-permᴰ p ∙ sum-permᴰ q

sum-perm : {fs gs : List HostFlow} → Perm fs gs → sum_connections fs ≡ sum_connections gs
sum-perm {fs} {gs} p = ∥∥₁_elim p (ℕ_set (sum_connections fs) (sum_connections gs)) sum-permᴰ

sum-values : (m : HostFlows) → sum_connections (values m) ≡ total m
unfolding sum_connections values total
sum-values [] = refl
sum-values ((k, f) ∷ m) = rw (sum-values m)

-- The connections of the flows of a map, in whatever order.
pub sum-iterate :
    (iterate : HostFlows → List HostFlow)
    → ((m : HostFlows) → Perm (iterate m) (values m))
    → (m : HostFlows) → sum_connections (iterate m) ≡ total m
sum-iterate iterate lists m = sum-perm (lists m) ∙ sum-values m

nonzero : (n : ℕ) → (suc n == 0) ≡ false
nonzero n = ground arith

-- Whatever the order in which Go lists a map: one run of `aggregate` over a channel of fewer than
-- 2^64 fresh flows takes exactly the flows that were in the channel when it began, returns flows
-- whose connections sum to their number, and leaves what arrived meanwhile.
pub sum-aggregate :
    (iterate : HostFlows → List HostFlow) (buffer arrivals : List HostFlow)
    → ((m : HostFlows) → Perm (iterate m) (values m))
    → All IsFresh buffer
    → length buffer < 2 ^ 64
    → (sum_connections (aggregate iterate buffer arrivals).0 ≡ length buffer)
      × ((aggregate iterate buffer arrivals).1 ≡ arrivals)
unfolding aggregate
sum-aggregate iterate [] arrivals lists fresh small = (unfold sum_connections in refl, refl)
sum-aggregate iterate (f ∷ buffer) arrivals lists fresh small =
    rw (aggregate_loop-insert_flows [] (f ∷ buffer) arrivals, nonzero (length buffer))
      (
        sum-iterate iterate lists (insert_flows [] (f ∷ buffer))
            ∙ total-insert_flows (f ∷ buffer) fresh small,
        refl,
      )
