-- ===== src/Agent/Streaming/Tests.antt =====
-- The theorems on streaming.go at concrete inputs.
use mathlib.Core.List.Perm
use shawk.Prelude.{◌≡◌, ◌∷◌, codes, refl, none, [], arith}
use shawk.Probe.{HostFlow, flow_active, many, values}
use shawk.Agent.Streaming.{aggregate}
use shawk.Agent.Streaming.Aggregate

abbrev flow : HostFlow
flow = record {
  direction = flow_active;
  local = record { name = []; addr = codes "10.0.10.1"; port = many };
  peer = record { name = []; addr = codes "10.0.10.2"; port = codes "80" };
  connections = 0;
  process = none;
}

sum-aggregate_example :
    (Aggregate.sum_connections (aggregate values (flow ∷ flow ∷ []) (flow ∷ [])).0 ≡ 2)
    × ((aggregate values (flow ∷ flow ∷ []) (flow ∷ [])).1 ≡ flow ∷ [])
sum-aggregate_example =
    Aggregate.sum-aggregate values (flow ∷ flow ∷ []) (flow ∷ []) (λ m. Perm.refl (values m))
      (refl, (refl, tt)) (omega arith)
