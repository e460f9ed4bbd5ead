-- ===== src/Agent/Streaming/Aggregator/Tests.antt =====
-- The theorems on `aggregator` at concrete inputs.
use shawk.Prelude.{
  ◌+◌, ◌≡◌, ◌∷◌, system_error, Outcome, ok, err, codes, ℕ, refl, true, false, none, List, [],
}
use shawk.Probe.{HostFlow, values, flow_active}
use shawk.Agent.Streaming.{aggregate}
use shawk.Agent.Channel.{done, blocked, make_channel, ErrChan}
use shawk.Agent.Streaming.Aggregator.{Round, error_ready, tick, aggregator}
use shawk.Agent.Streaming.Aggregator.Blocks

-- A database that can not be reached.
refusing : List HostFlow → ℕ → Outcome ℕ × ℕ
refusing [] db = (ok 0, db)
refusing (f ∷ fs) db = (err (system_error 5), db + 1)

abbrev web : HostFlow
web = record {
  direction = flow_active;
  local = record { name = []; addr = codes "10.0.10.1"; port = codes "many" };
  peer = record { name = []; addr = codes "10.0.10.2"; port = codes "5432" };
  connections = 0;
  process = none;
}

-- The second tick with a flow comes before the error of the first is taken.
abbrev hasty : List Round
hasty = tick (web ∷ []) [] ∷ tick [] [] ∷ tick (web ∷ []) [] ∷ error_ready ∷ []

hasty-overlooks : Blocks.overlooks values false hasty ≡ true
unfolding values aggregate shawk.Agent.Streaming.aggregate_step shawk.Prelude.Map.lookup
    shawk.Prelude.Map.insert shawk.Prelude.text_eq shawk.Probe.uniq_key shawk.Probe.direction_string
    shawk.Probe.addr_port_string shawk.Strconv.join_host_port shawk.Prelude.any
hasty-overlooks = refl

aggregator-blocks_example :
    ((Blocks.overlooks values false hasty ≡ true)
      → aggregator refusing values hasty 7 (make_channel 1) ≡ blocked)
    × ((Blocks.overlooks values false hasty ≡ false)
        → (db : ℕ) × (errs : ErrChan) × (aggregator refusing values hasty 7 (make_channel 1)
            ≡ done (db, errs)))
unfolding refusing
aggregator-blocks_example =
    Blocks.aggregator-blocks values refusing (system_error 5) (λ db. refl) (λ f fs db. refl) hasty 7
