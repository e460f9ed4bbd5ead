-- ===== src/Agent/Polling/Once.antt =====
-- `RunOnce` of polling.go.
use shawk.Prelude.{◌≡◌, Error, ok, err, refl, List}
use shawk.Probe.{HostFlow, HostFlows}
use shawk.Agent.Polling.{run_once}
use shawk.Agent.Channel.{done, blocked}

-- `RunOnce` returns exactly the errors of its scan: after a scan that succeeds it blocks for ever
-- on a channel to which nobody sends, so it never returns without an error.
pub run_once_outcome :
    (iterate : HostFlows → List HostFlow) (flows : HostFlows) (e : Error)
    → (run_once iterate (ok flows) ≡ blocked) × (run_once iterate (err e) ≡ done e)
unfolding run_once
run_once_outcome iterate flows e = (refl, refl)
