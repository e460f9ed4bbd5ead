-- ===== src/Agent/Streaming/System/Tests.antt =====
-- Runs of the streaming agent, and the theorems at their states.
use mathlib.Core.List.Perm
use shawk.Prelude.{
  ◌+◌, ◌≤◌, ◌≡◌, ◌≢◌, ◌⊎◌, ◌∷◌, length, system_error, Outcome, err, panics, codes, ℕ, refl, some,
  List, [], arith,
}
use shawk.Strconv.{format_uint}
use shawk.Net.{ip_string}
use shawk.Probe.{HostFlow, flow_active, many, values}
use shawk.Agent.Channel.{send}
use shawk.Agent.Streaming.{TcpV4, event_connect, tcp_v4, flow_of_event}
use shawk.Agent.Streaming.System.{
  reporting, System, flow_buffer_size, start, traces, sends, ticks_empty, fails, reports, Reach,
  here, next,
}
use shawk.Agent.Streaming.System.Keeps.{sum_batches, in_hand}
use shawk.Agent.Streaming.System.Counts
use shawk.Agent.Streaming.System.Stuck
use shawk.Agent.Streaming.System.Moves
use shawk.Agent.Streaming.System.Stuck.{IsStuck}

refusing : List HostFlow → ℕ → Outcome ℕ × ℕ
refusing flows db = (err (system_error 3), db)

abbrev opened : TcpV4
opened = record {
  kind = event_connect;
  pid = 7;
  comm = codes "python";
  saddr = 10 ∷ 0 ∷ 10 ∷ 1 ∷ [];
  daddr = 10 ∷ 0 ∷ 10 ∷ 2 ∷ [];
  sport = 50000;
  dport = 80;
}

abbrev flow : HostFlow
flow = record {
  direction = flow_active;
  local = record { name = []; addr = ip_string opened.saddr; port = many };
  peer = record { name = []; addr = ip_string opened.daddr; port = format_uint 80 };
  connections = 0;
  process = some (record { name = codes "python"; pgid = 7 });
}

abbrev begun : System ℕ
begun = start 0

-- Two ticks with no receive of an error between them, while the database refuses.
abbrev stuck : System ℕ
stuck = record begun {
  aggregator = reporting (system_error 3);
  errs = record { capacity = 1; items = system_error 3 ∷ [] };
  called = [] ∷ [] ∷ [];
}

stuck-reached : Reach refusing values begun stuck
unfolding refusing send
stuck-reached =
    next
      (next
        (next (next (next here (ticks_empty refl refl)) (fails [] (system_error 3) 0 refl refl)) (
          reports (system_error 3) (record { capacity = 1; items = system_error 3 ∷ [] }) refl
            refl))
        (ticks_empty refl refl))
      (fails [] (system_error 3) 0 refl refl)

abbrev later : System ℕ
later = record stuck {
  buffer = record { capacity = flow_buffer_size; items = flow ∷ [] };
  sent = flow ∷ [];
}

later-reached : Reach refusing values stuck later
unfolding send flow_of_event
later-reached =
    next (next here (traces (λ pid. some pid) (tcp_v4 opened) flow refl refl))
      (sends flow (record { capacity = flow_buffer_size; items = flow ∷ [] }) refl refl)

stuck-IsStuck : IsStuck stuck
stuck-IsStuck = record { error = system_error 3; at = refl; full = omega arith }

later-from_start : Reach refusing values begun later
unfolding refusing send flow_of_event
later-from_start =
    next (next stuck-reached (traces (λ pid. some pid) (tcp_v4 opened) flow refl refl))
      (sends flow (record { capacity = flow_buffer_size; items = flow ∷ [] }) refl refl)

Reach-counts_example :
    (1 ≡ sum_batches later.called + in_hand later.aggregator + 1) × (1 ≤ flow_buffer_size)
Reach-counts_example =
    Counts.Reach-counts refusing values (λ m. Perm.refl (values m)) 0 {s = later} later-from_start
      (omega arith)

Reach-IsStuck_example :
    IsStuck later
    × (later.db ≡ stuck.db)
    × (later.called ≡ stuck.called)
    × (later.received ≡ [])
    × (length later.sent ≤ length stuck.received + flow_buffer_size)
Reach-IsStuck_example =
    Stuck.Reach-IsStuck refusing values (λ m. Perm.refl (values m)) 0 {s = stuck} {t = later}
      stuck-reached stuck-IsStuck later-reached

refusing-safe : (b : List HostFlow) (db : ℕ) → (refusing b db).0 ≢ panics
unfolding refusing
refusing-safe b db h = cc

Reach-CanMove_example : IsStuck later ⊎ Moves.CanMove refusing values later
Reach-CanMove_example =
    Moves.Reach-CanMove refusing values (λ m. Perm.refl (values m)) refusing-safe 0 {s = later}
      later-from_start
