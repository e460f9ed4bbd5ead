-- ===== src/Agent/Streaming.antt =====
-- agent/streaming/streaming.go and probe/ebpf/ebpf.go: events become flows, which are aggregated
-- before they go to the database.
pub mod Aggregate
pub mod Aggregator
pub mod System
mod Tests
use shawk.Prelude.{
  ◌+◌, ◌%◌, ◌^◌, ◌∷◌, ◌++◌, ◌==◌, if◌then◌else◌, ltb, length, Error, system_error, Outcome, ok, err,
  Text, ℕ, zero, suc, Bool, true, false, Option, none, some, List, [], nat_eq, text_equality,
}
use shawk.Prelude.Map.{lookup, insert}
use shawk.Strconv.{format_uint}
use shawk.Net.{Ip, ip_string}
use shawk.Agent.Channel.{Progress, done, blocked}
use shawk.Probe.{HostFlow, HostFlows, uniq_key, increment, flow_active, flow_passive, many}

-- `tracer.EventType`
pub data EventType : Type 0 where
  event_connect event_accept event_close event_fd_install : EventType

-- What the code reads of a `tracer.TcpV4`.
pub record TcpV4 : Type 0 where
  pub kind : EventType
  pub pid : ℕ
  pub comm : Text
  pub saddr : Ip
  pub daddr : Ip
  pub sport : ℕ
  pub dport : ℕ

-- What arrives on `evChan`.
pub data Event : Type 0 where
  tcp_v4 : TcpV4 → Event
  tcp_v6 : Event

-- The group of the process; if the call fails, its id stands in.
pgid_of : (ℕ → Option ℕ) → ℕ → ℕ
pgid_of getpgid pid = elim (getpgid pid) [ none ↦ pid | some pgid ↦ pgid ]

flow_of_v4 : (ℕ → Option ℕ) → EventType → TcpV4 → Option HostFlow
unfolding pgid_of
flow_of_v4 getpgid event_connect v = some (record {
  direction = flow_active;
  local = record { name = []; addr = ip_string v.saddr; port = many };
  peer = record { name = []; addr = ip_string v.daddr; port = format_uint v.dport };
  connections = 0;
  process = some (record { name = v.comm; pgid = pgid_of getpgid v.pid });
})
flow_of_v4 getpgid event_accept v = some (record {
  direction = flow_passive;
  local = record { name = []; addr = ip_string v.saddr; port = format_uint v.sport };
  peer = record { name = []; addr = ip_string v.daddr; port = many };
  connections = 0;
  process = some (record { name = v.comm; pgid = pgid_of getpgid v.pid });
})
flow_of_v4 getpgid _ v = none

-- The body of the loop of `StartTracer`: the flow with which the callback is called, if it is.
-- The argument is `syscall.Getpgid`.
unfoldable pub flow_of_event : (ℕ → Option ℕ) → Event → Option HostFlow
unfolding flow_of_v4
flow_of_event getpgid (tcp_v4 v) = flow_of_v4 getpgid v.kind v
flow_of_event getpgid tcp_v6 = none

-- `StartTracer` with the callback of `Run`: each flow is sent to the buffer.
unfoldable pub trace : (ℕ → Option ℕ) → List HostFlow → List Event → List HostFlow
trace getpgid buffer [] = buffer
trace getpgid buffer (ev ∷ events) =
    trace getpgid (elim (flow_of_event getpgid ev) [ none ↦ buffer | some f ↦ buffer ++ f ∷ [] ])
      events

-- `StartTracer` from the error of `NewTracer` on. Without one it ranges over `evChan`, which no
-- code closes, so it never returns.
unfoldable pub start_tracer : Option Error → Progress (Option Error)
start_tracer (some e) = done (some e)
start_tracer none = blocked

-- `LostV4` and `LostV6` on a `uint64`.
unfoldable pub lost : ℕ → ℕ → ℕ
lost before n = (before + n) % 2 ^ 64

-- `IsSupportedLinux`: the running kernel's version, `none` for an error, and that of 4.1.0.
unfoldable pub is_supported_linux : Option ℕ → ℕ → Outcome Bool
is_supported_linux none support = err (system_error 2)
is_supported_linux (some current) support = if ltb current support then ok false else ok true

-- The first assignment of the loop of `aggregate`, or the one that fills in a process.
fill : Text → HostFlow → Option HostFlow → HostFlows → HostFlows
fill key flow none m = insert key flow m
fill key flow (some old) m = elim old.process [
  | none ↦ insert key (record old { process = flow.process }) m
  | some p ↦ m
]

-- `aggMap[key].Connections++`
bump : Text → HostFlows → HostFlows
bump key m = elim (lookup key m) [
  | none ↦ m
  | some f ↦ insert key (record f { connections = increment f.connections }) m
]

unfoldable pub aggregate_step : HostFlows → HostFlow → HostFlows
unfolding fill bump
aggregate_step m flow = let key = uniq_key flow in bump key (fill key flow (lookup key m) m)

-- The loop of `aggregate`: it takes `n` flows from the channel, and leaves the rest.
unfoldable pub aggregate_loop : ℕ → HostFlows → List HostFlow → HostFlows × List HostFlow
aggregate_loop zero m buffer = (m, buffer)
aggregate_loop (suc n) m [] = (m, [])
aggregate_loop (suc n) m (flow ∷ buffer) = aggregate_loop n (aggregate_step m flow) buffer

-- `aggregate`: the flows of the map, in the order in which `iterate` lists a map, and the channel
-- afterwards. `arrivals` are the flows that are sent after the length of the channel was read.
unfoldable pub aggregate :
    (HostFlows → List HostFlow) → List HostFlow → List HostFlow → List HostFlow × List HostFlow
unfolding aggregate_loop
aggregate iterate buffer arrivals =
    let size = length buffer in
    let (m, rest) = aggregate_loop size [] (buffer ++ arrivals) in
    if size == 0 then ([], arrivals) else (iterate m, rest)
