-- ===== src/Probe.antt =====
-- probe/probe.go: host flows, their unique keys, and the map that groups them.
pub mod Keys
pub mod Flows
pub mod WellFormed
pub mod Origin
pub mod Present
pub mod Json
mod Tests
use shawk.Prelude.{
  ◌+◌, ◌%◌, ◌^◌, ◌∷◌, ◌++◌, ◌==◌, if◌then◌else◌, Text, codes, ℕ, Option, none, some, List, [],
  nat_eq, text_equality,
}
use shawk.Prelude.Map.{lookup, insert}
use shawk.Strconv.{format_uint, format_int, join_host_port, atoi}

-- `FlowDirection`, an `int` that is a bit mask: `1 << iota`.
abbrev pub FlowDirection : Type 0
FlowDirection = ℕ

abbrev pub flow_unknown : FlowDirection
flow_unknown = 1

abbrev pub flow_active : FlowDirection
flow_active = 2

abbrev pub flow_passive : FlowDirection
flow_passive = 4

-- The filter conditions of `GetHostFlowsOption`.
abbrev pub filter_all : Text
filter_all = codes "all"

abbrev pub filter_public : Text
filter_public = codes "public"

abbrev pub filter_private : Text
filter_private = codes "private"

-- `FlowDirection.String`
unfoldable pub direction_string : FlowDirection → Text
direction_string c =
    if c == flow_active
    then codes "active"
    else if c == flow_passive
    then codes "passive"
    else if c == flow_unknown
    then codes "unknown"
    else []

pub record AddrPort : Type 0 where
  pub name : Text
  pub addr : Text
  pub port : Text

-- The port that stands for any number of ephemeral ports.
abbrev pub many : Text
many = codes "many"

-- `AddrPort.String`
unfoldable pub addr_port_string : AddrPort → Text
addr_port_string a =
    if a.name == [] then join_host_port a.addr a.port else join_host_port a.name a.port

-- `AddrPort.PortInt`; the error of `Atoi` is dropped.
unfoldable pub port_int : AddrPort → ℕ
port_int a = if a.port == many then 0 else (atoi a.port).0

pub record Process : Type 0 where
  pub name : Text
  pub pgid : ℕ

-- The pointers `Local` and `Peer` are never nil; a nil `Process` is `none`. `connections` is the
-- 64-bit pattern of an `int64`.
pub record HostFlow : Type 0 where
  pub direction : FlowDirection
  pub local : AddrPort
  pub peer : AddrPort
  pub connections : ℕ
  pub process : Option Process

process_string : Option Process → Text
process_string none = []
process_string (some p) =
    codes "\t(\"" ++ p.name ++ codes "\",pgid=" ++ format_int p.pgid ++ codes ")"

arrow_string : Text → HostFlow → Text
unfolding process_string
arrow_string arrow f =
    addr_port_string f.local
    ++ codes "\t"
    ++ arrow
    ++ codes "\t"
    ++ addr_port_string f.peer
    ++ codes "\t"
    ++ format_int f.connections
    ++ process_string f.process

-- `HostFlow.String`
unfoldable pub host_flow_string : HostFlow → Text
unfolding arrow_string
host_flow_string f =
    if f.direction == flow_active
    then arrow_string (codes "-->") f
    else if f.direction == flow_passive
    then arrow_string (codes "<--") f
    else []

-- `HostFlow.UniqKey`
unfoldable pub uniq_key : HostFlow → Text
uniq_key f =
    direction_string f.direction
    ++ (b'-' ∷ (addr_port_string f.local ++ (b'-' ∷ addr_port_string f.peer)))

-- `HostFlow.SetLookupedName`, where `resolve` is `netutil.ResolveAddr`
unfoldable pub set_lookuped_name : (Text → Text) → HostFlow → HostFlow
set_lookuped_name resolve f = record f {
  local = record f.local { name = resolve f.local.addr };
  peer = record f.peer { name = resolve f.peer.addr };
}

-- `HostFlows`, a map from unique keys.
abbrev pub HostFlows : Type 0
HostFlows = List (Text × HostFlow)

-- The test `hf[key].Process == nil` and the assignment under it.
unfoldable pub fill_process : Option Process → Option Process → Option Process
fill_process none new = new
fill_process (some p) new = some p

-- `hf[key].Connections++` on an `int64`.
unfoldable pub increment : ℕ → ℕ
increment n = (n + 1) % 2 ^ 64

-- The entry that `Insert` leaves under the key of `flow`, from the entry that was there.
unfoldable pub merge : Option HostFlow → HostFlow → HostFlow
unfolding fill_process increment
merge none flow = record flow { connections = increment flow.connections }
merge (some old) flow = record old {
  connections = increment old.connections;
  process = fill_process old.process flow.process;
}

-- `HostFlows.Insert`
unfoldable pub insert_flow : HostFlows → HostFlow → HostFlows
insert_flow hf flow = let key = uniq_key flow in insert key (merge (lookup key hf) flow) hf

-- A loop of `Insert` calls, in order.
unfoldable pub insert_flows : HostFlows → List HostFlow → HostFlows
insert_flows hf [] = hf
insert_flows hf (f ∷ fs) = insert_flows (insert_flow hf f) fs

-- The values of a map, in an order that `MarshalJSON` and the callers leave to the runtime.
unfoldable pub values : HostFlows → List HostFlow
values [] = []
values ((k, f) ∷ m) = f ∷ values m
