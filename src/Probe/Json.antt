-- ===== src/Probe/Json.antt =====
-- The JSON of host flows, by the documentation of encoding/json: the methods `MarshalJSON` of
-- probe/probe.go and the tags of its structs. `quote` is the encoding of a string.
mod Tests
use shawk.Prelude.{◌∷◌, ◌++◌, Text, codes, Option, none, some, List, []}
use shawk.Strconv.{format_int}
use shawk.Probe.{FlowDirection, AddrPort, Process, HostFlow, HostFlows, direction_string}

module _ (quote : Text → Text) where
  -- `FlowDirection.MarshalJSON`
  unfoldable pub direction_json : FlowDirection → Text
  direction_json c = quote (direction_string c)

  addr_port_json : AddrPort → Text
  addr_port_json a =
      codes "{\"name\":"
      ++ quote a.name
      ++ codes ",\"addr\":"
      ++ quote a.addr
      ++ codes ",\"port\":"
      ++ quote a.port
      ++ codes "}"

  -- With its name and comma; `omitempty` leaves a nil pointer out.
  process_json : Option Process → Text
  process_json none = []
  process_json (some p) =
      codes ",\"process\":{\"name\":"
      ++ quote p.name
      ++ codes ",\"pgid\":"
      ++ format_int p.pgid
      ++ codes "}"

  unfoldable pub host_flow_json : HostFlow → Text
  unfolding addr_port_json process_json direction_json
  host_flow_json f =
      codes "{\"direction\":"
      ++ direction_json f.direction
      ++ codes ",\"local\":"
      ++ addr_port_json f.local
      ++ codes ",\"peer\":"
      ++ addr_port_json f.peer
      ++ codes ",\"connections\":"
      ++ format_int f.connections
      ++ process_json f.process
      ++ codes "}"

  comma_separated : List HostFlow → Text
  unfolding host_flow_json
  comma_separated [] = []
  comma_separated (f ∷ []) = host_flow_json f
  comma_separated (f ∷ g ∷ fs) = host_flow_json f ++ codes "," ++ comma_separated (g ∷ fs)

  -- `HostFlows.MarshalJSON`, where `iterate` is an order of the values of a map.
  unfoldable pub host_flows_json : (HostFlows → List HostFlow) → HostFlows → Text
  unfolding comma_separated
  host_flows_json iterate hf = codes "[" ++ comma_separated (iterate hf) ++ codes "]"
