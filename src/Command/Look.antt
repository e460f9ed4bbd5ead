-- ===== src/Command/Look.antt =====
-- command/look.go: the flows of an address, printed.
pub mod Groups
pub mod Printed
pub mod Newest
use shawk.Prelude.{
  ◌+◌, ◌-◌, ◌^◌, ◌∷◌, ◌++◌, ◌==◌, if◌then◌else◌, ltb, system_error, Outcome, ok, err, panics, Text,
  codes, ℕ, none, some, List, [], nat_eq, text_equality,
}
use shawk.Strconv.{format_int}
use shawk.Net.{ip_string}
use shawk.Db.Flows.{Flow, Flows, FindFlowsCond, node_string, find_passive_flows, find_active_flows}
use shawk.Config.{Config}
use shawk.Logging.{Console, print_out}
use shawk.Command.{World, new}
use shawk.Agent.Channel.{Progress, done, crashed, ◌>>=◌}
use shawk.Agent.Life.{Ending}

-- `MaxGraphDepth`
abbrev pub max_graph_depth : ℕ
max_graph_depth = 4

-- `LookParam`; the depth is an `int`, as its 64-bit pattern.
pub record LookParam : Type 0 where
  pub ipv4 : Text
  pub depth : ℕ
  pub since : Text
  pub until : Text

-- The UTF-8 bytes of an arrow's first character.
abbrev corner : Text
corner = 226 ∷ 148 ∷ 148 ∷ []

-- A line of `printPassiveFlows`, and of `printActiveFlows`.
unfoldable pub passive_line : Flow → Text
unfolding node_string
passive_line flow = corner ++ codes "<-- " ++ node_string flow.active_node ++ codes "\n"

unfoldable pub active_line : Flow → Text
unfolding node_string
active_line flow = corner ++ codes "--> " ++ node_string flow.passive_node ++ codes "\n"

-- The line above the flows of a passive node, and of an active node.
unfoldable pub passive_title : Flow → Text
unfolding format_int ip_string
passive_title flow =
    let pn = flow.passive_node in
    ip_string pn.ip_addr
    ++ codes ":"
    ++ format_int pn.port
    ++ codes " ('"
    ++ pn.pname
    ++ codes "', pgid="
    ++ format_int pn.pgid
    ++ codes ")\n"

unfoldable pub active_title : Flow → Text
unfolding format_int ip_string
active_title flow =
    let anode = flow.active_node in
    ip_string anode.ip_addr
    ++ codes " ('"
    ++ anode.pname
    ++ codes "', pgid="
    ++ format_int anode.pgid
    ++ codes ")\n"

-- `printPassiveFlows` and `printActiveFlows`, with the line of a flow.
unfoldable pub print_flows : (Flow → Text) → List Flow → Console → Console
print_flows line [] c = c
print_flows line (flow ∷ flows) c = print_flows line flows (print_out (line flow) c)

-- The loop over the values of a map; `flows[0]` of an empty slice panics.
unfoldable pub print_groups :
    (Flow → Text) → (Flow → Text) → List (List Flow) → Console → Progress Console
unfolding print_flows
print_groups title line [] c = done c
print_groups title line ([] ∷ groups) c = crashed
print_groups title line ((flow ∷ flows) ∷ groups) c =
    print_groups title line groups (print_flows line (flow ∷ flows) (print_out (title flow) c))

-- `time.Now().Add(-d)`; a duration is shorter than 300 years, so the zero time is further away.
unfoldable pub before : ℕ → ℕ → ℕ
before now d = if ltb d (2 ^ 63) then now - d else now + (2 ^ 64 - d)

module _ {D : Type 0} (world : World D) where
  -- `durationFromString`
  unfoldable pub duration_from_string : Text → Outcome ℕ
  unfolding before
  duration_from_string s = elim (world.parse_duration s) [
    | none ↦ err (system_error 23)
    | some d ↦ ok (before world.now d)
  ]

  -- One of the two searches of `doIPv4`, and what it prints.
  unfoldable pub look_up :
      (Flow → Text) → (Flow → Text) → Outcome Flows → (Console → Ending) → Console → Ending
  unfolding print_groups
  look_up title line (err e) next c = done (some e, c)
  look_up title line panics next c = crashed
  look_up title line (ok flows) next c = do
    c' ← print_groups title line (world.ranged flows) c
    next c'

  -- `doIPv4`, which does not use its depth.
  unfoldable pub do_ipv4 : Config → Text → ℕ → ℕ → ℕ → Console → Ending
  unfolding look_up find_passive_flows new find_active_flows passive_line active_line passive_title
      active_title
  do_ipv4 cfg ipv4 depth since until c = elim (new world cfg.cmdb_url) [
    | err e ↦ done (some e, c)
    | panics ↦ crashed
    | ok db ↦
        let cond : FindFlowsCond = record {
          addrs = world.parse_ip ipv4 ∷ [];
          since = since;
          until = until;
        } in
        look_up passive_title passive_line (find_passive_flows (world.passive db) world.now cond).0
          (look_up active_title active_line (find_active_flows (world.active db) world.now cond).0
            (λ c'. done (none, c')))
          c
  ]

  -- An optional time: the zero time stands for an empty text.
  time_of : Text → Outcome ℕ
  unfolding duration_from_string
  time_of s = if s == [] then ok 0 else duration_from_string s

  with_times : Config → LookParam → Outcome ℕ → Outcome ℕ → Console → Ending
  unfolding do_ipv4
  with_times cfg param (ok since) (ok until) c =
      if param.ipv4 == [] then done (none, c) else do_ipv4 cfg param.ipv4 param.depth since until c
  with_times cfg param (ok since) (err e) c = done (some e, c)
  with_times cfg param (ok since) panics c = crashed
  with_times cfg param (err e) until c = done (some e, c)
  with_times cfg param panics until c = crashed

  -- `Look`
  unfoldable pub look : Config → LookParam → Console → Ending
  unfolding with_times time_of
  look cfg param c = with_times cfg param (time_of param.since) (time_of param.until) c
