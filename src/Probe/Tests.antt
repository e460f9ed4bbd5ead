-- ===== src/Probe/Tests.antt =====
-- Tests of probe/probe.go, and its theorems at concrete inputs.
use shawk.Prelude.{
  ◌≡◌, ◌∷◌, keep, count, any, Text, codes, text_eq, refl, inl, none, some, List, [], arith, nat_eq,
  text_equality,
}
use shawk.Strconv.{format_int, join_host_port}
use shawk.Prelude.Map.{lookup, insert}
use shawk.Probe
use shawk.Probe.Flows
use shawk.Probe.Keys
use shawk.Probe.Keys.{is_addr_char, is_port_char, IsProbed, IsEnd}
use shawk.Probe.WellFormed
use shawk.Probe.{
  HostFlow, host_flow_string, flow_active, flow_passive, uniq_key, many, insert_flows, insert_flow,
}

abbrev web : HostFlow
web = record {
  direction = flow_active;
  local = record { name = []; addr = codes "10.0.10.1"; port = many };
  peer = record { name = []; addr = codes "2001:db8::1"; port = codes "5432" };
  connections = 10;
  process = some (record { name = codes "python"; pgid = 1001 });
}

key_of_web : uniq_key web ≡ codes "active-10.0.10.1:many-[2001:db8::1]:5432"
unfolding uniq_key Probe.direction_string Probe.addr_port_string join_host_port any text_eq
key_of_web = refl

string_of_web :
    host_flow_string web
    ≡ codes "10.0.10.1:many\t-->\t[2001:db8::1]:5432\t10\t(\"python\",pgid=1001)"
unfolding host_flow_string Probe.addr_port_string join_host_port any format_int text_eq
string_of_web = refl

abbrev fresh : HostFlow
fresh = record web { connections = 0; process = none }

-- Two flows with one key, and one with another.
abbrev three : List HostFlow
three = fresh ∷ record web { connections = 0 } ∷ record fresh { direction = flow_passive } ∷ []

abbrev web_key : Text
web_key = codes "active-10.0.10.1:many-[2001:db8::1]:5432"

connections_at-insert_flows_example :
    Flows.connections_at web_key (insert_flows [] three) ≡ count (Flows.has_key web_key) three
connections_at-insert_flows_example =
    Flows.connections_at-insert_flows web_key three (refl, (refl, (refl, tt))) (omega arith)

process_at-insert_flows_example :
    Flows.process_at web_key (insert_flows [] three)
    ≡ Flows.first_process (keep (Flows.has_key web_key) three)
process_at-insert_flows_example = Flows.process_at-insert_flows web_key three

insert_flows-IsWellFormed_example : WellFormed.IsWellFormed (insert_flows [] three)
insert_flows-IsWellFormed_example =
    WellFormed.insert_flows-IsWellFormed [] three (record { keyed = tt; distinct = tt })

program : Unit {0}
unfolding insert_flows insert_flow uniq_key Probe.direction_string Probe.addr_port_string
    join_host_port any text_eq lookup insert Probe.merge
program = tt

ends_of_web : IsProbed web
unfolding is_addr_char is_port_char
ends_of_web = record {
  direction = inl refl;
  local = record { unnamed = refl; addr_chars = ground arith; port_chars = ground arith };
  peer = record { unnamed = refl; addr_chars = ground arith; port_chars = ground arith };
}

uniq_key-injective_example :
    (web.direction ≡ web.direction) × (web.local ≡ web.local) × (web.peer ≡ web.peer)
uniq_key-injective_example = Keys.uniq_key-injective web web ends_of_web ends_of_web refl
