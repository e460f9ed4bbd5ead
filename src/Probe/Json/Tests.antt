-- ===== src/Probe/Json/Tests.antt =====
-- Tests of the JSON of host flows, of probe/probe.go.
use shawk.Prelude.{◌≡◌, ◌∷◌, ◌++◌, Text, codes, refl, none, some, []}
use shawk.Probe.{HostFlow, flow_active, flow_passive, values, uniq_key}
use shawk.Probe.Json.{host_flows_json}

-- The encoding of a string without a character to escape.
unfoldable quote : Text → Text
quote text = codes "\"" ++ text ++ codes "\""

abbrev web : HostFlow
web = record {
  direction = flow_active;
  local = record { name = []; addr = codes "10.0.10.1"; port = codes "many" };
  peer = record { name = codes "db1"; addr = codes "10.0.10.2"; port = codes "5432" };
  connections = 10;
  process = some (record { name = codes "python"; pgid = 1001 });
}

abbrev mail : HostFlow
mail = record web { direction = flow_passive; connections = 2; process = none }

two_flows :
    host_flows_json quote values ((uniq_key web, web) ∷ (uniq_key mail, mail) ∷ [])
    ≡ codes
        "[{\"direction\":\"active\",\"local\":{\"name\":\"\",\"addr\":\"10.0.10.1\",\"port\":\"many\"},"
      ++ codes "\"peer\":{\"name\":\"db1\",\"addr\":\"10.0.10.2\",\"port\":\"5432\"},"
      ++ codes "\"connections\":10,\"process\":{\"name\":\"python\",\"pgid\":1001}},"
      ++ codes
          "{\"direction\":\"passive\",\"local\":{\"name\":\"\",\"addr\":\"10.0.10.1\",\"port\":\"many\"},"
      ++ codes "\"peer\":{\"name\":\"db1\",\"addr\":\"10.0.10.2\",\"port\":\"5432\"},"
      ++ codes "\"connections\":2}]"
unfolding host_flows_json quote values shawk.Probe.direction_string shawk.Strconv.format_int
two_flows = refl

no_flows : host_flows_json quote values [] ≡ codes "[]"
unfolding host_flows_json values
no_flows = refl
