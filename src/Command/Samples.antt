-- ===== src/Command/Samples.antt =====
-- A world in which the commands run, for the tests.
use shawk.Prelude.{
  ◌≡◌, ◌∙◌, ◌≢◌, ◌∷◌, Bool-cases, Among, ok, Text, codes, text_eq, text_eq_iff, ℕ, refl, sym, ap,
  inl, inr, true, false, none, some, List, [], map, arith, nat_eq, text_equality,
}
use shawk.Netlink.{Host}
use shawk.Netlink.Samples.{conns, table}
use shawk.Prelude.Map.{lookup, IsMap}
use shawk.Command.Look.Groups.{IsRange}
use shawk.Db.Flows.{Flow, Flows, Row, rows, scanned}
use shawk.Config.{Config}
use shawk.Agent.Life.{Surroundings}
use shawk.Command.{World}

abbrev pub values_of : Flows → List (List Flow)
values_of [] = []
values_of ((k, g) ∷ flows) = g ∷ values_of flows

none-some : {g : List Flow} → none ≢ some g
none-some h = cc

value_found :
    (flows : Flows) (g : List Flow)
    → IsMap flows
    → Among g (values_of flows)
    → (k : Text) × (lookup k flows ≡ some g)
unfolding lookup
value_found [] g fresh m = elim m [ ]
value_found ((k, h) ∷ flows) g fresh (inl e) =
    (k, rw ((text_eq_iff k k).1 refl) (ap (λ f. some f) (sym e)))
value_found ((k, h) ∷ flows) g fresh (inr m) =
    let (j, found) = value_found flows g fresh.1 m in
    elim (Bool-cases (text_eq k j)) [
      | inr other ↦ (j, rw other found)
      | inl same ↦
          let at = ap (λ i. lookup i flows) ((text_eq_iff k j).0 same) in
          absurd (none-some (sym fresh.0 ∙ at ∙ found))
    ]

found_value :
    (flows : Flows) (g : List Flow) (k : Text) → lookup k flows ≡ some g → Among g (values_of flows)
unfolding lookup
found_value [] g k h = cc
found_value ((j, f) ∷ flows) g k h = elim (Bool-cases (text_eq j k)) [
  | inl same ↦ inl (ground arith)
  | inr other ↦ inr (found_value flows g k (ground arith))
]

pub values_of-IsRange : IsRange values_of
values_of-IsRange flows g fresh =
    (value_found flows g fresh, λ found. found_value flows g found.0 found.1)

abbrev pub row_to_nginx : Row
row_to_nginx = record {
  pipv4 = 10 ∷ 0 ∷ 0 ∷ 1 ∷ [];
  ppname = codes "nginx";
  pport = 80;
  ppgid = 1002;
  aipv4 = 10 ∷ 0 ∷ 0 ∷ 2 ∷ [];
  apname = codes "python";
  apgid = 1001;
  connections = 12;
}

abbrev pub around : Surroundings
around = record {
  signal = some (codes "terminated");
  shutdown_error = none;
  kernel_version = some 263680;
  support_version = 262400;
  tracer_error = none;
}

abbrev pub host : Host
host = record {
  user_entries = ok [];
  inet_diag = some conns;
  proc_net_tcp = some table;
  resolve = λ addr. addr;
}

abbrev pub world : World ℕ
world = record {
  stamp = λ short_file. [];
  around = around;
  parse_config = λ url. true;
  connect = λ url. some 1;
  ping = λ db. none;
  files = record { new_fails = false; opened = λ path. none };
  exec = λ db sql. none;
  reverse = λ bytes. bytes;
  host = host;
  iterate = map (λ entry. entry.1);
  passive = λ db cond. rows (map scanned (row_to_nginx ∷ [])) true;
  active = λ db cond. rows (map scanned []) true;
  ranged = values_of;
  parse_duration = λ s. none;
  parse_ip = λ s. 10 ∷ 0 ∷ 0 ∷ 1 ∷ [];
  now = 1000;
}

abbrev pub config : Config
config = record {
  cmdb_url = codes "postgres://localhost/shawk";
  probe_mode = codes "polling";
  probe_interval = 1;
  probe_flush_interval = 30;
  debug = false;
}
