-- ===== src/Db/Insert/Samples.antt =====
-- A server, an empty database, and the flows of db_test.go, for the tests.
use shawk.Prelude.{
  ◌∷◌, length, any, Text, codes, text_eq, ℕ, refl, inl, true, false, Option, none, some, List, [],
}
use shawk.Strconv.{number, syntax_error, range_error, parse_uint, Parsed}
use shawk.Db.Tables.{Postgres, IsPostgres}
use shawk.Db.Session.{Session, ◌>>=◌, query}
use shawk.Db.Statements.{
  insert_processes, insert_active_nodes, find_passive_nodes, insert_passive_nodes, insert_flows,
  find_active_nodes,
}
use shawk.Probe.{HostFlow, flow_active, flow_passive, many}
use shawk.Db.Insert.{insert_or_update_host_flows}
use shawk.Db.Insert.Total.{IsQuiet}

unfoldable pub first_id : List ℕ → Option ℕ
first_id [] = none
first_id (x ∷ xs) = some x

unfoldable pub number_of : Parsed → Option ℕ
number_of (number n) = some n
number_of syntax_error = none
number_of range_error = none

abbrev pub server : Postgres
server = record {
  to_inet = λ t. some t;
  to_integer = λ t. number_of (parse_uint 10 31 t);
  is_text = λ t. true;
  char_length = length;
  first = first_id;
  fails = λ n. false;
  commits = λ n. false;
}

abbrev pub empty : Session
empty = record {
  tables = record { processes = []; active_nodes = []; passive_nodes = []; flows = [] };
  sequences = record { process_seq = 0; active_seq = 0; passive_seq = 0; flow_seq = 0 };
  answers = 0;
}

abbrev pub host : Text
host = codes "10.0.10.1"

abbrev pub other : Text
other = codes "10.0.10.2"

abbrev pub opened : HostFlow
opened = record {
  direction = flow_active;
  local = record { name = []; addr = host; port = many };
  peer = record { name = []; addr = other; port = codes "5432" };
  connections = 10;
  process = some (record { name = codes "python"; pgid = 1001 });
}

abbrev pub accepted : HostFlow
accepted = record {
  direction = flow_passive;
  local = record { name = []; addr = host; port = codes "80" };
  peer = record { name = []; addr = other; port = many };
  connections = 12;
  process = some (record { name = codes "nginx"; pgid = 1002 });
}

abbrev pub flows : List HostFlow
flows = opened ∷ accepted ∷ []

abbrev pub written : Session
written = (insert_or_update_host_flows server 7 flows empty).1

unfoldable pub program : Unit {0}
unfolding insert_or_update_host_flows number_of parse_uint first_id text_eq any ◌>>=◌ query
    insert_processes insert_active_nodes find_passive_nodes insert_passive_nodes insert_flows
    find_active_nodes
program = tt

pub server-IsPostgres : IsPostgres server
unfolding first_id
server-IsPostgres = record { first_none = refl; first_some = λ x xs. (x, refl, inl refl) }

pub server-IsQuiet : IsQuiet server
unfolding shawk.Db.Statements.fits_name
server-IsQuiet = record { no_failure = λ n. refl; empty_name = refl }
