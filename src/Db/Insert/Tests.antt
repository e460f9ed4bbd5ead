-- ===== src/Db/Insert/Tests.antt =====
-- Tests of `InsertOrUpdateHostFlows`, on the flows of db_test.go.
use shawk.Prelude.{
  ◌≡◌, ◌∷◌, ◌==◌, count, system_error, ok, codes, ℕ, refl, inl, inr, true, [], map, arith, nat_eq,
  text_equality,
}
use shawk.Db.Tables.{Postgres}
use shawk.Db.Statements.{fits_integer}
use shawk.Db.Insert.{insert_all, pgid_of, pname_of, insert_or_update_host_flows}
use shawk.Db.Insert.Edges.{IsActiveEdge, IsPassiveEdge}
use shawk.Db.Insert.Recorded
use shawk.Db.Insert.Samples.{
  server, empty, host, other, opened, accepted, flows, written, program, server-IsPostgres,
  server-IsQuiet,
}
use shawk.Db.Consistent.{IsConsistent}
use shawk.Db.Consistent.Sound.{IsSound}
use shawk.Db.Insert.Consistent
use shawk.Db.Insert.Atomic
use shawk.Db.Insert.Succeeds
use shawk.Db.Insert.Accepts.{IsStorable}

-- the edges that db_test.go expects
edges :
    map {B = ℕ × ℕ × ℕ}
      (λ f. (f.source_node_id, f.destination_node_id, f.connections))
      written.tables.flows
    ≡ (1, 1, 10) ∷ (2, 2, 12) ∷ []
unfolding program
edges = refl

-- the process names that db_test.go expects
names : map (λ p. p.pname) written.tables.processes ≡ codes "python" ∷ codes "" ∷ codes "nginx" ∷ []
unfolding program
names = refl

insert_or_update_host_flows-IsActiveEdge_example : IsActiveEdge server 7 opened written.tables
unfolding program
insert_or_update_host_flows-IsActiveEdge_example =
    Recorded.insert_or_update_host_flows-IsActiveEdge server server-IsPostgres 7 flows empty written
      0 opened refl (inl refl) refl refl

insert_or_update_host_flows-IsPassiveEdge_example : IsPassiveEdge server 7 accepted written.tables
unfolding program
insert_or_update_host_flows-IsPassiveEdge_example =
    Recorded.insert_or_update_host_flows-IsPassiveEdge server server-IsPostgres 7 flows empty
      written 0 accepted refl (inr (inl refl)) refl refl

-- The sixth answer is a failure.
abbrev failing : Postgres
failing = record server { fails = λ n. n == 5 }

rolled_back : (insert_or_update_host_flows failing 7 flows empty).1.tables ≡ empty.tables
unfolding program
rolled_back = refl

-- The answer to the commit is lost, and the server has committed.
abbrev severed : Postgres
severed = record server { fails = λ n. n == 7; commits = λ n. true }

committed :
    map {B = ℕ × ℕ}
      (λ f. (f.source_node_id, f.destination_node_id))
      (insert_or_update_host_flows severed 7 (opened ∷ []) empty).1.tables.flows
    ≡ (1, 1) ∷ []
unfolding program
committed = refl

insert_or_update_host_flows-atomic_example :
    Atomic.IsAllOrNothing severed 7 empty
      (insert_all severed 7 (opened ∷ []) (record empty { answers = 1 }))
      (insert_or_update_host_flows severed 7 (opened ∷ []) empty).1.tables
unfolding program
insert_or_update_host_flows-atomic_example =
    Atomic.insert_or_update_host_flows-atomic severed 7 (opened ∷ []) empty (system_error 4) refl

opened-IsStorable : IsStorable server opened
unfolding program fits_integer pgid_of pname_of
opened-IsStorable = record {
  local_ip = host;
  local_address = refl;
  peer_ip = other;
  peer_address = refl;
  process_fits = refl;
  positive = refl;
  connections_fit = refl;
  local_port = λ e. absurd (omega (arith, e));
  peer_port = λ e. record { port = 5432; number = refl; fits = refl };
}

accepted-IsStorable : IsStorable server accepted
unfolding program fits_integer pgid_of pname_of
accepted-IsStorable = record {
  local_ip = host;
  local_address = refl;
  peer_ip = other;
  peer_address = refl;
  process_fits = refl;
  positive = refl;
  connections_fit = refl;
  local_port = λ e. record { port = 80; number = refl; fits = refl };
  peer_port = λ e. absurd (omega (arith, e));
}

empty-IsConsistent : IsConsistent empty.tables
unfolding count
empty-IsConsistent = record {
  process_key = λ ip pgid pname. omega arith;
  active_key = λ pid. omega arith;
  passive_key = λ pid port. omega arith;
  flow_key = λ source destination. omega arith;
  active_refs = tt;
  passive_refs = tt;
  flow_refs = tt;
}

empty-IsSound : IsSound server empty.tables empty.sequences
unfolding count
empty-IsSound = record {
  process_ids = (tt, λ n. omega arith);
  active_ids = (tt, λ n. omega arith);
  passive_ids = (tt, λ n. omega arith);
  flow_ids = (tt, λ n. omega arith);
  process_checks = tt;
  passive_checks = tt;
  flow_checks = tt;
}

insert_or_update_host_flows-ok_example : (insert_or_update_host_flows server 7 flows empty).0 ≡ ok 0
insert_or_update_host_flows-ok_example =
    Succeeds.insert_or_update_host_flows-ok server server-IsPostgres server-IsQuiet 7 flows empty
      (λ e. opened-IsStorable, (λ e. accepted-IsStorable, tt)) empty-IsSound

insert_or_update_host_flows-IsValid_example :
    Consistent.IsValid server (insert_or_update_host_flows server 7 flows empty).1
insert_or_update_host_flows-IsValid_example =
    Consistent.insert_or_update_host_flows-IsValid server 7 flows empty
      (empty-IsConsistent, empty-IsSound)
