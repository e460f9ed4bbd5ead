-- ===== src/Db/Consistent/Sound.antt =====
-- The constraints PRIMARY KEY and CHECK of flows.sql, and the type of `pname`.
use shawk.Prelude.{◌≤◌, ◌≡◌, ◌&&◌, ◌∷◌, ltb, All, ℕ, refl, true, List, [], map, arith}
use shawk.Db.Tables.{ProcessRow, PassiveNode, FlowRow, Tables, Sequences, Postgres}
use shawk.Db.Session.{Session}
use shawk.Db.Statements.{fits_integer, fits_name, touch_process, set_connections}
use shawk.Db.Consistent.Numbers.{IsNumbered, IsNumbered-le}

-- What the columns take.
abbrev pub TakesProcess : Postgres → ProcessRow → Type 0
TakesProcess pg p = (fits_integer p.pgid && fits_name pg p.pname) ≡ true

abbrev pub TakesPassive : PassiveNode → Type 0
TakesPassive n = (ltb 0 n.port && fits_integer n.port) ≡ true

abbrev pub TakesFlow : FlowRow → Type 0
TakesFlow f = (ltb 0 f.connections && fits_integer f.connections) ≡ true

pub record IsSound (pg : Postgres) (t : Tables) (q : Sequences) : Type 0 where
  pub process_ids : IsNumbered (λ p. p.process_id) q.process_seq t.processes
  pub active_ids : IsNumbered (λ n. n.node_id) q.active_seq t.active_nodes
  pub passive_ids : IsNumbered (λ n. n.node_id) q.passive_seq t.passive_nodes
  pub flow_ids : IsNumbered (λ f. f.flow_id) q.flow_seq t.flows
  pub process_checks : All (TakesProcess pg) t.processes
  pub passive_checks : All TakesPassive t.passive_nodes
  pub flow_checks : All TakesFlow t.flows

-- No sequence has gone back.
pub record Advances (q r : Sequences) : Type 0 where
  pub process_seq : q.process_seq ≤ r.process_seq
  pub active_seq : q.active_seq ≤ r.active_seq
  pub passive_seq : q.passive_seq ≤ r.passive_seq
  pub flow_seq : q.flow_seq ≤ r.flow_seq

pub Advances-trans : {q r u : Sequences} → Advances q r → Advances r u → Advances q u
Advances-trans a b = record {
  process_seq = omega (arith, a.process_seq, b.process_seq);
  active_seq = omega (arith, a.active_seq, b.active_seq);
  passive_seq = omega (arith, a.passive_seq, b.passive_seq);
  flow_seq = omega (arith, a.flow_seq, b.flow_seq);
}

pub IsSound-Advances :
    (pg : Postgres) (t : Tables) (q r : Sequences) → Advances q r → IsSound pg t q → IsSound pg t r
IsSound-Advances pg t q r a k = record {
  process_ids = IsNumbered-le _ q.process_seq r.process_seq t.processes a.process_seq k.process_ids;
  active_ids = IsNumbered-le _ q.active_seq r.active_seq t.active_nodes a.active_seq k.active_ids;
  passive_ids =
      IsNumbered-le _ q.passive_seq r.passive_seq t.passive_nodes a.passive_seq k.passive_ids;
  flow_ids = IsNumbered-le _ q.flow_seq r.flow_seq t.flows a.flow_seq k.flow_ids;
  process_checks = k.process_checks;
  passive_checks = k.passive_checks;
  flow_checks = k.flow_checks;
}

-- A new date changes neither a number nor what the columns take.
pub ids-touch_process :
    (now at : ℕ) (ps : List ProcessRow)
    → map (λ p. p.process_id) (touch_process now at ps) ≡ map (λ p. p.process_id) ps
unfolding touch_process
ids-touch_process now at [] = refl
ids-touch_process now at (p ∷ ps) = ground (arith, ids-touch_process now at ps)

pub touch_process-takes :
    (pg : Postgres) (now at : ℕ) (ps : List ProcessRow)
    → All (TakesProcess pg) ps
    → All (TakesProcess pg) (touch_process now at ps)
unfolding touch_process
touch_process-takes pg now at [] h = tt
touch_process-takes pg now at (p ∷ ps) h =
    (ground (arith, h.0), touch_process-takes pg now at ps h.1)

pub ids-set_connections :
    (now a b connections : ℕ) (fs : List FlowRow)
    → map (λ f. f.flow_id) (set_connections now a b connections fs) ≡ map (λ f. f.flow_id) fs
unfolding set_connections
ids-set_connections now a b connections [] = refl
ids-set_connections now a b connections (f ∷ fs) =
    ground (arith, ids-set_connections now a b connections fs)

pub set_connections-takes :
    (now a b connections : ℕ) (fs : List FlowRow)
    → (ltb 0 connections && fits_integer connections) ≡ true
    → All TakesFlow fs
    → All TakesFlow (set_connections now a b connections fs)
unfolding set_connections
set_connections-takes now a b connections [] fits h = tt
set_connections-takes now a b connections (f ∷ fs) fits h =
    (ground (arith, h.0, fits), set_connections-takes now a b connections fs fits h.1)

-- What a statement keeps, since a time at which the sequences had given values.
abbrev pub SoundSince : Postgres → Sequences → Session → Type 0
SoundSince pg q s = IsSound pg s.tables s.sequences × Advances q s.sequences
