-- ===== src/Db/Tables.antt =====
-- The tables of assets/schema/flows.sql, and what the statements take from PostgreSQL.
use shawk.Prelude.{◌≡◌, ◌∷◌, Among, Text, ℕ, Bool, Option, none, some, List, []}

-- `inet` values are kept in the canonical text of the server. Times are instants of its clock.
pub record ProcessRow : Type 0 where
  pub process_id : ℕ
  pub ipv4 : Text
  pub pgid : ℕ
  pub pname : Text
  pub created : ℕ
  pub updated : ℕ

pub record ActiveNode : Type 0 where
  pub node_id : ℕ
  pub process_id : ℕ

pub record PassiveNode : Type 0 where
  pub node_id : ℕ
  pub port : ℕ
  pub process_id : ℕ

pub record FlowRow : Type 0 where
  pub flow_id : ℕ
  pub source_node_id : ℕ
  pub destination_node_id : ℕ
  pub connections : ℕ
  pub created : ℕ
  pub updated : ℕ

pub record Tables : Type 0 where
  pub processes : List ProcessRow
  pub active_nodes : List ActiveNode
  pub passive_nodes : List PassiveNode
  pub flows : List FlowRow

-- The last value of each `bigserial` sequence. A rollback does not reset them.
pub record Sequences : Type 0 where
  pub process_seq : ℕ
  pub active_seq : ℕ
  pub passive_seq : ℕ
  pub flow_seq : ℕ

-- The server, a parameter: how it reads a text as an `inet` and as an `integer`, whether it takes a
-- text, which has no null and is valid UTF-8, and how many characters it counts in one, which row of a result without an order it sends first, and
-- whether its n-th answer is a failure that the statement does not explain, such as a lost
-- connection or a timeout, and whether it has committed where that answer is one to a commit.
pub record Postgres : Type 0 where
  pub to_inet : Text → Option Text
  pub to_integer : Text → Option ℕ
  pub is_text : Text → Bool
  pub char_length : Text → ℕ
  pub first : List ℕ → Option ℕ
  pub fails : ℕ → Bool
  pub commits : ℕ → Bool

-- The documented part: a row is sent exactly if there is one, and it is one of the result's.
pub record IsPostgres (pg : Postgres) : Type 0 where
  pub first_none : pg.first [] ≡ none
  pub first_some : (x : ℕ) (xs : List ℕ) → (y : ℕ) × (pg.first (x ∷ xs) ≡ some y) × Among y (x ∷ xs)
