-- ===== src/Command/Look/Newest.antt =====
-- What `doIPv4` prints of the tables of the database.
use shawk.Prelude.{All, Among, Text, List, nat_eq, text_equality}
use shawk.Db.Tables.{ProcessRow, Tables}
use shawk.Db.Flows.{Flow, Flows, FindFlowsCond}
use shawk.Db.Select.{Joined, Selects}
use shawk.Db.Select.Latest.{process_key, Wanted, IsNewest}
use shawk.Config.{Config}

-- Each group is the one newest flow of a key, and the key of every wanted row has its group.
abbrev pub AreNewest :
    Selects → Tables → FindFlowsCond → (Joined → ProcessRow) → List (List Flow) → Type 0
AreNewest q t cond side gs =
    All (λ g. (k : Text) × IsNewest q t cond side k g) gs
    × ((r : Joined)
        → Wanted q t cond side r
        → (g : List Flow) × Among g gs × IsNewest q t cond side (process_key (side r)) g)
