-- ===== src/Db/Consistent/Keys.antt =====
-- The unique columns of a table before and after a statement.
use shawk.Prelude.{
  ◌≤◌, ◌≡◌, ◌∷◌, ◌++◌, count, count-append, any, Text, text_eq_iff, ℕ, refl, Bool, true, false,
  none, List, [], arith,
}
use shawk.Db.Tables.{ProcessRow, ActiveNode, PassiveNode, FlowRow}
use shawk.Db.Statements.{
  same_process, find_process, touch_process, find_active, find_passive, same_edge, set_connections,
}
use shawk.Db.Consistent.{owned_by, listens_on}

-- A search that finds nothing: no row has the unique columns.
pub count-find_process :
    (ip : Text) (pgid : ℕ) (pname : Text) (ps : List ProcessRow)
    → find_process ip pgid pname ps ≡ none
    → count (same_process ip pgid pname) ps ≡ 0
unfolding find_process count
count-find_process ip pgid pname [] h = refl
count-find_process ip pgid pname (p ∷ ps) h = ground (arith, count-find_process ip pgid pname ps)

pub count-find_active :
    (pid : ℕ) (ns : List ActiveNode) → find_active pid ns ≡ none → count (owned_by pid) ns ≡ 0
unfolding find_active count owned_by
count-find_active pid [] h = refl
count-find_active pid (n ∷ ns) h = ground (arith, count-find_active pid ns)

pub count-find_passive :
    (pid port : ℕ) (ns : List PassiveNode)
    → find_passive pid port ns ≡ none
    → count (listens_on pid port) ns ≡ 0
unfolding find_passive count listens_on
count-find_passive pid port [] h = refl
count-find_passive pid port (n ∷ ns) h = ground (arith, count-find_passive pid port ns)

pub count-touch_process :
    (now id : ℕ) (ip : Text) (pgid : ℕ) (pname : Text) (ps : List ProcessRow)
    → count (same_process ip pgid pname) (touch_process now id ps)
      ≡ count (same_process ip pgid pname) ps
unfolding count touch_process same_process
count-touch_process now id ip pgid pname [] = refl
count-touch_process now id ip pgid pname (p ∷ ps) =
    ground (arith, count-touch_process now id ip pgid pname ps)

pub count-set_connections :
    (now a b connections source destination : ℕ) (fs : List FlowRow)
    → count (same_edge source destination) (set_connections now a b connections fs)
      ≡ count (same_edge source destination) fs
unfolding count set_connections same_edge
count-set_connections now a b connections source destination [] = refl
count-set_connections now a b connections source destination (f ∷ fs) =
    ground (arith, count-set_connections now a b connections source destination fs)

pub count-any : {A : Type 0} (p : A → Bool) (xs : List A) → any p xs ≡ false → count p xs ≡ 0
unfolding count any
count-any p [] h = refl
count-any p (x ∷ xs) h = ground (arith, count-any p xs)

-- A new row whose unique columns no row has.
pub process_added :
    (ip : Text) (pgid : ℕ) (pname : Text) (ps : List ProcessRow) (p : ProcessRow)
    → ((i : Text) (g : ℕ) (n : Text) → count (same_process i g n) ps ≤ 1)
    → find_process ip pgid pname ps ≡ none
    → same_process ip pgid pname p ≡ true
    → (i : Text) (g : ℕ) (n : Text) → count (same_process i g n) (ps ++ p ∷ []) ≤ 1
unfolding count same_process
process_added ip pgid pname ps p key new own i g n = ground (
  arith,
  key i g n,
  count-append (same_process i g n) ps (p ∷ []),
  count-find_process ip pgid pname ps,
  text_eq_iff p.ipv4 ip,
  text_eq_iff p.ipv4 i,
  text_eq_iff p.pname pname,
  text_eq_iff p.pname n,
)

pub active_added :
    (pid : ℕ) (ns : List ActiveNode) (n : ActiveNode)
    → ((i : ℕ) → count (owned_by i) ns ≤ 1)
    → find_active pid ns ≡ none
    → n.process_id ≡ pid
    → (i : ℕ) → count (owned_by i) (ns ++ n ∷ []) ≤ 1
unfolding count owned_by
active_added pid ns n key new own i =
    ground (arith, key i, count-append (owned_by i) ns (n ∷ []), count-find_active pid ns)

pub passive_added :
    (pid port : ℕ) (ns : List PassiveNode) (n : PassiveNode)
    → ((i j : ℕ) → count (listens_on i j) ns ≤ 1)
    → find_passive pid port ns ≡ none
    → n.process_id ≡ pid
    → n.port ≡ port
    → (i j : ℕ) → count (listens_on i j) (ns ++ n ∷ []) ≤ 1
unfolding count listens_on
passive_added pid port ns n key new own at i j =
    ground
      (arith, key i j, count-append (listens_on i j) ns (n ∷ []), count-find_passive pid port ns)

pub flow_added :
    (source destination : ℕ) (fs : List FlowRow) (f : FlowRow)
    → ((i j : ℕ) → count (same_edge i j) fs ≤ 1)
    → any (same_edge source destination) fs ≡ false
    → f.source_node_id ≡ source
    → f.destination_node_id ≡ destination
    → (i j : ℕ) → count (same_edge i j) (fs ++ f ∷ []) ≤ 1
unfolding count same_edge
flow_added source destination fs f key new from to i j = ground (
  arith,
  key i j,
  count-append (same_edge i j) fs (f ∷ []),
  count-any (same_edge source destination) fs,
)
