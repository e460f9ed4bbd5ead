-- ===== src/Db/Select/Latest.antt =====
-- What `FindPassiveFlows` and `FindActiveFlows` return of the tables.
use shawk.Prelude.{
  ◌≤◌, ◌≡◌, ◌∙◌, ◌≢◌, ◌⊎◌, ◌∷◌, ◌++◌, ◌==◌, Bool-cases, keep, Among, Text, refl, ap, inl, inr, true,
  none, some, List, [], map, nat_eq, text_equality,
}
use shawk.Net.{Ip, ip_string}
use shawk.Net.Chars.{IsIp, ip_string-IsAddrText}
use shawk.Probe.Keys.{is_addr_char, cut_unique, addr-IsFree}
use shawk.Db.Tables.{ProcessRow, Tables}
use shawk.Db.Flows.{Flow, FindFlowsCond, Row, scanned, flow_of_row}
use shawk.Db.Flows.Grouped.{rows_at}
use shawk.Db.Select.{Joined, Selects, listed, between, same_columns, row_of, scan_row}
use shawk.Db.Select.Joins.{IsJoin}
use shawk.Db.Select.Distinct.{same_columns_iff}

-- The driver reads the address of a process, and Go prints it the way the server does.
pub record IsHost (q : Selects) (p : ProcessRow) : Type 0 where
  pub ip : Ip
  pub read : q.ip_of p.ipv4 ≡ some ip
  pub text : ip_string ip ≡ p.ipv4
  pub size : IsIp ip

-- The address of a process, nil for one that the driver does not read.
unfoldable pub ip_at : Selects → ProcessRow → Ip
ip_at q p = elim (q.ip_of p.ipv4) [ none ↦ [] | some ip ↦ ip ]

unfoldable pub shown : Selects → Joined → Row
unfolding ip_at row_of
shown q j = row_of (ip_at q j.active_process) (ip_at q j.passive_process) j

-- The key of the flows of a process.
unfoldable pub process_key : ProcessRow → Text
process_key p = p.ipv4 ++ (b'-' ∷ p.pname)

-- The rows of the joins that meet the conditions of a query.
abbrev pub Wanted : Selects → Tables → FindFlowsCond → (Joined → ProcessRow) → Joined → Type 0
Wanted q t cond side j =
    IsJoin t j × (between q cond j.flow ≡ true) × (listed q cond.addrs (side j) ≡ true)

-- There is exactly one flow, that of a wanted row of the key whose date no other such row exceeds.
abbrev pub IsNewest :
    Selects → Tables → FindFlowsCond → (Joined → ProcessRow) → Text → List Flow → Type 0
IsNewest q t cond side k fs =
    (j : Joined) × Wanted q t cond side j
    × (process_key (side j) ≡ k)
    × (fs ≡ flow_of_row (shown q j) ∷ [])
    × ((r : Joined)
        → Wanted q t cond side r
        → process_key (side r) ≡ k
        → r.flow.updated ≤ j.flow.updated)

-- There is no wanted row of the key, and no flow; or there is the newest flow.
abbrev pub IsLatest :
    Selects → Tables → FindFlowsCond → (Joined → ProcessRow) → Text → List Flow → Type 0
IsLatest q t cond side k fs =
    ((fs ≡ []) × ((j : Joined) → Wanted q t cond side j → process_key (side j) ≢ k))
    ⊎ IsNewest q t cond side k fs

ip_at-read : (q : Selects) (p : ProcessRow) (h : IsHost q p) → ip_at q p ≡ h.ip
unfolding ip_at
ip_at-read q p h = rw (ip_at, h.read) refl

pub host-ip_string : (q : Selects) (p : ProcessRow) → IsHost q p → ip_string (ip_at q p) ≡ p.ipv4
unfolding ip_at
host-ip_string q p h = ap ip_string (ip_at-read q p h) ∙ h.text

pub process_key-injective :
    (q : Selects) (p r : ProcessRow)
    → IsHost q p
    → IsHost q r
    → process_key p ≡ process_key r
    → same_columns p r ≡ true
unfolding process_key
process_key-injective q p r h k e = (same_columns_iff p r).1 (
    cut_unique b'-' p.ipv4 p.pname r.ipv4 r.pname
      (addr-IsFree b'-' p.ipv4 (unfold is_addr_char in refl)
        (rw h.text at (ip_string-IsAddrText h.ip h.size)))
      (addr-IsFree b'-' r.ipv4 (unfold is_addr_char in refl)
        (rw k.text at (ip_string-IsAddrText k.ip k.size)))
      e)

pub scan_row-shown :
    (q : Selects) (j : Joined)
    → IsHost q j.active_process
    → IsHost q j.passive_process
    → scan_row q j ≡ scanned (shown q j)
unfolding scan_row shown ip_at
scan_row-shown q j a p =
    rw (scan_row, a.read, p.read, ip_at-read q j.active_process a, ip_at-read q j.passive_process p)
      refl

pub map-cong :
    {A B : Type 0} (f g : A → B) (xs : List A)
    → ((x : A) → Among x xs → f x ≡ g x)
    → map f xs ≡ map g xs
map-cong f g [] h = refl
map-cong f g (x ∷ xs) h =
    ap (λ y. y ∷ map f xs) (h x (inl refl))
    ∙ ap (λ ys. g x ∷ ys) (map-cong f g xs λ y m. h y (inr m))

pub map-map :
    {A B C : Type 0} (f : B → C) (g : A → B) (xs : List A)
    → map f (map g xs) ≡ map (λ x. f (g x)) xs
map-map f g [] = refl
map-map f g (x ∷ xs) = ap (λ ys. f (g x) ∷ ys) (map-map f g xs)

pub rows_at-shown :
    (q : Selects) (key : Row → Text) (k : Text) (js : List Joined)
    → rows_at key k (map (shown q) js)
      ≡ map (λ j. flow_of_row (shown q j)) (keep (λ j. key (shown q j) == k) js)
unfolding keep
rows_at-shown q key k [] = refl
rows_at-shown q key k (j ∷ js) = elim (Bool-cases (key (shown q j) == k)) [
  | inl same ↦ rw same (ap (λ fs. flow_of_row (shown q j) ∷ fs) (rows_at-shown q key k js))
  | inr other ↦ rw other (rows_at-shown q key k js)
]

pub process_key-cong : (p r : ProcessRow) → same_columns p r ≡ true → process_key p ≡ process_key r
unfolding process_key
process_key-cong p r h = let same = (same_columns_iff p r).0 h in rw (same.0, same.1) refl
