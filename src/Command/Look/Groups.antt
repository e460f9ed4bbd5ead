-- ===== src/Command/Look/Groups.antt =====
-- The groups of the maps that `FindPassiveFlows` and `FindActiveFlows` return.
use shawk.Prelude.{
  ◌≡◌, ◌∙◌, ◌≢◌, ◌↔◌, ◌∷◌, ◌++◌, ◌==◌, if◌then◌else◌, Bool-cases, Option-cases, keep, All, Among,
  All-of_Among, ok, Text, text_eq, text_eq_iff, ℕ, refl, sym, ap, inl, inr, Bool, true, Option,
  none, some, List, [], map, arith, nat_eq, text_equality,
}
use shawk.Prelude.Map.{lookup, insert, lookup-insert, IsMap, insert-IsMap}
use mathlib.Core.Path.{subst}
use shawk.Net.{Ip}
use shawk.Db.Flows.{
  no_rows, query_failed, rows, Rows, FindFlowsCond, checked, collect, find_flows, prepared, RowRead,
  scan_failed, scanned, Flow, Flows, Row, flows_at, flow_of_row, add_rows,
}
use shawk.Db.Flows.Grouped.{rows_at}

-- No key of a map stands twice, and no group is empty.
abbrev pub IsFilled : Flows → Type 0
IsFilled flows = IsMap flows × ((k : Text) → lookup k flows ≢ some [])

some_inj : {fs gs : List Flow} → some fs ≡ some gs → fs ≡ gs
some_inj h = cc

append-not_nil : (old : List Flow) (f : Flow) → (old ++ f ∷ []) ≢ []
append-not_nil [] f h = cc
append-not_nil (g ∷ old) f h = cc

insert-filled :
    (k : Text) (old : List Flow) (f : Flow) (flows : Flows)
    → ((j : Text) → lookup j flows ≢ some [])
    → (j : Text) → lookup j (insert k (old ++ f ∷ []) flows) ≢ some []
insert-filled k old f flows filled j h =
    let chosen : Bool → Option (List Flow) =
      λ b. if b then some (old ++ f ∷ []) else lookup j flows in
    let found : chosen (text_eq k j) ≡ some [] =
      sym (lookup-insert k j (old ++ f ∷ []) flows) ∙ h in
    elim (Bool-cases (text_eq k j)) [
      | inl same ↦ append-not_nil old f (some_inj (ap chosen (sym same) ∙ found))
      | inr other ↦ filled j (ap chosen (sym other) ∙ found)
    ]

insert-IsFilled :
    (k : Text) (old : List Flow) (f : Flow) (flows : Flows)
    → IsFilled flows
    → IsFilled (insert k (old ++ f ∷ []) flows)
insert-IsFilled k old f flows (m, filled) =
    (insert-IsMap k (old ++ f ∷ []) flows m, insert-filled k old f flows filled)

ok_inj : {flows result : Flows} → ok flows ≡ ok result → flows ≡ result
ok_inj h = cc

add_rows-IsFilled :
    (key : Row → Text) (reads : List RowRead) (flows result : Flows)
    → IsFilled flows
    → add_rows key flows reads ≡ ok result
    → IsFilled result
unfolding add_rows
add_rows-IsFilled key [] flows result filled h = subst IsFilled (ok_inj h) filled
add_rows-IsFilled key (scan_failed ∷ reads) flows result filled h = ground arith
add_rows-IsFilled key (scanned r ∷ reads) flows result filled h =
    add_rows-IsFilled key reads
      (insert (key r) (flows_at (key r) flows ++ flow_of_row r ∷ []) flows) result
      (insert-IsFilled (key r) (flows_at (key r) flows) (flow_of_row r) flows filled) h

-- The order in which `range` visits a map: each of its values, and nothing else.
abbrev pub IsRange : (Flows → List (List Flow)) → Type 0
IsRange ranged =
    (flows : Flows) (g : List Flow)
    → IsMap flows
    → Among g (ranged flows) ↔ ((k : Text) × (lookup k flows ≡ some g))

-- Groups of the rows by a key: none is empty, each is the flows of a key in the order of the rows,
-- and the group of every row is there.
abbrev pub Groups : (Row → Text) → List Row → List (List Flow) → Type 0
Groups key rs gs =
    All (λ g. g ≢ []) gs
    × All (λ g. (k : Text) × (g ≡ rows_at key k rs)) gs
    × ((r : Row) → Among r rs → Among (rows_at key (key r) rs) gs)

pub flows_at-lookup :
    (k : Text) (flows : Flows) (g : List Flow) → lookup k flows ≡ some g → flows_at k flows ≡ g
unfolding flows_at
flows_at-lookup k flows g h = rw (flows_at, h) refl

pub flows_at-missing : (k : Text) (flows : Flows) → lookup k flows ≡ none → flows_at k flows ≡ []
unfolding flows_at
flows_at-missing k flows h = rw (flows_at, h) refl

kept :
    (p : Row → Bool) (rs : List Row) (r : Row)
    → Among r rs
    → p r ≡ true
    → map flow_of_row (keep p rs) ≢ []
unfolding keep
kept p [] r m own h = elim m [ ]
kept p (q ∷ rs) r (inl e) own h = ground (arith, ap p e)
kept p (q ∷ rs) r (inr m) own h = elim (Bool-cases (p q)) [
  | inl first ↦ ground arith
  | inr other ↦ kept p rs r m own (ground arith)
]

rows_at-own :
    (key : Row → Text) (r : Row) (rs : List Row) → Among r rs → rows_at key (key r) rs ≢ []
rows_at-own key r rs m = kept (λ q. key q == key r) rs r m ((text_eq_iff (key r) (key r)).1 refl)

pub ranged-Groups :
    (key : Row → Text) (rs : List Row) (flows : Flows) (ranged : Flows → List (List Flow))
    → IsRange ranged
    → IsFilled flows
    → ((k : Text) → flows_at k flows ≡ rows_at key k rs)
    → Groups key rs (ranged flows)
unfolding flows_at
ranged-Groups key rs flows ranged range filled held = (
  All-of_Among _ (ranged flows) (λ g m empty.
      let (k, found) = (range flows g filled.0).0 m in filled.1 k (found ∙ ap (λ h. some h) empty)),
  All-of_Among _ (ranged flows) (λ g m.
      let (k, found) = (range flows g filled.0).0 m in
      (k, sym (flows_at-lookup k flows g found) ∙ held k)),
  λ r m. elim (Option-cases (lookup (key r) flows)) [
    | inl missing ↦
        absurd
          (rows_at-own key r rs m (sym (held (key r)) ∙ flows_at-missing (key r) flows missing))
    | inr (g, found) ↦ (range flows (rows_at key (key r) rs) filled.0).1 (
      key r,
      found ∙ ap (λ h. some h) (sym (flows_at-lookup (key r) flows g found) ∙ held (key r)),
    )
  ],
)

empty-IsFilled : IsFilled []
unfolding lookup
empty-IsFilled = (tt, λ k h. cc)

collect-IsFilled :
    (key : Row → Text) (answer : Rows) (flows : Flows)
    → collect key answer ≡ ok flows
    → IsFilled flows
unfolding collect checked
collect-IsFilled key no_rows flows h = subst IsFilled (ok_inj h) empty-IsFilled
collect-IsFilled key query_failed flows h = ground arith
collect-IsFilled key (rows reads fine) flows h =
    add_rows-IsFilled key reads [] flows empty-IsFilled (ground arith)

pub find_flows-IsFilled :
    (key : Row → Text) (query : FindFlowsCond → Rows) (now : ℕ) (cond : FindFlowsCond)
    (addrs : List Ip) (flows : Flows)
    → (find_flows key query now cond addrs).0 ≡ ok flows
    → IsFilled flows
unfolding find_flows
find_flows-IsFilled key query now cond [] flows h = subst IsFilled (ok_inj h) empty-IsFilled
find_flows-IsFilled key query now cond (a ∷ addrs) flows h =
    collect-IsFilled key (query (prepared now cond)) flows h
