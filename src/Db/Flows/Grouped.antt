-- ===== src/Db/Flows/Grouped.antt =====
-- What the loops of `FindPassiveFlows` and `FindActiveFlows` collect.
use shawk.Prelude.{
  ◌≡◌, ◌∙◌, ◌∷◌, ◌++◌, ◌==◌, if◌then◌else◌, Bool-cases, append-nil, append_assoc, keep, ok, Text,
  text_eq_iff, ℕ, refl, sym, ap, inl, inr, true, List, [], map, nat_eq, text_equality,
}
use shawk.Prelude.Map.{lookup, insert, lookup-insert}
use shawk.Net.{Ip}
use shawk.Db.Flows.{
  Flow, Flows, FindFlowsCond, Row, scanned, Rows, rows, flows_at, flow_of_row, passive_key,
  active_key, prepared, add_rows, collect, find_flows, find_passive_flows, find_active_flows,
}

-- The flows of the rows with a key, in the order of the rows.
abbrev pub rows_at : (Row → Text) → Text → List Row → List Flow
rows_at key k rs = map flow_of_row (keep (λ r. key r == k) rs)

-- A map holds under every key what it held, and the flows of the rows with that key.
abbrev pub Collects : (Row → Text) → Flows → List Row → Flows → Type 0
Collects key flows rs result = (k : Text) → flows_at k result ≡ flows_at k flows ++ rows_at key k rs

flows_at-insert :
    (k j : Text) (fs : List Flow) (flows : Flows)
    → flows_at j (insert k fs flows) ≡ (if k == j then fs else flows_at j flows)
unfolding flows_at
flows_at-insert k j fs flows = elim (Bool-cases (k == j)) [
  | inl same ↦ rw (flows_at, lookup-insert k j fs flows, same) refl
  | inr other ↦ rw (flows_at, lookup-insert k j fs flows, other) refl
]

add_rows-Collects :
    (key : Row → Text) (flows : Flows) (rs : List Row)
    → (result : Flows) × (add_rows key flows (map scanned rs) ≡ ok result)
      × Collects key flows rs result
unfolding add_rows keep
add_rows-Collects key flows [] = (flows, refl, λ k. sym (append-nil (flows_at k flows)))
add_rows-Collects key flows (r ∷ rs) =
    let old = flows_at (key r) flows in
    let (result, e, held) =
      add_rows-Collects key (insert (key r) (old ++ flow_of_row r ∷ []) flows) rs in
    (
      result,
      e,
      λ k. elim (Bool-cases (key r == k)) [
        | inl same ↦
            let at : key r ≡ k = (text_eq_iff (key r) k).0 same in
            rw same (
              held k
              ∙ rw (flows_at-insert (key r) k (old ++ flow_of_row r ∷ []) flows, same)
                  (append_assoc old (flow_of_row r ∷ []) (rows_at key k rs)
                    ∙ ap (λ j. flows_at j flows ++ (flow_of_row r ∷ rows_at key k rs)) at))
        | inr other ↦
            rw other (
              held k ∙ rw (flows_at-insert (key r) k (old ++ flow_of_row r ∷ []) flows, other) refl)
      ],
    )

collect-Collects :
    (key : Row → Text) (rs : List Row)
    → (flows : Flows) × (collect key (rows (map scanned rs) true) ≡ ok flows)
      × ((k : Text) → flows_at k flows ≡ rows_at key k rs)
unfolding collect flows_at lookup
collect-Collects key rs =
    let (flows, e, held) = add_rows-Collects key [] rs in (flows, rw e refl, held)

find_flows-some :
    (key : Row → Text) (query : FindFlowsCond → Rows) (now : ℕ) (cond : FindFlowsCond)
    (all : List Ip) (a : Ip) (addrs : List Ip)
    → all ≡ a ∷ addrs
    → (find_flows key query now cond all).0 ≡ collect key (query (prepared now cond))
unfolding find_flows
find_flows-some key query now cond all a addrs e = rw e refl

-- If a condition has an address, and the server answers the query with rows that are all read, then
-- `FindPassiveFlows` returns a map that holds under every key exactly the flows of the rows with
-- that passive address and process name, in the order of the rows.
pub find_passive_flows-groups :
    (query : FindFlowsCond → Rows) (now : ℕ) (cond : FindFlowsCond) (a : Ip) (addrs : List Ip)
    (rs : List Row)
    → cond.addrs ≡ a ∷ addrs
    → query (prepared now cond) ≡ rows (map scanned rs) true
    → (flows : Flows) × ((find_passive_flows query now cond).0 ≡ ok flows)
      × ((k : Text) → flows_at k flows ≡ rows_at passive_key k rs)
unfolding find_passive_flows
find_passive_flows-groups query now cond a addrs rs some_addr answer =
    let (flows, e, held) = collect-Collects passive_key rs in
    (
      flows,
      find_flows-some passive_key query now cond cond.addrs a addrs some_addr
          ∙ ap (collect passive_key) answer
          ∙ e,
      held,
    )

-- If a condition has an address, and the server answers the query with rows that are all read, then
-- `FindActiveFlows` returns a map that holds under every key exactly the flows of the rows with
-- that active address and process name, in the order of the rows.
pub find_active_flows-groups :
    (query : FindFlowsCond → Rows) (now : ℕ) (cond : FindFlowsCond) (a : Ip) (addrs : List Ip)
    (rs : List Row)
    → cond.addrs ≡ a ∷ addrs
    → query (prepared now cond) ≡ rows (map scanned rs) true
    → (flows : Flows) × ((find_active_flows query now cond).0 ≡ ok flows)
      × ((k : Text) → flows_at k flows ≡ rows_at active_key k rs)
unfolding find_active_flows
find_active_flows-groups query now cond a addrs rs some_addr answer =
    let (flows, e, held) = collect-Collects active_key rs in
    (
      flows,
      find_flows-some active_key query now cond cond.addrs a addrs some_addr
          ∙ ap (collect active_key) answer
          ∙ e,
      held,
    )
