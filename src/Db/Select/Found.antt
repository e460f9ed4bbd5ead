-- ===== src/Db/Select/Found.antt =====
-- `FindPassiveFlows` and `FindActiveFlows` on the tables of the server.
use shawk.Prelude.{
  ◌≡◌, ◌∙◌, ◌↔◌, ◌∷◌, ◌++◌, ◌==◌, if◌then◌else◌, All, Among, Among-keep, keep-Among, All-at, ok,
  Text, text_eq, text_eq_iff, ℕ, refl, sym, ap, inl, inr, Bool, true, List, map, nat_eq,
  text_equality,
}
use shawk.Net.{Ip}
use mathlib.Core.Path.{subst}
use shawk.Db.Tables.{ProcessRow, Tables}
use shawk.Db.Flows.{
  Flow, Flows, FindFlowsCond, Row, Rows, query_failed, scanned, rows, flows_at, flow_of_row,
  passive_key, active_key, prepared, find_passive_flows, find_active_flows,
}
use shawk.Db.Flows.Grouped.{rows_at, find_passive_flows-groups, find_active_flows-groups}
use shawk.Db.Select.{
  Joined, passive_side, active_side, Selects, listed, can_send, between, inner_join, same_columns,
  row_of, distinct_on, scan_row, answer_of, select_passive, select_active,
}
use shawk.Db.Select.Joins.{IsJoin, inner_join-Among, Among-inner_join}
use shawk.Db.Select.Distinct.{
  IsSelects, Among-distinct_on, distinct_on-newest, distinct_on-covers, keep-distinct_on,
}
use shawk.Db.Select.Latest.{
  IsHost, shown, process_key, Wanted, IsLatest, host-ip_string, process_key-injective,
  process_key-cong, scan_row-shown, map-cong, map-map, rows_at-shown,
}

if_true : (b : Bool) (x y : Rows) → b ≡ true → (if b then x else y) ≡ x
if_true b x y h = rw h refl

-- One of the two queries, on a side, with the key of its function.
module _ (q : Selects) (law : IsSelects q) (t : Tables) (hosts : All (IsHost q) t.processes)
    (cond : FindFlowsCond) (side : Joined → ProcessRow) (key : Row → Text)
    (side-IsHost : (j : Joined) → IsJoin t j → IsHost q (side j))
    (keys : (j : Joined) → IsJoin t j → key (shown q j) ≡ process_key (side j)) (js : List Joined)
    (wanted : (j : Joined) → Among j js ↔ Wanted q t cond side j) where
  abbrev sorted : List Joined
  sorted = q.order_by side js

  abbrev result : List Row
  result = map (shown q) (distinct_on side sorted)

  sorted-Wanted : (j : Joined) → Among j sorted ↔ Wanted q t cond side j
  sorted-Wanted j =
      let same = law.same_rows side js j in
      (λ m. (wanted j).0 (same.0 m), λ w. same.1 ((wanted j).1 w))

  answer_of-result : answer_of q side js ≡ rows (map scanned result) true
  unfolding answer_of
  answer_of-result =
      ap (λ reads. rows reads true)
        (map-cong (scan_row q) (λ j. scanned (shown q j)) (distinct_on side sorted)
            (λ j m.
              let join = ((sorted-Wanted j).0 (Among-distinct_on side sorted j m)).0 in
              scan_row-shown q j
                (All-at (IsHost q) t.processes j.active_process join.active_process hosts)
                (All-at (IsHost q) t.processes j.passive_process join.passive_process hosts))
          ∙ sym (map-map scanned (shown q) (distinct_on side sorted)))

  one_process :
      (k : Text) (i r : Joined)
      → Among i sorted
      → Among r sorted
      → process_key (side i) ≡ k
      → process_key (side r) ≡ k
      → same_columns (side i) (side r) ≡ true
  one_process k i r m n e e' =
      process_key-injective q (side i) (side r) (side-IsHost i ((sorted-Wanted i).0 m).0)
        (side-IsHost r ((sorted-Wanted r).0 n).0) (e ∙ sym e')

  key_at :
      (k : Text) (j : Joined)
      → Among j sorted
      → text_eq (key (shown q j)) k ≡ true
      → process_key (side j) ≡ k
  key_at k j m e = sym (keys j ((sorted-Wanted j).0 m).0) ∙ (text_eq_iff (key (shown q j)) k).0 e

  at_key :
      (k : Text) (j : Joined)
      → Among j sorted
      → process_key (side j) ≡ k
      → text_eq (key (shown q j)) k ≡ true
  at_key k j m e = (text_eq_iff (key (shown q j)) k).1 (keys j ((sorted-Wanted j).0 m).0 ∙ e)

  result-IsLatest : (k : Text) → IsLatest q t cond side k (rows_at key k result)
  result-IsLatest k =
      let all = distinct_on side sorted in
      let p : Joined → Bool = λ j. key (shown q j) == k in
      let shows = rows_at-shown q key k all in
      let flow_of : Joined → Flow = λ j. flow_of_row (shown q j) in
      elim (keep-distinct_on side p sorted
        (λ i r m n e e'. one_process k i r m n (key_at k i m e) (key_at k r n e'))) [
          | inl none_left ↦ inl (
            shows ∙ ap (map flow_of) none_left,
            λ j w e.
                let n = (sorted-Wanted j).1 w in
                let (i, m, same) = distinct_on-covers side sorted j n in
                subst (Among i) none_left (
                  keep-Among p all i m (
                    at_key k i (Among-distinct_on side sorted i m)
                      (process_key-cong (side i) (side j) same ∙ e))),
          )
          | inr (j, one) ↦
              let (m, e) = Among-keep p all j (subst (Among j) (sym one) (inl refl)) in
              let n = Among-distinct_on side sorted j m in
              inr (
                j,
                (sorted-Wanted j).0 n,
                key_at k j n e,
                shows ∙ ap (map flow_of) one,
                λ r w e'.
                    let n' = (sorted-Wanted r).1 w in
                    distinct_on-newest side sorted j r (law.newest_first side js) m n'
                      (one_process k j r n n' (key_at k j n e) e'),
              )
        ]

module _ (q : Selects) (law : IsSelects q) (t : Tables) (hosts : All (IsHost q) t.processes)
    (now : ℕ) (cond : FindFlowsCond) (a : Ip) (addrs : List Ip) (given : cond.addrs ≡ a ∷ addrs)
    (sent : can_send q (prepared now cond).addrs ≡ true) where
  passive-IsHost : (j : Joined) → IsJoin t j → IsHost q j.passive_process
  passive-IsHost j is = All-at (IsHost q) t.processes j.passive_process is.passive_process hosts

  active-IsHost : (j : Joined) → IsJoin t j → IsHost q j.active_process
  active-IsHost j is = All-at (IsHost q) t.processes j.active_process is.active_process hosts

  passive_keys : (j : Joined) → IsJoin t j → passive_key (shown q j) ≡ process_key j.passive_process
  unfolding passive_key process_key shown row_of
  passive_keys j is =
      ap (λ s. s ++ (b'-' ∷ j.passive_process.pname))
        (host-ip_string q j.passive_process (passive-IsHost j is))

  active_keys : (j : Joined) → IsJoin t j → active_key (shown q j) ≡ process_key j.active_process
  unfolding active_key process_key shown row_of
  active_keys j is =
      ap (λ s. s ++ (b'-' ∷ j.active_process.pname))
        (host-ip_string q j.active_process (active-IsHost j is))

  pub find_passive_flows-IsLatest :
      (flows : Flows) × ((find_passive_flows (select_passive q t) now cond).0 ≡ ok flows)
      × ((k : Text) → IsLatest q t (prepared now cond) passive_side k (flows_at k flows))
  unfolding select_passive
  find_passive_flows-IsLatest =
      let cond' = prepared now cond in
      let every : ProcessRow → Bool = λ p. true in
      let at_addrs = listed q cond'.addrs in
      let js = inner_join (between q cond') every at_addrs t in
      let wanted : (j : Joined) → Among j js ↔ Wanted q t cond' passive_side j = λ j. (
        λ m.
            let (is, dated, any_process, at) =
              Among-inner_join (between q cond') every at_addrs t j m in
            (is, dated, at),
        λ (is, dated, at). inner_join-Among (between q cond') every at_addrs t j is dated refl at,
      ) in
      let read =
        answer_of-result q law t hosts cond' passive_side passive_key passive-IsHost passive_keys js
          wanted in
      let (flows, e, held) =
        find_passive_flows-groups (select_passive q t) now cond a addrs _ given
          (if_true _ (answer_of q passive_side js) query_failed sent ∙ read) in
      (
        flows,
        e,
        λ k. subst (IsLatest q t cond' passive_side k) (sym (held k)) (
            result-IsLatest q law t hosts cond' passive_side passive_key passive-IsHost passive_keys
              js wanted k),
      )

  pub find_active_flows-IsLatest :
      (flows : Flows) × ((find_active_flows (select_active q t) now cond).0 ≡ ok flows)
      × ((k : Text) → IsLatest q t (prepared now cond) active_side k (flows_at k flows))
  unfolding select_active
  find_active_flows-IsLatest =
      let cond' = prepared now cond in
      let every : ProcessRow → Bool = λ p. true in
      let at_addrs = listed q cond'.addrs in
      let js = inner_join (between q cond') at_addrs every t in
      let wanted : (j : Joined) → Among j js ↔ Wanted q t cond' active_side j = λ j. (
        λ m.
            let (is, dated, at, any_process) =
              Among-inner_join (between q cond') at_addrs every t j m in
            (is, dated, at),
        λ (is, dated, at). inner_join-Among (between q cond') at_addrs every t j is dated at refl,
      ) in
      let read =
        answer_of-result q law t hosts cond' active_side active_key active-IsHost active_keys js
          wanted in
      let (flows, e, held) =
        find_active_flows-groups (select_active q t) now cond a addrs _ given
          (if_true _ (answer_of q active_side js) query_failed sent ∙ read) in
      (
        flows,
        e,
        λ k. subst (IsLatest q t cond' active_side k) (sym (held k)) (
            result-IsLatest q law t hosts cond' active_side active_key active-IsHost active_keys js
              wanted k),
      )

  -- If the server orders rows as documented, and Go prints the addresses of the processes as the
  -- server stores them, then `FindPassiveFlows` and `FindActiveFlows` succeed on a condition with an
  -- address, all of whose addresses the driver can send as IPv4 addresses. Their maps hold under a key
  -- exactly one flow, if there is a flow in the time range to, or from, a process of the key at one
  -- of the addresses, and none otherwise. The one flow is that of a most recently updated such row
  -- of the tables.
  pub find_flows-IsLatest :
      ((flows : Flows) × ((find_passive_flows (select_passive q t) now cond).0 ≡ ok flows)
        × ((k : Text) → IsLatest q t (prepared now cond) passive_side k (flows_at k flows)))
      × ((flows : Flows) × ((find_active_flows (select_active q t) now cond).0 ≡ ok flows)
          × ((k : Text) → IsLatest q t (prepared now cond) active_side k (flows_at k flows)))
  find_flows-IsLatest = (find_passive_flows-IsLatest, find_active_flows-IsLatest)
