-- ===== src/Db/Select/Distinct.antt =====
-- `DISTINCT ON` after `ORDER BY` in the queries of `FindPassiveFlows` and `FindActiveFlows`.
use shawk.Prelude.{
  ◌≤◌, ◌≡◌, ◌↔◌, ◌⊎◌, ◌∷◌, Bool-cases, keep, All, Among, Among-keep, keep-Among, All-at,
  text_eq_iff, refl, ap, inl, inr, Bool, true, false, not, List, [], arith,
}
use shawk.Db.Tables.{ProcessRow}
use shawk.Db.Select.{Joined, Selects, same_columns, distinct_on}

-- Of two rows with the same address and name, the later one is not newer.
abbrev pub IsNewestFirst : (Joined → ProcessRow) → List Joined → Type 0
IsNewestFirst side [] = Unit
IsNewestFirst side (j ∷ js) =
    All (λ r. same_columns (side j) (side r) ≡ true → r.flow.updated ≤ j.flow.updated) js
    × IsNewestFirst side js

-- The documented part of `ORDER BY ipv4, pname, updated DESC`: the rows are those that it is
-- given, and those of one address and name stand in the order of their dates, the newest first.
pub record IsSelects (q : Selects) : Type 0 where
  pub same_rows :
      (side : Joined → ProcessRow) (js : List Joined) (j : Joined)
      → Among j (q.order_by side js) ↔ Among j js
  pub newest_first :
      (side : Joined → ProcessRow) (js : List Joined) → IsNewestFirst side (q.order_by side js)

pub same_columns_iff :
    (p r : ProcessRow) → (same_columns p r ≡ true) ↔ ((p.ipv4 ≡ r.ipv4) × (p.pname ≡ r.pname))
unfolding same_columns
same_columns_iff p r = ground (arith, text_eq_iff p.ipv4 r.ipv4, text_eq_iff p.pname r.pname)

keep-none :
    (p : Joined → Bool) (js : List Joined)
    → ((j : Joined) → Among j js → p j ≡ false)
    → keep p js ≡ []
unfolding keep
keep-none p [] h = refl
keep-none p (j ∷ js) h = rw (h j (inl refl)) (keep-none p js λ r m. h r (inr m))

keep-keep : (p q : Joined → Bool) (js : List Joined) → keep p (keep q js) ≡ keep q (keep p js)
unfolding keep
keep-keep p q [] = refl
keep-keep p q (j ∷ js) = ground (arith, keep-keep p q js)

-- At most one row.
abbrev pub AtMostOne : List Joined → Type 0
AtMostOne js = (js ≡ []) ⊎ ((j : Joined) × (js ≡ j ∷ []))

keep-AtMostOne : (p : Joined → Bool) (js : List Joined) → AtMostOne js → AtMostOne (keep p js)
unfolding keep
keep-AtMostOne p js (inl e) = inl (rw e refl)
keep-AtMostOne p js (inr (j, e)) = elim (Bool-cases (p j)) [
  | inl kept ↦ inr (j, rw (e, kept) refl)
  | inr dropped ↦ inl (rw (e, dropped) refl)
]

module _ (side : Joined → ProcessRow) where
  pub Among-distinct_on :
      (js : List Joined) (j : Joined) → Among j (distinct_on side js) → Among j js
  unfolding distinct_on
  Among-distinct_on [] j m = m
  Among-distinct_on (h ∷ js) j (inl e) = inl e
  Among-distinct_on (h ∷ js) j (inr m) =
      inr (Among-distinct_on js j (Among-keep _ (distinct_on side js) j m).0)

  -- A row that is kept is the newest of its address and name.
  pub distinct_on-newest :
      (js : List Joined) (j r : Joined)
      → IsNewestFirst side js
      → Among j (distinct_on side js)
      → Among r js
      → same_columns (side j) (side r) ≡ true
      → r.flow.updated ≤ j.flow.updated
  unfolding distinct_on
  distinct_on-newest [] j r sorted m n same = elim m [ ]
  distinct_on-newest (h ∷ js) j r sorted (inl e) (inl e') same = rw (e, e') (omega arith)
  distinct_on-newest (h ∷ js) j r sorted (inl e) (inr n) same =
      rw e (All-at _ js r n sorted.0 (rw e at same))
  distinct_on-newest (h ∷ js) j r sorted (inr m) (inl e') same =
      let (kept, other) = Among-keep _ (distinct_on side js) j m in
      absurd (
        ground (
          arith,
          same_columns_iff (side j) (side h),
          same_columns_iff (side h) (side j),
          rw e' at same,
        ))
  distinct_on-newest (h ∷ js) j r sorted (inr m) (inr n) same =
      distinct_on-newest js j r sorted.1 (Among-keep _ (distinct_on side js) j m).0 n same

  -- Every address and name keeps a row.
  pub distinct_on-covers :
      (js : List Joined) (r : Joined)
      → Among r js
      → (j : Joined) × Among j (distinct_on side js) × (same_columns (side j) (side r) ≡ true)
  unfolding distinct_on
  distinct_on-covers [] r n = elim n [ ]
  distinct_on-covers (h ∷ js) r (inl e) =
      (h, inl refl, rw e ((same_columns_iff (side h) (side h)).1 (refl, refl)))
  distinct_on-covers (h ∷ js) r (inr n) =
      let (j, m, same) = distinct_on-covers js r n in
      elim (Bool-cases (same_columns (side h) (side j))) [
        | inl again ↦ (
          h,
          inl refl,
          ground (
            arith,
            same_columns_iff (side h) (side j),
            same_columns_iff (side j) (side r),
            same_columns_iff (side h) (side r),
          ),
        )
        | inr new ↦ (j, inr (keep-Among _ (distinct_on side js) j m (ground arith)), same)
      ]

  -- If a test passes only on rows of one address and name, then at most one row of the result
  -- passes it.
  pub keep-distinct_on :
      (p : Joined → Bool) (js : List Joined)
      → ((i r : Joined)
          → Among i js
          → Among r js
          → p i ≡ true
          → p r ≡ true
          → same_columns (side i) (side r) ≡ true)
      → AtMostOne (keep p (distinct_on side js))
  unfolding distinct_on keep
  keep-distinct_on p [] h = inl refl
  keep-distinct_on p (j ∷ js) h =
      let others = distinct_on side js in
      let new : Joined → Bool = λ r. not (same_columns (side j) (side r)) in
      elim (Bool-cases (p j)) [
        | inl passes ↦ inr (
          j,
          rw passes (
              ap (λ rest. j ∷ rest)
                (keep-none p (keep new others) λ r m. elim (Bool-cases (p r)) [
                  | inl too ↦
                      let (n, differs) = Among-keep new others r m in
                      let same = h j r (inl refl) (inr (Among-distinct_on js r n)) passes too in
                      absurd (ground (arith, same, differs))
                  | inr fails ↦ fails
                ])),
        )
        | inr fails ↦
            rw (fails, keep-keep p new others)
              (keep-AtMostOne new (keep p others)
                (keep-distinct_on p js λ i r m n. h i r (inr m) (inr n)))
      ]
