-- ===== src/Db/Select/Samples.antt =====
-- A driver, an order of rows, and the hosts of the flows of db_test.go, for the tests.
use shawk.Prelude.{
  ◌≤◌, ◌↔◌, ◌∷◌, ◌==◌, if◌then◌else◌, leb, Bool-cases, All, Among, All-at, All-of_Among, Text,
  text_eq, refl, inl, inr, Option, none, some, List, [], arith, nat_eq, text_equality,
}
use shawk.Net.{Ip, ip_string}
use shawk.Net.Chars.{IsIp}
use shawk.Strconv.{format_uint}
use shawk.Db.Insert.Samples.{written, program}
use shawk.Db.Select.Latest.{IsHost}
use shawk.Db.Tables.{ProcessRow}
use shawk.Db.Select.{Joined, Selects}
use shawk.Db.Select.Distinct.{IsNewestFirst, IsSelects}

unfoldable pub place : Joined → List Joined → List Joined
place j [] = j ∷ []
place j (h ∷ js) =
    let rest = place j js in if leb h.flow.updated j.flow.updated then j ∷ h ∷ js else h ∷ rest

unfoldable pub newest : List Joined → List Joined
unfolding place
newest [] = []
newest (j ∷ js) = place j (newest js)

abbrev pub here : Ip
here = 10 ∷ 0 ∷ 10 ∷ 1 ∷ []

abbrev pub there : Ip
there = 10 ∷ 0 ∷ 10 ∷ 2 ∷ []

unfoldable pub ip_of : Text → Option Ip
unfolding ip_string text_eq
ip_of t =
    if t == ip_string here then some here else if t == ip_string there then some there else none

-- The driver refuses nil.
unfoldable pub sent : Ip → Option Text
unfolding ip_string
sent [] = none
sent (b ∷ ip) = some (ip_string (b ∷ ip))

abbrev pub driver : Selects
driver = record {
  inet_of = sent;
  ip_of = ip_of;
  timestamp = λ time. time;
  order_by = λ side js. newest js;
}

Among-place : (h : Joined) (js : List Joined) (j : Joined) → Among j (place h js) ↔ Among j (h ∷ js)
unfolding place
Among-place h [] j = (λ m. m, λ m. m)
Among-place h (k ∷ js) j = elim (Bool-cases (leb k.flow.updated h.flow.updated)) [
  | inl front ↦ rw front (λ m. m, λ m. m)
  | inr later ↦
      let same = Among-place h js j in
      rw later (
        λ m. elim m [
          | inl e ↦ inr (inl e)
          | inr n ↦ elim (same.0 n) [ inl e ↦ inl e | inr l ↦ inr (inr l) ]
        ],
        λ m. elim m [
          | inl e ↦ inr (same.1 (inl e))
          | inr n ↦ elim n [ inl e ↦ inl e | inr l ↦ inr (same.1 (inr l)) ]
        ],
      )
]

Among-newest : (js : List Joined) (j : Joined) → Among j (newest js) ↔ Among j js
unfolding newest
Among-newest [] j = (λ m. m, λ m. m)
Among-newest (h ∷ js) j =
    let placed = Among-place h (newest js) j in
    let same = Among-newest js j in
    (
      λ m. elim (placed.0 m) [ inl e ↦ inl e | inr n ↦ inr (same.0 n) ],
      λ m. placed.1 (elim m [ inl e ↦ inl e | inr n ↦ inr (same.1 n) ]),
    )

abbrev IsDescending : List Joined → Type 0
IsDescending [] = Unit
IsDescending (j ∷ js) = All (λ r. r.flow.updated ≤ j.flow.updated) js × IsDescending js

place-IsDescending : (h : Joined) (js : List Joined) → IsDescending js → IsDescending (place h js)
unfolding place
place-IsDescending h [] d = (tt, tt)
place-IsDescending h (k ∷ js) d = elim (Bool-cases (leb k.flow.updated h.flow.updated)) [
  | inl front ↦
      let below : k.flow.updated ≤ h.flow.updated = ground arith in
      rw front (
        (
          below,
          All-of_Among _ js λ r m.
              let le = All-at (λ x. x.flow.updated ≤ k.flow.updated) js r m d.0 in
              omega (arith, le, below),
        ),
        d,
      )
  | inr later ↦
      let above : h.flow.updated ≤ k.flow.updated = ground arith in
      rw later (
        All-of_Among _ (place h js) λ r m. elim ((Among-place h js r).0 m) [
          | inl e ↦ rw e above
          | inr n ↦ All-at (λ x. x.flow.updated ≤ k.flow.updated) js r n d.0
        ],
        place-IsDescending h js d.1,
      )
]

newest-IsDescending : (js : List Joined) → IsDescending (newest js)
unfolding newest
newest-IsDescending [] = tt
newest-IsDescending (j ∷ js) = place-IsDescending j (newest js) (newest-IsDescending js)

descending-IsNewestFirst :
    (side : Joined → ProcessRow) (js : List Joined) → IsDescending js → IsNewestFirst side js
descending-IsNewestFirst side [] d = tt
descending-IsNewestFirst side (j ∷ js) d = (
  All-of_Among _ js λ r m same. All-at (λ x. x.flow.updated ≤ j.flow.updated) js r m d.0,
  descending-IsNewestFirst side js d.1,
)

pub driver-IsSelects : IsSelects driver
driver-IsSelects = record {
  same_rows = λ side js j. Among-newest js j;
  newest_first = λ side js. descending-IsNewestFirst side (newest js) (newest-IsDescending js);
}

here-IsIp : IsIp here
here-IsIp = record { size = inl refl; bytes = omega arith }

there-IsIp : IsIp there
there-IsIp = record { size = inl refl; bytes = omega arith }

pub written-IsHost : All (IsHost driver) written.tables.processes
unfolding program ip_of ip_string text_eq format_uint
written-IsHost = (
  record { ip = here; read = refl; text = refl; size = here-IsIp },
  (
    record { ip = there; read = refl; text = refl; size = there-IsIp },
    (record { ip = here; read = refl; text = refl; size = here-IsIp }, tt),
  ),
)
