-- ===== src/Db/Consistent/Numbers.antt =====
-- The numbers that a `bigserial` column gives to the rows of a table.
use shawk.Prelude.{
  ◌+◌, ◌≤◌, ◌<◌, ◌≡◌, ◌∷◌, ◌++◌, ◌==◌, count, count-append, any, All, ℕ, refl, sym, ap, false, List,
  [], map, arith, nat_eq, text_equality,
}
use mathlib.Core.Path.{subst}
use shawk.Probe.Keys.{All-map, All-append}

-- No number stands twice, and none is above the last value of the sequence.
abbrev IsFrom : ℕ → List ℕ → Type 0
IsFrom last ns = All (λ n. n ≤ last) ns × ((n : ℕ) → count (λ m. m == n) ns ≤ 1)

count-above :
    (last n : ℕ) (ns : List ℕ) → All (λ m. m ≤ last) ns → last < n → count (λ m. m == n) ns ≡ 0
unfolding count
count-above last n [] h lt = refl
count-above last n (m ∷ ns) h lt = ground (arith, count-above last n ns h.1 lt, h.0)

IsFrom-le : (last later : ℕ) (ns : List ℕ) → last ≤ later → IsFrom last ns → IsFrom later ns
IsFrom-le last later ns le h =
    (All-map (λ n. n ≤ last) (λ n. n ≤ later) ns (λ n below. omega (arith, below, le)) h.0, h.1)

IsFrom-next : (last : ℕ) (ns : List ℕ) → IsFrom last ns → IsFrom (last + 1) (ns ++ (last + 1) ∷ [])
unfolding count
IsFrom-next last ns h = (
  All-append (λ n. n ≤ last + 1) ns ((last + 1) ∷ [])
      (IsFrom-le last (last + 1) ns (omega arith) h).0 (omega arith, tt),
  λ n.
      ground
        (arith, h.1 n, count-append (λ m. m == n) ns ((last + 1) ∷ []), count-above last n ns h.0),
)

module _ {A : Type 0} (id : A → ℕ) where
  -- No two rows have one number, and none has one above the last value of the sequence.
  abbrev pub IsNumbered : ℕ → List A → Type 0
  IsNumbered last xs = IsFrom last (map id xs)

  pub IsNumbered-le :
      (last later : ℕ) (xs : List A) → last ≤ later → IsNumbered last xs → IsNumbered later xs
  IsNumbered-le last later xs = IsFrom-le last later (map id xs)

  -- Rows that keep their numbers.
  pub IsNumbered-same :
      (last : ℕ) (xs ys : List A) → map id ys ≡ map id xs → IsNumbered last xs → IsNumbered last ys
  IsNumbered-same last xs ys e = subst (IsFrom last) (sym e)

  map-last : (xs : List A) (x : A) → map id (xs ++ x ∷ []) ≡ map id xs ++ id x ∷ []
  map-last [] x = refl
  map-last (y ∷ xs) x = ap (λ ns. id y ∷ ns) (map-last xs x)

  -- A new row takes the next value.
  pub IsNumbered-added :
      (last : ℕ) (xs : List A) (x : A)
      → id x ≡ last + 1
      → IsNumbered last xs
      → IsNumbered (last + 1) (xs ++ x ∷ [])
  IsNumbered-added last xs x next h = rw (map-last xs x, next) (IsFrom-next last (map id xs) h)

  next_is_free :
      (last : ℕ) (xs : List A)
      → All (λ n. n ≤ last) (map id xs)
      → any (λ x. id x == last + 1) xs ≡ false
  unfolding any
  next_is_free last [] h = refl
  next_is_free last (x ∷ xs) h = ground (arith, h.0, next_is_free last xs h.1)

  -- The next value is free.
  pub IsNumbered-free :
      (last : ℕ) (xs : List A) → IsNumbered last xs → any (λ x. id x == last + 1) xs ≡ false
  IsNumbered-free last xs h = next_is_free last xs h.0
