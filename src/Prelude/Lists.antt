-- ===== src/Prelude/Lists.antt =====
-- Lists over the native numbers, and the predicates on lists that the components share.
use Prim.Native.Nat.{ℕ, suc, ◌+◌}
use mathlib.Core.Path.{◌≡◌, refl, ap}
use mathlib.Core.Logic.{◌⊎◌, inl, inr}
use mathlib.Core.Bool.{Bool, true, false, false≢true}
use mathlib.Core.List.{List, [], ◌∷◌, ◌++◌}
use native.Mathlib.Omega.{arith}
use shawk.Prelude.Tests.{if◌then◌else◌, Bool-cases}

module _ {ℓ} {A : Type ℓ} where
  abbrev pub length : List A → ℕ
  length [] = 0
  length (x ∷ xs) = suc (length xs)

  pub length-append : (xs ys : List A) → length (xs ++ ys) ≡ length xs + length ys
  length-append [] ys = omega arith
  length-append (x ∷ xs) ys = omega (arith, length-append xs ys)

  pub append-nil : (xs : List A) → xs ++ [] ≡ xs
  append-nil [] = refl
  append-nil (x ∷ xs) = ap (λ ys. x ∷ ys) (append-nil xs)

  pub append_assoc : (xs ys zs : List A) → (xs ++ ys) ++ zs ≡ xs ++ (ys ++ zs)
  append_assoc [] ys zs = refl
  append_assoc (x ∷ xs) ys zs = ap (λ all. x ∷ all) (append_assoc xs ys zs)

  -- The entries that pass a Boolean test, in their order.
  unfoldable pub keep : (A → Bool) → List A → List A
  keep p [] = []
  keep p (x ∷ xs) = let rest = keep p xs in if p x then x ∷ rest else rest

  -- How many entries pass a Boolean test.
  unfoldable pub count : (A → Bool) → List A → ℕ
  count p [] = 0
  count p (x ∷ xs) = let rest = count p xs in if p x then suc rest else rest

  pub count-append : (p : A → Bool) (xs ys : List A) → count p (xs ++ ys) ≡ count p xs + count p ys
  unfolding count
  count-append p [] ys = omega arith
  count-append p (x ∷ xs) ys = ground (arith, count-append p xs ys)

  unfoldable pub any : (A → Bool) → List A → Bool
  any p [] = false
  any p (x ∷ xs) = if p x then true else any p xs

module _ {ℓ} {A : Type ℓ} where
  pub any-append_left : (p : A → Bool) (xs ys : List A) → any p xs ≡ true → any p (xs ++ ys) ≡ true
  unfolding any
  any-append_left p [] ys h = ground arith
  any-append_left p (x ∷ xs) ys h = ground (arith, any-append_left p xs ys)

  pub any-append_last :
      (p : A → Bool) (xs : List A) (y : A) → p y ≡ true → any p (xs ++ y ∷ []) ≡ true
  unfolding any
  any-append_last p [] y h = ground arith
  any-append_last p (x ∷ xs) y h = ground (arith, any-append_last p xs y)

-- A predicate of every entry.
abbrev pub All {ℓ κ} : {A : Type ℓ} → (A → Type κ) → List A → Type κ
All P [] = Unit
All P (x ∷ xs) = P x × All P xs

-- Where an entry stands in a list.
abbrev pub Among : {A : Type 0} → A → List A → Type 0
Among a [] = ⊥
Among a (x ∷ xs) = (a ≡ x) ⊎ Among a xs

module _ {A : Type 0} where
  -- What makes a test on a list pass.
  pub any-witness :
      (p : A → Bool) (xs : List A) → any p xs ≡ true → (x : A) × Among x xs × (p x ≡ true)
  unfolding any
  any-witness p [] h = absurd (false≢true h)
  any-witness p (x ∷ xs) h = elim (Bool-cases (p x)) [
    | inl here ↦ (x, inl refl, here)
    | inr other ↦ let (y, m, e) = any-witness p xs (ground arith) in (y, inr m, e)
  ]

  pub any_of_Among :
      (p : A → Bool) (xs : List A) (x : A) → Among x xs → p x ≡ true → any p xs ≡ true
  unfolding any
  any_of_Among p [] x m h = elim m [ ]
  any_of_Among p (y ∷ ys) x (inl e) h = ground arith
  any_of_Among p (y ∷ ys) x (inr m) h = ground (arith, any_of_Among p ys x m h)

  pub any_mono :
      (p q : A → Bool) (xs : List A)
      → ((x : A) → p x ≡ true → q x ≡ true)
      → any p xs ≡ true
      → any q xs ≡ true
  any_mono p q xs f h = let (x, m, e) = any-witness p xs h in any_of_Among q xs x m (f x e)
