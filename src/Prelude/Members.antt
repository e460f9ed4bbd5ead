-- ===== src/Prelude/Members.antt =====
-- Members of filtered, mapped and concatenated lists.
use mathlib.Core.Path.{◌≡◌, refl, sym, subst}
use mathlib.Core.Logic.{◌⊎◌, inl, inr}
use mathlib.Core.Bool.{Bool, true}
use mathlib.Core.List.{List, [], ◌∷◌, ◌++◌, map}
use shawk.Prelude.Tests.{Bool-cases}
use shawk.Prelude.Lists.{keep, All, Among}

module _ {A : Type 0} where
  pub Among-keep :
      (q : A → Bool) (xs : List A) (x : A) → Among x (keep q xs) → Among x xs × (q x ≡ true)
  unfolding keep
  Among-keep q [] x m = elim m [ ]
  Among-keep q (y ∷ ys) x m = elim (Bool-cases (q y)) [
    | inl kept ↦ elim (rw kept at m) [
      | inl here ↦ (inl here, rw here kept)
      | inr later ↦ let (n, e) = Among-keep q ys x later in (inr n, e)
    ]
    | inr dropped ↦ let (n, e) = Among-keep q ys x (rw dropped at m) in (inr n, e)
  ]

  pub keep-Among :
      (q : A → Bool) (xs : List A) (x : A) → Among x xs → q x ≡ true → Among x (keep q xs)
  unfolding keep
  keep-Among q [] x m e = elim m [ ]
  keep-Among q (y ∷ ys) x (inl here) e = rw (rw here at e) (inl here)
  keep-Among q (y ∷ ys) x (inr later) e = elim (Bool-cases (q y)) [
    | inl kept ↦ rw kept (inr (keep-Among q ys x later e))
    | inr dropped ↦ rw dropped (keep-Among q ys x later e)
  ]

  pub Among-append : (xs ys : List A) (x : A) → Among x (xs ++ ys) → Among x xs ⊎ Among x ys
  Among-append [] ys x m = inr m
  Among-append (z ∷ xs) ys x (inl here) = inl (inl here)
  Among-append (z ∷ xs) ys x (inr later) = elim (Among-append xs ys x later) [
    | inl left ↦ inl (inr left)
    | inr right ↦ inr right
  ]

  pub Among-left : (xs ys : List A) (x : A) → Among x xs → Among x (xs ++ ys)
  Among-left [] ys x m = elim m [ ]
  Among-left (z ∷ xs) ys x (inl here) = inl here
  Among-left (z ∷ xs) ys x (inr later) = inr (Among-left xs ys x later)

  pub Among-right : (xs ys : List A) (x : A) → Among x ys → Among x (xs ++ ys)
  Among-right [] ys x m = m
  Among-right (z ∷ xs) ys x m = inr (Among-right xs ys x m)

  -- What holds of every entry holds of one.
  pub All-at : (P : A → Type 0) (xs : List A) (x : A) → Among x xs → All P xs → P x
  All-at P [] x m h = elim m [ ]
  All-at P (y ∷ ys) x (inl e) h = subst P (sym e) h.0
  All-at P (y ∷ ys) x (inr m) h = All-at P ys x m h.1

  pub All-of_Among : (P : A → Type 0) (xs : List A) → ((x : A) → Among x xs → P x) → All P xs
  All-of_Among P [] h = tt
  All-of_Among P (y ∷ ys) h = (h y (inl refl), All-of_Among P ys λ x m. h x (inr m))

module _ {A B : Type 0} where
  pub Among-map :
      (f : A → B) (xs : List A) (y : B) → Among y (map f xs) → (x : A) × Among x xs × (y ≡ f x)
  Among-map f [] y m = elim m [ ]
  Among-map f (x ∷ xs) y (inl e) = (x, inl refl, e)
  Among-map f (x ∷ xs) y (inr m) = let (z, n, e) = Among-map f xs y m in (z, inr n, e)

  pub map-Among : (f : A → B) (xs : List A) (x : A) → Among x xs → Among (f x) (map f xs)
  map-Among f [] x m = elim m [ ]
  map-Among f (z ∷ xs) x (inl e) = rw e (inl refl)
  map-Among f (z ∷ xs) x (inr m) = inr (map-Among f xs x m)

  -- The results of a function on every entry, one after another.
  unfoldable pub flat_map : (A → List B) → List A → List B
  flat_map f [] = []
  flat_map f (x ∷ xs) = f x ++ flat_map f xs

module _ {A B : Type 0} where
  pub Among-flat_map :
      (f : A → List B) (xs : List A) (y : B)
      → Among y (flat_map f xs)
      → (x : A) × Among x xs × Among y (f x)
  unfolding flat_map
  Among-flat_map f [] y m = elim m [ ]
  Among-flat_map f (x ∷ xs) y m = elim (Among-append (f x) (flat_map f xs) y m) [
    | inl here ↦ (x, inl refl, here)
    | inr later ↦ let (z, n, e) = Among-flat_map f xs y later in (z, inr n, e)
  ]

  pub flat_map-Among :
      (f : A → List B) (xs : List A) (x : A) (y : B)
      → Among x xs
      → Among y (f x)
      → Among y (flat_map f xs)
  unfolding flat_map
  flat_map-Among f [] x y m n = elim m [ ]
  flat_map-Among f (z ∷ xs) x y (inl e) n =
      Among-left (f z) (flat_map f xs) y (subst (λ w. Among y (f w)) e n)
  flat_map-Among f (z ∷ xs) x y (inr m) n =
      Among-right (f z) (flat_map f xs) y (flat_map-Among f xs x y m n)
