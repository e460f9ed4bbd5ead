-- ===== src/Prelude/Map.antt =====
-- Go's maps as association lists: `lookup` is an index expression with its second result, and
-- `insert` is an assignment. Nothing here depends on an order of the entries.
use mathlib.Core.Path.{◌≡◌, refl}
use mathlib.Core.Option.{Option, none, some}
use mathlib.Core.List.{List, [], ◌∷◌}
use native.Mathlib.Omega.{arith}
use shawk.Prelude.Tests.{if◌then◌else◌}
use shawk.Prelude.Eq.{Eq, ◌==◌}

module _ {ℓ} {K V : Type ℓ} ⦃e : Eq K⦄ where
  unfoldable pub lookup : K → List (K × V) → Option V
  lookup key [] = none
  lookup key ((other, value) ∷ rest) = if other == key then some value else lookup key rest

  unfoldable pub insert : K → V → List (K × V) → List (K × V)
  insert key value [] = (key, value) ∷ []
  insert key value ((other, old) ∷ rest) =
      if other == key then (key, value) ∷ rest else (other, old) ∷ insert key value rest

  pub lookup-insert :
      (key at : K) (value : V) (m : List (K × V))
      → lookup at (insert key value m) ≡ (if key == at then some value else lookup at m)
  unfolding lookup insert
  lookup-insert key at value [] = refl
  lookup-insert key at value ((other, old) ∷ rest) = ground (
    arith,
    e.beq_iff other at,
    e.beq_iff other key,
    e.beq_iff key at,
    lookup-insert key at value rest,
  )

  -- `m[k]` where the values are pointers: a missing key gives the nil pointer.
  unfoldable pub index : K → List (K × Option V) → Option V
  index k [] = none
  index k ((j, v) ∷ m) = if j == k then v else index k m

  -- No key stands twice.
  abbrev pub IsMap : List (K × V) → Type ℓ
  IsMap [] = Unit
  IsMap ((k, v) ∷ m) = (lookup k m ≡ none) × IsMap m

  pub insert-IsMap : (k : K) (v : V) (m : List (K × V)) → IsMap m → IsMap (insert k v m)
  unfolding insert lookup
  insert-IsMap k v [] h = (refl, tt)
  insert-IsMap k v ((j, w) ∷ m) h =
      ground (arith, e.beq_iff j k, e.beq_iff k j, lookup-insert k j v m, insert-IsMap k v m)
