-- ===== src/Prelude/Eq.antt =====
-- Equality tests as an interface; Go's strings are sequences of bytes.
use Prim.Native.Nat.{ℕ}
use Prim.Native.Char.{code}
use Prim.Native.String.{String}
use mathlib.Core.Path.{◌≡◌, refl}
use mathlib.Core.Logic.{◌↔◌}
use mathlib.Core.Bool.{Bool, true, false, ◌&&◌}
use mathlib.Core.List.{List, [], ◌∷◌}
use native.Mathlib.Omega.{arith}
use shawk.Prelude.Tests.{◌==◌ as nat_beq, ==_iff as nat_beq_iff}

pub record Eq {ℓ} (A : Type ℓ) : Type ℓ where
  pub beq : A → A → Bool
  pub beq_iff : (x y : A) → (beq x y ≡ true) ↔ (x ≡ y)

-- A Go string.
abbrev pub Text : Type 0
Text = List ℕ

-- The bytes of an ASCII literal.
abbrev pub codes : String → Text
codes String.[] = []
codes (String.◌∷◌ c s) = code c ∷ codes s

infix 50 ◌==◌
-- Go's `==`, at every type with an instance.
abbrev pub ◌==◌ {κ} : {B : Type κ} ⦃test : Eq B⦄ → B → B → Bool
◌==◌ ⦃test⦄ = test.beq

unfoldable pub text_eq : Text → Text → Bool
text_eq [] [] = true
text_eq [] (d ∷ t) = false
text_eq (c ∷ s) [] = false
text_eq (c ∷ s) (d ∷ t) = nat_beq c d && text_eq s t

sound : (s t : Text) → text_eq s t ≡ true → s ≡ t
unfolding text_eq
sound [] [] h = refl
sound [] (d ∷ t) h = cc
sound (c ∷ s) [] h = cc
sound (c ∷ s) (d ∷ t) h = ground (arith, sound s t)

complete : (s : Text) → text_eq s s ≡ true
unfolding text_eq
complete [] = refl
complete (c ∷ s) = ground (arith, complete s)

pub text_eq_iff : (s t : Text) → (text_eq s t ≡ true) ↔ (s ≡ t)
text_eq_iff s t = (sound s t, λ p. rw p (complete t))

instance abbrev pub nat_eq : Eq ℕ
nat_eq = record { beq = nat_beq; beq_iff = nat_beq_iff }

instance abbrev pub text_equality : Eq Text
text_equality = record { beq = text_eq; beq_iff = text_eq_iff }
