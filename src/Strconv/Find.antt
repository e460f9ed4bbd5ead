-- ===== src/Strconv/Find.antt =====
-- `strings.Index`, `strings.TrimSuffix` and `strings.TrimRight`.
use shawk.Prelude.{
  ◌+◌, ◌-◌, ◌&&◌, ◌∷◌, ◌==◌, if◌then◌else◌, ltb, Text, ℕ, zero, suc, Bool, true, false, Option,
  none, some, [], nat_eq, text_equality,
}

unfoldable pub has_prefix : Text → Text → Bool
has_prefix s [] = true
has_prefix [] (d ∷ p) = false
has_prefix (c ∷ s) (d ∷ p) = c == d && has_prefix s p

shift : Option ℕ → Option ℕ
shift none = none
shift (some i) = some (suc i)

-- `strings.Index(s, p)`; `none` stands for -1.
unfoldable pub index_of : Text → Text → Option ℕ
unfolding has_prefix shift
index_of [] p = if has_prefix [] p then some 0 else none
index_of (c ∷ s) p =
    let rest = shift (index_of s p) in if has_prefix (c ∷ s) p then some 0 else rest

-- An `int`: `pos n` is n, and `negsuc n` is -(n + 1).
pub data ℤ : Type 0 where
  pos negsuc : ℕ → ℤ

infixl 6 ◌+ℤ◌
unfoldable pub ◌+ℤ◌ : ℤ → ℤ → ℤ
pos m +ℤ pos n = pos (m + n)
pos m +ℤ negsuc n = if ltb n m then pos (m - (n + 1)) else negsuc (n - m)
negsuc m +ℤ pos n = if ltb m n then pos (n - (m + 1)) else negsuc (m - n)
negsuc m +ℤ negsuc n = negsuc (m + n + 1)

abbrev pub is_minus_one : ℤ → Bool
is_minus_one (negsuc zero) = true
is_minus_one (negsuc (suc n)) = false
is_minus_one (pos n) = false

-- `strings.Index(s, p)`
unfoldable pub index : Text → Text → ℤ
unfolding index_of
index s p = elim (index_of s p) [ none ↦ negsuc 0 | some n ↦ pos n ]

-- `strings.TrimRight(s, cutset)` with the one character `d` for its cutset.
unfoldable pub trim_right : ℕ → Text → Text
trim_right d [] = []
trim_right d (c ∷ s) = elim (trim_right d s) [
  | [] ↦ if c == d then [] else c ∷ []
  | x ∷ t ↦ c ∷ x ∷ t
]

-- `strings.TrimSuffix(s, suffix)` with the one character `d` for its suffix.
unfoldable pub trim_suffix : ℕ → Text → Text
trim_suffix d [] = []
trim_suffix d (c ∷ []) = if c == d then [] else c ∷ []
trim_suffix d (c ∷ x ∷ s) = c ∷ trim_suffix d (x ∷ s)
