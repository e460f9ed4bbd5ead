-- ===== src/Strconv/Decimal.antt =====
-- Decimal numbers are read back as they were printed, so different numbers print differently.
use native.Mathlib.Numerals.{add-one}
use shawk.Prelude.{
  ◌+◌, ◌-◌, ◌*◌, ◌/◌, ◌%◌, ◌^◌, ◌≤◌, ◌<◌, ◌≡◌, ◌∙◌, ◌∷◌, ◌++◌, ltb, Bool-cases, length,
  length-append, All, Text, ℕ, zero, suc, refl, sym, ap, inl, inr, true, some, [], arith,
}
use shawk.Strconv.{
  format_digits, format_uint, parse_digits, parse_uint, number, digit_value, is_digit,
}

-- What the digits of `s` make of an accumulated number.
value : ℕ → Text → ℕ
value acc [] = acc
value acc (c ∷ s) = value (acc * 10 + (c - 48)) s

value-append : (s : Text) (acc c : ℕ) → value acc (s ++ c ∷ []) ≡ value acc s * 10 + (c - 48)
unfolding value
value-append [] acc c = refl
value-append (d ∷ s) acc c = value-append s (acc * 10 + (d - 48)) c

value-format_digits : (fuel n : ℕ) → n < fuel → value 0 (format_digits fuel n) ≡ n
unfolding format_digits value
value-format_digits zero n h = elim h [ ]
value-format_digits (suc fuel) n h = elim (Bool-cases (ltb n 10)) [
  | inl small ↦ rw small (omega arith)
  | inr big ↦
      rw (big, value-append) (omega (arith, value-format_digits fuel (n / 10) (ground arith)))
]

-- All digits.
abbrev pub IsDecimal : Text → Type 0
IsDecimal = All (λ c. is_digit c ≡ true)

IsDecimal-append : (s : Text) (c : ℕ) → IsDecimal s → is_digit c ≡ true → IsDecimal (s ++ c ∷ [])
IsDecimal-append [] c h d = (d, tt)
IsDecimal-append (x ∷ s) c h d = (h.0, IsDecimal-append s c h.1 d)

digit_of : (n : ℕ) → n < 10 → is_digit (48 + n) ≡ true
unfolding is_digit
digit_of n h = ground arith

format_digits-IsDecimal : (fuel n : ℕ) → IsDecimal (format_digits fuel n)
unfolding format_digits
format_digits-IsDecimal zero n = tt
format_digits-IsDecimal (suc fuel) n = elim (Bool-cases (ltb n 10)) [
  | inl small ↦ rw small (digit_of n (ground arith), tt)
  | inr big ↦ rw big (
      IsDecimal-append (format_digits fuel (n / 10)) (48 + n % 10)
        (format_digits-IsDecimal fuel (n / 10)) (digit_of (n % 10) (omega arith)))
]

pub format_uint-IsDecimal : (n : ℕ) → IsDecimal (format_uint n)
unfolding format_uint
format_uint-IsDecimal n = format_digits-IsDecimal (n + 1) n

value-format_uint : (n : ℕ) → value 0 (format_uint n) ≡ n
unfolding format_uint
value-format_uint n = value-format_digits (n + 1) n (omega arith)

-- Two numbers with the same decimal digits are equal.
pub format_uint-injective : (m n : ℕ) → format_uint m ≡ format_uint n → m ≡ n
format_uint-injective m n p = sym (value-format_uint m) ∙ ap (value 0) p ∙ value-format_uint n

acc-le-value : (acc : ℕ) (s : Text) → acc ≤ value acc s
unfolding value
acc-le-value acc [] = omega arith
acc-le-value acc (c ∷ s) = omega (arith, acc-le-value (acc * 10 + (c - 48)) s)

digit_value_of_digit : (c : ℕ) → is_digit c ≡ true → digit_value 10 c ≡ some (c - 48)
unfolding digit_value
digit_value_of_digit c h = ground arith

parse_digits-value :
    (max acc : ℕ) (s : Text)
    → IsDecimal s
    → value acc s ≤ max
    → parse_digits 10 max acc s ≡ number (value acc s)
unfolding parse_digits value
parse_digits-value max acc [] h b = refl
parse_digits-value max acc (c ∷ s) h b =
    let fits = acc-le-value (acc * 10 + (c - 48)) s in
    let ih = parse_digits-value max (acc * 10 + (c - 48)) s h.1 b in
    rw (digit_value_of_digit c h.0, parse_digits) (ground (arith, fits, ih))

parse_uint-value :
    (bits : ℕ) (s : Text)
    → IsDecimal s
    → 0 < length s
    → value 0 s ≤ 2 ^ bits - 1
    → parse_uint 10 bits s ≡ number (value 0 s)
unfolding parse_uint
parse_uint-value bits [] h l b = absurd (omega arith)
parse_uint-value bits (c ∷ s) h l b = parse_digits-value (2 ^ bits - 1) 0 (c ∷ s) h b

length-format_digits : (fuel n : ℕ) → 0 < length (format_digits (suc fuel) n)
unfolding format_digits
length-format_digits fuel n = elim (Bool-cases (ltb n 10)) [
  | inl small ↦ rw small (omega arith)
  | inr big ↦ rw big (rw length-append (omega arith))
]

pub length-format_uint : (n : ℕ) → 0 < length (format_uint n)
unfolding format_uint
length-format_uint n = rw add-one (length-format_digits n n)

-- What `%d` printed is read back, if it fits.
pub parse_uint-format_uint :
    (bits n : ℕ) → n < 2 ^ bits → parse_uint 10 bits (format_uint n) ≡ number n
parse_uint-format_uint bits n h =
    parse_uint-value bits (format_uint n) (format_uint-IsDecimal n) (length-format_uint n)
      (rw value-format_uint (omega arith))
    ∙ ap number (value-format_uint n)
