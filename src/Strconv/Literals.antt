-- ===== src/Strconv/Literals.antt =====
-- `strconv.ParseBool`, and `strconv.ParseInt` with base 0, which reads the number literals of Go.
-- These are the language's own library, written out by its documentation.
use shawk.Prelude.{
  ◌+◌, ◌-◌, ◌^◌, ◌&&◌, ◌||◌, ◌∷◌, ◌==◌, if◌then◌else◌, leb, keep, any, Text, codes, text_eq, ℕ,
  Bool, true, false, not, Option, none, some, [], map, nat_eq, text_equality,
}
use shawk.Strconv.{is_digit, parse_digits, signed, Parsed, syntax_error}

unfoldable pub parse_bool : Text → Option Bool
parse_bool s =
    if any (text_eq s) (map codes ("1" ∷ "t" ∷ "T" ∷ "TRUE" ∷ "true" ∷ "True" ∷ []))
    then some true
    else if any (text_eq s) (map codes ("0" ∷ "f" ∷ "F" ∷ "FALSE" ∷ "false" ∷ "False" ∷ []))
    then some false
    else none

lower : ℕ → ℕ
lower c = if leb b'A' c && leb c b'Z' then c + 32 else c

is_hex : ℕ → Bool
unfolding is_digit lower
is_hex c = is_digit c || leb b'a' (lower c) && leb (lower c) b'f'

-- Underscores stand after a digit or the prefix, and before a digit; `saw` is the last character:
-- `0` for a digit, `^` for the start, `!` for any other.
well_spaced : Bool → ℕ → Text → Bool
unfolding is_digit is_hex
well_spaced hex saw [] = not (saw == b'_')
well_spaced hex saw (c ∷ s) =
    let digit = well_spaced hex b'0' s in
    let underscore = well_spaced hex b'_' s in
    let other = well_spaced hex b'!' s in
    if (if hex then is_hex c else is_digit c)
    then digit
    else if c == b'_'
    then saw == b'0' && underscore
    else not (saw == b'_') && other

-- The base that a prefix `0b`, `0o` or `0x` stands for, and what follows it.
prefixed : Text → Option (ℕ × Text)
unfolding lower
prefixed (z ∷ c ∷ s) =
    if not (z == b'0')
    then none
    else if lower c == b'b'
    then some (2, s)
    else if lower c == b'o'
    then some (8, s)
    else if lower c == b'x'
    then some (16, s)
    else none
prefixed s = none

underscore_ok : Text → Bool
unfolding well_spaced prefixed
underscore_ok s = elim (prefixed s) [
  | none ↦ well_spaced false b'^' s
  | some (base, t) ↦ well_spaced (base == 16) b'0' t
]

-- Without one of these prefixes, or with nothing behind it, a zero in front means base 8.
parse_plain : Text → Parsed
unfolding parse_digits
parse_plain [] = syntax_error
parse_plain (c ∷ s) =
    if c == b'0' then parse_digits 8 (2 ^ 64 - 1) 0 s else parse_digits 10 (2 ^ 64 - 1) 0 (c ∷ s)

parse_prefixed : Text → Parsed
unfolding parse_digits prefixed parse_plain
parse_prefixed s = elim (prefixed s) [
  | none ↦ parse_plain s
  | some (base, []) ↦ parse_plain s
  | some (base, c ∷ t) ↦ parse_digits base (2 ^ 64 - 1) 0 (c ∷ t)
]

unsigned : Text → Parsed
unfolding parse_prefixed underscore_ok
unsigned s =
    if underscore_ok s then parse_prefixed (keep (λ c. not (c == b'_')) s) else syntax_error

accepted : ℕ × Bool → Option ℕ
accepted (n, fine) = if fine then some n else none

-- `strconv.ParseInt(s, 0, 64)`: the 64-bit pattern of the number, or nothing for an error.
unfoldable pub parse_int : Text → Option ℕ
unfolding unsigned accepted signed
parse_int [] = none
parse_int (c ∷ s) =
    if c == b'-'
    then accepted (signed true (unsigned s))
    else if c == b'+'
    then accepted (signed false (unsigned s))
    else accepted (signed false (unsigned (c ∷ s)))
