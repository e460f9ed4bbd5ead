-- ===== src/Strconv.antt =====
-- What the code uses of Go's `strconv`, `fmt` and `net` on texts: numbers and host:port pairs.
-- These are the language's own library, written out by its documentation.
pub mod Decimal
pub mod Find
pub mod Literals
use shawk.Prelude.{
  ◌+◌, ◌-◌, ◌*◌, ◌/◌, ◌%◌, ◌^◌, ◌&&◌, ◌||◌, ◌∷◌, ◌++◌, ◌==◌, if◌then◌else◌, ltb, leb, any, Text, ℕ,
  zero, suc, Bool, true, false, Option, none, some, [], nat_eq, text_equality,
}

-- `fmt.Sprintf("%d", n)` of an unsigned number, on fuel.
format_digits : ℕ → ℕ → Text
format_digits zero n = []
format_digits (suc fuel) n =
    let rest = format_digits fuel (n / 10) ++ (48 + n % 10) ∷ [] in
    if ltb n 10 then (48 + n) ∷ [] else rest

-- `n` has at most `n + 1` digits.
unfoldable pub format_uint : ℕ → Text
unfolding format_digits
format_uint n = format_digits (n + 1) n

-- `fmt.Sprintf("%d", n)` of an `int` or `int64`, given as its 64-bit pattern.
unfoldable pub format_int : ℕ → Text
unfolding format_uint
format_int n = if ltb n (2 ^ 63) then format_uint n else b'-' ∷ format_uint (2 ^ 64 - n)

unfoldable pub is_digit : ℕ → Bool
is_digit c = leb 48 c && leb c 57

-- The value of a digit in a base up to 36.
digit_value : ℕ → ℕ → Option ℕ
unfolding is_digit
digit_value base c =
    let d =
      if is_digit c
      then c - 48
      else if leb b'a' c && leb c b'z'
      then c - b'a' + 10
      else if leb b'A' c && leb c b'Z'
      then c - b'A' + 10
      else 36 in
    if ltb d base then some d else none

-- A result of `strconv`: a number, `ErrSyntax`, or `ErrRange`.
pub data Parsed : Type 0 where
  number : ℕ → Parsed
  syntax_error range_error : Parsed

-- The loop of `strconv.ParseUint`: it stops at the first character that is no digit, or that takes
-- the number past `max`.
unfoldable pub parse_digits : ℕ → ℕ → ℕ → Text → Parsed
unfolding digit_value
parse_digits base max acc [] = number acc
parse_digits base max acc (c ∷ s) = elim (digit_value base c) [
  | none ↦ syntax_error
  | some d ↦
      let rest = parse_digits base max (acc * base + d) s in
      if ltb max (acc * base + d) then range_error else rest
]

-- `strconv.ParseUint(s, base, bits)`.
unfoldable pub parse_uint : ℕ → ℕ → Text → Parsed
unfolding parse_digits
parse_uint base bits [] = syntax_error
parse_uint base bits (c ∷ s) = parse_digits base (2 ^ bits - 1) 0 (c ∷ s)

-- The number that `ParseUint` returns beside its error.
unfoldable pub parsed_value : ℕ → Parsed → ℕ
parsed_value bits (number n) = n
parsed_value bits syntax_error = 0
parsed_value bits range_error = 2 ^ bits - 1

-- The end of `strconv.ParseInt` at 64 bits: the 64-bit pattern of the number, and whether the
-- error is nil. A number out of range is clamped.
unfoldable pub signed : Bool → Parsed → ℕ × Bool
signed neg syntax_error = (0, false)
signed false range_error = (2 ^ 63 - 1, false)
signed true range_error = (2 ^ 63, false)
signed false (number n) = if ltb n (2 ^ 63) then (n, true) else (2 ^ 63 - 1, false)
signed true (number n) = if leb n (2 ^ 63) then ((2 ^ 64 - n) % 2 ^ 64, true) else (2 ^ 63, false)

-- `strconv.Atoi`.
unfoldable pub atoi : Text → ℕ × Bool
unfolding signed parse_uint
atoi [] = (0, false)
atoi (c ∷ s) =
    if c == b'-'
    then signed true (parse_uint 10 64 s)
    else if c == b'+'
    then signed false (parse_uint 10 64 s)
    else signed false (parse_uint 10 64 (c ∷ s))

-- `net.JoinHostPort(host, port)`: a host with a colon or a percent sign is put in brackets.
unfoldable pub join_host_port : Text → Text → Text
join_host_port host port =
    if any (λ c. c == b':' || c == b'%') host
    then b'[' ∷ (host ++ (b']' ∷ b':' ∷ port))
    else host ++ (b':' ∷ port)
