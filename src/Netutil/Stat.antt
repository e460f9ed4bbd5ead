-- ===== src/Netutil/Stat.antt =====
-- `parseProcStat` of netutil_linux.go, with what it uses of `fmt.Fscan` and `fmt.Sscanf`.
use shawk.Prelude.{
  ◌&&◌, ◌||◌, ◌∷◌, ◌==◌, if◌then◌else◌, leb, system_error, format_error, Outcome, ok, err, Text, ℕ,
  Bool, true, false, not, Option, none, some, [], nat_eq, text_equality,
}
use shawk.Strconv.{atoi, is_digit}
use shawk.Strconv.Find.{trim_right}

pub record ProcStat : Type 0 where
  pub pname : Text
  pub ppid : ℕ
  pub pgrp : ℕ

-- ASCII white space; a line break counts as space for `Fscan`.
unfoldable pub is_space : ℕ → Bool
is_space c = c == b' ' || (leb 9 c && leb c 13)

-- A scanner reads from the front of a text, and fails or gives a value and the rest.
abbrev Scan : Type 0 → Type 0
Scan A = Text → Option (A × Text)

infixl 5 ◌>>=◌
abbrev ◌>>=◌ : {A B : Type 0} → Scan A → (A → Scan B) → Scan B
◌>>=◌ m f s = elim (m s) [ none ↦ none | some (a, rest) ↦ f a rest ]

unfoldable pub skip_space : Text → Text
unfolding is_space
skip_space [] = []
skip_space (c ∷ s) = if is_space c then skip_space s else c ∷ s

-- The longest front of characters that pass a test, and the rest.
unfoldable pub span : (ℕ → Bool) → Text → Text × Text
span p [] = ([], [])
span p (c ∷ s) = let (front, rest) = span p s in if p c then (c ∷ front, rest) else ([], c ∷ s)

nonempty : Text × Text → Option (Text × Text)
nonempty ([], rest) = none
nonempty (c ∷ front, rest) = some (c ∷ front, rest)

-- A string operand: the characters up to the next space.
scan_word : Scan Text
unfolding skip_space span nonempty
scan_word s = nonempty (span (λ c. not (is_space c)) (skip_space s))

sign_and_digits : Text → Text × Text
unfolding span is_digit
sign_and_digits [] = ([], [])
sign_and_digits (c ∷ s) =
    let (front, rest) = span (λ d. is_digit d || d == b'_') s in
    if c == b'-' || c == b'+' || is_digit c || c == b'_' then (c ∷ front, rest) else ([], c ∷ s)

accepted : (ℕ × Bool) × Text → Option (ℕ × Text)
accepted ((n, true), rest) = some (n, rest)
accepted ((n, false), rest) = none

-- An `int` operand in decimal, as a 64-bit pattern. Go reads a number with a leading 0 in another
-- base; the kernel prints none.
scan_int : Scan ℕ
unfolding skip_space sign_and_digits atoi accepted
scan_int s = let (front, rest) = sign_and_digits (skip_space s) in accepted (atoi front, rest)

-- `fmt.Sscanf(comm, "(%s)", &pname)`, where the `%s` takes the closing parenthesis too and the
-- error `ErrUnexpectedEOF` that follows is ignored: `none` is any other error.
scan_comm : Text → Option Text
unfolding skip_space span
scan_comm [] = none
scan_comm (c ∷ s) =
    if c == b'('
    then elim (nonempty (span (λ d. not (is_space d)) (skip_space s))) [
      | none ↦ none
      | some (pname, rest) ↦ some pname
    ]
    else none

scan_fields : Scan (Text × ℕ × ℕ)
unfolding scan_int scan_word
scan_fields = do
  pid2 ← scan_int
  comm ← scan_word
  state ← scan_word
  ppid ← scan_int
  pgrp ← scan_int
  λ rest. some ((comm, ppid, pgrp), rest)

stat_of : Option ((Text × ℕ × ℕ) × Text) → Outcome ProcStat
unfolding scan_comm trim_right
stat_of none = err format_error
stat_of (some ((comm, ppid, pgrp), rest)) = elim (scan_comm comm) [
  | none ↦ err format_error
  | some pname ↦ ok (record { pname = trim_right b')' pname; ppid = ppid; pgrp = pgrp })
]

-- `parseProcStat`; the argument is the content of the file, `none` if it cannot be opened.
unfoldable pub parse_proc_stat : Option Text → Outcome ProcStat
unfolding scan_fields stat_of
parse_proc_stat none = err (system_error 0)
parse_proc_stat (some body) = stat_of (scan_fields body)
