-- ===== src/Flag/Tests.antt =====
-- Tests of the package `flag`.
use shawk.Prelude.{
  ◌-◌, ◌^◌, ◌≡◌, ◌∷◌, keep, any, codes, text_eq, ℕ, refl, Bool, true, false, none, some, List, [],
  map,
}
use shawk.Strconv.Literals.{parse_bool, parse_int}
use shawk.Flag.{
  Flag, parse, parsed, failed, help_requested, needs_argument, not_defined, bool_var, int_var,
}

literals :
    map parse_int (map codes ("0x1F" ∷ "-2" ∷ "010" ∷ "1_000" ∷ "1__0" ∷ "0x" ∷ "09" ∷ "0" ∷ []))
    ≡ some 31 ∷ some (2 ^ 64 - 2) ∷ some 8 ∷ some 1000 ∷ none ∷ none ∷ none ∷ some 0 ∷ []
unfolding parse_int keep
literals = refl

boolean : parse_bool (codes "TRUE") ≡ some true
unfolding parse_bool any text_eq
boolean = refl

abbrev flags : List (Flag (Bool × ℕ))
flags = bool_var "once" (λ b p. (b, p.1)) ∷ int_var "depth" (λ n p. (p.0, n)) ∷ []

two_flags :
    parse flags (false, 1) (map codes ("--once" ∷ "-depth" ∷ "3" ∷ "rest" ∷ []))
    ≡ parsed (true, 3) (codes "rest" ∷ [])
unfolding parse bool_var int_var text_eq parse_bool any parse_int keep
two_flags = refl

equals_sign :
    parse flags (false, 1) (map codes ("-once=0" ∷ "--depth=0x2" ∷ "--" ∷ "-x" ∷ []))
    ≡ parsed (false, 2) (codes "-x" ∷ [])
unfolding parse bool_var int_var text_eq parse_bool any parse_int keep
equals_sign = refl

missing :
    parse flags (false, 1) (map codes ("-depth" ∷ [])) ≡ failed (needs_argument (codes "depth"))
unfolding parse bool_var int_var text_eq parse_bool any parse_int keep
missing = refl

unknown :
    (parse flags (false, 1) (map codes ("-debug" ∷ [])) ≡ failed (not_defined (codes "debug")))
    × (parse flags (false, 1) (map codes ("-h" ∷ [])) ≡ failed help_requested)
unfolding parse bool_var int_var text_eq parse_bool any parse_int keep
unknown = (refl, refl)
