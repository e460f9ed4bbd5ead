-- ===== src/Flag.antt =====
-- Go's package `flag`, by its documentation: a set of flags that write to variables of type `P`.
mod Tests
use shawk.Prelude.{
  ◌≡◌, ◌||◌, ◌∷◌, ◌==◌, if◌then◌else◌, Text, codes, ℕ, String, refl, Bool, true, false, not, Option,
  none, some, List, [], nat_eq, text_equality,
}
use shawk.Strconv.Literals.{parse_bool, parse_int}

-- A flag: its name, whether it is Boolean, and `Value.Set`, which fails on a malformed value.
pub record Flag (P : Type 0) : Type 0 where
  pub name : Text
  pub is_bool : Bool
  pub assign : Text → P → Option P

-- Why `Parse` returns an error.
pub data FlagError : Type 0 where
  help_requested : FlagError
  bad_syntax not_defined needs_argument : Text → FlagError
  invalid_value : Text → Text → FlagError

-- What `Parse` returns: nil, with the variables and the arguments that are left, or an error.
pub data Parse (P : Type 0) : Type 0 where
  parsed : P → List Text → Parse P
  failed : FlagError → Parse P

module _ {P : Type 0} where
  -- `BoolVar`
  unfoldable pub bool_var : String → (Bool → P → P) → Flag P
  bool_var name write = record {
    name = codes name;
    is_bool = true;
    assign = λ value p. elim (parse_bool value) [ none ↦ none | some b ↦ some (write b p) ];
  }

  -- `StringVar`
  unfoldable pub string_var : String → (Text → P → P) → Flag P
  string_var name write = record {
    name = codes name;
    is_bool = false;
    assign = λ value p. some (write value p);
  }

  -- `IntVar`
  unfoldable pub int_var : String → (ℕ → P → P) → Flag P
  int_var name write = record {
    name = codes name;
    is_bool = false;
    assign = λ value p. elim (parse_int value) [ none ↦ none | some n ↦ some (write n p) ];
  }

  find_flag : Text → List (Flag P) → Option (Flag P)
  find_flag name [] = none
  find_flag name (f ∷ fs) = let rest = find_flag name fs in if f.name == name then some f else rest

-- How an argument reads: not as a flag, as the `--` that ends the flags, as a flag with a name and
-- perhaps a value, or malformed.
pub data Reading : Type 0 where
  no_flag terminator malformed : Reading
  flag_named : Text → Option Text → Reading

-- The part before the first `=`, which is not the first character, and the part behind it.
split_value : Text → Text × Option Text
split_value [] = ([], none)
split_value (c ∷ s) =
    let (name, value) = split_value s in if c == b'=' then ([], some s) else (c ∷ name, value)

read_name : Text → Reading
unfolding split_value
read_name [] = malformed
read_name (c ∷ s) =
    let (name, value) = split_value s in
    if c == b'-' || c == b'=' then malformed else flag_named (c ∷ name) value

unfoldable pub read_flag : Text → Reading
unfolding read_name
read_flag (c ∷ d ∷ s) =
    if not (c == b'-')
    then no_flag
    else if not (d == b'-')
    then read_name (d ∷ s)
    else elim s [ [] ↦ terminator | e ∷ t ↦ read_name (e ∷ t) ]
read_flag s = no_flag

-- The value that a flag is assigned without a look at the next argument.
given_value : Bool → Option Text → Option Text
given_value is_bool (some v) = some v
given_value is_bool none = if is_bool then some (codes "true") else none

module _ {P : Type 0} (flags : List (Flag P)) where
  -- The flags in turn, up to the first argument that is none; a flag may wait for its value, which
  -- is the next argument.
  unfoldable pub parse_from : Option (Flag P) → P → List Text → Parse P
  unfolding find_flag read_flag given_value
  parse_from none p [] = parsed p []
  parse_from (some f) p [] = failed (needs_argument f.name)
  parse_from (some f) p (value ∷ args) = elim (f.assign value p) [
    | none ↦ failed (invalid_value value f.name)
    | some p' ↦ parse_from none p' args
  ]
  parse_from none p (arg ∷ args) = elim (read_flag arg) [
    | no_flag ↦ parsed p (arg ∷ args)
    | terminator ↦ parsed p args
    | malformed ↦ failed (bad_syntax arg)
    | flag_named name value ↦ elim (find_flag name flags) [
      | none ↦
          failed
            (if name == codes "help" || name == codes "h" then help_requested else not_defined name)
      | some f ↦ elim (given_value f.is_bool value) [
        | none ↦ parse_from (some f) p args
        | some v ↦ elim (f.assign v p) [
          | none ↦ failed (invalid_value v name)
          | some p' ↦ parse_from none p' args
        ]
      ]
    ]
  ]

  -- `FlagSet.Parse`
  unfoldable pub parse : P → List Text → Parse P
  unfolding parse_from
  parse = parse_from none

  -- An argument that is no flag ends the flags.
  pub parse-no_flag :
      (p : P) (arg : Text) (args : List Text)
      → read_flag arg ≡ no_flag
      → parse p (arg ∷ args) ≡ parsed p (arg ∷ args)
  unfolding parse parse_from
  parse-no_flag p arg args h = rw (parse_from, h) refl
