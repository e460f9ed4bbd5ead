-- ===== src/Statik/Tests.antt =====
-- Tests of `FindString`.
use shawk.Prelude.{
  ◌≡◌, ◌==◌, if◌then◌else◌, system_error, ok, err, codes, text_eq, refl, false, none, some, nat_eq,
  text_equality,
}
use shawk.Statik.{Files, find_string}

-- A file system with one file.
abbrev one_file : Files
one_file = record {
  new_fails = false;
  opened = λ path. if path == codes "/CREDITS" then some (some (codes "thanks")) else none;
}

found : find_string one_file (codes "/CREDITS") ≡ ok (codes "thanks")
unfolding find_string text_eq
found = refl

not_found : find_string one_file (codes "/LICENSE") ≡ err (system_error 42)
unfolding find_string text_eq
not_found = refl
