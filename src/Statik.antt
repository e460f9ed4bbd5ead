-- ===== src/Statik.antt =====
-- statik/statik.go: the text of an embedded file.
mod Tests
use shawk.Prelude.{if◌then◌else◌, system_error, Outcome, ok, err, Text, Bool, Option, none, some}

-- The file system of github.com/rakyll/statik, a parameter: whether `fs.New` fails, and the file
-- that `Open` gives for a path, as what `ioutil.ReadAll` gives of it, none for an error.
pub record Files : Type 0 where
  pub new_fails : Bool
  pub opened : Text → Option (Option Text)

-- `FindString`
unfoldable pub find_string : Files → Text → Outcome Text
find_string files path =
    if files.new_fails then err (system_error 41) else elim (files.opened path) [
      | none ↦ err (system_error 42)
      | some none ↦ err (system_error 43)
      | some (some text) ↦ ok text
    ]
