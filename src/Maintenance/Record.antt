-- ===== src/Maintenance/Record.antt =====
-- The maintenance record (internal/maintenance/maintenance.go: `readState`, `get`, `set`, `write`): a
-- line per storage with the instants, in seconds, at which its check, prune and exhaustive prune last
-- worked. Instants are in the range of an int64. A write that fails leaves the file, as its callers
-- write it in place of the old one.
use archiver.Shared.{
  Bool, Bytes, List, Option, [], atoi_value, fields, if◌then◌else◌, insert, itoa, lookup, newline,
  none, pos, some, sort_texts, split_lines, ℤ, ◌++◌, ◌∷◌, nat_eq, bytes_eq, int_eq,
}
pub mod Roundtrip
pub mod Plain

-- The three instants of a storage, 0 where there was none.
pub record Times : Type 0 where
  pub check : ℤ
  pub prune : ℤ
  pub exhaustive : ℤ

abbrev pub no_times : Times
no_times = record { check = pos 0; prune = pos 0; exhaustive = pos 0 }

pub data Field : Type 0 where
  field_check field_prune field_exhaustive : Field

-- `state`
abbrev pub State : Type 0
State = List (Bytes × Times)

-- One line of `readState`.
unfoldable pub read_fields : List Bytes → State → State
read_fields (name ∷ check ∷ prune ∷ exhaustive ∷ more) s =
    insert name
      (record {
        check = atoi_value check;
        prune = atoi_value prune;
        exhaustive = atoi_value exhaustive;
      })
      s
read_fields _ s = s

unfoldable pub read_lines : List Bytes → State → State
unfolding read_fields
read_lines [] s = s
read_lines (l ∷ ls) s = read_lines ls (read_fields (fields l) s)

-- `readState`, of a file that can be read or not.
unfoldable pub read_state : Option Bytes → State
unfolding read_lines
read_state none = []
read_state (some text) = read_lines (split_lines text) []

unfoldable pub times_of : Bytes → State → Times
times_of name s = elim (lookup name s) [ none ↦ no_times | some v ↦ v ]

unfoldable pub field_of : Field → Times → ℤ
field_of field_check v = v.check
field_of field_prune v = v.prune
field_of field_exhaustive v = v.exhaustive

unfoldable pub set_field : Field → ℤ → Times → Times
set_field field_check at v = record v { check = at }
set_field field_prune at v = record v { prune = at }
set_field field_exhaustive at v = record v { exhaustive = at }

-- `get`
unfoldable pub get_time : Bytes → Field → State → ℤ
unfolding times_of field_of
get_time name field s = field_of field (times_of name s)

-- `set`
unfoldable pub set_time : Bytes → Field → ℤ → State → State
unfolding times_of set_field
set_time name field at s = insert name (set_field field at (times_of name s)) s

unfoldable pub line_of : Bytes → Times → Bytes
line_of name v = name ++ b' ' ∷ (itoa v.check ++ b' ' ∷ (itoa v.prune ++ b' ' ∷ itoa v.exhaustive))

unfoldable pub names_of : State → List Bytes
names_of [] = []
names_of ((name, v) ∷ s) = name ∷ names_of s

unfoldable pub print_names : State → List Bytes → Bytes
unfolding line_of times_of
print_names s [] = []
print_names s (name ∷ names) = line_of name (times_of name s) ++ newline ∷ print_names s names

-- The text of `write`.
unfoldable pub print_state : State → Bytes
unfolding print_names names_of
print_state s = print_names s (sort_texts (names_of s))

-- `write`, which may fail.
unfoldable pub write_state : Bool → State → Option Bytes → Option Bytes
unfolding print_state
write_state writes s disk = if writes then some (print_state s) else disk
