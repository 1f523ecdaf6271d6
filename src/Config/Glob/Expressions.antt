-- ===== src/Config/Glob/Expressions.antt =====
-- The rules of bracket expressions (internal/config/glob.go, `classMatch`), as the set of bytes that an
-- expression names, read without a byte to test.
use archiver.Shared.{
  Bool, Bytes, Option, [], codes, contains, false, if◌then◌else◌, length, none, not, some, suc,
  true, zero, ℕ, ◌&&◌, ◌++◌, ◌-◌, ◌==◌, ◌||◌, ◌∷◌, nat_eq, bytes_eq, int_eq,
}
pub mod Classes
pub mod Reads

-- So many bytes from one on.
unfoldable pub bytes_from : ℕ → ℕ → Bytes
bytes_from lo zero = []
bytes_from lo (suc n) = lo ∷ bytes_from (suc lo) n

unfoldable pub letters : Bytes
unfolding bytes_from
letters = bytes_from b'a' 26 ++ bytes_from b'A' 26

unfoldable pub digits : Bytes
unfolding bytes_from
digits = bytes_from b'0' 10

-- The bytes of a class of the C locale.
unfoldable pub class_bytes : Bytes → Option Bytes
unfolding letters digits
class_bytes name =
    if name == codes "alnum"
    then some (letters ++ digits)
    else if name == codes "alpha"
    then some letters
    else if name == codes "blank"
    then some (32 ∷ 9 ∷ [])
    else if name == codes "cntrl"
    then some (bytes_from 0 32 ++ 127 ∷ [])
    else if name == codes "digit"
    then some digits
    else if name == codes "graph"
    then some (bytes_from 33 94)
    else if name == codes "lower"
    then some (bytes_from b'a' 26)
    else if name == codes "print"
    then some (bytes_from 32 95)
    else if name == codes "punct"
    then some (bytes_from 33 15 ++ bytes_from 58 7 ++ bytes_from 91 6 ++ bytes_from 123 4)
    else if name == codes "space"
    then some (32 ∷ bytes_from 9 5)
    else if name == codes "upper"
    then some (bytes_from b'A' 26)
    else if name == codes "xdigit"
    then some (digits ++ bytes_from b'a' 6 ++ bytes_from b'A' 6)
    else if name == codes "word"
    then some (letters ++ digits ++ b'_' ∷ [])
    else none

-- The text before the first ":]", and after it.
unfoldable pub before_close : Bytes → Option (Bytes × Bytes)
before_close [] = none
before_close (x ∷ []) = none
before_close (x ∷ y ∷ s) =
    let rest = before_close (y ∷ s) in
    if x == b':' && y == b']'
    then some ([], s)
    else elim rest [ none ↦ none | some (name, after) ↦ some (x ∷ name, after) ]

unfoldable pub class_found : Option (Bytes × Bytes) → Option (Bytes × Bytes)
unfolding class_bytes
class_found none = none
class_found (some (name, after)) = elim (class_bytes name) [
  | none ↦ none
  | some set ↦ some (set, after)
]

-- "[:name:]", of a class that there is: its bytes, and the text after it.
unfoldable pub class_item : Bytes → Option (Bytes × Bytes)
unfolding class_found before_close
class_item (x ∷ y ∷ []) = none
class_item (x ∷ y ∷ z ∷ t) =
    if x == b'[' && y == b':'
    then (if z == b']' then none else class_found (before_close (z ∷ t)))
    else none
class_item p = none

-- "[=c=]" and "[.c.]": the byte c.
unfoldable pub byte_item : Bytes → Option (Bytes × Bytes)
byte_item (x ∷ d ∷ b ∷ d' ∷ close ∷ after) =
    if x == b'[' && ((d == b'=' || d == b'.') && (d' == d && close == b']'))
    then some (b ∷ [], after)
    else none
byte_item p = none

-- A byte, or the one after a backslash.
unfoldable pub plain_byte : ℕ → Bytes → ℕ × Bytes
plain_byte x [] = (x, [])
plain_byte x (y ∷ r) = if x == b'\\' then (y, r) else (x, y ∷ r)

-- A byte, or all from one to another: a "-" that is not last stands between the two.
unfoldable pub range_from : ℕ → Bytes → Bytes × Bytes
unfolding plain_byte bytes_from
range_from lo (dash ∷ h ∷ t) =
    if dash == b'-' && not (h == b']')
    then (let (hi, after) = plain_byte h t in (bytes_from lo (suc hi - lo), after))
    else (lo ∷ [], dash ∷ h ∷ t)
range_from lo q = (lo ∷ [], q)

unfoldable pub range_item : ℕ → Bytes → Bytes × Bytes
unfolding plain_byte range_from
range_item x r = let (lo, q) = plain_byte x r in range_from lo q

unfoldable pub item_bytes : ℕ → Bytes → Bytes × Bytes
unfolding class_item byte_item range_item
item_bytes x r = elim (class_item (x ∷ r)) [
  | some found ↦ found
  | none ↦ elim (byte_item (x ∷ r)) [ some found ↦ found | none ↦ range_item x r ]
]

-- The items up to the "]" that closes them, which is not the first.
unfoldable pub set_of : ℕ → Bool → Bytes → Option (Bytes × Bytes)
unfolding item_bytes
set_of zero first p = none
set_of (suc fuel) first [] = none
set_of (suc fuel) first (x ∷ r) =
    let (bytes, after) = item_bytes x r in
    let rest = set_of fuel false after in
    if x == b']' && not first
    then some ([], r)
    else elim rest [ none ↦ none | some (set, end) ↦ some (bytes ++ set, end) ]

-- "!" or "^" asks for a byte that is not in the set.
abbrev pub is_negation : Bytes → Bool
is_negation [] = false
is_negation (x ∷ r) = x == b'!' || x == b'^'

abbrev pub past_negation : Bytes → Bytes
past_negation [] = []
past_negation (x ∷ r) = if x == b'!' || x == b'^' then r else x ∷ r

-- What a bracket expression, after its "[", says of a byte, and what follows it; `none` if nothing
-- closes it.
unfoldable pub reads : Bytes → ℕ → Option (Bool × Bytes)
unfolding set_of
reads p c = elim (set_of (length (past_negation p)) true (past_negation p)) [
  | none ↦ none
  | some (set, after) ↦ some (if is_negation p then not (contains set c) else contains set c, after)
]
