-- ===== src/Config/Glob.antt =====
-- internal/config/glob.go: matching a service name against one component of a pattern, by bash's
-- rules. A position in the pattern is the rest of the pattern from there.
use archiver.Shared.{
  Bool, Bytes, Option, [], any_of, codes, cut_prefix, false, has_prefix, if◌then◌else◌, is_digit,
  leb, length, ltb, none, not, some, suc, true, zero, ℕ, ◌&&◌, ◌++◌, ◌==◌, ◌||◌, ◌∷◌, nat_eq,
  bytes_eq, int_eq,
}
pub mod Escaping
pub mod Brackets
pub mod Expressions
pub mod Matching

abbrev between : ℕ → ℕ → ℕ → Bool
between lo hi c = leb lo c && leb c hi

-- `isAlpha`
unfoldable pub is_alpha : ℕ → Bool
is_alpha c = between b'a' b'z' c || between b'A' b'Z' c

-- `classes`, by name; `none` for a name that is not one.
unfoldable pub class_of : Bytes → ℕ → Option Bool
unfolding is_alpha
class_of name c =
    if name == codes "alnum"
    then some (is_alpha c || is_digit c)
    else if name == codes "alpha"
    then some (is_alpha c)
    else if name == codes "blank"
    then some (c == 32 || c == 9)
    else if name == codes "cntrl"
    then some (ltb c 32 || c == 127)
    else if name == codes "digit"
    then some (is_digit c)
    else if name == codes "graph"
    then some (ltb 32 c && ltb c 127)
    else if name == codes "lower"
    then some (between b'a' b'z' c)
    else if name == codes "print"
    then some (leb 32 c && ltb c 127)
    else if name == codes "punct"
    then some (ltb 32 c && (ltb c 127 && (not (is_alpha c) && not (is_digit c))))
    else if name == codes "space"
    then some (c == 32 || between 9 13 c)
    else if name == codes "upper"
    then some (between b'A' b'Z' c)
    else if name == codes "xdigit"
    then some (is_digit c || (between b'a' b'f' c || between b'A' b'F' c))
    else if name == codes "word"
    then some (is_alpha c || (is_digit c || c == b'_'))
    else none

-- The text before the first ":]" and the text after it.
unfoldable pub until_close : Bytes → Option (Bytes × Bytes)
until_close [] = none
until_close (x ∷ s) =
    let rest = until_close s in
    elim (cut_prefix (x ∷ s) (codes ":]")) [
      | some after ↦ some ([], after)
      | none ↦ elim rest [ none ↦ none | some (name, after) ↦ some (x ∷ name, after) ]
    ]

unfoldable pub named_class_of : Option (Bytes × Bytes) → Option ℕ → Option (Bool × Bytes)
unfolding class_of
named_class_of none c = none
named_class_of (some (name, after)) none = elim (class_of name 0) [
  | none ↦ none
  | some b ↦ some (false, after)
]
named_class_of (some (name, after)) (some c) = elim (class_of name c) [
  | none ↦ none
  | some b ↦ some (b, after)
]

-- "[:name:]" at the start of a text: whether the byte is in the class, and the text after it.
unfoldable pub named_class : Bytes → Option ℕ → Option (Bool × Bytes)
unfolding until_close named_class_of
named_class (x ∷ y ∷ t) c =
    if x == b'[' && y == b':'
    then (if has_prefix t (codes "]") then none else named_class_of (until_close t) c)
    else none
named_class _ c = none

is_byte : Option ℕ → ℕ → Bool
is_byte none b = false
is_byte (some c) b = c == b

-- "[=c=]" or "[.c.]" at the start of a text.
unfoldable pub one_byte : Bytes → Option ℕ → Option (Bool × Bytes)
unfolding is_byte
one_byte (x ∷ d ∷ b ∷ d' ∷ close ∷ after) c =
    if x == b'[' && ((d == b'=' || d == b'.') && (d' == d && close == b']'))
    then some (is_byte c b, after)
    else none
one_byte _ c = none

-- The byte a text begins with, a backslash before it dropped.
unfoldable pub escaped : ℕ → Bytes → ℕ × Bytes
escaped x [] = (x, [])
escaped x (y ∷ r) = if x == b'\\' then (y, r) else (x, y ∷ r)

-- The end of a range that begins with `lo`.
unfoldable pub range_end : ℕ → Bytes → ℕ × Bytes
unfolding escaped
range_end lo (dash ∷ h ∷ t) =
    if dash == b'-' && not (h == b']') then escaped h t else (lo, dash ∷ h ∷ t)
range_end lo q = (lo, q)

in_range : Option ℕ → ℕ → ℕ → Bool
in_range none lo hi = false
in_range (some c) lo hi = leb lo c && leb c hi

unfoldable pub range : ℕ → Bytes → Option ℕ → Bool × Bytes
unfolding escaped range_end in_range
range x r c =
    let (lo, q) = escaped x r in let (hi, after) = range_end lo q in (in_range c lo hi, after)

-- One round of the loop of `classMatch`.
unfoldable pub item : ℕ → Bytes → Option ℕ → Bool × Bytes
unfolding named_class one_byte range
item x r c = elim (named_class (x ∷ r) c) [
  | some found ↦ found
  | none ↦ elim (one_byte (x ∷ r) c) [ some found ↦ found | none ↦ range x r c ]
]

-- The loop of `classMatch`, on fuel: each round reads a byte of the pattern at least.
unfoldable pub class_loop : ℕ → Bool → Bool → Option ℕ → Bytes → Option (Bool × Bytes)
unfolding item
class_loop zero first matched c p = none
class_loop (suc fuel) first matched c [] = none
class_loop (suc fuel) first matched c (x ∷ r) =
    let (found, after) = item x r c in
    let rest = class_loop fuel false (matched || found) c after in
    if x == b']' && not first then some (matched, r) else rest

unfoldable pub negated : Bytes → Bool × Bytes
negated [] = (false, [])
negated (x ∷ r) = if x == b'!' || x == b'^' then (true, r) else (false, x ∷ r)

abbrev pub first_byte : Bytes → Option ℕ
first_byte [] = none
first_byte (c ∷ s) = some c

-- `classMatch` on what follows the "[": whether the first byte of the name is in the bracket
-- expression, and what follows it; `none` if the "[" has no closing "]".
unfoldable pub class_match : Bytes → Bytes → Option (Bool × Bytes)
unfolding class_loop negated
class_match p s =
    let (negate, q) = negated p in
    elim (class_loop (length q) true false (first_byte s) q) [
      | none ↦ none
      | some (matched, after) ↦
          some (ltb 0 (length s) && (if negate then not matched else matched), after)
    ]

unfoldable pub drop_stars : Bytes → Bytes
drop_stars [] = []
drop_stars (c ∷ p) = if c == b'*' then drop_stars p else c ∷ p

-- Whether a test passes on a text or on what is left of it after some bytes.
unfoldable pub any_suffix : (Bytes → Bool) → Bytes → Bool
any_suffix test [] = test []
any_suffix test (x ∷ s) = test (x ∷ s) || any_suffix test s

unfoldable pub literal : ℕ → (Bytes → Bool) → Bytes → Bool
literal c next [] = false
literal c next (x ∷ s) = x == c && next s

abbrev pub skip : (Bytes → Bool) → Bytes → Bool
skip next [] = false
skip next (x ∷ s) = next s

abbrev pub is_nil : Bytes → Bool
is_nil [] = true
is_nil (x ∷ s) = false

-- The loop of `matchAt`, on fuel: each round reads a byte of the pattern at least.
unfoldable pub match_at : ℕ → Bytes → Bytes → Bool
unfolding class_match drop_stars any_suffix literal
match_at fuel [] s = is_nil s
match_at zero (c ∷ p) s = false
match_at (suc fuel) (c ∷ p) s =
    if c == b'*'
    then is_nil (drop_stars p) || any_suffix (match_at fuel (drop_stars p)) s
    else if c == b'?'
    then skip (match_at fuel p) s
    else if c == b'['
    then elim (class_match p s) [
      | none ↦ literal c (match_at fuel p) s
      | some (ok, after) ↦ ok && skip (match_at fuel after) s
    ]
    else if c == b'\\'
    then elim p [ [] ↦ literal c (match_at fuel []) s | d ∷ q ↦ literal d (match_at fuel q) s ]
    else literal c (match_at fuel p) s

-- `match`
unfoldable pub match_name : Bytes → Bytes → Bool
unfolding match_at
match_name pattern name =
    if has_prefix name (codes ".")
      && (not (has_prefix pattern (codes ".")) && not (has_prefix pattern (b'\\' ∷ b'.' ∷ [])))
    then false
    else match_at (length pattern) pattern name

-- `unescape`
unfoldable pub unescape : Bytes → Bytes
unescape [] = []
unescape (x ∷ []) = x ∷ []
unescape (x ∷ y ∷ s) =
    let rest = unescape (y ∷ s) in
    let skipped = unescape s in if x == b'\\' then y ∷ skipped else x ∷ rest

-- `hasMeta`
unfoldable pub has_meta : Bytes → Bool
has_meta s = any_of (λ c. c == b'*' || (c == b'?' || c == b'[')) s

-- `join`
unfoldable pub join : Bytes → Bytes → Bytes
join base name =
    if base == [] then name else if base == codes "/" then b'/' ∷ name else base ++ b'/' ∷ name
