-- ===== src/Shared/Text.antt =====
-- Byte strings: literals, equality, prefixes and suffixes (Go's strings package), and decimal
-- integers (strconv.Itoa and strconv.Atoi on a 64-bit int).
pub mod Decimal
pub mod Fields
pub mod Lines
pub mod Suffix
use Prim.Native.Nat.{ℕ, zero, suc, ◌+◌, ◌-◌, ◌*◌, ◌/◌, ◌%◌, ◌<◌}
use Prim.Native.Char.{code}
use Prim.Native.String.{String}
use mathlib.Core.Path.{◌≡◌, refl}
use mathlib.Core.Logic.{◌↔◌}
use mathlib.Core.Bool.{Bool, true, false, ◌&&◌}
use mathlib.Core.List.{List, [], ◌∷◌, ◌++◌}
use mathlib.Core.Option.{Option, none, some}
use native.Mathlib.Omega.{arith}
use archiver.Shared.Tests.{ltb, leb, nat_beq, if◌then◌else◌, Eq}
use archiver.Shared.Int.{ℤ, pos, negsuc, max_int}

abbrev pub Bytes : Type 0
Bytes = List ℕ

-- The bytes of an ASCII text.
abbrev pub codes : String → Bytes
codes String.[] = []
codes (String.◌∷◌ c s) = code c ∷ codes s

unfoldable pub bytes_beq : Bytes → Bytes → Bool
bytes_beq [] [] = true
bytes_beq (x ∷ xs) (y ∷ ys) = nat_beq x y && bytes_beq xs ys
bytes_beq [] (y ∷ ys) = false
bytes_beq (x ∷ xs) [] = false

bytes_beq→eq : (a b : Bytes) → bytes_beq a b ≡ true → a ≡ b
unfolding bytes_beq
bytes_beq→eq [] [] h = refl
bytes_beq→eq (x ∷ xs) (y ∷ ys) h = ground (arith, bytes_beq→eq xs ys)
bytes_beq→eq [] (y ∷ ys) h = cc
bytes_beq→eq (x ∷ xs) [] h = cc

bytes_beq_refl : (a : Bytes) → bytes_beq a a ≡ true
unfolding bytes_beq
bytes_beq_refl [] = refl
bytes_beq_refl (x ∷ xs) = ground (arith, bytes_beq_refl xs)

pub bytes_beq_iff : (a b : Bytes) → (bytes_beq a b ≡ true) ↔ (a ≡ b)
bytes_beq_iff a b = (bytes_beq→eq a b, λ e. rw e (bytes_beq_refl b))

instance abbrev pub bytes_eq : Eq Bytes
bytes_eq = record { beq = bytes_beq; beq_iff = bytes_beq_iff }

-- strings.HasPrefix
unfoldable pub has_prefix : Bytes → Bytes → Bool
has_prefix s [] = true
has_prefix [] (y ∷ ys) = false
has_prefix (x ∷ xs) (y ∷ ys) = nat_beq x y && has_prefix xs ys

-- strings.CutPrefix; `none` is the unfound prefix
unfoldable pub cut_prefix : Bytes → Bytes → Option Bytes
cut_prefix s [] = some s
cut_prefix [] (y ∷ ys) = none
cut_prefix (x ∷ xs) (y ∷ ys) = let rest = cut_prefix xs ys in if nat_beq x y then rest else none

pub cut_prefix-append : (p s : Bytes) → cut_prefix (p ++ s) p ≡ some s
unfolding cut_prefix
cut_prefix-append [] s = refl
cut_prefix-append (x ∷ p) s = ground (arith, cut_prefix-append p s)

pub cut_prefix_inv : (s p t : Bytes) → cut_prefix s p ≡ some t → s ≡ p ++ t
unfolding cut_prefix
cut_prefix_inv s [] t h = ground arith
cut_prefix_inv [] (y ∷ ys) t h = cc
cut_prefix_inv (x ∷ xs) (y ∷ ys) t h = ground (arith, cut_prefix_inv xs ys t)

-- strings.CutSuffix; `none` is the unfound suffix
unfoldable pub cut_suffix : Bytes → Bytes → Option Bytes
unfolding bytes_beq
cut_suffix [] p = if bytes_beq [] p then some [] else none
cut_suffix (x ∷ xs) p =
    let rest = cut_suffix xs p in
    if bytes_beq (x ∷ xs) p then some [] else elim rest [ none ↦ none | some t ↦ some (x ∷ t) ]

abbrev pub has_suffix : Bytes → Bytes → Bool
has_suffix s p = elim (cut_suffix s p) [ none ↦ false | some _ ↦ true ]

abbrev pub trim_suffix : Bytes → Bytes → Bytes
trim_suffix s p = elim (cut_suffix s p) [ none ↦ s | some t ↦ t ]

abbrev pub is_digit : ℕ → Bool
is_digit c = leb b'0' c && leb c b'9'

-- The decimal digits of a number below 10 to the fuel.
pub decimal_fuel : ℕ → ℕ → Bytes
decimal_fuel zero n = []
decimal_fuel (suc f) n =
    let high = decimal_fuel f (n / 10) in
    if ltb n 10 then (b'0' + n) ∷ [] else high ++ (b'0' + n % 10) ∷ []

-- n + 1 rounds are enough, as each divides the number by ten.
unfoldable pub decimal : ℕ → Bytes
unfolding decimal_fuel
decimal n = decimal_fuel (suc n) n

unfoldable pub itoa : ℤ → Bytes
unfolding decimal
itoa (pos n) = decimal n
itoa (negsuc n) = b'-' ∷ decimal (suc n)

-- The value of a run of digits after an accumulated value; `none` at another byte.
unfoldable pub digits_value : ℕ → Bytes → Option ℕ
digits_value acc [] = some acc
digits_value acc (c ∷ cs) =
    let rest = digits_value (acc * 10 + (c - b'0')) cs in if is_digit c then rest else none

unfoldable pub parse_digits : Bytes → Option ℕ
unfolding digits_value
parse_digits [] = none
parse_digits (c ∷ cs) = digits_value 0 (c ∷ cs)

pub in_range : Option ℕ → ℕ → Option ℕ
in_range none limit = none
in_range (some n) limit = if leb n limit then some n else none

abbrev pub to_negative : ℕ → ℤ
to_negative zero = pos 0
to_negative (suc n) = negsuc n

-- strconv.Atoi; `none` is its error, a syntax error or a value out of the range of int.
unfoldable pub atoi : Bytes → Option ℤ
unfolding parse_digits in_range
atoi [] = none
atoi (c ∷ cs) =
    if nat_beq c b'-'
    then elim (in_range (parse_digits cs) (max_int + 1)) [
      | none ↦ none
      | some n ↦ some (to_negative n)
    ]
    else elim (in_range (parse_digits (if nat_beq c b'+' then cs else c ∷ cs)) max_int) [
      | none ↦ none
      | some n ↦ some (pos n)
    ]

digits_value-append :
    (xs ys : Bytes) (acc v : ℕ)
    → digits_value acc xs ≡ some v
    → digits_value acc (xs ++ ys) ≡ digits_value v ys
unfolding digits_value
digits_value-append [] ys acc v h = ground arith
digits_value-append (x ∷ xs) ys acc v h =
    ground (arith, digits_value-append xs ys (acc * 10 + (x - b'0')) v)

pub digits_value-decimal_fuel : (f n : ℕ) → n < f → digits_value 0 (decimal_fuel f n) ≡ some n
unfolding decimal_fuel digits_value
digits_value-decimal_fuel zero n h = absurd (omega arith)
digits_value-decimal_fuel (suc f) n h = ground (
  arith,
  digits_value-decimal_fuel f (n / 10),
  digits_value-append (decimal_fuel f (n / 10)) ((b'0' + n % 10) ∷ []) 0 (n / 10),
)
