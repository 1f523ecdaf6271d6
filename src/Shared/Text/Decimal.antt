-- ===== src/Shared/Text/Decimal.antt =====
-- Printing and reading of decimal integers are inverse, and a printed integer is a word of digits.
use Prim.Native.Nat.{ℕ, zero, suc, ◌+◌, ◌/◌, ◌%◌, ◌≤◌, ◌<◌}
use mathlib.Core.Path.{◌≡◌, refl}
use mathlib.Core.Logic.{inl, inr}
use mathlib.Core.Bool.{Bool, true, ◌||◌}
use mathlib.Core.List.{[], ◌∷◌, ◌++◌}
use mathlib.Core.Option.{Option, none, some}
use native.Mathlib.Omega.{arith}
use archiver.Shared.Tests.{nat_beq, ltb, Bool-cases, Option-cases, if◌then◌else◌}
use archiver.Shared.Int.{ℤ, pos, negsuc, neg_part, pos_part, max_int}
use archiver.Shared.Lists.{all_of, all_of-append, all_of_imp}
use archiver.Shared.Text.{
  Bytes, is_digit, decimal_fuel, digits_value-decimal_fuel, decimal, itoa, parse_digits, in_range,
  to_negative, atoi,
}

decimal_fuel_head :
    (f n : ℕ) → n < f → (c : ℕ) × (cs : Bytes) × (decimal_fuel f n ≡ c ∷ cs) × (is_digit c ≡ true)
unfolding decimal_fuel
decimal_fuel_head zero n h = absurd (omega arith)
decimal_fuel_head (suc zero) n h = (b'0' + n, [], ground arith, ground arith)
decimal_fuel_head (suc (suc f)) n h = elim (Bool-cases (ltb n 10)) [
  | inl small ↦ (b'0' + n, [], rw small, ground arith)
  | inr large ↦
      let (c, cs, e, d) = decimal_fuel_head (suc f) (n / 10) (ground arith) in
      (c, cs ++ (b'0' + n % 10) ∷ [], rw (large, e), d)
]

decimal_fuel-digits : (f n : ℕ) → all_of is_digit (decimal_fuel f n) ≡ true
unfolding decimal_fuel
decimal_fuel-digits zero n = refl
decimal_fuel-digits (suc f) n = ground (
  arith,
  decimal_fuel-digits f (n / 10),
  all_of-append is_digit (decimal_fuel f (n / 10)) ((b'0' + n % 10) ∷ []),
)

parse_digits-decimal : (n : ℕ) → parse_digits (decimal n) ≡ some n
unfolding parse_digits decimal
parse_digits-decimal n =
    let (c, cs, e, d) = decimal_fuel_head (suc n) n (omega arith) in
    rw e (rw e at (digits_value-decimal_fuel (suc n) n (omega arith)))

-- A number in the range of a 64-bit int.
abbrev pub InRange : ℤ → Type 0
InRange z = (pos_part z ≤ max_int) × (neg_part z ≤ max_int + 1)

pub atoi-itoa : (z : ℤ) → InRange z → atoi (itoa z) ≡ some z
unfolding atoi itoa decimal
atoi-itoa (pos n) h =
    let (c, cs, e, d) = decimal_fuel_head (suc n) n (omega arith) in
    rw e (ground (arith, (rw e at (parse_digits-decimal n))))
atoi-itoa (negsuc n) h = ground (arith, parse_digits-decimal (suc n))

-- The bytes of a printed integer: digits, and a minus sign.
abbrev pub is_int_byte : ℕ → Bool
is_int_byte c = is_digit c || nat_beq c b'-'

pub itoa-digits : (z : ℤ) → all_of is_int_byte (itoa z) ≡ true
unfolding itoa decimal
itoa-digits (pos n) =
    all_of_imp is_digit is_int_byte (decimal n) (λ c d. ground arith)
      (decimal_fuel-digits (suc n) n)
itoa-digits (negsuc n) =
    all_of_imp is_digit is_int_byte (decimal (suc n)) (λ c d. ground arith)
      (decimal_fuel-digits (suc (suc n)) (suc n))

pub itoa-ne-nil : (z : ℤ) → (c : ℕ) × (cs : Bytes) × (itoa z ≡ c ∷ cs)
unfolding itoa decimal
itoa-ne-nil (pos n) = let (c, cs, e, d) = decimal_fuel_head (suc n) n (omega arith) in (c, cs, e)
itoa-ne-nil (negsuc n) = (b'-', decimal (suc n), refl)

in_range_inv : (o : Option ℕ) (limit v : ℕ) → in_range o limit ≡ some v → v ≤ limit
unfolding in_range
in_range_inv none limit v h = cc
in_range_inv (some n) limit v h = ground arith

negative_range :
    (n : ℕ) (z : ℤ)
    → n ≤ max_int + 1
    → ◌≡◌ {A = Option ℤ} (some (to_negative n)) (some z)
    → InRange z
negative_range zero z b h = (ground arith, ground arith)
negative_range (suc n) z b h = (ground arith, ground arith)

atoi-neg :
    (o : Option ℕ) (z : ℤ)
    → (elim (in_range o (max_int + 1)) [ none ↦ none | some n ↦ some (to_negative n) ]) ≡ some z
    → InRange z
atoi-neg o z h = elim (Option-cases (in_range o (max_int + 1))) [
  | inl bad ↦ let h' = rw bad at h in cc
  | inr (n, ok) ↦
      let b = in_range_inv o (max_int + 1) n ok in let h' = rw ok at h in negative_range n z b h'
]

atoi-pos :
    (o : Option ℕ) (z : ℤ)
    → (elim (in_range o max_int) [ none ↦ none | some n ↦ some (pos n) ]) ≡ some z
    → InRange z
atoi-pos o z h = elim (Option-cases (in_range o max_int)) [
  | inl bad ↦ let h' = rw bad at h in cc
  | inr (n, ok) ↦
      let b = in_range_inv o max_int n ok in let h' = rw ok at h in (ground arith, ground arith)
]

-- A number that is read is in the range of int.
pub atoi-InRange : (s : Bytes) (z : ℤ) → atoi s ≡ some z → InRange z
unfolding atoi
atoi-InRange [] z h = cc
atoi-InRange (c ∷ cs) z h = elim (Bool-cases (nat_beq c b'-')) [
  | inl minus ↦ atoi-neg (parse_digits cs) z (rw minus at h)
  | inr plain ↦ atoi-pos (parse_digits (if nat_beq c b'+' then cs else c ∷ cs)) z (rw plain at h)
]
