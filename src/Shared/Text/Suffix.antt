-- ===== src/Shared/Text/Suffix.antt =====
-- What cutting a suffix finds.
use Prim.Native.Nat.{ℕ}
use mathlib.Core.Path.{◌≡◌, refl, ap}
use mathlib.Core.Logic.{inl, inr}
use mathlib.Core.Bool.{true, false, not}
use mathlib.Core.List.{[], ◌∷◌, ◌++◌}
use mathlib.Core.Option.{none, some}
use native.Mathlib.Omega.{arith}
use archiver.Shared.Tests.{Bool-cases, nat_beq}
use archiver.Shared.Lists.{length, length-append, all_of}
use archiver.Shared.Text.{Bytes, bytes_beq, bytes_beq_iff, cut_suffix}

longer_ne : (x : ℕ) (xs p : Bytes) → bytes_beq (x ∷ xs ++ p) p ≡ false
longer_ne x xs p = elim (Bool-cases (bytes_beq (x ∷ xs ++ p) p)) [
  | inl same ↦ absurd (omega (arith, ap length ((bytes_beq_iff _ p).0 same), length-append xs p))
  | inr other ↦ other
]

pub cut_suffix-append : (w p : Bytes) → cut_suffix (w ++ p) p ≡ some w
unfolding cut_suffix
cut_suffix-append [] [] = refl
cut_suffix-append [] (y ∷ p) = rw ((bytes_beq_iff (y ∷ p) _).1 refl)
cut_suffix-append (x ∷ w) p = rw (longer_ne x w p, cut_suffix-append w p)

-- No run of other bytes ends in the byte `c`.
pub cut_suffix_absent :
    (c : ℕ) (w : Bytes) → all_of (λ b. not (nat_beq b c)) w ≡ true → cut_suffix w (c ∷ []) ≡ none
unfolding cut_suffix bytes_beq
cut_suffix_absent c [] h = refl
cut_suffix_absent c (x ∷ w) h = ground (arith, cut_suffix_absent c w)
