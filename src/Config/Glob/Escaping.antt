-- ===== src/Config/Glob/Escaping.antt =====
-- Patterns written with backslashes (internal/config/glob.go).
use archiver.Shared.{
  Bool, Bool-cases, Bytes, Option, [], ap, append-nil, arith, bytes_beq, cut_prefix, false,
  has_prefix, inl, inr, length, none, refl, some, suc, ℕ, ◌++◌, ◌==◌, ◌∙◌, ◌∷◌, ◌≡◌, nat_eq,
  bytes_eq, int_eq,
}
use archiver.Config.Glob.{literal, match_at, match_name, unescape}

-- A name with a backslash before each byte.
abbrev pub escape : Bytes → Bytes
escape [] = []
escape (c ∷ s) = b'\\' ∷ c ∷ escape s

abbrev matches_rest : ℕ → Bytes → Option Bytes → Bool
matches_rest fuel q none = false
matches_rest fuel q (some rest) = match_at fuel q rest

abbrev longer : Bytes → ℕ → ℕ
longer [] fuel = fuel
longer (c ∷ p) fuel = suc (longer p fuel)

match_at-escape :
    (p q s : Bytes) (fuel : ℕ)
    → match_at (longer p fuel) (escape p ++ q) s ≡ matches_rest fuel q (cut_prefix s p)
unfolding match_at literal cut_prefix
match_at-escape [] q s fuel = refl
match_at-escape (c ∷ p) q [] fuel = refl
match_at-escape (c ∷ p) q (x ∷ s) fuel = elim (Bool-cases (x == c)) [
  | inl same ↦ rw same (match_at-escape p q s fuel)
  | inr other ↦ rw other
]

longer-suc : (p : Bytes) (fuel : ℕ) → longer p (suc fuel) ≡ suc (longer p fuel)
longer-suc [] fuel = refl
longer-suc (c ∷ p) fuel = ap (λ n. suc n) (longer-suc p fuel)

length-escape : (p : Bytes) → length (escape p) ≡ longer p (length p)
length-escape [] = refl
length-escape (c ∷ p) = rw (longer-suc p (length p)) (ap (λ n. suc (suc n)) (length-escape p))

rest-nil : (p s : Bytes) (fuel : ℕ) → matches_rest fuel [] (cut_prefix s p) ≡ (s == p)
unfolding match_at cut_prefix bytes_beq
rest-nil [] [] fuel = refl
rest-nil [] (x ∷ s) fuel = refl
rest-nil (c ∷ p) [] fuel = refl
rest-nil (c ∷ p) (x ∷ s) fuel = elim (Bool-cases (x == c)) [
  | inl same ↦ rw same (rest-nil p s fuel)
  | inr other ↦ rw other
]

match_at-name : (p s : Bytes) → match_at (length (escape p)) (escape p) s ≡ (s == p)
match_at-name p s =
    rw (length-escape p, ← append-nil (escape p))
      (match_at-escape p [] s (length p) ∙ rest-nil p s (length p))

-- An escaped name matches that name and no other.
match_name-escape : (p s : Bytes) → match_name (escape p) s ≡ (s == p)
unfolding match_name has_prefix bytes_beq
match_name-escape [] [] = match_at-name [] []
match_name-escape [] (x ∷ s) = ground (arith, match_at-name [] (x ∷ s))
match_name-escape (c ∷ p) [] = match_at-name (c ∷ p) []
match_name-escape (c ∷ p) (x ∷ s) = ground (arith, match_at-name (c ∷ p) (x ∷ s))

-- Dropping the backslashes of an escaped name gives the name.
unescape-escape : (p : Bytes) → unescape (escape p) ≡ p
unfolding unescape
unescape-escape [] = refl
unescape-escape (c ∷ p) = ap (λ s. c ∷ s) (unescape-escape p)
