-- ===== src/Shared/Maps.antt =====
-- Go maps as association lists: a write replaces the entry of its key or adds one at the end.

use mathlib.Core.Path.{◌≡◌, refl}
use mathlib.Core.Bool.{Bool, true, false, not, ◌&&◌, ◌||◌}
use mathlib.Core.List.{List, [], ◌∷◌}
use mathlib.Core.Option.{Option, none, some}
use mathlib.Core.Logic.{inl, inr}
use native.Mathlib.Omega.{arith}
use archiver.Shared.Tests.{if◌then◌else◌, Eq, ◌==◌, ==_refl, ==→eq, ==_comm, ==_apart, Bool-cases}

module _ {ℓ κ} {K : Type ℓ} {V : Type κ} ⦃e : Eq K⦄ where
  abbrev pub lookup : K → List (K × V) → Option V
  lookup k [] = none
  lookup k ((j, v) ∷ m) = if j == k then some v else lookup k m

  abbrev pub insert : K → V → List (K × V) → List (K × V)
  insert k v [] = (k, v) ∷ []
  insert k v ((j, w) ∷ m) = if j == k then (k, v) ∷ m else (j, w) ∷ insert k v m

  abbrev pub erase : K → List (K × V) → List (K × V)
  erase k [] = []
  erase k ((j, w) ∷ m) = let rest = erase k m in if j == k then rest else (j, w) ∷ rest

  abbrev pub has_key : K → List (K × V) → Bool
  has_key k [] = false
  has_key k ((j, v) ∷ m) = j == k || has_key k m

  abbrev pub unique_keys : List (K × V) → Bool
  unique_keys [] = true
  unique_keys ((j, v) ∷ m) = not (has_key j m) && unique_keys m

module _ {ℓ κ} {K : Type ℓ} {V : Type κ} ⦃e : Eq K⦄ where
  pub lookup-insert :
      (k j : K) (v : V) (m : List (K × V))
      → lookup j (insert k v m) ≡ (if k == j then some v else lookup j m)
  lookup-insert k j v [] = refl
  lookup-insert k j v ((i, w) ∷ m) = elim (Bool-cases (i == k)) [
    | inl same ↦ rw (==→eq i k same, ==_refl k) (ground arith)
    | inr other ↦ elim (Bool-cases (i == j)) [
      | inl there ↦ rw (other, there, ==_apart i k j other there)
      | inr away ↦ rw (other, away) (lookup-insert k j v m)
    ]
  ]

  pub lookup-insert_self : (k : K) (v : V) (m : List (K × V)) → lookup k (insert k v m) ≡ some v
  lookup-insert_self k v m = rw (lookup-insert k k v m, ==_refl k)

  pub lookup-erase :
      (k j : K) (m : List (K × V)) → lookup j (erase k m) ≡ (if k == j then none else lookup j m)
  lookup-erase k j [] = ground arith
  lookup-erase k j ((i, w) ∷ m) = elim (Bool-cases (i == k)) [
    | inl same ↦ rw (==→eq i k same, ==_refl k) (ground (arith, lookup-erase k j m))
    | inr other ↦ elim (Bool-cases (i == j)) [
      | inl there ↦ rw (other, there, ==_apart i k j other there)
      | inr away ↦ rw (other, away) (lookup-erase k j m)
    ]
  ]

  pub lookup-has_key : (k : K) (m : List (K × V)) → has_key k m ≡ false → lookup k m ≡ none
  lookup-has_key k [] h = refl
  lookup-has_key k ((j, v) ∷ m) h = ground (arith, lookup-has_key k m)

  pub has_key-insert :
      (j k : K) (v : V) (m : List (K × V)) → has_key j (insert k v m) ≡ (k == j || has_key j m)
  has_key-insert j k v [] = refl
  has_key-insert j k v ((i, w) ∷ m) = elim (Bool-cases (i == k)) [
    | inl same ↦ rw (==→eq i k same, ==_refl k) (ground arith)
    | inr other ↦ rw other (ground (arith, has_key-insert j k v m))
  ]

  pub unique_keys-insert :
      (k : K) (v : V) (m : List (K × V)) → unique_keys m ≡ true → unique_keys (insert k v m) ≡ true
  unique_keys-insert k v [] h = refl
  unique_keys-insert k v ((i, w) ∷ m) h = elim (Bool-cases (i == k)) [
    | inl same ↦ rw same (rw (==→eq i k same) at h)
    | inr other ↦
        rw other (ground (arith, has_key-insert i k v m, unique_keys-insert k v m, ==_comm k i))
  ]
