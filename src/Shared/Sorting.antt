-- ===== src/Shared/Sorting.antt =====
-- sort.Ints: the sorted list of the same integers, its length, members and last element.

use mathlib.Core.Path.{◌≡◌, refl, ap, ◌∙◌}
use mathlib.Core.Bool.{Bool, true, ◌||◌}
use mathlib.Core.List.{List, [], ◌∷◌}
use mathlib.Core.Logic.{inl, inr, ◌≢◌}
use native.Mathlib.Omega.{arith}
use archiver.Shared.Tests.{if◌then◌else◌, ◌==◌, Bool-cases}
use archiver.Shared.Int.{ℤ, ◌≤ℤ◌, ltb_ℤ, leb_ℤ, int_eq}
use archiver.Shared.Lists.{length, keep, any_of, contains, get_last_or, All}

unfoldable pub insert_int : ℤ → List ℤ → List ℤ
insert_int n [] = n ∷ []
insert_int n (m ∷ ms) = if leb_ℤ n m then n ∷ m ∷ ms else m ∷ insert_int n ms

unfoldable pub sort_ints : List ℤ → List ℤ
unfolding insert_int
sort_ints [] = []
sort_ints (n ∷ ns) = insert_int n (sort_ints ns)

abbrev pub IsSorted : List ℤ → Type 0
IsSorted [] = Unit
IsSorted (x ∷ xs) = All (λ y. x ≤ℤ y) xs × IsSorted xs

All-insert_int :
    (b n : ℤ) (ms : List ℤ) → b ≤ℤ n → All (λ y. b ≤ℤ y) ms → All (λ y. b ≤ℤ y) (insert_int n ms)
unfolding insert_int
All-insert_int b n [] h hs = (h, tt)
All-insert_int b n (m ∷ ms) h hs = elim (Bool-cases (leb_ℤ n m)) [
  | inl le ↦ rw le (h, hs)
  | inr gt ↦ rw gt (hs.0, All-insert_int b n ms h hs.1)
]

All-below : (b c : ℤ) (ms : List ℤ) → b ≤ℤ c → All (λ y. c ≤ℤ y) ms → All (λ y. b ≤ℤ y) ms
All-below b c [] h hs = tt
All-below b c (m ∷ ms) h hs = (omega arith, All-below b c ms h hs.1)

insert_int-IsSorted : (n : ℤ) (ms : List ℤ) → IsSorted ms → IsSorted (insert_int n ms)
unfolding insert_int
insert_int-IsSorted n [] h = (tt, tt)
insert_int-IsSorted n (m ∷ ms) h = elim (Bool-cases (leb_ℤ n m)) [
  | inl le ↦ rw le ((ground arith, All-below n m ms (ground arith) h.0), h)
  | inr gt ↦ rw gt (All-insert_int m n ms (ground arith) h.0, insert_int-IsSorted n ms h.1)
]

pub sort_ints-IsSorted : (ns : List ℤ) → IsSorted (sort_ints ns)
unfolding sort_ints
sort_ints-IsSorted [] = tt
sort_ints-IsSorted (n ∷ ns) = insert_int-IsSorted n (sort_ints ns) (sort_ints-IsSorted ns)

any_of-insert_int :
    (p : ℤ → Bool) (n : ℤ) (ms : List ℤ) → any_of p (insert_int n ms) ≡ (p n || any_of p ms)
unfolding insert_int
any_of-insert_int p n [] = refl
any_of-insert_int p n (m ∷ ms) = ground (arith, any_of-insert_int p n ms)

pub any_of-sort_ints : (p : ℤ → Bool) (ns : List ℤ) → any_of p (sort_ints ns) ≡ any_of p ns
unfolding sort_ints
any_of-sort_ints p [] = refl
any_of-sort_ints p (n ∷ ns) =
    any_of-insert_int p n (sort_ints ns) ∙ ap (λ b. p n || b) (any_of-sort_ints p ns)

contains-any_of : (xs : List ℤ) (a : ℤ) → contains xs a ≡ any_of (λ x. x == a) xs
contains-any_of [] a = refl
contains-any_of (x ∷ xs) a = ap (λ b. x == a || b) (contains-any_of xs a)

pub contains-sort_ints : (ns : List ℤ) (a : ℤ) → contains (sort_ints ns) a ≡ contains ns a
contains-sort_ints ns a =
    rw (contains-any_of (sort_ints ns) a, contains-any_of ns a) (any_of-sort_ints _ ns)

length-keep-insert_int :
    (p : ℤ → Bool) (n : ℤ) (ms : List ℤ)
    → length (keep p (insert_int n ms)) ≡ length (keep p (n ∷ ms))
unfolding insert_int
length-keep-insert_int p n [] = refl
length-keep-insert_int p n (m ∷ ms) = ground (arith, length-keep-insert_int p n ms)

pub length-keep-sort_ints :
    (p : ℤ → Bool) (ns : List ℤ) → length (keep p (sort_ints ns)) ≡ length (keep p ns)
unfolding sort_ints
length-keep-sort_ints p [] = refl
length-keep-sort_ints p (n ∷ ns) =
    length-keep-insert_int p n (sort_ints ns) ∙ ground (arith, length-keep-sort_ints p ns)

keep_all {ℓ} : {A : Type ℓ} (xs : List A) → keep (λ _. true) xs ≡ xs
keep_all [] = refl
keep_all (x ∷ xs) = ap (λ r. x ∷ r) (keep_all xs)

pub length-sort_ints : (ns : List ℤ) → length (sort_ints ns) ≡ length ns
length-sort_ints ns =
    let h = length-keep-sort_ints (λ _. true) ns in
    rw keep_all at (rw (keep_all (sort_ints ns)) at h)

last_above :
    (x : ℤ) (xs : List ℤ) (r : ℤ)
    → IsSorted (x ∷ xs)
    → any_of (λ y. ltb_ℤ r y) (x ∷ xs) ≡ ltb_ℤ r (get_last_or xs x)
last_above x [] r h = ground arith
last_above x (y ∷ ys) r h = ground (arith, last_above y ys r h.1)

-- The last of a sorted list is its largest: an integer is below some element exactly if it is below
-- the last.
pub any_above_last :
    (xs : List ℤ) (r d : ℤ)
    → IsSorted xs
    → xs ≢ []
    → any_of (λ y. ltb_ℤ r y) xs ≡ ltb_ℤ r (get_last_or xs d)
any_above_last [] r d h n = absurd (n refl)
any_above_last (x ∷ xs) r d h n = last_above x xs r h

last_ge :
    (x : ℤ) (xs : List ℤ) (r : ℤ)
    → IsSorted (x ∷ xs)
    → contains (x ∷ xs) r ≡ true
    → r ≤ℤ get_last_or xs x
last_ge x [] r h m = ground arith
last_ge x (y ∷ ys) r h m = ground (arith, last_ge y ys r h.1, last_ge y ys y h.1)

pub le_last : (xs : List ℤ) (r d : ℤ) → IsSorted xs → contains xs r ≡ true → r ≤ℤ get_last_or xs d
le_last [] r d h m = cc
le_last (x ∷ xs) r d h m = last_ge x xs r h m

contains-last_from : (x : ℤ) (xs : List ℤ) → contains (x ∷ xs) (get_last_or xs x) ≡ true
contains-last_from x [] = ground arith
contains-last_from x (y ∷ ys) = ground (arith, contains-last_from y ys)

pub contains-last : (xs : List ℤ) (d : ℤ) → xs ≢ [] → contains xs (get_last_or xs d) ≡ true
contains-last [] d n = absurd (n refl)
contains-last (x ∷ xs) d n = contains-last_from x xs

pub sort_ints-ne-nil : (ns : List ℤ) → ns ≢ [] → sort_ints ns ≢ []
sort_ints-ne-nil [] n e = n refl
sort_ints-ne-nil (x ∷ xs) n e = absurd (omega (arith, ap length e, length-sort_ints (x ∷ xs)))
