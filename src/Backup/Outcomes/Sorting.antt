-- ===== src/Backup/Outcomes/Sorting.antt =====
-- Sorted uploads (internal/pipeline/backup.go, `uploadSpike`).
use archiver.Shared.{
  Bool, List, [], all_of, all_of_imp, ap, arith, if◌then◌else◌, leb, length, refl, suc, true, zero,
  ℕ, ◌&&◌, ◌<◌, ◌∙◌, ◌∷◌, ◌≡◌, ◌≤◌, nat_eq, bytes_eq, int_eq,
}
use archiver.Backup.Outcomes.{insert_upload, sort_uploads, upload_at}

abbrev pub count : (ℕ → Bool) → List ℕ → ℕ
count p [] = 0
count p (x ∷ xs) = let rest = count p xs in if p x then suc rest else rest

unfoldable pub is_sorted : List ℕ → Bool
is_sorted [] = true
is_sorted (x ∷ xs) = all_of (leb x) xs && is_sorted xs

count-insert_upload :
    (p : ℕ → Bool) (n : ℕ) (xs : List ℕ) → count p (insert_upload n xs) ≡ count p (n ∷ xs)
unfolding insert_upload
count-insert_upload p n [] = refl
count-insert_upload p n (x ∷ xs) = ground (arith, count-insert_upload p n xs)

pub count-sort_uploads : (p : ℕ → Bool) (xs : List ℕ) → count p (sort_uploads xs) ≡ count p xs
unfolding sort_uploads
count-sort_uploads p [] = refl
count-sort_uploads p (x ∷ xs) =
    count-insert_upload p x (sort_uploads xs) ∙ rw (count-sort_uploads p xs) refl

length-insert_upload : (n : ℕ) (xs : List ℕ) → length (insert_upload n xs) ≡ suc (length xs)
unfolding insert_upload
length-insert_upload n [] = refl
length-insert_upload n (x ∷ xs) = ground (arith, length-insert_upload n xs)

pub length-sort_uploads : (xs : List ℕ) → length (sort_uploads xs) ≡ length xs
unfolding sort_uploads
length-sort_uploads [] = refl
length-sort_uploads (x ∷ xs) =
    length-insert_upload x (sort_uploads xs) ∙ ap suc (length-sort_uploads xs)

all_of-insert_upload :
    (p : ℕ → Bool) (n : ℕ) (xs : List ℕ) → all_of p (insert_upload n xs) ≡ (p n && all_of p xs)
unfolding insert_upload
all_of-insert_upload p n [] = refl
all_of-insert_upload p n (x ∷ xs) = ground (arith, all_of-insert_upload p n xs)

is_sorted-insert_upload :
    (n : ℕ) (xs : List ℕ) → is_sorted xs ≡ true → is_sorted (insert_upload n xs) ≡ true
unfolding insert_upload is_sorted
is_sorted-insert_upload n [] h = refl
is_sorted-insert_upload n (x ∷ xs) h = ground (
  arith,
  all_of-insert_upload (leb x) n xs,
  is_sorted-insert_upload n xs,
  all_of_imp (leb x) (leb n) xs,
)

pub is_sorted-sort_uploads : (xs : List ℕ) → is_sorted (sort_uploads xs) ≡ true
unfolding sort_uploads is_sorted
is_sorted-sort_uploads [] = refl
is_sorted-sort_uploads (x ∷ xs) =
    is_sorted-insert_upload x (sort_uploads xs) (is_sorted-sort_uploads xs)

all_of-upload_at :
    (n k : ℕ) (xs : List ℕ) → all_of (leb n) xs ≡ true → k < length xs → n ≤ upload_at k xs
unfolding upload_at
all_of-upload_at n k [] h inside = absurd (omega (arith, inside))
all_of-upload_at n zero (x ∷ xs) h inside = ground arith
all_of-upload_at n (suc k) (x ∷ xs) h inside = ground (arith, all_of-upload_at n k xs)

pub upload_at_mono :
    (j k : ℕ) (xs : List ℕ)
    → is_sorted xs ≡ true
    → j ≤ k
    → k < length xs
    → upload_at j xs ≤ upload_at k xs
unfolding upload_at is_sorted
upload_at_mono j k [] h le inside = absurd (omega (arith, inside))
upload_at_mono zero zero (x ∷ xs) h le inside = omega arith
upload_at_mono zero (suc k) (x ∷ xs) h le inside = ground (arith, all_of-upload_at x k xs)
upload_at_mono (suc j) zero (x ∷ xs) h le inside = absurd (omega (arith, le))
upload_at_mono (suc j) (suc k) (x ∷ xs) h le inside = ground (arith, upload_at_mono j k xs)

-- In a sorted list, an element and those before it are at most that element.
pub count-upload_at :
    (k : ℕ) (xs : List ℕ)
    → is_sorted xs ≡ true
    → k < length xs
    → k < count (λ n. leb n (upload_at k xs)) xs
unfolding upload_at is_sorted
count-upload_at k [] h inside = absurd (omega (arith, inside))
count-upload_at zero (x ∷ xs) h inside = ground arith
count-upload_at (suc k) (x ∷ xs) h inside =
    ground (arith, all_of-upload_at x k xs, count-upload_at k xs)

pub count_mono :
    (p q : ℕ → Bool) (xs : List ℕ) → ((n : ℕ) → p n ≡ true → q n ≡ true) → count p xs ≤ count q xs
count_mono p q [] imp = omega arith
count_mono p q (x ∷ xs) imp = ground (arith, imp x, count_mono p q xs imp)
