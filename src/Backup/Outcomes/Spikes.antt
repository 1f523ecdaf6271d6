-- ===== src/Backup/Outcomes/Spikes.antt =====
-- When an upload is unusually large (internal/pipeline/backup.go, `uploadSpike`).
use archiver.Shared.{
  Bool, List, [], all_of, arith, false, leb, leb→le, length, ltb, not, refl, suc, true, zero, ℕ,
  ◌%◌, ◌&&◌, ◌*◌, ◌+◌, ◌-◌, ◌/◌, ◌<◌, ◌^◌, ◌||◌, ◌∷◌, ◌≡◌, ◌≤◌, nat_eq, bytes_eq, int_eq,
}
use archiver.Backup.Outcomes.{
  insert_upload, half_int64, leb_int64, sort_uploads, upload_at, median, upload_spike,
}
use archiver.Backup.Outcomes.Sorting.{
  count, is_sorted, count-sort_uploads, length-sort_uploads, is_sorted-sort_uploads, upload_at_mono,
  count-upload_at, count_mono,
}

-- Uploads whose arithmetic stays in an int64: below 2 EiB.
abbrev pub is_moderate : ℕ → Bool
is_moderate n = ltb n (2 ^ 61)

insert_upload-moderate :
    (n : ℕ) (xs : List ℕ)
    → is_moderate n ≡ true
    → all_of is_moderate xs ≡ true
    → all_of is_moderate (insert_upload n xs) ≡ true
unfolding insert_upload
insert_upload-moderate n [] h hs = ground (arith, h)
insert_upload-moderate n (x ∷ xs) h hs = ground (arith, h, hs, insert_upload-moderate n xs)

sort_uploads-moderate :
    (xs : List ℕ) → all_of is_moderate xs ≡ true → all_of is_moderate (sort_uploads xs) ≡ true
unfolding sort_uploads
sort_uploads-moderate [] h = refl
sort_uploads-moderate (x ∷ xs) h =
    insert_upload-moderate x (sort_uploads xs) (ground arith)
      (sort_uploads-moderate xs (ground arith))

upload_at-moderate : (k : ℕ) (xs : List ℕ) → all_of is_moderate xs ≡ true → upload_at k xs < 2 ^ 61
unfolding upload_at
upload_at-moderate k [] h = omega arith
upload_at-moderate zero (x ∷ xs) h = ground arith
upload_at-moderate (suc k) (x ∷ xs) h = upload_at-moderate k xs (ground arith)

half_moderate : (n : ℕ) → n < 2 ^ 62 → half_int64 (n % 2 ^ 64) ≡ n / 2
unfolding half_int64
half_moderate n h = ground (arith, h)

-- Within those bounds the median is that of the integers.
median_moderate :
    (xs : List ℕ)
    → all_of is_moderate xs ≡ true
    → (median xs
        ≡ (upload_at ((length (sort_uploads xs) - 1) / 2) (sort_uploads xs)
            + upload_at (length (sort_uploads xs) / 2) (sort_uploads xs))
          / 2)
      × (median xs < 2 ^ 61)
unfolding median
median_moderate xs h =
    let sorted = sort_uploads xs in
    let small = sort_uploads-moderate xs h in
    let low = upload_at-moderate ((length sorted - 1) / 2) sorted small in
    let high = upload_at-moderate (length sorted / 2) sorted small in
    let e =
      half_moderate
        (upload_at ((length sorted - 1) / 2) sorted + upload_at (length sorted / 2) sorted)
        (omega (arith, low, high)) in
    (e, omega (arith, e, low, high))

lower_middle : List ℕ → ℕ
lower_middle xs = upload_at ((length (sort_uploads xs) - 1) / 2) (sort_uploads xs)

median_over :
    (xs : List ℕ) → all_of is_moderate xs ≡ true → 0 < length xs → lower_middle xs ≤ median xs
unfolding lower_middle
median_over xs moderate kept = omega (
  arith,
  (median_moderate xs moderate).0,
  upload_at_mono ((length (sort_uploads xs) - 1) / 2) (length (sort_uploads xs) / 2)
      (sort_uploads xs) (is_sorted-sort_uploads xs) (omega arith)
      (omega (arith, kept, length-sort_uploads xs)),
)

-- Half of the uploads are at most the median.
count-median :
    (xs : List ℕ)
    → all_of is_moderate xs ≡ true
    → 0 < length xs
    → length xs ≤ 2 * count (λ n. leb n (median xs)) xs
unfolding lower_middle
count-median xs moderate kept = omega (
  arith,
  length-sort_uploads xs,
  count-upload_at ((length (sort_uploads xs) - 1) / 2) (sort_uploads xs) (is_sorted-sort_uploads xs)
      (omega (arith, kept, length-sort_uploads xs)),
  count_mono (λ n. leb n (lower_middle xs)) (λ n. leb n (median xs)) (sort_uploads xs)
      (λ n small. ground (arith, median_over xs moderate kept)),
  count-sort_uploads (λ n. leb n (median xs)) xs,
)

-- At most a quarter of an upload, and more than 20 GiB below it.
abbrev pub is_small : ℕ → ℕ → Bool
is_small uploaded n = leb (4 * n) uploaded && ltb (n + 20 * 2 ^ 30) uploaded

is_small_down : (uploaded m n : ℕ) → m ≤ n → is_small uploaded n ≡ true → is_small uploaded m ≡ true
is_small_down uploaded m n le h = ground arith

no_small_above :
    (uploaded n : ℕ) (xs : List ℕ)
    → is_small uploaded n ≡ false
    → all_of (leb n) xs ≡ true
    → count (is_small uploaded) xs ≡ 0
no_small_above uploaded n [] big h = refl
no_small_above uploaded n (x ∷ xs) big h =
    ground (arith, is_small_down uploaded n x, no_small_above uploaded n xs)

-- In a sorted list, the element after fewer elements than are small is small.
small-upload_at :
    (uploaded k : ℕ) (xs : List ℕ)
    → is_sorted xs ≡ true
    → k < count (is_small uploaded) xs
    → is_small uploaded (upload_at k xs) ≡ true
unfolding upload_at is_sorted
small-upload_at uploaded k [] h many = absurd (omega (arith, many))
small-upload_at uploaded zero (x ∷ xs) h many = ground (arith, no_small_above uploaded x xs)
small-upload_at uploaded (suc k) (x ∷ xs) h many = ground (arith, small-upload_at uploaded k xs)

upper_middle : List ℕ → ℕ
upper_middle xs = upload_at (length (sort_uploads xs) / 2) (sort_uploads xs)

median_under :
    (xs : List ℕ) → all_of is_moderate xs ≡ true → 0 < length xs → median xs ≤ upper_middle xs
unfolding upper_middle
median_under xs moderate kept = omega (
  arith,
  (median_moderate xs moderate).0,
  upload_at_mono ((length (sort_uploads xs) - 1) / 2) (length (sort_uploads xs) / 2)
      (sort_uploads xs) (is_sorted-sort_uploads xs) (omega arith)
      (omega (arith, kept, length-sort_uploads xs)),
)

-- The test of a spike, on integers.
spike_moderate :
    (m uploaded : ℕ)
    → m < 2 ^ 61
    → uploaded < 2 ^ 63
    → (leb_int64 (4 * m % 2 ^ 64) uploaded
        && not (leb_int64 ((uploaded + (2 ^ 64 - m)) % 2 ^ 64) (20 * 2 ^ 30)))
      ≡ is_small uploaded m
unfolding leb_int64
spike_moderate m uploaded hm hu = ground (arith, hm, hu)

upload_spike_test :
    (xs : List ℕ) (uploaded : ℕ)
    → all_of is_moderate xs ≡ true
    → uploaded < 2 ^ 63
    → (upload_spike xs uploaded).0 ≡ (leb 3 (length xs) && is_small uploaded (median xs))
unfolding upload_spike
upload_spike_test xs uploaded moderate small =
    ground (arith, spike_moderate (median xs) uploaded (median_moderate xs moderate).1 small)

half_small :
    (xs : List ℕ) (uploaded : ℕ)
    → all_of is_moderate xs ≡ true
    → 0 < length xs
    → is_small uploaded (median xs) ≡ true
    → length xs ≤ 2 * count (is_small uploaded) xs
half_small xs uploaded moderate kept h = omega (
  arith,
  count-median xs moderate kept,
  count_mono (λ n. leb n (median xs)) (is_small uploaded) xs
      (λ n small. is_small_down uploaded n (median xs) (leb→le n (median xs) small) h),
)

most_small :
    (xs : List ℕ) (uploaded : ℕ)
    → all_of is_moderate xs ≡ true
    → 0 < length xs
    → length xs / 2 < count (is_small uploaded) xs
    → is_small uploaded (median xs) ≡ true
unfolding upper_middle
most_small xs uploaded moderate kept many =
    is_small_down uploaded (median xs) (upper_middle xs) (median_under xs moderate kept) (
      small-upload_at uploaded (length (sort_uploads xs) / 2) (sort_uploads xs)
        (is_sorted-sort_uploads xs)
        (omega (arith, many, length-sort_uploads xs, count-sort_uploads (is_small uploaded) xs)))

-- Where every kept upload is below 2 EiB, and this one an int64: an upload counts as unusually large
-- only if at least three uploads are kept and at least half of those are small against it, at most a
-- quarter of it and more than 20 GiB below it; and it does if at least three are kept and more than
-- half of those are small against it.
pub upload_spike_lem :
    (xs : List ℕ) (uploaded : ℕ)
    → all_of is_moderate xs ≡ true
    → uploaded < 2 ^ 63
    → ((not (upload_spike xs uploaded).0
          || (leb 3 (length xs) && leb (length xs) (2 * count (is_small uploaded) xs)))
        ≡ true)
      × ((not (leb 3 (length xs) && ltb (length xs / 2) (count (is_small uploaded) xs))
            || (upload_spike xs uploaded).0)
          ≡ true)
upload_spike_lem xs uploaded moderate small = rw (upload_spike_test xs uploaded moderate small) (
  ground (arith, half_small xs uploaded moderate),
  ground (arith, most_small xs uploaded moderate),
)
