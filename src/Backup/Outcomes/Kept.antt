-- ===== src/Backup/Outcomes/Kept.antt =====
-- Which uploads a service's record keeps (internal/pipeline/backup.go: `record`).
use archiver.Shared.{
  Bool, Bool-cases, Bytes, List, Option, [], ap, append-nil, append_assoc, arith, if◌then◌else◌,
  inl, inr, length, length-append, refl, suc, sym, zero, ℕ, ◌&&◌, ◌++◌, ◌+◌, ◌-◌, ◌==◌, ◌∙◌, ◌∷◌,
  ◌≡◌, ◌≤◌, nat_eq, bytes_eq, int_eq,
}
use archiver.Backup.{is_success}
use archiver.Backup.Outcomes.Records.{
  recorded_state, record_in, record_in-recorded_state, recent-outcome_on,
}
use archiver.Backup.Outcomes.{BackupState, drop, last_uploads, Outcome, record_all}

module _ {ℓ} {A : Type ℓ} where
  drop-append : (n : ℕ) (xs ys : List A) → n ≤ length xs → drop n (xs ++ ys) ≡ drop n xs ++ ys
  unfolding drop
  drop-append zero xs ys h = refl
  drop-append (suc n) [] ys h = absurd (omega (arith, h))
  drop-append (suc n) (x ∷ xs) ys h = drop-append n xs ys (omega (arith, h))

  drop-nil : (n : ℕ) → drop {A = A} n [] ≡ []
  unfolding drop
  drop-nil zero = refl
  drop-nil (suc n) = refl

  drop-drop : (m n : ℕ) (xs : List A) → drop m (drop n xs) ≡ drop (n + m) xs
  unfolding drop
  drop-drop m zero xs = ap (λ k. drop k xs) (omega arith)
  drop-drop m (suc n) [] = drop-nil m ∙ sym (drop-nil (suc n + m))
  drop-drop m (suc n) (x ∷ xs) =
      drop-drop m n xs ∙ ap (λ k. drop k (x ∷ xs)) {x = suc (n + m)} (omega arith)

  length-drop : (n : ℕ) (xs : List A) → length (drop n xs) ≡ length xs - n
  unfolding drop
  length-drop zero xs = omega arith
  length-drop (suc n) [] = omega arith
  length-drop (suc n) (x ∷ xs) = omega (arith, length-drop n xs)

-- Keeping the last uploads before more are added loses none of the last.
last_uploads-append :
    (xs ys : List ℕ) → last_uploads (last_uploads xs ++ ys) ≡ last_uploads (xs ++ ys)
unfolding last_uploads
last_uploads-append xs ys =
    ap (drop _) (sym (drop-append (length xs - 7) xs ys (omega arith)))
    ∙ drop-drop _ (length xs - 7) (xs ++ ys)
    ∙ ap (λ k. drop k (xs ++ ys))
        (omega (
          arith,
          length-append (drop (length xs - 7) xs) ys,
          length-drop (length xs - 7) xs,
          length-append xs ys,
        ))

-- The uploads of a directory's successful backups that were recorded.
abbrev pub uploads : Bytes → List Outcome → List ℕ
uploads d [] = []
uploads d (o ∷ os) =
    let rest = uploads d os in
    if o.writes && (o.dir == d && is_success o.result) then o.stats.bytes ∷ rest else rest

-- What is kept of a directory's uploads in a state on disk.
abbrev pub kept : Bytes → Option BackupState → List ℕ
kept d disk = (record_in d disk).recent

adds : Outcome → Bytes → Bool
adds o d = o.writes && (o.dir == d && is_success o.result)

kept-recorded_state :
    (o : Outcome) (d : Bytes) (disk : Option BackupState)
    → kept d (recorded_state o disk)
      ≡ (if adds o d then last_uploads (kept d disk ++ o.stats.bytes ∷ []) else kept d disk)
unfolding adds
kept-recorded_state o d disk =
    ap (λ r. r.recent) (record_in-recorded_state o d disk)
    ∙ ground (arith, recent-outcome_on o (record_in d disk))

-- One outcome adds its upload, if it has one.
last_uploads-recorded_state :
    (o : Outcome) (os : List Outcome) (d : Bytes) (disk : Option BackupState)
    → last_uploads (kept d (recorded_state o disk) ++ uploads d os)
      ≡ last_uploads (kept d disk ++ uploads d (o ∷ os))
unfolding adds
last_uploads-recorded_state o os d disk =
    ap (λ k. last_uploads (k ++ uploads d os)) (kept-recorded_state o d disk)
    ∙ elim (Bool-cases (adds o d)) [
      | inr nothing ↦ rw nothing refl
      | inl upload ↦ rw upload (
          last_uploads-append (kept d disk ++ o.stats.bytes ∷ []) (uploads d os)
          ∙ ap last_uploads (append_assoc (kept d disk) (o.stats.bytes ∷ []) (uploads d os)))
    ]

last_uploads-record_all :
    (os : List Outcome) (d : Bytes) (disk : Option BackupState)
    → last_uploads (kept d (record_all os disk)) ≡ last_uploads (kept d disk ++ uploads d os)
unfolding record_all
last_uploads-record_all [] d disk = ap last_uploads (sym (append-nil (kept d disk)))
last_uploads-record_all (o ∷ os) d disk =
    last_uploads-record_all os d (recorded_state o disk) ∙ last_uploads-recorded_state o os d disk

last_uploads-short : (xs : List ℕ) → length xs ≤ 7 → last_uploads xs ≡ xs
unfolding last_uploads drop
last_uploads-short xs h = ap (λ k. drop k xs) {x = length xs - 7} {y = 0} (omega (arith, h))

length-last_uploads : (xs : List ℕ) → length (last_uploads xs) ≤ 7
unfolding last_uploads
length-last_uploads xs = omega (arith, length-drop (length xs - 7) xs)

length-recorded_state :
    (o : Outcome) (d : Bytes) (disk : Option BackupState)
    → length (kept d disk) ≤ 7
    → length (kept d (recorded_state o disk)) ≤ 7
length-recorded_state o d disk h = rw (kept-recorded_state o d disk) (elim (Bool-cases (adds o d)) [
  | inr nothing ↦ rw nothing h
  | inl upload ↦ rw upload (length-last_uploads (kept d disk ++ o.stats.bytes ∷ []))
])

length-record_all :
    (os : List Outcome) (d : Bytes) (disk : Option BackupState)
    → length (kept d disk) ≤ 7
    → length (kept d (record_all os disk)) ≤ 7
unfolding record_all
length-record_all [] d disk h = h
length-record_all (o ∷ os) d disk h =
    length-record_all os d (recorded_state o disk) (length-recorded_state o d disk h)

-- After any outcomes of any directories, the record of a directory that kept at most seven uploads
-- keeps the last seven of these and of those of its successful backups since that could be
-- recorded, in order.
pub kept-record_all :
    (os : List Outcome) (d : Bytes) (disk : Option BackupState)
    → length (kept d disk) ≤ 7
    → kept d (record_all os disk) ≡ last_uploads (kept d disk ++ uploads d os)
kept-record_all os d disk h =
    sym (last_uploads-short (kept d (record_all os disk)) (length-record_all os d disk h))
    ∙ last_uploads-record_all os d disk
