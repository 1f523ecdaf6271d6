-- ===== src/Copier/Reading/Protects.antt =====
-- What a worker's registration protects: every revision its copy reads, those that local gains
-- after the listing included.
use archiver.Shared.{
  ==_refl, ==→eq, Bool, Bool-cases, Bytes, InRange, List, Option, Option-cases, [], all_of, any_of,
  any_of-append, ap, arith, false, has_key, has_key-insert, inc64, inl, inr, keep, leb_ℤ,
  lookup-has_key, ltb_ℤ, negsuc, none, pos, refl, some, true, ℤ, ◌&&◌, ◌++◌, ◌<ℤ◌, ◌==◌, ◌||◌, ◌∙◌,
  ◌∷◌, ◌≡◌, ◌⊎◌, nat_eq, bytes_eq, int_eq,
}
use archiver.Copier.Reading.{
  Newest, newest_of, parse_key, note_key, listed_from, listed_newest, of_keys, past_newest,
  revisions, lacking,
}
use archiver.Inuse.{Revision, covers, holding_has, any_id}

abbrev pub is_key : Bytes → ℤ → Option (Bytes × ℤ) → Bool
is_key id n none = false
is_key id n (some (j, m)) = j == id && m == n

-- Whether one of the keys is revision `n` of `id`.
abbrev pub named : Bytes → ℤ → List Bytes → Bool
named id n keys = any_of (λ k. is_key id n (parse_key k)) keys

abbrev has_id : Bytes → Option (Bytes × ℤ) → Bool
has_id id none = false
has_id id (some (j, m)) = j == id

-- Whether a key is malformed or names a revision of 1 or more, as Duplicacy numbers them.
abbrev pub is_numbered : Option (Bytes × ℤ) → Bool
is_numbered none = true
is_numbered (some (j, m)) = ltb_ℤ (pos 0) m

of_keys-covers :
    (storage id : Bytes) (n : ℤ) (keys : List Bytes)
    → named id n keys ≡ true
    → any_of (λ r. r.id == id && covers r n) (of_keys storage keys) ≡ true
unfolding of_keys covers
of_keys-covers storage id n [] h = h
of_keys-covers storage id n (k ∷ ks) h = elim (Option-cases (parse_key k)) [
  | inl bad ↦ rw bad (of_keys-covers storage id n ks (rw bad at h))
  | inr ((j, m), ok) ↦
      let h' = rw ok at h in rw ok (ground (arith, h', of_keys-covers storage id n ks))
]

inc64_le : (m n : ℤ) → m <ℤ n → InRange n → leb_ℤ (inc64 m) n ≡ true
inc64_le (pos m) n lt r = ground arith
inc64_le (negsuc m) n lt r = ground arith

past_newest-covers :
    (storage id : Bytes) (n : ℤ) (newest : Newest)
    → InRange n
    → has_key id newest ≡ true
    → newest_of id newest <ℤ n
    → any_of (λ r. r.id == id && covers r n) (past_newest storage newest) ≡ true
unfolding past_newest covers
past_newest-covers storage id n [] r h lt = cc
past_newest-covers storage id n ((j, m) ∷ rest) r h lt = elim (Bool-cases (j == id)) [
  | inl same ↦
      let lt' : m <ℤ n = rw (newest_of, same) at lt in rw same (ground (arith, inc64_le m n lt' r))
  | inr other ↦
      let lt' : newest_of id rest <ℤ n = rw (newest_of, other) at lt in
      rw other (past_newest-covers storage id n rest r (rw other at h) lt')
]

any_id-past_newest :
    (storage id : Bytes) (newest : Newest)
    → any_of (λ r. r.id == id) (past_newest storage newest) ≡ has_key id newest
unfolding past_newest
any_id-past_newest storage id [] = refl
any_id-past_newest storage id ((j, m) ∷ rest) =
    ap (λ b. j == id || b) (any_id-past_newest storage id rest)

any_id-of_keys :
    (storage id : Bytes) (keys : List Bytes)
    → any_of (λ r. r.id == id) (of_keys storage keys) ≡ any_of (λ k. has_id id (parse_key k)) keys
unfolding of_keys
any_id-of_keys storage id [] = refl
any_id-of_keys storage id (k ∷ ks) = elim (Option-cases (parse_key k)) [
  | inl bad ↦ rw bad (any_id-of_keys storage id ks)
  | inr ((j, m), ok) ↦ rw ok (ap (λ b. j == id || b) (any_id-of_keys storage id ks))
]

kept_key :
    (id j : Bytes) (n : ℤ) (m : Newest)
    → ltb_ℤ (pos 0) n ≡ true
    → (j == id || has_key id m) ≡ true
    → ltb_ℤ (newest_of j m) n ≡ false
    → has_key id m ≡ true
kept_key id j n m p h old = elim (Bool-cases (has_key j m)) [
  | inl there ↦ elim (Bool-cases (j == id)) [
    | inl same ↦ rw (← ==→eq j id same) there
    | inr other ↦ rw other at h
  ]
  | inr missing ↦ let old' = rw (newest_of, lookup-has_key j m missing) at old in cc
]

has_key-note_key :
    (id : Bytes) (o : Option (Bytes × ℤ)) (m : Newest)
    → is_numbered o ≡ true
    → (has_id id o || has_key id m) ≡ true
    → has_key id (note_key o m) ≡ true
unfolding note_key
has_key-note_key id none m p h = h
has_key-note_key id (some (j, n)) m p h = elim (Bool-cases (ltb_ℤ (newest_of j m) n)) [
  | inl later ↦ rw (later, has_key-insert id j n m) h
  | inr old ↦ rw old (kept_key id j n m p h old)
]

has_key-listed_from :
    (id : Bytes) (ks : List Bytes) (m : Newest)
    → all_of (λ k. is_numbered (parse_key k)) ks ≡ true
    → (any_of (λ k. has_id id (parse_key k)) ks || has_key id m) ≡ true
    → has_key id (listed_from m ks) ≡ true
unfolding listed_from
has_key-listed_from id [] m p h = h
has_key-listed_from id (k ∷ ks) m p h =
    has_key-listed_from id ks (note_key (parse_key k) m) (ground arith)
      (ground (arith, has_key-note_key id (parse_key k) m))

any_of-keep {ℓ} :
    {A : Type ℓ} (p q : A → Bool) (xs : List A) → any_of p xs ≡ false → any_of p (keep q xs) ≡ false
any_of-keep p q [] h = refl
any_of-keep p q (x ∷ xs) h = ground (arith, any_of-keep p q xs)

not_listed :
    (id : Bytes) (local : List Bytes)
    → all_of (λ k. is_numbered (parse_key k)) local ≡ true
    → has_key id (listed_newest local) ≡ false
    → any_of (λ k. has_id id (parse_key k)) local ≡ false
unfolding listed_newest
not_listed id local p missing = elim (Bool-cases (any_of (λ k. has_id id (parse_key k)) local)) [
  | inl listed ↦ cc (has_key-listed_from id local [] p (ground (arith, listed)))
  | inr absent ↦ absent
]

abbrev star : Bytes → Revision
star storage = record { storage = storage; id = any_id; rev = pos 1; and_newer = true }

star-covers : (storage : Bytes) (n : ℤ) → pos 0 <ℤ n → covers (star storage) n ≡ true
unfolding covers
star-covers storage n h = ground arith

lacking_id :
    (id : Bytes) (local target : List Bytes)
    → any_of (λ k. has_id id (parse_key k)) local ≡ false
    → any_of (λ k. has_id id (parse_key k)) (lacking local target) ≡ false
unfolding lacking
lacking_id id local target h = any_of-keep _ _ local h

-- A test that one of the first two parts of a registration passes.
holding_has_first :
    (id : Bytes) (n : ℤ) (xs ys zs : List Revision)
    → (any_of (λ r. r.id == id && covers r n) xs || any_of (λ r. r.id == id && covers r n) ys)
      ≡ true
    → holding_has (xs ++ (ys ++ zs)) id n ≡ true
unfolding holding_has
holding_has_first id n xs ys zs h =
    rw
      (
        any_of-append (λ r. r.id == id && covers r n) xs (ys ++ zs),
        any_of-append (λ r. r.id == id && covers r n) ys zs,
      )
      (ground arith)

holding_has-star :
    (id storage : Bytes) (n : ℤ) (xs ys : List Revision)
    → pos 0 <ℤ n
    → any_of (λ r. r.id == id) xs ≡ false
    → any_of (λ r. r.id == id) ys ≡ false
    → holding_has (xs ++ (ys ++ star storage ∷ [])) id n ≡ true
unfolding holding_has
holding_has-star id storage n xs ys p hx hy =
    rw
      (
        any_of-append (λ r. r.id == id && covers r n) xs (ys ++ star storage ∷ []),
        any_of-append (λ r. r.id == id && covers r n) ys (star storage ∷ []),
        any_of-append (λ r. r.id == id) xs (ys ++ star storage ∷ []),
        any_of-append (λ r. r.id == id) ys (star storage ∷ []),
        any_of-append (λ r. r.id == any_id && covers r n) xs (ys ++ star storage ∷ []),
        any_of-append (λ r. r.id == any_id && covers r n) ys (star storage ∷ []),
        hx,
        hy,
      )
      (ground (arith, star-covers storage n p, ==_refl any_id))

-- A worker's registration holds every revision that its copy may read: what the target lacks, and
-- whatever is newer than the newest listed of its ID (0 for an ID that was not listed).
pub revisions-protects :
    (storage : Bytes) (local target : List Bytes) (id : Bytes) (n : ℤ)
    → all_of (λ k. is_numbered (parse_key k)) local ≡ true
    → pos 0 <ℤ n
    → InRange n
    → (named id n (lacking local target) ≡ true) ⊎ (newest_of id (listed_newest local) <ℤ n)
    → holding_has (revisions storage (listed_newest local) (lacking local target)) id n ≡ true
unfolding revisions
revisions-protects storage local target id n p h r (inl lacks) =
    holding_has_first id n (of_keys storage (lacking local target))
      (past_newest storage (listed_newest local)) _
      (rw (of_keys-covers storage id n (lacking local target) lacks))
revisions-protects storage local target id n p h r (inr newer) =
    elim (Bool-cases (has_key id (listed_newest local))) [
      | inl listed ↦
          holding_has_first id n (of_keys storage (lacking local target))
            (past_newest storage (listed_newest local)) _
            (rw (past_newest-covers storage id n (listed_newest local) r listed newer)
              (ground arith))
      | inr missing ↦
          holding_has-star id storage n (of_keys storage (lacking local target))
            (past_newest storage (listed_newest local)) h
            (any_id-of_keys storage id (lacking local target)
              ∙ lacking_id id local target (not_listed id local p missing))
            (any_id-past_newest storage id (listed_newest local) ∙ missing)
    ]
