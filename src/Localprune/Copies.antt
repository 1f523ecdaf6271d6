-- ===== src/Localprune/Copies.antt =====
-- The two sides of the registry together: a local prune (internal/localprune) deletes nothing that a
-- copy worker's copy may read (internal/copier/worker.go, registered through internal/inuse).
use archiver.Shared.{
  All, All-append, Bool, Bool-cases, Bytes, InRange, IsWord, List, Option, Option-cases, [], all_of,
  ap, arith, atoi, atoi-InRange, bytes_beq_iff, false, has_prefix, inc64, inl, inr, insert, keep,
  ltb_ℤ, none, pos, refl, some, true, ℤ, ◌<ℤ◌, ◌==◌, ◌∷◌, ◌≡◌, ◌⊎◌, nat_eq, bytes_eq, int_eq,
}
use archiver.Copier.Reading.{
  of_keys, past_newest, revisions, lacking, listed_newest, newest_of, parse_key, Newest, note_key,
  listed_from, cut_first,
}
use archiver.Copier.Reading.Protects.{named, is_numbered, revisions-protects}
use archiver.Inuse.{Revision}
use archiver.Inuse.Format.{IsPlain}
use archiver.Inuse.Registry.{Registry, hold, read, has-read-hold}
use archiver.Localprune.Prune.{Options, Duplicacy, run}
use archiver.Localprune.Spares.{Leaves, run-Leaves}

-- The keys of a listing name words, as snapshot IDs are.
abbrev IsWordKey : Option (Bytes × ℤ) → Type 0
IsWordKey none = Unit
IsWordKey (some (id, n)) = IsWord id

abbrev pub HasWordIds : List Bytes → Type 0
HasWordIds keys = All (λ k. IsWordKey (parse_key k)) keys

storage_kept :
    (storage : Bytes) (rs : List Revision)
    → All (λ r. r.storage ≡ storage) rs
    → keep (λ r. r.storage == storage) rs ≡ rs
storage_kept storage [] h = refl
storage_kept storage (r ∷ rs) h =
    let same : (r.storage == storage) ≡ true = (bytes_beq_iff r.storage storage).1 h.0 in
    rw same (ap (λ l. r ∷ l) (storage_kept storage rs h.1))

of_keys-storage :
    (storage : Bytes) (keys : List Bytes) → All (λ r. r.storage ≡ storage) (of_keys storage keys)
unfolding of_keys
of_keys-storage storage [] = tt
of_keys-storage storage (k ∷ ks) = elim (Option-cases (parse_key k)) [
  | inl bad ↦ rw bad (of_keys-storage storage ks)
  | inr ((id, n), ok) ↦ rw ok (refl, of_keys-storage storage ks)
]

past_newest-storage :
    (storage : Bytes) (m : Newest) → All (λ r. r.storage ≡ storage) (past_newest storage m)
unfolding past_newest
past_newest-storage storage [] = tt
past_newest-storage storage ((id, n) ∷ m) = (refl, past_newest-storage storage m)

revisions-storage :
    (storage : Bytes) (newest : Newest) (keys : List Bytes)
    → All (λ r. r.storage ≡ storage) (revisions storage newest keys)
unfolding revisions
revisions-storage storage newest keys =
    All-append _ (of_keys storage keys) _ (of_keys-storage storage keys)
      (All-append _ (past_newest storage newest) _ (past_newest-storage storage newest) (refl, tt))

parse_key-InRange : (k : Bytes) (id : Bytes) (n : ℤ) → parse_key k ≡ some (id, n) → InRange n
unfolding parse_key
parse_key-InRange k id n h = elim (Option-cases (cut_first b':' k)) [
  | inl bad ↦ let h' = rw (bad, parse_key) at h in cc
  | inr ((j, digits), cut) ↦ elim (Option-cases (atoi digits)) [
    | inl bad ↦ let h' = rw (cut, bad, parse_key) at h in cc
    | inr (m, ok) ↦
        let h' = rw (cut, ok, parse_key) at h in
        let same : m ≡ n = ground (arith, h') in rw (← same) (atoi-InRange digits m ok)
  ]
]

of_keys-IsPlain :
    (storage : Bytes) (keys : List Bytes)
    → IsWord storage
    → HasWordIds keys
    → All IsPlain (of_keys storage keys)
unfolding of_keys
of_keys-IsPlain storage [] w ids = tt
of_keys-IsPlain storage (k ∷ ks) w (word, ids) = elim (Option-cases (parse_key k)) [
  | inl bad ↦ rw bad (of_keys-IsPlain storage ks w ids)
  | inr ((id, n), ok) ↦ rw ok (
    record { storage_word = w; id_word = rw ok at word; rev_range = parse_key-InRange k id n ok },
    of_keys-IsPlain storage ks w ids,
  )
]

-- The IDs recorded are words, their numbers in range.
abbrev IsPlainEntry : Bytes × ℤ → Type 0
IsPlainEntry (id, n) = IsWord id × InRange n

All-insert :
    (id : Bytes) (n : ℤ) (m : Newest)
    → IsPlainEntry (id, n)
    → All IsPlainEntry m
    → All IsPlainEntry (insert id n m)
All-insert id n [] h hs = (h, tt)
All-insert id n ((j, v) ∷ m) h hs = elim (Bool-cases (j == id)) [
  | inl same ↦ rw same (h, hs.1)
  | inr other ↦ rw other (hs.0, All-insert id n m h hs.1)
]

note_key-plain :
    (k : Bytes) (m : Newest)
    → IsWordKey (parse_key k)
    → All IsPlainEntry m
    → All IsPlainEntry (note_key (parse_key k) m)
unfolding note_key
note_key-plain k m word h = elim (Option-cases (parse_key k)) [
  | inl bad ↦ rw bad h
  | inr ((id, n), ok) ↦ elim (Bool-cases (ltb_ℤ (newest_of id m) n)) [
    | inl later ↦ rw (ok, later) (All-insert id n m (rw ok at word, parse_key-InRange k id n ok) h)
    | inr old ↦ rw (ok, old) h
  ]
]

listed_from-plain :
    (m : Newest) (keys : List Bytes)
    → HasWordIds keys
    → All IsPlainEntry m
    → All IsPlainEntry (listed_from m keys)
unfolding listed_from
listed_from-plain m [] ids h = h
listed_from-plain m (k ∷ ks) (word, ids) h =
    listed_from-plain (note_key (parse_key k) m) ks ids (note_key-plain k m word h)

inc64-InRange : (z : ℤ) → InRange z → InRange (inc64 z)
inc64-InRange z h = (ground arith, ground arith)

past_newest-IsPlain :
    (storage : Bytes) (m : Newest)
    → IsWord storage
    → All IsPlainEntry m
    → All IsPlain (past_newest storage m)
unfolding past_newest
past_newest-IsPlain storage [] w h = tt
past_newest-IsPlain storage ((id, n) ∷ m) w ((word, range), h) = (
  record { storage_word = w; id_word = word; rev_range = inc64-InRange n range },
  past_newest-IsPlain storage m w h,
)

HasWordIds-keep :
    (p : Bytes → Bool) (keys : List Bytes) → HasWordIds keys → HasWordIds (keep p keys)
HasWordIds-keep p [] h = tt
HasWordIds-keep p (k ∷ ks) (word, h) = elim (Bool-cases (p k)) [
  | inl passes ↦ rw passes (word, HasWordIds-keep p ks h)
  | inr fails ↦ rw fails (HasWordIds-keep p ks h)
]

revisions-IsPlain :
    (storage : Bytes) (local target : List Bytes)
    → IsWord storage
    → HasWordIds local
    → All IsPlain (revisions storage (listed_newest local) (lacking local target))
unfolding revisions listed_newest lacking
revisions-IsPlain storage local target w ids =
    All-append IsPlain (of_keys storage (lacking local target)) _
      (of_keys-IsPlain storage (lacking local target) w (HasWordIds-keep _ local ids))
      (All-append IsPlain (past_newest storage (listed_newest local)) _
        (past_newest-IsPlain storage (listed_newest local) w (listed_from-plain [] local ids tt))
        (record { storage_word = w; id_word = refl; rev_range = (omega arith, omega arith) }, tt))

-- While a copy worker's registration stands, no local prune deletes a revision that the copy reads:
-- one that the target lacked at the listing, or one that local has gained since.
pub run_spares_copy :
    (duplicacy : Duplicacy) (o : Options) (storage name : Bytes) (dir : Registry)
    (local target : List Bytes) (id : Bytes) (n : ℤ)
    → IsWord storage
    → has_prefix name (b'.' ∷ []) ≡ false
    → HasWordIds local
    → all_of (λ k. is_numbered (parse_key k)) local ≡ true
    → pos 0 <ℤ n
    → InRange n
    → (named id n (lacking local target) ≡ true) ⊎ (newest_of id (listed_newest local) <ℤ n)
    → let held = hold name (revisions storage (listed_newest local) (lacking local target)) dir in
      All (Leaves id n) (run duplicacy o true (some (read storage held).0)).commands
run_spares_copy duplicacy o storage name dir local target id n w visible ids numbered p r reads =
    let registered = revisions storage (listed_newest local) (lacking local target) in
    run-Leaves duplicacy o (read storage (hold name registered dir)).0 id n (
      rw
        (
          has-read-hold storage name registered dir id n
              (revisions-IsPlain storage local target w ids) visible,
          storage_kept storage registered
              (revisions-storage storage (listed_newest local) (lacking local target)),
          revisions-protects storage local target id n numbered p r reads,
        )
        (ground arith))
