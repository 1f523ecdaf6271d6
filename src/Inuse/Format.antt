-- ===== src/Inuse/Format.antt =====
-- The registration file's format: what a reader writes is what a prune reads (inuse.go, `line` and
-- `parse`).
use archiver.Shared.{
  All, Bool, Bool-cases, Bytes, InRange, IsWord, List, [], all_of, all_of-append, all_of_imp, arith,
  atoi-itoa, cut_suffix, cut_suffix-append, cut_suffix_absent, fields, fields-last, fields-word,
  if◌then◌else◌, inl, inr, is_int_byte, is_space, itoa, itoa-digits, itoa-ne-nil, keep, map,
  nat_beq, none, not, refl, some, true, ℕ, ℤ, ◌++◌, ◌==◌, ◌∷◌, ◌≡◌, ◌≢◌, nat_eq, bytes_eq, int_eq,
}
use archiver.Inuse.{Revision, line, parse, parse_fields}

-- A revision that a line can carry: its names are words, its number a 64-bit int.
pub record IsPlain (r : Revision) : Type 0 where
  pub storage_word : IsWord r.storage
  pub id_word : IsWord r.id
  pub rev_range : InRange r.rev

abbrev no_space : ℕ → Bool
no_space b = not (is_space b)

abbrev no_plus : ℕ → Bool
no_plus b = not (nat_beq b b'+')

all_of-IsWord : (w : Bytes) → w ≢ [] → all_of no_space w ≡ true → IsWord w
all_of-IsWord [] n h = n refl
all_of-IsWord (c ∷ w) n h = h

pub itoa-IsWord : (z : ℤ) → IsWord (itoa z)
itoa-IsWord z =
    let (c, cs, e) = itoa-ne-nil z in
    all_of-IsWord (itoa z) (λ n. cc)
      (all_of_imp is_int_byte no_space (itoa z) (λ c d. ground arith) (itoa-digits z))

plus-IsWord : (z : ℤ) → IsWord (itoa z ++ b'+' ∷ [])
plus-IsWord z =
    let (c, cs, e) = itoa-ne-nil z in
    all_of-IsWord _ (λ n. let n' = rw e at n in cc)
      (rw (
        all_of-append no_space (itoa z) (b'+' ∷ []),
        all_of_imp is_int_byte no_space (itoa z) (λ c d. ground arith) (itoa-digits z),
      ))

itoa-no_plus : (z : ℤ) → cut_suffix (itoa z) (b'+' ∷ []) ≡ none
itoa-no_plus z =
    cut_suffix_absent b'+' (itoa z)
      (all_of_imp is_int_byte no_plus (itoa z) (λ c d. ground arith) (itoa-digits z))

parse_fields-line :
    (storage : Bytes) (r : Revision)
    → IsPlain r
    → parse_fields storage (fields (line r)) ≡ (if r.storage == storage then some r else none)
unfolding parse_fields line
parse_fields-line storage r p = elim (Bool-cases r.and_newer) [
  | inl newer ↦ rw (
    newer,
    fields-word r.storage _ p.storage_word,
    fields-word r.id _ p.id_word,
    fields-last _ (plus-IsWord r.rev),
    cut_suffix-append (itoa r.rev) (b'+' ∷ []),
    atoi-itoa r.rev p.rev_range,
  )
  | inr exact ↦ rw (
    exact,
    fields-word r.storage _ p.storage_word,
    fields-word r.id _ p.id_word,
    fields-last _ (itoa-IsWord r.rev),
    itoa-no_plus r.rev,
    atoi-itoa r.rev p.rev_range,
  )
]

-- A reader's file, read back for one storage, gives the revisions registered on that storage, in
-- their order.
pub parse-line :
    (storage : Bytes) (rs : List Revision)
    → All IsPlain rs
    → parse storage (map line rs) ≡ keep (λ r. r.storage == storage) rs
unfolding parse
parse-line storage [] h = refl
parse-line storage (r ∷ rs) (p, ps) =
    ground (arith, parse_fields-line storage r p, parse-line storage rs ps)
