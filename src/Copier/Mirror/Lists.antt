-- ===== src/Copier/Mirror/Lists.antt =====
-- What `byID` collects: for each ID the integers of its entries, sorted, each ID once.
use archiver.Shared.{
  ==→eq, Bool-cases, Bytes, List, Option, Option-cases, [], ap, append-nil, append_assoc, arith,
  has_key, if◌then◌else◌, inl, inr, lookup-insert, none, refl, some, sort_ints, sym, true,
  unique_keys, unique_keys-insert, ℤ, ◌++◌, ◌==◌, ◌||◌, ◌∷◌, ◌≡◌, nat_eq, bytes_eq, int_eq,
}
use archiver.Copier.Mirror.{
  Revisions, get, parse_entry, append_at, add_entry, group, sort_all, by_id,
}

-- The revisions of an ID among "id:revision" entries, in their order.
abbrev pub entry_of : Bytes → Option (Bytes × ℤ) → List ℤ → List ℤ
entry_of id none rest = rest
entry_of id (some (j, n)) rest = if j == id then n ∷ rest else rest

unfoldable pub revisions_of : Bytes → List Bytes → List ℤ
revisions_of id [] = []
revisions_of id (k ∷ ks) = entry_of id (parse_entry k) (revisions_of id ks)

pub get-append_at :
    (id j : Bytes) (n : ℤ) (m : Revisions)
    → get id (append_at j n m) ≡ (if j == id then get j m ++ n ∷ [] else get id m)
unfolding append_at
get-append_at id j n m = rw (get, lookup-insert j id (get j m ++ n ∷ []) m) (ground arith)

get-group :
    (id : Bytes) (ks : List Bytes) (m : Revisions)
    → get id (group m ks) ≡ get id m ++ revisions_of id ks
unfolding group revisions_of
get-group id [] m = sym (append-nil (get id m))
get-group id (k ∷ ks) m = elim (Option-cases (parse_entry k)) [
  | inl bad ↦ rw bad (get-group id ks m)
  | inr ((j, n), ok) ↦
      rw (ok, get-group id ks (append_at j n m), get-append_at id j n m)
        (elim (Bool-cases (j == id)) [
          | inl same ↦ rw (same, ==→eq j id same) (append_assoc (get id m) (n ∷ []) _)
          | inr other ↦ rw other
        ])
]

get-sort_all : (id : Bytes) (m : Revisions) → get id (sort_all m) ≡ sort_ints (get id m)
unfolding sort_all sort_ints
get-sort_all id [] = refl
get-sort_all id ((j, ns) ∷ m) = ground (arith, get-sort_all id m)

-- The revisions that `byID` lists for an ID are those of its entries, sorted.
pub get-by_id : (id : Bytes) (ks : List Bytes) → get id (by_id ks) ≡ sort_ints (revisions_of id ks)
unfolding by_id
get-by_id id ks = rw (get-sort_all id (group [] ks), get-group id ks [])

unique_keys-add_entry :
    (o : Option (Bytes × ℤ)) (m : Revisions)
    → unique_keys m ≡ true
    → unique_keys (add_entry o m) ≡ true
unfolding add_entry append_at
unique_keys-add_entry none m h = h
unique_keys-add_entry (some (id, n)) m h = unique_keys-insert id (get id m ++ n ∷ []) m h

unique_keys-group :
    (ks : List Bytes) (m : Revisions) → unique_keys m ≡ true → unique_keys (group m ks) ≡ true
unfolding group
unique_keys-group [] m h = h
unique_keys-group (k ∷ ks) m h =
    unique_keys-group ks (add_entry (parse_entry k) m) (unique_keys-add_entry (parse_entry k) m h)

has_key-sort_all : (id : Bytes) (m : Revisions) → has_key id (sort_all m) ≡ has_key id m
unfolding sort_all
has_key-sort_all id [] = refl
has_key-sort_all id ((j, ns) ∷ m) = ap (λ b. j == id || b) (has_key-sort_all id m)

pub unique_keys-sort_all : (m : Revisions) → unique_keys m ≡ true → unique_keys (sort_all m) ≡ true
unfolding sort_all
unique_keys-sort_all [] h = refl
unique_keys-sort_all ((j, ns) ∷ m) h = ground (arith, has_key-sort_all j m, unique_keys-sort_all m)

-- `byID` lists each ID once.
pub unique_keys-by_id : (ks : List Bytes) → unique_keys (by_id ks) ≡ true
unfolding by_id
unique_keys-by_id ks = unique_keys-sort_all (group [] ks) (unique_keys-group ks [] refl)
