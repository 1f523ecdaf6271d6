-- ===== src/Copier/Reading.antt =====
-- The revisions a copy worker registers as in use on the primary (internal/copier/worker.go:
-- `listLocal`, `revisions` and the listing part of `missing`).
use archiver.Shared.{
  Bytes, List, Option, [], atoi, contains, false, if◌then◌else◌, inc64, insert, keep, lookup, ltb_ℤ,
  none, not, pos, some, true, ℕ, ℤ, ◌++◌, ◌==◌, ◌∷◌, nat_eq, bytes_eq, int_eq,
}
pub mod Protects
use archiver.Inuse
use archiver.Inuse.{Revision}

-- strings.Cut at the first ":"; `none` if there is none.
unfoldable pub cut_first : ℕ → Bytes → Option (Bytes × Bytes)
cut_first c [] = none
cut_first c (x ∷ s) =
    let rest = cut_first c s in
    if x == c then some ([], s) else elim rest [ none ↦ none | some (a, b) ↦ some (x ∷ a, b) ]

-- An "id:revision" key as a worker reads it: the ID before the first ":", the number after it.
unfoldable pub parse_key : Bytes → Option (Bytes × ℤ)
unfolding cut_first
parse_key k = elim (cut_first b':' k) [
  | none ↦ none
  | some (id, digits) ↦ elim (atoi digits) [ none ↦ none | some n ↦ some (id, n) ]
]

abbrev pub Newest : Type 0
Newest = List (Bytes × ℤ)

-- `w.listedNewest[id]`; a missing key reads as 0.
abbrev pub newest_of : Bytes → Newest → ℤ
newest_of id m = elim (lookup id m) [ none ↦ pos 0 | some n ↦ n ]

unfoldable pub note_key : Option (Bytes × ℤ) → Newest → Newest
note_key none m = m
note_key (some (id, n)) m = if ltb_ℤ (newest_of id m) n then insert id n m else m

unfoldable pub listed_from : Newest → List Bytes → Newest
unfolding note_key parse_key
listed_from m [] = m
listed_from m (k ∷ ks) = listed_from (note_key (parse_key k) m) ks

-- `listLocal`'s record of the newest revision listed of each ID.
unfoldable pub listed_newest : List Bytes → Newest
unfolding listed_from
listed_newest local = listed_from [] local

abbrev pub exact : Bytes → Option (Bytes × ℤ) → List Revision → List Revision
exact storage none rest = rest
exact storage (some (id, n)) rest =
    record { storage = storage; id = id; rev = n; and_newer = false } ∷ rest

unfoldable pub of_keys : Bytes → List Bytes → List Revision
unfolding parse_key
of_keys storage [] = []
of_keys storage (k ∷ ks) = exact storage (parse_key k) (of_keys storage ks)

unfoldable pub past_newest : Bytes → Newest → List Revision
past_newest storage [] = []
past_newest storage ((id, newest) ∷ m) =
    record { storage = storage; id = id; rev = inc64 newest; and_newer = true }
    ∷ past_newest storage m

-- `revisions`: the keys, whatever local gained of a listed ID, and every revision of another ID.
unfoldable pub revisions : Bytes → Newest → List Bytes → List Revision
unfolding of_keys past_newest
revisions storage newest keys =
    of_keys storage keys
    ++ (past_newest storage newest
        ++ record { storage = storage; id = Inuse.any_id; rev = pos 1; and_newer = true } ∷ [])

-- `missing`: what the target lacks. The source sorts it, which no reader of it depends on.
unfoldable pub lacking : List Bytes → List Bytes → List Bytes
lacking local target = keep (λ r. not (contains target r)) local
