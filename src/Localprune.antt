-- ===== src/Localprune.antt =====
-- internal/localprune: pruning the primary under its retention policy, less the revisions that a
-- running copy or restore still reads (plan.go and run.go).
use archiver.Shared.{
  Bool, Bytes, List, Option, [], all_of, codes, contains, cut_prefix, if◌then◌else◌, is_digit,
  length, ltb, max_int, min, none, not, parse_digits, pos, some, ℕ, ℤ, ◌&&◌, ◌++◌, ◌==◌, ◌||◌, ◌∷◌,
  nat_eq, bytes_eq, int_eq,
}
pub mod Split
pub mod Prune
pub mod Spares
pub mod Complete
pub mod Copies
use archiver.Copier.Mirror.{Revisions, append_at, sort_all}
use archiver.Inuse.{Set, has}

-- `\s` of Go's regexp: tab, newline, form feed, carriage return, space.
abbrev is_blank : ℕ → Bool
is_blank c = c == 9 || c == 10 || c == 12 || c == 13 || c == 32

-- The longest run of bytes that pass a test, and what follows it.
unfoldable pub span : (ℕ → Bool) → Bytes → Bytes × Bytes
span p [] = ([], [])
span p (c ∷ s) = let (run, rest) = span p s in if p c then (c ∷ run, rest) else ([], c ∷ s)

abbrev after_prefix {ℓ} : {A : Type ℓ} → Option Bytes → (Bytes → Option A) → Option A
after_prefix none next = none
after_prefix (some rest) next = next rest

-- `(\d+)\s*$`
revision_tail : Bytes → Bytes → Option (Bytes × Bytes)
unfolding span
revision_tail id s =
    let (digits, rest) = span is_digit s in
    if ltb 0 (length digits) && all_of is_blank rest then some (id, digits) else none

-- `(\S+) at revision (\d+)\s*$`. A run of `\S` stops at the first blank, where the literal begins.
snapshot_tail : Bytes → Option (Bytes × Bytes)
unfolding revision_tail
snapshot_tail s =
    let (id, rest) = span (λ c. not (is_blank c)) s in
    if ltb 0 (length id)
    then after_prefix (cut_prefix rest (codes " at revision ")) (revision_tail id)
    else none

deleting_at : Bytes → Option (Bytes × Bytes)
unfolding snapshot_tail
deleting_at s = after_prefix (cut_prefix s (codes "Deleting snapshot ")) snapshot_tail

-- `deleting.FindStringSubmatch`: the leftmost match's snapshot ID and digits.
unfoldable pub find_deleting : Bytes → Option (Bytes × Bytes)
unfolding deleting_at
find_deleting [] = none
find_deleting (c ∷ s) = elim (deleting_at (c ∷ s)) [ some m ↦ some m | none ↦ find_deleting s ]

-- `rev, _ := strconv.Atoi(digits)`: out of range it is the largest int.
unfoldable pub revision_number : Bytes → ℤ
unfolding parse_digits
revision_number digits = elim (parse_digits digits) [ none ↦ pos 0 | some v ↦ pos (min v max_int) ]

abbrev seen_key : Bytes → Bytes → Bytes
seen_key id digits = id ++ b':' ∷ digits

-- `seen` and `out` after one line.
unfoldable pub plan_match : Option (Bytes × Bytes) → List Bytes × Revisions → List Bytes × Revisions
unfolding revision_number
plan_match none (seen, out) = (seen, out)
plan_match (some (id, digits)) (seen, out) =
    if contains seen (seen_key id digits)
    then (seen, out)
    else (seen_key id digits ∷ seen, append_at id (revision_number digits) out)

unfoldable pub planned_loop : List Bytes × Revisions → List Bytes → Revisions
unfolding find_deleting plan_match
planned_loop (seen, out) [] = out
planned_loop (seen, out) (l ∷ ls) = planned_loop (plan_match (find_deleting l) (seen, out)) ls

-- `Planned`: what a dry run would delete, by snapshot ID.
unfoldable pub planned : List Bytes → Revisions
unfolding planned_loop
planned lines = sort_all (planned_loop ([], []) lines)

-- `now` and `held` of `Split`.
pub record Parts : Type 0 where
  pub ready : Revisions
  pub waiting : Revisions

unfoldable pub place : (Bytes → ℤ → Bool) → Bytes → ℤ → Parts → Parts
place in_use id r parts =
    if in_use id r
    then record parts { waiting = append_at id r parts.waiting }
    else record parts { ready = append_at id r parts.ready }

-- The inner loop of `Split`.
unfoldable pub split_id : (Bytes → ℤ → Bool) → Bytes → List ℤ → Parts → Parts
unfolding place
split_id in_use id [] parts = parts
split_id in_use id (r ∷ rs) parts = split_id in_use id rs (place in_use id r parts)

unfoldable pub split_loop : (Bytes → ℤ → Bool) → Revisions → Parts → Parts
unfolding split_id
split_loop in_use [] parts = parts
split_loop in_use ((id, revs) ∷ plan) parts = split_loop in_use plan (split_id in_use id revs parts)

abbrev pub no_parts : Parts
no_parts = record { ready = []; waiting = [] }

-- `Split`
unfoldable pub split : Revisions → (Bytes → ℤ → Bool) → Parts
unfolding split_loop
split plan in_use = split_loop in_use plan no_parts
