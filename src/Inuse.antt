-- ===== src/Inuse.antt =====
-- internal/inuse/inuse.go: the registry of snapshot revisions that running copies and restores
-- still need. A registration is a file of lines in the registry directory; a live reader keeps its
-- file locked.
use archiver.Shared.{
  Bool, Bytes, List, Option, [], any_of, atoi, cut_suffix, false, fields, if◌then◌else◌, itoa,
  leb_ℤ, none, not, some, true, ℤ, ◌&&◌, ◌++◌, ◌==◌, ◌||◌, ◌∷◌, nat_eq, bytes_eq, int_eq,
}
pub mod Format
pub mod Registry

-- `Revision`: one revision on one storage, or with `and_newer` that one and every later one.
pub record Revision : Type 0 where
  pub storage : Bytes
  pub id : Bytes
  pub rev : ℤ
  pub and_newer : Bool

abbrev space : Bytes
space = 32 ∷ []

abbrev plus : Bytes
plus = b'+' ∷ []

-- "*" stands for every ID that the same registration does not name.
abbrev pub any_id : Bytes
any_id = b'*' ∷ []

unfoldable pub line : Revision → Bytes
line r =
    if r.and_newer
    then r.storage ++ 32 ∷ (r.id ++ 32 ∷ (itoa r.rev ++ plus))
    else r.storage ++ 32 ∷ (r.id ++ 32 ∷ itoa r.rev)

unfoldable pub covers : Revision → ℤ → Bool
covers r rev = rev == r.rev || r.and_newer && leb_ℤ r.rev rev

-- The body of `parse`'s loop once a line is split into its fields.
unfoldable pub parse_fields : Bytes → List Bytes → Option Revision
parse_fields storage (s ∷ id ∷ last ∷ []) =
    if s == storage
    then elim (cut_suffix last plus) [
      | none ↦ elim (atoi last) [
        | none ↦ none
        | some n ↦ some (record { storage = s; id = id; rev = n; and_newer = false })
      ]
      | some digits ↦ elim (atoi digits) [
        | none ↦ none
        | some n ↦ some (record { storage = s; id = id; rev = n; and_newer = true })
      ]
    ]
    else none
parse_fields storage _ = none

abbrev add_parsed : Option Revision → List Revision → List Revision
add_parsed none rest = rest
add_parsed (some r) rest = r ∷ rest

-- `parse`, over the lines of a file: those of one storage, others and malformed ones left out.
unfoldable pub parse : Bytes → List Bytes → List Revision
parse storage [] = []
parse storage (l ∷ ls) = add_parsed (parse_fields storage (fields l)) (parse storage ls)

-- `Set.Has` for one registration: an ID that it names is judged by those entries alone, and any
-- other by its "*" entries.
unfoldable pub holding_has : List Revision → Bytes → ℤ → Bool
holding_has h id rev =
    any_of (λ r. r.id == id && covers r rev) h
    || not (any_of (λ r. r.id == id) h) && any_of (λ r. r.id == any_id && covers r rev) h

-- `Set`: the registrations of live readers on one storage.
abbrev pub Set : Type 0
Set = List (List Revision)

-- `Set.Has`: whether any reader still needs a revision of an ID.
unfoldable pub has : Set → Bytes → ℤ → Bool
unfolding holding_has
has s id rev = any_of (λ h. holding_has h id rev) s
