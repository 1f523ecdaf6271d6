-- ===== src/Restore/Auto.antt =====
-- A restore without questions (internal/restore/auto.go: `run`, `pick`, `finish`;
-- internal/restore/restore.go: `parseRevisions`). What a storage, the restore and its hook answer are
-- arguments; a dry run, what runs after a restore (`AfterRestore`) and the texts are not modelled.
use archiver.Shared.{
  Bool, Bytes, List, Option, [], atoi, atoi_value, codes, contains, fields, if◌then◌else◌, length,
  none, not, some, sort_ints, split_lines, suc, ℕ, ℤ, ◌&&◌, ◌++◌, ◌==◌, ◌∷◌, nat_eq, bytes_eq,
  int_eq,
}
pub mod Outcome

abbrev pub ok : ℕ
ok = 0

abbrev pub not_found : ℕ
not_found = 1

abbrev pub unreachable : ℕ
unreachable = 2

abbrev pub busy : ℕ
busy = 3

-- A storage, what it answers, and how a restore of a revision from it and the hook after it end.
pub record Storage : Type 0 where
  pub name : Bytes
  pub connects : Bool
  pub listing : Option Bytes
  pub restores : ℤ → Bool
  pub hook_ok : Bool

pub record Request : Type 0 where
  pub id : Bytes
  pub revision : Bytes
  pub hook : Bool

-- One line of `parseRevisions`.
unfoldable pub revision_of : Bytes → List Bytes → Option ℤ
revision_of id (kind ∷ of ∷ word ∷ number ∷ more) =
    if kind == codes "Snapshot" && (of == id && word == codes "revision") then atoi number else none
revision_of id _ = none

unfoldable pub listed_revisions : Bytes → List Bytes → List ℤ
unfolding revision_of
listed_revisions id [] = []
listed_revisions id (l ∷ ls) =
    let rest = listed_revisions id ls in
    elim (revision_of id (fields l)) [ none ↦ rest | some n ↦ n ∷ rest ]

unfoldable pub reverse_onto : List ℤ → List ℤ → List ℤ
reverse_onto [] acc = acc
reverse_onto (n ∷ ns) acc = reverse_onto ns (n ∷ acc)

-- `parseRevisions`: newest first.
unfoldable pub parse_revisions : Bytes → Bytes → List ℤ
unfolding listed_revisions reverse_onto
parse_revisions id text = reverse_onto (sort_ints (listed_revisions id (split_lines text))) []

-- `pick`
unfoldable pub pick : List ℤ → Bytes → Option ℤ
pick [] want = none
pick (r ∷ revs) want =
    if want == codes "latest"
    then some r
    else if contains (r ∷ revs) (atoi_value want)
    then some (atoi_value want)
    else none

pub data Act : Type 0 where
  connect list : Bytes → Act
  restore run_hook : Bytes → ℤ → Act

pub record Ran : Type 0 where
  pub acts : List Act
  pub code : ℕ

-- `finish`
unfoldable pub finish : Request → Storage → ℤ → Ran
finish q t rev =
    if not q.hook then record { acts = restore t.name rev ∷ []; code = ok } else record {
      acts = restore t.name rev ∷ run_hook t.name rev ∷ [];
      code = if t.hook_ok then ok else not_found;
    }

unfoldable pub restore_from : Request → Storage → ℤ → Ran
unfolding finish
restore_from q t rev =
    if t.restores rev
    then finish q t rev
    else record { acts = restore t.name rev ∷ []; code = not_found }

unfoldable pub after_acts : List Act → Ran → Ran
after_acts acts r = record r { acts = acts ++ r.acts }

-- What a storage makes of a request: it cannot tell, it has no such revision, or it has one.
pub data Look : Type 0 where
  no_connection no_listing lacking : Look
  has_revision : ℤ → Look

unfoldable pub look : Request → Storage → Look
unfolding parse_revisions pick
look q t = if not t.connects then no_connection else elim t.listing [
  | none ↦ no_listing
  | some text ↦ elim (pick (parse_revisions q.id text) q.revision) [
    | none ↦ lacking
    | some rev ↦ has_revision rev
  ]
]

-- The loop of `run`: the storages left, how many there were, and how many could not tell.
unfoldable pub try_storage : Request → Storage → Look → (ℕ → Ran) → ℕ → Ran
unfolding restore_from after_acts
try_storage q t no_connection rest failed = after_acts (connect t.name ∷ []) (rest (suc failed))
try_storage q t no_listing rest failed =
    after_acts (connect t.name ∷ list t.name ∷ []) (rest (suc failed))
try_storage q t lacking rest failed = after_acts (connect t.name ∷ list t.name ∷ []) (rest failed)
try_storage q t (has_revision rev) rest failed =
    after_acts (connect t.name ∷ list t.name ∷ []) (restore_from q t rev)

unfoldable pub try_storages : Request → ℕ → List Storage → ℕ → Ran
unfolding try_storage look
try_storages q total [] failed = record {
  acts = [];
  code = if failed == total then unreachable else not_found;
}
try_storages q total (t ∷ ts) failed = try_storage q t (look q t) (try_storages q total ts) failed

-- `run`: whether the directory could be made, the restore kept to itself, and a work directory made.
unfoldable pub run : Request → Bool → Bool → Bool → List Storage → Ran
unfolding try_storages
run q prepared guarded has_work ts =
    if not prepared
    then record { acts = []; code = unreachable }
    else if not guarded
    then record { acts = []; code = busy }
    else if not has_work
    then record { acts = []; code = unreachable }
    else try_storages q (length ts) ts 0
