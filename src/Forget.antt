-- ===== src/Forget.antt =====
-- internal/forget/forget.go: removing the snapshots of services that a host no longer backs up. The
-- storages, the gate and the registry are parameters, whose answers may depend on every act before.
-- Revisions are integers in the range of an int; the texts that are printed are not modelled.
use archiver.Shared.{
  Bool, Bytes, List, Option, [], all_of, any_of, atoi, codes, contains, cut_prefix, false,
  has_prefix, if◌then◌else◌, is_digit, keep, leb, length, ltb, map, none, not, some, sort_ints,
  sort_texts, trim_space, true, ℕ, ℤ, ◌&&◌, ◌++◌, ◌==◌, ◌||◌, ◌∷◌, nat_eq, bytes_eq, int_eq,
}
pub mod Names
pub mod Guarded
pub mod Planned
pub mod Complete
use archiver.Inuse.{Set, has}
use archiver.Config.Glob.{has_meta, unescape}

abbrev pub is_id_byte : ℕ → Bool
is_id_byte c =
    leb b'a' c && leb c b'z'
    || (leb b'A' c && leb c b'Z' || (is_digit c || (c == b'_' || c == b'-')))

-- `config.ValidSnapshotID`
unfoldable pub is_valid_id : Bytes → Bool
is_valid_id id = ltb 0 (length id) && all_of is_id_byte id

-- `Configured`: over what the expansion of the patterns found and did not, and `config.ServiceName`.
unfoldable pub configured_names : (Bytes → Bytes) → List Bytes → List Bytes → List Bytes
configured_names service_name dirs unmatched =
    map service_name (dirs ++ map unescape (keep (λ u. not (has_meta u)) unmatched))

abbrev pub host_prefix : Bytes → Bytes
host_prefix host = host ++ b'-' ∷ []

-- `Orphans`
unfoldable pub is_orphan : Bytes → List Bytes → Bytes → Bool
is_orphan host configured id = elim (cut_prefix id (host_prefix host)) [
  | none ↦ false
  | some name ↦ not (contains configured name)
]

unfoldable pub orphans : List Bytes → Bytes → List Bytes → List Bytes
unfolding is_orphan
orphans ids host configured = sort_texts (keep (is_orphan host configured) ids)

-- What `Run` makes of the names it is given: the IDs, or an exit code.
pub data Named : Type 0 where
  refused : ℕ → Named
  ids_of : List Bytes → Named

-- The ID of a name, and what it names.
unfoldable pub id_of : Bytes → Bytes → Bytes
id_of host n = if has_prefix n (host_prefix host) then n else host_prefix host ++ n

unfoldable pub trimmed : Bytes → Bytes → Bytes
trimmed host id = elim (cut_prefix id (host_prefix host)) [ none ↦ id | some name ↦ name ]

unfoldable pub add_id : Bytes → Named → Named
add_id id (refused code) = refused code
add_id id (ids_of ids) = ids_of (id ∷ ids)

unfoldable pub names_to_ids : Bytes → List Bytes → List Bytes → Named
unfolding is_valid_id id_of trimmed add_id
names_to_ids host configured [] = ids_of []
names_to_ids host configured (n ∷ names) =
    let id = id_of host n in
    let rest = names_to_ids host configured names in
    if not (is_valid_id id)
    then refused 2
    else if contains configured (trimmed host id)
    then refused 1
    else add_id id rest

-- The acts of a run, on a storage and an ID.
pub data Act : Type 0 where
  list_snapshots : Bytes → Bytes → Act
  take_gate read_registry release_gate : Bytes → Act
  remove : Bytes → Bytes → Act

-- The answers of what `Run` calls, after the acts so far.
pub record World : Type 0 where
  pub list : List Act → Bytes → Bytes → Option (List Bytes)
  pub gate : List Act → Bytes → Bool
  pub registry : List Act → Bytes → Option Set
  pub removes : List Act → Bytes → Bytes → Bool

-- The revisions among the entries of a snapshot directory.
unfoldable pub revisions_of : List Bytes → List ℤ
revisions_of [] = []
revisions_of (n ∷ entries) =
    let rest = revisions_of entries in elim (atoi n) [ none ↦ rest | some r ↦ r ∷ rest ]

-- A line of the plan.
pub record Found : Type 0 where
  pub storage : Bytes
  pub id : Bytes
  pub revisions : List ℤ

pub record Plan : Type 0 where
  pub acts : List Act
  pub found : List Found
  pub failed : Bool

-- The storages and IDs in the order that the plan goes through them.
unfoldable pub with_ids : Bytes → List Bytes → List (Bytes × Bytes)
with_ids t [] = []
with_ids t (id ∷ ids) = (t, id) ∷ with_ids t ids

unfoldable pub pairs : List Bytes → List Bytes → List (Bytes × Bytes)
unfolding with_ids
pairs [] ids = []
pairs (t ∷ targets) ids = with_ids t ids ++ pairs targets ids

-- What a listing adds to the plan.
unfoldable pub plan_found : Bytes → Bytes → List ℤ → Plan → Plan
plan_found t id [] rest = rest
plan_found t id (r ∷ rs) rest = record rest {
  found = record { storage = t; id = id; revisions = r ∷ rs } ∷ rest.found;
}

unfoldable pub plan_one : Bytes → Bytes → Option (List Bytes) → Plan → Plan
unfolding plan_found revisions_of
plan_one t id none rest = record rest { failed = true }
plan_one t id (some entries) rest = plan_found t id (sort_ints (revisions_of entries)) rest

-- The loops of the plan, after the acts so far.
unfoldable pub plan_all : World → List Act → List (Bytes × Bytes) → Plan
unfolding plan_one
plan_all w done [] = record { acts = done; found = []; failed = false }
plan_all w done ((t, id) ∷ rest) =
    plan_one t id (w.list done t id) (plan_all w (done ++ list_snapshots t id ∷ []) rest)

-- Whether a listed revision is being read.
unfoldable pub is_read : Set → Bytes → List Bytes → Bool
unfolding revisions_of
is_read busy id entries = any_of (has busy id) (revisions_of entries)

pub record Forgot : Type 0 where
  pub acts : List Act
  pub ok : Bool

unfoldable pub ended : Bytes → List Act → Bool → Forgot
ended t done ok = record { acts = done ++ release_gate t ∷ []; ok = ok }

unfoldable pub remove_unread : World → Bytes → Bytes → Set → List Act → Option (List Bytes) → Forgot
unfolding is_read ended
remove_unread w t id busy done none = ended t done false
remove_unread w t id busy done (some entries) =
    if is_read busy id entries
    then ended t done false
    else ended t (done ++ remove t id ∷ []) (w.removes done t id)

unfoldable pub list_again : World → Bytes → Bytes → List Act → Option Set → Forgot
unfolding remove_unread
list_again w t id done none = ended t done false
list_again w t id done (some busy) =
    remove_unread w t id busy (done ++ list_snapshots t id ∷ []) (w.list done t id)

-- `forget`
unfoldable pub forget : World → Bytes → Bytes → List Act → Forgot
unfolding list_again
forget w t id done =
    if w.gate done t
    then (let gated = done ++ take_gate t ∷ [] in
        list_again w t id (gated ++ read_registry t ∷ []) (w.registry gated t))
    else record { acts = done ++ take_gate t ∷ []; ok = false }

-- The loop over the plan.
unfoldable pub forget_all : World → List Found → List Act → Forgot
unfolding forget
forget_all w [] done = record { acts = done; ok = true }
forget_all w (f ∷ found) done =
    let now = forget w f.storage f.id done in
    let rest = forget_all w found now.acts in if now.ok then rest else now

-- The answer of a person to the question: with `--yes`, of nobody, or a line.
pub data Consent : Type 0 where
  given no_terminal : Consent
  typed : Bytes → Consent

unfoldable pub agrees : Consent → Bool
agrees given = true
agrees no_terminal = false
agrees (typed s) = let a = trim_space s in a == codes "y" || a == codes "Y"

pub record Ran : Type 0 where
  pub acts : List Act
  pub code : ℕ

unfoldable pub carry_out : World → Consent → Plan → Ran
unfolding agrees forget_all
carry_out w consent plan =
    if plan.failed
    then record { acts = plan.acts; code = 1 }
    else if length plan.found == 0
    then record { acts = plan.acts; code = 0 }
    else if not (agrees consent)
    then record { acts = plan.acts; code = 1 }
    else (let out = forget_all w plan.found plan.acts in
        record { acts = out.acts; code = if out.ok then 0 else 1 })

unfoldable pub run_named : World → Consent → List Bytes → Named → Ran
unfolding carry_out plan_all pairs
run_named w consent targets (refused code) = record { acts = []; code = code }
run_named w consent targets (ids_of ids) = carry_out w consent (plan_all w [] (pairs targets ids))

-- `Run`, on the storages in their order.
unfoldable pub run : World → Consent → Bytes → List Bytes → List Bytes → List Bytes → Ran
unfolding run_named names_to_ids
run w consent host configured targets names =
    run_named w consent targets (names_to_ids host configured names)
