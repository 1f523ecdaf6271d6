-- ===== src/Localprune/Prune.antt =====
-- `Run` and `prune` (run.go): the commands that one local prune gives Duplicacy. Duplicacy itself is
-- a parameter: its reply may depend on every command before.
use archiver.Shared.{
  Bool, Bytes, List, Option, [], codes, false, if◌then◌else◌, itoa, leb, length, none, some,
  sort_texts, true, ℤ, ◌++◌, ◌∷◌,
}
use archiver.Copier.Mirror.{Revisions, get}
use archiver.Inuse.{Set, has}
use archiver.Localprune.{planned, split, Parts}

-- `Options`, less the directories, streams and environment of the process.
pub record Options : Type 0 where
  pub storage : Bytes
  pub keep_args : List Bytes
  pub threads : Bytes
  pub exhaustive : Bool

pub data Command : Type 0 where
  dry_run : Command
  delete_revisions : Bytes → List ℤ → Command
  reclaim : Command
  reclaim_exhaustive : Command

revision_args : List ℤ → List Bytes
revision_args [] = []
revision_args (r ∷ rs) = codes "-r" ∷ itoa r ∷ revision_args rs

-- The arguments of each command, before `proc.NoScript` adds its own.
unfoldable pub args : Options → Command → List Bytes
unfolding revision_args
args o dry_run =
    (codes "prune" ∷ codes "-all" ∷ codes "-dry-run" ∷ codes "-storage" ∷ o.storage ∷ [])
    ++ (o.keep_args ++ codes "-threads" ∷ o.threads ∷ [])
args o (delete_revisions id revs) =
    (codes "prune"
      ∷ codes "-id"
      ∷ id
      ∷ codes "-storage"
      ∷ o.storage
      ∷ codes "-threads"
      ∷ o.threads
      ∷ [])
    ++ revision_args revs
args o reclaim =
    codes "prune" ∷ codes "-all" ∷ codes "-storage" ∷ o.storage ∷ codes "-threads" ∷ o.threads ∷ []
args o reclaim_exhaustive =
    codes "prune"
    ∷ codes "-all"
    ∷ codes "-storage"
    ∷ o.storage
    ∷ codes "-threads"
    ∷ o.threads
    ∷ codes "-exhaustive"
    ∷ []

pub record Reply : Type 0 where
  pub failed : Bool
  pub output : List Bytes

-- The reply to a command after the commands given so far.
abbrev pub Duplicacy : Type 0
Duplicacy = List Command → Command → Reply

pub data Error : Type 0 where
  gate_lost : Error
  registry_unreadable : Error
  dry_run_failed : Error
  prune_failed : Bytes → Error
  reclaim_failed : Error

pub record Pruned : Type 0 where
  pub commands : List Command
  pub deleted : Bool
  pub error : Option Error

-- The loop of `prune` over the IDs to delete from.
unfoldable pub delete_all : Duplicacy → Revisions → List Bytes → List Command → Pruned
delete_all duplicacy ready [] done = record { commands = done; deleted = true; error = none }
delete_all duplicacy ready (id ∷ ids) done =
    let command = delete_revisions id (get id ready) in
    let rest = delete_all duplicacy ready ids (done ++ command ∷ []) in
    if (duplicacy done command).failed
    then record { commands = done ++ command ∷ []; deleted = false; error = some (prune_failed id) }
    else rest

unfoldable pub keys_of : Revisions → List Bytes
keys_of [] = []
keys_of ((id, revs) ∷ m) = id ∷ keys_of m

unfoldable pub delete_planned : Duplicacy → Parts → Pruned
unfolding delete_all keys_of
delete_planned duplicacy parts =
    if leb (length parts.ready) 0
    then record { commands = dry_run ∷ []; deleted = false; error = none }
    else delete_all duplicacy parts.ready (sort_texts (keys_of parts.ready)) (dry_run ∷ [])

-- `prune`: under the gate, the dry run's revisions less those in use. The arguments say whether
-- the gate was taken, and what the registry held.
unfoldable pub prune : Duplicacy → Bool → Option Set → Pruned
unfolding delete_planned
prune duplicacy false busy = record { commands = []; deleted = false; error = some gate_lost }
prune duplicacy true none = record {
  commands = [];
  deleted = false;
  error = some registry_unreadable;
}
prune duplicacy true (some busy) =
    let reply = duplicacy [] dry_run in
    if reply.failed
    then record { commands = dry_run ∷ []; deleted = false; error = some dry_run_failed }
    else delete_planned duplicacy (split (planned reply.output) (has busy))

unfoldable pub give : Duplicacy → Pruned → Command → Pruned
give duplicacy p command = record p {
  commands = p.commands ++ command ∷ [];
  error = if (duplicacy p.commands command).failed then some reclaim_failed else none;
}

unfoldable pub reclaim_after : Duplicacy → Bool → Pruned → Option Error → Pruned
unfolding give
reclaim_after duplicacy exhaustive p (some e) = p
reclaim_after duplicacy exhaustive p none =
    if exhaustive
    then give duplicacy p reclaim_exhaustive
    else if p.deleted
    then p
    else give duplicacy p reclaim

-- `Run`
unfoldable pub run : Duplicacy → Options → Bool → Option Set → Pruned
unfolding reclaim_after prune
run duplicacy o gate busy =
    let p = prune duplicacy gate busy in reclaim_after duplicacy o.exhaustive p p.error
