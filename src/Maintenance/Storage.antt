-- ===== src/Maintenance/Storage.antt =====
-- The check and prune of one storage (internal/maintenance/maintenance.go: `storage`,
-- `exhaustiveDue`, `revisions`, `checkin`), as the list of its acts. What the programs, the clock and
-- the stop flag answer are arguments; the texts of log lines are not modelled.
use archiver.Shared.{
  Bool, Bytes, List, Option, [], any_of, codes, contains, false, fields, if◌then◌else◌, leb,
  neg_part, none, not, pos_part, some, true, ℕ, ℤ, ◌&&◌, ◌++◌, ◌+◌, ◌-◌, ◌==◌, ◌||◌, ◌∷◌, nat_eq,
  bytes_eq, int_eq,
}
pub mod Recorded
pub mod Pruning
pub mod Times
use archiver.Localprune.Prune.{Error}
use archiver.Maintenance.Record.{
  Field, field_check, field_prune, field_exhaustive, State, read_state, get_time, set_time,
  write_state,
}

-- What of the configuration maintenance reads; the interval is in seconds, 0 for never.
pub record Settings : Type 0 where
  pub check_backups : Bool
  pub prune_backups : Bool
  pub interval : ℕ
  pub forced : Bool

pub record Target : Type 0 where
  pub name : Bytes
  pub has_checkin : Bool

pub data Stage : Type 0 where
  checking pruning : Stage

pub data Act : Type 0 where
  staged : Bytes → Stage → Act
  check_storage : Bytes → Act
  checked_in : Bytes → Bool → Act
  probe : Bytes → Act
  list_revisions : Bytes → Act
  prune_storage : Bytes → Bool → Act
  errored warned : Bytes → Act
  prepare_repository wake_workers ask_exhaustive : Act
  add_storage : Bytes → Act

pub data Probe : Type 0 where
  reached unreachable stopped : Probe

pub data CheckEnd : Type 0 where
  check_stopped : CheckEnd
  exited : Bool → CheckEnd

pub data PruneEnd : Type 0 where
  prune_stopped : PruneEnd
  ran : Option Error → PruneEnd

-- What a storage's check and prune are answered; listings are their output's lines.
pub record Answers : Type 0 where
  pub check_end : CheckEnd
  pub check_time : ℤ
  pub check_written : Bool
  pub stop_after_check : Bool
  pub reach : Probe
  pub due_time : ℤ
  pub before : Option (List Bytes)
  pub stop_before_prune : Bool
  pub prune_end : PruneEnd
  pub prune_time : ℤ
  pub prune_written : Bool
  pub after : Option (List Bytes)

-- Where a storage stands: the acts and the record on disk, whether the run goes on, and whether the
-- primary's prune deleted revisions.
pub record Standing : Type 0 where
  pub acts : List Act
  pub disk : Option Bytes
  pub goes_on : Bool
  pub pruned : Bool

abbrev pub hour : ℕ
hour = 3600

-- Whether an instant is some seconds past another.
unfoldable pub is_past : ℤ → ℕ → ℤ → Bool
is_past last seconds now =
    leb (pos_part last + neg_part now + seconds) (pos_part now + neg_part last)

-- `exhaustiveDue`
unfoldable pub exhaustive_due : Settings → ℤ → Bytes → State → Bool
unfolding is_past get_time
exhaustive_due c now name s =
    c.forced
    || not (c.interval == 0) && is_past (get_time name field_exhaustive s) (c.interval - hour) now

-- One line of `revisions`.
unfoldable pub revision_key : List Bytes → Option Bytes
revision_key (kind ∷ id ∷ word ∷ revision ∷ more) =
    if kind == codes "Snapshot" && word == codes "revision"
    then some (id ++ b' ' ∷ revision)
    else none
revision_key _ = none

unfoldable pub listed_keys : List Bytes → List Bytes
unfolding revision_key
listed_keys [] = []
listed_keys (l ∷ ls) =
    let rest = listed_keys ls in elim (revision_key (fields l)) [ none ↦ rest | some k ↦ k ∷ rest ]

-- Whether two listings show a revision that went missing.
unfoldable pub went_missing : Option (List Bytes) → Option (List Bytes) → Bool
unfolding listed_keys
went_missing none after = false
went_missing (some before) none = false
went_missing (some before) (some after) =
    any_of (λ k. not (contains (listed_keys after) k)) (listed_keys before)

abbrev pub is_listed : Option (List Bytes) → Bool
is_listed none = false
is_listed (some lines) = true

-- `checkin`
unfoldable pub checkin_acts : Target → Bool → List Act
checkin_acts t ok = if t.has_checkin then checked_in t.name ok ∷ [] else []

unfoldable pub written_acts : Bytes → Bool → List Act
written_acts name writes = if writes then [] else warned name ∷ []

-- After the check's command.
unfoldable pub check_ended : Target → Answers → Option Bytes → CheckEnd → Standing
unfolding checkin_acts written_acts set_time write_state read_state
check_ended t a disk check_stopped = record {
  acts = staged t.name checking ∷ check_storage t.name ∷ [];
  disk = disk;
  goes_on = false;
  pruned = false;
}
check_ended t a disk (exited false) = record {
  acts = staged t.name checking ∷ check_storage t.name ∷ errored t.name ∷ checkin_acts t false;
  disk = disk;
  goes_on = true;
  pruned = false;
}
check_ended t a disk (exited true) = record {
  acts =
      staged t.name checking ∷ check_storage t.name ∷ written_acts t.name a.check_written
      ++ checkin_acts t true;
  disk =
      write_state a.check_written (set_time t.name field_check a.check_time (read_state disk)) disk;
  goes_on = true;
  pruned = false;
}

unfoldable pub check_part : Settings → Target → Answers → Option Bytes → Standing
unfolding check_ended
check_part c t a disk =
    if c.check_backups
    then check_ended t a disk a.check_end
    else record { acts = []; disk = disk; goes_on = true; pruned = false }

unfoldable pub with_acts : List Act → Standing → Standing
with_acts acts s = record s { acts = s.acts ++ acts }

unfoldable pub set_pruned : Bytes → Bool → ℤ → State → State
unfolding set_time
set_pruned name exhaustive now s =
    let s = set_time name field_prune now s in
    if exhaustive then set_time name field_exhaustive now s else s

-- After the prune.
unfoldable pub prune_ended : Bool → Bool → Target → Answers → Standing → PruneEnd → Standing
unfolding with_acts written_acts set_pruned write_state read_state went_missing
prune_ended primary exhaustive t a s prune_stopped = record s { goes_on = false }
prune_ended primary exhaustive t a s (ran (some e)) = with_acts (errored t.name ∷ []) s
prune_ended primary exhaustive t a s (ran none) = record {
  acts =
      s.acts
      ++ (written_acts t.name a.prune_written
          ++ (if primary && is_listed a.before then list_revisions t.name ∷ [] else []));
  disk =
      write_state a.prune_written (set_pruned t.name exhaustive a.prune_time (read_state s.disk))
        s.disk;
  goes_on = true;
  pruned = primary && went_missing a.before a.after;
}

-- Once the storage is reached. Whether an exhaustive prune is due is judged by the record that was
-- read first, with this run's check in it.
unfoldable pub prune_reached : Settings → Bool → Target → Answers → State → Standing → Standing
unfolding with_acts prune_ended exhaustive_due
prune_reached c primary t a state s =
    let exhaustive = exhaustive_due c a.due_time t.name state in
    let staged_acts =
      staged t.name pruning ∷ (if primary then list_revisions t.name ∷ [] else []) in
    if a.stop_before_prune
    then record (with_acts staged_acts s) { goes_on = false }
    else prune_ended primary exhaustive t a
        (with_acts (staged_acts ++ prune_storage t.name exhaustive ∷ []) s) a.prune_end

unfoldable pub prune_probed :
    Settings → Bool → Target → Answers → State → Standing → Probe → Standing
unfolding with_acts prune_reached
prune_probed c primary t a state s stopped = record s { goes_on = false }
prune_probed c primary t a state s unreachable = with_acts (errored t.name ∷ []) s
prune_probed c primary t a state s reached = prune_reached c primary t a state s

unfoldable pub prune_part : Settings → Bool → Target → Answers → State → Standing → Standing
unfolding with_acts prune_probed
prune_part c primary t a state s =
    if a.stop_after_check
    then record s { goes_on = false }
    else if not c.prune_backups
    then s
    else prune_probed c primary t a state (with_acts (probe t.name ∷ []) s) a.reach

-- The record in memory after the check.
unfoldable pub checked_state : Settings → Target → Answers → State → State
unfolding set_time
checked_state c t a state = elim a.check_end [
  | check_stopped ↦ state
  | exited ok ↦
      if c.check_backups && ok then set_time t.name field_check a.check_time state else state
]

-- `storage`
unfoldable pub storage : Settings → Bool → Target → Answers → Option Bytes → Standing
unfolding check_part prune_part checked_state read_state
storage c primary t a disk =
    let s = check_part c t a disk in
    if not s.goes_on then s else prune_part c primary t a (checked_state c t a (read_state disk)) s
