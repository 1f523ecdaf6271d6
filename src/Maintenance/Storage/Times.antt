-- ===== src/Maintenance/Storage/Times.antt =====
-- What the maintenance record says after a storage's check and prune
-- (internal/maintenance/maintenance.go, `storage`).
use archiver.Shared.{
  Bool, Bytes, InRange, IsWord, Option, arith, either_branch, if◌then◌else◌, not, ◌&&◌, ◌==◌, ◌≡◌,
  nat_eq, bytes_eq, int_eq,
}
use archiver.Maintenance.Record.{
  Field, field_check, field_prune, field_exhaustive, read_state, get_time,
}
use archiver.Maintenance.Record.Plain.{field_beq}
use archiver.Maintenance.Storage.{
  Settings, Target, Answers, Standing, check_part, prune_part, checked_state, storage,
}
use archiver.Maintenance.Storage.Recorded.{
  has_act, time_in, worked, worked_at, passed, check_part-time, has_act-check_part,
}
use archiver.Maintenance.Storage.Pruning.{IsPruning, no-IsPruning, prune_part_lem}

module _ (c : Settings) (primary : Bool) (t : Target) (a : Answers) (disk : Option Bytes) where
  pruned_times :
      (s r : Standing) (n : Bytes) (f : Field)
      → IsPruning t a s r
      → ((g : Field) → has_act g s.acts ≡ (c.check_backups && field_beq field_check g))
      → time_in n f s.disk ≡ (
          if c.check_backups
            && ((passed a.check_end && a.check_written) && (t.name == n && field_beq field_check f))
          then a.check_time
          else time_in n f disk)
      → time_in n f r.disk ≡ (
          if t.name == n && (has_act f r.acts && worked a f)
          then worked_at a f
          else time_in n f disk)
  pruned_times s r n field_check p acts time =
      ground (arith, p.times n field_check, p.check_acts, acts field_check, time)
  pruned_times s r n field_prune p acts time =
      ground (arith, p.times n field_prune, p.prune_acts, acts field_prune, time)
  pruned_times s r n field_exhaustive p acts time =
      ground (arith, p.times n field_exhaustive, p.exhaustive_acts, acts field_exhaustive, time)

  -- The record on disk after a storage's check and prune: an instant is the one at which the
  -- command that it records ended well, if that command was given and the write worked, and
  -- otherwise, and for every other storage, what it was before.
  pub storage-time :
      (n : Bytes) (f : Field)
      → IsWord t.name
      → InRange a.check_time
      → InRange a.prune_time
      → get_time n f (read_state (storage c primary t a disk).disk) ≡ (
          if t.name == n && (has_act f (storage c primary t a disk).acts && worked a f)
          then worked_at a f
          else get_time n f (read_state disk))
  unfolding storage
  storage-time n f w rc rp =
      either_branch
        (λ (r : Standing). time_in n f r.disk ≡ (
          if t.name == n && (has_act f r.acts && worked a f)
          then worked_at a f
          else time_in n f disk))
        (not (check_part c t a disk).goes_on)
        (pruned_times (check_part c t a disk) (check_part c t a disk) n f
          (no-IsPruning t a (check_part c t a disk)) (has_act-check_part c t a disk)
          (check_part-time c t a disk n f w rc))
        (pruned_times (check_part c t a disk)
          (prune_part c primary t a (checked_state c t a (read_state disk)) (check_part c t a disk))
          n f
          (prune_part_lem t a c primary (checked_state c t a (read_state disk)) w rp
            (check_part c t a disk))
          (has_act-check_part c t a disk) (check_part-time c t a disk n f w rc))
