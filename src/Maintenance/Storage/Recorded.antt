-- ===== src/Maintenance/Storage/Recorded.antt =====
-- What the maintenance record says after a storage's check and prune
-- (internal/maintenance/maintenance.go, `storage`).
use archiver.Shared.{
  Bool, Bool-cases, Bytes, InRange, IsWord, List, Option, [], any_of, any_of-append, arith, false,
  if◌then◌else◌, inl, inr, none, refl, some, true, ℤ, ◌&&◌, ◌++◌, ◌==◌, ◌∙◌, ◌∷◌, ◌≡◌, nat_eq,
  bytes_eq, int_eq,
}
use archiver.Maintenance.Record.{
  Field, field_check, field_prune, field_exhaustive, read_state, get_time, set_time,
}
use archiver.Maintenance.Record.Plain.{
  read_state-plain, set_time-plain, field_beq, get_time-set_time, get_time-write_state,
}
use archiver.Maintenance.Storage.{
  prepare_repository, wake_workers, ask_exhaustive, add_storage, Settings, Target, Act, staged,
  checking, check_storage, checked_in, probe, list_revisions, prune_storage, errored, warned,
  CheckEnd, check_stopped, exited, PruneEnd, prune_stopped, ran, Answers, checkin_acts,
  written_acts, check_ended, check_part,
}

-- The acts whose success a field records.
abbrev pub is_act : Field → Act → Bool
is_act field_check (check_storage name) = true
is_act field_prune (prune_storage name exhaustive) = true
is_act field_exhaustive (prune_storage name exhaustive) = exhaustive
is_act field (staged name stage) = false
is_act field_prune (check_storage name) = false
is_act field_exhaustive (check_storage name) = false
is_act field (checked_in name ok) = false
is_act field (probe name) = false
is_act field (list_revisions name) = false
is_act field_check (prune_storage name exhaustive) = false
is_act field (errored name) = false
is_act field (warned name) = false
is_act field prepare_repository = false
is_act field wake_workers = false
is_act field ask_exhaustive = false
is_act field (add_storage name) = false

abbrev pub passed : CheckEnd → Bool
passed check_stopped = false
passed (exited ok) = ok

abbrev pub ran_well : PruneEnd → Bool
ran_well prune_stopped = false
ran_well (ran none) = true
ran_well (ran (some e)) = false

-- Whether the command that a field records worked and was recorded, and when.
abbrev pub worked : Answers → Field → Bool
worked a field_check = passed a.check_end && a.check_written
worked a field_prune = ran_well a.prune_end && a.prune_written
worked a field_exhaustive = ran_well a.prune_end && a.prune_written

abbrev pub worked_at : Answers → Field → ℤ
worked_at a field_check = a.check_time
worked_at a field_prune = a.prune_time
worked_at a field_exhaustive = a.prune_time

abbrev pub has_act : Field → List Act → Bool
has_act f acts = any_of (is_act f) acts

abbrev pub time_in : Bytes → Field → Option Bytes → ℤ
time_in n f disk = get_time n f (read_state disk)

has_act-checkin : (f : Field) (t : Target) (ok : Bool) → has_act f (checkin_acts t ok) ≡ false
unfolding checkin_acts
has_act-checkin field_check t ok = ground arith
has_act-checkin field_prune t ok = ground arith
has_act-checkin field_exhaustive t ok = ground arith

pub has_act-written :
    (f : Field) (name : Bytes) (writes : Bool) → has_act f (written_acts name writes) ≡ false
unfolding written_acts
has_act-written field_check name writes = ground arith
has_act-written field_prune name writes = ground arith
has_act-written field_exhaustive name writes = ground arith

has_act-checked :
    (f : Field) (name : Bytes) (acts : List Act)
    → has_act f acts ≡ false
    → has_act f (staged name checking ∷ check_storage name ∷ acts) ≡ field_beq field_check f
has_act-checked field_check name acts h = refl
has_act-checked field_prune name acts h = h
has_act-checked field_exhaustive name acts h = h

pub is_act-errored : (f : Field) (name : Bytes) → is_act f (errored name) ≡ false
is_act-errored field_check name = refl
is_act-errored field_prune name = refl
is_act-errored field_exhaustive name = refl

pub no_act :
    (f : Field) (x : Act) (xs : List Act)
    → is_act f x ≡ false
    → has_act f xs ≡ false
    → has_act f (x ∷ xs) ≡ false
no_act f x xs h k = rw h k

-- The check.
module _ (c : Settings) (t : Target) (a : Answers) (disk : Option Bytes) where
  check_ended-time :
      (n : Bytes) (f : Field) (end : CheckEnd)
      → IsWord t.name
      → InRange a.check_time
      → time_in n f (check_ended t a disk end).disk ≡ (
          if (passed end && a.check_written) && (t.name == n && field_beq field_check f)
          then a.check_time
          else time_in n f disk)
  unfolding check_ended
  check_ended-time n f check_stopped w r = refl
  check_ended-time n f (exited false) w r = refl
  check_ended-time n f (exited true) w r =
      get_time-write_state n f a.check_written
        (set_time t.name field_check a.check_time (read_state disk)) disk
        (set_time-plain t.name field_check a.check_time (read_state disk) w r
          (read_state-plain disk))
      ∙ rw (get_time-set_time n t.name f field_check a.check_time (read_state disk)) (ground arith)

  has_act-check_ended :
      (f : Field) (end : CheckEnd)
      → has_act f (check_ended t a disk end).acts ≡ field_beq field_check f
  unfolding check_ended
  has_act-check_ended f check_stopped = has_act-checked f t.name [] refl
  has_act-check_ended f (exited false) =
      has_act-checked f t.name (errored t.name ∷ checkin_acts t false) (
        no_act f (errored t.name) (checkin_acts t false) (is_act-errored f t.name)
          (has_act-checkin f t false))
  has_act-check_ended f (exited true) =
      has_act-checked f t.name (written_acts t.name a.check_written ++ checkin_acts t true) (
        rw
          (
            any_of-append (is_act f) (written_acts t.name a.check_written) (checkin_acts t true),
            has_act-written f t.name a.check_written,
          )
          (has_act-checkin f t true))

  pub check_part-time :
      (n : Bytes) (f : Field)
      → IsWord t.name
      → InRange a.check_time
      → time_in n f (check_part c t a disk).disk ≡ (
          if c.check_backups
            && ((passed a.check_end && a.check_written) && (t.name == n && field_beq field_check f))
          then a.check_time
          else time_in n f disk)
  unfolding check_part
  check_part-time n f w r = elim (Bool-cases c.check_backups) [
    | inl on ↦ rw on (check_ended-time n f a.check_end w r)
    | inr off ↦ rw off refl
  ]

  pub has_act-check_part :
      (f : Field)
      → has_act f (check_part c t a disk).acts ≡ (c.check_backups && field_beq field_check f)
  unfolding check_part
  has_act-check_part f = elim (Bool-cases c.check_backups) [
    | inl on ↦ rw on (has_act-check_ended f a.check_end)
    | inr off ↦ rw off refl
  ]
