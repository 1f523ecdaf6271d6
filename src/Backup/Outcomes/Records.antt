-- ===== src/Backup/Outcomes/Records.antt =====
-- A service's record after an outcome (internal/pipeline/backup.go: `record`).
use archiver.Shared.{
  ==→eq, Bool-cases, Bytes, Option, [], ap, if◌then◌else◌, inl, inr, lookup-insert, none, refl,
  some, ◌&&◌, ◌++◌, ◌==◌, ◌∙◌, ◌∷◌, ◌≡◌, nat_eq, bytes_eq, int_eq,
}
use archiver.Backup.{is_success}
use archiver.Backup.Outcomes.{
  ServiceRecord, BackupState, no_record, last_uploads, with_outcome, record_of, readable,
  record_outcome, next_state, Outcome,
}

-- The state after an outcome, its write included.
abbrev pub recorded_state : Outcome → Option BackupState → Option BackupState
recorded_state o disk = (record_outcome o.writes o.dir o.result o.now o.took o.stats o.url disk).0

-- The record of a directory in a state on disk.
abbrev pub record_in : Bytes → Option BackupState → ServiceRecord
record_in d disk = record_of d (readable disk)

abbrev pub outcome_on : Outcome → ServiceRecord → ServiceRecord
outcome_on o r = with_outcome o.result o.now o.took o.stats r

record_of-next_state :
    (o : Outcome) (d : Bytes) (s : BackupState)
    → record_of d (next_state o.dir o.result o.now o.took o.stats o.url s)
      ≡ (if o.dir == d then outcome_on o (record_of d s) else record_of d s)
unfolding next_state record_of
record_of-next_state o d s =
    ap (λ found. elim found [ none ↦ no_record | some r ↦ r ])
      (lookup-insert o.dir d (outcome_on o (record_of o.dir s)) s.services)
    ∙ elim (Bool-cases (o.dir == d)) [
      | inr other ↦ rw other refl
      | inl same ↦ rw same (ap (λ b. outcome_on o (record_of b s)) (==→eq o.dir d same))
    ]

-- A written outcome is that of its directory, and of no other.
pub record_in-recorded_state :
    (o : Outcome) (d : Bytes) (disk : Option BackupState)
    → record_in d (recorded_state o disk)
      ≡ (if o.writes && o.dir == d then outcome_on o (record_in d disk) else record_in d disk)
unfolding record_outcome
record_in-recorded_state o d disk = elim (Bool-cases o.writes) [
  | inr lost ↦ rw lost refl
  | inl written ↦ rw written (record_of-next_state o d (readable disk))
]

pub recent-outcome_on :
    (o : Outcome) (r : ServiceRecord)
    → (outcome_on o r).recent
      ≡ (if is_success o.result then last_uploads (r.recent ++ o.stats.bytes ∷ []) else r.recent)
unfolding with_outcome
recent-outcome_on o r = elim (Bool-cases (is_success o.result)) [
  | inl good ↦ rw good refl
  | inr bad ↦ rw bad refl
]
