-- ===== src/Backup/Outcomes/Judged.antt =====
-- What backup health (internal/backuphealth/backuphealth.go) makes of a recorded outcome
-- (internal/pipeline/backup.go, `record`).
use archiver.Shared.{
  ==_refl, Bool, Bool-cases, Bytes, Option, ap, arith, bytes_beq, false, if◌then◌else◌, inl, inr,
  refl, some, true, ℕ, ◌==◌, ◌||◌, ◌∙◌, ◌≡◌, nat_eq, bytes_eq, int_eq,
}
use archiver.Backup.{Result, is_success, success, failed, skipped, stopped, interrupted}
use archiver.Health.{Reading, ServiceResult, judge_service, missed_twice, is_bad}
use archiver.Health.Verdicts.{is_fails, bad_result, judge_service_fails}
use archiver.Backup.Outcomes.{ServiceRecord, BackupState, with_outcome, result_text, Outcome}
use archiver.Backup.Outcomes.Records.{
  recorded_state, record_in, outcome_on, record_in-recorded_state,
}

-- What health reads of a service's record.
abbrev pub seen : ServiceRecord → Option ServiceResult
seen r = some (record { last_success = r.last_success; result = r.result })

abbrev pub is_alarming : Result → Bool
is_alarming failed = true
is_alarming skipped = true
is_alarming _ = false

result_text-is_bad : (r : Result) → is_bad (result_text r) ≡ is_alarming r
unfolding result_text bytes_beq
result_text-is_bad success = refl
result_text-is_bad failed = refl
result_text-is_bad skipped = refl
result_text-is_bad stopped = refl
result_text-is_bad interrupted = refl

-- The last good backup after an outcome.
abbrev pub last_good : Outcome → ServiceRecord → ℕ
last_good o r = if is_success o.result then o.now else r.last_success

last_success-outcome_on :
    (o : Outcome) (r : ServiceRecord) → (outcome_on o r).last_success ≡ last_good o r
unfolding with_outcome
last_success-outcome_on o r = elim (Bool-cases (is_success o.result)) [
  | inl good ↦ rw good refl
  | inr bad ↦ rw bad refl
]

result-outcome_on :
    (o : Outcome) (r : ServiceRecord) → (outcome_on o r).result ≡ result_text o.result
unfolding with_outcome
result-outcome_on o r = elim (Bool-cases (is_success o.result)) [
  | inl good ↦ rw good refl
  | inr bad ↦ rw bad refl
]

record_in-written :
    (o : Outcome) (disk : Option BackupState)
    → o.writes ≡ true
    → record_in o.dir (recorded_state o disk) ≡ outcome_on o (record_in o.dir disk)
record_in-written o disk written =
    record_in-recorded_state o o.dir disk ∙ rw (written, ==_refl o.dir) refl

-- Once an outcome of a service is recorded, backup health fails for that service exactly if it
-- failed or was skipped, or the last good backup, this one if it was a success, is missing or two
-- scheduled runs old.
pub is_fails-recorded_state :
    (o : Outcome) (disk : Option BackupState) (i : Reading) (name : Bytes)
    → o.writes ≡ true
    → is_fails (judge_service i name (seen (record_in o.dir (recorded_state o disk)))) ≡ (
        is_alarming o.result
        || (last_good o (record_in o.dir disk) == 0
            || missed_twice i.schedule (last_good o (record_in o.dir disk)) i.now))
is_fails-recorded_state o disk i name written =
    judge_service_fails i name (seen (record_in o.dir (recorded_state o disk)))
    ∙ ap (λ r. bad_result i (seen r)) (record_in-written o disk written)
    ∙ ground (
      arith,
      last_success-outcome_on o (record_in o.dir disk),
      result-outcome_on o (record_in o.dir disk),
      result_text-is_bad o.result,
    )
