-- ===== src/Health/Verdicts.antt =====
-- When backup health fails (internal/backuphealth/backuphealth.go, `Compute`).
use archiver.Shared.{
  Bool, Bytes, List, Option, [], any_of, any_of-append, arith, false, length, lookup, ltb, none,
  refl, some, true, ◌==◌, ◌||◌, ◌∙◌, ◌∷◌, ◌≡◌, nat_eq, bytes_eq, int_eq,
}
use archiver.Copier.Worker.{State}
use archiver.Health.{
  ServiceResult, Reading, Reason, Verdict, fine, fails, degrades, missed_twice, is_bad,
  judge_service, is_failing_key, judge_worker, failed_read, judge_services, judge_unmatched,
  judge_incidents, judge_workers, verdicts, failing_reasons, degraded_reasons, conclude_health,
  compute, exit_code,
}

abbrev pub is_fails : Verdict → Bool
is_fails (fails r) = true
is_fails _ = false

abbrev is_fine : Verdict → Bool
is_fine fine = true
is_fine _ = false

abbrev pub bad_result : Reading → Option ServiceResult → Bool
bad_result i none = false
bad_result i (some r) =
    r.last_success == 0 || (missed_twice i.schedule r.last_success i.now || is_bad r.result)

-- A service whose last good backup is missing or overdue, or whose last backup was not good.
abbrev pub bad_service : Reading → Bytes → Bool
bad_service i d = bad_result i (lookup d i.services)

pub judge_service_fails :
    (i : Reading) (d : Bytes) (o : Option ServiceResult)
    → is_fails (judge_service i d o) ≡ bad_result i o
unfolding judge_service
judge_service_fails i d none = ground arith
judge_service_fails i d (some r) = ground arith

any_fails-services :
    (i : Reading) (ds : List Bytes)
    → any_of is_fails (judge_services i ds) ≡ any_of (bad_service i) ds
unfolding judge_services
any_fails-services i [] = refl
any_fails-services i (d ∷ ds) =
    rw (judge_service_fails i d (lookup d i.services), any_fails-services i ds)

any_fails-unmatched : (us : List Bytes) → any_of is_fails (judge_unmatched us) ≡ ltb 0 (length us)
unfolding judge_unmatched
any_fails-unmatched [] = refl
any_fails-unmatched (u ∷ us) = ground arith

any_fails-incidents :
    (m : List (Bytes × Bytes))
    → any_of is_fails (judge_incidents m) ≡ any_of (λ e. is_failing_key e.0) m
unfolding judge_incidents
any_fails-incidents [] = refl
any_fails-incidents ((key, title) ∷ m) = ground (arith, any_fails-incidents m)

no_fails-workers :
    (i : Reading) (m : List (Bytes × State)) → any_of is_fails (judge_workers i m) ≡ false
unfolding judge_workers judge_worker
no_fails-workers i [] = refl
no_fails-workers i ((name, s) ∷ m) = ground (arith, no_fails-workers i m)

any_fails-read_failing : (b : Bool) (r : Reason) → any_of is_fails (failed_read b (fails r)) ≡ b
any_fails-read_failing true r = refl
any_fails-read_failing false r = refl

any_fails-read_degraded :
    (b : Bool) (r : Reason) → any_of is_fails (failed_read b (degrades r)) ≡ false
any_fails-read_degraded true r = refl
any_fails-read_degraded false r = refl

length-failing_reasons :
    (vs : List Verdict) → ltb 0 (length (failing_reasons vs)) ≡ any_of is_fails vs
unfolding failing_reasons
length-failing_reasons [] = refl
length-failing_reasons (fine ∷ vs) = length-failing_reasons vs
length-failing_reasons (fails r ∷ vs) = ground arith
length-failing_reasons (degrades r ∷ vs) = length-failing_reasons vs

exit_code-conclude_health :
    (fs ds : List Reason) → (exit_code (conclude_health fs ds) == 2) ≡ ltb 0 (length fs)
unfolding exit_code conclude_health
exit_code-conclude_health (f ∷ fs) ds = ground arith
exit_code-conclude_health [] (d ∷ ds) = refl
exit_code-conclude_health [] [] = refl

any_fails-verdicts :
    (i : Reading)
    → any_of is_fails (verdicts i) ≡ (
        i.state_error
        || (length i.patterns == 0
            || (ltb 0 (length i.unmatched)
                || (any_of (bad_service i) i.dirs
                    || (i.incidents_error || any_of (λ e. is_failing_key e.0) i.open_incidents)))))
unfolding verdicts
any_fails-verdicts i =
    rw
      (
        any_of-append,
        any_of-append,
        any_of-append,
        any_of-append,
        any_of-append,
        any_of-append,
        any_of-append,
        any_fails-read_failing,
        any_fails-read_failing,
        any_fails-read_failing,
        any_fails-read_degraded,
        any_fails-unmatched i.unmatched,
        any_fails-services i i.dirs,
        any_fails-incidents i.open_incidents,
        no_fails-workers i i.workers,
      )
      (ground arith)

-- Backup health fails, exit code 2, exactly if a state that it needs cannot be read, nothing is to be
-- backed up, a pattern matches no directory, a service's backups are bad, or a failing incident is
-- open; no copy worker makes it fail.
pub compute-exit_code :
    (i : Reading)
    → (exit_code (compute i) == 2) ≡ (
        i.state_error
        || (length i.patterns == 0
            || (ltb 0 (length i.unmatched)
                || (any_of (bad_service i) i.dirs
                    || (i.incidents_error || any_of (λ e. is_failing_key e.0) i.open_incidents)))))
unfolding compute
compute-exit_code i =
    exit_code-conclude_health (failing_reasons (verdicts i)) (degraded_reasons (verdicts i))
    ∙ (length-failing_reasons (verdicts i) ∙ any_fails-verdicts i)
