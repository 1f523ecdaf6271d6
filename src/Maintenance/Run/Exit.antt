-- ===== src/Maintenance/Run/Exit.antt =====
-- What a maintenance run with exit code zero has done (internal/maintenance/maintenance.go).
use archiver.Shared.{
  All, All-map, All-total, Bool, Bytes, List, Option, [], any_of-append, arith, branch_cases, false,
  if◌then◌else◌, not, true, ◌&&◌, ◌++◌, ◌||◌, ◌∷◌, ◌≡◌, nat_eq, bytes_eq, int_eq,
}
use archiver.Maintenance.Storage.{
  Settings, Act, errored, prepare_repository, wake_workers, Probe, reached, unreachable, stopped,
  Standing, checkin_acts,
}
use archiver.Maintenance.Run.{
  Step, stepped, step_failed, step_stopped, Turn, work_on, secondaries, Ran, RunAnswers, storages,
  after_storages, prepared, primary_probed, main, is_error, is_stopped, exit_code,
}
use archiver.Maintenance.Run.Working.{has_error}
use archiver.Maintenance.Run.Turns.{
  is_maintained, is_maintained-append, maintained_turn, secondaries_works, secondaries-acts,
  work_on_works,
}

storages_works :
    (c : Settings) (primary : Turn) (ts : List Turn) (disk : Option Bytes)
    → has_error (storages c primary ts disk).acts ≡ false
    → (storages c primary ts disk).goes_on ≡ true
    → All (λ t. is_maintained c (storages c primary ts disk).acts t ≡ true) (primary ∷ ts)
unfolding storages
storages_works c primary ts disk =
    let first = work_on c true primary disk in
    branch_cases
      (λ (x : Standing).
        has_error x.acts ≡ false
        → x.goes_on ≡ true
        → All (λ u. is_maintained c x.acts u ≡ true) (primary ∷ ts))
      first.goes_on
      (λ on clean goes.
        let (new, e) = secondaries-acts c ts first in
        (
          maintained_turn c primary first (secondaries c ts first) [] new
              (work_on_works c primary disk true) on e clean,
          secondaries_works c ts first clean goes,
        ))
      (λ ends clean goes. absurd (cc))

-- What exit code zero says.
is_clean : Ran → Bool
unfolding is_stopped
is_clean r = not (has_error r.acts) && not (is_stopped r.end)

exit_code-is_clean : (r : Ran) → exit_code r ≡ 0 → is_clean r ≡ true
unfolding exit_code is_clean
exit_code-is_clean r h = ground (arith, h)

abbrev AllMaintained : Settings → List Turn → Ran → Type 0
AllMaintained c ts r = is_clean r ≡ true → All (λ t. is_maintained c r.acts t ≡ true) ts

after_storages_works :
    (c : Settings) (m : RunAnswers) (acts : List Act) (ts : List Turn) (s : Standing)
    → (has_error s.acts ≡ false → s.goes_on ≡ true → All (λ t. is_maintained c s.acts t ≡ true) ts)
    → AllMaintained c ts (after_storages m acts s)
unfolding after_storages is_clean is_stopped
after_storages_works c m acts ts s works =
    let woken = if s.pruned then wake_workers ∷ [] else [] in
    branch_cases (AllMaintained c ts) (not s.goes_on || m.stop_at_end)
      (λ stops clean. absurd (ground (arith, clean)))
      (λ goes clean.
        All-map (λ t. is_maintained c s.acts t ≡ true)
          (λ t. is_maintained c (acts ++ (s.acts ++ woken)) t ≡ true) ts
          (λ t h.
            is_maintained-append c acts (s.acts ++ woken) t
              (ground (arith, is_maintained-append c s.acts woken t (ground (arith, h)))))
          (works
            (ground (
              arith,
              clean,
              any_of-append is_error acts (s.acts ++ woken),
              any_of-append is_error s.acts woken,
            ))
            (ground (arith, goes))))

prepared_works :
    (c : Settings) (m : RunAnswers) (primary : Turn) (ts : List Turn) (disk : Option Bytes)
    (acts : List Act) (step : Step)
    → AllMaintained c (primary ∷ ts) (prepared c m primary ts disk acts step)
unfolding prepared is_clean is_stopped is_error
prepared_works c m primary ts disk acts step_stopped clean = absurd (ground (arith, clean))
prepared_works c m primary ts disk acts step_failed clean =
    absurd (ground (arith, clean, any_of-append is_error acts (errored [] ∷ [])))
prepared_works c m primary ts disk acts stepped clean =
    after_storages_works c m acts (primary ∷ ts) (storages c primary ts disk)
      (storages_works c primary ts disk) clean

primary_probed_works :
    (c : Settings) (m : RunAnswers) (primary : Turn) (ts : List Turn) (disk : Option Bytes)
    (acts : List Act) (reach : Probe)
    → AllMaintained c (primary ∷ ts) (primary_probed c m primary ts disk acts reach)
unfolding primary_probed is_clean is_stopped is_error
primary_probed_works c m primary ts disk acts stopped clean = absurd (ground (arith, clean))
primary_probed_works c m primary ts disk acts unreachable clean = absurd (
    ground (
      arith,
      clean,
      any_of-append is_error acts (errored primary.target.name ∷ checkin_acts primary.target false),
    ))
primary_probed_works c m primary ts disk acts reached clean =
    prepared_works c m primary ts disk (acts ++ prepare_repository ∷ []) m.preparing clean

-- The storages that a run maintains: all of them, or the primary alone where copy workers keep the
-- others.
abbrev pub maintained_by_run : RunAnswers → Turn → List Turn → List Turn
maintained_by_run m primary ts = primary ∷ (if m.workers_keep then [] else ts)

-- A maintenance run with exit code zero has checked every storage that it maintains with nothing
-- found, where checks are on, and pruned it without an error, where prunes are on.
pub main-is_maintained :
    (c : Settings) (m : RunAnswers) (primary : Turn) (ts : List Turn) (disk : Option Bytes)
    → exit_code (main c m primary ts disk) ≡ 0
    → All
        (λ t. is_maintained c (main c m primary ts disk).acts t ≡ true)
        (maintained_by_run m primary ts)
unfolding main
main-is_maintained c m primary ts disk zero_code =
    branch_cases (AllMaintained c (maintained_by_run m primary ts))
      (not c.check_backups && not c.prune_backups)
      (λ off clean.
        All-total (λ t. is_maintained c [] t ≡ true) (maintained_by_run m primary ts)
          (λ t. ground (arith, off)))
      (λ on clean.
        primary_probed_works c m primary (if m.workers_keep then [] else ts) disk _ m.primary_reach
          clean)
      (exit_code-is_clean (main c m primary ts disk) zero_code)
