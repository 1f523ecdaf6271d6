-- ===== src/Health.antt =====
-- internal/backuphealth/backuphealth.go: backup health, and what it reads of internal/daemon/daemon.go.
-- The maps that the source goes through by sorted keys are lists in that order. Instants are in
-- nanoseconds, stored ones in seconds. A reason names what it is about; its text is not modelled.
use archiver.Shared.{
  Bool, Bytes, List, Option, [], any_of, codes, false, has_key, has_prefix, has_suffix,
  if◌then◌else◌, leb, length, lookup, ltb, none, not, some, suc, true, zero, ℕ, ◌&&◌, ◌*◌, ◌++◌,
  ◌+◌, ◌-◌, ◌==◌, ◌||◌, ◌∷◌, nat_eq, bytes_eq, int_eq,
}
pub mod Verdicts
use archiver.Notify.Incident.{second}
use archiver.Copier.Worker.{Status, is_failing, State}

-- A parsed cron schedule: the next run after an instant; `none` is the zero time.
abbrev pub Schedule : Type 0
Schedule = ℕ → Option ℕ

-- The loop of `Missed`.
unfoldable pub missed_from : Schedule → ℕ → ℕ → Option ℕ → ℕ
missed_from next now zero t = 0
missed_from next now (suc limit) none = 0
missed_from next now (suc limit) (some t) =
    let rest = missed_from next now limit (next t) in if leb t now then suc rest else 0

-- `Missed`, of a schedule that parses.
unfoldable pub missed : Schedule → ℕ → ℕ → ℕ → ℕ
unfolding missed_from
missed next since now limit = missed_from next now limit (next since)

time_between : ℕ → Option ℕ → Option ℕ
time_between a none = none
time_between a (some b) = some (b - a)

next_two : Schedule → Option ℕ → Option ℕ
unfolding time_between
next_two next none = none
next_two next (some a) = time_between a (next a)

-- `Interval`
unfoldable pub interval : Option Schedule → ℕ → Option ℕ
unfolding next_two
interval none now = none
interval (some next) now = next_two next (next now)

-- The part of `ServiceResult` that health reads.
pub record ServiceResult : Type 0 where
  pub last_success : ℕ
  pub result : Bytes

-- What `Compute` reads: whether each state could be read, and its content.
pub record Reading : Type 0 where
  pub state_error : Bool
  pub services : List (Bytes × ServiceResult)
  pub schedule : Option Schedule
  pub patterns : List Bytes
  pub dirs : List Bytes
  pub unmatched : List Bytes
  pub incidents_error : Bool
  pub open_incidents : List (Bytes × Bytes)
  pub workers_error : Bool
  pub workers : List (Bytes × State)
  pub now : ℕ

pub data Reason : Type 0 where
  state_unreadable no_directories : Reason
  matches_none not_backed_up never_good overdue last_bad : Bytes → Reason
  incidents_unreadable : Reason
  incident : Bytes → Reason
  workers_unreadable : Reason
  copies_retrying copies_behind : Bytes → Reason

pub data Verdict : Type 0 where
  fine : Verdict
  fails degrades : Reason → Verdict

-- `missedTwice`
unfoldable pub missed_twice : Option Schedule → ℕ → ℕ → Bool
unfolding missed
missed_twice none last now = false
missed_twice (some next) last now = leb 2 (missed next (last * second) now 2)

abbrev pub is_bad : Bytes → Bool
is_bad result = result == codes "failed" || result == codes "skipped"

unfoldable pub judge_service : Reading → Bytes → Option ServiceResult → Verdict
judge_service i name none = if i.state_error then fine else degrades (not_backed_up name)
judge_service i name (some r) =
    if r.last_success == 0
    then fails (never_good name)
    else if missed_twice i.schedule r.last_success i.now
    then fails (overdue name)
    else if is_bad r.result
    then fails (last_bad name)
    else fine

unfoldable pub failing_incidents : List Bytes
failing_incidents =
    codes "backup-aborted"
    ∷ codes "backup-state"
    ∷ codes "backup-skipped"
    ∷ codes "primary-down"
    ∷ codes "kit"
    ∷ codes "drill"
    ∷ codes "log:"
    ∷ []

-- `isFailing`
unfoldable pub is_failing_key : Bytes → Bool
unfolding failing_incidents
is_failing_key key =
    any_of
      (λ f.
        key == f
        || (has_prefix key (f ++ codes ":") || has_suffix f (codes ":") && has_prefix key f))
      failing_incidents

abbrev pub day : ℕ
day = 86400 * second

-- `lagAllowed`
unfoldable pub lag_allowed : State → ℕ → ℕ
lag_allowed s behind_for = if ltb 0 (length s.window) then behind_for + day else behind_for

-- `caughtUp`
unfoldable pub last_caught_up : State → ℕ
last_caught_up s =
    if not (s.behind_since == 0)
    then s.behind_since
    else if not (s.last_success == 0)
    then s.last_success
    else s.since

-- How long a secondary may be behind.
unfoldable pub behind_for : Reading → ℕ
behind_for i = elim (interval i.schedule i.now) [ none ↦ day | some every ↦ every ]

unfoldable pub judge_worker : Reading → Bytes → State → Verdict
unfolding lag_allowed last_caught_up behind_for
judge_worker i name s =
    if has_key (codes "copy:" ++ name) i.open_incidents
    then fine
    else if is_failing s.status || not (s.failing_since == 0)
    then degrades (copies_retrying name)
    else if ltb 0 s.behind && ltb (lag_allowed s (behind_for i)) (i.now - last_caught_up s * second)
    then degrades (copies_behind name)
    else fine

abbrev pub judge_incident : Bytes → Verdict
judge_incident key = if is_failing_key key then fails (incident key) else degrades (incident key)

abbrev pub failed_read : Bool → Verdict → List Verdict
failed_read true v = v ∷ []
failed_read false v = []

unfoldable pub judge_services : Reading → List Bytes → List Verdict
unfolding judge_service
judge_services i [] = []
judge_services i (d ∷ ds) = judge_service i d (lookup d i.services) ∷ judge_services i ds

unfoldable pub judge_unmatched : List Bytes → List Verdict
judge_unmatched [] = []
judge_unmatched (u ∷ us) = fails (matches_none u) ∷ judge_unmatched us

unfoldable pub judge_incidents : List (Bytes × Bytes) → List Verdict
judge_incidents [] = []
judge_incidents ((key, title) ∷ m) = judge_incident key ∷ judge_incidents m

unfoldable pub judge_workers : Reading → List (Bytes × State) → List Verdict
unfolding judge_worker
judge_workers i [] = []
judge_workers i ((name, s) ∷ m) = judge_worker i name s ∷ judge_workers i m

-- What `Compute` finds, in its order.
unfoldable pub verdicts : Reading → List Verdict
unfolding judge_services judge_unmatched judge_incidents judge_workers
verdicts i =
    failed_read i.state_error (fails state_unreadable)
    ++ (failed_read (length i.patterns == 0) (fails no_directories)
        ++ (judge_unmatched i.unmatched
            ++ (judge_services i i.dirs
                ++ (failed_read i.incidents_error (fails incidents_unreadable)
                    ++ (judge_incidents i.open_incidents
                        ++ (failed_read i.workers_error (degrades workers_unreadable)
                            ++ judge_workers i i.workers))))))

unfoldable pub failing_reasons : List Verdict → List Reason
failing_reasons [] = []
failing_reasons (fine ∷ vs) = failing_reasons vs
failing_reasons (fails r ∷ vs) = r ∷ failing_reasons vs
failing_reasons (degrades r ∷ vs) = failing_reasons vs

unfoldable pub degraded_reasons : List Verdict → List Reason
degraded_reasons [] = []
degraded_reasons (fine ∷ vs) = degraded_reasons vs
degraded_reasons (fails r ∷ vs) = degraded_reasons vs
degraded_reasons (degrades r ∷ vs) = r ∷ degraded_reasons vs

pub data Level : Type 0 where
  ok degraded failing : Level

pub record Health : Type 0 where
  pub level : Level
  pub reasons : List Reason

unfoldable pub conclude_health : List Reason → List Reason → Health
conclude_health (f ∷ fs) ds = record { level = failing; reasons = (f ∷ fs) ++ ds }
conclude_health [] (d ∷ ds) = record { level = degraded; reasons = d ∷ ds }
conclude_health [] [] = record { level = ok; reasons = [] }

-- `Compute`
unfoldable pub compute : Reading → Health
unfolding verdicts failing_reasons degraded_reasons conclude_health
compute i = conclude_health (failing_reasons (verdicts i)) (degraded_reasons (verdicts i))

-- `ExitCode`
unfoldable pub exit_code : Health → ℕ
exit_code h = elim h.level [ failing ↦ 2 | degraded ↦ 1 | ok ↦ 0 ]
