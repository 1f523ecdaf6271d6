-- ===== src/Maintenance/Run.antt =====
-- A maintenance run over the storages (internal/maintenance/maintenance.go: `main`, `execute`), with
-- the lock taken and the configuration valid. What is answered on the way is an argument.
use archiver.Shared.{
  Bool, Bytes, List, Option, [], any_of, false, if◌then◌else◌, not, true, ℕ, ◌&&◌, ◌++◌, ◌||◌, ◌∷◌,
  nat_eq, bytes_eq, int_eq,
}
use archiver.Maintenance.Storage.{
  Settings, Target, Act, probe, errored, prepare_repository, wake_workers, ask_exhaustive,
  add_storage, Probe, reached, unreachable, stopped, Answers, Standing, checkin_acts, with_acts,
  storage,
}
pub mod Working
pub mod Turns
pub mod Exit

-- How a step that a stop can end ended.
pub data Step : Type 0 where
  stepped step_failed step_stopped : Step

-- A storage, and what is answered when its turn comes; the first two are a secondary's.
pub record Turn : Type 0 where
  pub target : Target
  pub first_reach : Probe
  pub adding : Step
  pub stop_before : Bool
  pub answers : Answers

unfoldable pub ends_here : List Act → Option Bytes → Standing
ends_here acts disk = record { acts = acts; disk = disk; goes_on = false; pruned = false }

unfoldable pub passes_over : Target → List Act → Option Bytes → Standing
unfolding checkin_acts
passes_over t acts disk = record {
  acts = acts ++ errored t.name ∷ checkin_acts t false;
  disk = disk;
  goes_on = true;
  pruned = false;
}

-- `stopRequested` and `storage`
unfoldable pub work_on : Settings → Bool → Turn → Option Bytes → Standing
unfolding ends_here storage
work_on c primary t disk =
    if t.stop_before then ends_here [] disk else storage c primary t.target t.answers disk

unfoldable pub before_acts : List Act → Standing → Standing
before_acts acts s = record s { acts = acts ++ s.acts }

unfoldable pub added : Settings → Turn → Option Bytes → Step → Standing
unfolding ends_here passes_over work_on before_acts
added c t disk step_stopped = ends_here (probe t.target.name ∷ add_storage t.target.name ∷ []) disk
added c t disk step_failed =
    passes_over t.target (probe t.target.name ∷ add_storage t.target.name ∷ []) disk
added c t disk stepped =
    before_acts (probe t.target.name ∷ add_storage t.target.name ∷ []) (work_on c false t disk)

unfoldable pub secondary : Settings → Turn → Option Bytes → Probe → Standing
unfolding ends_here passes_over added
secondary c t disk stopped = ends_here (probe t.target.name ∷ []) disk
secondary c t disk unreachable = passes_over t.target (probe t.target.name ∷ []) disk
secondary c t disk reached = added c t disk t.adding

-- One standing after another.
unfoldable pub then_stands : Standing → Standing → Standing
then_stands s r = record {
  acts = s.acts ++ r.acts;
  disk = r.disk;
  goes_on = r.goes_on;
  pruned = s.pruned || r.pruned;
}

-- The loop over the secondaries.
unfoldable pub secondaries : Settings → List Turn → Standing → Standing
unfolding secondary then_stands
secondaries c [] s = s
secondaries c (t ∷ ts) s =
    let now = then_stands s (secondary c t s.disk t.first_reach) in
    let rest = secondaries c ts now in if now.goes_on then rest else now

pub data End : Type 0 where
  completed ended_failed ended_stopped : End

pub record Ran : Type 0 where
  pub acts : List Act
  pub disk : Option Bytes
  pub end : End

-- What else a run is answered: whether copy workers keep the secondaries, the probe of the primary
-- and the preparing of the repository, and whether a stop came by the end.
pub record RunAnswers : Type 0 where
  pub workers_keep : Bool
  pub primary_reach : Probe
  pub preparing : Step
  pub stop_at_end : Bool

-- The loop over the storages.
unfoldable pub storages : Settings → Turn → List Turn → Option Bytes → Standing
unfolding work_on secondaries
storages c primary ts disk =
    let first = work_on c true primary disk in
    let rest = secondaries c ts first in if first.goes_on then rest else first

-- After the loop.
unfoldable pub after_storages : RunAnswers → List Act → Standing → Ran
after_storages m acts s =
    if not s.goes_on || m.stop_at_end
    then record { acts = acts ++ s.acts; disk = s.disk; end = ended_stopped }
    else record {
      acts = acts ++ (s.acts ++ (if s.pruned then wake_workers ∷ [] else []));
      disk = s.disk;
      end = completed;
    }

unfoldable pub prepared :
    Settings → RunAnswers → Turn → List Turn → Option Bytes → List Act → Step → Ran
unfolding after_storages storages
prepared c m primary ts disk acts step_stopped = record {
  acts = acts;
  disk = disk;
  end = ended_stopped;
}
prepared c m primary ts disk acts step_failed = record {
  acts = acts ++ errored [] ∷ [];
  disk = disk;
  end = ended_failed;
}
prepared c m primary ts disk acts stepped = after_storages m acts (storages c primary ts disk)

unfoldable pub primary_probed :
    Settings → RunAnswers → Turn → List Turn → Option Bytes → List Act → Probe → Ran
unfolding prepared checkin_acts
primary_probed c m primary ts disk acts stopped = record {
  acts = acts;
  disk = disk;
  end = ended_stopped;
}
primary_probed c m primary ts disk acts unreachable = record {
  acts = acts ++ errored primary.target.name ∷ checkin_acts primary.target false;
  disk = disk;
  end = ended_failed;
}
primary_probed c m primary ts disk acts reached =
    prepared c m primary ts disk (acts ++ prepare_repository ∷ []) m.preparing

-- `main`
unfoldable pub main : Settings → RunAnswers → Turn → List Turn → Option Bytes → Ran
unfolding primary_probed
main c m primary ts disk =
    if not c.check_backups && not c.prune_backups
    then record { acts = []; disk = disk; end = completed }
    else (let asked =
          if m.workers_keep && (c.forced && c.prune_backups) then ask_exhaustive ∷ [] else [] in
        primary_probed c m primary (if m.workers_keep then [] else ts) disk
          (asked ++ probe primary.target.name ∷ []) m.primary_reach)

unfoldable pub is_error : Act → Bool
is_error (errored name) = true
is_error _ = false

unfoldable pub is_stopped : End → Bool
is_stopped completed = false
is_stopped ended_failed = false
is_stopped ended_stopped = true

-- The exit code of `execute`.
unfoldable pub exit_code : Ran → ℕ
unfolding is_error is_stopped
exit_code r = if any_of is_error r.acts || is_stopped r.end then 1 else 0
