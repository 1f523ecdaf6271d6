-- ===== src/Backup.antt =====
-- internal/pipeline/backup.go: the backup of one service, from its hooks to its record.
--
-- What the surroundings answer (the file system, a stop, a hook, Duplicacy, a probe) is a record of
-- answers; what the backup does with them is a list of acts in their order. A wait while the run is
-- paused is no act. Of the errors in the log, those that backup.go writes at the steps below are
-- acts, and not those of a hook's output, of starting a program or of adding a storage.
use archiver.Shared.{
  Bool, Bytes, List, Option, [], codes, false, if◌then◌else◌, none, not, some, true, ◌&&◌, ◌++◌,
  ◌||◌, ◌∷◌,
}
pub mod Quiet
pub mod Hooks
pub mod Failing
pub mod Crash
pub mod Run
pub mod Interrupted
pub mod Outcomes
pub mod Copies
use archiver.Resume.{hooked, pending, done}

-- A backup's outcome (internal/hooks/hooks.go).
pub data Result : Type 0 where
  success failed skipped stopped interrupted : Result

unfoldable pub is_success : Result → Bool
is_success success = true
is_success failed = false
is_success skipped = false
is_success stopped = false
is_success interrupted = false

unfoldable pub is_failed : Result → Bool
is_failed success = false
is_failed failed = true
is_failed skipped = false
is_failed stopped = false
is_failed interrupted = false

unfoldable pub is_stopped : Result → Bool
is_stopped success = false
is_stopped failed = false
is_stopped skipped = false
is_stopped stopped = true
is_stopped interrupted = false

pub data Act : Type 0 where
  -- the lock's stage
  staged : Bytes → Bytes → Act
  -- a service's stage in the run's record, and whether it is on disk
  recorded : Bytes → Bytes → Bool → Act
  -- a hook that is run, or that could not be started
  pre_hook : Bytes → Act
  post_hook : Bytes → Result → Act
  -- `primaryBackup`
  backed_up : Bytes → Act
  -- a probe of the primary, and the primary marked down
  probed lost_primary : Act
  -- `record`: the outcome kept for backup health
  noted : Bytes → Result → Act
  storages_added : Bytes → Act
  -- an error in the log
  errored : Act

-- How the loop of `primaryBackup` ends: Duplicacy exits, with a signal seen or not, or a stop is
-- requested.
pub data BackupEnd : Type 0 where
  exited : Bool → Bool → BackupEnd
  stop_seen : BackupEnd

pub record BackupAnswers : Type 0 where
  pub url_ok : Bool
  pub repo_ok : Bool
  pub preferences_removed : Bool
  pub init_ok : Bool
  pub diagnosed : Bool
  pub list_ok : Bool
  pub filters_written : Bool
  pub start_ok : Bool
  pub run_end : BackupEnd

abbrev pub error_if : Bool → List Act
error_if b = if b then errored ∷ [] else []

-- `primaryBackup`: its result, and the errors it logs.
unfoldable pub end_of : BackupEnd → Result × List Act
end_of stop_seen = (stopped, [])
end_of (exited signaled ok) =
    if signaled then (stopped, []) else if ok then (success, []) else (failed, errored ∷ [])

abbrev pub with_acts : List Act → Result × List Act → Result × List Act
with_acts before (r, acts) = (r, before ++ acts)

unfoldable pub primary_backup : BackupAnswers → Result × List Act
unfolding end_of
primary_backup a =
    if not a.url_ok || not a.repo_ok
    then (failed, errored ∷ [])
    else with_acts (error_if (not a.preferences_removed)) (
        if not a.init_ok
        then (failed, errored ∷ error_if a.diagnosed)
        else with_acts (error_if (not a.list_ok) ++ error_if (not a.filters_written))
            (if a.start_ok then end_of a.run_end else (failed, errored ∷ [])))

-- How a hook ends: it does not start, or ends well or not.
pub data HookEnd : Type 0 where
  not_started : HookEnd
  ended : Bool → HookEnd

pub record Answers : Type 0 where
  pub is_dir : Bool
  pub valid_id : Bool
  pub has_legacy : Bool
  pub filters_ok : Bool
  -- whether there is a hook; `none` is an error in looking
  pub pre_exists : Option Bool
  pub post_exists : Option Bool
  pub state_made : Bool
  -- a stop seen before the pre hook, before the backup, and after it in the order of the code
  pub stopped_before_pre : Bool
  pub stopped_before_backup : Bool
  pub signaled : Bool
  pub stopped_at_probe : Bool
  pub stopped_after : Bool
  pub stopped_at_end : Bool
  pub hooked_written : Bool
  pub pre_end : HookEnd
  pub filters_again : Bool
  pub backup : BackupAnswers
  pub post_ok : Bool
  pub last_written : Bool
  pub probe_ok : Bool

-- Where a service stands before its post hook: what was done, whether its pre hook ran, and the
-- result so far.
pub record Standing : Type 0 where
  pub acts : List Act
  pub pre_ran : Bool
  pub result : Result

-- The pre hook, once started.
unfoldable pub after_pre : Answers → Bytes → HookEnd → Standing
after_pre a dir not_started = record {
  acts = recorded dir hooked a.hooked_written ∷ [];
  pre_ran = false;
  result = stopped;
}
after_pre a dir (ended false) = record {
  acts = recorded dir hooked a.hooked_written ∷ pre_hook dir ∷ errored ∷ [];
  pre_ran = true;
  result = skipped;
}
after_pre a dir (ended true) =
    if a.filters_again
    then record {
      acts = recorded dir hooked a.hooked_written ∷ pre_hook dir ∷ [];
      pre_ran = true;
      result = success;
    }
    else record {
      acts = recorded dir hooked a.hooked_written ∷ pre_hook dir ∷ errored ∷ [];
      pre_ran = true;
      result = failed;
    }

unfoldable pub pre_part : Answers → Bytes → Bool → Standing
unfolding after_pre
pre_part a dir has_pre =
    if has_pre
    then (if a.stopped_before_pre
        then record { acts = []; pre_ran = false; result = stopped }
        else after_pre a dir a.pre_end)
    else record { acts = []; pre_ran = false; result = success }

-- The stage's context of a service.
abbrev pub context_of : Bytes → Bytes
context_of dir = codes "service:" ++ dir

unfoldable pub backup_part : Answers → Bytes → Standing → Standing
unfolding is_success primary_backup
backup_part a dir s =
    if not (is_success s.result)
    then s
    else if a.stopped_before_backup
    then record s { result = stopped }
    else (let (r, acts) = primary_backup a.backup in
        record {
          acts = s.acts ++ staged (context_of dir) (codes "backup") ∷ backed_up dir ∷ acts;
          pre_ran = s.pre_ran;
          result = r;
        })

unfoldable pub post_part : Answers → Bytes → Bool → Bool → Standing → List Act
post_part a dir has_pre has_post s =
    if has_post && (s.pre_ran || not has_pre)
    then post_hook dir s.result ∷ error_if (not a.post_ok)
    else []

-- From the record of the service's stage to the end: what is done, whether it backed up, and
-- whether the run must end.
pub record Outcome : Type 0 where
  pub acts : List Act
  pub ok : Bool
  pub stop : Bool

abbrev pub then_do : List Act → Outcome → Outcome
then_do acts o = record o { acts = acts ++ o.acts }

unfoldable pub probe_part : Answers → Result → List Act
unfolding is_failed
probe_part a r =
    if is_failed r && not a.signaled
    then probed ∷ (if not a.probe_ok && not a.stopped_at_probe then lost_primary ∷ [] else [])
    else []

unfoldable pub end_part : Answers → Bytes → Result → Outcome
unfolding is_success is_stopped
end_part a dir r =
    if is_success r
    then then_do (if a.stopped_after then [] else storages_added dir ∷ []) (record {
      acts = staged (codes "duplicacy") (codes "backup") ∷ [];
      ok = true;
      stop = a.stopped_at_end;
    })
    else record { acts = []; ok = false; stop = is_stopped r || a.stopped_after }

unfoldable pub last_part : Answers → Bytes → Result → Outcome
unfolding is_stopped probe_part end_part
last_part a dir r =
    then_do
      (recorded dir (if is_stopped r then pending else done) a.last_written
        ∷ (probe_part a r ++ noted dir r ∷ []))
      (end_part a dir r)

-- A service that is not started: an error, and the outcome kept.
unfoldable pub refused : Bytes → Result → Outcome
refused dir r = record { acts = errored ∷ noted dir r ∷ []; ok = false; stop = false }

-- The rest of `backupService` once the pre hook and the backup are through.
unfoldable pub finish_service : Answers → Bytes → Bool → Bool → Standing → Outcome
unfolding post_part last_part
finish_service a dir has_pre has_post s =
    then_do
      (staged (context_of dir) (codes "pre-backup")
        ∷ (s.acts
            ++ staged (context_of dir) (codes "post-backup") ∷ post_part a dir has_pre has_post s))
      (last_part a dir s.result)

-- `backupService`, with whether the primary is down by then.
unfoldable pub backup_service : Answers → Bytes → Bool → Bool → Bool → Outcome
unfolding refused pre_part backup_part finish_service
backup_service a dir has_pre has_post down =
    if not a.state_made
    then refused dir failed
    else if down
    then then_do (staged (context_of dir) (codes "pre-backup") ∷ []) (refused dir skipped)
    else finish_service a dir has_pre has_post (backup_part a dir (pre_part a dir has_pre))

unfoldable pub with_hooks : Answers → Bytes → Bool → Option Bool → Option Bool → Outcome
unfolding backup_service refused
with_hooks a dir down none post = refused dir failed
with_hooks a dir down (some has_pre) none = refused dir failed
with_hooks a dir down (some has_pre) (some has_post) = backup_service a dir has_pre has_post down

-- `processService`
unfoldable pub process_service : Answers → Bytes → Bool → Outcome
unfolding with_hooks refused
process_service a dir down =
    if not a.is_dir || (not a.valid_id || (a.has_legacy || not a.filters_ok))
    then refused dir failed
    else with_hooks a dir down a.pre_exists a.post_exists
