-- ===== src/Lib.antt =====
-- A model of Archiver, a program that backs up directories with Duplicacy, copies the backups to
-- further storages, prunes them and tells people when something is wrong.
--
-- The parts and how they interact:
-- - internal/inuse: readers of a storage (a copy, a restore) register the revisions they need.
--   Inuse models the entries and what they cover, Inuse/Format the text of a registration file, and
--   Inuse/Registry the directory: `hold`, `narrow`, `release` and `read` are `Hold`, `Narrow`,
--   `Release` and `Read`.
-- - internal/copier: a worker keeps one target caught up with the primary. Copier/Reading models
--   what a worker lists and registers (`listLocal`, `revisions`, `missing`), Copier/Mirror the plan
--   of a mirror pass (`PlanMirror`). Copier/Worker models the worker's state and what other
--   goroutines do to it (`New`, `Wake`, `Stop`, `Pause`, `Resume`, `hold`), Copier/Worker/Pass what
--   a pass does to it (`Run`, `pass`, `run`, `caughtUp`, `failed`), Copier/Worker/Halting the steps
--   of both in any order, and Copier/Upkeep when upkeep is due and a mirror pass (`nextWake`,
--   `applyMirror`).
-- - internal/config: Config/Glob models the matching of one component of a pattern (`match`,
--   `classMatch`) and escapes, Config/Glob/Matching the rules of matching as a relation,
--   Config/Glob/Expressions what a bracket expression names, as a set of bytes.
--   Config/Window models a copy window, whether it is open and when that changes (`Open`, `Next`).
-- - internal/lockstate and internal/runlock: a run records itself in a lock file, which stop, pause,
--   resume and status read. Runlock models the file's text and its edits (`ReadLock`, `Acquire`,
--   `SetStage`, `Append`, `Pause`, `Resume`, `Unpaused`, `StartUnpaused`), Runlock/Implements the lock
--   that they implement, Runlock/Pausing the moves of a run and of internal/runctl in any order.
-- - internal/resume and internal/pipeline: a backup takes each service through its pre hook, its
--   backup and its post hook, and keeps a record on disk of where each stands. Resume models the
--   record (`Begin`, `Replace`, `Set`, `Forget`, `End`), Backup one service (`processService`,
--   `backupService`, `primaryBackup`) as the list of its acts, Backup/Run the run over the services
--   (`main`, groups that run at once in any schedule) and its exit code, Backup/Copies the copies to the secondaries that it
--   makes where no copy workers run (`copies`, `copyLegs`, `reachable`, `targetCheckins`),
--   Backup/Interrupted what the next start does with the record (`finishInterrupted`), and Backup/Crash
--   the two together, with a crash after any act. Backup/Outcomes models what is kept of each outcome for backup health (`record`, `uploadSpike`).
-- - internal/localprune: prunes the primary and leaves out what the registry holds. Localprune
--   models the reading of the dry run and the split (`Planned`, `Split`), Localprune/Prune the
--   commands given (`Run`). Localprune/Copies puts the prune, the registry and the worker together.
-- - internal/maintenance: checks and prunes the primary, and the secondaries where no copy workers keep
--   them. Maintenance/Record models the record of when each last worked (`readState`, `get`, `set`,
--   `write`), Maintenance/Storage one storage (`storage`, `exhaustiveDue`, `revisions`) as the list of
--   its acts, Maintenance/Run the run over the storages (`main`) and its exit code.
-- - internal/forget: Forget models the removal of the snapshots of services that are no longer backed up
--   (`Configured`, `Orphans`, `Run`, `forget`), over storages whose answers may depend on every act
--   before.
-- - internal/restore: puts a revision back. Restore/Guard models how restores into service directories and
--   backups keep each other out (`guard`, `release`, and `pipeline` of internal/pipeline), by any number
--   of processes in any order, Restore/Auto a restore without questions (`run`, `finish`, `pick`,
--   `parseRevisions`).
-- - internal/backuphealth: Health models `Compute` and its exit code, with `Missed` and `Interval` of
--   internal/daemon over a schedule that is a function from an instant to the next run.
-- - internal/notify: notifications and incidents. Notify models which destination receives what,
--   Notify/Sending the attempts of one send, Notify/Incident `Raise` and `Clear`, Notify/Deliver
--   `deliver`.
--
-- Shared holds the helpers of all parts: tests on numbers and bytes, integers, lists, association
-- lists, sorting, and the text functions of Go's strconv and strings that the parts call. Examples
-- holds tests and the theorems at concrete inputs.
--
-- How the code is modelled:
-- - A byte string is a list of numbers, a Go map an association list whose operations replace the
--   entry of a key, an int a pair of a sign and a natural number. Numbers read by Atoi are held to
--   the range of 64 bits; an instant is a natural number.
-- - Maps that the source ranges over in an unspecified order are lists here, and the theorems hold
--   for every order of the list.
-- - Duplicacy is a function from the commands given so far and the next command to a reply; whether
--   a send arrives is a function of the destination's name. An operation under a lock is one step.
-- - Loops are structural recursions. `deliver`, `send` and the matcher run on fuel: an alert is
--   followed by at most one recovery, so two rounds are enough; a send makes at most one attempt more than it has
--   waits; each round of the matcher reads a byte of the pattern at least, so its length is enough.
--
-- What a backup meets (a hook's end, a stop, a probe's answer, whether a write works) is a record of
-- answers, so that a theorem over all answers holds whatever happens. An edit of the lock file is one
-- step, as its edit lock makes it. A write to a new file that fails leaves the old one as it was; an
-- event that is appended to the lock file may be there, whole or in part, although an error is returned.
-- Arithmetic on uploads is that of 64 bits.
--
-- The window of a copy worker is a parameter: whether it is open at an instant, and when it next
-- changes. A worker's steps are stretches of code under its lock.
--
-- Not modelled: the file system, processes and HTTP below these parts, the texts of log lines, and
-- the parts of the program that only present state or talk to a person.
pub mod Shared
pub mod Inuse
pub mod Copier
pub mod Localprune
pub mod Config
pub mod Health
pub mod Maintenance
pub mod Notify
pub mod Restore
pub mod Resume
pub mod Runlock
pub mod Backup
pub mod Examples
pub mod Forget
