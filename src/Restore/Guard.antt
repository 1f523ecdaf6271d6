-- ===== src/Restore/Guard.antt =====
-- Restores into service directories and backups, in any order (internal/restore/restore.go: `guard`,
-- `backupRunning`, `release`; internal/pipeline/backup.go: `pipeline`; internal/runlock/runlock.go:
-- `Hold`). Any number of processes restore and back up; a move is the stretch of one of them that one
-- lock decides, and a process that dies loses its locks. The backup lock is held by one live process
-- at most, and can be read.
use archiver.Shared.{
  List, Option, [], if◌then◌else◌, none, some, ℕ, ◌==◌, ◌∷◌, nat_eq, bytes_eq, int_eq,
}
pub mod Locks
pub mod Apart

pub data RestorePhase : Type 0 where
  away locked restoring : RestorePhase

pub data BackupPhase : Type 0 where
  absent acquired probing running : BackupPhase

-- Who has the kernel lock of restores: a restore, or a backup that looks whether it is free.
pub data Holder : Type 0 where
  by_restore by_backup : ℕ → Holder

pub record System : Type 0 where
  pub restores : ℕ → RestorePhase
  pub backups : ℕ → BackupPhase
  pub restore_lock : Option Holder
  pub backup_lock : Option ℕ

unfoldable pub set_at : {A : Type 0} → ℕ → A → (ℕ → A) → ℕ → A
set_at n a f m = if n == m then a else f m

abbrev pub at_start : System
at_start = record {
  restores = λ n. away;
  backups = λ n. absent;
  restore_lock = none;
  backup_lock = none;
}

pub data Move : Type 0 where
  restore_holds restore_checks restore_ends : ℕ → Move
  backup_acquires backup_probes backup_closes backup_ends : ℕ → Move

-- `guard` up to `Hold`: another restore's lock refuses this one.
unfoldable pub hold : ℕ → RestorePhase → Option Holder → System → System
unfolding set_at
hold n away none s = record s {
  restores = set_at n locked s.restores;
  restore_lock = some (by_restore n);
}
hold n _ _ s = s

-- `guard` after `Hold`: a backup that runs ends the restore before it began.
unfoldable pub check : ℕ → RestorePhase → Option ℕ → System → System
unfolding set_at
check n locked none s = record s { restores = set_at n restoring s.restores }
check n locked (some m) s = record s { restores = set_at n away s.restores; restore_lock = none }
check n _ _ s = s

-- `release`, or the end of the process.
unfoldable pub leave : ℕ → RestorePhase → System → System
unfolding set_at
leave n away s = s
leave n _ s = record s { restores = set_at n away s.restores; restore_lock = none }

-- `pipeline` up to `Acquire`: another backup's lock refuses this one.
unfoldable pub acquire : ℕ → BackupPhase → Option ℕ → System → System
unfolding set_at
acquire n absent none s = record s { backups = set_at n acquired s.backups; backup_lock = some n }
acquire n _ _ s = s

-- `pipeline` at `Hold`: a restore that holds its lock ends the backup before it began.
unfoldable pub probe : ℕ → BackupPhase → Option Holder → System → System
unfolding set_at
probe n acquired none s = record s {
  backups = set_at n probing s.backups;
  restore_lock = some (by_backup n);
}
probe n acquired (some h) s = record s { backups = set_at n absent s.backups; backup_lock = none }
probe n _ _ s = s

-- `pipeline` at `Close`.
unfoldable pub close : ℕ → BackupPhase → System → System
unfolding set_at
close n probing s = record s { backups = set_at n running s.backups; restore_lock = none }
close n _ s = s

-- The end of a backup, or of its process.
unfoldable pub finish : ℕ → BackupPhase → System → System
unfolding set_at
finish n absent s = s
finish n probing s = record s {
  backups = set_at n absent s.backups;
  restore_lock = none;
  backup_lock = none;
}
finish n _ s = record s { backups = set_at n absent s.backups; backup_lock = none }

unfoldable pub move : Move → System → System
unfolding hold check leave acquire probe close finish
move (restore_holds n) s = hold n (s.restores n) s.restore_lock s
move (restore_checks n) s = check n (s.restores n) s.backup_lock s
move (restore_ends n) s = leave n (s.restores n) s
move (backup_acquires n) s = acquire n (s.backups n) s.backup_lock s
move (backup_probes n) s = probe n (s.backups n) s.restore_lock s
move (backup_closes n) s = close n (s.backups n) s
move (backup_ends n) s = finish n (s.backups n) s

unfoldable pub moves : List Move → System → System
unfolding move
moves [] s = s
moves (m ∷ ms) s = moves ms (move m s)
