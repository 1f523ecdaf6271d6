-- ===== src/Restore/Guard/Locks.antt =====
-- Who holds the locks of restores and backups (internal/restore/restore.go,
-- internal/pipeline/backup.go).
use archiver.Shared.{
  ==_comm, Bool, Bool-cases, Option, ap, arith, false, inl, inr, none, not, refl, some, true, ℕ,
  ◌==◌, ◌||◌, ◌∙◌, ◌≡◌, nat_eq, bytes_eq, int_eq,
}
use archiver.Restore.Guard.{
  RestorePhase, away, locked, restoring, BackupPhase, absent, acquired, probing, running, Holder,
  by_restore, by_backup, System, at_start,
}

abbrev pub is_restoring : RestorePhase → Bool
is_restoring restoring = true
is_restoring _ = false

abbrev pub is_running : BackupPhase → Bool
is_running running = true
is_running _ = false

abbrev pub is_away : RestorePhase → Bool
is_away away = true
is_away _ = false

abbrev pub is_absent : BackupPhase → Bool
is_absent absent = true
is_absent _ = false

abbrev pub is_probing : BackupPhase → Bool
is_probing probing = true
is_probing _ = false

abbrev pub is_restore : ℕ → Option Holder → Bool
is_restore n (some (by_restore m)) = n == m
is_restore n _ = false

abbrev pub is_backup : ℕ → Option Holder → Bool
is_backup n (some (by_backup m)) = n == m
is_backup n _ = false

abbrev pub is_holder : ℕ → Option ℕ → Bool
is_holder n (some m) = n == m
is_holder n none = false

-- Who holds the locks, and what holds while a restore goes on.
pub record IsGuarded (s : System) : Type 0 where
  pub restores_hold : (n : ℕ) → not (is_away (s.restores n)) ≡ is_restore n s.restore_lock
  pub probes_hold : (n : ℕ) → is_probing (s.backups n) ≡ is_backup n s.restore_lock
  pub backups_hold : (n : ℕ) → not (is_absent (s.backups n)) ≡ is_holder n s.backup_lock
  pub apart :
      (n m : ℕ) → (not (is_restoring (s.restores n)) || not (is_running (s.backups m))) ≡ true

pub at_start-IsGuarded : IsGuarded at_start
at_start-IsGuarded = record {
  restores_hold = λ n. refl;
  probes_hold = λ n. refl;
  backups_hold = λ n. refl;
  apart = λ n m. refl;
}

pub away_not : (p : RestorePhase) → is_away p ≡ true → is_restoring p ≡ false
away_not away h = refl
away_not locked h = absurd (ground (arith, h))
away_not restoring h = absurd (ground (arith, h))

absent_not : (p : BackupPhase) → is_absent p ≡ true → is_running p ≡ false
absent_not absent h = refl
absent_not acquired h = absurd (ground (arith, h))
absent_not probing h = absurd (ground (arith, h))
absent_not running h = absurd (ground (arith, h))

is_restore_inv : (n : ℕ) (l : Option Holder) → is_restore n l ≡ true → l ≡ some (by_restore n)
is_restore_inv n none h = absurd (ground (arith, h))
is_restore_inv n (some (by_restore m)) h = ap (λ k. some (by_restore k)) (ground (arith, h))
is_restore_inv n (some (by_backup m)) h = absurd (ground (arith, h))

is_backup_inv : (n : ℕ) (l : Option Holder) → is_backup n l ≡ true → l ≡ some (by_backup n)
is_backup_inv n none h = absurd (ground (arith, h))
is_backup_inv n (some (by_backup m)) h = ap (λ k. some (by_backup k)) (ground (arith, h))
is_backup_inv n (some (by_restore m)) h = absurd (ground (arith, h))

is_holder_inv : (n : ℕ) (l : Option ℕ) → is_holder n l ≡ true → l ≡ some n
is_holder_inv n none h = absurd (ground (arith, h))
is_holder_inv n (some m) h = ap (λ k. some k) (ground (arith, h))

module _ (s : System) (g : IsGuarded s) (n : ℕ) where
  -- A restore that is not away holds the lock alone.
  pub restore_alone :
      is_away (s.restores n) ≡ false
      → (k : ℕ) → (not (is_away (s.restores k)) ≡ (k == n)) × (is_probing (s.backups k) ≡ false)
  restore_alone here k =
      let owned = is_restore_inv n s.restore_lock (ground (arith, here, g.restores_hold n)) in
      (g.restores_hold k ∙ ap (is_restore k) owned, g.probes_hold k ∙ ap (is_backup k) owned)

  -- A backup that looks at the lock keeps every restore out.
  pub probe_alone :
      is_probing (s.backups n) ≡ true
      → (k : ℕ) → (is_away (s.restores k) ≡ true) × (is_probing (s.backups k) ≡ (k == n))
  probe_alone here k =
      let owned = is_backup_inv n s.restore_lock (ground (arith, here, g.probes_hold n)) in
      (
        ground (arith, g.restores_hold k, ap (is_restore k) owned),
        g.probes_hold k ∙ ap (is_backup k) owned,
      )

  -- A backup that is not absent holds the backup lock alone.
  pub backup_alone :
      is_absent (s.backups n) ≡ false → (k : ℕ) → not (is_absent (s.backups k)) ≡ (k == n)
  backup_alone here k =
      let owned = is_holder_inv n s.backup_lock (ground (arith, here, g.backups_hold n)) in
      g.backups_hold k ∙ ap (is_holder k) owned

  pub one_restore :
      (m : ℕ)
      → (not (is_restoring (s.restores n)) || (not (is_restoring (s.restores m)) || n == m)) ≡ true
  one_restore m = elim (Bool-cases (is_away (s.restores n))) [
    | inl gone ↦ ground (arith, away_not (s.restores n) gone)
    | inr here ↦ ground (arith, (restore_alone here m).0, away_not (s.restores m), ==_comm n m)
  ]

  pub one_backup :
      (m : ℕ)
      → (not (is_running (s.backups n)) || (not (is_running (s.backups m)) || n == m)) ≡ true
  one_backup m = elim (Bool-cases (is_absent (s.backups n))) [
    | inl gone ↦ ground (arith, absent_not (s.backups n) gone)
    | inr here ↦ ground (arith, backup_alone here m, absent_not (s.backups m), ==_comm n m)
  ]
