-- ===== src/Restore/Guard/Apart.antt =====
-- No backup runs while a restore into a service directory does (internal/restore/restore.go,
-- internal/pipeline/backup.go).
use archiver.Shared.{
  List, Option, [], ap, arith, none, not, refl, some, sym, true, ℕ, ◌==◌, ◌||◌, ◌∷◌, ◌≡◌, nat_eq,
  bytes_eq, int_eq,
}
use archiver.Restore.Guard.{
  RestorePhase, away, locked, restoring, BackupPhase, absent, acquired, probing, running, Holder,
  System, set_at, at_start, Move, restore_holds, restore_checks, restore_ends, backup_acquires,
  backup_probes, backup_closes, backup_ends, hold, check, leave, acquire, probe, close, finish,
  move, moves,
}
use archiver.Restore.Guard.Locks.{
  IsGuarded, is_restoring, is_running, is_away, is_absent, is_probing, is_restore, is_backup,
  is_holder, restore_alone, probe_alone, backup_alone, one_restore, one_backup, away_not,
  at_start-IsGuarded,
}

hold-IsGuarded :
    (n : ℕ) (p : RestorePhase) (l : Option Holder) (s : System)
    → p ≡ s.restores n
    → l ≡ s.restore_lock
    → IsGuarded s
    → IsGuarded (hold n p l s)
unfolding hold set_at
hold-IsGuarded n away none s e f g = record {
  restores_hold = λ k. ground (arith, e, f, g.restores_hold k, ap (is_restore k) f);
  probes_hold = λ k. ground (arith, e, f, g.probes_hold k, ap (is_backup k) f);
  backups_hold = g.backups_hold;
  apart = λ k m. ground (arith, g.apart k m);
}
hold-IsGuarded n away (some h) s e f g = g
hold-IsGuarded n locked l s e f g = g
hold-IsGuarded n restoring l s e f g = g

check-IsGuarded :
    (n : ℕ) (p : RestorePhase) (l : Option ℕ) (s : System)
    → p ≡ s.restores n
    → l ≡ s.backup_lock
    → IsGuarded s
    → IsGuarded (check n p l s)
unfolding check set_at
check-IsGuarded n locked none s e f g = record {
  restores_hold = λ k. ground (arith, e, g.restores_hold k, ap is_away e);
  probes_hold = g.probes_hold;
  backups_hold = g.backups_hold;
  apart = λ k m. ground (arith, g.apart k m, g.backups_hold m, ap (is_holder m) f);
}
check-IsGuarded n locked (some b) s e f g = record {
  restores_hold = λ k. ground (arith, (restore_alone s g n (ap is_away (sym e)) k).0);
  probes_hold = λ k. (restore_alone s g n (ap is_away (sym e)) k).1;
  backups_hold = g.backups_hold;
  apart = λ k m. ground (arith, g.apart k m);
}
check-IsGuarded n away l s e f g = g
check-IsGuarded n restoring l s e f g = g

leave-IsGuarded :
    (n : ℕ) (p : RestorePhase) (s : System)
    → p ≡ s.restores n
    → IsGuarded s
    → IsGuarded (leave n p s)
unfolding leave set_at
leave-IsGuarded n away s e g = g
leave-IsGuarded n locked s e g = record {
  restores_hold = λ k. ground (arith, (restore_alone s g n (ap is_away (sym e)) k).0);
  probes_hold = λ k. (restore_alone s g n (ap is_away (sym e)) k).1;
  backups_hold = g.backups_hold;
  apart = λ k m. ground (arith, g.apart k m);
}
leave-IsGuarded n restoring s e g = record {
  restores_hold = λ k. ground (arith, (restore_alone s g n (ap is_away (sym e)) k).0);
  probes_hold = λ k. (restore_alone s g n (ap is_away (sym e)) k).1;
  backups_hold = g.backups_hold;
  apart = λ k m. ground (arith, g.apart k m);
}

acquire-IsGuarded :
    (n : ℕ) (p : BackupPhase) (l : Option ℕ) (s : System)
    → p ≡ s.backups n
    → l ≡ s.backup_lock
    → IsGuarded s
    → IsGuarded (acquire n p l s)
unfolding acquire set_at
acquire-IsGuarded n absent none s e f g = record {
  restores_hold = g.restores_hold;
  probes_hold = λ k. ground (arith, e, g.probes_hold k, ap is_probing e);
  backups_hold = λ k. ground (arith, e, g.backups_hold k, ap (is_holder k) f);
  apart = λ k m. ground (arith, g.apart k m);
}
acquire-IsGuarded n absent (some m) s e f g = g
acquire-IsGuarded n acquired l s e f g = g
acquire-IsGuarded n probing l s e f g = g
acquire-IsGuarded n running l s e f g = g

probe-IsGuarded :
    (n : ℕ) (p : BackupPhase) (l : Option Holder) (s : System)
    → p ≡ s.backups n
    → l ≡ s.restore_lock
    → IsGuarded s
    → IsGuarded (probe n p l s)
unfolding probe set_at
probe-IsGuarded n acquired none s e f g = record {
  restores_hold = λ k. ground (arith, g.restores_hold k, ap (is_restore k) f);
  probes_hold = λ k. ground (arith, g.probes_hold k, ap (is_backup k) f);
  backups_hold = λ k. ground (arith, g.backups_hold k, backup_alone s g n (ap is_absent (sym e)) k);
  apart = λ k m. ground (arith, g.apart k m);
}
probe-IsGuarded n acquired (some h) s e f g = record {
  restores_hold = g.restores_hold;
  probes_hold = λ k. ground (arith, g.probes_hold k, ap is_probing e);
  backups_hold = λ k. ground (arith, backup_alone s g n (ap is_absent (sym e)) k);
  apart = λ k m. ground (arith, g.apart k m);
}
probe-IsGuarded n absent l s e f g = g
probe-IsGuarded n probing l s e f g = g
probe-IsGuarded n running l s e f g = g

close-IsGuarded :
    (n : ℕ) (p : BackupPhase) (s : System) → p ≡ s.backups n → IsGuarded s → IsGuarded (close n p s)
unfolding close set_at
close-IsGuarded n probing s e g = record {
  restores_hold = λ k. ground (arith, (probe_alone s g n (ap is_probing (sym e)) k).0);
  probes_hold = λ k. ground (arith, (probe_alone s g n (ap is_probing (sym e)) k).1);
  backups_hold = λ k. ground (arith, g.backups_hold k, backup_alone s g n (ap is_absent (sym e)) k);
  apart = λ k m. ground (
    arith,
    g.apart k m,
    (probe_alone s g n (ap is_probing (sym e)) k).0,
    away_not (s.restores k),
  );
}
close-IsGuarded n absent s e g = g
close-IsGuarded n acquired s e g = g
close-IsGuarded n running s e g = g

finish-IsGuarded :
    (n : ℕ) (p : BackupPhase) (s : System)
    → p ≡ s.backups n
    → IsGuarded s
    → IsGuarded (finish n p s)
unfolding finish set_at
finish-IsGuarded n absent s e g = g
finish-IsGuarded n probing s e g = record {
  restores_hold = λ k. ground (arith, (probe_alone s g n (ap is_probing (sym e)) k).0);
  probes_hold = λ k. ground (arith, (probe_alone s g n (ap is_probing (sym e)) k).1);
  backups_hold = λ k. ground (arith, backup_alone s g n (ap is_absent (sym e)) k);
  apart = λ k m. ground (arith, g.apart k m);
}
finish-IsGuarded n acquired s e g = record {
  restores_hold = g.restores_hold;
  probes_hold = λ k. ground (arith, g.probes_hold k, ap is_probing e);
  backups_hold = λ k. ground (arith, backup_alone s g n (ap is_absent (sym e)) k);
  apart = λ k m. ground (arith, g.apart k m);
}
finish-IsGuarded n running s e g = record {
  restores_hold = g.restores_hold;
  probes_hold = λ k. ground (arith, g.probes_hold k, ap is_probing e);
  backups_hold = λ k. ground (arith, backup_alone s g n (ap is_absent (sym e)) k);
  apart = λ k m. ground (arith, g.apart k m);
}

move-IsGuarded : (m : Move) (s : System) → IsGuarded s → IsGuarded (move m s)
unfolding move
move-IsGuarded (restore_holds n) s g = hold-IsGuarded n (s.restores n) s.restore_lock s refl refl g
move-IsGuarded (restore_checks n) s g = check-IsGuarded n (s.restores n) s.backup_lock s refl refl g
move-IsGuarded (restore_ends n) s g = leave-IsGuarded n (s.restores n) s refl g
move-IsGuarded (backup_acquires n) s g =
    acquire-IsGuarded n (s.backups n) s.backup_lock s refl refl g
move-IsGuarded (backup_probes n) s g = probe-IsGuarded n (s.backups n) s.restore_lock s refl refl g
move-IsGuarded (backup_closes n) s g = close-IsGuarded n (s.backups n) s refl g
move-IsGuarded (backup_ends n) s g = finish-IsGuarded n (s.backups n) s refl g

moves-IsGuarded : (ms : List Move) (s : System) → IsGuarded s → IsGuarded (moves ms s)
unfolding moves
moves-IsGuarded [] s g = g
moves-IsGuarded (m ∷ ms) s g = moves-IsGuarded ms (move m s) (move-IsGuarded m s g)

-- However restores into service directories and backups begin, look at each other's locks, end and
-- die: no backup runs while a restore goes on, and no two restores or two backups go on at once.
pub moves_apart :
    (ms : List Move) (n m : ℕ)
    → ((not (is_restoring ((moves ms at_start).restores n))
          || not (is_running ((moves ms at_start).backups m)))
        ≡ true)
      × (((not (is_restoring ((moves ms at_start).restores n))
              || (not (is_restoring ((moves ms at_start).restores m)) || n == m))
            ≡ true)
          × ((not (is_running ((moves ms at_start).backups n))
                || (not (is_running ((moves ms at_start).backups m)) || n == m))
              ≡ true))
moves_apart ms n m =
    let s = moves ms at_start in
    let g = moves-IsGuarded ms at_start at_start-IsGuarded in
    (g.apart n m, (one_restore s g n m, one_backup s g n m))
