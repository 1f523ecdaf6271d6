-- ===== src/Backup/Quiet.antt =====
-- The acts of a service's backup that touch no hook, no record and no outcome.
use archiver.Shared.{
  Bool, Bool-cases, Bytes, List, [], all_of, all_of-append, append-nil, arith, codes, false, inl,
  inr, not, refl, sym, true, ◌++◌, ◌∷◌, ◌≡◌,
}
use archiver.Backup.{
  Act, staged, recorded, pre_hook, post_hook, backed_up, probed, lost_primary, noted,
  storages_added, errored, Result, Answers, BackupAnswers, BackupEnd, exited, stop_seen, Standing,
  end_of, primary_backup, error_if, backup_part, is_success, probe_part, end_part, context_of,
}

unfoldable pub quiet : Act → Bool
quiet (staged c s) = true
quiet (recorded d s w) = false
quiet (pre_hook d) = false
quiet (post_hook d r) = false
quiet (backed_up d) = true
quiet probed = true
quiet lost_primary = true
quiet (noted d r) = false
quiet (storages_added d) = true
quiet errored = true

all_quiet_both :
    (xs ys : List Act)
    → all_of quiet xs ≡ true
    → all_of quiet ys ≡ true
    → all_of quiet (xs ++ ys) ≡ true
all_quiet_both xs ys h k = rw (all_of-append quiet xs ys, h) k

error_if-quiet : (b : Bool) → all_of quiet (error_if b) ≡ true
unfolding quiet
error_if-quiet true = refl
error_if-quiet false = refl

end_of-quiet : (e : BackupEnd) → all_of quiet (end_of e).1 ≡ true
unfolding end_of quiet
end_of-quiet stop_seen = refl
end_of-quiet (exited true ok) = refl
end_of-quiet (exited false true) = refl
end_of-quiet (exited false false) = refl

pub primary_backup-quiet : (a : BackupAnswers) → all_of quiet (primary_backup a).1 ≡ true
unfolding primary_backup quiet
primary_backup-quiet a = ground (
  arith,
  end_of-quiet a.run_end,
  all_quiet_both (error_if (not a.list_ok) ++ error_if (not a.filters_written))
      (end_of a.run_end).1,
  all_quiet_both (error_if (not a.list_ok)) (error_if (not a.filters_written)),
)

-- What the backup itself adds to what was done before it is quiet.
pub backup_part-quiet :
    (a : Answers) (dir : Bytes) (s : Standing)
    → (extra : List Act) × (((backup_part a dir s).acts ≡ s.acts ++ extra)
        × (all_of quiet extra ≡ true)
        × ((backup_part a dir s).pre_ran ≡ s.pre_ran))
unfolding backup_part quiet
backup_part-quiet a dir s = elim (Bool-cases (is_success s.result)) [
  | inr fails ↦ ([], (rw fails (sym (append-nil s.acts)), refl, rw fails refl))
  | inl fine ↦ elim (Bool-cases a.stopped_before_backup) [
    | inl halts ↦ ([], (rw (fine, halts) (sym (append-nil s.acts)), refl, rw (fine, halts) refl))
    | inr goes ↦ (
      staged (context_of dir) (codes "backup") ∷ backed_up dir ∷ (primary_backup a.backup).1,
      (rw (fine, goes) refl, primary_backup-quiet a.backup, rw (fine, goes) refl),
    )
  ]
]

pub probe_part-quiet : (a : Answers) (r : Result) → all_of quiet (probe_part a r) ≡ true
unfolding probe_part quiet
probe_part-quiet a r = ground arith

pub end_part-quiet :
    (a : Answers) (dir : Bytes) (r : Result) → all_of quiet (end_part a dir r).acts ≡ true
unfolding end_part quiet
end_part-quiet a dir r = ground arith
