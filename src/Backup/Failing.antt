-- ===== src/Backup/Failing.antt =====
-- A service that does not back up (internal/pipeline/backup.go, `processService`): the run is
-- stopped, or an error is in the log.
use archiver.Shared.{
  Bool, Bool-cases, Bytes, List, Option, [], any_of, any_of-append, arith, codes, false,
  if◌then◌else◌, inl, inr, none, not, refl, some, true, ◌++◌, ◌||◌, ◌∷◌, ◌≡◌,
}
use archiver.Backup.{
  lost_primary, Act, staged, backed_up, errored, Result, Answers, BackupAnswers, BackupEnd, exited,
  stop_seen, Standing, Outcome, backup_part, pre_part, after_pre, end_of, primary_backup, with_acts,
  last_part, end_part, refused, finish_service, backup_service, with_hooks, process_service,
  is_success, is_stopped, context_of, then_do, error_if, failed, skipped, stopped,
}

-- The acts that log an error: the primary's loss is said once, as it is found.
unfoldable pub is_error : Act → Bool
is_error x = elim x [ errored ↦ true | lost_primary ↦ true | _ ↦ false ]

-- A result that needs no error, or an error among the acts.
explained : Result × List Act → Bool
unfolding is_error
explained (r, acts) = is_success r || (is_stopped r || any_of is_error acts)

explained_by : Standing → Bool
unfolding explained
explained_by s = explained (s.result, s.acts)

either-explained :
    (b : Bool) (x y : Result × List Act)
    → explained x ≡ true
    → explained y ≡ true
    → explained (if b then x else y) ≡ true
either-explained true x y h k = h
either-explained false x y h k = k

either-explained_by :
    (b : Bool) (x y : Standing)
    → explained_by x ≡ true
    → explained_by y ≡ true
    → explained_by (if b then x else y) ≡ true
either-explained_by true x y h k = h
either-explained_by false x y h k = k

end_of-explained : (e : BackupEnd) → explained (end_of e) ≡ true
unfolding end_of explained is_success is_stopped
end_of-explained stop_seen = refl
end_of-explained (exited true ok) = refl
end_of-explained (exited false true) = refl
end_of-explained (exited false false) = refl

with_acts-explained :
    (before : List Act) (x : Result × List Act)
    → explained x ≡ true
    → explained (with_acts before x) ≡ true
unfolding explained
with_acts-explained before (r, acts) h = rw (any_of-append is_error before acts) (ground arith)

error-explained : (r : Result) (acts : List Act) → explained (r, errored ∷ acts) ≡ true
unfolding explained
error-explained r acts = ground arith

primary_backup-explained : (a : BackupAnswers) → explained (primary_backup a) ≡ true
unfolding primary_backup
primary_backup-explained a =
    either-explained (not a.url_ok || not a.repo_ok) _ _ (error-explained failed []) (
      with_acts-explained (error_if (not a.preferences_removed)) _ (
        either-explained (not a.init_ok) _ _ (error-explained failed (error_if a.diagnosed)) (
          with_acts-explained (error_if (not a.list_ok) ++ error_if (not a.filters_written)) _ (
            either-explained a.start_ok _ _ (end_of-explained a.run_end)
              (error-explained failed [])))))

pre_part-explained : (a : Answers) (dir : Bytes) (p : Bool) → explained_by (pre_part a dir p) ≡ true
unfolding pre_part after_pre is_success is_stopped explained_by
pre_part-explained a dir p = ground arith

halted-explained : (s : Standing) → explained_by (record s { result = stopped }) ≡ true
unfolding explained_by is_success is_stopped
halted-explained s = refl

-- Acts before and after those that explain a result.
begun-explained :
    (s : Standing) (more : List Act) (x : Result × List Act)
    → explained x ≡ true
    → explained_by (record { acts = s.acts ++ (more ++ x.1); pre_ran = s.pre_ran; result = x.0 })
      ≡ true
unfolding explained_by
begun-explained s more (r, acts) h =
    with_acts-explained s.acts (r, more ++ acts) (with_acts-explained more (r, acts) h)

backup_part-explained :
    (a : Answers) (dir : Bytes) (s : Standing)
    → explained_by s ≡ true
    → explained_by (backup_part a dir s) ≡ true
unfolding backup_part
backup_part-explained a dir s h = either-explained_by (not (is_success s.result)) _ _ h (
    either-explained_by a.stopped_before_backup _ _ (halted-explained s) (
      begun-explained s (staged (context_of dir) (codes "backup") ∷ backed_up dir ∷ [])
        (primary_backup a.backup) (primary_backup-explained a.backup)))

any_of_left : (xs ys : List Act) → any_of is_error xs ≡ true → any_of is_error (xs ++ ys) ≡ true
any_of_left xs ys h = rw (any_of-append is_error xs ys, h) refl

end_part-stop :
    (a : Answers) (dir : Bytes) (r : Result)
    → (end_part a dir r).ok ≡ false
    → (end_part a dir r).stop ≡ false
    → (is_success r || is_stopped r) ≡ false
unfolding end_part
end_part-stop a dir r bad goes = elim (Bool-cases (is_success r)) [
  | inl fine ↦ absurd (let h = rw fine at bad in cc h)
  | inr other ↦ elim (Bool-cases (is_stopped r)) [
    | inl halts ↦ absurd (let h = rw (other, halts) at goes in cc h)
    | inr never ↦ rw (other, never) refl
  ]
]

needs_error :
    (r : Result) (acts : List Act)
    → explained (r, acts) ≡ true
    → (is_success r || is_stopped r) ≡ false
    → any_of is_error acts ≡ true
unfolding explained
needs_error r acts h other = ground arith

-- An outcome that is good, ends the run, or comes with an error.
accounted : Outcome → Bool
unfolding is_error
accounted o = o.ok || (o.stop || any_of is_error o.acts)

either-accounted :
    (b : Bool) (x y : Outcome)
    → accounted x ≡ true
    → accounted y ≡ true
    → accounted (if b then x else y) ≡ true
either-accounted true x y h k = h
either-accounted false x y h k = k

finish_service-accounted :
    (a : Answers) (dir : Bytes) (p q : Bool) (s : Standing)
    → explained_by s ≡ true
    → accounted (finish_service a dir p q s) ≡ true
unfolding finish_service last_part explained_by is_error accounted
finish_service-accounted a dir p q s h = elim (Bool-cases (end_part a dir s.result).ok) [
  | inl good ↦ rw good refl
  | inr bad ↦ elim (Bool-cases (end_part a dir s.result).stop) [
    | inl halts ↦ rw (bad, halts) refl
    | inr goes ↦
        rw (bad, goes)
          (any_of_left (staged (context_of dir) (codes "pre-backup") ∷ (s.acts ++ _)) _ (
            any_of_left s.acts _
              (needs_error s.result s.acts h (end_part-stop a dir s.result bad goes))))
  ]
]

refused-accounted : (dir : Bytes) (r : Result) → accounted (refused dir r) ≡ true
unfolding refused accounted
refused-accounted dir r = refl

skipped-accounted :
    (dir : Bytes)
    → accounted (then_do (staged (context_of dir) (codes "pre-backup") ∷ []) (refused dir skipped))
      ≡ true
unfolding refused accounted
skipped-accounted dir = refl

backup_service-accounted :
    (a : Answers) (dir : Bytes) (p q down : Bool) → accounted (backup_service a dir p q down) ≡ true
unfolding backup_service
backup_service-accounted a dir p q down =
    either-accounted (not a.state_made) _ _ (refused-accounted dir failed) (
      either-accounted down _ _ (skipped-accounted dir) (
        finish_service-accounted a dir p q _
          (backup_part-explained a dir _ (pre_part-explained a dir p))))

with_hooks-accounted :
    (a : Answers) (dir : Bytes) (down : Bool) (pre post : Option Bool)
    → accounted (with_hooks a dir down pre post) ≡ true
unfolding with_hooks
with_hooks-accounted a dir down none post = refused-accounted dir failed
with_hooks-accounted a dir down (some p) none = refused-accounted dir failed
with_hooks-accounted a dir down (some p) (some q) = backup_service-accounted a dir p q down

process_service-accounted :
    (a : Answers) (dir : Bytes) (down : Bool) → accounted (process_service a dir down) ≡ true
unfolding process_service
process_service-accounted a dir down =
    either-accounted (not a.is_dir || (not a.valid_id || (a.has_legacy || not a.filters_ok))) _ _
      (refused-accounted dir failed) (with_hooks-accounted a dir down a.pre_exists a.post_exists)

-- A service that is not backed up leaves an error in the log, unless it ends the run.
pub process_service-errors :
    (a : Answers) (dir : Bytes) (down : Bool)
    → (process_service a dir down).ok ≡ false
    → (process_service a dir down).stop ≡ false
    → any_of is_error (process_service a dir down).acts ≡ true
unfolding accounted
process_service-errors a dir down bad goes =
    let h = process_service-accounted a dir down in ground arith
