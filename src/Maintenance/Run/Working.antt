-- ===== src/Maintenance/Run/Working.antt =====
-- What a storage's maintenance did if the run goes on without an error
-- (internal/maintenance/maintenance.go, `storage`).
use archiver.Shared.{
  ==_refl, Bool, Bytes, List, Option, [], any_of, any_of-append, ap, append-nil, append_assoc,
  arith, branch_cases, either_branch, false, if◌then◌else◌, none, not, refl, some, subst, sym, true,
  ◌&&◌, ◌++◌, ◌==◌, ◌||◌, ◌∙◌, ◌∷◌, ◌≡◌, nat_eq, bytes_eq, int_eq,
}
use archiver.Maintenance.Record.{State, read_state}
use archiver.Maintenance.Storage.{
  Settings, Target, Act, staged, pruning, check_storage, probe, list_revisions, prune_storage,
  errored, Probe, reached, unreachable, stopped, CheckEnd, check_stopped, exited, PruneEnd,
  prune_stopped, ran, Answers, Standing, written_acts, check_ended, check_part, with_acts,
  prune_ended, prune_reached, prune_probed, prune_part, checked_state, storage, exhaustive_due,
  is_listed,
}
use archiver.Maintenance.Storage.Recorded.{passed, ran_well}
use archiver.Maintenance.Storage.Pruning.{with_acts_twice}
use archiver.Maintenance.Run.{is_error}

abbrev pub is_check_of : Bytes → Act → Bool
is_check_of name (check_storage n) = n == name
is_check_of name _ = false

abbrev pub is_prune_of : Bytes → Act → Bool
is_prune_of name (prune_storage n exhaustive) = n == name
is_prune_of name _ = false

-- Whether a storage's check, where checks are on, was run and found nothing, and its prune, where
-- prunes are on, was run and ended without an error.
abbrev pub is_checked : Settings → List Act → Target → Answers → Bool
is_checked c acts t a =
    not c.check_backups || passed a.check_end && any_of (is_check_of t.name) acts

abbrev pub is_pruned : Settings → List Act → Target → Answers → Bool
is_pruned c acts t a =
    not c.prune_backups || ran_well a.prune_end && any_of (is_prune_of t.name) acts

abbrev pub has_error : List Act → Bool
has_error acts = any_of is_error acts

module _ (c : Settings) (t : Target) (a : Answers) where
  -- A part that adds acts, and whose prune worked unless it ended the run or left an error.
  abbrev Works : Standing → Standing → Type 0
  Works s r =
      (new : List Act) × ((r.acts ≡ s.acts ++ new)
        × ((has_error new || (not r.goes_on || is_pruned c new t a)) ≡ true))

  Works-after : (xs : List Act) (s r : Standing) → Works (with_acts xs s) r → Works s r
  unfolding with_acts
  Works-after xs s r (new, (e, h)) = (
    xs ++ new,
    (
      e ∙ append_assoc s.acts xs new,
      ground (arith, h, any_of-append is_error xs new, any_of-append (is_prune_of t.name) xs new),
    ),
  )

  prune_ended-Works :
      (primary exhaustive : Bool) (s : Standing) (end : PruneEnd)
      → end ≡ a.prune_end
      → Works s (
          prune_ended primary exhaustive t a
            (with_acts (prune_storage t.name exhaustive ∷ []) s)
            end)
  unfolding prune_ended with_acts is_error
  prune_ended-Works primary exhaustive s prune_stopped e =
      (prune_storage t.name exhaustive ∷ [], (refl, refl))
  prune_ended-Works primary exhaustive s (ran (some x)) e = (
    prune_storage t.name exhaustive ∷ errored t.name ∷ [],
    (append_assoc s.acts (prune_storage t.name exhaustive ∷ []) (errored t.name ∷ []), refl),
  )
  prune_ended-Works primary exhaustive s (ran none) e = (
    prune_storage t.name exhaustive
        ∷ (written_acts t.name a.prune_written
            ++ (if primary && is_listed a.before then list_revisions t.name ∷ [] else [])),
    (
      append_assoc s.acts (prune_storage t.name exhaustive ∷ []) _,
      ground (arith, ap ran_well e, ==_refl t.name),
    ),
  )

  module _ (primary : Bool) (state : State) where
    prune_reached-Works : (s : Standing) → Works s (prune_reached c primary t a state s)
    unfolding prune_reached with_acts
    prune_reached-Works s =
        let exhaustive = exhaustive_due c a.due_time t.name state in
        let before = staged t.name pruning ∷ (if primary then list_revisions t.name ∷ [] else []) in
        either_branch (Works s) a.stop_before_prune (before, (refl, ground arith))
          (Works-after before s
            (prune_ended primary exhaustive t a
              (with_acts (before ++ prune_storage t.name exhaustive ∷ []) s) a.prune_end)
            (subst
              (λ x. Works (with_acts before s) (prune_ended primary exhaustive t a x a.prune_end))
              (with_acts_twice t a before (prune_storage t.name exhaustive ∷ []) s)
              (prune_ended-Works primary exhaustive (with_acts before s) a.prune_end refl)))

    prune_probed-Works :
        (s : Standing) (reach : Probe) → Works s (prune_probed c primary t a state s reach)
    unfolding prune_probed with_acts is_error
    prune_probed-Works s stopped = ([], (sym (append-nil s.acts), refl))
    prune_probed-Works s unreachable = (errored t.name ∷ [], (refl, refl))
    prune_probed-Works s reached = prune_reached-Works s

    prune_part-Works : (s : Standing) → Works s (prune_part c primary t a state s)
    unfolding prune_part
    prune_part-Works s =
        either_branch (Works s) a.stop_after_check ([], (sym (append-nil s.acts), ground arith))
          (branch_cases (Works s) (not c.prune_backups)
            (λ off. ([], (sym (append-nil s.acts), ground (arith, off))))
            (λ on.
              Works-after (probe t.name ∷ []) s
                (prune_probed c primary t a state (with_acts (probe t.name ∷ []) s) a.reach)
                (prune_probed-Works (with_acts (probe t.name ∷ []) s) a.reach)))

  -- The check, and that the run goes on after one that was not stopped.
  check_ended_works :
      (disk : Option Bytes) (end : CheckEnd)
      → (has_error (check_ended t a disk end).acts
          || (not (check_ended t a disk end).goes_on
              || passed end && any_of (is_check_of t.name) (check_ended t a disk end).acts))
        ≡ true
  unfolding check_ended is_error
  check_ended_works disk check_stopped = refl
  check_ended_works disk (exited false) = refl
  check_ended_works disk (exited true) = ground (arith, ==_refl t.name)

  check_part_works :
      (disk : Option Bytes)
      → (has_error (check_part c t a disk).acts
          || (not (check_part c t a disk).goes_on || is_checked c (check_part c t a disk).acts t a))
        ≡ true
  unfolding check_part
  check_part_works disk = ground (arith, check_ended_works disk a.check_end)

  -- A storage's check and prune worked unless they ended the run or left an error.
  pub storage_works :
      (primary : Bool) (disk : Option Bytes)
      → (has_error (storage c primary t a disk).acts
          || (not (storage c primary t a disk).goes_on
              || is_checked c (storage c primary t a disk).acts t a
                && is_pruned c (storage c primary t a disk).acts t a))
        ≡ true
  unfolding storage
  storage_works primary disk =
      let s = check_part c t a disk in
      branch_cases
        (λ (r : Standing).
          (has_error r.acts || (not r.goes_on || is_checked c r.acts t a && is_pruned c r.acts t a))
          ≡ true)
        (not s.goes_on) (λ ended. ground (arith, ended))
        (λ going.
          let (new, (e, h)) = prune_part-Works primary (checked_state c t a (read_state disk)) s in
          ground (
            arith,
            going,
            h,
            check_part_works disk,
            ap has_error e,
            ap (any_of (is_check_of t.name)) e,
            ap (any_of (is_prune_of t.name)) e,
            any_of-append is_error s.acts new,
            any_of-append (is_check_of t.name) s.acts new,
            any_of-append (is_prune_of t.name) s.acts new,
          ))
