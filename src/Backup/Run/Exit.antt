-- ===== src/Backup/Run/Exit.antt =====
-- The exit code of a backup (internal/pipeline/backup.go: `main`, `exitCode`, `handleStop`).
use archiver.Shared.{
  All, Bool, Bool-cases, Bytes, List, [], any_of, any_of-append, arith, false, inl, inr, map, not,
  sym, true, ℕ, ◌&&◌, ◌++◌, ◌||◌, ◌∙◌, ◌∷◌, ◌≡◌, ◌⊎◌,
}
use archiver.Backup.{Act, errored, lost_primary}
use archiver.Backup.Failing.{is_error}
use archiver.Backup.Copies.{Names, Ended, make_copies}
use archiver.Backup.Copies.Members.{names_of}
use archiver.Backup.Run.Services.{
  saw_stop, dir_of, or_false, run_services-working, run_services-down,
}
use archiver.Backup.Run.Copied.{is_kept, copied}
use archiver.Backup.Run.{
  flatten, Turn, Ran, run_services, MainAnswers, main, after_services, wrap_up, after_working,
  complete, handle_stop, kit_part, copies_ended, run_acts, first_probes, after_adding, errors,
  skip_all,
}

complete-clean : (acts : List Act) → (complete acts).code ≡ 0 → any_of is_error acts ≡ false
unfolding complete
complete-clean acts h = ground arith

complete_left : (xs ys : List Act) → (complete (xs ++ ys)).code ≡ 0 → any_of is_error xs ≡ false
complete_left xs ys h =
    (or_false _ _ (sym (any_of-append is_error xs ys) ∙ complete-clean (xs ++ ys) h)).0

kit_part-clean :
    (a : MainAnswers) (acts : List Act) → (kit_part a acts).code ≡ 0 → any_of is_error acts ≡ false
unfolding kit_part handle_stop
kit_part-clean a acts h = elim (Bool-cases a.stopped_after_kit) [
  | inl halts ↦ absurd (let e = simp halts at h in omega (arith, e))
  | inr goes ↦ complete_left acts (errors a.kit_errors) (simp goes at h)
]

-- After copies that end with no error there was no stop.
copies_ended-clean :
    (a : MainAnswers) (e : Ended) (acts : List Act)
    → (copies_ended a e acts).code ≡ 0
    → (a.stopped_after_copies ≡ false) × (any_of is_error acts ≡ false)
unfolding copies_ended handle_stop
copies_ended-clean a e acts h = elim (Bool-cases a.stopped_after_copies) [
  | inl halts ↦ absurd (let e = simp halts at h in omega (arith, e))
  | inr on ↦ elim (Bool-cases e.lost) [
    | inl lost ↦ (on, complete-clean acts (simp (on, lost) at h))
    | inr kept ↦ (on, kit_part-clean a acts (simp (on, kept) at h))
  ]
]

-- Where no copy workers run: no stop after the copies, and no error among them.
abbrev HasCleanCopies : MainAnswers → Names → Type 0
HasCleanCopies a s =
    a.has_workers ≡ false
    → (a.stopped_after_copies ≡ false)
      × (any_of is_error (run_acts (make_copies a.copy a.secondaries s.down s.held).acts) ≡ false)

wrap_up-clean :
    (a : MainAnswers) (s : Names) (acts : List Act)
    → (wrap_up a s acts).code ≡ 0
    → (any_of is_error acts ≡ false) × HasCleanCopies a s
unfolding wrap_up
wrap_up-clean a s acts h = elim (Bool-cases a.has_workers) [
  | inl left ↦ (kit_part-clean a acts (simp left at h), λ own. absurd (cc (left, own)))
  | inr own ↦
      let e = make_copies a.copy a.secondaries s.down s.held in
      let (on, clean) = copies_ended-clean a e (acts ++ run_acts e.acts) (simp own at h) in
      let (before, copied) =
        or_false _ _ (sym (any_of-append is_error acts (run_acts e.acts)) ∙ clean) in
      (before, λ same. (on, copied))
]

wrapped :
    (a : MainAnswers) (s : Names) (working : List Bytes) (acts : List Act)
    → (after_working a s working acts).code ≡ 0
    → (any_of is_error acts ≡ false) × HasCleanCopies a s
unfolding after_working
wrapped a s [] acts h = absurd (
    let e = complete-clean (acts ++ errored ∷ []) h in
    ground (arith, e, any_of-append is_error acts (errored ∷ [])))
wrapped a s (dir ∷ dirs) acts h = wrap_up-clean a s acts h

-- What follows when a run ends with exit code zero: no service ended it, no stop was seen after
-- the services unless the primary is down, nothing up to their end logged an error, and unless the
-- primary is down the copies did not either.
after_services-clean :
    (a : MainAnswers) (s : Names) (r : Ran) (acts : List Act)
    → (after_services a s r acts).code ≡ 0
    → (r.stop ≡ false)
      × ((r.down ≡ true) ⊎ ((a.stopped_after ≡ false) × HasCleanCopies a s))
      × (any_of is_error acts ≡ false)
unfolding after_services handle_stop
after_services-clean a s r acts h = elim (Bool-cases r.stop) [
  | inl halts ↦ absurd (let e = simp halts at h in omega (arith, e))
  | inr on ↦ elim (Bool-cases r.down) [
    | inl lost ↦ (on, inl lost, complete-clean acts (simp (on, lost) at h))
    | inr kept ↦ elim (Bool-cases a.stopped_after) [
      | inl halts ↦ absurd (let e = simp (on, kept, halts) at h in omega (arith, e))
      | inr goes ↦ elim (Bool-cases (not a.second_probe_ok && not a.stopped_at_second)) [
        | inl gone ↦ absurd (
            let e = complete-clean (acts ++ lost_primary ∷ []) (simp (on, kept, goes, gone) at h) in
            ground (arith, e, any_of-append is_error acts (lost_primary ∷ [])))
        | inr still ↦
            let (clean, copied) = wrapped a s r.working acts (simp (on, kept, goes, still) at h) in
            (on, inr (goes, copied), clean)
      ]
    ]
  ]
]

-- A primary that is lost before the copies is an error.
kept_on :
    (schedule : List ℕ) (groups : List (List Turn)) (P : Type 0)
    → ((run_services schedule groups).down ≡ true) ⊎ P
    → any_of is_error (run_services schedule groups).acts ≡ false
    → P
kept_on schedule groups P (inl lost) quiet =
    absurd (let e = run_services-down schedule groups lost in cc (e, quiet))
kept_on schedule groups P (inr p) quiet = p

-- Without a stop after the services, and without a service that ended the run, no stop was seen.
unstopped :
    (stop after seen : Bool)
    → (seen ≡ true → (stop || after) ≡ true)
    → stop ≡ false
    → after ≡ false
    → seen ≡ false
unstopped stop after seen stays goes on = ground (arith, goes, on, stays)

unsignaled :
    (a : MainAnswers)
    → (a.copy.signaled ≡ true → a.stopped_after_copies ≡ true)
    → a.stopped_after_copies ≡ false
    → a.copy.signaled ≡ false
unsignaled a signals goes = elim (Bool-cases a.copy.signaled) [
  | inl seen ↦ absurd (let e = signals seen in cc (e, goes))
  | inr none_seen ↦ none_seen
]

-- A run whose exit code is zero, however its groups of services interleave, backed up every service;
-- and where no copy workers run, the last copy to every secondary succeeded, or the secondary was held
-- for its copy window, before it was copied to or before a failed copy to it was tried again. Where copy
-- workers run, nothing is said of the secondaries. A stop that is seen before a service comes of a service that ended the run,
-- or is still seen after the services, and a signal that is seen after the first copies is seen after
-- the copies.
pub main-backed_up :
    (a : MainAnswers) (schedule : List ℕ) (groups : List (List Turn))
    → (saw_stop groups ≡ true → ((run_services schedule groups).stop || a.stopped_after) ≡ true)
    → (a.copy.signaled ≡ true → a.stopped_after_copies ≡ true)
    → (main a schedule groups).code ≡ 0
    → (a.first_probe_ok ≡ true)
      × ((run_services schedule groups).working ≡ map dir_of (flatten groups))
      × All (λ n. is_kept a n ≡ true) (names_of a.secondaries)
unfolding main handle_stop is_error
main-backed_up a schedule groups stays signals h = elim (Bool-cases a.first_probe_ok) [
  | inr down ↦ elim (Bool-cases a.stopped_at_first) [
    | inl halts ↦ absurd (let e = simp (down, halts) at h in omega (arith, e))
    | inr on ↦ absurd (
        let e = complete-clean (lost_primary ∷ skip_all (flatten groups)) (simp (down, on) at h) in
        cc e)
  ]
  | inl up ↦
      let r = run_services schedule groups in
      let s = first_probes a in
      let m = after_adding a s in
      let (goes, seen, clean) =
        after_services-clean a m r (run_acts s.acts ++ (r.acts ++ run_acts m.acts))
          (simp up at h) in
      let (probes_quiet, later) =
        or_false _ _
          (sym (any_of-append is_error (run_acts s.acts) (r.acts ++ run_acts m.acts)) ∙ clean) in
      let (quiet, added) =
        or_false _ _ (sym (any_of-append is_error r.acts (run_acts m.acts)) ∙ later) in
      let (on, copies_clean) =
        kept_on schedule groups ((a.stopped_after ≡ false) × HasCleanCopies a m) seen quiet in
      (
        up,
        run_services-working schedule groups
            (unstopped r.stop a.stopped_after (saw_stop groups) stays goes on) goes quiet,
        copied a probes_quiet added (λ own.
            let (ended, clean_copies) = copies_clean own in
            (unsignaled a signals ended, clean_copies)),
      )
]
