-- ===== src/Backup/Run/Copied.antt =====
-- The copies of a run that logs no error (internal/pipeline/backup.go: `main`, `copies`).
use archiver.Shared.{
  All, All-map, All-total, Bool, Bool-cases, Bytes, List, [], any_of, arith, contains,
  contains_self, false, inl, inr, map, refl, true, ◌||◌, ◌∷◌, ◌≡◌, nat_eq, bytes_eq, int_eq,
}
use archiver.Backup.Copies.{CopyAct, Names, unreachable, probe_all, make_copies}
use archiver.Backup.Copies.Members.{names_of}
use archiver.Backup.Copies.Fates.{fate, is_held, is_copied}
use archiver.Backup.Copies.Quiet.{
  is_error_of, is_loss, make_copies-quiet, make_copies-lost, probe_all-down,
}
use archiver.Backup.Failing.{is_error}
use archiver.Backup.Run.{MainAnswers, run_acts, first_probes, after_adding, none_marked}

-- In a run with these answers a secondary is copied or held for its window, or the copy workers keep
-- it.
abbrev pub is_kept : MainAnswers → Bytes → Bool
is_kept a n =
    let s = after_adding a (first_probes a) in
    let f = fate a.copy n (s.down n) (s.held n) in a.has_workers || (is_held f || is_copied f)

run_acts-error :
    (n : Bytes) (acts : List CopyAct)
    → any_of is_error (run_acts acts) ≡ false
    → any_of (is_error_of n) acts ≡ false
unfolding run_acts is_error
run_acts-error n [] h = refl
run_acts-error n (x ∷ xs) h = ground (arith, h, run_acts-error n xs)

run_acts-loss :
    (acts : List CopyAct) → any_of is_error (run_acts acts) ≡ false → any_of is_loss acts ≡ false
unfolding run_acts is_error
run_acts-loss [] h = refl
run_acts-loss (x ∷ xs) h = ground (arith, h, run_acts-loss xs)

first_probes-up :
    (a : MainAnswers) (n : Bytes)
    → any_of is_error (run_acts (first_probes a).acts) ≡ false
    → (first_probes a).down n ≡ false
unfolding first_probes
first_probes-up a n h = elim (Bool-cases a.has_workers) [
  | inl left ↦ simp left
  | inr own ↦
      let s = probe_all a.copy a.secondaries none_marked none_marked in
      simp own (
        probe_all-down a.copy n a.secondaries none_marked none_marked
          (run_acts-error n s.acts (simp own at h)))
]

unreachable-error :
    (n : Bytes) (names : List Bytes)
    → any_of is_error (run_acts (map unreachable names)) ≡ false
    → contains names n ≡ false
unfolding run_acts is_error
unreachable-error n [] h = refl
unreachable-error n (k ∷ ks) h = absurd (cc h)

after_adding-up :
    (a : MainAnswers) (s : Names) (n : Bytes)
    → s.down n ≡ false
    → any_of is_error (run_acts (after_adding a s).acts) ≡ false
    → (after_adding a s).down n ≡ false
unfolding after_adding
after_adding-up a s n up h = elim (Bool-cases a.has_workers) [
  | inl left ↦ simp (left, up)
  | inr own ↦ simp (own, up, unreachable-error n a.down_at_adding (simp own at h))
]

-- Without an error in the probes, in adding storages and in the copies, and without a signal, every secondary is kept.
pub copied :
    (a : MainAnswers)
    → any_of is_error (run_acts (first_probes a).acts) ≡ false
    → any_of is_error (run_acts (after_adding a (first_probes a)).acts) ≡ false
    → (a.has_workers ≡ false
        → (a.copy.signaled ≡ false)
          × (any_of is_error (
                run_acts
                  (make_copies a.copy a.secondaries
                    (after_adding a (first_probes a)).down
                    (after_adding a (first_probes a)).held).acts)
              ≡ false))
    → All (λ n. is_kept a n ≡ true) (names_of a.secondaries)
copied a up added clean = elim (Bool-cases a.has_workers) [
  | inl left ↦ All-total (λ n. is_kept a n ≡ true) (names_of a.secondaries) (λ n. rw left refl)
  | inr own ↦
      let s = after_adding a (first_probes a) in
      let e = make_copies a.copy a.secondaries s.down s.held in
      let (goes, quiet) = clean own in
      let kept : e.lost ≡ false = elim (Bool-cases e.lost) [
        | inr held ↦ held
        | inl lost ↦ absurd (
            ground (
              arith,
              make_copies-lost a.copy a.secondaries s.down s.held lost,
              run_acts-loss e.acts quiet,
            ))
      ] in
      All-map (λ n. contains (names_of a.secondaries) n ≡ true) (λ n. is_kept a n ≡ true)
        (names_of a.secondaries)
        (λ n named. ground (
          arith,
          make_copies-quiet a.copy n a.secondaries s.down s.held named goes kept
              (run_acts-error n e.acts quiet)
              (after_adding-up a (first_probes a) n (first_probes-up a n up) added),
        ))
        (contains_self (names_of a.secondaries))
]
