-- ===== src/Backup/Crash/Service.antt =====
-- One service's acts, watched for a crash: `processService` of internal/pipeline/backup.go.
use archiver.Shared.{
  ==_refl, Bool, Bytes, List, [], any_of, any_of-append, arith, false, refl, true, ◌++◌, ◌==◌, ◌∷◌,
  ◌≡◌, nat_eq, bytes_eq, int_eq,
}
use archiver.Resume.{hooked}
use archiver.Backup.{
  Act, noted, Answers, Standing, pre_part, after_pre, post_part, last_part, end_part, probe_part,
  Result,
}
use archiver.Backup.Quiet.{probe_part-quiet, end_part-quiet}
use archiver.Backup.Crash.{
  Watched, watch, watch_all, covered, always_covered, always_covered-append, watch_all-append,
  is_pre, away-covered, quiet-away,
}

-- The pre hook of a service runs only with its record on disk, if that could be written.
pub pre_part-covered :
    (a : Answers) (d : Bytes) (p : Bool) (m : Watched)
    → a.hooked_written ≡ true
    → m.between ≡ false
    → (always_covered d (pre_part a d p).acts m ≡ true)
      × ((watch_all d (pre_part a d p).acts m).between ≡ (pre_part a d p).pre_ran)
      × (covered (watch_all d (pre_part a d p).acts m) ≡ true)
unfolding pre_part after_pre always_covered watch_all covered watch
pre_part-covered a d p m w k =
    let same = ==_refl d in let says : (hooked == hooked) ≡ true = ==_refl hooked in ground arith

pub post_part-covered :
    (a : Answers) (d : Bytes) (p : Bool) (s : Standing) (m : Watched)
    → m.between ≡ s.pre_ran
    → covered m ≡ true
    → (always_covered d (post_part a d p true s) m ≡ true)
      × ((watch_all d (post_part a d p true s) m).between ≡ false)
unfolding post_part always_covered watch_all covered watch
post_part-covered a d p s m k c = let same = ==_refl d in ground arith

pub last_part-away :
    (a : Answers) (d e : Bytes) (r : Result) → any_of (is_pre d) (last_part a e r).acts ≡ false
unfolding last_part is_pre
last_part-away a d e r =
    rw
      (
        any_of-append (is_pre d) (probe_part a r ++ noted e r ∷ []) (end_part a e r).acts,
        any_of-append (is_pre d) (probe_part a r) (noted e r ∷ []),
        quiet-away d (probe_part a r) (probe_part-quiet a r),
        quiet-away d (end_part a e r).acts (end_part-quiet a e r),
      )
      refl

-- A stretch of acts that leaves a service covered throughout, and between its hooks or not.
pub record IsPassed (d : Bytes) (acts : List Act) (m : Watched) (between : Bool) : Type 0 where
  pub all_covered : always_covered d acts m ≡ true
  pub then_between : (watch_all d acts m).between ≡ between

pub IsPassed-append :
    (d : Bytes) (xs ys : List Act) (m : Watched) (b c : Bool)
    → IsPassed d xs m b
    → IsPassed d ys (watch_all d xs m) c
    → IsPassed d (xs ++ ys) m c
IsPassed-append d xs ys m b c h k = record {
  all_covered = always_covered-append d xs ys m h.all_covered k.all_covered;
  then_between = rw (watch_all-append d xs ys m) k.then_between;
}

pub away-IsPassed :
    (d : Bytes) (xs : List Act) (m : Watched)
    → any_of (is_pre d) xs ≡ false
    → m.between ≡ false
    → IsPassed d xs m false
away-IsPassed d xs m h k =
    let (c, b) = away-covered d xs m h k in record { all_covered = c; then_between = b }
