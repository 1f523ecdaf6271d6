-- ===== src/Backup/Crash/Passing.antt =====
-- One service's acts leave a watched service covered (internal/pipeline/backup.go, `processService`).
use archiver.Shared.{
  ==→eq, Bool, Bool-cases, Bytes, List, Option, all_of, any_of, any_of-append, arith, codes, false,
  if◌then◌else◌, inl, inr, none, not, refl, some, subst, true, ◌++◌, ◌==◌, ◌||◌, ◌∷◌, ◌≡◌, nat_eq,
  bytes_eq, int_eq,
}
use archiver.Backup.{
  Act, staged, Answers, Standing, Outcome, backup_part, pre_part, after_pre, post_part, last_part,
  refused, finish_service, backup_service, with_hooks, process_service, context_of, failed, skipped,
  Result,
}
use archiver.Backup.Quiet.{quiet, backup_part-quiet}
use archiver.Backup.Crash.{
  Watched, watch, watch_all, covered, always_covered, watch_all-append, is_pre, watch_all-quiet,
  quiet-covered, quiet-away,
}
use archiver.Backup.Crash.Service.{
  pre_part-covered, post_part-covered, last_part-away, IsPassed, IsPassed-append, away-IsPassed,
}

quiet-IsPassed :
    (d : Bytes) (xs : List Act) (m : Watched)
    → all_of quiet xs ≡ true
    → covered m ≡ true
    → IsPassed d xs m m.between
quiet-IsPassed d xs m h c = record {
  all_covered = quiet-covered d xs m h c;
  then_between = rw (watch_all-quiet d xs m h) refl;
}

-- A service up to its post hook.
standing-IsPassed :
    (a : Answers) (d : Bytes) (p : Bool) (m : Watched)
    → a.hooked_written ≡ true
    → m.between ≡ false
    → let s = backup_part a d (pre_part a d p) in
      IsPassed d s.acts m s.pre_ran × (covered (watch_all d s.acts m) ≡ true)
standing-IsPassed a d p m w k =
    let (c, b, v) = pre_part-covered a d p m w k in
    let (extra, (e, q, ran)) = backup_part-quiet a d (pre_part a d p) in
    let m' = watch_all d (pre_part a d p).acts m in
    let pass : IsPassed d ((pre_part a d p).acts ++ extra) m (pre_part a d p).pre_ran =
      IsPassed-append d (pre_part a d p).acts extra m m'.between _
        (record { all_covered = c; then_between = refl })
        (subst (λ x. IsPassed d extra m' x) b (quiet-IsPassed d extra m' q v)) in
    (
      rw (e, ran) pass,
      rw (e, watch_all-append d (pre_part a d p).acts extra m, watch_all-quiet d extra m' q) v,
    )

staged-IsPassed :
    (d c t : Bytes) (xs : List Act) (m : Watched) (b : Bool)
    → covered m ≡ true
    → IsPassed d xs m b
    → IsPassed d (staged c t ∷ xs) m b
unfolding always_covered watch_all watch
staged-IsPassed d c t xs m b v h = record {
  all_covered = simp v h.all_covered;
  then_between = h.then_between;
}

away-is_covered : (m : Watched) → m.between ≡ false → covered m ≡ true
unfolding covered
away-is_covered m k = simp k

finish-IsPassed :
    (a : Answers) (d : Bytes) (p : Bool) (s : Standing) (m : Watched)
    → m.between ≡ false
    → IsPassed d s.acts m s.pre_ran
    → covered (watch_all d s.acts m) ≡ true
    → IsPassed d (finish_service a d p true s).acts m false
unfolding finish_service
finish-IsPassed a d p s m k h v =
    let m' = watch_all d s.acts m in
    let (c, b) = post_part-covered a d p s m' h.then_between v in
    let posted =
      staged-IsPassed d (context_of d) (codes "post-backup") (post_part a d p true s) m' false v
        (record { all_covered = c; then_between = b }) in
    let body = IsPassed-append d s.acts _ m s.pre_ran false h posted in
    let whole = IsPassed-append d _ (last_part a d s.result).acts m false false body (
      away-IsPassed d (last_part a d s.result).acts _ (last_part-away a d d s.result)
        body.then_between) in
    staged-IsPassed d (context_of d) (codes "pre-backup") _ m false (away-is_covered m k) whole

pre_part-away :
    (a : Answers) (d e : Bytes) (p : Bool)
    → (e == d) ≡ false
    → any_of (is_pre d) (pre_part a e p).acts ≡ false
unfolding pre_part after_pre is_pre
pre_part-away a d e p other = ground arith

post_part-away :
    (a : Answers) (d e : Bytes) (p q : Bool) (s : Standing)
    → any_of (is_pre d) (post_part a e p q s) ≡ false
unfolding post_part is_pre
post_part-away a d e p q s = ground arith

finish-away :
    (a : Answers) (d e : Bytes) (p q : Bool) (s : Standing)
    → any_of (is_pre d) s.acts ≡ false
    → any_of (is_pre d) (finish_service a e p q s).acts ≡ false
unfolding finish_service is_pre
finish-away a d e p q s h =
    rw
      (
        any_of-append (is_pre d)
            (s.acts ++ staged (context_of e) (codes "post-backup") ∷ post_part a e p q s)
            (last_part a e s.result).acts,
        any_of-append (is_pre d) s.acts
            (staged (context_of e) (codes "post-backup") ∷ post_part a e p q s),
        h,
        post_part-away a d e p q s,
        last_part-away a d e s.result,
      )
      refl

standing-away :
    (a : Answers) (d e : Bytes) (p : Bool)
    → (e == d) ≡ false
    → any_of (is_pre d) (backup_part a e (pre_part a e p)).acts ≡ false
standing-away a d e p other =
    let (extra, (eq, q, ran)) = backup_part-quiet a e (pre_part a e p) in
    rw
      (
        eq,
        any_of-append (is_pre d) (pre_part a e p).acts extra,
        pre_part-away a d e p other,
        quiet-away d extra q,
      )
      refl

module _ (d : Bytes) (m : Watched) (k : m.between ≡ false) where
  either-IsPassed :
      (b : Bool) (x y : Outcome)
      → IsPassed d x.acts m false
      → IsPassed d y.acts m false
      → IsPassed d (if b then x else y).acts m false
  either-IsPassed true x y h i = h
  either-IsPassed false x y h i = i

  refused-IsPassed : (e : Bytes) (r : Result) → IsPassed d (refused e r).acts m false
  unfolding refused is_pre
  refused-IsPassed e r = away-IsPassed d (refused e r).acts m refl k

  skipped-IsPassed :
      (e : Bytes)
      → IsPassed d (staged (context_of e) (codes "pre-backup") ∷ (refused e skipped).acts) m false
  unfolding refused is_pre
  skipped-IsPassed e = away-IsPassed d _ m refl k

  -- Another service's backup.
  other-IsPassed :
      (a : Answers) (e : Bytes) (p q down : Bool)
      → (e == d) ≡ false
      → IsPassed d (backup_service a e p q down).acts m false
  unfolding backup_service
  other-IsPassed a e p q down other =
      either-IsPassed (not a.state_made) _ _ (refused-IsPassed e failed) (
        either-IsPassed down _ _ (skipped-IsPassed e)
          (away-IsPassed d _ m (finish-away a d e p q _ (standing-away a d e p other)) k))

  -- The service's own.
  own-IsPassed :
      (a : Answers) (p down : Bool)
      → a.hooked_written ≡ true
      → IsPassed d (backup_service a d p true down).acts m false
  unfolding backup_service
  own-IsPassed a p down w =
      let (h, v) = standing-IsPassed a d p m w k in
      either-IsPassed (not a.state_made) _ _ (refused-IsPassed d failed)
        (either-IsPassed down _ _ (skipped-IsPassed d) (finish-IsPassed a d p _ m k h v))

  hooks-IsPassed :
      (a : Answers) (e : Bytes) (down : Bool) (pre post : Option Bool)
      → a.hooked_written ≡ true
      → ((e == d) ≡ true → post ≡ some true)
      → IsPassed d (with_hooks a e down pre post).acts m false
  unfolding with_hooks
  hooks-IsPassed a e down none post w h = refused-IsPassed e failed
  hooks-IsPassed a e down (some p) none w h = refused-IsPassed e failed
  hooks-IsPassed a e down (some p) (some q) w h = elim (Bool-cases (e == d)) [
    | inl same ↦
        let has : q ≡ true = cc (h same) in rw (==→eq e d same, has) (own-IsPassed a p down w)
    | inr other ↦ other-IsPassed a e p q down other
  ]

  -- Whatever a service's backup does, a watched service with a post hook stays covered, and is
  -- not left between its hooks.
  pub process_service-IsPassed :
      (a : Answers) (e : Bytes) (down : Bool)
      → a.hooked_written ≡ true
      → ((e == d) ≡ true → a.post_exists ≡ some true)
      → IsPassed d (process_service a e down).acts m false
  unfolding process_service
  process_service-IsPassed a e down w h =
      either-IsPassed (not a.is_dir || (not a.valid_id || (a.has_legacy || not a.filters_ok))) _ _
        (refused-IsPassed e failed) (hooks-IsPassed a e down a.pre_exists a.post_exists w h)
