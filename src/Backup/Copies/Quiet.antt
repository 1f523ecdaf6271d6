-- ===== src/Backup/Copies/Quiet.antt =====
-- Copies of a backup that log no error of a secondary (internal/pipeline/backup.go: `copies`,
-- `reachable`).
use archiver.Shared.{
  ==_refl, ==→eq, Bool, Bool-cases, Bytes, List, [], any_of, any_of-append, arith, contains, false,
  inl, inr, map, not, refl, true, ◌&&◌, ◌++◌, ◌==◌, ◌||◌, ◌∷◌, ◌≡◌, nat_eq, bytes_eq, int_eq,
}
use archiver.Backup.Copies.{
  Secondary, Moment, CopyAnswers, CopyAct, at_start, unreachable, failed_again, primary_lost,
  mark_if, answers_probe, probe_all, Names, list_names, reachable, copy_legs, copying, retrying,
  retry_legs, after_copies, first_copies, make_copies,
}
use archiver.Backup.Copies.Members.{names_of, list_names-down, reachable-names, reachable-down}
use archiver.Backup.Copies.Fates.{fate, is_held, is_copied, make_copies-IsFated}

-- The errors that the copies log of a secondary.
abbrev pub is_error_of : Bytes → CopyAct → Bool
is_error_of n x = elim x [ unreachable k ↦ k == n | failed_again k ↦ k == n | other ↦ false ]

module _ (a : CopyAnswers) (n : Bytes) where
  abbrev pub has_error : List CopyAct → Bool
  has_error acts = any_of (is_error_of n) acts

  reachable-error :
      (m : Moment) (wanted : List Bytes) (held : Bytes → Bool) (ts : List Secondary)
      (down : Bytes → Bool)
      → has_error (reachable a m wanted held ts down).acts
        ≡ (contains (names_of ts) n && (contains wanted n && not (answers_probe a m n)))
  unfolding reachable mark_if
  reachable-error m wanted held [] down = refl
  reachable-error m wanted held (t ∷ ts) down = elim (Bool-cases (t.name == n)) [
    | inl same ↦ rw (==→eq t.name n same) (
        ground (
          arith,
          ==_refl n,
          reachable-error m wanted held ts
              (mark_if (contains wanted n && not (answers_probe a m n)) n down),
        ))
    | inr other ↦ ground (
      arith,
      other,
      reachable-error m wanted held ts
          (mark_if (contains wanted t.name && not (answers_probe a m t.name)) t.name down),
    )
  ]

  failed_again-error : (names : List Bytes) → has_error (map failed_again names) ≡ contains names n
  failed_again-error [] = refl
  failed_again-error (k ∷ ks) = ground (arith, failed_again-error ks)

  pub probe_all-down :
      (ts : List Secondary) (down held : Bytes → Bool)
      → has_error (probe_all a ts down held).acts ≡ false
      → (probe_all a ts down held).down n ≡ down n
  unfolding probe_all mark_if
  probe_all-down [] down held quiet = refl
  probe_all-down (t ∷ ts) down held quiet =
      let closed = held t.name || a.is_closed at_start t.name in
      ground (
        arith,
        quiet,
        probe_all-down ts
            (mark_if (not closed && not (answers_probe a at_start t.name)) t.name down)
            (mark_if closed t.name held),
      )

  retry_legs-quiet :
      (failed names : List Bytes) (r : Names) (answers : Bool)
      → contains names n ≡ (contains failed n && answers)
      → has_error r.acts ≡ (contains failed n && not answers)
      → has_error (retry_legs a failed names r).acts ≡ false
      → (contains (retry_legs a failed names r).failed n ≡ false)
        × ((retry_legs a failed names r).down n ≡ r.down n)
        × (has_error r.acts ≡ false)
  unfolding retry_legs
  retry_legs-quiet failed [] r answers hn hr quiet = (ground (arith, hn, hr, quiet), refl, quiet)
  retry_legs-quiet failed (k ∷ ks) r answers hn hr quiet =
      let c = copy_legs a retrying (k ∷ ks) r.held in
      let one = any_of-append (is_error_of n) r.acts (c.acts ++ map failed_again c.failed) in
      let two = any_of-append (is_error_of n) c.acts (map failed_again c.failed) in
      (
        ground (arith, one, two, quiet, failed_again-error c.failed),
        refl,
        ground (arith, one, quiet),
      )

  module _ (ts : List Secondary) (named : contains (names_of ts) n ≡ true) where
    after_copies-quiet :
        (failed : List Bytes) (down held : Bytes → Bool)
        → a.signaled ≡ false
        → (after_copies a ts failed down held).lost ≡ false
        → has_error (after_copies a ts failed down held).acts ≡ false
        → (contains (after_copies a ts failed down held).failed n ≡ false)
          × ((after_copies a ts failed down held).down n ≡ down n)
    unfolding after_copies
    after_copies-quiet [] down held goes kept quiet = (refl, refl)
    after_copies-quiet (k ∷ ks) down held goes kept quiet =
        elim (Bool-cases (not a.primary_ok && not a.stopped_at_primary)) [
          | inl gone ↦ absurd (ground (arith, goes, kept, gone))
          | inr still ↦
              let r = reachable a retrying (k ∷ ks) held ts down in
              let (none_failed, same, quiet_r) =
                retry_legs-quiet (k ∷ ks) r.names r (answers_probe a retrying n)
                  (ground (arith, named, reachable-names a n retrying (k ∷ ks) held ts down))
                  (ground (arith, named, reachable-error retrying (k ∷ ks) held ts down))
                  (ground (arith, goes, still, quiet)) in
              (
                ground (arith, goes, still, none_failed),
                ground (
                  arith,
                  goes,
                  still,
                  same,
                  quiet_r,
                  reachable-down a n retrying (k ∷ ks) held ts down,
                  reachable-error retrying (k ∷ ks) held ts down,
                ),
              )
        ]

    first_copies-quiet :
        (names : List Bytes) (l : Names)
        → a.signaled ≡ false
        → (first_copies a ts names l).lost ≡ false
        → has_error (first_copies a ts names l).acts ≡ false
        → (contains (first_copies a ts names l).failed n ≡ false)
          × ((first_copies a ts names l).down n ≡ l.down n)
    unfolding first_copies
    first_copies-quiet [] l goes kept quiet = (refl, refl)
    first_copies-quiet (k ∷ ks) l goes kept quiet =
        let r = reachable a copying (k ∷ ks) l.held ts l.down in
        let c = copy_legs a copying r.names r.held in
        let e = after_copies a ts c.failed r.down c.held in
        let one = any_of-append (is_error_of n) r.acts (c.acts ++ e.acts) in
        let two = any_of-append (is_error_of n) c.acts e.acts in
        let (none_failed, same) =
          after_copies-quiet c.failed r.down c.held goes kept (ground (arith, quiet, one, two)) in
        (
          none_failed,
          ground (
            arith,
            same,
            one,
            quiet,
            reachable-down a n copying (k ∷ ks) l.held ts l.down,
            reachable-error copying (k ∷ ks) l.held ts l.down,
          ),
        )

  -- A secondary that is up at the start and of which no error is logged is copied or held for its
  -- window.
  pub make_copies-quiet :
      (ts : List Secondary) (down held : Bytes → Bool)
      → contains (names_of ts) n ≡ true
      → a.signaled ≡ false
      → (make_copies a ts down held).lost ≡ false
      → has_error (make_copies a ts down held).acts ≡ false
      → down n ≡ false
      → (is_held (fate a n (down n) (held n)) || is_copied (fate a n (down n) (held n))) ≡ true
  unfolding make_copies
  make_copies-quiet ts down held named goes kept quiet up =
      let l = list_names a down ts held in
      let (none_failed, same) = first_copies-quiet ts named l.names l goes kept quiet in
      let (_, good) = make_copies-IsFated a down held ts n named kept in
      ground (arith, up, none_failed, same, good, list_names-down a n down ts held)

-- The loss of the primary during the copies is one of their acts.
abbrev pub is_loss : CopyAct → Bool
is_loss x = elim x [ primary_lost ↦ true | other ↦ false ]

retry_legs-lost :
    (a : CopyAnswers) (failed names : List Bytes) (r : Names)
    → (retry_legs a failed names r).lost ≡ false
unfolding retry_legs
retry_legs-lost a failed [] r = refl
retry_legs-lost a failed (k ∷ ks) r = refl

after_copies-lost :
    (a : CopyAnswers) (ts : List Secondary) (failed : List Bytes) (down held : Bytes → Bool)
    → (after_copies a ts failed down held).lost ≡ true
    → any_of is_loss (after_copies a ts failed down held).acts ≡ true
unfolding after_copies
after_copies-lost a ts [] down held lost = absurd (cc lost)
after_copies-lost a ts (k ∷ ks) down held lost =
    let r = reachable a retrying (k ∷ ks) held ts down in
    ground (arith, lost, retry_legs-lost a (k ∷ ks) r.names r)

first_copies-lost :
    (a : CopyAnswers) (ts : List Secondary) (names : List Bytes) (l : Names)
    → (first_copies a ts names l).lost ≡ true
    → any_of is_loss (first_copies a ts names l).acts ≡ true
unfolding first_copies
first_copies-lost a ts [] l lost = absurd (cc lost)
first_copies-lost a ts (k ∷ ks) l lost =
    let r = reachable a copying (k ∷ ks) l.held ts l.down in
    let c = copy_legs a copying r.names r.held in
    let e = after_copies a ts c.failed r.down c.held in
    ground (
      arith,
      any_of-append is_loss r.acts (c.acts ++ e.acts),
      any_of-append is_loss c.acts e.acts,
      after_copies-lost a ts c.failed r.down c.held lost,
    )

pub make_copies-lost :
    (a : CopyAnswers) (ts : List Secondary) (down held : Bytes → Bool)
    → (make_copies a ts down held).lost ≡ true
    → any_of is_loss (make_copies a ts down held).acts ≡ true
unfolding make_copies
make_copies-lost a ts down held lost =
    let l = list_names a down ts held in first_copies-lost a ts l.names l lost
