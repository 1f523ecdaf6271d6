-- ===== src/Backup/Copies/Fates.antt =====
-- What the copies of a backup come to, one secondary at a time (internal/pipeline/backup.go: `copies`,
-- `targetCheckins`).
use archiver.Shared.{
  Bool, Bytes, List, [], arith, contains, false, if◌then◌else◌, not, true, ◌&&◌, ◌||◌, ◌∙◌, ◌∷◌,
  ◌≡◌, nat_eq, bytes_eq, int_eq,
}
use archiver.Backup.Copies.{
  Secondary, Moment, CopyAnswers, answers_probe, Names, list_names, reachable, copy_legs, listing,
  copying, retrying, Ended, retry_legs, after_copies, first_copies, make_copies,
}
use archiver.Backup.Copies.Members.{
  names_of, list_names-names, list_names-held, list_names-down, reachable-names, reachable-down,
  reachable-held, copy_legs-failed, copy_legs-held,
}

-- What becomes of a secondary in a run.
pub data Fate : Type 0 where
  fate_down fate_held fate_failed fate_copied : Fate

abbrev pub is_held : Fate → Bool
is_held f = elim f [ fate_held ↦ true | _ ↦ false ]

abbrev pub is_copied : Fate → Bool
is_copied f = elim f [ fate_copied ↦ true | _ ↦ false ]

module _ (a : CopyAnswers) (n : Bytes) where
  -- A try to copy, of what is not held yet.
  abbrev pub attempt : Moment → Fate
  attempt m =
      if not (a.is_locked m n)
      then fate_failed
      else if a.is_closed m n
      then fate_held
      else if a.is_started m n && a.is_copied m n
      then fate_copied
      else fate_failed

  -- A copy that failed is tried again, unless a signal ends the run.
  abbrev pub fate_after : Fate → Fate
  fate_after f = elim f [
    | fate_failed ↦
        if a.signaled
        then fate_failed
        else if answers_probe a retrying n
        then attempt retrying
        else fate_down
    | other ↦ other
  ]

  -- What becomes of a secondary, by what it alone answers.
  abbrev pub fate : Bool → Bool → Fate
  fate down held =
      if held
      then fate_held
      else if down
      then fate_down
      else if a.is_closed listing n
      then fate_held
      else if answers_probe a copying n
      then fate_after (attempt copying)
      else fate_down

  abbrev unlocked_or : Moment → Bool → Bool
  unlocked_or m held =
      a.is_locked m n && ((held || a.is_closed m n) || (a.is_started m n && a.is_copied m n))

  retry_legs-held :
      (failed names : List Bytes) (r : Names)
      → (retry_legs a failed names r).held n
        ≡ (r.held n || (contains names n && (a.is_locked retrying n && a.is_closed retrying n)))
  unfolding retry_legs
  retry_legs-held failed [] r = ground arith
  retry_legs-held failed (k ∷ ks) r = copy_legs-held a n retrying (k ∷ ks) r.held

  retry_legs-good :
      (failed names : List Bytes) (r : Names) (down answers : Bool)
      → contains names n ≡ (contains failed n && answers)
      → r.down n ≡ (down || (contains failed n && not answers))
      → (not ((retry_legs a failed names r).down n)
          && not (contains (retry_legs a failed names r).failed n))
        ≡ (not down && (not (contains failed n) || (answers && unlocked_or retrying (r.held n))))
  unfolding retry_legs
  retry_legs-good failed [] r down answers h g = ground (arith, h, g)
  retry_legs-good failed (k ∷ ks) r down answers h g =
      ground (arith, h, g, copy_legs-failed a n retrying (k ∷ ks) r.held)

  module _ (ts : List Secondary) (named : contains (names_of ts) n ≡ true) where
    after_copies-held :
        (failed : List Bytes) (down held : Bytes → Bool)
        → (after_copies a ts failed down held).lost ≡ false
        → (after_copies a ts failed down held).held n ≡ (
            held n
            || (contains failed n
                && (not a.signaled
                    && (answers_probe a retrying n
                        && (a.is_locked retrying n && a.is_closed retrying n)))))
    unfolding after_copies
    after_copies-held [] down held kept = ground arith
    after_copies-held (k ∷ ks) down held kept =
        let r = reachable a retrying (k ∷ ks) held ts down in
        ground (
          arith,
          kept,
          named,
          retry_legs-held (k ∷ ks) r.names r,
          reachable-held a n retrying (k ∷ ks) held ts down,
          reachable-names a n retrying (k ∷ ks) held ts down,
        )

    after_copies-good :
        (failed : List Bytes) (down held : Bytes → Bool)
        → (after_copies a ts failed down held).lost ≡ false
        → (not ((after_copies a ts failed down held).down n)
            && not (contains (after_copies a ts failed down held).failed n))
          ≡ (not (down n)
              && (not (contains failed n)
                  || (not a.signaled
                      && (answers_probe a retrying n && unlocked_or retrying (held n)))))
    unfolding after_copies
    after_copies-good [] down held kept = ground arith
    after_copies-good (k ∷ ks) down held kept =
        let r = reachable a retrying (k ∷ ks) held ts down in
        ground (
          arith,
          kept,
          reachable-held a n retrying (k ∷ ks) held ts down,
          retry_legs-good (k ∷ ks) r.names r (down n) (answers_probe a retrying n)
              (ground (arith, named, reachable-names a n retrying (k ∷ ks) held ts down))
              (ground (arith, named, reachable-down a n retrying (k ∷ ks) held ts down)),
        )

    module _ (d h : Bool) where
      first_copies-held :
          (names : List Bytes) (l : Names)
          → contains names n ≡ (not d && not (h || a.is_closed listing n))
          → l.held n ≡ (h || (not d && a.is_closed listing n))
          → (first_copies a ts names l).lost ≡ false
          → (first_copies a ts names l).held n ≡ is_held (fate d h)
      unfolding first_copies
      first_copies-held [] l hn hh kept = ground (arith, hn, hh)
      first_copies-held (k ∷ ks) l hn hh kept =
          let r = reachable a copying (k ∷ ks) l.held ts l.down in
          let c = copy_legs a copying r.names r.held in
          ground (
            arith,
            hn,
            hh,
            named,
            after_copies-held c.failed r.down c.held kept,
            copy_legs-failed a n copying r.names r.held,
            copy_legs-held a n copying r.names r.held,
            reachable-held a n copying (k ∷ ks) l.held ts l.down,
            reachable-names a n copying (k ∷ ks) l.held ts l.down,
          )

      first_copies-good :
          (names : List Bytes) (l : Names)
          → contains names n ≡ (not d && not (h || a.is_closed listing n))
          → l.down n ≡ d
          → l.held n ≡ (h || (not d && a.is_closed listing n))
          → (first_copies a ts names l).lost ≡ false
          → ((first_copies a ts names l).held n
              || (not ((first_copies a ts names l).down n)
                  && not (contains (first_copies a ts names l).failed n)))
            ≡ (is_held (fate d h) || is_copied (fate d h))
      unfolding first_copies
      first_copies-good [] l hn hd hh kept = ground (arith, hn, hh, hd)
      first_copies-good (k ∷ ks) l hn hd hh kept =
          let r = reachable a copying (k ∷ ks) l.held ts l.down in
          let c = copy_legs a copying r.names r.held in
          ground (
            arith,
            hn,
            hh,
            hd,
            named,
            after_copies-held c.failed r.down c.held kept,
            after_copies-good c.failed r.down c.held kept,
            copy_legs-failed a n copying r.names r.held,
            copy_legs-held a n copying r.names r.held,
            reachable-held a n copying (k ∷ ks) l.held ts l.down,
            reachable-down a n copying (k ∷ ks) l.held ts l.down,
            reachable-names a n copying (k ∷ ks) l.held ts l.down,
          )

module _ (a : CopyAnswers) (down held : Bytes → Bool) where
  -- What a secondary is after the copies.
  abbrev pub IsFated : Ended → Bytes → Type 0
  IsFated e n =
      (e.held n ≡ is_held (fate a n (down n) (held n)))
      × ((e.held n || (not (e.down n) && not (contains e.failed n)))
          ≡ (is_held (fate a n (down n) (held n)) || is_copied (fate a n (down n) (held n))))

  pub make_copies-IsFated :
      (ts : List Secondary) (n : Bytes)
      → contains (names_of ts) n ≡ true
      → (make_copies a ts down held).lost ≡ false
      → IsFated (make_copies a ts down held) n
  unfolding make_copies
  make_copies-IsFated ts n named kept =
      let l = list_names a down ts held in
      let hn = list_names-names a n down ts held ∙ ground (arith, named) in
      let hd = list_names-down a n down ts held in
      let hh = list_names-held a n down ts held ∙ ground (arith, named) in
      (
        first_copies-held a n ts named (down n) (held n) l.names l hn hh kept,
        first_copies-good a n ts named (down n) (held n) l.names l hn hd hh kept,
      )
