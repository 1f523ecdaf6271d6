-- ===== src/Backup/Crash/Again.antt =====
-- A crash while an interrupted run is being finished (internal/pipeline/backup.go,
-- `finishInterrupted`).
use archiver.Shared.{
  ==_refl, ==→eq, Bool, Bool-cases, Bytes, List, [], all_of, any_of, arith, false, inl, inr, not,
  refl, some, true, ◌&&◌, ◌++◌, ◌==◌, ◌||◌, ◌∷◌, ◌≡◌, ◌⊎◌, nat_eq, bytes_eq, int_eq,
}
use archiver.Resume.{Record, Run, pending, set}
use archiver.Backup.{
  Act, staged, recorded, pre_hook, post_hook, backed_up, probed, lost_primary, noted,
  storages_added, errored, error_if, interrupted,
}
use archiver.Backup.Interrupted.{
  Restart, finish_interrupted, settle_services, settle_service, run_post, is_hooked, replay,
  keep_record, is_post,
}
use archiver.Backup.Crash.Restarts.{hooked_on_disk, is_hooked-insert}

-- What matters of a run for one service: its post hook has run, or the record has it between its
-- hooks, in memory and on disk.
abbrev kept : Bytes → Run → Bool
kept d run = is_hooked d run.rec.services && hooked_on_disk d run.disk

-- After every act, the service's post hook has run or the record keeps it.
unfoldable pub not_lost : Bytes → Bool → List Act → Run → Bool
unfolding is_post
not_lost d seen [] run = seen || kept d run
not_lost d seen (x ∷ xs) run =
    (seen || kept d run) && not_lost d (seen || is_post d x) xs (keep_record x run)

-- Once the post hook has run, nothing can be lost.
seen-not_lost : (d : Bytes) (xs : List Act) (run : Run) → not_lost d true xs run ≡ true
unfolding not_lost
seen-not_lost d [] run = refl
seen-not_lost d (x ∷ xs) run = seen-not_lost d xs (keep_record x run)

-- An act on another service keeps what the record says of this one.
spares : Bytes → Act → Bool
spares d x = elim x [ recorded e s w ↦ not (e == d) | _ ↦ true ]

keep_record-kept :
    (d : Bytes) (x : Act) (run : Run)
    → spares d x ≡ true
    → kept d run ≡ true
    → kept d (keep_record x run) ≡ true
unfolding spares keep_record set
keep_record-kept d (staged c s) run h k = k
keep_record-kept d (recorded e stage true) run h k =
    ground (arith, is_hooked-insert d e stage run.rec.services)
keep_record-kept d (recorded e stage false) run h k =
    ground (arith, is_hooked-insert d e stage run.rec.services)
keep_record-kept d (pre_hook e) run h k = k
keep_record-kept d (post_hook e r) run h k = k
keep_record-kept d (backed_up e) run h k = k
keep_record-kept d probed run h k = k
keep_record-kept d lost_primary run h k = k
keep_record-kept d (noted e r) run h k = k
keep_record-kept d (storages_added e) run h k = k
keep_record-kept d errored run h k = k

kept-not_lost :
    (d : Bytes) (xs ys : List Act) (run : Run)
    → all_of (spares d) xs ≡ true
    → kept d run ≡ true
    → ((r : Run) → kept d r ≡ true → not_lost d false ys r ≡ true)
    → not_lost d false (xs ++ ys) run ≡ true
unfolding not_lost
kept-not_lost d [] ys run h k then_ok = then_ok run k
kept-not_lost d (x ∷ xs) ys run h k then_ok =
    let first : spares d x ≡ true = ground arith in
    let others : all_of (spares d) xs ≡ true = ground arith in
    let k' = keep_record-kept d x run first k in
    elim (Bool-cases (is_post d x)) [
      | inl posts ↦ simp (k, posts) (seen-not_lost d (xs ++ ys) (keep_record x run))
      | inr other ↦ simp (k, other) (kept-not_lost d xs ys (keep_record x run) others k' then_ok)
    ]

settle_service-spares :
    (r : Restart) (d e : Bytes) → (e == d) ≡ false → all_of (spares d) (settle_service r e) ≡ true
unfolding settle_service run_post spares
settle_service-spares r d e other = ground arith

posted-not_lost :
    (d : Bytes) (xs : List Act) (run : Run)
    → kept d run ≡ true
    → not_lost d false (post_hook d interrupted ∷ xs) run ≡ true
unfolding not_lost is_post
posted-not_lost d xs run k =
    simp (k, ==_refl d) (seen-not_lost d xs (keep_record (post_hook d interrupted) run))

module _ (r : Restart) (d : Bytes) (c : r.configured d ≡ true) (v : r.valid d ≡ true)
    (p : r.post_exists d ≡ some true) where
  settle_service-first :
      settle_service r d
      ≡ post_hook d interrupted
        ∷ (error_if (not (r.post_ok d)) ++ recorded d pending (r.written d) ∷ [])
  unfolding settle_service run_post
  settle_service-first = rw (c, v, p) refl

  -- The service's own turn: its post hook comes before the record forgets it.
  own-not_lost :
      (ys : List Act) (run : Run)
      → kept d run ≡ true
      → not_lost d false (settle_service r d ++ ys) run ≡ true
  own-not_lost ys run k = rw settle_service-first (posted-not_lost d _ run k)

nothing-not_lost : (d : Bytes) (run : Run) → kept d run ≡ true → not_lost d false [] run ≡ true
unfolding not_lost
nothing-not_lost d run k = k

settle_services-not_lost :
    (r : Restart) (d : Bytes) (services : List (Bytes × Bytes)) (dirs : List Bytes) (run : Run)
    → r.configured d ≡ true
    → r.valid d ≡ true
    → r.post_exists d ≡ some true
    → kept d run ≡ true
    → not_lost d false (settle_services r services dirs) run ≡ true
unfolding settle_services
settle_services-not_lost r d services [] run c v p k = nothing-not_lost d run k
settle_services-not_lost r d services (e ∷ es) run c v p k =
    elim (Bool-cases (is_hooked e services)) [
      | inr passed ↦ rw passed (settle_services-not_lost r d services es run c v p k)
      | inl stays ↦ rw stays (elim (Bool-cases (e == d)) [
        | inl same ↦ rw (==→eq e d same) (own-not_lost r d c v p _ run k)
        | inr other ↦
            kept-not_lost d (settle_service r e) (settle_services r services es) run
              (settle_service-spares r d e other) k
              (λ now k'. settle_services-not_lost r d services es now c v p k')
      ])
    ]

not_lost_before :
    (d : Bytes) (seen : Bool) (xs ys : List Act) (run : Run)
    → not_lost d seen (xs ++ ys) run ≡ true
    → (seen || (any_of (is_post d) xs || kept d (replay xs run))) ≡ true
unfolding not_lost replay
not_lost_before d seen [] [] run h = ground arith
not_lost_before d seen [] (y ∷ ys) run h = ground arith
not_lost_before d seen (x ∷ xs) ys run h =
    ground (arith, not_lost_before d (seen || is_post d x) xs ys (keep_record x run))

-- The start that finishes an interrupted run may crash as well, after any of its acts: a service
-- that the record has between its hooks has had its post hook by then, or the record on disk still
-- has it between its hooks, for the start after that. The directory is configured, its name valid,
-- and its post hook exists.
pub finish_interrupted-crash :
    (d : Bytes) (rec : Record) (before after : List Act) (r : Restart)
    → before ++ after ≡ finish_interrupted r (some rec)
    → is_hooked d rec.services ≡ true
    → r.configured d ≡ true
    → r.valid d ≡ true
    → r.post_exists d ≡ some true
    → (any_of (is_post d) before ≡ true)
      ⊎ (hooked_on_disk d (replay before (record { rec = rec; disk = some rec })).disk ≡ true)
unfolding finish_interrupted
finish_interrupted-crash d rec before after r e h c v p =
    let run : Run = record { rec = rec; disk = some rec } in
    let k : kept d run ≡ true = rw h refl in
    let all = settle_services-not_lost r d rec.services _ run c v p k in
    let now = not_lost_before d false before after run (rw e all) in
    elim (Bool-cases (any_of (is_post d) before)) [
      | inl posted ↦ inl posted
      | inr other ↦ inr (ground (arith, now, other))
    ]
