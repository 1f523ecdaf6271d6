-- ===== src/Backup/Crash/Restarts.antt =====
-- A crash anywhere in a backup, and the start after it (internal/pipeline/backup.go
-- `main`, `finishInterrupted`; internal/resume/resume.go).
use archiver.Shared.{
  All, Bool, Bool-cases, Bytes, List, Option, [], any_of, arith, false, if◌then◌else◌, inl, inr,
  insert, lookup-insert, map, none, not, refl, some, sym, true, ℕ, ◌&&◌, ◌++◌, ◌==◌, ◌||◌, ◌∙◌, ◌∷◌,
  ◌≡◌, nat_eq, bytes_eq, int_eq,
}
use archiver.Resume.{Record, Run, hooked, set}
use archiver.Backup.{
  Act, staged, recorded, pre_hook, post_hook, backed_up, probed, lost_primary, noted,
  storages_added, errored, refused, skipped,
}
use archiver.Backup.Crash.{Watched, watch, watch_all, covered, always_covered, is_pre}
use archiver.Backup.Crash.Service.{IsPassed, IsPassed-append, away-IsPassed}
use archiver.Backup.Crash.Passing.{process_service-IsPassed}
use archiver.Backup.Crash.Apart.{IsOneGroup, interleave-covered}
use archiver.Backup.Run.{Turn, run_services, run_group, acts_of, flatten, take_turn}
use archiver.Backup.Interrupted.{
  Restart, finish_interrupted, is_hooked, replay, keep_record, is_post, finish_interrupted-post,
}

-- What the record says of a service on disk.
abbrev pub hooked_on_disk : Bytes → Option Record → Bool
hooked_on_disk d none = false
hooked_on_disk d (some rec) = is_hooked d rec.services

pub is_hooked-insert :
    (d e stage : Bytes) (m : List (Bytes × Bytes))
    → is_hooked d (insert e stage m) ≡ (if e == d then stage == hooked else is_hooked d m)
unfolding is_hooked
is_hooked-insert d e stage m = rw (is_hooked, lookup-insert e d stage m) (ground arith)

-- A run's record has a service between its hooks, in memory and on disk.
abbrev keeps : Bytes → Run → Bool
keeps d run = is_hooked d run.rec.services && hooked_on_disk d run.disk

-- What is watched as ready is so in the record, after every act.
ready-keep_record :
    (d : Bytes) (x : Act) (m : Watched) (run : Run)
    → (m.ready ≡ true → keeps d run ≡ true)
    → (watch d x m).ready ≡ true
    → keeps d (keep_record x run) ≡ true
unfolding watch keep_record set
ready-keep_record d (staged c s) m run h k = h k
ready-keep_record d (recorded e stage true) m run h k =
    ground (arith, is_hooked-insert d e stage run.rec.services, k, h)
ready-keep_record d (recorded e stage false) m run h k =
    ground (arith, is_hooked-insert d e stage run.rec.services, k, h)
ready-keep_record d (pre_hook e) m run h k = h k
ready-keep_record d (post_hook e r) m run h k = h k
ready-keep_record d (backed_up e) m run h k = h k
ready-keep_record d probed m run h k = h k
ready-keep_record d lost_primary m run h k = h k
ready-keep_record d (noted e r) m run h k = h k
ready-keep_record d (storages_added e) m run h k = h k
ready-keep_record d errored m run h k = h k

ready-replay :
    (d : Bytes) (xs : List Act) (m : Watched) (run : Run)
    → (m.ready ≡ true → keeps d run ≡ true)
    → (watch_all d xs m).ready ≡ true
    → keeps d (replay xs run) ≡ true
unfolding watch_all replay
ready-replay d [] m run h k = h k
ready-replay d (x ∷ xs) m run h k =
    ready-replay d xs (watch d x m) (keep_record x run) (ready-keep_record d x m run h) k

pub covered_before :
    (d : Bytes) (xs ys : List Act) (m : Watched)
    → always_covered d (xs ++ ys) m ≡ true
    → covered (watch_all d xs m) ≡ true
unfolding always_covered watch_all
covered_before d [] [] m h = h
covered_before d [] (y ∷ ys) m h = ground arith
covered_before d (x ∷ xs) ys m h = covered_before d xs ys (watch d x m) (ground arith)

-- A turn at which a service is recorded before its pre hook runs, and a watched service has a
-- post hook.
pub record IsHooked (d : Bytes) (t : Turn) : Type 0 where
  pub recordable : t.answers.hooked_written ≡ true
  pub posts : (t.dir == d) ≡ true → t.answers.post_exists ≡ some true

take_turn-IsPassed :
    (d : Bytes) (m : Watched) (t : Turn)
    → m.between ≡ false
    → IsHooked d t
    → IsPassed d (take_turn t).acts m false
unfolding take_turn refused is_pre
take_turn-IsPassed d m t k h = elim (Bool-cases t.down_before) [
  | inl gone ↦ simp gone (away-IsPassed d (refused t.dir skipped).acts m refl k)
  | inr up ↦
      simp up (process_service-IsPassed d m k t.answers t.dir t.down_within h.recordable h.posts)
]

-- However a group goes, a service with a post hook stays covered.
run_group-IsPassed :
    (d : Bytes) (m : Watched) (ts : List Turn)
    → m.between ≡ false
    → All (IsHooked d) ts
    → IsPassed d (run_group ts).acts m false
unfolding run_group
run_group-IsPassed d m [] k h = away-IsPassed d [] m refl k
run_group-IsPassed d m (t ∷ ts) k (h, hs) = elim (Bool-cases t.stopped_before) [
  | inl never ↦ simp never (away-IsPassed d [] m refl k)
  | inr on ↦
      let first = take_turn-IsPassed d m t k h in
      elim (Bool-cases (take_turn t).stop) [
        | inl halts ↦ simp (on, halts) first
        | inr goes ↦
            let m' = watch_all d (take_turn t).acts m in
            simp (on, goes)
              (IsPassed-append d (take_turn t).acts (run_group ts).acts m false false first
                (run_group-IsPassed d m' ts first.then_between hs))
      ]
]

-- So it does in the groups one after another.
groups-IsPassed :
    (d : Bytes) (m : Watched) (gs : List (List Turn))
    → m.between ≡ false
    → All (All (IsHooked d)) gs
    → IsPassed d (flatten (map acts_of gs)) m false
groups-IsPassed d m [] k h = away-IsPassed d [] m refl k
groups-IsPassed d m (g ∷ gs) k (h, hs) =
    let first = run_group-IsPassed d m g k h in
    IsPassed-append d (acts_of g) (flatten (map acts_of gs)) m false false first
      (groups-IsPassed d (watch_all d (acts_of g) m) gs first.then_between hs)

-- Whether a service is between its hooks after an act.
unfoldable pub hook_step : Bytes → Act → Bool → Bool
hook_step d x b = elim x [ pre_hook e ↦ e == d || b | post_hook e r ↦ not (e == d) && b | _ ↦ b ]

-- Whether a service's pre hook has run and its post hook has not, after some acts.
unfoldable pub between_hooks : Bytes → Bool → List Act → Bool
unfolding hook_step
between_hooks d b [] = b
between_hooks d b (x ∷ xs) = between_hooks d (hook_step d x b) xs

between_hooks-step :
    (d : Bytes) (x : Act) (m : Watched) → hook_step d x m.between ≡ (watch d x m).between
unfolding hook_step watch
between_hooks-step d x m = ground arith

between_hooks-watch_all :
    (d : Bytes) (xs : List Act) (m : Watched)
    → between_hooks d m.between xs ≡ (watch_all d xs m).between
unfolding between_hooks watch_all watch
between_hooks-watch_all d [] m = refl
between_hooks-watch_all d (x ∷ xs) m =
    rw (between_hooks-step d x m) (between_hooks-watch_all d xs (watch d x m))

covered-ready : (m : Watched) → covered m ≡ true → m.between ≡ true → m.ready ≡ true
unfolding covered
covered-ready m h k = ground arith

pub on_disk-post :
    (d : Bytes) (disk : Option Record) (r : Restart)
    → r.configured d ≡ true
    → r.valid d ≡ true
    → r.post_exists d ≡ some true
    → hooked_on_disk d disk ≡ true
    → any_of (is_post d) (finish_interrupted r disk) ≡ true
on_disk-post d none r c v p h = absurd (cc h)
on_disk-post d (some rec) r c v p h = finish_interrupted-post r d c v p rec h

-- A run whose groups of services interleave in any way may crash after any of its acts: a service with
-- a post hook whose pre hook has run and whose post hook has not gets its post hook at the next start,
-- from the record that is on disk then. For that the service must be of one group at most, each service
-- be recorded on disk before its pre hook runs, and at the next start the directory be configured, its
-- name be valid, and its post hook exist.
pub crash-post :
    (d : Bytes) (schedule : List ℕ) (groups : List (List Turn)) (run : Run)
    (before after : List Act) (r : Restart)
    → IsOneGroup d groups
    → All (All (IsHooked d)) groups
    → before ++ after ≡ (run_services schedule groups).acts
    → between_hooks d false before ≡ true
    → r.configured d ≡ true
    → r.valid d ≡ true
    → r.post_exists d ≡ some true
    → any_of (is_post d) (finish_interrupted r (replay before run).disk) ≡ true
unfolding run_services
crash-post d schedule groups run before after r one h e began c v p =
    let m : Watched = record { between = false; ready = false } in
    let passed = groups-IsPassed d m groups refl h in
    let whole = interleave-covered d schedule groups m one passed.all_covered in
    let cov = covered_before d before after m (rw e whole) in
    let mid = sym (between_hooks-watch_all d before m) ∙ began in
    let ready = covered-ready (watch_all d before m) cov mid in
    let kept = ready-replay d before m run (λ k. absurd (cc k)) ready in
    on_disk-post d (replay before run).disk r c v p (ground (arith, kept))
