-- ===== src/Backup/Crash.antt =====
-- A crash in the middle of a backup (internal/pipeline/backup.go `backupService`,
-- internal/resume/resume.go): what the record on disk says of a service between its hooks, after
-- every act.
use archiver.Shared.{
  Bool, Bytes, List, [], all_of, any_of, arith, false, if◌then◌else◌, not, refl, true, ◌&&◌, ◌++◌,
  ◌==◌, ◌||◌, ◌∷◌, ◌≡◌, nat_eq, bytes_eq, int_eq,
}
pub mod Service
pub mod Passing
pub mod Apart
pub mod Restarts
pub mod Again
use archiver.Resume.{hooked, pending, done}
use archiver.Backup.{
  Act, staged, recorded, pre_hook, post_hook, backed_up, probed, lost_primary, noted,
  storages_added, errored, Answers, HookEnd, not_started, ended, Standing, Outcome, backup_part,
  pre_part, after_pre, post_part, last_part, end_part, probe_part, refused, finish_service,
  backup_service, with_hooks, process_service, context_of, failed, skipped, is_stopped, Result,
  error_if,
}
use archiver.Backup.Quiet.{quiet, backup_part-quiet, probe_part-quiet, end_part-quiet}

-- What is to be watched of one service: whether its pre hook has run and its post hook has not, and
-- whether the last that was recorded of it says so and was written.
pub record Watched : Type 0 where
  pub between : Bool
  pub ready : Bool

unfoldable pub watch : Bytes → Act → Watched → Watched
watch d (staged c s) m = m
watch d (recorded e stage written) m = record m {
  ready = if e == d then stage == hooked && written else m.ready;
}
watch d (pre_hook e) m = record m { between = e == d || m.between }
watch d (post_hook e r) m = record m { between = not (e == d) && m.between }
watch d (backed_up e) m = m
watch d probed m = m
watch d lost_primary m = m
watch d (noted e r) m = m
watch d (storages_added e) m = m
watch d errored m = m

unfoldable pub watch_all : Bytes → List Act → Watched → Watched
unfolding watch
watch_all d [] m = m
watch_all d (x ∷ xs) m = watch_all d xs (watch d x m)

-- A service between its hooks is recorded as that.
unfoldable pub covered : Watched → Bool
covered m = not m.between || m.ready

-- It is, after every act.
unfoldable pub always_covered : Bytes → List Act → Watched → Bool
unfolding covered watch
always_covered d [] m = covered m
always_covered d (x ∷ xs) m = covered m && always_covered d xs (watch d x m)

pub always_covered-append :
    (d : Bytes) (xs ys : List Act) (m : Watched)
    → always_covered d xs m ≡ true
    → always_covered d ys (watch_all d xs m) ≡ true
    → always_covered d (xs ++ ys) m ≡ true
unfolding always_covered watch_all
always_covered-append d [] ys m h k = k
always_covered-append d (x ∷ xs) ys m h k =
    ground (arith, always_covered-append d xs ys (watch d x m))

pub watch_all-append :
    (d : Bytes) (xs ys : List Act) (m : Watched)
    → watch_all d (xs ++ ys) m ≡ watch_all d ys (watch_all d xs m)
unfolding watch_all
watch_all-append d [] ys m = refl
watch_all-append d (x ∷ xs) ys m = watch_all-append d xs ys (watch d x m)

-- Whether an act is the pre hook of a service.
unfoldable pub is_pre : Bytes → Act → Bool
is_pre d x = elim x [ pre_hook e ↦ e == d | _ ↦ false ]

watch-away :
    (d : Bytes) (x : Act) (m : Watched)
    → is_pre d x ≡ false
    → m.between ≡ false
    → (watch d x m).between ≡ false
unfolding is_pre watch
watch-away d x m h k = ground arith

-- While a service has not begun, there is nothing to cover.
pub away-covered :
    (d : Bytes) (xs : List Act) (m : Watched)
    → any_of (is_pre d) xs ≡ false
    → m.between ≡ false
    → (always_covered d xs m ≡ true) × ((watch_all d xs m).between ≡ false)
unfolding always_covered watch_all covered
away-covered d [] m h k = (rw k refl, k)
away-covered d (x ∷ xs) m h k =
    let first : is_pre d x ≡ false = ground arith in
    let rest : any_of (is_pre d) xs ≡ false = ground arith in
    let (c, b) = away-covered d xs (watch d x m) rest (watch-away d x m first k) in (simp k c, b)

watch-quiet : (d : Bytes) (x : Act) (m : Watched) → quiet x ≡ true → watch d x m ≡ m
unfolding quiet watch
watch-quiet d x m h = ground arith

pub watch_all-quiet :
    (d : Bytes) (xs : List Act) (m : Watched) → all_of quiet xs ≡ true → watch_all d xs m ≡ m
unfolding watch_all
watch_all-quiet d [] m h = refl
watch_all-quiet d (x ∷ xs) m h = ground (arith, watch-quiet d x m, watch_all-quiet d xs m)

pub quiet-covered :
    (d : Bytes) (xs : List Act) (m : Watched)
    → all_of quiet xs ≡ true
    → covered m ≡ true
    → always_covered d xs m ≡ true
unfolding always_covered
quiet-covered d [] m h k = k
quiet-covered d (x ∷ xs) m h k = ground (arith, watch-quiet d x m, quiet-covered d xs m)

pub quiet-away : (d : Bytes) (xs : List Act) → all_of quiet xs ≡ true → any_of (is_pre d) xs ≡ false
unfolding quiet is_pre
quiet-away d [] h = refl
quiet-away d (x ∷ xs) h = ground (arith, quiet-away d xs)
