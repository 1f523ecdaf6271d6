-- ===== src/Examples/Worker.antt =====
-- A worker whose target fails, and one that is stopped (internal/copier).
use archiver.Copier.Mirror.{plan_mirror}
use archiver.Shared.{
  All, Bool, Bytes, List, [], arith, atoi, bytes_beq, codes, false, none, pos, refl, some,
  sort_ints, sort_texts, true, ℕ, ◌*◌, ◌+◌, ◌<◌, ◌==◌, ◌||◌, ◌∷◌, ◌≡◌, ◌≢◌, ◌≤◌, nat_eq, bytes_eq,
  int_eq,
}
use archiver.Inuse.{Set, has, covers}
use archiver.Notify.Incident.{second, unix}
use archiver.Copier.Worker.{unset, held, State, Worker, Window, new_worker, stop, outside_window}
use archiver.Copier.Worker.Pass.{dispatch, down_after, failed}
use archiver.Copier.Worker.Failing.{failed-next_retry}
use archiver.Copier.Worker.Halting.{System, next, outside_window-stop}
use archiver.Copier.Upkeep.{
  Upkeep, hour, mirror_delete, worked, Target, apply_mirror, next_wake, due_now,
}
use archiver.Copier.Upkeep.Deleting.{IsSafe, apply_mirror-IsSafe}
use archiver.Copier.Upkeep.Times.{next_wake-due}

abbrev saved : State
saved = record {
  target = [];
  status = unset;
  paused = false;
  since = 0;
  behind = 0;
  behind_since = 0;
  last_success = 0;
  failing_since = 0;
  down_since = 0;
  next_retry = 0;
  last_error = [];
  last_mirror = 0;
  last_exhaustive = 0;
  last_check = 0;
  check_every = 0;
  check_tried = 0;
  check_failed = [];
  mirror_refused = [];
  window = [];
  held_until = 0;
}

abbrev worker : Worker
worker = new_worker (codes "nas") saved

abbrev now : ℕ
now = 1_000_000 * second

failed-next_retry_example :
    let s = (failed 0 now (codes "no route") worker).0.state in
    (unix now ≤ s.next_retry)
    × (s.next_retry ≤ unix (now + down_after))
    × (s.down_since ≡ 0 → s.next_retry ≤ s.failing_since + 1800)
unfolding new_worker
failed-next_retry_example = failed-next_retry 0 now (codes "no route") worker refl

-- A worker in its first pass.
abbrev busy_worker : Worker
busy_worker = record worker { pass_wakes = 0 }

abbrev busy : System
busy = record { worker = busy_worker; pass = some 0 }

abbrev after_stop : Worker
after_stop = (stop now busy_worker).0

abbrev nights : Window
nights = record { is_open = λ t. false; next = λ t. t + hour }

outside_window-stop_example :
    let w = (outside_window (some nights) (now + 1) (stop now worker).0).0 in
    (w.state.status ≡ held) × (w.wakes ≡ w.wakes_at_stop) × (dispatch w ≢ none)
outside_window-stop_example = outside_window-stop nights worker now (now + 1) refl

abbrev upkeep : Upkeep
upkeep = record { mirrors = true; exhaustive = 24 * hour; check = 2 * hour }

next_wake-due_example :
    (second ≤ next_wake upkeep now worker)
    × (next_wake upkeep now worker ≤ 6 * hour)
    × (next_wake upkeep now worker < 6 * hour
        → let (exhaustive, check) = due_now upkeep (now + 6 * hour) worker in
          (exhaustive || check) ≡ true)
unfolding next_wake new_worker
next_wake-due_example = next_wake-due upkeep now (now + 6 * hour) worker (omega arith)

abbrev target : Target
target done c = worked

abbrev reading : Set
reading =
    (record { storage = codes "nas"; id = codes "nas:docs"; rev = pos 2; and_newer = false } ∷ [])
    ∷ []

abbrev on_local : List Bytes
on_local = codes "nas:docs:9" ∷ codes "nas:docs:3" ∷ codes "nas:docs:4" ∷ []

abbrev on_target : List Bytes
on_target = codes "nas:docs:1" ∷ codes "nas:docs:2" ∷ codes "nas:docs:3" ∷ codes "nas:docs:4" ∷ []

abbrev own : Bytes → Bool
own id = id == codes "nas:docs"

-- Revision 2 waits for its reader.
apply_mirror_test :
    (apply_mirror target own false (some reading) on_local on_target).commands
    ≡ mirror_delete (codes "nas:docs") (pos 1 ∷ []) ∷ []
unfolding apply_mirror plan_mirror atoi bytes_beq sort_ints has covers sort_texts
apply_mirror_test = refl

apply_mirror-IsSafe_example :
    All
      (IsSafe own false reading on_local on_target)
      (apply_mirror target own false (some reading) on_local on_target).commands
apply_mirror-IsSafe_example = apply_mirror-IsSafe target own false reading on_local on_target
