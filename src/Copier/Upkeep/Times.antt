-- ===== src/Copier/Upkeep/Times.antt =====
-- When the worker wakes for its upkeep (internal/copier/upkeep.go).
use archiver.Shared.{
  Bool-cases, arith, inl, inr, ltb, ltb→lt, max, true, ℕ, ◌*◌, ◌+◌, ◌<◌, ◌||◌, ◌≡◌, ◌≤◌,
}
use archiver.Notify.Incident.{second}
use archiver.Copier.Worker.{Worker}
use archiver.Copier.Upkeep.{hour, due, Upkeep, exhaustive_interval, sooner, next_wake, due_now}

sooner_bounds :
    (now last interval next : ℕ)
    → second ≤ next
    → (second ≤ sooner now last interval next) × (sooner now last interval next ≤ next)
unfolding sooner
sooner_bounds now last interval next h = (ground arith, ground arith)

-- Once the wait is over, whatever it was cut short for is due.
sooner-due :
    (now last interval next later : ℕ)
    → sooner now last interval next < next
    → now + sooner now last interval next ≤ later
    → due later last interval ≡ true
unfolding sooner due
sooner-due now last interval next later cut over = ground arith

due-mirrors :
    (u : Upkeep) (later last : ℕ) → due later last (exhaustive_interval u) ≡ true → u.mirrors ≡ true
unfolding due exhaustive_interval
due-mirrors u later last h = ground arith

-- An idle worker sleeps at least a second and at most six hours; and one that sleeps less than six
-- hours finds a check or an exhaustive prune due when it wakes.
pub next_wake-due :
    (u : Upkeep) (now later : ℕ) (w : Worker)
    → now + next_wake u now w ≤ later
    → (second ≤ next_wake u now w)
      × (next_wake u now w ≤ 6 * hour)
      × (next_wake u now w < 6 * hour
          → let (exhaustive, check) = due_now u later w in (exhaustive || check) ≡ true)
unfolding next_wake due_now
next_wake-due u now later w over =
    let last_check = max w.state.last_check w.state.check_tried in
    let first = sooner now last_check u.check (6 * hour) in
    let every = exhaustive_interval u in
    let whole = sooner now w.state.last_exhaustive every first in
    let (low, high) = sooner_bounds now last_check u.check (6 * hour) (omega arith) in
    let (low', high') = sooner_bounds now w.state.last_exhaustive every first low in
    (
      low',
      omega arith,
      λ short. elim (Bool-cases (ltb whole first)) [
        | inl cut ↦
            let ready =
              sooner-due now w.state.last_exhaustive every first later (ltb→lt _ _ cut) over in
            rw (ready, due-mirrors u later w.state.last_exhaustive ready) (ground arith)
        | inr same ↦
            let equal : first ≤ whole = ground (arith, same) in
            rw (sooner-due now last_check u.check (6 * hour) later (omega arith) (omega arith))
              (ground arith)
      ],
    )
