-- ===== src/Copier/Worker/Halting.antt =====
-- A stop wins (internal/copier/worker.go, `Stop`): the worker's loop and the operations of other
-- goroutines, in any order, each a stretch of code under the worker's lock. The worker has no copy
-- window here: the start of a pass looks at the window after it has compared the stops.
use archiver.Shared.{
  Bool, Bytes, Option, false, none, refl, some, true, ℕ, ◌<◌, ◌≡◌, ◌≢◌, ◌≤◌, nat_eq, bytes_eq,
  int_eq,
}
use archiver.Copier.Worker.{
  Window, held, outside_window, mark_held, State, Status, Worker, allow_large_once,
  force_exhaustive_once, is_stopped, new_worker, nudge, pause, resume, stop, wake,
}
use archiver.Copier.Worker.Pass.{
  dispatch, begin_pass, end_pass, listed, runs, start_run, finish_run, caught_up, failed,
  record_state, end_upkeep,
}

-- A worker, and the number of stops its loop handed to the pass that it is in.
pub record System : Type 0 where
  pub worker : Worker
  pub pass : Option ℕ

-- What a step does besides changing the state.
pub data Label : Type 0 where
  woken other : Label

abbrev at : Worker → Option ℕ → System
at w p = record { worker = w; pass = p }

-- The changes of `record` that upkeep makes: to the fields of what was done last.
pub data IsRecording (f : State → State) : Type 0 where
  recording : ((s : State) → (f s).status ≡ s.status) → IsRecording f

pub data Step : Label → System → System → Type 0 where
  wakes : (s : System) → Step woken s (record s { worker = (wake s.worker).0 })
  stops : (s : System) (now : ℕ) → Step other s (record s { worker = (stop now s.worker).0 })
  pauses : (s : System) → Step other s (record s { worker = (pause s.worker).0 })
  resumes : (s : System) → Step other s (record s { worker = (resume s.worker).0 })
  nudges : (s : System) → Step other s (record s { worker = nudge s.worker })
  allows : (s : System) → Step other s (record s { worker = allow_large_once s.worker })
  forces : (s : System) → Step other s (record s { worker = force_exhaustive_once s.worker })
  dispatches :
      (w w' : Worker) (c : ℕ) → dispatch w ≡ some (c, w') → Step other (at w none) (at w' (some c))
  begins :
      (w w' : Worker) (c : ℕ)
      → begin_pass c w ≡ some w'
      → Step other (at w (some c)) (at w' (some c))
  lists :
      (w : Worker) (c wakes lacks : ℕ)
      → Step other (at w (some c)) (at (listed wakes lacks w) (some c))
  starts :
      (w w' : Worker) (c behind now : ℕ) (status : Status) (check can : Bool)
      → start_run c status behind check can now w ≡ runs w'
      → Step other (at w (some c)) (at w' (some c))
  finishes :
      (w : Worker) (c wakes : ℕ) (check : Bool)
      → Step other (at w (some c)) (at (finish_run c check wakes w).0 (some c))
  catches_up :
      (w : Worker) (c now : ℕ) → Step other (at w (some c)) (at (caught_up c now w).0 (some c))
  fails :
      (w : Worker) (c now : ℕ) (error : Bytes)
      → Step other (at w (some c)) (at (failed c now error w).0 (some c))
  records :
      (w : Worker) (c : ℕ) (f : State → State)
      → IsRecording f
      → Step other (at w (some c)) (at (record_state c f w) (some c))
  ends_upkeep :
      (w : Worker) (c now : ℕ) → Step other (at w (some c)) (at (end_upkeep c now w) (some c))
  ends : (w : Worker) (c : ℕ) → Step other (at w (some c)) (at (end_pass w) none)

-- A pass was handed no more stops than there have been.
abbrev Handed : Option ℕ → ℕ → Type 0
Handed none n = Unit
Handed (some c) n = c ≤ n

pub data Reachable : System → Type 0 where
  starts_idle : (target : Bytes) (saved : State) → Reachable (at (new_worker target saved) none)
  then_step : {l : Label} {s t : System} → Reachable s → Step l s t → Reachable t

-- Steps without a wake.
pub data Quiet (s : System) : System → Type 0 where
  here : Quiet s s
  next : {t u : System} → Quiet s t → Step other t u → Quiet s u

abbrev IsHanded : System → Type 0
IsHanded s = Handed s.pass s.worker.stops

-- A pass that began before the last stop.
abbrev Stale : Option ℕ → ℕ → Type 0
Stale none n = Unit
Stale (some c) n = c < n

-- Stopped, with no wake since, and any pass under way from before the stop.
abbrev IsHalted : System → Type 0
IsHalted s =
    (is_stopped s.worker.state.status ≡ true)
    × (s.worker.wakes ≡ s.worker.wakes_at_stop)
    × Stale s.pass s.worker.stops

abbrev Restarted : System → System → Type 0
Restarted s t = t.worker.current ≡ true → s.worker.current ≡ true

-- Where a target has a copy window that is closed, a stop that lands between the start of a pass and
-- its look at the window is undone: the worker is held, and its loop dispatches a pass without a wake.
pub outside_window-stop :
    (window : Window) (w : Worker) (now at : ℕ)
    → window.is_open at ≡ false
    → let w' = (outside_window (some window) at (stop now w).0).0 in
      (w'.state.status ≡ held) × (w'.wakes ≡ w'.wakes_at_stop) × (dispatch w' ≢ none)
unfolding outside_window stop mark_held dispatch
outside_window-stop window w now at closed = rw closed (refl, refl, λ e. cc)
