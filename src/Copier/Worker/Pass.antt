-- ===== src/Copier/Worker/Pass.antt =====
-- internal/copier/worker.go and upkeep.go: what a pass does to the worker's state. A pass is
-- dispatched with the number of stops so far, and every step of it compares them.
use archiver.Shared.{
  Bool, Bytes, List, Option, [], codes, false, if◌then◌else◌, leb, length, ltb, none, not, some,
  suc, true, zero, ℕ, ◌&&◌, ◌*◌, ◌+◌, ◌-◌, ◌==◌, ◌||◌, ◌∷◌, nat_eq, bytes_eq, int_eq,
}
use archiver.Notify.Incident.{second, unix}
use archiver.Copier.Worker.{
  Status, idle, retrying, down, is_stopped, is_failing, is_copying, State, Worker, Effect, checkin,
  raise_down, clear_down, when,
}

abbrev minute : ℕ
minute = 60 * second

-- `DownAfter`
abbrev pub down_after : ℕ
down_after = 30 * minute

-- `Backoff[min(attempt, len(Backoff)-1)]`
unfoldable pub backoff : ℕ → ℕ
backoff zero = minute
backoff (suc zero) = 5 * minute
backoff (suc (suc zero)) = 15 * minute
backoff _ = 30 * minute

-- The end of `Run`'s loop: a stopped worker starts no pass before it is woken again.
unfoldable pub dispatch : Worker → Option (ℕ × Worker)
dispatch w =
    if is_stopped w.state.status && w.wakes == w.wakes_at_stop
    then none
    else some (
      w.stops,
      record w {
        pass_wakes = w.wakes;
        state = if is_stopped w.state.status then record w.state { status = idle } else w.state;
      },
    )

-- The start of `pass`; `none` is its early return.
unfoldable pub begin_pass : ℕ → Worker → Option Worker
begin_pass stops w = if w.stops == stops then some (record w { listing = true }) else none

-- The end of `pass`.
unfoldable pub end_pass : Worker → Worker
end_pass w = record w { listing = false }

-- The part of `missing` that records how much the target lacks.
unfoldable pub listed : ℕ → ℕ → Worker → Worker
listed wakes lacks w = record w {
  list_wakes = wakes;
  state =
      if (lacks == 0) && not (w.state.behind == 0)
      then record w.state { behind = 0; behind_since = 0 }
      else w.state;
}

-- What the start of a command in `run` comes to: it was stopped, the worker waits out a pause, it
-- could not start, or it runs.
pub data Started : Type 0 where
  ended waits broken : Started
  runs : Worker → Started

-- The worker as a command runs.
unfoldable pub running : Status → ℕ → Bool → ℕ → Worker → Worker
running status behind check now w =
    let begun = record w.state { status = status; since = unix now } in
    record w {
      current = true;
      busy_checking = check;
      state =
          if is_copying status
          then record begun {
            behind = behind;
            behind_since =
                if ltb 0 behind && begun.behind_since == 0 then unix now else begun.behind_since;
          }
          else begun;
    }

-- A round of `ready`: whether the pass may go on; `none` waits out a pause.
unfoldable pub ready : ℕ → Worker → Option Bool
ready stops w = if not (w.stops == stops) then some false else if w.frozen then none else some true

-- The part of `run` that starts a command under the worker's lock; `starts` is that it can.
unfoldable pub start_run : ℕ → Status → ℕ → Bool → Bool → ℕ → Worker → Started
unfolding running
start_run stops status behind check starts now w =
    if not (w.stops == stops) || check && not (w.wakes == w.pass_wakes)
    then ended
    else if w.frozen
    then waits
    else if starts
    then runs (running status behind check now w)
    else broken

-- The end of `run`, when the command has ended: the worker, and whether a stop ended it, or a wake
-- a check.
unfoldable pub finish_run : ℕ → Bool → ℕ → Worker → Worker × Bool
finish_run stops check wakes w = (
  record w { current = false; busy_checking = false },
  not (w.stops == stops) || check && not (w.wakes == wakes),
)

-- `caughtUp`
unfoldable pub caught_up : ℕ → ℕ → Worker → Worker × List Effect
caught_up stops now w =
    let good = record w.state {
      status = idle;
      since = unix now;
      last_success = unix now;
      failing_since = 0;
      next_retry = 0;
      last_error = [];
      down_since = 0;
    } in
    if not (w.stops == stops) then (w, []) else (
      record w {
        attempt = 0;
        state =
            if w.wakes == w.list_wakes then record good { behind = 0; behind_since = 0 } else good;
      },
      clear_down
          ∷ (if ltb 0 (length w.state.check_failed)
              then checkin false w.state.check_failed
              else checkin true (codes "caught up"))
          ∷ [],
    )

-- When a failure began.
unfoldable pub failing_from : ℕ → State → ℕ
failing_from now s = if s.failing_since == 0 then unix now else s.failing_since

-- The wait before the next try: no longer than until the failure has lasted `DownAfter`.
unfoldable pub delay : ℕ → Worker → ℕ
unfolding failing_from backoff
delay now w =
    let wait = backoff w.attempt in
    let to_down = failing_from now w.state * second + down_after - now in
    if w.state.down_since == 0 && (ltb 0 to_down && ltb to_down wait) then to_down else wait

-- Whether the failure has lasted `DownAfter`.
unfoldable pub long_failing : ℕ → State → Bool
unfolding failing_from
long_failing now s = leb down_after (now - failing_from now s * second)

unfoldable pub down_from : ℕ → State → ℕ
unfolding long_failing
down_from now s = if long_failing now s && s.down_since == 0 then unix now else s.down_since

-- `failed`
unfoldable pub failed : ℕ → ℕ → Bytes → Worker → Worker × List Effect
unfolding delay down_from
failed stops now error w = if not (w.stops == stops) then (w, []) else (
  record w {
    attempt = w.attempt + 1;
    state = record w.state {
      failing_since = failing_from now w.state;
      next_retry = unix (now + delay now w);
      last_error = error;
      down_since = down_from now w.state;
      status = if down_from now w.state == 0 then retrying else down;
      since = unix now;
    };
  },
  checkin false error ∷ when (long_failing now w.state) raise_down,
)

-- `record` of upkeep.go, with the change it makes.
unfoldable pub record_state : ℕ → (State → State) → Worker → Worker
record_state stops f w = if w.stops == stops then record w { state = f w.state } else w

-- The end of `upkeep`.
unfoldable pub end_upkeep : ℕ → ℕ → Worker → Worker
end_upkeep stops now w =
    if w.stops == stops && not (is_failing w.state.status)
    then record w { state = record w.state { status = idle; since = unix now } }
    else w
