-- ===== src/Copier/Worker.antt =====
-- internal/copier/worker.go and upkeep.go: a copy worker's state and the operations on it. Each
-- operation stands for a stretch of code under the worker's lock. Time is in nanoseconds since
-- 1970; stored instants are in seconds.
use archiver.Shared.{
  Bool, Bytes, List, Option, [], false, if◌then◌else◌, none, some, true, ℕ, ◌&&◌, ◌++◌, ◌+◌, ◌∷◌,
}
pub mod Pass
pub mod Failing
pub mod Halting
use archiver.Notify.Incident.{second, unix}

-- The statuses; `unset` is the empty string of a state that was never saved.
pub data Status : Type 0 where
  unset idle copying retrying down stopped held mirroring pruning checking : Status

abbrev pub is_stopped : Status → Bool
is_stopped stopped = true
is_stopped _ = false

-- Whether a failure's retry is scheduled.
abbrev pub is_failing : Status → Bool
is_failing retrying = true
is_failing down = true
is_failing _ = false

abbrev pub is_copying : Status → Bool
is_copying copying = true
is_copying _ = false

pub record State : Type 0 where
  pub target : Bytes
  pub status : Status
  pub paused : Bool
  pub since : ℕ
  pub behind : ℕ
  pub behind_since : ℕ
  pub last_success : ℕ
  pub failing_since : ℕ
  pub down_since : ℕ
  pub next_retry : ℕ
  pub last_error : Bytes
  pub last_mirror : ℕ
  pub last_exhaustive : ℕ
  pub last_check : ℕ
  pub check_every : ℕ
  pub check_tried : ℕ
  pub check_failed : Bytes
  pub mirror_refused : Bytes
  pub window : Bytes
  pub held_until : ℕ

-- `Worker`, less what a listing leaves for a recount. `queued` is a value in the channel `wake`,
-- `current` and `listing` that the fields `current` and `cancel` are set; `frozen` is the field
-- `paused`.
pub record Worker : Type 0 where
  pub state : State
  pub attempt : ℕ
  pub current : Bool
  pub listing : Bool
  pub frozen : Bool
  pub stops : ℕ
  pub wakes : ℕ
  pub wakes_at_stop : ℕ
  pub busy_checking : Bool
  pub pass_wakes : ℕ
  pub list_wakes : ℕ
  pub queued : Bool
  pub force_exhaustive : Bool
  pub allow_large : Bool
  pub hold_at : ℕ

-- What an operation does to the running command, to the listing, and tells the rest of Archiver.
pub data Effect : Type 0 where
  suspend continue terminate cancel : Effect
  checkin : Bool → Bytes → Effect
  raise_down : Effect
  clear_down : Effect

abbrev pub when : Bool → Effect → List Effect
when true e = e ∷ []
when false e = []

abbrev restored : Status → Status
restored unset = idle
restored copying = idle
restored stopped = idle
restored held = idle
restored s = s

-- `New`
unfoldable pub new_worker : Bytes → State → Worker
new_worker target saved = record {
  state = record saved {
    target = target;
    paused = false;
    status = restored saved.status;
    held_until = 0;
  };
  attempt = 0;
  current = false;
  listing = false;
  frozen = false;
  stops = 0;
  wakes = 0;
  wakes_at_stop = 0;
  busy_checking = false;
  pass_wakes = 0;
  list_wakes = 0;
  queued = false;
  force_exhaustive = false;
  allow_large = false;
  hold_at = 0;
}

unfoldable pub nudge : Worker → Worker
nudge w = record w { queued = true }

-- `Wake`, less the recount it starts.
unfoldable pub wake : Worker → Worker × List Effect
wake w =
    (record w { wakes = w.wakes + 1; queued = true }, when (w.busy_checking && w.current) terminate)

-- `Stop`
unfoldable pub stop : ℕ → Worker → Worker × List Effect
stop now w = (
  record w {
    stops = w.stops + 1;
    wakes_at_stop = w.wakes;
    queued = false;
    frozen = false;
    attempt = 0;
    state = record w.state {
      paused = false;
      status = stopped;
      since = unix now;
      next_retry = 0;
      held_until = 0;
    };
  },
  when (w.current && w.frozen) continue ++ when w.listing cancel ++ when w.current terminate,
)

-- `Pause`
unfoldable pub pause : Worker → Worker × List Effect
pause w = if w.frozen then (w, []) else (
  record w { frozen = true; state = record w.state { paused = true } },
  when w.current suspend,
)

-- `Resume`
unfoldable pub resume : Worker → Worker × List Effect
resume w =
    if w.frozen
    then (
      record w { frozen = false; state = record w.state { paused = false } },
      when w.current continue,
    )
    else (w, [])

-- `AllowLarge`
unfoldable pub allow_large_once : Worker → Worker
unfolding nudge
allow_large_once w = nudge (record w { allow_large = true })

-- `ForceExhaustive`
unfoldable pub force_exhaustive_once : Worker → Worker
unfolding nudge
force_exhaustive_once w = nudge (record w { force_exhaustive = true })

-- A copy window: whether it is open at an instant, and when it next opens or closes.
pub record Window : Type 0 where
  pub is_open : ℕ → Bool
  pub next : ℕ → ℕ

-- `markHeld`
unfoldable pub mark_held : Window → ℕ → Worker → Worker
mark_held window now w =
    let until = record w.state { held_until = unix (window.next now) } in
    record w {
      state =
          if is_failing w.state.status
          then until
          else record until { status = held; since = unix now };
    }

-- `hold`
unfoldable pub hold : Window → ℕ → Worker → Worker × List Effect
unfolding mark_held
hold window now w =
    let held_now = mark_held window now (record w { stops = w.stops + 1; hold_at = w.stops + 1 }) in
    if is_stopped w.state.status then (w, []) else (
      held_now,
      when (w.current && w.frozen) continue ++ when w.listing cancel ++ when w.current terminate,
    )

-- `outsideWindow`
unfoldable pub outside_window : Option Window → ℕ → Worker → Worker × Bool
unfolding mark_held
outside_window none now w = (w, false)
outside_window (some window) now w =
    if window.is_open now
    then (record w { state = record w.state { held_until = 0 } }, false)
    else (mark_held window now w, true)
