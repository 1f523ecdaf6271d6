-- ===== src/Runlock.antt =====
-- A run's lock file: what internal/lockstate/lockstate.go reads from it and what
-- internal/runlock/runlock.go writes to it.
--
-- The kernel lock on the side file (flock) is not modelled: each operation that `edit` serializes
-- is one step on the file. How a write ends is an argument of the operation: a stage is written to a new
-- file, so that a write that fails leaves the file as it was; an event is appended to the file itself,
-- and some of its bytes may be there after an error.
use archiver.Shared.{
  Bool, Bytes, List, Option, [], after_line, atoi, atoi_value, codes, false, fields, if◌then◌else◌,
  itoa, ltb_ℤ, newline, none, not, pos, some, split_lines, suc, true, zero, ℕ, ℤ, ◌&&◌, ◌++◌, ◌==◌,
  ◌||◌, ◌∷◌, nat_eq, bytes_eq, int_eq,
}
pub mod Text
pub mod Implements
pub mod Pausing
pub mod Spaces

pub record Event : Type 0 where
  pub at : ℤ
  pub state : Bytes

-- lockstate.Lock.
pub record Lock : Type 0 where
  pub pid : ℤ
  pub context : Bytes
  pub stage : Bytes
  pub events : List Event

abbrev pub no_lock : Lock
no_lock = record { pid = pos 0; context = []; stage = []; events = [] }

pub data File : Type 0 where
  absent : File
  unreadable : File
  present : Bytes → File

-- The state's words that the code tests for.
abbrev pub is_paused : Bytes → Bool
is_paused s = s == codes "paused"

abbrev pub is_running : Bytes → Bool
is_running s = s == codes "running"

abbrev pub is_cleanup : Bytes → Bool
is_cleanup s = s == codes "cleanup"

-- The last event's state, if there is one.
unfoldable pub last_state : List Event → Option Bytes
last_state [] = none
last_state (e ∷ []) = some e.state
last_state (e ∷ f ∷ es) = last_state (f ∷ es)

abbrev pub holds_of : (Bytes → Bool) → Option Bytes → Bool
holds_of p none = false
holds_of p (some s) = p s

-- `Lock.Paused`.
unfoldable pub paused : Lock → Bool
unfolding last_state
paused l = holds_of is_paused (last_state l.events)

-- `Lock.StartedAt`.
unfoldable pub started_at : Lock → ℤ
started_at l = elim l.events [ [] ↦ pos 0 | e ∷ es ↦ e.at ]

-- `Lock.Alive`, with `answers` for what sending signal 0 to a process says of it.
unfoldable pub alive : (ℤ → Bool) → Lock → Bool
alive answers l = ltb_ℤ (pos 0) l.pid && answers l.pid

-- A later line of the file; `none` is a line passed over.
unfoldable pub event_of : List Bytes → Option Event
event_of [] = none
event_of (w ∷ []) = none
event_of (w ∷ s ∷ ws) = elim (atoi w) [
  | none ↦ none
  | some at ↦ some (record { at = at; state = s })
]

unfoldable pub events_of : List Bytes → List Event
unfolding event_of
events_of [] = []
events_of (l ∷ ls) =
    let rest = events_of ls in elim (event_of (fields l)) [ none ↦ rest | some e ↦ e ∷ rest ]

-- The first line's words.
unfoldable pub owner_of : List Bytes → List Event → Lock
owner_of [] es = record { pid = pos 0; context = []; stage = []; events = es }
owner_of (p ∷ []) es = record { pid = atoi_value p; context = []; stage = []; events = es }
owner_of (p ∷ c ∷ []) es = record { pid = atoi_value p; context = c; stage = []; events = es }
owner_of (p ∷ c ∷ s ∷ ws) es = record { pid = atoi_value p; context = c; stage = s; events = es }

unfoldable pub lock_of : List Bytes → Lock
unfolding owner_of events_of
lock_of [] = no_lock
lock_of (l ∷ ls) = owner_of (fields l) (events_of ls)

-- What `ReadLock` returns: the lock, whether there is one, and whether reading failed.
pub record ReadResult : Type 0 where
  pub lock : Lock
  pub held : Bool
  pub failed : Bool

-- `ReadLock`. No line is longer than the scanner takes (64 KB); a carriage return at the end of a
-- line, which the scanner drops, is space between words.
unfoldable pub read_lock : File → ReadResult
unfolding lock_of split_lines
read_lock absent = record { lock = no_lock; held = false; failed = false }
read_lock unreadable = record { lock = no_lock; held = false; failed = true }
read_lock (present text) = record { lock = lock_of (split_lines text); held = true; failed = false }

-- What `Acquire` and `SetStage` write as the first line, without its newline.
unfoldable pub owner_text : ℤ → Bytes → Bytes → Bytes
owner_text pid context stage = itoa pid ++ b' ' ∷ (context ++ b' ' ∷ stage)

-- What `appendEvent` writes, without its newline.
unfoldable pub event_text : ℤ → Bytes → Bytes
event_text at state = itoa at ++ b' ' ∷ state

-- What `Acquire` writes once it holds the kernel lock.
unfoldable pub acquired : ℤ → Bytes → Bytes → ℤ → File
unfolding owner_text event_text
acquired pid context stage now =
    present
      (owner_text pid context stage ++ newline ∷ (event_text now (codes "running") ++ newline ∷ []))

-- `SetStage`, with `writes` for the write's success: whether it succeeded, and the file.
unfoldable pub set_stage : Bool → ℤ → Bytes → Bytes → File → Bool × File
unfolding owner_text after_line
set_stage writes pid context stage absent = (false, absent)
set_stage writes pid context stage unreadable = (false, unreadable)
set_stage writes pid context stage (present text) =
    if writes
    then (true, present (owner_text pid context stage ++ newline ∷ after_line text))
    else (false, present text)

-- How appending an event ends: well; with an error once all of it is in the file; or with an error
-- once some first bytes of it are.
pub data Write : Type 0 where
  wrote landed : Write
  tore : ℕ → Write

abbrev pub is_wrote : Write → Bool
is_wrote wrote = true
is_wrote landed = false
is_wrote (tore n) = false

unfoldable pub first_bytes : ℕ → Bytes → Bytes
first_bytes zero s = []
first_bytes (suc n) [] = []
first_bytes (suc n) (c ∷ s) = c ∷ first_bytes n s

-- What is in the file after a write of a line.
unfoldable pub put : Write → Bytes → Bytes → Bytes
unfolding first_bytes
put wrote text line = text ++ line
put landed text line = text ++ line
put (tore n) text line = text ++ first_bytes n line

-- `appendEvent`: whether it returns no error, and the file.
unfoldable pub append_event : Write → ℤ → Bytes → File → Bool × File
unfolding event_text put
append_event w at state absent = (false, absent)
append_event w at state unreadable = (is_wrote w, unreadable)
append_event w at state (present text) =
    (is_wrote w, present (put w text (event_text at state ++ newline ∷ [])))

-- What an operation that signals under the edit lock did: whether it took place, whether it
-- failed, the file, and what the signal acts on.
pub record Edit (W : Type 0) : Type 0 where
  pub done : Bool
  pub failed : Bool
  pub file : File
  pub world : W

module _ {W : Type 0} where
  -- `Pause`, from what it reads.
  unfoldable pub pause_with : ReadResult → Write → ℤ → (W → W) → File → W → Edit W
  unfolding append_event paused
  pause_with r writes at signal file w =
      if r.failed || (not r.held || paused r.lock)
      then record { done = false; failed = r.failed; file = file; world = w }
      else if holds_of is_cleanup (last_state r.lock.events)
      then record { done = false; failed = false; file = file; world = w }
      else (let (ok, file') = append_event writes at (codes "paused") file in
          if ok
          then record { done = true; failed = false; file = file'; world = signal w }
          else record { done = false; failed = true; file = file'; world = w })

  unfoldable pub pause : Write → ℤ → (W → W) → File → W → Edit W
  unfolding pause_with read_lock
  pause writes at signal file w = pause_with (read_lock file) writes at signal file w

  -- `Resume`, from what it reads: it signals before it records.
  unfoldable pub resume_with : ReadResult → Write → ℤ → (W → W) → File → W → Edit W
  unfolding append_event paused
  resume_with r writes at signal file w =
      if r.failed || (not r.held || not (paused r.lock))
      then record { done = false; failed = r.failed; file = file; world = w }
      else (let (ok, file') = append_event writes at (codes "running") file in
          record { done = ok; failed = not ok; file = file'; world = signal w })

  unfoldable pub resume : Write → ℤ → (W → W) → File → W → Edit W
  unfolding resume_with read_lock
  resume writes at signal file w = resume_with (read_lock file) writes at signal file w

  -- `Unpaused`, from what it reads.
  unfoldable pub unpaused_with : ReadResult → (W → W) → File → W → Edit W
  unfolding paused
  unpaused_with r start file w =
      if r.failed
      then record { done = false; failed = true; file = file; world = w }
      else if paused r.lock
      then record { done = false; failed = false; file = file; world = w }
      else record { done = true; failed = false; file = file; world = start w }

  -- `Unpaused`, with whether the edit lock can be taken.
  unfoldable pub unpaused : Bool → (W → W) → File → W → Edit W
  unfolding unpaused_with read_lock
  unpaused locks start file w =
      if locks
      then unpaused_with (read_lock file) start file w
      else record { done = false; failed = true; file = file; world = w }

  -- One round of `StartUnpaused` after `wait`, from what `Unpaused` did: whether the program was
  -- started, and what then runs.
  unfoldable pub start_after : (W → W) → Edit W → W → Bool × W
  start_after start r w = if r.failed then (true, start w) else (r.done, r.world)

  -- One round of `StartUnpaused`, with `ending` for what `wait` reports.
  unfoldable pub start_unpaused : Bool → Bool → (W → W) → File → W → Bool × W
  unfolding unpaused start_after
  start_unpaused ending locks start file w =
      if ending then (true, start w) else start_after start (unpaused locks start file w) w
