-- ===== src/Config/Window.antt =====
-- The window of hours in which a worker may copy (internal/config/config.go: `Window`). Instants are
-- in nanoseconds; the local hour and minute of an instant are functions of it.
use archiver.Shared.{
  Bool, if◌then◌else◌, leb, ltb, not, suc, zero, ℕ, ◌%◌, ◌&&◌, ◌*◌, ◌+◌, ◌-◌, ◌||◌,
}
pub mod Changes
use archiver.Notify.Incident.{second}

-- `Window`: minutes after midnight.
pub record Window : Type 0 where
  pub start : ℕ
  pub end : ℕ

abbrev pub minute : ℕ
minute = 60 * second

-- `time.Time.Hour` and `time.Time.Minute`, in the local zone.
pub record Zone : Type 0 where
  pub hour_of : ℕ → ℕ
  pub minute_of : ℕ → ℕ

abbrev pub clock : Zone → ℕ → ℕ
clock zone t = zone.hour_of t * 60 + zone.minute_of t

-- `Open`, of a minute after midnight.
unfoldable pub within : Window → ℕ → Bool
within w m =
    if ltb w.start w.end then leb w.start m && ltb m w.end else leb w.start m || ltb m w.end

-- `Open`
unfoldable pub is_open : Zone → Window → ℕ → Bool
unfolding within
is_open zone w t = within w (clock zone t)

abbrev pub same : Bool → Bool → Bool
same a b = if a then b else not b

-- The loop of `Next`.
unfoldable pub change_from : Zone → Window → Bool → ℕ → ℕ → ℕ
unfolding is_open
change_from zone w was zero c = c
change_from zone w was (suc n) c =
    let rest = change_from zone w was n (c + minute) in
    if same (is_open zone w (c + minute)) was then rest else c + minute

-- `t.Truncate(time.Minute)`
abbrev pub truncate : ℕ → ℕ
truncate t = t - t % minute

abbrev pub next_limit : ℕ
next_limit = 50 * 60

-- `Next`
unfoldable pub next_change : Zone → Window → ℕ → ℕ
unfolding change_from is_open
next_change zone w t = change_from zone w (is_open zone w t) next_limit (truncate t)
