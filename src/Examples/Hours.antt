-- ===== src/Examples/Hours.antt =====
-- A window from 22:00 to 6:00, half a minute past 23:15 (internal/config/config.go: `Window`).
use archiver.Shared.{
  arith, false, if◌then◌else◌, leb, ltb, not, refl, true, ℕ, ◌%◌, ◌*◌, ◌+◌, ◌/◌, ◌||◌, ◌≡◌, ◌≤◌,
}
use archiver.Config.Window.{Window, Zone, minute, within, is_open, same, truncate, next_change}
use archiver.Config.Window.Changes.{IsEvenDay, next_change_lem}

abbrev night : Window
night = record { start = 22 * 60; end = 6 * 60 }

abbrev late : ℕ
late = (23 * 60 + 15) * minute + minute / 2

within-night : (within night 1320 ≡ true) × ((within night 359 ≡ true) × (within night 360 ≡ false))
unfolding within
within-night = (refl, (refl, refl))

-- A clock that is set on by an hour at midnight of the day after the first.
abbrev summer : Zone
summer = record {
  hour_of = λ t. (if leb (1440 * minute) t then t / (60 * minute) + 1 else t / (60 * minute)) % 24;
  minute_of = λ t. t / minute % 60;
}

summer-IsEvenDay : IsEvenDay summer (truncate late + 60 * minute)
summer-IsEvenDay k h = ground arith

next_change_lem_example :
    ((truncate late + minute ≤ next_change summer night late)
      × (next_change summer night late ≤ truncate late + (60 + 1440) * minute))
    × ((same (is_open summer night (next_change summer night late)) (is_open summer night late)
          ≡ false)
        × ((not (ltb (truncate late + 5 * minute) (next_change summer night late))
              || same
                  (is_open summer night (truncate late + 5 * minute))
                  (is_open summer night late))
            ≡ true))
next_change_lem_example =
    next_change_lem summer night late 4 60 (omega arith) (omega arith)
      (λ e. absurd (omega (arith, e))) (omega arith) (omega arith) summer-IsEvenDay
