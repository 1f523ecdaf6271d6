-- ===== src/Config/Window/Changes.antt =====
-- When a window changes next (internal/config/config.go, `Next`).
use archiver.Shared.{
  Bool, Bool-cases, ap, arith, false, if◌then◌else◌, inl, inr, ltb, ltb→lt, not, refl, subst, suc,
  true, zero, ℕ, ◌%◌, ◌*◌, ◌+◌, ◌-◌, ◌<◌, ◌||◌, ◌∙◌, ◌≡◌, ◌≢◌, ◌≤◌,
}
use archiver.Config.Window.{
  Window, Zone, minute, clock, within, is_open, same, change_from, truncate, next_limit,
  next_change,
}

-- No minute before the one that is found differs.
same-change_from :
    (zone : Zone) (w : Window) (was : Bool) (n c j u : ℕ)
    → u ≡ c + suc j * minute
    → u < change_from zone w was n c
    → same (is_open zone w u) was ≡ true
unfolding change_from
same-change_from zone w was zero c j u e h = absurd (omega (arith, e, h))
same-change_from zone w was (suc n) c zero u e h =
    elim (Bool-cases (same (is_open zone w (c + minute)) was)) [
      | inl alike ↦
          subst (λ v. same (is_open zone w v) was ≡ true) {x = c + minute} (omega (arith, e)) alike
      | inr differs ↦ absurd (let early = (rw differs at h) in omega (arith, e, early))
    ]
same-change_from zone w was (suc n) c (suc j) u e h =
    elim (Bool-cases (same (is_open zone w (c + minute)) was)) [
      | inl alike ↦
          same-change_from zone w was n (c + minute) j u (omega (arith, e)) (rw alike at h)
      | inr differs ↦ absurd (let early = (rw differs at h) in omega (arith, e, early))
    ]

-- The minute that is found differs, if one does within the limit, and is the earliest.
change_from-first :
    (zone : Zone) (w : Window) (was : Bool) (n c k u : ℕ)
    → k < n
    → u ≡ c + suc k * minute
    → same (is_open zone w u) was ≡ false
    → (same (is_open zone w (change_from zone w was n c)) was ≡ false)
      × (change_from zone w was n c ≤ u)
unfolding change_from
change_from-first zone w was zero c k u inside e h = absurd (omega (arith, inside))
change_from-first zone w was (suc n) c zero u inside e h =
    let now : same (is_open zone w (c + minute)) was ≡ false =
      subst (λ v. same (is_open zone w v) was ≡ false) (omega (arith, e)) h in
    rw now (now, omega (arith, e))
change_from-first zone w was (suc n) c (suc k) u inside e h =
    elim (Bool-cases (same (is_open zone w (c + minute)) was)) [
      | inr differs ↦ rw differs (differs, omega (arith, e))
      | inl alike ↦ rw alike (
          change_from-first zone w was n (c + minute) k u (omega (arith, inside)) (omega (arith, e))
            h)
    ]

change_from-over :
    (zone : Zone) (w : Window) (was : Bool) (n c : ℕ) → c ≤ change_from zone w was n c
unfolding change_from
change_from-over zone w was zero c = omega arith
change_from-over zone w was (suc n) c = ground (arith, change_from-over zone w was n (c + minute))

change_from-later :
    (zone : Zone) (w : Window) (was : Bool) (n c : ℕ)
    → c + minute ≤ change_from zone w was (suc n) c
unfolding change_from
change_from-later zone w was n c = ground (arith, change_from-over zone w was n (c + minute))

-- The local clock runs on evenly for a day from an instant.
abbrev pub IsEvenDay : Zone → ℕ → Type 0
IsEvenDay zone c =
    (k : ℕ)
    → k < 1440
    → clock zone (c + k * minute + minute) ≡ (clock zone (c + k * minute) + 1) % 1440

-- The clock, some minutes on.
clock-after :
    (zone : Zone) (c k : ℕ)
    → IsEvenDay zone c
    → k < 1440
    → clock zone (c + suc k * minute) ≡ (clock zone c + suc k) % 1440
clock-after zone c zero runs h =
    ap (clock zone) {y = c + 0 * minute + minute} (omega arith)
    ∙ runs 0 (omega arith)
    ∙ ap (λ u. (clock zone u + 1) % 1440) {x = c + 0 * minute} (omega arith)
clock-after zone c (suc k) runs h =
    ap (clock zone) {y = c + suc k * minute + minute} (omega arith)
    ∙ runs (suc k) (omega (arith, h))
    ∙ omega (arith, clock-after zone c k runs (omega (arith, h)))

-- How many minutes after a minute of the day another is, less one.
abbrev minutes_to : ℕ → ℕ → ℕ
minutes_to target m = (target + 1439 - m) % 1440

minutes_to_lem :
    (target m : ℕ) → target < 1440 → m < 1440 → (m + suc (minutes_to target m)) % 1440 ≡ target
minutes_to_lem target m h1 h2 = omega (arith, h1, h2)

-- The minute of the day at which a window next changes.
abbrev turn : Window → Bool → ℕ
turn w was = if was then w.end else w.start

turn-day : (w : Window) (was : Bool) → w.start < 1440 → w.end < 1440 → turn w was < 1440
turn-day w true start end = end
turn-day w false start end = start

within-turn : (w : Window) (was : Bool) → w.start ≢ w.end → same (within w (turn w was)) was ≡ false
unfolding within
within-turn w true apart = ground arith
within-turn w false apart = ground arith

-- A minute within an even day at which the window has changed.
changed_within_day :
    (zone : Zone) (w : Window) (c : ℕ)
    → w.start < 1440
    → w.end < 1440
    → w.start ≢ w.end
    → clock zone c < 1440
    → IsEvenDay zone c
    → (was : Bool)
    → same (is_open zone w (c + suc (minutes_to (turn w was) (clock zone c)) * minute)) was ≡ false
unfolding is_open
changed_within_day zone w c start end apart day runs was =
    let target = turn w was in
    rw
      (
        clock-after zone c (minutes_to target (clock zone c)) runs (omega arith),
        minutes_to_lem target (clock zone c) (turn-day w was start end) day,
      )
      (within-turn w was apart)

next_from_day :
    (zone : Zone) (w : Window) (was : Bool) (n c s : ℕ)
    → s + 1440 ≤ n
    → w.start < 1440
    → w.end < 1440
    → w.start ≢ w.end
    → clock zone (c + s * minute) < 1440
    → IsEvenDay zone (c + s * minute)
    → (same (is_open zone w (change_from zone w was n c)) was ≡ false)
      × (change_from zone w was n c ≤ c + (s + 1440) * minute)
next_from_day zone w was n c s enough start end apart day runs =
    let d = c + s * minute in
    let k = minutes_to (turn w was) (clock zone d) in
    let first =
      change_from-first zone w was n c (s + k) (d + suc k * minute) (omega (arith, enough))
        (omega arith) (changed_within_day zone w d start end apart day runs was) in
    (first.0, omega (arith, first.1))

as_before :
    (zone : Zone) (w : Window) (was : Bool) (n c j : ℕ)
    → (not (ltb (c + suc j * minute) (change_from zone w was n c))
        || same (is_open zone w (c + suc j * minute)) was)
      ≡ true
as_before zone w was n c j =
    elim (Bool-cases (ltb (c + suc j * minute) (change_from zone w was n c))) [
      | inr late ↦ rw late refl
      | inl early ↦
          rw
            (
              early,
              same-change_from zone w was n c j (c + suc j * minute) refl
                  (ltb→lt (c + suc j * minute) (change_from zone w was n c) early),
            )
            refl
    ]

-- For a window whose ends are two different minutes of the day, and a local clock that may jump, as
-- for daylight saving, but runs on evenly for some day that ends within the next 50 hours: the next
-- change is later than this minute and not after that day; the window is then open if it is closed now
-- and closed if it is open now; and at every full minute before then it is as it is now.
pub next_change_lem :
    (zone : Zone) (w : Window) (t j s : ℕ)
    → w.start < 1440
    → w.end < 1440
    → w.start ≢ w.end
    → s + 1440 ≤ next_limit
    → clock zone (truncate t + s * minute) < 1440
    → IsEvenDay zone (truncate t + s * minute)
    → ((truncate t + minute ≤ next_change zone w t)
        × (next_change zone w t ≤ truncate t + (s + 1440) * minute))
      × ((same (is_open zone w (next_change zone w t)) (is_open zone w t) ≡ false)
          × ((not (ltb (truncate t + suc j * minute) (next_change zone w t))
                || same (is_open zone w (truncate t + suc j * minute)) (is_open zone w t))
              ≡ true))
unfolding next_change
next_change_lem zone w t j s start end apart inside day runs =
    let found =
      next_from_day zone w (is_open zone w t) next_limit (truncate t) s inside start end apart day
        runs in
    (
      (change_from-later zone w (is_open zone w t) 2999 (truncate t), found.1),
      (found.0, as_before zone w (is_open zone w t) next_limit (truncate t) j),
    )
