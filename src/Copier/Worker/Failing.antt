-- ===== src/Copier/Worker/Failing.antt =====
-- The retries of a target that keeps failing (internal/copier/worker.go, `failed` and `caughtUp`).
use archiver.Shared.{
  ==_refl, Bool, Bool-cases, Bytes, List, [], arith, false, if◌then◌else◌, inl, inr, leb→le, ltb,
  ltb→lt, not, refl, suc, sym, true, zero, ℕ, ◌&&◌, ◌*◌, ◌+◌, ◌-◌, ◌<◌, ◌==◌, ◌||◌, ◌∙◌, ◌∷◌, ◌≡◌,
  ◌≤◌, nat_eq, bytes_eq, int_eq,
}
use archiver.Notify.Incident.{second, unix}
use archiver.Copier.Worker.{
  Status, retrying, down, State, Worker, Effect, checkin, raise_down, when,
}
use archiver.Copier.Worker.Pass.{
  down_after, backoff, failing_from, delay, long_failing, down_from, failed,
}

abbrev pub is_down : Status → Bool
is_down down = true
is_down _ = false

abbrev pub raises : List Effect → Bool
raises [] = false
raises (raise_down ∷ es) = true
raises (e ∷ es) = raises es

abbrev retry_state : ℕ → Bytes → Worker → State
retry_state now error w = record w.state {
  failing_since = failing_from now w.state;
  next_retry = unix (now + delay now w);
  last_error = error;
  down_since = down_from now w.state;
  status = if down_from now w.state == 0 then retrying else down;
  since = unix now;
}

failed-retry_state :
    (stops now : ℕ) (error : Bytes) (w : Worker)
    → w.stops ≡ stops
    → failed stops now error w ≡ (
      record w { attempt = w.attempt + 1; state = retry_state now error w },
      checkin false error ∷ when (long_failing now w.state) raise_down,
    )
unfolding failed
failed-retry_state stops now error w same = rw (same, ==_refl stops)

unix_late : (now since : ℕ) → down_after ≤ now - since → (unix now == 0) ≡ false
unix_late now since h = ground arith

is_down_if : (b : Bool) → is_down (if b then retrying else down) ≡ not b
is_down_if true = refl
is_down_if false = refl

raises-when : (error : Bytes) (b : Bool) → raises (checkin false error ∷ when b raise_down) ≡ b
raises-when error true = refl
raises-when error false = refl

down_from-zero :
    (now : ℕ) (s : State)
    → not (down_from now s == 0) ≡ (not (s.down_since == 0) || long_failing now s)
unfolding down_from long_failing
down_from-zero now s = elim (Bool-cases (long_failing now s)) [
  | inl long ↦
      rw long (ground (arith, unix_late now (failing_from now s * second) (leb→le _ _ long)))
  | inr short ↦ rw short (ground arith)
]

-- After a failure the worker retries or is down. It is down exactly if it was, or has been failing
-- for `DownAfter`, and the incident is raised exactly in the second case.
failed-IsDown :
    (stops now : ℕ) (error : Bytes) (w : Worker)
    → w.stops ≡ stops
    → let (w', effects) = failed stops now error w in
      (is_down w'.state.status ≡ (not (w.state.down_since == 0) || long_failing now w.state))
      × (raises effects ≡ long_failing now w.state)
failed-IsDown stops now error w same = rw (failed-retry_state stops now error w same) (
  is_down_if (down_from now w.state == 0) ∙ down_from-zero now w.state,
  raises-when error (long_failing now w.state),
)

backoff_le : (n : ℕ) → backoff n ≤ down_after
unfolding backoff
backoff_le zero = omega arith
backoff_le (suc zero) = omega arith
backoff_le (suc (suc zero)) = omega arith
backoff_le (suc (suc (suc n))) = omega arith

delay_le : (now : ℕ) (w : Worker) → delay now w ≤ down_after
unfolding delay
delay_le now w = ground (arith, backoff_le w.attempt)

capped :
    (wait left : ℕ) (b : Bool)
    → b ≡ true
    → 0 < left
    → (if b && (ltb 0 left && ltb left wait) then left else wait) ≤ left
capped wait left b on some_left = rw on (ground arith)

delay_capped :
    (now : ℕ) (w : Worker)
    → w.state.down_since ≡ 0
    → 0 < failing_from now w.state * second + down_after - now
    → delay now w ≤ failing_from now w.state * second + down_after - now
unfolding delay
delay_capped now w up some_left =
    capped (backoff w.attempt) _ (w.state.down_since == 0) (rw up) some_left

short_failing :
    (now : ℕ) (s : State)
    → long_failing now s ≡ false
    → now < failing_from now s * second + down_after
unfolding long_failing
short_failing now s short = ltb→lt _ _ (ground arith)

-- The wait ends by the instant at which a failure has lasted `DownAfter`, if that is to come.
delay_mark :
    (now : ℕ) (w : Worker)
    → w.state.down_since ≡ 0
    → long_failing now w.state ≡ false
    → now + delay now w ≤ failing_from now w.state * second + down_after
delay_mark now w up short =
    let soon = short_failing now w.state short in omega (arith, delay_capped now w up (omega arith))

-- The next try comes, no later than half an hour from now; and a target that is not down after a
-- failure is tried again no later than the instant at which it will count as down.
pub failed-next_retry :
    (stops now : ℕ) (error : Bytes) (w : Worker)
    → w.stops ≡ stops
    → let s = (failed stops now error w).0.state in
      (unix now ≤ s.next_retry)
      × (s.next_retry ≤ unix (now + down_after))
      × (s.down_since ≡ 0 → s.next_retry ≤ s.failing_since + 1800)
failed-next_retry stops now error w same = rw (failed-retry_state stops now error w same) (
  ground arith,
  ground (arith, delay_le now w),
  λ up.
      let both : not (down_from now w.state == 0) ≡ false = ground arith in
      let now_short = sym (down_from-zero now w.state) ∙ both in
      omega (arith, delay_mark now w (ground arith) (ground arith)),
)
