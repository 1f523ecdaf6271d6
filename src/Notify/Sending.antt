-- ===== src/Notify/Sending.antt =====
-- internal/notify/notify.go: the attempts of one send to one destination (`post` and `send`).
use archiver.Shared.{
  Bool, Bool-cases, List, Option, [], arith, false, if◌then◌else◌, inl, inr, leb, length,
  length-append, ltb, none, not, refl, some, suc, true, zero, ℕ, ◌++◌, ◌+◌, ◌<◌, ◌==◌, ◌||◌, ◌∷◌,
  ◌≡◌, ◌≤◌, nat_eq, bytes_eq, int_eq,
}

-- What comes of one attempt: the request could not be built, the notification arrived, or an error
-- that is transient or is not.
pub data Attempt : Type 0 where
  bad_request arrived transient refused : Attempt

-- `post`: a network error (no status), a rate limit or a server error is transient.
unfoldable pub post : (ℕ → Bool) → Option ℕ → Attempt
post delivered none = transient
post delivered (some status) =
    if delivered status
    then arrived
    else if status == 429 || leb 500 status
    then transient
    else refused

abbrev pub is_transient : Attempt → Bool
is_transient transient = true
is_transient _ = false

abbrev pub has_error : Attempt → Bool
has_error arrived = false
has_error _ = true

-- What `send` returns, and the waits it slept through.
pub record Sent : Type 0 where
  pub transient_error : Bool
  pub attempts : ℕ
  pub failed : Bool
  pub slept : List ℕ

-- `panic` is an index out of range of the waits; `out_of_fuel` belongs to the model.
pub data SendResult : Type 0 where
  sent : Sent → SendResult
  panic : SendResult
  out_of_fuel : SendResult

get_elem? : List ℕ → ℕ → Option ℕ
get_elem? [] i = none
get_elem? (x ∷ xs) zero = some x
get_elem? (x ∷ xs) (suc i) = get_elem? xs i

slept_then : Option ℕ → (ℕ → SendResult) → SendResult
slept_then none next = panic
slept_then (some w) next = next w

-- The loop of `send`: `try i` is what comes of attempt i.
send_loop : ℕ → List ℕ → (ℕ → Attempt) → ℕ → List ℕ → SendResult
unfolding get_elem? slept_then
send_loop zero waits try attempts slept = out_of_fuel
send_loop (suc fuel) waits try attempts slept =
    let again = λ (w : ℕ). send_loop fuel waits try (suc attempts) (slept ++ w ∷ []) in
    let result = try (suc attempts) in
    if not (has_error result) || (not (is_transient result) || ltb (length waits) (suc attempts))
    then sent (record {
      transient_error = is_transient result;
      attempts = suc attempts;
      failed = has_error result;
      slept = slept;
    })
    else slept_then (get_elem? waits attempts) again

-- One round more than there are waits is enough.
unfoldable pub send : List ℕ → (ℕ → Attempt) → SendResult
unfolding send_loop
send waits try = send_loop (length waits + 1) waits try 0 []

-- A send that ended: it made one attempt at least, and no more than one after each wait; it slept
-- through one wait fewer than it made attempts; one that failed by a transient error had no wait
-- left; and its outcome is that of its last attempt.
pub record IsSent (waits : List ℕ) (try : ℕ → Attempt) (s : Sent) : Type 0 where
  pub some_attempt : 1 ≤ s.attempts
  pub bounded : s.attempts ≤ length waits + 1
  pub waited : length s.slept + 1 ≡ s.attempts
  pub exhausted : s.failed ≡ true → s.transient_error ≡ true → s.attempts ≡ length waits + 1
  pub last_failed : s.failed ≡ has_error (try s.attempts)
  pub last_transient : s.transient_error ≡ is_transient (try s.attempts)

get_elem?-lt : (xs : List ℕ) (i : ℕ) → i < length xs → (w : ℕ) × (get_elem? xs i ≡ some w)
unfolding get_elem?
get_elem?-lt [] i h = elim h [ ]
get_elem?-lt (x ∷ xs) zero h = (x, refl)
get_elem?-lt (x ∷ xs) (suc i) h = get_elem?-lt xs i (omega arith)

send_loop-IsSent :
    (fuel : ℕ) (waits : List ℕ) (try : ℕ → Attempt) (attempts : ℕ) (slept : List ℕ)
    → length waits < fuel + attempts
    → attempts ≤ length waits
    → length slept ≡ attempts
    → (s : Sent) × (send_loop fuel waits try attempts slept ≡ sent s) × IsSent waits try s
unfolding send_loop slept_then
send_loop-IsSent zero waits try attempts slept f b e = absurd (omega arith)
send_loop-IsSent (suc fuel) waits try attempts slept f b e =
    elim (Bool-cases (
      not (has_error (try (suc attempts)))
      || (not (is_transient (try (suc attempts))) || ltb (length waits) (suc attempts)))) [
        | inl stop ↦
            let ended : Sent = record {
              transient_error = is_transient (try (suc attempts));
              attempts = suc attempts;
              failed = has_error (try (suc attempts));
              slept = slept;
            } in
            (
              ended,
              rw stop,
              record {
                some_attempt = omega arith;
                bounded = omega arith;
                waited = omega arith;
                exhausted = λ x y. ground (arith, x, y);
                last_failed = refl;
                last_transient = refl;
              },
            )
        | inr go ↦
            let (w, there) = get_elem?-lt waits attempts (ground arith) in
            let (s, ends, is) =
              send_loop-IsSent fuel waits try (suc attempts) (slept ++ w ∷ []) (omega arith)
                (ground arith) (omega (arith, length-append slept (w ∷ []))) in
            (s, rw (go, there) ends, is)
      ]

-- Every send ends, whatever its attempts come to, and no wait is read that is not there.
pub send-IsSent :
    (waits : List ℕ) (try : ℕ → Attempt)
    → (s : Sent) × (send waits try ≡ sent s) × IsSent waits try s
unfolding send
send-IsSent waits try =
    send_loop-IsSent (length waits + 1) waits try 0 [] (omega arith) (omega arith) refl
