-- ===== src/Examples/Copies.antt =====
-- A backup that copies to three secondaries (internal/pipeline/backup.go: `copies`,
-- `targetCheckins`): one is copied when it is tried again, one is outside its copy window, and one
-- cannot be reached.
use archiver.Shared.{
  Bool, Bytes, List, [], bytes_beq, codes, false, if◌then◌else◌, not, refl, true, ◌==◌, ◌||◌, ◌∷◌,
  ◌≡◌, nat_eq, bytes_eq, int_eq,
}
use archiver.Backup.Copies.{Secondary, Moment, CopyAnswers, copies, retrying, make_copies}
use archiver.Backup.Copies.Told.{told, copies-told}

abbrev none_marked : Bytes → Bool
none_marked n = false

abbrev is_retry : Moment → Bool
is_retry m = elim m [ retrying ↦ true | _ ↦ false ]

abbrev slow : Bytes
slow = codes "slow"

abbrev nightly : Bytes
nightly = codes "nightly"

abbrev away : Bytes
away = codes "away"

abbrev three : List Secondary
three =
    record { name = slow; has_url = true }
    ∷ record { name = nightly; has_url = true }
    ∷ record { name = away; has_url = true }
    ∷ []

abbrev some_fail : CopyAnswers
some_fail = record {
  is_closed = λ m n. n == nightly;
  is_reached = λ m n. not (n == away);
  is_stopped = λ m n. false;
  is_locked = λ m n. true;
  is_started = λ m n. true;
  is_copied = λ m n. is_retry m;
  signaled = false;
  signaled_at_end = false;
  primary_ok = true;
  stopped_at_primary = false;
}

copies-heard :
    (copies some_fail three none_marked none_marked).1 ≡ (slow, true) ∷ (away, false) ∷ []
unfolding copies make_copies bytes_beq
copies-heard = refl

copies-told_example : (copies some_fail three none_marked none_marked).1 ≡ (
    if some_fail.signaled_at_end || (copies some_fail three none_marked none_marked).0.lost
    then []
    else told some_fail none_marked none_marked three)
copies-told_example = copies-told some_fail none_marked none_marked three
