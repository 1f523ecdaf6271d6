-- ===== src/Runlock/Implements/Runs.antt =====
-- Any sequence of edits implements the lock (internal/runlock/runlock.go).
use archiver.Shared.{All, Bytes, InRange, IsWord, List, [], ap, false, refl, true, ℤ, ◌∷◌, ◌≡◌}
use archiver.Runlock.{Lock, present, read_lock, acquired}
use archiver.Runlock.Text.{IsPlainLock, print_lock, read_lock-print_lock}
use archiver.Runlock.Implements.{starting, Op, IsPlainOp, spec_op, run_ops, spec_ops}
use archiver.Runlock.Implements.Edits.{run_op-spec_op, spec_op-IsPlainLock}

run_ops-spec_ops :
    (pid : ℤ) (os : List Op) (l : Lock)
    → InRange pid
    → All IsPlainOp os
    → IsPlainLock l
    → run_ops pid os (present (print_lock l))
      ≡ ((spec_ops pid os l).0, present (print_lock (spec_ops pid os l).1))
unfolding run_ops spec_ops
run_ops-spec_ops pid [] l r h p = refl
run_ops-spec_ops pid (o ∷ os) l r (i, is) p = rw (
  run_op-spec_op pid o l i p,
  run_ops-spec_ops pid os (spec_op pid o l).1 r is (spec_op-IsPlainLock pid o l r i p),
)

spec_ops-IsPlainLock :
    (pid : ℤ) (os : List Op) (l : Lock)
    → InRange pid
    → All IsPlainOp os
    → IsPlainLock l
    → IsPlainLock (spec_ops pid os l).1
unfolding spec_ops
spec_ops-IsPlainLock pid [] l r h p = p
spec_ops-IsPlainLock pid (o ∷ os) l r (i, is) p =
    spec_ops-IsPlainLock pid os (spec_op pid o l).1 r is (spec_op-IsPlainLock pid o l r i p)

pub starting-IsPlainLock :
    (pid : ℤ) (context stage : Bytes) (now : ℤ)
    → InRange pid
    → IsWord context
    → IsWord stage
    → InRange now
    → IsPlainLock (starting pid context stage now)
unfolding starting
starting-IsPlainLock pid context stage now r c s n = record {
  pid_range = r;
  context_word = c;
  stage_word = s;
  plain_events = (record { at_range = n; state_word = refl }, tt);
}

-- After a run takes its lock, any sequence of stages, events, pauses and resumes, whose writes may
-- fail, an event's with all of it in the file or none of it, takes place exactly where it would on a lock kept as a record, and the file then
-- reads back as that record: no edit loses or garbles what another wrote. The process ID and the
-- times are 64-bit integers, and the contexts, stages and states are words: no spaces, as in the path
-- of a directory without one.
pub read_lock-run_ops :
    (pid : ℤ) (context stage : Bytes) (now : ℤ) (os : List Op)
    → InRange pid
    → IsWord context
    → IsWord stage
    → InRange now
    → All IsPlainOp os
    → ((run_ops pid os (acquired pid context stage now)).0
        ≡ (spec_ops pid os (starting pid context stage now)).0)
      × (read_lock (run_ops pid os (acquired pid context stage now)).1 ≡ record {
        lock = (spec_ops pid os (starting pid context stage now)).1;
        held = true;
        failed = false;
      })
unfolding acquired print_lock starting
read_lock-run_ops pid context stage now os r c s n h =
    let p : IsPlainLock (starting pid context stage now) =
      starting-IsPlainLock pid context stage now r c s n in
    let e = run_ops-spec_ops pid os (starting pid context stage now) r h p in
    (ap (λ x. x.0) e, rw e (read_lock-print_lock _ (spec_ops-IsPlainLock pid os _ r h p)))
