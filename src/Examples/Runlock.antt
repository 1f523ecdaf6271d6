-- ===== src/Examples/Runlock.antt =====
-- The lock file of a run that is paused while it starts a program (internal/runlock/runlock.go).
use archiver.Shared.{
  All, List, [], all_of, arith, atoi, bytes_beq, codes, false, fields, itoa, pos, refl, true, ◌++◌,
  ◌∷◌, ◌≡◌,
}
use archiver.Runlock.{wrote, landed, Lock, read_lock, set_stage, acquired, paused}
use archiver.Runlock.Implements.{
  Op, stage_op, append_op, pause_op, resume_op, IsPlainOp, run_ops, spec_ops, starting,
}
use archiver.Runlock.Implements.Runs.{read_lock-run_ops}
use archiver.Runlock.Pausing.{Move, pauses, starts, ends, IsPlainMove, moves, is_frozen}
use archiver.Runlock.Pausing.Frozen.{begun, moves-frozen}
use archiver.Runlock.Spaces.{read_lock-spaced}

abbrev edits : List Op
edits =
    stage_op true (codes "service:/srv/app") (codes "backup")
    ∷ pause_op wrote (pos 120)
    ∷ pause_op landed (pos 121)
    ∷ stage_op false (codes "duplicacy") (codes "copy")
    ∷ resume_op wrote (pos 180)
    ∷ append_op wrote (pos 200) (codes "completed")
    ∷ []

plain : All IsPlainOp edits
unfolding IsPlainOp
plain = (
  (refl, refl),
  (
    ((omega arith, omega arith), refl),
    (
      ((omega arith, omega arith), refl),
      (
        (refl, refl),
        (((omega arith, omega arith), refl), (((omega arith, omega arith), refl, refl), tt)),
      ),
    ),
  ),
)

read_lock-run_ops_example :
    ((run_ops
        (pos 4242)
        edits
        (acquired (pos 4242) (codes "duplicacy") (codes "pre-backup") (pos 100))).0
      ≡ (spec_ops
          (pos 4242)
          edits
          (starting (pos 4242) (codes "duplicacy") (codes "pre-backup") (pos 100))).0)
    × (read_lock
          (run_ops
            (pos 4242)
            edits
            (acquired (pos 4242) (codes "duplicacy") (codes "pre-backup") (pos 100))).1
        ≡ record {
          lock =
              (spec_ops
                (pos 4242)
                edits
                (starting (pos 4242) (codes "duplicacy") (codes "pre-backup") (pos 100))).1;
          held = true;
          failed = false;
        })
read_lock-run_ops_example =
    read_lock-run_ops (pos 4242) (codes "duplicacy") (codes "pre-backup") (pos 100) edits
      (omega arith, omega arith) refl refl (omega arith, omega arith) plain

abbrev paused_start : List Move
paused_start = starts false true ∷ pauses wrote (pos 120) ∷ starts false true ∷ ends 3 ∷ []

paused_plain : All IsPlainMove paused_start
unfolding IsPlainMove
paused_plain = ((refl, refl), (((omega arith, omega arith), refl), ((refl, refl), (tt, tt))))

moves-frozen_example :
    all_of is_frozen
      (moves
        (pos 4242)
        paused_start
        (begun (pos 4242) (codes "drill") (codes "x") (pos 100))).programs
    ≡ true
unfolding paused read_lock moves begun itoa fields atoi bytes_beq
moves-frozen_example =
    moves-frozen (pos 4242) (codes "drill") (codes "x") (pos 100) paused_start
      (omega arith, omega arith) refl refl (omega arith, omega arith) paused_plain refl refl

-- A directory with a space in its path.
abbrev spaced : Lock
spaced =
    (read_lock
      (set_stage true (pos 4242) (codes "service:/srv/my" ++ b' ' ∷ codes "data/app")
        (codes "backup")
        (acquired (pos 4242) (codes "duplicacy") (codes "pre-backup") (pos 100))).1).lock

read_lock-spaced_example :
    (spaced.context ≡ codes "service:/srv/my") × (spaced.stage ≡ codes "data/app")
unfolding acquired
read_lock-spaced_example =
    read_lock-spaced (pos 4242) (codes "service:/srv/my") (codes "data/app") (codes "backup") _ refl
      refl refl
