-- ===== src/Runlock/Implements/Edits.antt =====
-- An edit of the lock file does what it promises (internal/runlock/runlock.go).
use archiver.Shared.{
  All-snoc, Bool, Bool-cases, Bytes, InRange, IsWord, [], after_line-line, ap, append-nil,
  append_assoc, arith, codes, false, if◌then◌else◌, inl, inr, newline, refl, suc, true, zero, ℤ,
  ◌++◌, ◌||◌, ◌∙◌, ◌∷◌, ◌≡◌,
}
use archiver.Runlock.{
  put, first_bytes, Write, wrote, landed, tore, File, Lock, present, owner_text, event_text,
  ReadResult, set_stage, append_event, pause_with, pause, resume_with, resume, paused, last_state,
  holds_of, is_cleanup,
}
use archiver.Runlock.Text.{
  IsPlainEvent, IsPlainLock, print_events, print_lock, owner_text-in_line, read_lock-print_lock,
  print_events-append,
}
use archiver.Runlock.Implements.{
  is_whole, add_event, Op, stage_op, append_op, pause_op, resume_op, IsPlainOp, outcome, run_op,
  append_if, spec_op, shows,
}

pub set_stage_lem :
    (writes : Bool) (pid : ℤ) (context stage : Bytes) (l : Lock)
    → IsPlainLock l
    → set_stage writes pid context stage (present (print_lock l))
      ≡ shows (spec_op pid (stage_op writes context stage) l)
unfolding set_stage print_lock spec_op
set_stage_lem true pid context stage l p = rw (
    after_line-line (owner_text l.pid l.context l.stage) (print_events l.events)
      (owner_text-in_line l.pid l.context l.stage p.context_word p.stage_word))
set_stage_lem false pid context stage l p = refl

print_lock-add_event :
    (at : ℤ) (state : Bytes) (l : Lock)
    → print_lock l ++ (event_text at state ++ newline ∷ []) ≡ print_lock (add_event at state l)
unfolding print_lock
print_lock-add_event at state l = rw (
  append_assoc (owner_text l.pid l.context l.stage) (newline ∷ print_events l.events)
      (event_text at state ++ newline ∷ []),
  print_events-append l.events (record { at = at; state = state }),
)

pub append_event_lem :
    (writes : Write) (at : ℤ) (state : Bytes) (l : Lock)
    → is_whole writes ≡ true
    → append_event writes at state (present (print_lock l)) ≡ shows (append_if writes at state l)
unfolding append_event append_if put first_bytes
append_event_lem wrote at state l h = ap (λ t. (true, present t)) (print_lock-add_event at state l)
append_event_lem landed at state l h =
    ap (λ t. (false, present t)) (print_lock-add_event at state l)
append_event_lem (tore zero) at state l h = ap (λ t. (false, present t)) (append-nil (print_lock l))
append_event_lem (tore (suc n)) at state l h = absurd (ground (arith, h))

abbrev read_ok : Lock → ReadResult
read_ok l = record { lock = l; held = true; failed = false }

pause_outcome :
    (r : Bool × File)
    → outcome (
        if r.0
        then record { done = true; failed = false; file = r.1; world = tt }
        else record { done = false; failed = true; file = r.1; world = tt })
      ≡ r
pause_outcome (true, f) = refl
pause_outcome (false, f) = refl

-- Where a pause is recorded, it is as an appended event.
pause_with_lem :
    (writes : Write) (at : ℤ) (l : Lock)
    → is_whole writes ≡ true
    → outcome (pause_with (read_ok l) writes at (λ u. u) (present (print_lock l)) tt)
      ≡ shows (
          if paused l || holds_of is_cleanup (last_state l.events)
          then (false, l)
          else append_if writes at (codes "paused") l)
unfolding pause_with
pause_with_lem writes at l h = elim (Bool-cases (paused l)) [
  | inl is ↦ simp is
  | inr is_not ↦ elim (Bool-cases (holds_of is_cleanup (last_state l.events))) [
    | inl cleanup ↦ simp (is_not, cleanup)
    | inr other ↦
        let e = append_event_lem writes at (codes "paused") l h in
        simp (is_not, other)
          (pause_outcome (append_event writes at (codes "paused") (present (print_lock l))) ∙ e)
  ]
]

resume_with_lem :
    (writes : Write) (at : ℤ) (l : Lock)
    → is_whole writes ≡ true
    → outcome (resume_with (read_ok l) writes at (λ u. u) (present (print_lock l)) tt)
      ≡ shows (if paused l then append_if writes at (codes "running") l else (false, l))
unfolding resume_with
resume_with_lem writes at l h = elim (Bool-cases (paused l)) [
  | inl is ↦ simp (is, append_event_lem writes at (codes "running") l h)
  | inr is_not ↦ simp is_not
]

-- An edit does on the file what it promises.
pub run_op-spec_op :
    (pid : ℤ) (o : Op) (l : Lock)
    → IsPlainOp o
    → IsPlainLock l
    → run_op pid o (present (print_lock l)) ≡ shows (spec_op pid o l)
unfolding run_op spec_op pause resume IsPlainOp
run_op-spec_op pid (stage_op writes context stage) l h p =
    set_stage_lem writes pid context stage l p
run_op-spec_op pid (append_op writes at state) l (i, w, h) p = append_event_lem writes at state l h
run_op-spec_op pid (pause_op writes at) l (i, h) p =
    ap (λ r. outcome (pause_with r writes at (λ u. u) (present (print_lock l)) tt))
      (read_lock-print_lock l p)
    ∙ pause_with_lem writes at l h
run_op-spec_op pid (resume_op writes at) l (i, h) p =
    ap (λ r. outcome (resume_with r writes at (λ u. u) (present (print_lock l)) tt))
      (read_lock-print_lock l p)
    ∙ resume_with_lem writes at l h

add_event-IsPlainLock :
    (at : ℤ) (state : Bytes) (l : Lock)
    → InRange at
    → IsWord state
    → IsPlainLock l
    → IsPlainLock (add_event at state l)
add_event-IsPlainLock at state l r w p = record {
  pid_range = p.pid_range;
  context_word = p.context_word;
  stage_word = p.stage_word;
  plain_events =
      All-snoc IsPlainEvent l.events _ p.plain_events (record { at_range = r; state_word = w });
}

pub append_if-IsPlainLock :
    (writes : Write) (at : ℤ) (state : Bytes) (l : Lock)
    → InRange at
    → IsWord state
    → IsPlainLock l
    → IsPlainLock (append_if writes at state l).1
unfolding append_if
append_if-IsPlainLock wrote at state l r w p = add_event-IsPlainLock at state l r w p
append_if-IsPlainLock landed at state l r w p = add_event-IsPlainLock at state l r w p
append_if-IsPlainLock (tore n) at state l r w p = p

unless-IsPlainLock :
    (b : Bool) (l : Lock) (other : Bool × Lock)
    → IsPlainLock l
    → IsPlainLock other.1
    → IsPlainLock (if b then (false, l) else other).1
unless-IsPlainLock true l other p q = p
unless-IsPlainLock false l other p q = q

when-IsPlainLock :
    (b : Bool) (l : Lock) (other : Bool × Lock)
    → IsPlainLock l
    → IsPlainLock other.1
    → IsPlainLock (if b then other else (false, l)).1
when-IsPlainLock true l other p q = q
when-IsPlainLock false l other p q = p

-- An edit leaves a lock that the file can carry.
pub spec_op-IsPlainLock :
    (pid : ℤ) (o : Op) (l : Lock)
    → InRange pid
    → IsPlainOp o
    → IsPlainLock l
    → IsPlainLock (spec_op pid o l).1
unfolding spec_op IsPlainOp
spec_op-IsPlainLock pid (stage_op writes context stage) l r (c, s) p =
    when-IsPlainLock writes l (true, record l { pid = pid; context = context; stage = stage }) p
      (record { pid_range = r; context_word = c; stage_word = s; plain_events = p.plain_events })
spec_op-IsPlainLock pid (append_op writes at state) l r (i, w, h) p =
    append_if-IsPlainLock writes at state l i w p
spec_op-IsPlainLock pid (pause_op writes at) l r (i, h) p =
    unless-IsPlainLock _ l _ p (append_if-IsPlainLock writes at (codes "paused") l i refl p)
spec_op-IsPlainLock pid (resume_op writes at) l r (i, h) p =
    when-IsPlainLock _ l _ p (append_if-IsPlainLock writes at (codes "running") l i refl p)
