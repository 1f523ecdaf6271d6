-- ===== src/Runlock/Implements.antt =====
-- The edits of the lock file (internal/runlock/runlock.go) implement a lock that is kept as a
-- record: any sequence of edits, by the run and by other processes, reads back as the record.
use archiver.Shared.{
  Bool, Bytes, InRange, IsWord, List, [], codes, false, if◌then◌else◌, true, ℤ, ◌++◌, ◌==◌, ◌||◌,
  ◌∷◌, ◌≡◌, nat_eq, bytes_eq, int_eq,
}
pub mod Edits
pub mod Runs
use archiver.Runlock.{
  Lock, File, present, read_lock, owner_text, event_text, ReadResult, acquired, set_stage,
  append_event, pause_with, pause, resume_with, resume, paused, last_state, holds_of, is_cleanup,
  Edit, Write, wrote, landed, tore,
}
use archiver.Runlock.Text.{
  IsPlainEvent, IsPlainLock, print_events, print_lock, owner_text-in_line, read_lock-print_lock,
  print_events-append,
}

-- An edit of a lock file, with how its write ends.
pub data Op : Type 0 where
  stage_op : Bool → Bytes → Bytes → Op
  append_op : Write → ℤ → Bytes → Op
  pause_op : Write → ℤ → Op
  resume_op : Write → ℤ → Op

-- All of the line is in the file, or none of it.
abbrev pub is_whole : Write → Bool
is_whole wrote = true
is_whole landed = true
is_whole (tore n) = n == 0

-- An edit whose words a line can carry, and which does not leave a part of a line.
unfoldable pub IsPlainOp : Op → Type 0
IsPlainOp (stage_op writes context stage) = IsWord context × IsWord stage
IsPlainOp (append_op writes at state) = InRange at × IsWord state × (is_whole writes ≡ true)
IsPlainOp (pause_op writes at) = InRange at × (is_whole writes ≡ true)
IsPlainOp (resume_op writes at) = InRange at × (is_whole writes ≡ true)

abbrev pub outcome : Edit Unit → Bool × File
outcome e = (e.done, e.file)

-- The edit on the file, by a run of the given process: whether it took place, and the file.
unfoldable pub run_op : ℤ → Op → File → Bool × File
unfolding set_stage append_event pause resume
run_op pid (stage_op writes context stage) f = set_stage writes pid context stage f
run_op pid (append_op writes at state) f = append_event writes at state f
run_op pid (pause_op writes at) f = outcome (pause writes at (λ u. u) f tt)
run_op pid (resume_op writes at) f = outcome (resume writes at (λ u. u) f tt)

abbrev pub add_event : ℤ → Bytes → Lock → Lock
add_event at state l = record l { events = l.events ++ record { at = at; state = state } ∷ [] }

-- An event is there after an error, if the error came after it.
unfoldable pub append_if : Write → ℤ → Bytes → Lock → Bool × Lock
append_if wrote at state l = (true, add_event at state l)
append_if landed at state l = (false, add_event at state l)
append_if (tore n) at state l = (false, l)

-- What each edit promises: the lock it leaves, a record.
unfoldable pub spec_op : ℤ → Op → Lock → Bool × Lock
unfolding append_if paused last_state
spec_op pid (stage_op writes context stage) l =
    if writes then (true, record l { pid = pid; context = context; stage = stage }) else (false, l)
spec_op pid (append_op writes at state) l = append_if writes at state l
spec_op pid (pause_op writes at) l =
    if paused l || holds_of is_cleanup (last_state l.events)
    then (false, l)
    else append_if writes at (codes "paused") l
spec_op pid (resume_op writes at) l =
    if paused l then append_if writes at (codes "running") l else (false, l)

unfoldable pub run_ops : ℤ → List Op → File → List Bool × File
unfolding run_op
run_ops pid [] f = ([], f)
run_ops pid (o ∷ os) f =
    let (ok, f') = run_op pid o f in let (oks, g) = run_ops pid os f' in (ok ∷ oks, g)

unfoldable pub spec_ops : ℤ → List Op → Lock → List Bool × Lock
unfolding spec_op
spec_ops pid [] l = ([], l)
spec_ops pid (o ∷ os) l =
    let (ok, l') = spec_op pid o l in let (oks, m) = spec_ops pid os l' in (ok ∷ oks, m)

-- The file that shows a lock.
abbrev pub shows : Bool × Lock → Bool × File
shows (ok, l) = (ok, present (print_lock l))

-- The lock of a run that starts.
unfoldable pub starting : ℤ → Bytes → Bytes → ℤ → Lock
starting pid context stage now = record {
  pid = pid;
  context = context;
  stage = stage;
  events = record { at = now; state = codes "running" } ∷ [];
}
