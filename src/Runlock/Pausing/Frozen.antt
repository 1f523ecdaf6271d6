-- ===== src/Runlock/Pausing/Frozen.antt =====
-- A paused run's programs are frozen (internal/runlock/runlock.go, internal/runctl/runctl.go).
use archiver.Shared.{
  All, Bool, Bool-cases, Bytes, InRange, IsWord, List, [], all_of, ap, append-nil, arith, bytes_beq,
  codes, false, if◌then◌else◌, inl, inr, refl, some, suc, sym, true, zero, ℕ, ℤ, ◌++◌, ◌-◌, ◌∙◌,
  ◌∷◌, ◌≡◌, ◌⊎◌,
}
use archiver.Runlock.{
  Lock, File, absent, unreadable, present, read_lock, acquired, append_event, pause, pause_with,
  resume, resume_with, start_unpaused, paused, last_state, is_paused, ReadResult, Event,
  unpaused_with, unpaused, start_after, Write, wrote, landed, tore, put, first_bytes,
}
use archiver.Runlock.Text.{IsPlainLock, print_lock, read_lock-print_lock}
use archiver.Runlock.Implements.{
  is_whole, IsPlainOp, append_if, starting, spec_op, stage_op, add_event,
}
use archiver.Runlock.Implements.Edits.{
  set_stage_lem, append_event_lem, append_if-IsPlainLock, spec_op-IsPlainLock,
}
use archiver.Runlock.Implements.Runs.{starting-IsPlainLock}
use archiver.Runlock.Pausing.{
  System, freeze, thaw, start, drop_at, Move, pauses, resumes, resume_signals, resume_records,
  is_clean, starts, ends, stages, records, move, IsPlainMove, moves, is_frozen, IsHeld,
}

last_state-snoc : (es : List Event) (e : Event) → last_state (es ++ e ∷ []) ≡ some e.state
unfolding last_state
last_state-snoc [] e = refl
last_state-snoc (f ∷ []) e = refl
last_state-snoc (f ∷ g ∷ es) e = last_state-snoc (g ∷ es) e

paused-add_event :
    (at : ℤ) (state : Bytes) (l : Lock) → paused (add_event at state l) ≡ is_paused state
unfolding paused
paused-add_event at state l = rw (last_state-snoc l.events (record { at = at; state = state })) refl

all_of-freeze : (ps : List Bool) → all_of is_frozen (freeze ps) ≡ true
all_of-freeze [] = refl
all_of-freeze (p ∷ ps) = all_of-freeze ps

all_of-drop_at :
    (n : ℕ) (ps : List Bool) → all_of is_frozen ps ≡ true → all_of is_frozen (drop_at n ps) ≡ true
unfolding drop_at
all_of-drop_at n [] h = refl
all_of-drop_at zero (p ∷ ps) h = ground arith
all_of-drop_at (suc n) (p ∷ ps) h = ground (arith, all_of-drop_at n ps)

append_event_fails : (at : ℤ) (state : Bytes) (f : File) → (append_event (tore 0) at state f).1 ≡ f
unfolding append_event put first_bytes
append_event_fails at state absent = refl
append_event_fails at state unreadable = refl
append_event_fails at state (present text) = ap present (append-nil text)

append_event_landed :
    (at : ℤ) (state : Bytes) (f : File)
    → (append_event wrote at state f).1 ≡ (append_event landed at state f).1
unfolding append_event put
append_event_landed at state absent = refl
append_event_landed at state unreadable = refl
append_event_landed at state (present text) = refl

append_event_refuses :
    (at : ℤ) (state : Bytes) (f : File) → (append_event (tore 0) at state f).0 ≡ false
unfolding append_event
append_event_refuses at state absent = refl
append_event_refuses at state unreadable = refl
append_event_refuses at state (present text) = refl

-- A pause either does nothing, or records itself and signals.
pause_with-cases :
    {W : Type 0} (r : ReadResult) (writes : Write) (at : ℤ) (signal : W → W) (f : File) (w : W)
    → is_clean writes ≡ true
    → let e = pause_with r writes at signal f w in
      ((e.file ≡ f) × (e.world ≡ w))
      ⊎ ((e.file ≡ (append_event wrote at (codes "paused") f).1) × (e.world ≡ signal w))
unfolding pause_with append_event
pause_with-cases r wrote at signal absent w h = ground arith
pause_with-cases r wrote at signal unreadable w h = ground arith
pause_with-cases r wrote at signal (present text) w h = ground arith
pause_with-cases r landed at signal f w h = absurd (cc h)
pause_with-cases r (tore zero) at signal f w h =
    let e = append_event_fails at (codes "paused") f in
    let n = append_event_refuses at (codes "paused") f in ground (arith, e, n)
pause_with-cases r (tore (suc n)) at signal f w h = absurd (ground (arith, h))

resume_with-cases :
    {W : Type 0} (r : ReadResult) (at : ℤ) (signal : W → W) (f : File) (w : W)
    → let e = resume_with r wrote at signal f w in
      ((e.file ≡ f) × (e.world ≡ w))
      ⊎ ((e.file ≡ (append_event wrote at (codes "running") f).1) × (e.world ≡ signal w))
unfolding resume_with append_event
resume_with-cases r at signal absent w = ground arith
resume_with-cases r at signal unreadable w = ground arith
resume_with-cases r at signal (present text) w = ground arith

-- An appended event decides alone whether the lock says paused.
append-IsHeld :
    (at : ℤ) (state : Bytes) (l : Lock) (f : File) (ps : List Bool) (n : ℕ)
    → IsPlainLock l
    → f ≡ present (print_lock l)
    → InRange at
    → IsWord state
    → (is_paused state ≡ false) ⊎ (all_of is_frozen ps ≡ true)
    → IsHeld (record { file = (append_event wrote at state f).1; programs = ps; resuming = n })
unfolding append_if
append-IsHeld at state l f ps n p e r w h = record {
  lock = add_event at state l;
  plain = append_if-IsPlainLock wrote at state l r w p;
  on_file = rw e (ap (λ x. x.1) (append_event_lem wrote at state l refl));
  frozen = λ says done. elim h [
    | inl other ↦ absurd (let e = sym (paused-add_event at state l) ∙ says in cc (e, other))
    | inr all ↦ all
  ];
}

running-not-paused : is_paused (codes "running") ≡ false
unfolding bytes_beq
running-not-paused = refl

-- The state that a lock's reading leaves as it was.
same-IsHeld :
    (s : System) (f : File) (ps : List Bool)
    → f ≡ s.file
    → ps ≡ s.programs
    → IsHeld s
    → IsHeld (record s { file = f; programs = ps })
same-IsHeld s f ps e g h = rw (e, g) h

pauses-IsHeld :
    (pid : ℤ) (writes : Write) (at : ℤ) (s : System)
    → InRange at
    → is_clean writes ≡ true
    → IsHeld s
    → IsHeld (move pid (pauses writes at) s)
unfolding move pause
pauses-IsHeld pid writes at s r clean h =
    elim (pause_with-cases (read_lock s.file) writes at freeze s.file s.programs clean) [
      | inl (e, g) ↦ same-IsHeld s _ _ e g h
      | inr (e, g) ↦
          rw (e, g)
            (append-IsHeld at (codes "paused") h.lock s.file (freeze s.programs) s.resuming h.plain
              h.on_file r refl (inr (all_of-freeze s.programs)))
    ]

resumes-IsHeld :
    (pid at : ℤ) (s : System) → InRange at → IsHeld s → IsHeld (move pid (resumes wrote at) s)
unfolding move resume
resumes-IsHeld pid at s r h =
    elim (resume_with-cases (read_lock s.file) at thaw s.file s.programs) [
      | inl (e, g) ↦ same-IsHeld s _ _ e g h
      | inr (e, g) ↦
          rw (e, g)
            (append-IsHeld at (codes "running") h.lock s.file (thaw s.programs) s.resuming h.plain
              h.on_file r refl (inl running-not-paused))
    ]

start_unpaused_lem :
    (l : Lock) (ps : List Bool)
    → IsPlainLock l
    → (start_unpaused false true start (present (print_lock l)) ps).1
      ≡ (if paused l then ps else start ps)
unfolding start_unpaused unpaused unpaused_with start_after
start_unpaused_lem l ps p =
    ap (λ r. (start_after start (unpaused_with r start (present (print_lock l)) ps) ps).1)
      (read_lock-print_lock l p)
    ∙ elim (Bool-cases (paused l)) [ inl is ↦ simp is | inr is_not ↦ simp is_not ]

starts-IsHeld : (pid : ℤ) (s : System) → IsHeld s → IsHeld (move pid (starts false true) s)
unfolding move
starts-IsHeld pid s h = elim (Bool-cases (paused h.lock)) [
  | inl is ↦
      same-IsHeld s s.file _ refl
        (rw (h.on_file, start_unpaused_lem h.lock s.programs h.plain, is) refl) h
  | inr is_not ↦ record {
    lock = h.lock;
    plain = h.plain;
    on_file = h.on_file;
    frozen = λ says done. absurd (cc);
  }
]

resume_records-IsHeld :
    (pid at : ℤ) (s : System)
    → InRange at
    → IsHeld s
    → IsHeld (move pid (resume_records wrote at) s)
unfolding move
resume_records-IsHeld pid at s r h =
    append-IsHeld at (codes "running") h.lock s.file s.programs (s.resuming - 1) h.plain h.on_file r
      refl (inl running-not-paused)

stages-IsHeld :
    (pid : ℤ) (writes : Bool) (context stage : Bytes) (s : System)
    → InRange pid
    → IsWord context
    → IsWord stage
    → IsHeld s
    → IsHeld (move pid (stages writes context stage) s)
unfolding move spec_op IsPlainOp
stages-IsHeld pid true context stage s r c w h = record {
  lock = (spec_op pid (stage_op true context stage) h.lock).1;
  plain = spec_op-IsPlainLock pid (stage_op true context stage) h.lock r (c, w) h.plain;
  on_file = rw h.on_file (ap (λ x. x.1) (set_stage_lem true pid context stage h.lock h.plain));
  frozen = h.frozen;
}
stages-IsHeld pid false context stage s r c w h = record {
  lock = h.lock;
  plain = h.plain;
  on_file = rw h.on_file (ap (λ x. x.1) (set_stage_lem false pid context stage h.lock h.plain));
  frozen = h.frozen;
}

records-IsHeld :
    (pid : ℤ) (writes : Write) (at : ℤ) (state : Bytes) (s : System)
    → InRange at
    → IsWord state
    → is_paused state ≡ false
    → is_whole writes ≡ true
    → IsHeld s
    → IsHeld (move pid (records writes at state) s)
unfolding move
records-IsHeld pid wrote at state s r w other whole h =
    append-IsHeld at state h.lock s.file s.programs s.resuming h.plain h.on_file r w (inl other)
records-IsHeld pid landed at state s r w other whole h =
    rw⁻¹ (append_event_landed at state s.file)
      (append-IsHeld at state h.lock s.file s.programs s.resuming h.plain h.on_file r w (inl other))
records-IsHeld pid (tore zero) at state s r w other whole h =
    same-IsHeld s _ s.programs (append_event_fails at state s.file) refl h
records-IsHeld pid (tore (suc n)) at state s r w other whole h = absurd (ground (arith, whole))

pub move-IsHeld :
    (pid : ℤ) (m : Move) (s : System)
    → InRange pid
    → IsPlainMove m
    → IsHeld s
    → IsHeld (move pid m s)
unfolding move IsPlainMove
move-IsHeld pid (pauses writes at) s r (p, clean) h = pauses-IsHeld pid writes at s p clean h
move-IsHeld pid (resumes wrote at) s r (p, done) h = resumes-IsHeld pid at s p h
move-IsHeld pid (resumes landed at) s r (p, done) h = absurd (cc done)
move-IsHeld pid (resumes (tore n) at) s r (p, done) h = absurd (cc done)
move-IsHeld pid resume_signals s r p h = record {
  lock = h.lock;
  plain = h.plain;
  on_file = h.on_file;
  frozen = λ says done. absurd (omega (arith, done));
}
move-IsHeld pid (resume_records wrote at) s r (p, done) h = resume_records-IsHeld pid at s p h
move-IsHeld pid (resume_records landed at) s r (p, done) h = absurd (cc done)
move-IsHeld pid (resume_records (tore n) at) s r (p, done) h = absurd (cc done)
move-IsHeld pid (starts false true) s r p h = starts-IsHeld pid s h
move-IsHeld pid (starts false false) s r (goes, locks) h = absurd (cc locks)
move-IsHeld pid (starts true locks) s r (goes, locked) h = absurd (cc goes)
move-IsHeld pid (ends n) s r p h = record {
  lock = h.lock;
  plain = h.plain;
  on_file = h.on_file;
  frozen = λ says done. all_of-drop_at n s.programs (h.frozen says done);
}
move-IsHeld pid (stages writes context stage) s r (c, w) h =
    stages-IsHeld pid writes context stage s r c w h
move-IsHeld pid (records writes at state) s r (i, w, other, whole) h =
    records-IsHeld pid writes at state s i w other whole h

moves-IsHeld :
    (pid : ℤ) (ms : List Move) (s : System)
    → InRange pid
    → All IsPlainMove ms
    → IsHeld s
    → IsHeld (moves pid ms s)
unfolding moves
moves-IsHeld pid [] s r p h = h
moves-IsHeld pid (m ∷ ms) s r (p, ps) h =
    moves-IsHeld pid ms (move pid m s) r ps (move-IsHeld pid m s r p h)

-- A run that has just taken its lock.
unfoldable pub begun : ℤ → Bytes → Bytes → ℤ → System
unfolding acquired
begun pid context stage now = record {
  file = acquired pid context stage now;
  programs = [];
  resuming = 0;
}

begun-IsHeld :
    (pid : ℤ) (context stage : Bytes) (now : ℤ)
    → InRange pid
    → IsWord context
    → IsWord stage
    → InRange now
    → IsHeld (begun pid context stage now)
unfolding begun acquired print_lock starting
begun-IsHeld pid context stage now r c s n = record {
  lock = starting pid context stage now;
  plain = starting-IsPlainLock pid context stage now r c s n;
  on_file = refl;
  frozen = λ says done. refl;
}

-- However a run's starts, ends, stages and events interleave with pauses and resumes: whenever the
-- lock file says that the run is paused and no resume is between its signal and its record, every
-- program of the run is frozen. For that the writes of resumes must succeed, a pause's write that
-- returns an error must have left nothing in the file, and no event's may leave a part of a line; the
-- lock file can be read and its edit lock be taken when a program is started; the run records no
-- "paused" of its own and is not ending; its process ID and the times are 64-bit integers, its
-- contexts, stages and states words.
pub moves-frozen :
    (pid : ℤ) (context stage : Bytes) (now : ℤ) (ms : List Move)
    → InRange pid
    → IsWord context
    → IsWord stage
    → InRange now
    → All IsPlainMove ms
    → paused (read_lock (moves pid ms (begun pid context stage now)).file).lock ≡ true
    → (moves pid ms (begun pid context stage now)).resuming ≡ 0
    → all_of is_frozen (moves pid ms (begun pid context stage now)).programs ≡ true
moves-frozen pid context stage now ms r c s n p says done =
    let h =
      moves-IsHeld pid ms (begun pid context stage now) r p
        (begun-IsHeld pid context stage now r c s n) in
    let e =
      ap (λ f. (read_lock f).lock) h.on_file
      ∙ ap (λ x. x.lock) (read_lock-print_lock h.lock h.plain) in
    h.frozen (sym (ap paused e) ∙ says) done
