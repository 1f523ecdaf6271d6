-- ===== src/Runlock/Text.antt =====
-- What `ReadLock` reads of a text that `Acquire`, `SetStage` and `appendEvent` wrote
-- (internal/lockstate/lockstate.go, internal/runlock/runlock.go).
use archiver.Shared.{
  All, Bool, Bytes, InRange, IsWord, List, [], all_of, all_of-append, all_of_imp, append_assoc,
  arith, atoi-itoa, atoi_value, false, fields, fields-last, fields-word, in_line, is_space, itoa,
  newline, not, refl, some, split_lines, split_lines-line, sym, true, ℕ, ℤ, ◌++◌, ◌∷◌, ◌≡◌,
}
use archiver.Inuse.Format.{itoa-IsWord}
use archiver.Runlock.{
  Event, Lock, present, event_of, events_of, owner_of, lock_of, read_lock, owner_text, event_text,
}

-- An event that a line can carry.
pub record IsPlainEvent (e : Event) : Type 0 where
  pub at_range : InRange e.at
  pub state_word : IsWord e.state

-- A lock that the file can carry.
pub record IsPlainLock (l : Lock) : Type 0 where
  pub pid_range : InRange l.pid
  pub context_word : IsWord l.context
  pub stage_word : IsWord l.stage
  pub plain_events : All IsPlainEvent l.events

-- The text of a lock's events.
unfoldable pub print_events : List Event → Bytes
unfolding event_text
print_events [] = []
print_events (e ∷ es) = event_text e.at e.state ++ newline ∷ print_events es

-- The text of a lock.
unfoldable pub print_lock : Lock → Bytes
unfolding owner_text print_events
print_lock l = owner_text l.pid l.context l.stage ++ newline ∷ print_events l.events

abbrev no_space : ℕ → Bool
no_space b = not (is_space b)

pub IsWord-in_line : (w : Bytes) → IsWord w → all_of in_line w ≡ true
IsWord-in_line [] h = absurd h
IsWord-in_line (c ∷ w) h = all_of_imp no_space in_line (c ∷ w) (λ b d. ground arith) h

-- Two texts of one line joined by a space are a text of one line.
pub joined-in_line :
    (w s : Bytes)
    → all_of in_line w ≡ true
    → all_of in_line s ≡ true
    → all_of in_line (w ++ b' ' ∷ s) ≡ true
joined-in_line w s h k = rw (all_of-append in_line w (b' ' ∷ s), h) k

pub event_text-in_line :
    (e : Event) → IsPlainEvent e → all_of in_line (event_text e.at e.state) ≡ true
unfolding event_text
event_text-in_line e p =
    joined-in_line (itoa e.at) e.state (IsWord-in_line _ (itoa-IsWord e.at))
      (IsWord-in_line _ p.state_word)

pub owner_text-in_line :
    (pid : ℤ) (context stage : Bytes)
    → IsWord context
    → IsWord stage
    → all_of in_line (owner_text pid context stage) ≡ true
unfolding owner_text
owner_text-in_line pid context stage c s =
    joined-in_line (itoa pid) (context ++ b' ' ∷ stage) (IsWord-in_line _ (itoa-IsWord pid))
      (joined-in_line context stage (IsWord-in_line _ c) (IsWord-in_line _ s))

event_of-event_text :
    (e : Event) → IsPlainEvent e → event_of (fields (event_text e.at e.state)) ≡ some e
unfolding event_of event_text
event_of-event_text e p = rw (
  fields-word (itoa e.at) e.state (itoa-IsWord e.at),
  fields-last e.state p.state_word,
  event_of,
  atoi-itoa e.at p.at_range,
)

events_of-print_events :
    (es : List Event) → All IsPlainEvent es → events_of (split_lines (print_events es)) ≡ es
unfolding print_events events_of split_lines
events_of-print_events [] h = refl
events_of-print_events (e ∷ es) (p, ps) = rw (
  split_lines-line (event_text e.at e.state) (print_events es) (event_text-in_line e p),
  events_of,
  event_of-event_text e p,
  events_of-print_events es ps,
)

pub atoi_value-itoa : (z : ℤ) → InRange z → atoi_value (itoa z) ≡ z
unfolding atoi_value
atoi_value-itoa z r = rw (atoi_value, atoi-itoa z r)

-- The lock read back is the lock printed.
pub read_lock-print_lock :
    (l : Lock)
    → IsPlainLock l
    → read_lock (present (print_lock l)) ≡ record { lock = l; held = true; failed = false }
unfolding read_lock print_lock lock_of owner_of owner_text
read_lock-print_lock l p = rw (
  split_lines-line (owner_text l.pid l.context l.stage) (print_events l.events)
      (owner_text-in_line l.pid l.context l.stage p.context_word p.stage_word),
  lock_of,
  owner_text,
  fields-word (itoa l.pid) (l.context ++ b' ' ∷ l.stage) (itoa-IsWord l.pid),
  fields-word l.context l.stage p.context_word,
  fields-last l.stage p.stage_word,
  events_of-print_events l.events p.plain_events,
  atoi_value-itoa l.pid p.pid_range,
)

pub print_events-append :
    (es : List Event) (e : Event)
    → print_events (es ++ e ∷ []) ≡ print_events es ++ (event_text e.at e.state ++ newline ∷ [])
unfolding print_events
print_events-append [] e = refl
print_events-append (f ∷ es) e =
    rw (print_events-append es e)
      (sym (append_assoc (event_text f.at f.state) (newline ∷ print_events es) _))
