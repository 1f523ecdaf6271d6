-- ===== src/Maintenance/Record/Plain.antt =====
-- Whatever the maintenance record holds, what `readState` reads of it can be written again, and what
-- is read after a write (internal/maintenance/maintenance.go).
use archiver.Shared.{
  ==→eq, All, Bool, Bool-cases, Bytes, InRange, IsWord, List, Option, Option-cases, [], ap, arith,
  atoi, atoi-InRange, atoi_value, clamped, false, fields, fields-IsWord, if◌then◌else◌, inl, inr,
  insert, lookup-insert, none, refl, some, split_lines, true, ℤ, ◌&&◌, ◌==◌, ◌∙◌, ◌∷◌, ◌≡◌, nat_eq,
  bytes_eq, int_eq,
}
use archiver.Maintenance.Record.{
  Times, no_times, Field, State, read_fields, read_lines, read_state, times_of, set_time, set_field,
  get_time, field_of, write_state, field_check, field_prune, field_exhaustive,
}
use archiver.Maintenance.Record.Roundtrip.{IsPlainTimes, IsPlainEntry, lookup-read_state}

clamped-InRange : (w : Bytes) → InRange (clamped w)
unfolding clamped
clamped-InRange [] = omega arith
clamped-InRange (c ∷ cs) = ground arith

atoi_value-InRange : (w : Bytes) → InRange (atoi_value w)
unfolding atoi_value
atoi_value-InRange w = elim (Option-cases (atoi w)) [
  | inl bad ↦ rw (bad, atoi_value) (clamped-InRange w)
  | inr (z, good) ↦ rw (good, atoi_value) (atoi-InRange w z good)
]

All-insert :
    (n : Bytes) (v : Times) (s : State)
    → IsPlainEntry (n, v)
    → All IsPlainEntry s
    → All IsPlainEntry (insert n v s)
All-insert n v [] p h = (p, tt)
All-insert n v ((m, u) ∷ s) p (q, h) = elim (Bool-cases (m == n)) [
  | inl same ↦ rw same (p, h)
  | inr other ↦ rw other (q, All-insert n v s p h)
]

read_fields-plain :
    (words : List Bytes) (s : State)
    → All IsWord words
    → All IsPlainEntry s
    → All IsPlainEntry (read_fields words s)
unfolding read_fields
read_fields-plain [] s w h = h
read_fields-plain (a ∷ []) s w h = h
read_fields-plain (a ∷ b ∷ []) s w h = h
read_fields-plain (a ∷ b ∷ c ∷ []) s w h = h
read_fields-plain (a ∷ b ∷ c ∷ d ∷ more) s (w, ws) h =
    All-insert a (record { check = atoi_value b; prune = atoi_value c; exhaustive = atoi_value d })
      s
      (
        w,
        record {
          check_range = atoi_value-InRange b;
          prune_range = atoi_value-InRange c;
          exhaustive_range = atoi_value-InRange d;
        },
      )
      h

read_lines-plain :
    (ls : List Bytes) (s : State) → All IsPlainEntry s → All IsPlainEntry (read_lines ls s)
unfolding read_lines
read_lines-plain [] s h = h
read_lines-plain (l ∷ ls) s h =
    read_lines-plain ls (read_fields (fields l) s)
      (read_fields-plain (fields l) s (fields-IsWord l) h)

pub read_state-plain : (disk : Option Bytes) → All IsPlainEntry (read_state disk)
unfolding read_state
read_state-plain none = tt
read_state-plain (some text) = read_lines-plain (split_lines text) [] tt

plain_times : (s : State) (n : Bytes) → All IsPlainEntry s → IsPlainTimes (times_of n s)
unfolding times_of
plain_times [] n h = record {
  check_range = omega arith;
  prune_range = omega arith;
  exhaustive_range = omega arith;
}
plain_times ((m, v) ∷ s) n ((w, p), h) = elim (Bool-cases (m == n)) [
  | inl same ↦ rw (same, times_of) p
  | inr other ↦ rw (other, times_of) (plain_times s n h)
]

set_field-plain :
    (f : Field) (at : ℤ) (v : Times) → InRange at → IsPlainTimes v → IsPlainTimes (set_field f at v)
unfolding set_field
set_field-plain field_check at v r p = record {
  check_range = r;
  prune_range = p.prune_range;
  exhaustive_range = p.exhaustive_range;
}
set_field-plain field_prune at v r p = record {
  check_range = p.check_range;
  prune_range = r;
  exhaustive_range = p.exhaustive_range;
}
set_field-plain field_exhaustive at v r p = record {
  check_range = p.check_range;
  prune_range = p.prune_range;
  exhaustive_range = r;
}

pub set_time-plain :
    (n : Bytes) (f : Field) (at : ℤ) (s : State)
    → IsWord n
    → InRange at
    → All IsPlainEntry s
    → All IsPlainEntry (set_time n f at s)
unfolding set_time
set_time-plain n f at s w r h =
    All-insert n (set_field f at (times_of n s)) s
      (w, set_field-plain f at (times_of n s) r (plain_times s n h)) h

abbrev pub field_beq : Field → Field → Bool
field_beq field_check field_check = true
field_beq field_prune field_prune = true
field_beq field_exhaustive field_exhaustive = true
field_beq _ _ = false

field_of-set_field :
    (f g : Field) (at : ℤ) (v : Times)
    → field_of f (set_field g at v) ≡ (if field_beq g f then at else field_of f v)
unfolding field_of set_field
field_of-set_field field_check field_check at v = refl
field_of-set_field field_check field_prune at v = refl
field_of-set_field field_check field_exhaustive at v = refl
field_of-set_field field_prune field_check at v = refl
field_of-set_field field_prune field_prune at v = refl
field_of-set_field field_prune field_exhaustive at v = refl
field_of-set_field field_exhaustive field_check at v = refl
field_of-set_field field_exhaustive field_prune at v = refl
field_of-set_field field_exhaustive field_exhaustive at v = refl

pub get_time-set_time :
    (n m : Bytes) (f g : Field) (at : ℤ) (s : State)
    → get_time n f (set_time m g at s) ≡ (if m == n && field_beq g f then at else get_time n f s)
unfolding get_time set_time times_of
get_time-set_time n m f g at s =
    ap (λ found. field_of f (elim found [ none ↦ no_times | some v ↦ v ]))
      (lookup-insert m n (set_field g at (times_of m s)) s)
    ∙ elim (Bool-cases (m == n)) [
      | inr other ↦ rw other refl
      | inl same ↦ rw same (
          field_of-set_field f g at (times_of m s)
          ∙ ap (λ b. if field_beq g f then at else field_of f (times_of b s)) (==→eq m n same))
    ]

-- What is read after a write that may fail.
pub get_time-write_state :
    (n : Bytes) (f : Field) (writes : Bool) (s : State) (disk : Option Bytes)
    → All IsPlainEntry s
    → get_time n f (read_state (write_state writes s disk))
      ≡ (if writes then get_time n f s else get_time n f (read_state disk))
unfolding write_state get_time times_of
get_time-write_state n f true s disk h =
    ap (λ found. field_of f (elim found [ none ↦ no_times | some v ↦ v ])) (lookup-read_state s n h)
get_time-write_state n f false s disk h = refl
