-- ===== src/Maintenance/Record/Roundtrip.antt =====
-- What `readState` reads of a file that `write` wrote (internal/maintenance/maintenance.go).
use archiver.Shared.{
  ==_comm, ==→eq, All, All-map, Bool-cases, Bytes, InRange, IsWord, List, [], all_of, arith,
  atoi-itoa, atoi_value, contains, contains_self, contains-sort_texts, fields, fields-last,
  fields-word, has_key, if◌then◌else◌, in_line, inl, inr, insert, itoa, lookup, lookup-insert, none,
  refl, some, sort_texts, split_lines, split_lines-line, subst, sym, true, ℤ, ◌++◌, ◌==◌, ◌∙◌, ◌∷◌,
  ◌≡◌, nat_eq, bytes_eq, int_eq,
}
use archiver.Inuse.Format.{itoa-IsWord}
use archiver.Runlock.Text.{IsWord-in_line, joined-in_line}
use archiver.Maintenance.Record.{
  Times, State, read_fields, read_lines, read_state, times_of, line_of, names_of, print_names,
  print_state,
}

-- What a line can carry.
pub record IsPlainTimes (v : Times) : Type 0 where
  pub check_range : InRange v.check
  pub prune_range : InRange v.prune
  pub exhaustive_range : InRange v.exhaustive

abbrev pub IsPlainEntry : Bytes × Times → Type 0
IsPlainEntry (name, v) = IsWord name × IsPlainTimes v

line_of-in_line : (name : Bytes) (v : Times) → IsWord name → all_of in_line (line_of name v) ≡ true
unfolding line_of
line_of-in_line name v w = joined-in_line name _ (IsWord-in_line name w) (
    joined-in_line (itoa v.check) _ (IsWord-in_line _ (itoa-IsWord v.check)) (
      joined-in_line (itoa v.prune) _ (IsWord-in_line _ (itoa-IsWord v.prune))
        (IsWord-in_line _ (itoa-IsWord v.exhaustive))))

fields-line_of :
    (name : Bytes) (v : Times)
    → IsWord name
    → fields (line_of name v) ≡ name ∷ itoa v.check ∷ itoa v.prune ∷ itoa v.exhaustive ∷ []
unfolding line_of
fields-line_of name v w =
    rw
      (
        fields-word name (itoa v.check ++ b' ' ∷ (itoa v.prune ++ b' ' ∷ itoa v.exhaustive)) w,
        fields-word (itoa v.check) (itoa v.prune ++ b' ' ∷ itoa v.exhaustive) (itoa-IsWord v.check),
        fields-word (itoa v.prune) (itoa v.exhaustive) (itoa-IsWord v.prune),
        fields-last (itoa v.exhaustive) (itoa-IsWord v.exhaustive),
      )
      refl

atoi_value-itoa : (z : ℤ) → InRange z → atoi_value (itoa z) ≡ z
unfolding atoi_value
atoi_value-itoa z r = rw (atoi-itoa z r, atoi_value) refl

read_fields-line_of :
    (name : Bytes) (v : Times) (s : State)
    → IsWord name
    → IsPlainTimes v
    → read_fields (fields (line_of name v)) s ≡ insert name v s
unfolding read_fields
read_fields-line_of name v s w p =
    rw
      (
        fields-line_of name v w,
        atoi_value-itoa v.check p.check_range,
        atoi_value-itoa v.prune p.prune_range,
        atoi_value-itoa v.exhaustive p.exhaustive_range,
      )
      refl

lookup_cons :
    (s : State) (name : Bytes) (names : List Bytes) (before : State) (n : Bytes)
    → (if contains names n
        then some (times_of n s)
        else lookup n (insert name (times_of name s) before))
      ≡ (if contains (name ∷ names) n then some (times_of n s) else lookup n before)
lookup_cons s name names before n =
    rw (lookup-insert name n (times_of name s) before) (elim (Bool-cases (name == n)) [
      | inl same ↦ rw same (ground (arith, ==→eq name n same))
      | inr other ↦ rw other refl
    ])

-- What is read of the lines of some names.
lookup-read_lines :
    (s : State) (names : List Bytes) (before : State) (n : Bytes)
    → All (λ name. IsPlainEntry (name, times_of name s)) names
    → lookup n (read_lines (split_lines (print_names s names)) before)
      ≡ (if contains names n then some (times_of n s) else lookup n before)
unfolding print_names read_lines split_lines
lookup-read_lines s [] before n h = refl
lookup-read_lines s (name ∷ names) before n ((w, p), h) =
    rw
      (
        split_lines-line (line_of name (times_of name s)) (print_names s names)
            (line_of-in_line name (times_of name s) w),
        read_lines,
        read_fields-line_of name (times_of name s) before w p,
      )
      (lookup-read_lines s names (insert name (times_of name s) before) n h
        ∙ lookup_cons s name names before n)

contains-names_of : (s : State) (n : Bytes) → contains (names_of s) n ≡ has_key n s
unfolding names_of
contains-names_of [] n = refl
contains-names_of ((name, v) ∷ s) n = ground (arith, contains-names_of s n, ==_comm name n)

lookup-times_of :
    (s : State) (n : Bytes) → (if has_key n s then some (times_of n s) else none) ≡ lookup n s
unfolding times_of
lookup-times_of [] n = refl
lookup-times_of ((name, v) ∷ s) n = ground (arith, lookup-times_of s n)

plain_entry :
    (s : State) (n : Bytes)
    → All IsPlainEntry s
    → contains (names_of s) n ≡ true
    → IsPlainEntry (n, times_of n s)
unfolding names_of times_of
plain_entry [] n h c = absurd (ground (arith, c))
plain_entry ((name, v) ∷ s) n (h, hs) c = elim (Bool-cases (name == n)) [
  | inl same ↦ rw (same, times_of) (subst (λ m. IsPlainEntry (m, v)) (==→eq name n same) h)
  | inr other ↦ rw (other, times_of) (plain_entry s n hs (rw other at c))
]

plain_sorted :
    (s : State)
    → All IsPlainEntry s
    → All (λ name. IsPlainEntry (name, times_of name s)) (sort_texts (names_of s))
plain_sorted s h =
    All-map (λ n. contains (sort_texts (names_of s)) n ≡ true) (λ n. IsPlainEntry (n, times_of n s))
      (sort_texts (names_of s))
      (λ n c. plain_entry s n h (sym (contains-sort_texts (names_of s) n) ∙ c))
      (contains_self (sort_texts (names_of s)))

-- A record that is written reads back, for storages whose names are words and 64-bit instants: each
-- storage has the instants that it had, and there is no other.
pub lookup-read_state :
    (s : State) (n : Bytes)
    → All IsPlainEntry s
    → lookup n (read_state (some (print_state s))) ≡ lookup n s
unfolding read_state print_state
lookup-read_state s n h =
    lookup-read_lines s (sort_texts (names_of s)) [] n (plain_sorted s h)
    ∙ rw (contains-sort_texts (names_of s) n, contains-names_of s n) (lookup-times_of s n)
