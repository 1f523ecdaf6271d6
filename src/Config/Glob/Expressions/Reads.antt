-- ===== src/Config/Glob/Expressions/Reads.antt =====
-- That `classMatch` of internal/config/glob.go reads a bracket expression by the rules.
use archiver.Shared.{
  Bool, Bool-cases, Bytes, Option, [], ap, arith, contains, contains-append, cut_prefix, false,
  has_prefix, if◌then◌else◌, inl, inr, leb, length, ltb, none, not, refl, some, suc, true, zero, ℕ,
  ◌&&◌, ◌++◌, ◌-◌, ◌==◌, ◌||◌, ◌∙◌, ◌∷◌, ◌≡◌, nat_eq, bytes_eq, int_eq,
}
use archiver.Config.Glob.{
  class_of, until_close, named_class_of, named_class, one_byte, escaped, range_end, range, item,
  class_loop, negated, class_match,
}
use archiver.Config.Glob.Expressions.{
  bytes_from, class_bytes, before_close, class_found, class_item, byte_item, plain_byte, range_from,
  range_item, item_bytes, set_of, is_negation, past_negation, reads,
}
use archiver.Config.Glob.Expressions.Classes.{contains-bytes_from, in_class, class_of-in_class}

abbrev in_set : Bytes → Option ℕ → Bool
in_set set none = false
in_set set (some c) = contains set c

abbrev told_of : Option ℕ → Option (Bytes × Bytes) → Option (Bool × Bytes)
told_of c o = elim o [ none ↦ none | some (set, after) ↦ some (in_set set c, after) ]

until_close-before_close : (s : Bytes) → until_close s ≡ before_close s
unfolding until_close before_close cut_prefix
until_close-before_close [] = refl
until_close-before_close (x ∷ []) = ground arith
until_close-before_close (x ∷ y ∷ s) = ground (arith, until_close-before_close (y ∷ s))

told_none :
    (o : Option Bool) (o' : Option Bytes) (after : Bytes)
    → o ≡ in_class 0 o'
    → (elim o as (λ w. Option (Bool × Bytes)) [ none ↦ none | some b ↦ some (false, after) ])
      ≡ told_of none (elim o' [ none ↦ none | some set ↦ some (set, after) ])
told_none o none after h = rw h refl
told_none o (some set) after h = rw h refl

told_some :
    (o : Option Bool) (o' : Option Bytes) (c : ℕ) (after : Bytes)
    → o ≡ in_class c o'
    → (elim o as (λ w. Option (Bool × Bytes)) [ none ↦ none | some b ↦ some (b, after) ])
      ≡ told_of (some c) (elim o' [ none ↦ none | some set ↦ some (set, after) ])
told_some o none c after h = rw h refl
told_some o (some set) c after h = rw h refl

class_found_lem :
    (c : Option ℕ) (o : Option (Bytes × Bytes)) → named_class_of o c ≡ told_of c (class_found o)
unfolding named_class_of class_found
class_found_lem c none = refl
class_found_lem none (some (name, after)) =
    told_none (class_of name 0) (class_bytes name) after (class_of-in_class name 0)
class_found_lem (some b) (some (name, after)) =
    told_some (class_of name b) (class_bytes name) b after (class_of-in_class name b)

named_class-class_item : (p : Bytes) (c : Option ℕ) → named_class p c ≡ told_of c (class_item p)
unfolding named_class class_item has_prefix
named_class-class_item [] c = refl
named_class-class_item (x ∷ []) c = refl
named_class-class_item (x ∷ y ∷ []) c = ground arith
named_class-class_item (x ∷ y ∷ z ∷ t) c = elim (Bool-cases (x == b'[' && y == b':')) [
  | inr other ↦ rw other refl
  | inl opens ↦ elim (Bool-cases (z == b']')) [
    | inl shut ↦ rw (opens, shut) refl
    | inr goes ↦
        rw (opens, goes, until_close-before_close (z ∷ t))
          (class_found_lem c (before_close (z ∷ t)))
  ]
]

guarded :
    (b v : Bool) (c : ℕ) (set after : Bytes)
    → v ≡ contains set c
    → (if b then some (v, after) else none)
      ≡ told_of (some c) (if b then some (set, after) else none)
guarded true v c set after h = ap (λ w. some (w, after)) h
guarded false v c set after h = refl

one_byte-byte_item : (p : Bytes) (c : Option ℕ) → one_byte p c ≡ told_of c (byte_item p)
unfolding one_byte byte_item
one_byte-byte_item [] c = refl
one_byte-byte_item (x ∷ []) c = refl
one_byte-byte_item (x ∷ d ∷ []) c = refl
one_byte-byte_item (x ∷ d ∷ b ∷ []) c = refl
one_byte-byte_item (x ∷ d ∷ b ∷ e ∷ []) c = refl
one_byte-byte_item (x ∷ d ∷ b ∷ e ∷ close ∷ after) none = ground arith
one_byte-byte_item (x ∷ d ∷ b ∷ e ∷ close ∷ after) (some c) =
    guarded (x == b'[' && ((d == b'=' || d == b'.') && (e == d && close == b']'))) (c == b) c
      (b ∷ []) after (ground arith)

escaped-plain_byte : (x : ℕ) (r : Bytes) → escaped x r ≡ plain_byte x r
unfolding escaped plain_byte
escaped-plain_byte x [] = refl
escaped-plain_byte x (y ∷ r) = refl

abbrev span_of : Option ℕ → ℕ → ℕ × Bytes → Bool × Bytes
unfolding range
span_of none lo (hi, after) = (false, after)
span_of (some c) lo (hi, after) = (leb lo c && leb c hi, after)

abbrev told_item : Option ℕ → Bytes × Bytes → Bool × Bytes
told_item c (set, after) = (in_set set c, after)

span_bytes :
    (c : Option ℕ) (lo : ℕ) (e : ℕ × Bytes)
    → span_of c lo e ≡ told_item c (bytes_from lo (suc e.0 - lo), e.1)
unfolding span_of
span_bytes none lo (hi, after) = refl
span_bytes (some c) lo (hi, after) =
    ap (λ b. (b, after)) (ground (arith, contains-bytes_from lo (suc hi - lo) c))

span_one : (c : Option ℕ) (lo : ℕ) (q : Bytes) → span_of c lo (lo, q) ≡ told_item c (lo ∷ [], q)
unfolding span_of
span_one none lo q = refl
span_one (some c) lo q = ap (λ b. (b, q)) (ground arith)

range_end-range_from :
    (c : Option ℕ) (lo : ℕ) (q : Bytes)
    → span_of c lo (range_end lo q) ≡ told_item c (range_from lo q)
unfolding range_end range_from
range_end-range_from c lo [] = span_one c lo []
range_end-range_from c lo (dash ∷ []) = span_one c lo (dash ∷ [])
range_end-range_from c lo (dash ∷ h ∷ t) = elim (Bool-cases (dash == b'-' && not (h == b']'))) [
  | inl ranges ↦ rw (ranges, escaped-plain_byte h t) (span_bytes c lo (plain_byte h t))
  | inr alone ↦ rw alone (span_one c lo (dash ∷ h ∷ t))
]

range_span :
    (x : ℕ) (r : Bytes) (c : Option ℕ)
    → range x r c ≡ (let (lo, q) = escaped x r in span_of c lo (range_end lo q))
unfolding range
range_span x r none = refl
range_span x r (some c) = refl

range-range_item : (x : ℕ) (r : Bytes) (c : Option ℕ) → range x r c ≡ told_item c (range_item x r)
unfolding range_item
range-range_item x r c =
    range_span x r c
    ∙ rw (escaped-plain_byte x r) (range_end-range_from c (plain_byte x r).0 (plain_byte x r).1)

either_item :
    (c : Option ℕ) (n : Option (Bool × Bytes)) (o : Option (Bytes × Bytes)) (y : Bool × Bytes)
    (y' : Bytes × Bytes)
    → n ≡ told_of c o
    → y ≡ told_item c y'
    → (elim n as (λ w. Bool × Bytes) [ some found ↦ found | none ↦ y ])
      ≡ told_item c (elim o as (λ w. Bytes × Bytes) [ some found ↦ found | none ↦ y' ])
either_item c n none y y' e h = rw e h
either_item c n (some (set, after)) y y' e h = rw e refl

-- An item tests a byte for being one of its bytes.
item-item_bytes : (x : ℕ) (r : Bytes) (c : Option ℕ) → item x r c ≡ told_item c (item_bytes x r)
unfolding item item_bytes
item-item_bytes x r c =
    either_item c (named_class (x ∷ r) c) (class_item (x ∷ r)) _ _
      (named_class-class_item (x ∷ r) c)
      (either_item c (one_byte (x ∷ r) c) (byte_item (x ∷ r)) _ _ (one_byte-byte_item (x ∷ r) c)
        (range-range_item x r c))

-- The set so far, and the rest of it.
abbrev matched_or : Bool → Option ℕ → Option (Bytes × Bytes) → Option (Bool × Bytes)
matched_or matched c o = elim o [
  | none ↦ none
  | some (set, after) ↦ some (matched || in_set set c, after)
]

in_set-append : (xs ys : Bytes) (c : Option ℕ) → in_set (xs ++ ys) c ≡ (in_set xs c || in_set ys c)
in_set-append xs ys none = refl
in_set-append xs ys (some c) = contains-append xs ys c

matched_or-cons :
    (matched : Bool) (c : Option ℕ) (bytes : Bytes) (o : Option (Bytes × Bytes))
    → matched_or (matched || in_set bytes c) c o
      ≡ matched_or matched c (elim o as (λ w. Option (Bytes × Bytes)) [
        | none ↦ none
        | some (set, end) ↦ some (bytes ++ set, end)
      ])
matched_or-cons matched c bytes none = refl
matched_or-cons matched c bytes (some (set, end)) =
    ap (λ b. some (b, end)) (ground (arith, in_set-append bytes set c))

in_empty : (matched : Bool) (c : Option ℕ) → matched ≡ (matched || in_set [] c)
in_empty true c = refl
in_empty false none = refl
in_empty false (some c) = refl

class_loop-set_of :
    (f : ℕ) (first matched : Bool) (c : Option ℕ) (p : Bytes)
    → class_loop f first matched c p ≡ matched_or matched c (set_of f first p)
unfolding class_loop set_of
class_loop-set_of zero first matched c p = refl
class_loop-set_of (suc f) first matched c [] = refl
class_loop-set_of (suc f) first matched c (x ∷ r) = elim (Bool-cases (x == b']' && not first)) [
  | inl shut ↦ rw shut (ap (λ b. some (b, r)) (in_empty matched c))
  | inr goes ↦
      let (bytes, after) = item_bytes x r in
      rw (goes, item-item_bytes x r c)
        (class_loop-set_of f false (matched || in_set bytes c) c after
          ∙ matched_or-cons matched c bytes (set_of f false after))
]

negated_lem : (p : Bytes) → negated p ≡ (is_negation p, past_negation p)
unfolding negated
negated_lem [] = refl
negated_lem (x ∷ r) = ground arith

finish_reads :
    (negate : Bool) (x : ℕ) (s : Bytes) (l : Option (Bool × Bytes)) (o : Option (Bytes × Bytes))
    → l ≡ matched_or false (some x) o
    → (elim l as (λ w. Option (Bool × Bytes)) [
      | none ↦ none
      | some (matched, after) ↦
          some (ltb 0 (length (x ∷ s)) && (if negate then not matched else matched), after)
    ])
      ≡ (elim o as (λ w. Option (Bool × Bytes)) [
        | none ↦ none
        | some (set, after) ↦ some (if negate then not (contains set x) else contains set x, after)
      ])
finish_reads negate x s l none e = rw e refl
finish_reads negate x s l (some (set, after)) e = rw e (ap (λ b. some (b, after)) (ground arith))

abbrev after_negation : ℕ → Bytes → Bool × Bytes → Option (Bool × Bytes)
after_negation x s (negate, q) = elim (class_loop (length q) true false (some x) q) [
  | none ↦ none
  | some (matched, after) ↦
      some (ltb 0 (length (x ∷ s)) && (if negate then not matched else matched), after)
]

-- `classMatch` reads a bracket expression by its rules.
pub class_match-reads : (p s : Bytes) (x : ℕ) → class_match p (x ∷ s) ≡ reads p x
unfolding class_match reads
class_match-reads p s x =
    ap (after_negation x s) (negated_lem p)
    ∙ finish_reads (is_negation p) x s _ (set_of (length (past_negation p)) true (past_negation p))
        (class_loop-set_of (length (past_negation p)) true false (some x) (past_negation p))
