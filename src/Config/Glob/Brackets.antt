-- ===== src/Config/Glob/Brackets.antt =====
-- How much of a pattern a bracket expression reads (internal/config/glob.go, `classMatch`).
use archiver.Shared.{
  Bool, Bytes, Option, [], ap, arith, codes, cut_prefix, cut_prefix_inv, false, has_prefix,
  if◌then◌else◌, length, length-append, ltb, none, not, refl, some, subst, suc, true, zero, ℕ, ◌&&◌,
  ◌==◌, ◌||◌, ◌∷◌, ◌≡◌, ◌≤◌, nat_eq, bytes_eq, int_eq,
}
use archiver.Config.Glob.{
  until_close, named_class_of, named_class, one_byte, escaped, range_end, range, item, class_loop,
  negated, class_match, class_of, first_byte,
}

cut_close-shorter :
    (s after : Bytes) → cut_prefix s (codes ":]") ≡ some after → length after ≤ length s
cut_close-shorter s after h =
    let e = cut_prefix_inv s (codes ":]") after h in
    rw (e, length-append (codes ":]") after) (omega arith)

-- Texts that a function leaves, if it leaves one, of at most some length.
Within : {A : Type 0} → ℕ → Option (A × Bytes) → Type 0
Within n none = Unit
Within n (some (a, after)) = length after ≤ n

Within-more : {A : Type 0} (n m : ℕ) (o : Option (A × Bytes)) → n ≤ m → Within n o → Within m o
unfolding Within
Within-more n m none le h = tt
Within-more n m (some (a, after)) le h = omega (arith, le, h)

cut-Within :
    (x : ℕ) (s : Bytes) (o : Option Bytes) (rest : Option (Bytes × Bytes))
    → cut_prefix (x ∷ s) (codes ":]") ≡ o
    → Within (length s) rest
    → Within (suc (length s)) (elim o [
      | some after ↦ some ([], after)
      | none ↦ elim rest [ none ↦ none | some (name, after) ↦ some (x ∷ name, after) ]
    ])
unfolding Within
cut-Within x s (some after) rest e h = cut_close-shorter (x ∷ s) after e
cut-Within x s none none e h = tt
cut-Within x s none (some (name, after)) e h = omega (arith, h)

until_close-Within : (s : Bytes) → Within (length s) (until_close s)
unfolding until_close Within
until_close-Within [] = tt
until_close-Within (x ∷ s) = cut-Within x s _ (until_close s) refl (until_close-Within s)

known-Within :
    (n : ℕ) (after : Bytes) (o : Option Bool) (f : Bool → Bool)
    → length after ≤ n
    → Within n (elim o as (λ w. Option (Bool × Bytes)) [ none ↦ none | some b ↦ some (f b, after) ])
unfolding Within
known-Within n after none f h = tt
known-Within n after (some b) f h = h

named_class_of-Within :
    (n : ℕ) (o : Option (Bytes × Bytes)) (c : Option ℕ) → Within n o → Within n (named_class_of o c)
unfolding named_class_of Within
named_class_of-Within n none c h = tt
named_class_of-Within n (some (name, after)) none h =
    known-Within n after (class_of name 0) (λ b. false) h
named_class_of-Within n (some (name, after)) (some c) h =
    known-Within n after (class_of name c) (λ b. b) h

choice-Within :
    {A : Type 0} (n : ℕ) (b : Bool) (o : Option (A × Bytes))
    → Within n o
    → Within n (if b then o else none)
unfolding Within
choice-Within n true o h = h
choice-Within n false o h = tt

refuse-Within :
    {A : Type 0} (n : ℕ) (b : Bool) (o : Option (A × Bytes))
    → Within n o
    → Within n (if b then none else o)
unfolding Within
refuse-Within n true o h = tt
refuse-Within n false o h = h

named_class-Within : (x : ℕ) (r : Bytes) (c : Option ℕ) → Within (length r) (named_class (x ∷ r) c)
unfolding named_class Within
named_class-Within x [] c = tt
named_class-Within x (y ∷ t) c = choice-Within (suc (length t)) (x == b'[' && y == b':') _ (
    refuse-Within (suc (length t)) (has_prefix t (codes "]")) _ (
      Within-more (length t) (suc (length t)) _ (omega arith)
        (named_class_of-Within (length t) (until_close t) c (until_close-Within t))))

one_byte-Within : (x : ℕ) (r : Bytes) (c : Option ℕ) → Within (length r) (one_byte (x ∷ r) c)
unfolding one_byte Within
one_byte-Within x [] c = tt
one_byte-Within x (d ∷ []) c = tt
one_byte-Within x (d ∷ b ∷ []) c = tt
one_byte-Within x (d ∷ b ∷ e ∷ []) c = tt
one_byte-Within x (d ∷ b ∷ e ∷ close ∷ after) c =
    choice-Within _ (x == b'[' && ((d == b'=' || d == b'.') && (e == d && close == b']'))) _
      (omega arith)

escaped-shorter : (x : ℕ) (r : Bytes) → length (escaped x r).1 ≤ length r
unfolding escaped
escaped-shorter x [] = omega arith
escaped-shorter x (y ∷ r) = ground arith

range_end-shorter : (lo : ℕ) (q : Bytes) → length (range_end lo q).1 ≤ length q
unfolding range_end
range_end-shorter lo [] = omega arith
range_end-shorter lo (d ∷ []) = omega arith
range_end-shorter lo (d ∷ h ∷ t) = ground (arith, escaped-shorter h t)

range-shorter : (x : ℕ) (r : Bytes) (c : Option ℕ) → length (range x r c).1 ≤ length r
unfolding range
range-shorter x r c =
    omega (arith, escaped-shorter x r, range_end-shorter (escaped x r).0 (escaped x r).1)

pick_shorter :
    (n : ℕ) (o : Option (Bool × Bytes)) (other : Bool × Bytes)
    → Within n o
    → length other.1 ≤ n
    → length (elim o as (λ w. Bool × Bytes) [ some found ↦ found | none ↦ other ]).1 ≤ n
unfolding Within
pick_shorter n none other h k = k
pick_shorter n (some (b, after)) other h k = h

-- A round of the loop reads a byte at least.
pub item-shorter : (x : ℕ) (r : Bytes) (c : Option ℕ) → length (item x r c).1 ≤ length r
unfolding item
item-shorter x r c =
    pick_shorter (length r) (named_class (x ∷ r) c) _ (named_class-Within x r c)
      (pick_shorter (length r) (one_byte (x ∷ r) c) _ (one_byte-Within x r c) (range-shorter x r c))

either-Within :
    {A : Type 0} (n : ℕ) (b : Bool) (o q : Option (A × Bytes))
    → Within n o
    → Within n q
    → Within n (if b then o else q)
unfolding Within
either-Within n true o q h k = h
either-Within n false o q h k = k

class_loop-Within :
    (f : ℕ) (first matched : Bool) (c : Option ℕ) (p : Bytes)
    → Within (length p) (class_loop f first matched c p)
unfolding class_loop Within
class_loop-Within zero first matched c p = tt
class_loop-Within (suc f) first matched c [] = tt
class_loop-Within (suc f) first matched c (x ∷ r) =
    let (found, after) = item x r c in
    either-Within (suc (length r)) (x == b']' && not first) (some (matched, r)) _ (omega arith) (
      Within-more (length after) (suc (length r)) _ (omega (arith, item-shorter x r c))
        (class_loop-Within f false (matched || found) c after))

-- More fuel than the pattern is long makes no difference.
pub class_loop-fuel :
    (f g : ℕ) (first matched : Bool) (c : Option ℕ) (p : Bytes)
    → length p ≤ f
    → length p ≤ g
    → class_loop f first matched c p ≡ class_loop g first matched c p
unfolding class_loop
class_loop-fuel zero zero first matched c p h k = refl
class_loop-fuel zero (suc g) first matched c [] h k = refl
class_loop-fuel zero (suc g) first matched c (x ∷ r) h k = absurd (omega (arith, h))
class_loop-fuel (suc f) zero first matched c [] h k = refl
class_loop-fuel (suc f) zero first matched c (x ∷ r) h k = absurd (omega (arith, k))
class_loop-fuel (suc f) (suc g) first matched c [] h k = refl
class_loop-fuel (suc f) (suc g) first matched c (x ∷ r) h k =
    let (found, after) = item x r c in
    ap (λ o. if x == b']' && not first then some (matched, r) else o)
      (class_loop-fuel f g false (matched || found) c after (omega (arith, item-shorter x r c, h))
        (omega (arith, item-shorter x r c, k)))

negated-shorter : (p : Bytes) → length (negated p).1 ≤ length p
unfolding negated
negated-shorter [] = omega arith
negated-shorter (x ∷ r) = ground arith

closed-Within :
    (n : ℕ) (o : Option (Bool × Bytes)) (f : Bool → Bool)
    → Within n o
    → Within n (elim o as (λ w. Option (Bool × Bytes)) [
      | none ↦ none
      | some (matched, after) ↦ some (f matched, after)
    ])
unfolding Within
closed-Within n none f h = tt
closed-Within n (some (b, after)) f h = h

class_match-Within : (p s : Bytes) → Within (length p) (class_match p s)
unfolding class_match
class_match-Within p s =
    let (negate, q) = negated p in
    Within-more (length q) (length p) _ (negated-shorter p) (
      closed-Within (length q) (class_loop (length q) true false (first_byte s) q)
        (λ m. ltb 0 (length s) && (if negate then not m else m))
        (class_loop-Within (length q) true false (first_byte s) q))

-- What a bracket expression leaves of the pattern is no longer than what follows its "[".
pub class_match-shorter :
    (p s : Bytes) (ok : Bool) (after : Bytes)
    → class_match p s ≡ some (ok, after)
    → length after ≤ length p
unfolding Within
class_match-shorter p s ok after h = subst (λ o. Within (length p) o) h (class_match-Within p s)
