-- ===== src/Config/Glob/Matching/Complete.antt =====
-- That what the rules match is accepted by the code (internal/config/glob.go, `matchAt`, `match`).
use archiver.Shared.{
  ==_refl, Bool, Bool-cases, Bytes, [], arith, codes, false, has_prefix, inl, inr, length, not,
  refl, suc, true, zero, ℕ, ◌&&◌, ◌==◌, ◌||◌, ◌↔◌, ◌∙◌, ◌∷◌, ◌≡◌, ◌≤◌, nat_eq, bytes_eq, int_eq,
}
use archiver.Config.Glob.{drop_stars, any_suffix, literal, is_nil, match_at, match_name}
use archiver.Config.Glob.Brackets.{class_match-shorter}
use archiver.Config.Glob.Expressions.Reads.{class_match-reads}
use archiver.Config.Glob.Matching.{
  is_plain, Matches, empty, star_none, star_some, any_byte, bracket, unclosed, escape, trailing,
  plain, match_at-Matches,
}

-- What is to be shown of a text that a pattern matches: that the code accepts it on any fuel that
-- is as long as the pattern, and for a star that what follows the stars is accepted after some
-- bytes.
star_accepts : ℕ → Bytes → Bytes → Bool
star_accepts f p s = is_nil (drop_stars p) || any_suffix (match_at f (drop_stars p)) s

StarGoal : Bytes → Bytes → Type 0
StarGoal [] s = Unit
StarGoal (c ∷ p) s = (c == b'*') ≡ true → (f : ℕ) → length p ≤ f → star_accepts f p s ≡ true

Goal : Bytes → Bytes → Type 0
Goal p s = ((f : ℕ) → length p ≤ f → match_at f p s ≡ true) × StarGoal p s

any_suffix-here : (test : Bytes → Bool) (s : Bytes) → test s ≡ true → any_suffix test s ≡ true
unfolding any_suffix
any_suffix-here test [] h = h
any_suffix-here test (x ∷ s) h = rw h refl

-- A star that skips nothing.
star_none-Goal : (p s : Bytes) → Goal p s → (f : ℕ) → length p ≤ f → star_accepts f p s ≡ true
unfolding Goal StarGoal star_accepts drop_stars
star_none-Goal [] s g f le = refl
star_none-Goal (c ∷ p) s (all, star) f le = elim (Bool-cases (c == b'*')) [
  | inl is_star ↦ simp is_star (star is_star f (omega (arith, le)))
  | inr other ↦ simp other (any_suffix-here (match_at f (c ∷ p)) s (all f le))
]

star_some-accepts :
    (f x : ℕ) (p s : Bytes) → star_accepts f p s ≡ true → star_accepts f p (x ∷ s) ≡ true
unfolding star_accepts any_suffix
star_some-accepts f x p s h = ground arith

with_fuel :
    (c : ℕ) (p s : Bytes)
    → ((g : ℕ) → length p ≤ g → match_at (suc g) (c ∷ p) s ≡ true)
    → (f : ℕ) → suc (length p) ≤ f
    → match_at f (c ∷ p) s ≡ true
with_fuel c p s h zero le = absurd (omega (arith, le))
with_fuel c p s h (suc g) le = h g (omega (arith, le))

-- A star's goal gives its acceptance.
star-Goal :
    (c : ℕ) (p s : Bytes)
    → (c == b'*') ≡ true
    → ((f : ℕ) → length p ≤ f → star_accepts f p s ≡ true)
    → Goal (c ∷ p) s
unfolding Goal StarGoal match_at star_accepts
star-Goal c p s star h = (with_fuel c p s (λ g le. simp star (h g le)), λ is f le. h f le)

other-Goal :
    (c : ℕ) (p s : Bytes)
    → (c == b'*') ≡ false
    → ((g : ℕ) → length p ≤ g → match_at (suc g) (c ∷ p) s ≡ true)
    → Goal (c ∷ p) s
unfolding Goal StarGoal
other-Goal c p s other h = (with_fuel c p s h, λ is f le. absurd (let e = is in cc (e, other)))

star_applies :
    (c : ℕ) (p s : Bytes)
    → Goal (c ∷ p) s
    → (c == b'*') ≡ true
    → (f : ℕ) → length p ≤ f
    → star_accepts f p s ≡ true
unfolding Goal StarGoal
star_applies c p s (all, star) is f le = star is f le

accepts_of : (p s : Bytes) → Goal p s → (f : ℕ) → length p ≤ f → match_at f p s ≡ true
unfolding Goal
accepts_of p s (all, star) f le = all f le

empty-Goal : Goal [] []
unfolding Goal StarGoal match_at
empty-Goal = (λ f le. refl, tt)

-- A byte that two bytes are equal to, of which one is another.
apart : (c a b : ℕ) → (c == a) ≡ true → (a == b) ≡ false → (c == b) ≡ false
apart c a b h k = ground arith

plain_apart :
    (c : ℕ)
    → is_plain c ≡ true
    → ((c == b'*') ≡ false) × ((c == b'?') ≡ false) × ((c == b'[') ≡ false) × ((c == b'\\') ≡ false)
plain_apart c h = ground arith

Matches-Goal : (p s : Bytes) → Matches p s → Goal p s
unfolding match_at literal
Matches-Goal [] [] empty = empty-Goal
Matches-Goal [] (x ∷ s) m = elim m [ ]
Matches-Goal (c ∷ p) s (star_none star m) =
    star-Goal c p s star (star_none-Goal p s (Matches-Goal p s m))
Matches-Goal (c ∷ p) (x ∷ s) (star_some star m) =
    star-Goal c p (x ∷ s) star
      (λ f le. star_some-accepts f x p s (star_applies c p s (Matches-Goal (c ∷ p) s m) star f le))
Matches-Goal (c ∷ p) (x ∷ s) (any_byte any m) =
    other-Goal c p (x ∷ s) (apart c b'?' b'*' any refl)
      (λ g le. simp (apart c b'?' b'*' any refl, any) (accepts_of p s (Matches-Goal p s m) g le))
Matches-Goal (c ∷ p) (x ∷ s) (bracket {after = after} open_ found m) =
    let read = class_match-reads p s x ∙ found in
    other-Goal c p (x ∷ s) (apart c b'[' b'*' open_ refl) (λ g le.
      simp (apart c b'[' b'*' open_ refl, apart c b'[' b'?' open_ refl, open_, read)
        (accepts_of after s (Matches-Goal after s m) g
          (omega (arith, le, class_match-shorter p (x ∷ s) true after read))))
Matches-Goal (c ∷ p) (_ ∷ s) (unclosed open_ lone m) =
    let read = class_match-reads p s c ∙ lone in
    other-Goal c p (c ∷ s) (apart c b'[' b'*' open_ refl) (λ g le.
      simp (apart c b'[' b'*' open_ refl, apart c b'[' b'?' open_ refl, open_, read, ==_refl c)
        (accepts_of p s (Matches-Goal p s m) g le))
Matches-Goal (c ∷ d ∷ p) (_ ∷ s) (escape back m) =
    other-Goal c (d ∷ p) (d ∷ s) (apart c b'\\' b'*' back refl) (λ g le.
      simp
        (
          apart c b'\\' b'*' back refl,
          apart c b'\\' b'?' back refl,
          apart c b'\\' b'[' back refl,
          back,
          ==_refl d,
        )
        (accepts_of p s (Matches-Goal p s m) g (omega (arith, le))))
Matches-Goal (c ∷ []) (_ ∷ s) (trailing back m) =
    other-Goal c [] (c ∷ s) (apart c b'\\' b'*' back refl) (λ g le.
      simp
        (
          apart c b'\\' b'*' back refl,
          apart c b'\\' b'?' back refl,
          apart c b'\\' b'[' back refl,
          back,
          ==_refl c,
        )
        (accepts_of [] s (Matches-Goal [] s m) g (omega arith)))
Matches-Goal (c ∷ p) (_ ∷ s) (plain lone m) =
    let (not_star, not_any, not_open, not_back) = plain_apart c lone in
    other-Goal c p (c ∷ s) not_star (λ g le.
      simp (not_star, not_any, not_open, not_back, ==_refl c)
        (accepts_of p s (Matches-Goal p s m) g le))

-- `matchAt` accepts a name exactly if the pattern matches it by the rules: a star any text, a
-- question mark a byte, a closed bracket expression a byte that is in it, an unclosed "[" itself, a
-- backslash the byte after it, and every other byte itself.
pub match_at_iff :
    (pattern name : Bytes) → (match_at (length pattern) pattern name ≡ true) ↔ Matches pattern name
match_at_iff pattern name = (
  match_at-Matches (length pattern) pattern name,
  λ m. accepts_of pattern name (Matches-Goal pattern name m) (length pattern) (omega arith),
)

-- The leading dot that `match` asks a pattern to write.
unfoldable pub hidden_from : Bytes → Bytes → Bool
hidden_from pattern name =
    has_prefix name (codes ".")
    && (not (has_prefix pattern (codes ".")) && not (has_prefix pattern (b'\\' ∷ b'.' ∷ [])))

-- A name matches a pattern exactly if it does by the rules and, where it begins with a dot, the
-- pattern begins with one or with an escaped one. By the rules a star stands for any text, a question
-- mark for a byte, a backslash for the byte after it (for itself where it is last), and every other
-- byte for itself. A "[" that is closed stands for a byte of the set that its items name, or outside
-- it after "!" or "^": the items are named classes, "[=c=]" and "[.c.]", ranges with both their ends,
-- and bytes, escaped ones too, up to a "]" that is not the first. A "[" that nothing closes stands for
-- itself.
pub match_name_iff :
    (pattern name : Bytes)
    → (match_name pattern name ≡ true) ↔ ((hidden_from pattern name ≡ false) × Matches pattern name)
unfolding match_name hidden_from
match_name_iff pattern name = elim (Bool-cases (hidden_from pattern name)) [
  | inl hidden ↦
      (λ h. absurd (let e = rw hidden at h in cc e), λ (shown, m). absurd (cc (hidden, shown)))
  | inr shown ↦ (
    λ h. (shown, (match_at_iff pattern name).0 (rw shown at h)),
    λ (_, m). rw shown ((match_at_iff pattern name).1 m),
  )
]
