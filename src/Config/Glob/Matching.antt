-- ===== src/Config/Glob/Matching.antt =====
-- When a pattern matches a name, as a relation, and that `matchAt` of internal/config/glob.go
-- decides it.
use archiver.Shared.{
  ==→eq, Bool, Bool-cases, Bytes, Option, [], ap, arith, false, inl, inr, none, not, refl, some,
  subst, suc, sym, true, zero, ℕ, ◌&&◌, ◌==◌, ◌||◌, ◌∙◌, ◌∷◌, ◌≡◌, nat_eq, bytes_eq, int_eq,
}
pub mod Complete
use archiver.Config.Glob.{
  class_match, drop_stars, any_suffix, literal, skip, is_nil, match_at, match_name,
}
use archiver.Config.Glob.Expressions.{reads}
use archiver.Config.Glob.Expressions.Reads.{class_match-reads}

-- A byte that stands for itself in a pattern.
abbrev pub is_plain : ℕ → Bool
is_plain c = not (c == b'*' || (c == b'?' || (c == b'[' || c == b'\\')))

-- The rules by which a pattern matches a text.
pub data Matches : Bytes → Bytes → Type 0 where
  empty : Matches [] []
  star_none : {c : ℕ} {p s : Bytes} → (c == b'*') ≡ true → Matches p s → Matches (c ∷ p) s
  star_some :
      {c x : ℕ} {p s : Bytes} → (c == b'*') ≡ true → Matches (c ∷ p) s → Matches (c ∷ p) (x ∷ s)
  any_byte : {c x : ℕ} {p s : Bytes} → (c == b'?') ≡ true → Matches p s → Matches (c ∷ p) (x ∷ s)
  bracket :
      {c x : ℕ} {p s after : Bytes}
      → (c == b'[') ≡ true
      → reads p x ≡ some (true, after)
      → Matches after s
      → Matches (c ∷ p) (x ∷ s)
  unclosed :
      {c : ℕ} {p s : Bytes}
      → (c == b'[') ≡ true
      → reads p c ≡ none
      → Matches p s
      → Matches (c ∷ p) (c ∷ s)
  escape : {c d : ℕ} {p s : Bytes} → (c == b'\\') ≡ true → Matches p s → Matches (c ∷ d ∷ p) (d ∷ s)
  trailing : {c : ℕ} {s : Bytes} → (c == b'\\') ≡ true → Matches [] s → Matches (c ∷ []) (c ∷ s)
  plain : {c : ℕ} {p s : Bytes} → is_plain c ≡ true → Matches p s → Matches (c ∷ p) (c ∷ s)

-- Stars match any text.
stars-Matches : (p : Bytes) → is_nil (drop_stars p) ≡ true → Matches p []
unfolding drop_stars
stars-Matches [] h = empty
stars-Matches (c ∷ p) h = elim (Bool-cases (c == b'*')) [
  | inl star ↦ star_none star (stars-Matches p (rw star at h))
  | inr other ↦ absurd (let e = rw other at h in cc e)
]

star_all : (c : ℕ) (p s : Bytes) → (c == b'*') ≡ true → Matches (c ∷ p) [] → Matches (c ∷ p) s
star_all c p [] star m = m
star_all c p (x ∷ s) star m = star_some star (star_all c p s star m)

drop_stars-Matches : (p s : Bytes) → Matches (drop_stars p) s → Matches p s
unfolding drop_stars
drop_stars-Matches [] s m = m
drop_stars-Matches (c ∷ p) s m = elim (Bool-cases (c == b'*')) [
  | inl star ↦ star_none star (drop_stars-Matches p s (simp star at m))
  | inr other ↦ simp other at m
]

-- What a star may skip.
any_suffix-Matches :
    (test : Bytes → Bool) (c : ℕ) (p s : Bytes)
    → (c == b'*') ≡ true
    → ((t : Bytes) → test t ≡ true → Matches p t)
    → any_suffix test s ≡ true
    → Matches (c ∷ p) s
unfolding any_suffix
any_suffix-Matches test c p [] star sound h = star_none star (sound [] h)
any_suffix-Matches test c p (x ∷ s) star sound h = elim (Bool-cases (test (x ∷ s))) [
  | inl here ↦ star_none star (sound (x ∷ s) here)
  | inr later ↦ star_some star (any_suffix-Matches test c p s star sound (rw later at h))
]

literal-Matches :
    (c : ℕ) (next : Bytes → Bool) (s : Bytes)
    → literal c next s ≡ true
    → (t : Bytes) × ((s ≡ c ∷ t) × (next t ≡ true))
unfolding literal
literal-Matches c next [] h = absurd (cc h)
literal-Matches c next (x ∷ t) h = elim (Bool-cases (x == c)) [
  | inl same ↦ (t, (ap (λ y. y ∷ t) (==→eq x c same), rw same at h))
  | inr other ↦ absurd (let e = rw other at h in cc e)
]

-- The two ways a "[" is read, from what the bracket expression says.
bracket-sound :
    (f c : ℕ) (p s : Bytes) (o : Option (Bool × Bytes))
    → (c == b'[') ≡ true
    → ((q t : Bytes) → match_at f q t ≡ true → Matches q t)
    → class_match p s ≡ o
    → (elim o as (λ w. Bool) [
      | none ↦ literal c (match_at f p) s
      | some (ok, after) ↦ ok && skip (match_at f after) s
    ])
      ≡ true
    → Matches (c ∷ p) s
bracket-sound f c p s none open_ ih e h =
    let (t, (same, m)) = literal-Matches c (match_at f p) s h in
    subst (λ u. Matches (c ∷ p) u) (sym same)
      (unclosed open_ (sym (class_match-reads p t c) ∙ subst (λ u. class_match p u ≡ none) same e)
        (ih p t m))
bracket-sound f c p s (some (false, after)) open_ ih e h = absurd (cc h)
bracket-sound f c p [] (some (true, after)) open_ ih e h = absurd (cc h)
bracket-sound f c p (x ∷ s) (some (true, after)) open_ ih e h =
    bracket open_ (sym (class_match-reads p s x) ∙ e) (ih after s h)

escape-sound :
    (f c : ℕ) (p s : Bytes)
    → (c == b'\\') ≡ true
    → ((q t : Bytes) → match_at f q t ≡ true → Matches q t)
    → (elim p as (λ w. Bool) [
      | [] ↦ literal c (match_at f []) s
      | d ∷ q ↦ literal d (match_at f q) s
    ])
      ≡ true
    → Matches (c ∷ p) s
escape-sound f c [] s back ih h =
    let (t, (same, m)) = literal-Matches c (match_at f []) s h in
    subst (λ u. Matches (c ∷ []) u) (sym same) (trailing back (ih [] t m))
escape-sound f c (d ∷ q) s back ih h =
    let (t, (same, m)) = literal-Matches d (match_at f q) s h in
    subst (λ u. Matches (c ∷ d ∷ q) u) (sym same) (escape back (ih q t m))

skip-sound :
    (f c : ℕ) (p s : Bytes)
    → (c == b'?') ≡ true
    → ((q t : Bytes) → match_at f q t ≡ true → Matches q t)
    → skip (match_at f p) s ≡ true
    → Matches (c ∷ p) s
skip-sound f c p [] any ih h = absurd (cc h)
skip-sound f c p (x ∷ s) any ih h = any_byte any (ih p s h)

star-sound :
    (f c : ℕ) (p s : Bytes)
    → (c == b'*') ≡ true
    → ((q t : Bytes) → match_at f q t ≡ true → Matches q t)
    → (is_nil (drop_stars p) || any_suffix (match_at f (drop_stars p)) s) ≡ true
    → Matches (c ∷ p) s
star-sound f c p s star ih h = elim (Bool-cases (is_nil (drop_stars p))) [
  | inl all ↦ star_all c p s star (star_none star (stars-Matches p all))
  | inr some_left ↦
      any_suffix-Matches (match_at f (drop_stars p)) c p s star
        (λ t m. drop_stars-Matches p t (ih (drop_stars p) t m)) (rw some_left at h)
]

-- What the code accepts, on any fuel, matches.
pub match_at-Matches : (f : ℕ) (p s : Bytes) → match_at f p s ≡ true → Matches p s
unfolding match_at
match_at-Matches f [] [] h = empty
match_at-Matches f [] (x ∷ s) h = absurd (cc h)
match_at-Matches zero (c ∷ p) s h = absurd (cc h)
match_at-Matches (suc f) (c ∷ p) s h =
    let ih = match_at-Matches f in
    elim (Bool-cases (c == b'*')) [
      | inl star ↦ star-sound f c p s star ih (simp star at h)
      | inr not_star ↦ elim (Bool-cases (c == b'?')) [
        | inl any ↦ skip-sound f c p s any ih (simp (not_star, any) at h)
        | inr not_any ↦ elim (Bool-cases (c == b'[')) [
          | inl open_ ↦
              bracket-sound f c p s (class_match p s) open_ ih refl
                (simp (not_star, not_any, open_) at h)
          | inr not_open ↦ elim (Bool-cases (c == b'\\')) [
            | inl back ↦
                escape-sound f c p s back ih (simp (not_star, not_any, not_open, back) at h)
            | inr not_back ↦
                let (t, (same, m)) =
                  literal-Matches c (match_at f p) s
                    (simp (not_star, not_any, not_open, not_back) at h) in
                subst (λ u. Matches (c ∷ p) u) (sym same)
                  (plain (ground (arith, not_star, not_any, not_open, not_back)) (ih p t m))
          ]
        ]
      ]
    ]
