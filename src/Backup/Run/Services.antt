-- ===== src/Backup/Run/Services.antt =====
-- The services of a run that logs no error (internal/pipeline/backup.go: the groups of `main`).
use archiver.Shared.{
  Bool, Bool-cases, Bytes, List, [], any_of, any_of-append, ap, arith, false, inl, inr, map, refl,
  suc, sym, true, zero, ℕ, ◌++◌, ◌||◌, ◌∙◌, ◌∷◌, ◌≡◌,
}
use archiver.Backup.{Act, refused, process_service}
use archiver.Backup.Failing.{is_error, process_service-errors}
use archiver.Backup.Run.{
  run_group, acts_of, is_stopping, flatten, next_of, left_of, interleave, Turn, run_services,
  take_turn, is_lost,
}

abbrev pub dir_of : Turn → Bytes
dir_of t = t.dir

-- A turn without an error, that does not end the run, backed up.
take_turn-ok :
    (t : Turn)
    → any_of is_error (take_turn t).acts ≡ false
    → (take_turn t).stop ≡ false
    → (take_turn t).ok ≡ true
unfolding take_turn refused is_error
take_turn-ok t clean goes = elim (Bool-cases t.down_before) [
  | inl gone ↦ absurd (let e = simp gone at clean in cc e)
  | inr up ↦ elim (Bool-cases (process_service t.answers t.dir t.down_within).ok) [
    | inl good ↦ simp (up, good)
    | inr bad ↦ absurd (
        let e = process_service-errors t.answers t.dir t.down_within bad (simp up at goes) in
        let c = simp up at clean in cc (e, c))
  ]
]

pub or_false : (a b : Bool) → (a || b) ≡ false → (a ≡ false) × (b ≡ false)
or_false true b h = absurd (cc h)
or_false false b h = (refl, h)

run_group-working :
    (ts : List Turn)
    → any_of (λ t. t.stopped_before) ts ≡ false
    → (run_group ts).stop ≡ false
    → any_of is_error (run_group ts).acts ≡ false
    → (run_group ts).working ≡ map dir_of ts
unfolding run_group
run_group-working [] h goes clean = refl
run_group-working (t ∷ ts) h goes clean =
    let (first, later) = or_false t.stopped_before _ h in
    elim (Bool-cases (take_turn t).stop) [
      | inl halts ↦ absurd (let e = simp (first, halts) at goes in cc e)
      | inr on ↦
          let goes' : (run_group ts).stop ≡ false = simp (first, on) at goes in
          let clean' : any_of is_error ((take_turn t).acts ++ (run_group ts).acts) ≡ false =
            simp (first, on) at clean in
          let (c, cs) =
            or_false _ _
              (sym (any_of-append is_error (take_turn t).acts (run_group ts).acts) ∙ clean') in
          simp (first, on, take_turn-ok t c on, run_group-working ts later goes' cs)
    ]

-- Whether a stop was seen before a service.
abbrev pub saw_stop : List (List Turn) → Bool
saw_stop groups = any_of (λ g. any_of (λ t. t.stopped_before) g) groups

map-append {ℓ κ} :
    {A : Type ℓ} {B : Type κ} (f : A → B) (xs ys : List A) → map f (xs ++ ys) ≡ map f xs ++ map f ys
map-append f [] ys = refl
map-append f (x ∷ xs) ys = ap (λ l. f x ∷ l) (map-append f xs ys)

groups_working :
    (groups : List (List Turn))
    → saw_stop groups ≡ false
    → any_of is_stopping groups ≡ false
    → any_of (any_of is_error) (map acts_of groups) ≡ false
    → flatten (map (λ g. (run_group g).working) groups) ≡ map dir_of (flatten groups)
groups_working [] h goes clean = refl
groups_working (g ∷ gs) h goes clean =
    let (h1, h2) = or_false _ _ h in
    let (g1, g2) = or_false _ _ goes in
    let (c1, c2) = or_false _ _ clean in
    rw (run_group-working g h1 g1 c1, groups_working gs h2 g2 c2, map-append dir_of g (flatten gs))
      refl

any_of-flatten :
    (p : Act → Bool) (xss : List (List Act)) → any_of p (flatten xss) ≡ any_of (any_of p) xss
any_of-flatten p [] = refl
any_of-flatten p (xs ∷ xss) = rw (any_of-append p xs (flatten xss), any_of-flatten p xss) refl

any_of-left_of :
    (p : Act → Bool) (n : ℕ) (xss : List (List Act))
    → (any_of p (next_of n xss) || any_of (any_of p) (left_of n xss)) ≡ any_of (any_of p) xss
unfolding next_of left_of
any_of-left_of p n [] = refl
any_of-left_of p zero ([] ∷ xss) = refl
any_of-left_of p zero ((x ∷ xs) ∷ xss) = ground arith
any_of-left_of p (suc n) (xs ∷ xss) = ground (arith, any_of-left_of p n xss)

-- No schedule hides or makes an act.
any_of-interleave :
    (p : Act → Bool) (ns : List ℕ) (xss : List (List Act))
    → any_of p (interleave ns xss) ≡ any_of (any_of p) xss
unfolding interleave
any_of-interleave p [] xss = any_of-flatten p xss
any_of-interleave p (n ∷ ns) xss =
    any_of-append p (next_of n xss) (interleave ns (left_of n xss))
    ∙ rw (any_of-interleave p ns (left_of n xss)) (any_of-left_of p n xss)

-- Groups whose services saw no stop, none of which ended the run, and none of which logged an error,
-- backed up all of their services.
pub run_services-working :
    (schedule : List ℕ) (groups : List (List Turn))
    → saw_stop groups ≡ false
    → (run_services schedule groups).stop ≡ false
    → any_of is_error (run_services schedule groups).acts ≡ false
    → (run_services schedule groups).working ≡ map dir_of (flatten groups)
unfolding run_services
run_services-working schedule groups h goes clean =
    groups_working groups h goes
      (sym (any_of-interleave is_error schedule (map acts_of groups)) ∙ clean)

lost-error : (xs : List Act) → any_of is_lost xs ≡ true → any_of is_error xs ≡ true
unfolding is_lost is_error
lost-error [] h = cc h
lost-error (x ∷ xs) h = ground (arith, lost-error xs)

-- A primary that is lost on the way is an error.
pub run_services-down :
    (schedule : List ℕ) (groups : List (List Turn))
    → (run_services schedule groups).down ≡ true
    → any_of is_error (run_services schedule groups).acts ≡ true
unfolding run_services
run_services-down schedule groups h = lost-error (interleave schedule (map acts_of groups)) h
