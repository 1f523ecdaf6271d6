-- ===== src/Backup/Crash/Apart.antt =====
-- Groups of services that run at once, and one service of one group (internal/pipeline/backup.go:
-- `main`, `processService`).
use archiver.Shared.{
  All, Bool, Bool-cases, Bytes, List, Option, [], all_of, all_of-append, ap, arith, codes, false,
  if◌then◌else◌, inl, inr, keep, keep-append, map, none, not, refl, some, suc, sym, true, zero, ℕ,
  ◌++◌, ◌==◌, ◌||◌, ◌∙◌, ◌∷◌, ◌≡◌, ◌⊎◌, nat_eq, bytes_eq, int_eq,
}
use archiver.Backup.{
  Act, staged, recorded, pre_hook, post_hook, noted, Answers, Standing, Outcome, pre_part,
  after_pre, backup_part, post_part, last_part, end_part, probe_part, refused, finish_service,
  backup_service, with_hooks, process_service, context_of, failed, skipped, Result,
}
use archiver.Backup.Quiet.{quiet, backup_part-quiet, probe_part-quiet, end_part-quiet}
use archiver.Backup.Crash.{Watched, watch, covered, always_covered}
use archiver.Backup.Run.{Turn, take_turn, run_group, acts_of, flatten, next_of, left_of, interleave}

-- Whether an act is on the hooks or on the record of a service.
unfoldable pub concerns : Bytes → Act → Bool
concerns d x = elim x [
  | recorded e s w ↦ e == d
  | pre_hook e ↦ e == d
  | post_hook e r ↦ e == d
  | _ ↦ false
]

abbrev spares : Bytes → Act → Bool
spares d x = not (concerns d x)

-- A part of a service's acts that spares another service.
module _ (d e : Bytes) (other : (e == d) ≡ false) where
  spares_both :
      (xs ys : List Act)
      → all_of (spares d) xs ≡ true
      → all_of (spares d) ys ≡ true
      → all_of (spares d) (xs ++ ys) ≡ true
  spares_both xs ys h k = rw (all_of-append (spares d) xs ys, h) k

  quiet-spares : (xs : List Act) → all_of quiet xs ≡ true → all_of (spares d) xs ≡ true
  unfolding quiet concerns
  quiet-spares [] h = refl
  quiet-spares (x ∷ xs) h = ground (arith, quiet-spares xs)

  pre_part-spares : (a : Answers) (p : Bool) → all_of (spares d) (pre_part a e p).acts ≡ true
  unfolding pre_part after_pre concerns
  pre_part-spares a p = ground arith

  standing-spares :
      (a : Answers) (p : Bool) → all_of (spares d) (backup_part a e (pre_part a e p)).acts ≡ true
  standing-spares a p =
      let (extra, (same, q, ran)) = backup_part-quiet a e (pre_part a e p) in
      rw same (spares_both (pre_part a e p).acts extra (pre_part-spares a p) (quiet-spares extra q))

  post_part-spares :
      (a : Answers) (p q : Bool) (s : Standing) → all_of (spares d) (post_part a e p q s) ≡ true
  unfolding post_part concerns
  post_part-spares a p q s = ground arith

  last_part-spares : (a : Answers) (r : Result) → all_of (spares d) (last_part a e r).acts ≡ true
  unfolding last_part concerns
  last_part-spares a r =
      let probes = quiet-spares (probe_part a r) (probe_part-quiet a r) in
      let ends = quiet-spares (end_part a e r).acts (end_part-quiet a e r) in
      let both =
        spares_both (probe_part a r ++ noted e r ∷ []) (end_part a e r).acts
          (spares_both (probe_part a r) (noted e r ∷ []) probes refl) ends in
      ground (arith, both)

  finish-spares :
      (a : Answers) (p q : Bool) (s : Standing)
      → all_of (spares d) s.acts ≡ true
      → all_of (spares d) (finish_service a e p q s).acts ≡ true
  unfolding finish_service concerns
  finish-spares a p q s h =
      let posted = staged (context_of e) (codes "post-backup") ∷ post_part a e p q s in
      let body = spares_both s.acts posted h (post_part-spares a p q s) in
      spares_both (s.acts ++ posted) (last_part a e s.result).acts body
        (last_part-spares a s.result)

  either-spares :
      (b : Bool) (x y : Outcome)
      → all_of (spares d) x.acts ≡ true
      → all_of (spares d) y.acts ≡ true
      → all_of (spares d) (if b then x else y).acts ≡ true
  either-spares true x y h k = h
  either-spares false x y h k = k

  refused-spares : (r : Result) → all_of (spares d) (refused e r).acts ≡ true
  unfolding refused concerns
  refused-spares r = refl

  skipped-spares :
      all_of (spares d) (staged (context_of e) (codes "pre-backup") ∷ (refused e skipped).acts)
      ≡ true
  unfolding refused concerns
  skipped-spares = refl

  with_hooks-spares :
      (a : Answers) (down : Bool) (pre post : Option Bool)
      → all_of (spares d) (with_hooks a e down pre post).acts ≡ true
  unfolding with_hooks backup_service
  with_hooks-spares a down none post = refused-spares failed
  with_hooks-spares a down (some p) none = refused-spares failed
  with_hooks-spares a down (some p) (some q) =
      either-spares (not a.state_made) _ _ (refused-spares failed)
        (either-spares down _ _ skipped-spares (finish-spares a p q _ (standing-spares a p)))

  process_service-spares :
      (a : Answers) (down : Bool) → all_of (spares d) (process_service a e down).acts ≡ true
  unfolding process_service
  process_service-spares a down =
      either-spares (not a.is_dir || (not a.valid_id || (a.has_legacy || not a.filters_ok))) _ _
        (refused-spares failed) (with_hooks-spares a down a.pre_exists a.post_exists)

  take_turn-spares : (t : Turn) → t.dir ≡ e → all_of (spares d) (take_turn t).acts ≡ true
  unfolding take_turn
  take_turn-spares t same = rw same (
      either-spares t.down_before (refused e skipped) (process_service t.answers e t.down_within)
        (refused-spares skipped) (process_service-spares t.answers t.down_within))

-- A group without a directory.
abbrev pub HasNot : Bytes → List Turn → Type 0
HasNot d g = All (λ t. (t.dir == d) ≡ false) g

-- A directory is of one group at most, as `groupServices` sees to.
abbrev pub IsOneGroup : Bytes → List (List Turn) → Type 0
IsOneGroup d [] = Unit
IsOneGroup d (g ∷ gs) = (HasNot d g × IsOneGroup d gs) ⊎ All (HasNot d) gs

group-spares : (d : Bytes) (g : List Turn) → HasNot d g → all_of (spares d) (acts_of g) ≡ true
unfolding run_group
group-spares d [] h = refl
group-spares d (t ∷ ts) (h, hs) =
    let first = take_turn-spares d t.dir h t refl in
    let both =
      spares_both d t.dir h (take_turn t).acts (run_group ts).acts first (group-spares d ts hs) in
    ground (arith, first, both)

keep_none : (d : Bytes) (xs : List Act) → all_of (spares d) xs ≡ true → keep (concerns d) xs ≡ []
keep_none d [] h = refl
keep_none d (x ∷ xs) h = ground (arith, keep_none d xs)

-- At most one list has acts that a test keeps.
abbrev IsAlone : (Act → Bool) → List (List Act) → Type 0
IsAlone p [] = Unit
IsAlone p (xs ∷ xss) = ((keep p xs ≡ []) × IsAlone p xss) ⊎ All (λ ys. keep p ys ≡ []) xss

all_none :
    (d : Bytes) (gs : List (List Turn))
    → All (HasNot d) gs
    → All (λ ys. keep (concerns d) ys ≡ []) (map acts_of gs)
all_none d [] h = tt
all_none d (g ∷ gs) (h, hs) = (keep_none d (acts_of g) (group-spares d g h), all_none d gs hs)

groups-IsAlone :
    (d : Bytes) (gs : List (List Turn)) → IsOneGroup d gs → IsAlone (concerns d) (map acts_of gs)
groups-IsAlone d [] h = tt
groups-IsAlone d (g ∷ gs) (inl (h, hs)) =
    inl (keep_none d (acts_of g) (group-spares d g h), groups-IsAlone d gs hs)
groups-IsAlone d (g ∷ gs) (inr hs) = inr (all_none d gs hs)

module _ (p : Act → Bool) where
  keep-flatten_none :
      (xss : List (List Act)) → All (λ ys. keep p ys ≡ []) xss → keep p (flatten xss) ≡ []
  keep-flatten_none [] h = refl
  keep-flatten_none (xs ∷ xss) (h, hs) =
      rw (keep-append p xs (flatten xss), h) (keep-flatten_none xss hs)

  next-none :
      (n : ℕ) (xss : List (List Act))
      → All (λ ys. keep p ys ≡ []) xss
      → (keep p (next_of n xss) ≡ []) × All (λ ys. keep p ys ≡ []) (left_of n xss)
  unfolding next_of left_of
  next-none n [] h = (refl, tt)
  next-none zero ([] ∷ xss) h = (refl, h)
  next-none zero ((x ∷ xs) ∷ xss) (h, hs) = (ground (arith, h), (ground (arith, h), hs))
  next-none (suc n) (xs ∷ xss) (h, hs) = let (a, b) = next-none n xss hs in (a, (h, b))

  left_of-IsAlone : (n : ℕ) (xss : List (List Act)) → IsAlone p xss → IsAlone p (left_of n xss)
  unfolding left_of
  left_of-IsAlone n [] h = tt
  left_of-IsAlone zero ([] ∷ xss) h = h
  left_of-IsAlone zero ((x ∷ xs) ∷ xss) (inl (h, hs)) = inl (ground (arith, h), hs)
  left_of-IsAlone zero ((x ∷ xs) ∷ xss) (inr hs) = inr hs
  left_of-IsAlone (suc n) (xs ∷ xss) (inl (h, hs)) = inl (h, left_of-IsAlone n xss hs)
  left_of-IsAlone (suc n) (xs ∷ xss) (inr hs) = inr (next-none n xss hs).1

  keep-next :
      (n : ℕ) (xss : List (List Act))
      → IsAlone p xss
      → keep p (next_of n xss) ++ keep p (flatten (left_of n xss)) ≡ keep p (flatten xss)
  unfolding next_of left_of
  keep-next n [] h = refl
  keep-next zero ([] ∷ xss) h = refl
  keep-next zero ((x ∷ xs) ∷ xss) h = ground arith
  keep-next (suc n) (xs ∷ xss) (inl (h, hs)) =
      rw (keep-append p xs (flatten xss), keep-append p xs (flatten (left_of n xss)), h)
        (keep-next n xss hs)
  keep-next (suc n) (xs ∷ xss) (inr hs) =
      let (a, b) = next-none n xss hs in
      rw
        (
          keep-append p xs (flatten xss),
          keep-append p xs (flatten (left_of n xss)),
          a,
          keep-flatten_none (left_of n xss) b,
          keep-flatten_none xss hs,
        )
        refl

  -- The acts of one group keep their order in every schedule.
  keep-interleave :
      (ns : List ℕ) (xss : List (List Act))
      → IsAlone p xss
      → keep p (interleave ns xss) ≡ keep p (flatten xss)
  unfolding interleave
  keep-interleave [] xss h = refl
  keep-interleave (n ∷ ns) xss h =
      keep-append p (next_of n xss) (interleave ns (left_of n xss))
      ∙ ap (λ r. keep p (next_of n xss) ++ r)
          (keep-interleave ns (left_of n xss) (left_of-IsAlone n xss h))
      ∙ keep-next n xss h

-- What does not concern a service changes nothing that is watched of it.
watch-spares : (d : Bytes) (x : Act) (m : Watched) → concerns d x ≡ false → watch d x m ≡ m
unfolding concerns watch
watch-spares d x m h = ground arith

covered_first :
    (d : Bytes) (xs : List Act) (m : Watched) → always_covered d xs m ≡ true → covered m ≡ true
unfolding always_covered
covered_first d [] m h = h
covered_first d (x ∷ xs) m h = ground arith

covered_kept :
    (d : Bytes) (xs : List Act) (m : Watched)
    → always_covered d (keep (concerns d) xs) m ≡ always_covered d xs m
unfolding always_covered
covered_kept d [] m = refl
covered_kept d (x ∷ xs) m = elim (Bool-cases (concerns d x)) [
  | inl own ↦ rw (own, covered_kept d xs (watch d x m)) refl
  | inr away ↦
      let same = watch-spares d x m away in
      rw (away, same) (ground (arith, covered_kept d xs m, covered_first d xs m))
]

-- A service that stays covered in the groups one after another does so in every schedule.
pub interleave-covered :
    (d : Bytes) (ns : List ℕ) (gs : List (List Turn)) (m : Watched)
    → IsOneGroup d gs
    → always_covered d (flatten (map acts_of gs)) m ≡ true
    → always_covered d (interleave ns (map acts_of gs)) m ≡ true
interleave-covered d ns gs m one h =
    sym (covered_kept d (interleave ns (map acts_of gs)) m)
    ∙ ap (λ l. always_covered d l m)
        (keep-interleave (concerns d) ns (map acts_of gs) (groups-IsAlone d gs one))
    ∙ covered_kept d (flatten (map acts_of gs)) m
    ∙ h
