-- ===== src/Maintenance/Run/Turns.antt =====
-- What the turn of each storage does in a maintenance run without an error
-- (internal/maintenance/maintenance.go, `main`).
use archiver.Shared.{
  All, Bool, Bytes, List, Option, [], any_of-append, ap, append-nil, append_assoc, arith,
  branch_cases, either_branch, false, not, refl, subst, sym, true, ◌&&◌, ◌++◌, ◌||◌, ◌∙◌, ◌∷◌, ◌≡◌,
  nat_eq, bytes_eq, int_eq,
}
use archiver.Maintenance.Storage.{
  Settings, Act, probe, errored, add_storage, Probe, reached, unreachable, stopped, Standing,
  checkin_acts,
}
use archiver.Maintenance.Run.{
  Step, stepped, step_failed, step_stopped, Turn, ends_here, passes_over, work_on, before_acts,
  added, secondary, then_stands, secondaries, is_error,
}
use archiver.Maintenance.Run.Working.{
  is_check_of, is_prune_of, is_checked, is_pruned, has_error, storage_works,
}

-- Whether a storage was maintained, by the acts of a run.
abbrev pub is_maintained : Settings → List Act → Turn → Bool
is_maintained c acts t = is_checked c acts t.target t.answers && is_pruned c acts t.target t.answers

-- Acts before or after do no harm.
pub is_maintained-append :
    (c : Settings) (xs ys : List Act) (t : Turn)
    → (is_maintained c xs t || is_maintained c ys t) ≡ true
    → is_maintained c (xs ++ ys) t ≡ true
is_maintained-append c xs ys t h = ground (
  arith,
  h,
  any_of-append (is_check_of t.target.name) xs ys,
  any_of-append (is_prune_of t.target.name) xs ys,
)

-- A turn that ends the run, leaves an error or maintains its storage.
abbrev pub turn_works : Settings → Turn → Standing → Bool
turn_works c t r = has_error r.acts || (not r.goes_on || is_maintained c r.acts t)

module _ (c : Settings) (t : Turn) (disk : Option Bytes) where
  pub work_on_works : (primary : Bool) → turn_works c t (work_on c primary t disk) ≡ true
  unfolding work_on ends_here
  work_on_works primary =
      either_branch (λ (r : Standing). turn_works c t r ≡ true) t.stop_before refl
        (storage_works c t.target t.answers primary disk)

  passes_over_works : (acts : List Act) → turn_works c t (passes_over t.target acts disk) ≡ true
  unfolding passes_over is_error
  passes_over_works acts =
      ground
        (arith, any_of-append is_error acts (errored t.target.name ∷ checkin_acts t.target false))

  before_acts_works :
      (acts : List Act) (s : Standing)
      → turn_works c t s ≡ true
      → turn_works c t (before_acts acts s) ≡ true
  unfolding before_acts
  before_acts_works acts s h = ground (
    arith,
    h,
    any_of-append is_error acts s.acts,
    any_of-append (is_check_of t.target.name) acts s.acts,
    any_of-append (is_prune_of t.target.name) acts s.acts,
  )

  added_works : (step : Step) → turn_works c t (added c t disk step) ≡ true
  unfolding added ends_here
  added_works step_stopped = ground arith
  added_works step_failed = passes_over_works (probe t.target.name ∷ add_storage t.target.name ∷ [])
  added_works stepped =
      before_acts_works (probe t.target.name ∷ add_storage t.target.name ∷ [])
        (work_on c false t disk) (work_on_works false)

  secondary_works : (reach : Probe) → turn_works c t (secondary c t disk reach) ≡ true
  unfolding secondary ends_here
  secondary_works stopped = ground arith
  secondary_works unreachable = passes_over_works (probe t.target.name ∷ [])
  secondary_works reached = added_works t.adding

-- The acts that a loop adds.
pub secondaries-acts :
    (c : Settings) (ts : List Turn) (s : Standing)
    → (new : List Act) × ((secondaries c ts s).acts ≡ s.acts ++ new)
unfolding secondaries then_stands
secondaries-acts c [] s = ([], sym (append-nil s.acts))
secondaries-acts c (t ∷ ts) s =
    let r = secondary c t s.disk t.first_reach in
    branch_cases (λ (x : Standing). (new : List Act) × (x.acts ≡ s.acts ++ new)) r.goes_on
      (λ goes.
        let (new, e) = secondaries-acts c ts (then_stands s r) in
        (r.acts ++ new, e ∙ append_assoc s.acts r.acts new))
      (λ ends. (r.acts, refl))

-- A turn that others follow, in a run without an error.
pub maintained_turn :
    (c : Settings) (t : Turn) (r x : Standing) (before new : List Act)
    → turn_works c t r ≡ true
    → r.goes_on ≡ true
    → x.acts ≡ (before ++ r.acts) ++ new
    → has_error x.acts ≡ false
    → is_maintained c x.acts t ≡ true
maintained_turn c t r x before new works on e clean =
    let clean_turn : has_error r.acts ≡ false = ground (
      arith,
      clean,
      ap has_error e,
      any_of-append is_error (before ++ r.acts) new,
      any_of-append is_error before r.acts,
    ) in
    subst (λ acts. is_maintained c acts t ≡ true) (sym e)
      (is_maintained-append c (before ++ r.acts) new t (
        ground
          (arith, is_maintained-append c before r.acts t (ground (arith, works, on, clean_turn)))))

pub secondaries_works :
    (c : Settings) (ts : List Turn) (s : Standing)
    → has_error (secondaries c ts s).acts ≡ false
    → (secondaries c ts s).goes_on ≡ true
    → All (λ t. is_maintained c (secondaries c ts s).acts t ≡ true) ts
unfolding secondaries then_stands
secondaries_works c [] s = λ clean goes. tt
secondaries_works c (t ∷ ts) s =
    let r = secondary c t s.disk t.first_reach in
    branch_cases
      (λ (x : Standing).
        has_error x.acts ≡ false
        → x.goes_on ≡ true
        → All (λ u. is_maintained c x.acts u ≡ true) (t ∷ ts))
      r.goes_on
      (λ on clean goes.
        let (new, e) = secondaries-acts c ts (then_stands s r) in
        (
          maintained_turn c t r (secondaries c ts (then_stands s r)) s.acts new
              (secondary_works c t s.disk t.first_reach) on e clean,
          secondaries_works c ts (then_stands s r) clean goes,
        ))
      (λ ends clean goes. absurd (cc))
