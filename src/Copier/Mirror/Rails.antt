-- ===== src/Copier/Mirror/Rails.antt =====
-- The rails of a mirror pass (mirror.go, `PlanMirror`): what its plan deletes, against a description
-- with no sorting and no "newest" in it.
use archiver.Shared.{
  ==_refl, ==→eq, Bool, Bool-cases, Bytes, Eq, List, Option, Option-cases, [], any_above_last,
  any_of, any_of-sort_ints, arith, contains, contains-keep, contains-sort_ints, false, get_last_or,
  if◌then◌else◌, inl, inr, keep, le_last, leb, length, length-sort_ints, lookup, lookup-has_key,
  lookup-insert, ltb, ltb_ℤ, none, not, pos, refl, some, sort_ints, sort_ints-IsSorted,
  sort_ints-ne-nil, sym, true, unique_keys, ℕ, ℤ, ◌&&◌, ◌*◌, ◌==◌, ◌||◌, ◌∙◌, ◌∷◌, ◌≡◌, ◌≢◌, ◌≤ℤ◌,
  ◌≤◌, nat_eq, bytes_eq, int_eq,
}
use archiver.Copier.Mirror.{
  Revisions, get, MirrorPlan, empty_plan, Outcome, leave, remove, refuse, deletions, judge, outcome,
  carry_out, plan_loop, plan_mirror, by_id,
}
use archiver.Copier.Mirror.Lists.{revisions_of, get-by_id, unique_keys-by_id}

-- A revision that the primary has pruned: local lacks it, and both storages hold a later one.
abbrev pub is_prunable : List ℤ → List ℤ → ℤ → Bool
is_prunable lr tr r =
    not (contains lr r) && (any_of (λ t. ltb_ℤ r t) tr && any_of (λ l. ltb_ℤ r l) lr)

ne_last : (r l : ℤ) → r ≤ℤ l → not (r == l) ≡ ltb_ℤ r l
ne_last r l h = ground arith

deletion_test :
    (lr tr : List ℤ) (r : ℤ)
    → lr ≢ []
    → contains tr r ≡ true
    → (not (contains (sort_ints lr) r)
        && (not (r == get_last_or (sort_ints tr) (pos 0))
            && ltb_ℤ r (get_last_or (sort_ints lr) (pos 0))))
      ≡ is_prunable lr tr r
deletion_test lr tr r n m =
    let mt = contains-sort_ints tr r ∙ m in
    let nt : sort_ints tr ≢ [] = λ e. cc (rw e at mt) in
    let above_t = any_above_last (sort_ints tr) r (pos 0) (sort_ints-IsSorted tr) nt in
    let above_l =
      any_above_last (sort_ints lr) r (pos 0) (sort_ints-IsSorted lr) (sort_ints-ne-nil lr n) in
    rw (
      contains-sort_ints lr r,
      ne_last r _ (le_last (sort_ints tr) r (pos 0) (sort_ints-IsSorted tr) mt),
      ← above_t,
      ← above_l,
      any_of-sort_ints (λ t. ltb_ℤ r t) tr,
      any_of-sort_ints (λ t. ltb_ℤ r t) lr,
    )

or_true : (b : Bool) → (b || true) ≡ true
or_true true = refl
or_true false = refl

keep_congr {ℓ} :
    {A : Type ℓ} ⦃e : Eq A⦄ (p q : A → Bool) (xs : List A)
    → ((x : A) → contains xs x ≡ true → p x ≡ q x)
    → keep p xs ≡ keep q xs
keep_congr p q [] h = refl
keep_congr p q (x ∷ xs) h =
    ground (arith, h x (rw ==_refl), keep_congr p q xs (λ y m. h y (rw (m, or_true (x == y)))))

-- What a plan is expected to delete of an ID, from its revisions on both storages.
abbrev pub expected : Bool → Bool → List ℤ → List ℤ → Option (List ℤ)
expected owned allow_large lr tr =
    let candidates = keep (is_prunable lr tr) (sort_ints tr) in
    if not owned || leb (length candidates) 0
    then none
    else if ltb (length tr) (2 * length candidates) && not allow_large
    then none
    else some candidates

abbrev decided : Outcome → Option (List ℤ) → Option (List ℤ)
decided leave d = d
decided (remove del) d = some del
decided (refuse why) d = d

lookup-carry_out :
    (id j : Bytes) (o : Outcome) (plan : MirrorPlan)
    → lookup id (carry_out j o plan).delete
      ≡ (if j == id then decided o (lookup id plan.delete) else lookup id plan.delete)
unfolding carry_out
lookup-carry_out id j leave plan = ground arith
lookup-carry_out id j (remove del) plan = lookup-insert j id del plan.delete
lookup-carry_out id j (refuse why) plan = ground arith

abbrev next_plan : (Bytes → Bool) → Bool → Revisions → Bytes → List ℤ → MirrorPlan → MirrorPlan
next_plan own allow lrevs j tr plan =
    if own j then carry_out j (outcome allow (get j lrevs) tr) plan else plan

abbrev after_loop : Bool → Option (List ℤ) → Bool → List ℤ → Option (List ℤ) → Option (List ℤ)
after_loop owned none allow lr d = d
after_loop owned (some tr) allow lr d = if owned then decided (outcome allow lr tr) d else d

lookup-plan_loop :
    (own : Bytes → Bool) (allow : Bool) (lrevs trevs : Revisions) (plan : MirrorPlan) (id : Bytes)
    → unique_keys trevs ≡ true
    → lookup id (plan_loop own allow lrevs trevs plan).delete
      ≡ after_loop (own id) (lookup id trevs) allow (get id lrevs) (lookup id plan.delete)
unfolding plan_loop
lookup-plan_loop own allow lrevs [] plan id u = refl
lookup-plan_loop own allow lrevs ((j, tr) ∷ trevs) plan id u = elim (Bool-cases (j == id)) [
  | inl same ↦
      rw
        (
          lookup-plan_loop own allow lrevs trevs (next_plan own allow lrevs j tr plan) id
              (ground arith),
          same,
          ← ==→eq j id same,
          lookup-has_key j trevs (ground arith),
        )
        (elim (Bool-cases (own j)) [
          | inl mine ↦
              rw (mine, lookup-carry_out j j (outcome allow (get j lrevs) tr) plan, ==_refl j)
          | inr other ↦ rw other
        ])
  | inr other ↦
      rw
        (
          lookup-plan_loop own allow lrevs trevs (next_plan own allow lrevs j tr plan) id
              (ground arith),
          other,
        )
        (elim (Bool-cases (own j)) [
          | inl mine ↦ rw (mine, lookup-carry_out id j (outcome allow (get j lrevs) tr) plan, other)
          | inr not_mine ↦ rw not_mine
        ])
]

outcome-judge :
    (allow : Bool) (lr tr : List ℤ)
    → lr ≢ []
    → outcome allow lr tr ≡ judge allow (deletions lr tr) tr
unfolding outcome
outcome-judge allow [] tr n = absurd (n refl)
outcome-judge allow (l ∷ ls) tr n = refl

judge-expected :
    (allow : Bool) (c tr : List ℤ)
    → decided (judge allow c (sort_ints tr)) none ≡ (
        if leb (length c) 0
        then none
        else if ltb (length tr) (2 * length c) && not allow
        then none
        else some c)
unfolding judge
judge-expected allow [] tr = refl
judge-expected allow (d ∷ ds) tr = ground (arith, length-sort_ints tr)

none_prunable : (tr xs : List ℤ) → keep (is_prunable [] tr) xs ≡ []
none_prunable tr [] = refl
none_prunable tr (x ∷ xs) = ground (arith, none_prunable tr xs)

deletions-is_prunable :
    (lr tr : List ℤ)
    → lr ≢ []
    → deletions (sort_ints lr) (sort_ints tr) ≡ keep (is_prunable lr tr) (sort_ints tr)
unfolding deletions
deletions-is_prunable lr tr n =
    keep_congr _ _ (sort_ints tr)
      (λ r m. deletion_test lr tr r n (sym (contains-sort_ints tr r) ∙ m))

outcome_nil : (allow : Bool) (lr : List ℤ) → outcome allow lr [] ≡ leave
unfolding outcome judge deletions
outcome_nil allow [] = refl
outcome_nil allow (l ∷ ls) = refl

after_loop-get :
    (owned allow : Bool) (lr : List ℤ) (trevs : Revisions) (id : Bytes)
    → (if owned then decided (outcome allow lr (get id trevs)) none else none)
      ≡ after_loop owned (lookup id trevs) allow lr none
after_loop-get owned allow lr trevs id = elim (Option-cases (lookup id trevs)) [
  | inl missing ↦ rw (get, missing, outcome_nil allow lr) (ground arith)
  | inr (tr, found) ↦ rw (get, found)
]

outcome-expected :
    (owned allow : Bool) (lr tr : List ℤ)
    → (if owned then decided (outcome allow (sort_ints lr) (sort_ints tr)) none else none)
      ≡ expected owned allow lr tr
unfolding outcome sort_ints
outcome-expected owned allow [] tr = rw (none_prunable tr) (ground arith)
outcome-expected owned allow (l ∷ ls) tr =
    let n : l ∷ ls ≢ [] = λ e. cc in
    rw
      (
        outcome-judge allow (sort_ints (l ∷ ls)) (sort_ints tr) (sort_ints-ne-nil (l ∷ ls) n),
        deletions-is_prunable (l ∷ ls) tr n,
        judge-expected allow _ tr,
      )
      (ground arith)

-- The plan deletes of each ID exactly what is expected.
pub plan_mirror-expected :
    (local target : List Bytes) (own : Bytes → Bool) (allow : Bool) (id : Bytes)
    → lookup id (plan_mirror local target own allow).delete
      ≡ expected (own id) allow (revisions_of id local) (revisions_of id target)
unfolding plan_mirror
plan_mirror-expected local target own allow id =
    lookup-plan_loop own allow (by_id local) (by_id target) empty_plan id (unique_keys-by_id target)
    ∙ rw
        (
          ← after_loop-get (own id) allow (get id (by_id local)) (by_id target) id,
          get-by_id id local,
          get-by_id id target,
        )
        (outcome-expected (own id) allow (revisions_of id local) (revisions_of id target))

-- What the rails ask of one revision that is deleted: it is of an owned ID, on the target and not on
-- local, and older than the newest revision on each.
pub record IsAllowed (own : Bytes → Bool) (local target : List Bytes) (id : Bytes) (r : ℤ)
    : Type 0 where
  pub owned : own id ≡ true
  pub on_target : contains (revisions_of id target) r ≡ true
  pub not_local : contains (revisions_of id local) r ≡ false
  pub target_has_later : any_of (λ t. ltb_ℤ r t) (revisions_of id target) ≡ true
  pub local_has_later : any_of (λ l. ltb_ℤ r l) (revisions_of id local) ≡ true

picked_inv :
    (owned allow : Bool) (total : ℕ) (c del : List ℤ)
    → (if not owned || leb (length c) 0
        then none
        else if ltb total (2 * length c) && not allow
        then none
        else some c)
      ≡ some del
    → (owned ≡ true) × (del ≡ c) × (allow ≡ false → 2 * length del ≤ total)
picked_inv owned allow total c del h =
    let same : del ≡ c = ground arith in (ground arith, same, λ a. rw same (ground arith))

expected_inv :
    (owned allow : Bool) (lr tr del : List ℤ)
    → expected owned allow lr tr ≡ some del
    → (owned ≡ true)
      × (del ≡ keep (is_prunable lr tr) (sort_ints tr))
      × (allow ≡ false → 2 * length del ≤ length tr)
expected_inv owned allow lr tr del h = picked_inv owned allow (length tr) _ del h

-- Every planned deletion respects the rails, and without the override it is at most half of what the
-- target has of the ID.
pub plan_mirror-IsAllowed :
    (local target : List Bytes) (own : Bytes → Bool) (allow : Bool) (id : Bytes) (del : List ℤ)
    → lookup id (plan_mirror local target own allow).delete ≡ some del
    → ((r : ℤ) → contains del r ≡ true → IsAllowed own local target id r)
      × (allow ≡ false → 2 * length del ≤ length (revisions_of id target))
plan_mirror-IsAllowed local target own allow id del h =
    let (mine, d, few) =
      expected_inv _ allow _ _ del (sym (plan_mirror-expected local target own allow id) ∙ h) in
    let lr = revisions_of id local in
    let tr = revisions_of id target in
    (
      (λ r m.
          let both = sym (contains-keep (is_prunable lr tr) (sort_ints tr) r) ∙ (rw d at m) in
          record {
            owned = mine;
            on_target = ground (arith, both, contains-sort_ints tr r);
            not_local = ground (arith, both);
            target_has_later = ground (arith, both);
            local_has_later = ground (arith, both);
          }),
      few,
    )

-- The newest revision of an ID on the target stays there.
plan_mirror_keeps_newest :
    (local target : List Bytes) (own : Bytes → Bool) (allow : Bool) (id : Bytes) (del : List ℤ)
    (t : ℤ)
    → lookup id (plan_mirror local target own allow).delete ≡ some del
    → any_of (λ r. ltb_ℤ t r) (revisions_of id target) ≡ false
    → contains del t ≡ false
plan_mirror_keeps_newest local target own allow id del t h newest =
    let (mine, d, few) =
      expected_inv _ allow _ _ del (sym (plan_mirror-expected local target own allow id) ∙ h) in
    let lr = revisions_of id local in
    let tr = revisions_of id target in
    rw (d, contains-keep (is_prunable lr tr) (sort_ints tr) t) (ground (arith, newest))
