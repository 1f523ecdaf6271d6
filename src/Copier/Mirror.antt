-- ===== src/Copier/Mirror.antt =====
-- internal/copier/mirror.go: which revisions a mirror pass deletes from a target, and what is
-- refused.
use archiver.Shared.{
  Bool, Bytes, List, Option, [], atoi, codes, contains, decimal, get_last_or, if◌then◌else◌, insert,
  keep, length, lookup, ltb, ltb_ℤ, none, not, pos, some, sort_ints, ℕ, ℤ, ◌&&◌, ◌*◌, ◌++◌, ◌+◌,
  ◌==◌, ◌∷◌, nat_eq, bytes_eq, int_eq,
}
pub mod Lists
pub mod Rails

-- Two byte strings around the last byte `c` (strings.LastIndexByte); `none` if there is none.
unfoldable pub cut_last : ℕ → Bytes → Option (Bytes × Bytes)
cut_last c [] = none
cut_last c (x ∷ s) = elim (cut_last c s) [
  | some (a, b) ↦ some (x ∷ a, b)
  | none ↦ if x == c then some ([], s) else none
]

-- The loop body of `byID` on one "id:revision" entry; `none` is its `continue`.
unfoldable pub parse_entry : Bytes → Option (Bytes × ℤ)
unfolding cut_last
parse_entry k = elim (cut_last b':' k) [
  | none ↦ none
  | some (id, digits) ↦ elim (atoi digits) [ none ↦ none | some n ↦ some (id, n) ]
]

abbrev pub Revisions : Type 0
Revisions = List (Bytes × List ℤ)

-- A missing key reads as no revisions.
abbrev pub get : Bytes → Revisions → List ℤ
get id m = elim (lookup id m) [ none ↦ [] | some ns ↦ ns ]

-- `out[id] = append(out[id], n)`
unfoldable pub append_at : Bytes → ℤ → Revisions → Revisions
append_at id n m = insert id (get id m ++ n ∷ []) m

add_entry : Option (Bytes × ℤ) → Revisions → Revisions
add_entry none m = m
add_entry (some (id, n)) m = append_at id n m

unfoldable pub group : Revisions → List Bytes → Revisions
unfolding add_entry append_at parse_entry
group m [] = m
group m (k ∷ ks) = group (add_entry (parse_entry k) m) ks

unfoldable pub sort_all : Revisions → Revisions
sort_all [] = []
sort_all ((id, ns) ∷ m) = (id, sort_ints ns) ∷ sort_all m

-- `byID`, on the keys of the set in any order
unfoldable pub by_id : List Bytes → Revisions
unfolding group sort_all
by_id keys = sort_all (group [] keys)

-- `MirrorPlan`
pub record MirrorPlan : Type 0 where
  pub delete : List (Bytes × List ℤ)
  pub refused : List (Bytes × Bytes)

-- What one round of `PlanMirror`'s loop decides for an ID.
pub data Outcome : Type 0 where
  leave : Outcome
  remove : List ℤ → Outcome
  refuse : Bytes → Outcome

-- "would delete %d of %d revisions"
refusal : ℕ → ℕ → Bytes
refusal deleted total =
    codes "would delete " ++ decimal deleted ++ codes " of " ++ decimal total ++ codes " revisions"

-- The revisions of `tr` that local lacks, but for the newest on the target and those past local's
-- newest.
unfoldable pub deletions : List ℤ → List ℤ → List ℤ
deletions lr tr =
    let local_newest = get_last_or lr (pos 0) in
    let target_newest = get_last_or tr (pos 0) in
    keep (λ r. not (contains lr r) && (not (r == target_newest) && ltb_ℤ r local_newest)) tr

pub judge : Bool → List ℤ → List ℤ → Outcome
unfolding refusal
judge allow_large [] tr = leave
judge allow_large (d ∷ ds) tr =
    if ltb (length tr) (2 * length (d ∷ ds)) && not allow_large
    then refuse (refusal (length (d ∷ ds)) (length tr))
    else remove (d ∷ ds)

unfoldable pub outcome : Bool → List ℤ → List ℤ → Outcome
unfolding judge deletions
outcome allow_large [] tr = leave
outcome allow_large (l ∷ ls) tr = judge allow_large (deletions (l ∷ ls) tr) tr

unfoldable pub carry_out : Bytes → Outcome → MirrorPlan → MirrorPlan
carry_out id leave plan = plan
carry_out id (remove del) plan = record plan { delete = insert id del plan.delete }
carry_out id (refuse why) plan = record plan { refused = insert id why plan.refused }

-- The loop of `PlanMirror` over the target's IDs.
unfoldable pub plan_loop : (Bytes → Bool) → Bool → Revisions → Revisions → MirrorPlan → MirrorPlan
unfolding outcome carry_out
plan_loop own allow_large lrevs [] plan = plan
plan_loop own allow_large lrevs ((id, tr) ∷ trevs) plan =
    plan_loop own allow_large lrevs trevs
      (if own id then carry_out id (outcome allow_large (get id lrevs) tr) plan else plan)

abbrev pub empty_plan : MirrorPlan
empty_plan = record { delete = []; refused = [] }

-- `PlanMirror`
unfoldable pub plan_mirror : List Bytes → List Bytes → (Bytes → Bool) → Bool → MirrorPlan
unfolding by_id plan_loop
plan_mirror local target own allow_large =
    plan_loop own allow_large (by_id local) (by_id target) empty_plan

-- `MirrorPlan.Deletions`
unfoldable pub count_deletions : List (Bytes × List ℤ) → ℕ
count_deletions [] = 0
count_deletions ((id, revs) ∷ m) = length revs + count_deletions m
