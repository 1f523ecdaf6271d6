-- ===== src/Copier/Upkeep/Deleting.antt =====
-- What a mirror pass deletes on a target (internal/copier/upkeep.go, `applyMirror`).
use archiver.Shared.{
  ==→eq, All, All-append, Bool, Bool-cases, Bytes, List, List-cases, Option-cases, [], arith,
  contains, contains-keep, false, has_key, if◌then◌else◌, inl, inr, keep, length, length-keep,
  lookup, lookup-has_key, not, refl, some, sym, true, unique_keys, unique_keys-insert, ℤ, ◌*◌, ◌++◌,
  ◌==◌, ◌∙◌, ◌∷◌, ◌≡◌, ◌≤◌, nat_eq, bytes_eq, int_eq,
}
use archiver.Inuse.{Set, has}
use archiver.Copier.Mirror.{
  by_id, MirrorPlan, Outcome, Revisions, carry_out, empty_plan, get, leave, plan_loop, plan_mirror,
  refuse, remove,
}
use archiver.Copier.Mirror.Lists.{revisions_of}
use archiver.Copier.Mirror.Rails.{IsAllowed, plan_mirror-IsAllowed}
use archiver.Copier.Upkeep.{
  MirrorCommand, Mirrored, RunEnd, Target, apply_mirror, broke, carry_out_plan, collect_fossils,
  go_on, halted, leave_id, leave_in_use, mirror_all, mirror_delete, worked,
}

-- A command that deletes only revisions that the rails allow, of a plan for the ID that the rails
-- allow as a whole, and that no reader has registered: what is left of such a plan.
abbrev pub IsSafe : (Bytes → Bool) → Bool → Set → List Bytes → List Bytes → MirrorCommand → Type 0
IsSafe own allow busy local listed (mirror_delete id revs) =
    ((r : ℤ) → contains revs r ≡ true → (has busy id r ≡ false) × IsAllowed own local listed id r)
    × (allow ≡ false → 2 * length revs ≤ length (revisions_of id listed))
IsSafe own allow busy local listed collect_fossils = Unit

get-absent : (id : Bytes) (m : Revisions) → has_key id m ≡ false → get id m ≡ []
get-absent id m h = rw (get, lookup-has_key id m h)

get-here :
    (id j : Bytes) (revs : List ℤ) (m : Revisions)
    → (j == id) ≡ true
    → get id ((j, revs) ∷ m) ≡ revs
get-here id j revs m same =
    let found : lookup id ((j, revs) ∷ m) ≡ some revs = rw same in rw (get, found)

get-there :
    (id j : Bytes) (revs : List ℤ) (m : Revisions)
    → (j == id) ≡ false
    → get id ((j, revs) ∷ m) ≡ get id m
get-there id j revs m other =
    let passed : lookup id ((j, revs) ∷ m) ≡ lookup id m = rw other in rw (get, passed)

has_key-leave_in_use :
    (busy : Set) (plan : Revisions) (id : Bytes)
    → has_key id plan ≡ false
    → has_key id (leave_in_use busy plan) ≡ false
unfolding leave_in_use leave_id
has_key-leave_in_use busy [] id h = refl
has_key-leave_in_use busy ((j, revs) ∷ plan) id h =
    elim (List-cases (keep (λ r. not (has busy j r)) revs)) [
      | inl nothing ↦ rw nothing (has_key-leave_in_use busy plan id (ground arith))
      | inr (r, rs, left) ↦ rw left (ground (arith, has_key-leave_in_use busy plan id))
    ]

-- What is left of a plan is, of each ID, what no reader has registered.
pub get-leave_in_use :
    (busy : Set) (plan : Revisions) (id : Bytes)
    → unique_keys plan ≡ true
    → get id (leave_in_use busy plan) ≡ keep (λ r. not (has busy id r)) (get id plan)
unfolding leave_in_use leave_id
get-leave_in_use busy [] id u = refl
get-leave_in_use busy ((j, revs) ∷ plan) id u = elim (Bool-cases (j == id)) [
  | inl same ↦
      let j_id : j ≡ id = ==→eq j id same in
      let alone : has_key j plan ≡ false = ground arith in
      elim (List-cases (keep (λ r. not (has busy j r)) revs)) [
        | inl nothing ↦
            let nothing_id = rw j_id at nothing in
            rw (nothing, get-here id j revs plan same, nothing_id)
              (get-absent id (leave_in_use busy plan)
                (has_key-leave_in_use busy plan id (rw j_id at alone)))
        | inr (r, rs, left) ↦
            let left_id = rw j_id at left in
            rw (
              left,
              get-here id j (r ∷ rs) (leave_in_use busy plan) same,
              get-here id j revs plan same,
              left_id,
            )
      ]
  | inr other ↦ elim (List-cases (keep (λ r. not (has busy j r)) revs)) [
    | inl nothing ↦
        rw (nothing, get-there id j revs plan other) (get-leave_in_use busy plan id (ground arith))
    | inr (r, rs, left) ↦
        rw
          (
            left,
            get-there id j (r ∷ rs) (leave_in_use busy plan) other,
            get-there id j revs plan other,
          )
          (get-leave_in_use busy plan id (ground arith))
  ]
]

unique_keys-carry_out :
    (id : Bytes) (o : Outcome) (plan : MirrorPlan)
    → unique_keys plan.delete ≡ true
    → unique_keys (carry_out id o plan).delete ≡ true
unfolding carry_out
unique_keys-carry_out id leave plan u = u
unique_keys-carry_out id (remove del) plan u = unique_keys-insert id del plan.delete u
unique_keys-carry_out id (refuse why) plan u = u

unique_keys-either :
    (b : Bool) (p q : MirrorPlan)
    → unique_keys p.delete ≡ true
    → unique_keys q.delete ≡ true
    → unique_keys (if b then p else q).delete ≡ true
unique_keys-either true p q hp hq = hp
unique_keys-either false p q hp hq = hq

unique_keys-plan_loop :
    (own : Bytes → Bool) (allow : Bool) (lrevs trevs : Revisions) (plan : MirrorPlan)
    → unique_keys plan.delete ≡ true
    → unique_keys (plan_loop own allow lrevs trevs plan).delete ≡ true
unfolding plan_loop
unique_keys-plan_loop own allow lrevs [] plan u = u
unique_keys-plan_loop own allow lrevs ((id, revs) ∷ trevs) plan u =
    unique_keys-plan_loop own allow lrevs trevs _
      (unique_keys-either (own id) _ plan (unique_keys-carry_out id _ plan u) u)

unique_keys-plan_mirror :
    (local listed : List Bytes) (own : Bytes → Bool) (allow : Bool)
    → unique_keys (plan_mirror local listed own allow).delete ≡ true
unfolding plan_mirror
unique_keys-plan_mirror local listed own allow =
    unique_keys-plan_loop own allow (by_id local) (by_id listed) empty_plan refl

go_on-All :
    (P : MirrorCommand → Type 0) (done : List MirrorCommand) (e : RunEnd) (rest : Mirrored)
    → All P done
    → All P rest.commands
    → All P (go_on done e rest).commands
unfolding go_on
go_on-All P done worked rest h hr = hr
go_on-All P done broke rest h hr = h
go_on-All P done halted rest h hr = h

mirror_all-All :
    (P : MirrorCommand → Type 0) (target : Target) (plan : Revisions) (ids : List Bytes)
    (done : List MirrorCommand)
    → ((id : Bytes) → P (mirror_delete id (get id plan)))
    → All P done
    → All P (mirror_all target plan ids done).commands
unfolding mirror_all
mirror_all-All P target plan [] done each h = h
mirror_all-All P target plan (id ∷ ids) done each h =
    let command = mirror_delete id (get id plan) in
    let h' = All-append P done (command ∷ []) h (each id, tt) in
    go_on-All P (done ++ command ∷ []) (target done command) _ h'
      (mirror_all-All P target plan ids (done ++ command ∷ []) each h')

carry_out_plan-All :
    (P : MirrorCommand → Type 0) (target : Target) (plan : Revisions)
    → ((id : Bytes) → P (mirror_delete id (get id plan)))
    → P collect_fossils
    → All P (carry_out_plan target plan).commands
unfolding carry_out_plan
carry_out_plan-All P target [] each h = (h, tt)
carry_out_plan-All P target (e ∷ plan) each h = mirror_all-All P target (e ∷ plan) _ [] each tt

-- What the plan deletes of an ID, as a list that may be empty.
allowed :
    (local listed : List Bytes) (own : Bytes → Bool) (allow : Bool) (id : Bytes)
    → let del = get id (plan_mirror local listed own allow).delete in
      ((r : ℤ) → contains del r ≡ true → IsAllowed own local listed id r)
      × (allow ≡ false → 2 * length del ≤ length (revisions_of id listed))
allowed local listed own allow id =
    elim (Option-cases (lookup id (plan_mirror local listed own allow).delete)) [
      | inl absent ↦ rw (get, absent) ((λ r m. absurd (cc m)), (λ a. omega arith))
      | inr (del, there) ↦
          rw (get, there) (plan_mirror-IsAllowed local listed own allow id del there)
    ]

-- Every deletion of a mirror pass, however it ends, is of revisions of an owned ID that the target has
-- and local lacks, older than the newest on each, and registered by no reader; without the override it
-- is at most half of what the target has of the ID.
pub apply_mirror-IsSafe :
    (target : Target) (own : Bytes → Bool) (allow : Bool) (busy : Set) (local listed : List Bytes)
    → All
        (IsSafe own allow busy local listed)
        (apply_mirror target own allow (some busy) local listed).commands
unfolding apply_mirror
apply_mirror-IsSafe target own allow busy local listed =
    let plan = (plan_mirror local listed own allow).delete in
    carry_out_plan-All (IsSafe own allow busy local listed) target (leave_in_use busy plan)
      (λ id.
        let (each, few) = allowed local listed own allow id in
        let e = get-leave_in_use busy plan id (unique_keys-plan_mirror local listed own allow) in
        (
          (λ r m.
              let both =
                sym (contains-keep (λ r. not (has busy id r)) (get id plan) r) ∙ (rw e at m) in
              (ground (arith, both), each r (ground (arith, both)))),
          (λ a. rw e (omega (arith, few a, length-keep (λ r. not (has busy id r)) (get id plan)))),
        ))
      tt
