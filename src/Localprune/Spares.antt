-- ===== src/Localprune/Spares.antt =====
-- A prune deletes what the policy selects and nothing in use (run.go), and so leaves alone whatever a
-- copy worker has registered (internal/copier/worker.go, `revisions`).
use archiver.Shared.{
  ==→eq, All, All-append, All-map, Bool, Bool-cases, Bytes, List, Option, [], arith, contains,
  contains-keep, false, inl, inr, keep, leb, length, none, not, refl, some, true, unique_keys,
  unique_keys-insert, ℤ, ◌&&◌, ◌++◌, ◌==◌, ◌∷◌, ◌≡◌, nat_eq, bytes_eq, int_eq,
}
use archiver.Copier.Mirror.{Revisions, get, append_at}
use archiver.Copier.Mirror.Lists.{unique_keys-sort_all}
use archiver.Inuse.{Set, has}
use archiver.Localprune.{planned, planned_loop, plan_match, find_deleting, seen_key, split}
use archiver.Localprune.Split.{split-get}
use archiver.Localprune.Prune.{
  Options, Command, dry_run, delete_revisions, reclaim, reclaim_exhaustive, Duplicacy, Pruned,
  Error, delete_all, delete_planned, prune, run, give, reclaim_after,
}

-- What a command deletes, held against the plan of the dry run and the registry: nothing, or of one
-- ID exactly its planned revisions that no reader has registered.
abbrev pub IsSparing : Set → Revisions → Command → Type 0
IsSparing busy plan dry_run = Unit
IsSparing busy plan (delete_revisions id revs) =
    revs ≡ keep (λ r. not (has busy id r)) (get id plan)
IsSparing busy plan reclaim = Unit
IsSparing busy plan reclaim_exhaustive = Unit

unique_keys-plan_match :
    (o : Option (Bytes × Bytes)) (seen : List Bytes) (out : Revisions)
    → unique_keys out ≡ true
    → unique_keys (plan_match o (seen, out)).1 ≡ true
unfolding plan_match append_at
unique_keys-plan_match none seen out u = u
unique_keys-plan_match (some (id, digits)) seen out u =
    elim (Bool-cases (contains seen (seen_key id digits))) [
      | inl again ↦ rw again u
      | inr fresh ↦ rw fresh (unique_keys-insert id _ out u)
    ]

unique_keys-planned_loop :
    (lines : List Bytes) (st : List Bytes × Revisions)
    → unique_keys st.1 ≡ true
    → unique_keys (planned_loop st lines) ≡ true
unfolding planned_loop
unique_keys-planned_loop [] (seen, out) u = u
unique_keys-planned_loop (l ∷ ls) (seen, out) u =
    unique_keys-planned_loop ls (plan_match (find_deleting l) (seen, out))
      (unique_keys-plan_match (find_deleting l) seen out u)

pub unique_keys-planned : (lines : List Bytes) → unique_keys (planned lines) ≡ true
unfolding planned
unique_keys-planned lines = unique_keys-sort_all _ (unique_keys-planned_loop lines ([], []) refl)

delete_all-IsSparing :
    (duplicacy : Duplicacy) (busy : Set) (plan ready : Revisions) (ids : List Bytes)
    (done : List Command)
    → ((id : Bytes) → get id ready ≡ keep (λ r. not (has busy id r)) (get id plan))
    → All (IsSparing busy plan) done
    → All (IsSparing busy plan) (delete_all duplicacy ready ids done).commands
unfolding delete_all
delete_all-IsSparing duplicacy busy plan ready [] done fits h = h
delete_all-IsSparing duplicacy busy plan ready (id ∷ ids) done fits h =
    let command = delete_revisions id (get id ready) in
    let h' = All-append (IsSparing busy plan) done (command ∷ []) h (fits id, tt) in
    elim (Bool-cases (duplicacy done command).failed) [
      | inl failed ↦ rw failed h'
      | inr worked ↦
          rw worked
            (delete_all-IsSparing duplicacy busy plan ready ids (done ++ command ∷ []) fits h')
    ]

-- What the dry run of a prune planned.
abbrev pub dry_plan : Duplicacy → Revisions
dry_plan duplicacy = planned (duplicacy [] dry_run).output

prune-IsSparing :
    (duplicacy : Duplicacy) (busy : Set)
    → All (IsSparing busy (dry_plan duplicacy)) (prune duplicacy true (some busy)).commands
unfolding prune delete_planned
prune-IsSparing duplicacy busy = elim (Bool-cases (duplicacy [] dry_run).failed) [
  | inl failed ↦ rw failed (tt, tt)
  | inr worked ↦ elim (Bool-cases (leb (length (split (dry_plan duplicacy) (has busy)).ready) 0)) [
    | inl nothing ↦ rw (worked, nothing) (tt, tt)
    | inr something ↦
        rw (worked, something)
          (delete_all-IsSparing duplicacy busy (dry_plan duplicacy) _ _ (dry_run ∷ [])
            (λ id.
              (split-get (has busy) (dry_plan duplicacy) id
                (unique_keys-planned (duplicacy [] dry_run).output)).0)
            (tt, tt))
  ]
]

reclaim_after-IsSparing :
    (duplicacy : Duplicacy) (busy : Set) (plan : Revisions) (exhaustive : Bool) (p : Pruned)
    (e : Option Error)
    → All (IsSparing busy plan) p.commands
    → All (IsSparing busy plan) (reclaim_after duplicacy exhaustive p e).commands
unfolding reclaim_after give
reclaim_after-IsSparing duplicacy busy plan exhaustive p (some e) h = h
reclaim_after-IsSparing duplicacy busy plan true p none h =
    All-append (IsSparing busy plan) p.commands (reclaim_exhaustive ∷ []) h (tt, tt)
reclaim_after-IsSparing duplicacy busy plan false p none h = elim (Bool-cases p.deleted) [
  | inl done ↦ rw done h
  | inr nothing ↦ rw nothing (All-append (IsSparing busy plan) p.commands (reclaim ∷ []) h (tt, tt))
]

-- Whatever fails on the way, each deletion that a local prune makes is of exactly the revisions of
-- an ID that the policy selects and no reader has registered.
pub run-IsSparing :
    (duplicacy : Duplicacy) (o : Options) (busy : Set)
    → All (IsSparing busy (dry_plan duplicacy)) (run duplicacy o true (some busy)).commands
unfolding run
run-IsSparing duplicacy o busy =
    reclaim_after-IsSparing duplicacy busy (dry_plan duplicacy) o.exhaustive _ _
      (prune-IsSparing duplicacy busy)

-- A command that does not delete one revision.
abbrev pub Leaves : Bytes → ℤ → Command → Type 0
Leaves id n dry_run = Unit
Leaves id n (delete_revisions j revs) = (j == id && contains revs n) ≡ false
Leaves id n reclaim = Unit
Leaves id n reclaim_exhaustive = Unit

IsSparing-Leaves :
    (busy : Set) (plan : Revisions) (id : Bytes) (n : ℤ) (c : Command)
    → has busy id n ≡ true
    → IsSparing busy plan c
    → Leaves id n c
IsSparing-Leaves busy plan id n dry_run used s = tt
IsSparing-Leaves busy plan id n (delete_revisions j revs) used s = elim (Bool-cases (j == id)) [
  | inl same ↦
      rw (same, s, ==→eq j id same, contains-keep (λ r. not (has busy id r)) (get id plan) n, used)
        (ground arith)
  | inr other ↦ rw other
]
IsSparing-Leaves busy plan id n reclaim used s = tt
IsSparing-Leaves busy plan id n reclaim_exhaustive used s = tt

-- A local prune deletes no revision that the registry holds.
pub run-Leaves :
    (duplicacy : Duplicacy) (o : Options) (busy : Set) (id : Bytes) (n : ℤ)
    → has busy id n ≡ true
    → All (Leaves id n) (run duplicacy o true (some busy)).commands
run-Leaves duplicacy o busy id n used =
    All-map (IsSparing busy (dry_plan duplicacy)) (Leaves id n) _
      (λ c. IsSparing-Leaves busy (dry_plan duplicacy) id n c used) (run-IsSparing duplicacy o busy)
