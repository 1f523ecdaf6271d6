-- ===== src/Localprune/Complete.antt =====
-- A prune that reports no error has deleted everything the policy selects that is not in use, and one
-- whose commands all work reports none (run.go).
use archiver.Shared.{
  Bool, Bool-cases, Bytes, List, Option, [], any_of, any_of-append, ap, arith, contains,
  contains-sort_texts, false, has_key, inl, inr, keep, leb, length, lookup-has_key, none, not, refl,
  some, sort_texts, sym, true, ◌++◌, ◌==◌, ◌||◌, ◌∙◌, ◌∷◌, ◌≡◌, ◌≢◌, nat_eq, bytes_eq, int_eq,
}
use archiver.Copier.Mirror.{Revisions, get}
use archiver.Inuse.{Set, has}
use archiver.Localprune.{split}
use archiver.Localprune.Split.{split-get}
use archiver.Localprune.Spares.{dry_plan, unique_keys-planned}
use archiver.Localprune.Prune.{
  Options, Command, dry_run, delete_revisions, reclaim, reclaim_exhaustive, Duplicacy, Pruned,
  Error, delete_all, delete_planned, prune, run, keys_of, give, reclaim_after,
}

-- Whether a command deletes revisions of an ID.
abbrev pub deletes : Bytes → Command → Bool
deletes id dry_run = false
deletes id (delete_revisions j revs) = j == id
deletes id reclaim = false
deletes id reclaim_exhaustive = false

contains-keys_of : (m : Revisions) (id : Bytes) → contains (keys_of m) id ≡ has_key id m
unfolding keys_of
contains-keys_of [] id = refl
contains-keys_of ((j, revs) ∷ m) id = ap (λ b. j == id || b) (contains-keys_of m id)

has_key_of_get : (m : Revisions) (id : Bytes) → get id m ≢ [] → has_key id m ≡ true
has_key_of_get m id n = elim (Bool-cases (has_key id m)) [
  | inl there ↦ there
  | inr missing ↦ absurd (n (rw (get, lookup-has_key id m missing)))
]

delete_all-deletes :
    (duplicacy : Duplicacy) (ready : Revisions) (ids : List Bytes) (done : List Command)
    (id : Bytes)
    → (delete_all duplicacy ready ids done).error ≡ none
    → any_of (deletes id) (delete_all duplicacy ready ids done).commands
      ≡ (any_of (deletes id) done || contains ids id)
unfolding delete_all
delete_all-deletes duplicacy ready [] done id h = ground arith
delete_all-deletes duplicacy ready (j ∷ ids) done id h =
    let command = delete_revisions j (get j ready) in
    elim (Bool-cases (duplicacy done command).failed) [
      | inl failed ↦ let h' = rw failed at h in cc
      | inr worked ↦
          let h' = rw worked at h in
          rw worked (
            delete_all-deletes duplicacy ready ids (done ++ command ∷ []) id h'
            ∙ rw (any_of-append (deletes id) done (command ∷ [])) (ground arith))
    ]

any_of-left {ℓ} :
    {A : Type ℓ} (p : A → Bool) (xs ys : List A) → any_of p xs ≡ true → any_of p (xs ++ ys) ≡ true
any_of-left p xs ys h = rw (any_of-append p xs ys, h)

reclaim_after-deletes :
    (duplicacy : Duplicacy) (exhaustive : Bool) (p : Pruned) (e : Option Error) (id : Bytes)
    → any_of (deletes id) p.commands ≡ true
    → any_of (deletes id) (reclaim_after duplicacy exhaustive p e).commands ≡ true
unfolding reclaim_after give
reclaim_after-deletes duplicacy exhaustive p (some e) id h = h
reclaim_after-deletes duplicacy true p none id h = any_of-left (deletes id) p.commands _ h
reclaim_after-deletes duplicacy false p none id h = elim (Bool-cases p.deleted) [
  | inl done ↦ rw done h
  | inr nothing ↦ rw nothing (any_of-left (deletes id) p.commands _ h)
]

reclaim_after-error :
    (duplicacy : Duplicacy) (exhaustive : Bool) (p : Pruned) (e : Option Error)
    → e ≡ p.error
    → (reclaim_after duplicacy exhaustive p e).error ≡ none
    → p.error ≡ none
unfolding reclaim_after
reclaim_after-error duplicacy exhaustive p none same h = sym same
reclaim_after-error duplicacy exhaustive p (some e) same h = h

selected :
    (duplicacy : Duplicacy) (busy : Set) (id : Bytes)
    → get id (split (dry_plan duplicacy) (has busy)).ready
      ≡ keep (λ r. not (has busy id r)) (get id (dry_plan duplicacy))
selected duplicacy busy id =
    (split-get (has busy) (dry_plan duplicacy) id
      (unique_keys-planned (duplicacy [] dry_run).output)).0

nonempty_key : (m : Revisions) (id : Bytes) → has_key id m ≡ true → leb (length m) 0 ≡ false
nonempty_key [] id h = cc
nonempty_key (e ∷ m) id h = ground arith

prune-deletes :
    (duplicacy : Duplicacy) (busy : Set) (id : Bytes)
    → (prune duplicacy true (some busy)).error ≡ none
    → keep (λ r. not (has busy id r)) (get id (dry_plan duplicacy)) ≢ []
    → any_of (deletes id) (prune duplicacy true (some busy)).commands ≡ true
unfolding prune delete_planned
prune-deletes duplicacy busy id h n =
    let ready = (split (dry_plan duplicacy) (has busy)).ready in
    let there = has_key_of_get ready id (λ e. n (sym (selected duplicacy busy id) ∙ e)) in
    elim (Bool-cases (duplicacy [] dry_run).failed) [
      | inl failed ↦ let h' = rw failed at h in cc
      | inr worked ↦
          let h' = rw (worked, nonempty_key ready id there) at h in
          rw (worked, nonempty_key ready id there)
            (delete_all-deletes duplicacy ready (sort_texts (keys_of ready)) (dry_run ∷ []) id h'
              ∙ (contains-sort_texts (keys_of ready) id ∙ (contains-keys_of ready id ∙ there)))
    ]

-- A local prune that ends without an error has given a deletion for every ID of which the policy
-- selects a revision that is not in use.
pub run-deletes :
    (duplicacy : Duplicacy) (o : Options) (busy : Set) (id : Bytes)
    → (run duplicacy o true (some busy)).error ≡ none
    → keep (λ r. not (has busy id r)) (get id (dry_plan duplicacy)) ≢ []
    → any_of (deletes id) (run duplicacy o true (some busy)).commands ≡ true
unfolding run
run-deletes duplicacy o busy id h n =
    let p = prune duplicacy true (some busy) in
    reclaim_after-deletes duplicacy o.exhaustive p p.error id (
      prune-deletes duplicacy busy id (reclaim_after-error duplicacy o.exhaustive p p.error refl h)
        n)

delete_all-error :
    (duplicacy : Duplicacy) (ready : Revisions) (ids : List Bytes) (done : List Command)
    → ((history : List Command) (c : Command) → (duplicacy history c).failed ≡ false)
    → (delete_all duplicacy ready ids done).error ≡ none
unfolding delete_all
delete_all-error duplicacy ready [] done works = refl
delete_all-error duplicacy ready (j ∷ ids) done works =
    rw (works done (delete_revisions j (get j ready)))
      (delete_all-error duplicacy ready ids _ works)

prune-error :
    (duplicacy : Duplicacy) (busy : Set)
    → ((history : List Command) (c : Command) → (duplicacy history c).failed ≡ false)
    → (prune duplicacy true (some busy)).error ≡ none
unfolding prune delete_planned
prune-error duplicacy busy works =
    let ready = (split (dry_plan duplicacy) (has busy)).ready in
    elim (Bool-cases (leb (length ready) 0)) [
      | inl nothing ↦ rw (works [] dry_run, nothing)
      | inr something ↦
          rw (works [] dry_run, something)
            (delete_all-error duplicacy ready (sort_texts (keys_of ready)) (dry_run ∷ []) works)
    ]

reclaim_after_works :
    (duplicacy : Duplicacy) (exhaustive : Bool) (p : Pruned) (e : Option Error)
    → ((history : List Command) (c : Command) → (duplicacy history c).failed ≡ false)
    → e ≡ none
    → p.error ≡ none
    → (reclaim_after duplicacy exhaustive p e).error ≡ none
unfolding reclaim_after give
reclaim_after_works duplicacy exhaustive p (some e) works h k = cc
reclaim_after_works duplicacy true p none works h k = rw (works p.commands reclaim_exhaustive)
reclaim_after_works duplicacy false p none works h k = elim (Bool-cases p.deleted) [
  | inl done ↦ rw done k
  | inr nothing ↦ rw (nothing, works p.commands reclaim)
]

-- A local prune under its gate, whose commands all work, ends without an error.
run-error :
    (duplicacy : Duplicacy) (o : Options) (busy : Set)
    → ((history : List Command) (c : Command) → (duplicacy history c).failed ≡ false)
    → (run duplicacy o true (some busy)).error ≡ none
unfolding run
run-error duplicacy o busy works =
    let h = prune-error duplicacy busy works in
    reclaim_after_works duplicacy o.exhaustive (prune duplicacy true (some busy)) _ works h h
