-- ===== src/Restore/Auto/Outcome.antt =====
-- From where a restore takes which revision, and its exit code (internal/restore/auto.go).
use archiver.Shared.{
  ==_refl, Bool, Bool-cases, Bytes, IsSorted, List, Option, [], all_of, ap, arith, atoi_value,
  codes, contains, contains-sort_ints, false, get_last_or, if◌then◌else◌, inl, inr, le_last, leb_ℤ,
  length, neg_part, none, not, pos_part, refl, some, sort_ints, sort_ints-IsSorted, split_lines,
  subst, suc, sym, true, ℕ, ℤ, ◌&&◌, ◌+◌, ◌==◌, ◌||◌, ◌∙◌, ◌∷◌, ◌≡◌, ◌≤◌, nat_eq, bytes_eq, int_eq,
}
use archiver.Restore.Auto.{
  ok, not_found, unreachable, busy, Storage, Request, listed_revisions, reverse_onto,
  parse_revisions, pick, Act, connect, list, restore, run_hook, Ran, finish, restore_from,
  after_acts, Look, no_connection, no_listing, lacking, has_revision, look, try_storage,
  try_storages, run,
}

-- What acts restored.
abbrev pub restored : List Act → List (Bytes × ℤ)
restored [] = []
restored (restore name rev ∷ acts) = (name, rev) ∷ restored acts
restored (connect name ∷ acts) = restored acts
restored (list name ∷ acts) = restored acts
restored (run_hook name rev ∷ acts) = restored acts

abbrev pub found_in : Look → Option ℤ
found_in (has_revision rev) = some rev
found_in no_connection = none
found_in no_listing = none
found_in lacking = none

abbrev pub cannot_tell : Look → Bool
cannot_tell no_connection = true
cannot_tell no_listing = true
cannot_tell lacking = false
cannot_tell (has_revision rev) = false

abbrev pub first_of : Storage → Option ℤ → Option (Storage × ℤ) → Option (Storage × ℤ)
first_of t none rest = rest
first_of t (some rev) rest = some (t, rev)

-- The first storage that has the revision, and the revision.
abbrev pub first_with : Request → List Storage → Option (Storage × ℤ)
first_with q [] = none
first_with q (t ∷ ts) = first_of t (found_in (look q t)) (first_with q ts)

-- What a restore from there does: what is restored, and the exit code; without one, whether no
-- storage could tell.
abbrev pub expected : Request → Bool → Option (Storage × ℤ) → List (Bytes × ℤ) × ℕ
expected q untold none = ([], if untold then unreachable else not_found)
expected q untold (some (t, rev)) =
    ((t.name, rev) ∷ [], if t.restores rev && (not q.hook || t.hook_ok) then ok else not_found)

abbrev pub none_tells : Request → List Storage → Bool
none_tells q ts = all_of (λ t. cannot_tell (look q t)) ts

abbrev pub result : Ran → List (Bytes × ℤ) × ℕ
result r = (restored r.acts, r.code)

restore_from_result :
    (q : Request) (untold : Bool) (t : Storage) (rev : ℤ)
    → result (restore_from q t rev) ≡ expected q untold (some (t, rev))
unfolding restore_from finish
restore_from_result q untold t rev = ground arith

-- One storage, if the loop goes on as expected.
try_storage_result :
    (q : Request) (t : Storage) (l : Look) (rest : ℕ → Ran) (total failed left : ℕ) (untold : Bool)
    (later : Option (Storage × ℤ))
    → failed + suc left ≤ total
    → ((k : ℕ)
        → k + left ≤ total
        → result (rest k) ≡ expected q (k + left == total && untold) later)
    → result (try_storage q t l rest failed)
      ≡ expected q
          (failed + suc left == total && (cannot_tell l && untold))
          (first_of t (found_in l) later)
unfolding try_storage after_acts
try_storage_result q t no_connection rest total failed left untold later h onward =
    onward (suc failed) (omega (arith, h)) ∙ ap (λ b. expected q b later) (ground arith)
try_storage_result q t no_listing rest total failed left untold later h onward =
    onward (suc failed) (omega (arith, h)) ∙ ap (λ b. expected q b later) (ground arith)
try_storage_result q t lacking rest total failed left untold later h onward =
    onward failed (omega (arith, h)) ∙ ap (λ b. expected q b later) (ground (arith, h))
try_storage_result q t (has_revision rev) rest total failed left untold later h onward =
    restore_from_result q false t rev

-- The loop, with as many storages that could not tell so far.
try_storages_result :
    (q : Request) (total : ℕ) (ts : List Storage) (failed : ℕ)
    → failed + length ts ≤ total
    → result (try_storages q total ts failed)
      ≡ expected q (failed + length ts == total && none_tells q ts) (first_with q ts)
unfolding try_storages
try_storages_result q total [] failed h =
    ap (λ b. ([], if b then unreachable else not_found)) (ground arith)
try_storages_result q total (t ∷ ts) failed h =
    try_storage_result q t (look q t) (try_storages q total ts) total failed (length ts)
      (none_tells q ts) (first_with q ts) h (try_storages_result q total ts)

-- A restore whose directory could be made, which no backup or other restore keeps out and which has a
-- work directory restores once, from the first storage that has the revision, and the exit code says
-- how that and the hook ended; without such a storage it restores nothing, and the exit code says
-- whether any storage could tell. A restore that is kept out, or without a directory, restores
-- nothing, and has its own exit code.
pub run-result :
    (q : Request) (prepared guarded has_work : Bool) (ts : List Storage)
    → result (run q prepared guarded has_work ts) ≡ (
        if prepared && (guarded && has_work)
        then expected q (none_tells q ts) (first_with q ts)
        else ([], if prepared && not guarded then busy else unreachable))
unfolding run
run-result q false guarded has_work ts = refl
run-result q true false has_work ts = refl
run-result q true true false ts = refl
run-result q true true true ts =
    try_storages_result q (length ts) ts 0 (omega arith)
    ∙ ap (λ b. expected q b (first_with q ts)) (ground arith)

reverse_head :
    (x : ℤ) (xs acc : List ℤ)
    → (tail : List ℤ) × (reverse_onto (x ∷ xs) acc ≡ get_last_or xs x ∷ tail)
unfolding reverse_onto
reverse_head x [] acc = (acc, refl)
reverse_head x (y ∷ ys) acc = reverse_head y ys (x ∷ acc)

contains-reverse_onto :
    (xs acc : List ℤ) (a : ℤ) → contains (reverse_onto xs acc) a ≡ (contains xs a || contains acc a)
unfolding reverse_onto
contains-reverse_onto [] acc a = refl
contains-reverse_onto (x ∷ xs) acc a = ground (arith, contains-reverse_onto xs (x ∷ acc) a)

some_inj : {a b : ℤ} → ◌≡◌ {A = Option ℤ} (some a) (some b) → a ≡ b
some_inj {a} h = ap (λ o. elim o [ none ↦ a | some k ↦ k ]) h

pick-contains :
    (revs : List ℤ) (want : Bytes) (r : ℤ) → pick revs want ≡ some r → contains revs r ≡ true
unfolding pick
pick-contains [] want r h = absurd (cc)
pick-contains (x ∷ revs) want r h = elim (Bool-cases (want == codes "latest")) [
  | inl latest ↦ let e : x ≡ r = some_inj (rw latest at h) in rw (e, ==_refl r) refl
  | inr numbered ↦ elim (Bool-cases (contains (x ∷ revs) (atoi_value want))) [
    | inl there ↦
        subst (λ k. contains (x ∷ revs) k ≡ true) (some_inj (rw (numbered, there) at h)) there
    | inr gone ↦ absurd (ground (arith, rw (numbered, gone) at h))
  ]
]

pick_number :
    (revs : List ℤ) (want : Bytes) (r : ℤ)
    → (want == codes "latest") ≡ false
    → pick revs want ≡ some r
    → r ≡ atoi_value want
unfolding pick
pick_number [] want r numbered h = absurd (cc)
pick_number (x ∷ revs) want r numbered h =
    elim (Bool-cases (contains (x ∷ revs) (atoi_value want))) [
      | inl there ↦ sym (some_inj (rw (numbered, there) at h))
      | inr gone ↦ absurd (ground (arith, rw (numbered, gone) at h))
    ]

pick_newest :
    (revs : List ℤ) (want : Bytes) (r n : ℤ)
    → (want == codes "latest") ≡ true
    → IsSorted revs
    → pick (reverse_onto revs []) want ≡ some r
    → contains revs n ≡ true
    → leb_ℤ n r ≡ true
unfolding pick
pick_newest [] want r n latest sorted h m = absurd (ground (arith, m))
pick_newest (x ∷ revs) want r n latest sorted h m =
    let (tail, e) = reverse_head x revs [] in
    let head : pick (get_last_or revs x ∷ tail) want ≡ some r = ap (λ l. pick l want) (sym e) ∙ h in
    let last : get_last_or revs x ≡ r = some_inj (rw latest at head) in
    ground (arith, le_last (x ∷ revs) n x sorted m, ap pos_part last, ap neg_part last)

-- Of the revisions of a snapshot ID that a storage lists, the one that is picked is one of them; it is
-- the newest where "latest" is wanted, and otherwise the wanted number.
pub pick_lem :
    (id want text : Bytes) (r n : ℤ)
    → pick (parse_revisions id text) want ≡ some r
    → (contains (listed_revisions id (split_lines text)) r ≡ true)
      × ((if want == codes "latest"
            then not (contains (listed_revisions id (split_lines text)) n) || leb_ℤ n r
            else r == atoi_value want)
          ≡ true)
unfolding parse_revisions
pick_lem id want text r n h =
    let ns = listed_revisions id (split_lines text) in
    let there =
      sym (contains-reverse_onto (sort_ints ns) [] r ∙ ground (arith, contains-sort_ints ns r))
      ∙ pick-contains (reverse_onto (sort_ints ns) []) want r h in
    (
      there,
      elim (Bool-cases (want == codes "latest")) [
        | inr numbered ↦ rw numbered (
            rw
              (
                pick_number (reverse_onto (sort_ints ns) []) want r numbered h,
                ==_refl (atoi_value want),
              )
              refl)
        | inl latest ↦ rw latest (elim (Bool-cases (contains ns n)) [
          | inr absent ↦ rw absent refl
          | inl listed ↦ rw listed (
              pick_newest (sort_ints ns) want r n latest (sort_ints-IsSorted ns) h
                (contains-sort_ints ns n ∙ listed))
        ])
      ],
    )
