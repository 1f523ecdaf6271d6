-- ===== src/Forget/Complete.antt =====
-- What a run of internal/forget that ends well has removed.
use archiver.Shared.{
  Bool, Bool-cases, Bytes, List, List-cases, Option, [], ap, append-nil, append_assoc, arith, false,
  if◌then◌else◌, inl, inr, length, length-sort_ints, ltb, map, none, refl, some, sort_ints, sym,
  true, ℕ, ℤ, ◌++◌, ◌<◌, ◌==◌, ◌∙◌, ◌∷◌, ◌≡◌, ◌≢◌, nat_eq, bytes_eq, int_eq,
}
use archiver.Inuse.{Set}
use archiver.Forget.{
  Act, list_snapshots, take_gate, read_registry, release_gate, remove, World, Found, Plan, pairs,
  plan_found, plan_one, plan_all, is_read, ended, remove_unread, list_again, forget, forget_all,
  Consent, agrees, carry_out, run_named, run, Named, refused, ids_of, id_of, names_to_ids, add_id,
  revisions_of,
}
use archiver.Forget.Names.{names_to_ids_inv}
use archiver.Forget.Planned.{pair_of, plan_all-acts}
use archiver.Forget.Guarded.{listing}

-- What an act removed.
abbrev pub removed_by : World → List Act → Act → List (Bytes × Bytes)
removed_by w before (remove t id) = if w.removes before t id then (t, id) ∷ [] else []
removed_by w before (list_snapshots t id) = []
removed_by w before (take_gate t) = []
removed_by w before (read_registry t) = []
removed_by w before (release_gate t) = []

-- What acts removed, in order.
unfoldable pub removed : World → List Act → List Act → List (Bytes × Bytes)
removed w before [] = []
removed w before (a ∷ acts) = removed_by w before a ++ removed w (before ++ a ∷ []) acts

-- Whether an answer lists a revision.
unfoldable pub holds_some : Option (List Bytes) → Bool
holds_some none = false
holds_some (some entries) = ltb 0 (length (revisions_of entries))

-- The pairs whose listing has a revision, in order.
unfoldable pub with_revisions : World → List Act → List (Bytes × Bytes) → List (Bytes × Bytes)
unfolding holds_some
with_revisions w done [] = []
with_revisions w done ((t, id) ∷ ps) =
    let rest = with_revisions w (done ++ list_snapshots t id ∷ []) ps in
    if holds_some (w.list done t id) then (t, id) ∷ rest else rest

plan_found_pairs :
    (t id : Bytes) (rs : List ℤ) (rest : Plan)
    → map pair_of (plan_found t id rs rest).found
      ≡ (if ltb 0 (length rs) then (t, id) ∷ map pair_of rest.found else map pair_of rest.found)
unfolding plan_found
plan_found_pairs t id [] rest = refl
plan_found_pairs t id (r ∷ rs) rest = ground arith

plan_one_pairs :
    (t id : Bytes) (o : Option (List Bytes)) (rest : Plan)
    → map pair_of (plan_one t id o rest).found
      ≡ (if holds_some o then (t, id) ∷ map pair_of rest.found else map pair_of rest.found)
unfolding plan_one holds_some
plan_one_pairs t id none rest = refl
plan_one_pairs t id (some entries) rest =
    plan_found_pairs t id (sort_ints (revisions_of entries)) rest
    ∙ ap (λ n. if ltb 0 n then (t, id) ∷ map pair_of rest.found else map pair_of rest.found)
        (length-sort_ints (revisions_of entries))

plan_all_pairs :
    (w : World) (done : List Act) (ps : List (Bytes × Bytes))
    → map pair_of (plan_all w done ps).found ≡ with_revisions w done ps
unfolding plan_all with_revisions
plan_all_pairs w done [] = refl
plan_all_pairs w done ((t, id) ∷ ps) =
    plan_one_pairs t id (w.list done t id) (plan_all w (done ++ list_snapshots t id ∷ []) ps)
    ∙ rw (plan_all_pairs w (done ++ list_snapshots t id ∷ []) ps) refl

removed-append :
    (w : World) (before xs ys : List Act)
    → removed w before (xs ++ ys) ≡ removed w before xs ++ removed w (before ++ xs) ys
unfolding removed
removed-append w before [] ys = ap (λ b. removed w b ys) (sym (append-nil before))
removed-append w before (x ∷ xs) ys =
    ap (λ r. removed_by w before x ++ r)
      (removed-append w (before ++ x ∷ []) xs ys
        ∙ ap (λ b. removed w (before ++ x ∷ []) xs ++ removed w b ys)
            (append_assoc before (x ∷ []) xs))
    ∙ sym (
        append_assoc (removed_by w before x) (removed w (before ++ x ∷ []) xs)
          (removed w (before ++ x ∷ xs) ys))

-- What acts removed from the beginning, and one more act.
removed-snoc :
    (w : World) (done : List Act) (a : Act)
    → removed w [] (done ++ a ∷ []) ≡ removed w [] done ++ removed_by w done a
unfolding removed
removed-snoc w done a =
    removed-append w [] done (a ∷ [])
    ∙ ap (λ r. removed w [] done ++ r) (append-nil (removed_by w done a))

removed-listing :
    (w : World) (before : List Act) (ps : List (Bytes × Bytes))
    → removed w before (map listing ps) ≡ []
unfolding removed
removed-listing w before [] = refl
removed-listing w before ((t, id) ∷ ps) = removed-listing w (before ++ list_snapshots t id ∷ []) ps

module _ (w : World) (t id : Bytes) where
  -- A step of forgetting that removes nothing.
  removed-idle :
      (done : List Act) (a : Act)
      → removed_by w done a ≡ []
      → removed w [] (done ++ a ∷ []) ≡ removed w [] done
  removed-idle done a e =
      removed-snoc w done a ∙ ap (λ r. removed w [] done ++ r) e ∙ append-nil (removed w [] done)

  removed-remove_unread :
      (busy : Set) (done : List Act) (answer : Option (List Bytes))
      → (remove_unread w t id busy done answer).ok ≡ true
      → removed w [] (remove_unread w t id busy done answer).acts
        ≡ removed w [] done ++ (t, id) ∷ []
  unfolding remove_unread ended
  removed-remove_unread busy done none ok = absurd (ground (arith, ok))
  removed-remove_unread busy done (some entries) ok = elim (Bool-cases (is_read busy id entries)) [
    | inl held ↦ absurd (ground (arith, rw held at ok))
    | inr free ↦ rw free (
        removed-idle (done ++ remove t id ∷ []) (release_gate t) refl
        ∙ removed-snoc w done (remove t id)
        ∙ rw (rw free at ok) refl)
  ]

  removed-list_again :
      (done : List Act) (answer : Option Set)
      → (list_again w t id done answer).ok ≡ true
      → removed w [] (list_again w t id done answer).acts ≡ removed w [] done ++ (t, id) ∷ []
  unfolding list_again ended
  removed-list_again done none ok = absurd (ground (arith, ok))
  removed-list_again done (some busy) ok =
      removed-remove_unread busy (done ++ list_snapshots t id ∷ []) (w.list done t id) ok
      ∙ ap (λ r. r ++ (t, id) ∷ []) (removed-idle done (list_snapshots t id) refl)

  removed-forget :
      (done : List Act)
      → (forget w t id done).ok ≡ true
      → removed w [] (forget w t id done).acts ≡ removed w [] done ++ (t, id) ∷ []
  unfolding forget
  removed-forget done ok = elim (Bool-cases (w.gate done t)) [
    | inr lost ↦ absurd (ground (arith, rw lost at ok))
    | inl gated ↦ rw gated (
        removed-list_again ((done ++ take_gate t ∷ []) ++ read_registry t ∷ [])
          (w.registry (done ++ take_gate t ∷ []) t) (rw gated at ok)
        ∙ ap (λ r. r ++ (t, id) ∷ [])
            (removed-idle (done ++ take_gate t ∷ []) (read_registry t) refl
              ∙ removed-idle done (take_gate t) refl))
  ]

removed-forget_all :
    (w : World) (found : List Found) (done : List Act)
    → (forget_all w found done).ok ≡ true
    → removed w [] (forget_all w found done).acts ≡ removed w [] done ++ map pair_of found
unfolding forget_all
removed-forget_all w [] done ok = sym (append-nil (removed w [] done))
removed-forget_all w (f ∷ found) done ok = elim (Bool-cases (forget w f.storage f.id done).ok) [
  | inr stops ↦ absurd (cc)
  | inl goes ↦ rw goes (
      removed-forget_all w found (forget w f.storage f.id done).acts (rw goes at ok)
      ∙ ap (λ r. r ++ map pair_of found) (removed-forget w f.storage f.id done goes)
      ∙ append_assoc (removed w [] done) (pair_of f ∷ []) (map pair_of found))
]

removed-plan_all :
    (w : World) (ps : List (Bytes × Bytes)) → removed w [] (plan_all w [] ps).acts ≡ []
removed-plan_all w ps =
    ap (λ acts. removed w [] acts) (plan_all-acts w [] ps) ∙ removed-listing w [] ps

all_forgotten : (ok : Bool) → ◌≡◌ {A = ℕ} (if ok then 0 else 1) 0 → ok ≡ true
all_forgotten ok h = ground (arith, h)

removed-carry_out :
    (w : World) (consent : Consent) (ps : List (Bytes × Bytes))
    → (carry_out w consent (plan_all w [] ps)).code ≡ 0
    → removed w [] (carry_out w consent (plan_all w [] ps)).acts ≡ with_revisions w [] ps
unfolding carry_out
removed-carry_out w consent ps done =
    let plan = plan_all w [] ps in
    elim (Bool-cases plan.failed) [
      | inl failed ↦ absurd (ground (arith, rw failed at done))
      | inr listed ↦ elim (List-cases plan.found) [
        | inl nothing ↦
            rw (listed, nothing)
              (removed-plan_all w ps ∙ ap (map pair_of) (sym nothing) ∙ plan_all_pairs w [] ps)
        | inr (f, found, something) ↦ elim (Bool-cases (agrees consent)) [
          | inr declined ↦ absurd (ground (arith, rw (listed, something, declined) at done))
          | inl agreed ↦
              let full : (length plan.found == 0) ≡ false =
                ap (λ xs. length xs == 0) something ∙ ground arith in
              let all : (forget_all w plan.found plan.acts).ok ≡ true =
                all_forgotten (forget_all w plan.found plan.acts).ok
                  (rw (listed, full, agreed) at done) in
              rw (listed, full, agreed)
                (removed-forget_all w plan.found plan.acts all
                  ∙ ap (λ r. r ++ map pair_of plan.found) (removed-plan_all w ps)
                  ∙ plan_all_pairs w [] ps)
        ]
      ]
    ]

abbrev fails_with : Named → ℕ
fails_with (refused code) = code
fails_with (ids_of ids) = 1

fails_with-add_id : (id : Bytes) (named : Named) → fails_with (add_id id named) ≡ fails_with named
unfolding add_id
fails_with-add_id id (refused code) = refl
fails_with-add_id id (ids_of ids) = refl

fails_with-names_to_ids :
    (host : Bytes) (configured names : List Bytes)
    → 0 < fails_with (names_to_ids host configured names)
unfolding names_to_ids
fails_with-names_to_ids host configured [] = omega arith
fails_with-names_to_ids host configured (n ∷ names) = ground (
  arith,
  fails_with-add_id (id_of host n) (names_to_ids host configured names),
  fails_with-names_to_ids host configured names,
)

names_to_ids-code :
    (host : Bytes) (configured names : List Bytes) (code : ℕ)
    → names_to_ids host configured names ≡ refused code
    → code ≢ 0
names_to_ids-code host configured names code h zero_code =
    absurd
      (omega (arith, ap fails_with h, fails_with-names_to_ids host configured names, zero_code))

removed-run_named :
    (w : World) (consent : Consent) (host : Bytes) (configured targets names : List Bytes)
    (named : Named)
    → names_to_ids host configured names ≡ named
    → (run_named w consent targets named).code ≡ 0
    → removed w [] (run_named w consent targets named).acts
      ≡ with_revisions w [] (pairs targets (map (id_of host) names))
unfolding run_named
removed-run_named w consent host configured targets names (refused code) e done =
    absurd (names_to_ids-code host configured names code e done)
removed-run_named w consent host configured targets names (ids_of ids) e done =
    removed-carry_out w consent (pairs targets ids) done
    ∙ ap (λ is. with_revisions w [] (pairs targets is))
        (names_to_ids_inv host configured names ids e).0

-- A run that ends with exit code zero has removed the snapshots of exactly the IDs that were asked
-- for and the storages that listed a revision of them, storage by storage in their order.
pub run-removed :
    (w : World) (consent : Consent) (host : Bytes) (configured targets names : List Bytes)
    → (run w consent host configured targets names).code ≡ 0
    → removed w [] (run w consent host configured targets names).acts
      ≡ with_revisions w [] (pairs targets (map (id_of host) names))
unfolding run
run-removed w consent host configured targets names done =
    removed-run_named w consent host configured targets names (names_to_ids host configured names)
      refl done
