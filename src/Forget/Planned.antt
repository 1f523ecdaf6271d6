-- ===== src/Forget/Planned.antt =====
-- The plan of a run of internal/forget, and what a run removes.
use archiver.Shared.{
  All, All-both, All-map, Bool-cases, Bytes, List, Option, [], append-nil, append_assoc, arith,
  contains, contains_self, inl, inr, length, map, none, not, refl, some, sort_ints, subst, sym,
  true, ℤ, ◌++◌, ◌==◌, ◌||◌, ◌∙◌, ◌∷◌, ◌≡◌, nat_eq, bytes_eq, int_eq,
}
use archiver.Forget.{
  Act, list_snapshots, World, Found, Plan, pairs, plan_found, plan_one, plan_all, carry_out,
  Consent, agrees, run_named, run, Named, refused, ids_of, id_of, names_to_ids, revisions_of,
}
use archiver.Forget.Names.{IsForgettable, names_to_ids_inv, All-pairs}
use archiver.Forget.Guarded.{
  IsTrace, listing, answered, is_answer, IsAllowed, start, plan_trace, forget_all_trace,
}

abbrev pub pair_of : Found → Bytes × Bytes
pair_of f = (f.storage, f.id)

plan_found-acts :
    (t id : Bytes) (rs : List ℤ) (rest : Plan) → (plan_found t id rs rest).acts ≡ rest.acts
unfolding plan_found
plan_found-acts t id [] rest = refl
plan_found-acts t id (r ∷ rs) rest = refl

plan_one-acts :
    (t id : Bytes) (o : Option (List Bytes)) (rest : Plan) → (plan_one t id o rest).acts ≡ rest.acts
unfolding plan_one
plan_one-acts t id none rest = refl
plan_one-acts t id (some entries) rest =
    plan_found-acts t id (sort_ints (revisions_of entries)) rest

pub plan_all-acts :
    (w : World) (done : List Act) (ps : List (Bytes × Bytes))
    → (plan_all w done ps).acts ≡ done ++ map listing ps
unfolding plan_all
plan_all-acts w done [] = sym (append-nil done)
plan_all-acts w done ((t, id) ∷ ps) =
    plan_one-acts t id (w.list done t id) (plan_all w (done ++ list_snapshots t id ∷ []) ps)
    ∙ plan_all-acts w (done ++ list_snapshots t id ∷ []) ps
    ∙ append_assoc done (list_snapshots t id ∷ []) (map listing ps)

plan_found-failed :
    (t id : Bytes) (rs : List ℤ) (rest : Plan) → (plan_found t id rs rest).failed ≡ rest.failed
unfolding plan_found
plan_found-failed t id [] rest = refl
plan_found-failed t id (r ∷ rs) rest = refl

plan_one-failed :
    (t id : Bytes) (o : Option (List Bytes)) (rest : Plan)
    → (plan_one t id o rest).failed ≡ (not (is_answer o) || rest.failed)
unfolding plan_one
plan_one-failed t id none rest = refl
plan_one-failed t id (some entries) rest =
    plan_found-failed t id (sort_ints (revisions_of entries)) rest

pub plan_all-failed :
    (w : World) (done : List Act) (ps : List (Bytes × Bytes))
    → (plan_all w done ps).failed ≡ not (answered w done ps)
unfolding plan_all answered
plan_all-failed w done [] = refl
plan_all-failed w done ((t, id) ∷ ps) =
    plan_one-failed t id (w.list done t id) (plan_all w (done ++ list_snapshots t id ∷ []) ps)
    ∙ ground (arith, plan_all-failed w (done ++ list_snapshots t id ∷ []) ps)

module _ (I : Bytes × Bytes → Type 0) where
  plan_found-All :
      (t id : Bytes) (rs : List ℤ) (rest : Plan)
      → I (t, id)
      → All (λ f. I (pair_of f)) rest.found
      → All (λ f. I (pair_of f)) (plan_found t id rs rest).found
  unfolding plan_found
  plan_found-All t id [] rest h hs = hs
  plan_found-All t id (r ∷ rs) rest h hs = (h, hs)

  plan_one-All :
      (t id : Bytes) (o : Option (List Bytes)) (rest : Plan)
      → I (t, id)
      → All (λ f. I (pair_of f)) rest.found
      → All (λ f. I (pair_of f)) (plan_one t id o rest).found
  unfolding plan_one
  plan_one-All t id none rest h hs = hs
  plan_one-All t id (some entries) rest h hs =
      plan_found-All t id (sort_ints (revisions_of entries)) rest h hs

  plan_all-All :
      (w : World) (done : List Act) (ps : List (Bytes × Bytes))
      → All I ps
      → All (λ f. I (pair_of f)) (plan_all w done ps).found
  unfolding plan_all
  plan_all-All w done [] hs = tt
  plan_all-All w done ((t, id) ∷ ps) (h, hs) =
      plan_one-All t id (w.list done t id) (plan_all w (done ++ list_snapshots t id ∷ []) ps) h
        (plan_all-All w (done ++ list_snapshots t id ∷ []) ps hs)

-- What a removal is of: one of the storages, and an ID of a name that was given which is valid, is
-- the host's and is of no configured service. Every listing of the plan was answered, and the
-- deletion was agreed to.
pub record IsMeant (w : World) (consent : Consent) (host : Bytes)
    (configured targets names : List Bytes) (p : Bytes × Bytes) : Type 0 where
  pub stored : contains targets p.0 ≡ true
  pub named : contains (map (id_of host) names) p.1 ≡ true
  pub forgettable : IsForgettable host configured p.1
  pub all_listed : answered w [] (pairs targets (map (id_of host) names)) ≡ true
  pub agreed : agrees consent ≡ true

abbrev pub plan_of : Bytes → List Bytes → List Bytes → List Act
plan_of host targets names = map listing (pairs targets (map (id_of host) names))

-- What may be removed in a run.
abbrev pub IsPermitted :
    World → Consent → Bytes → List Bytes → List Bytes → List Bytes → List Act → Act → Type 0
IsPermitted w consent host configured targets names =
    IsAllowed w (plan_of host targets names) (IsMeant w consent host configured targets names)

module _ (w : World) (consent : Consent) (host : Bytes)
    (configured targets names : List Bytes) where
  all-IsMeant :
      All (IsForgettable host configured) (map (id_of host) names)
      → answered w [] (pairs targets (map (id_of host) names)) ≡ true
      → agrees consent ≡ true
      → All
          (IsMeant w consent host configured targets names)
          (pairs targets (map (id_of host) names))
  all-IsMeant own listed agreed =
      let ids = map (id_of host) names in
      All-map
        (λ p.
          (contains targets p.0 ≡ true)
          × ((contains ids p.1 ≡ true) × IsForgettable host configured p.1))
        (IsMeant w consent host configured targets names) (pairs targets ids)
        (λ p h. record {
          stored = h.0;
          named = h.1.0;
          forgettable = h.1.1;
          all_listed = listed;
          agreed = agreed;
        })
        (All-pairs (λ t. contains targets t ≡ true)
          (λ id. (contains ids id ≡ true) × IsForgettable host configured id) targets ids
          (contains_self targets)
          (All-both (λ id. contains ids id ≡ true) (IsForgettable host configured) ids
            (contains_self ids) own))

  carry_out_trace :
      All (IsForgettable host configured) (map (id_of host) names)
      → IsTrace
          (IsPermitted w consent host configured targets names)
          (carry_out w consent (plan_all w [] (pairs targets (map (id_of host) names)))).acts
  unfolding carry_out
  carry_out_trace own =
      let ps = pairs targets (map (id_of host) names) in
      let plan = plan_all w [] ps in
      let meant = IsMeant w consent host configured targets names in
      let planned : IsTrace (IsAllowed w (map listing ps) meant) plan.acts =
        subst (IsTrace (IsAllowed w (map listing ps) meant)) (sym (plan_all-acts w [] ps))
          (plan_trace w (map listing ps) meant [] ps start) in
      elim (Bool-cases plan.failed) [
        | inl failed ↦ rw failed planned
        | inr listed ↦ elim (Bool-cases (length plan.found == 0)) [
          | inl nothing ↦ rw (listed, nothing) planned
          | inr something ↦ elim (Bool-cases (agrees consent)) [
            | inr declined ↦ rw (listed, something, declined) planned
            | inl agreed ↦
                rw (listed, something, agreed)
                  (forget_all_trace w (map listing ps) meant plan.found [] plan.acts
                    (plan_all-All meant w [] ps
                      (all-IsMeant own (ground (arith, listed, plan_all-failed w [] ps)) agreed))
                    (plan_all-acts w [] ps ∙ sym (append-nil (map listing ps))) planned)
          ]
        ]
      ]

  run_named_trace :
      (named : Named)
      → names_to_ids host configured names ≡ named
      → IsTrace
          (IsPermitted w consent host configured targets names)
          (run_named w consent targets named).acts
  unfolding run_named
  run_named_trace (refused code) e = start
  run_named_trace (ids_of ids) e =
      let (same, own) = names_to_ids_inv host configured names ids e in
      subst
        (λ is.
          IsTrace (IsPermitted w consent host configured targets names)
            (carry_out w consent (plan_all w [] (pairs targets is))).acts)
        (sym same) (carry_out_trace (subst (All (IsForgettable host configured)) same own))

  -- Every removal of a run is on one of the storages, of a valid ID of the host that was asked for
  -- and that no configured service backs up, after every storage was listed for every ID with an
  -- answer and the deletion was agreed to; it comes directly after the storage's gate was taken,
  -- the registry read and the snapshots listed again, none of which a reader holds.
  pub run-IsPermitted :
      IsTrace
        (IsPermitted w consent host configured targets names)
        (run w consent host configured targets names).acts
  unfolding run
  run-IsPermitted = run_named_trace (names_to_ids host configured names) refl
