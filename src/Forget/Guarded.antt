-- ===== src/Forget/Guarded.antt =====
-- What precedes every removal of a run of internal/forget.
use archiver.Shared.{
  All, Bool, Bool-cases, Bytes, List, Option, [], ap, append-nil, append_assoc, false, inl, inr,
  map, none, refl, some, subst, sym, true, ◌&&◌, ◌++◌, ◌∙◌, ◌∷◌, ◌≡◌, nat_eq, bytes_eq, int_eq,
}
use archiver.Inuse.{Set}
use archiver.Forget.{
  Act, list_snapshots, take_gate, read_registry, release_gate, remove, World, Found, is_read, ended,
  remove_unread, list_again, forget, forget_all,
}

abbrev pub listing : Bytes × Bytes → Act
listing (t, id) = list_snapshots t id

-- A list of acts each of which was allowed after those before it.
pub data IsTrace (P : List Act → Act → Type 0) : List Act → Type 0 where
  start : IsTrace P []
  next :
      (before : List Act) (a : Act) (acts : List Act)
      → IsTrace P before
      → P before a
      → acts ≡ before ++ a ∷ []
      → IsTrace P acts

abbrev pub is_answer : Option (List Bytes) → Bool
is_answer none = false
is_answer (some entries) = true

-- Whether every listing of the plan was answered.
unfoldable pub answered : World → List Act → List (Bytes × Bytes) → Bool
answered w done [] = true
answered w done ((t, id) ∷ ps) =
    is_answer (w.list done t id) && answered w (done ++ list_snapshots t id ∷ []) ps

-- The gate was taken and held while the registry and the snapshots were read, and no revision that
-- is there was registered.
pub record IsGuarded (w : World) (plan : List Act) (t id : Bytes) (before : List Act) : Type 0 where
  pub more : List Act
  pub busy : Set
  pub entries : List Bytes
  pub sequence :
      before
      ≡ (((plan ++ more) ++ take_gate t ∷ []) ++ read_registry t ∷ []) ++ list_snapshots t id ∷ []
  pub gated : w.gate (plan ++ more) t ≡ true
  pub registered : w.registry ((plan ++ more) ++ take_gate t ∷ []) t ≡ some busy
  pub listed :
      w.list (((plan ++ more) ++ take_gate t ∷ []) ++ read_registry t ∷ []) t id ≡ some entries
  pub unread : is_read busy id entries ≡ false

-- Acts that follow others.
abbrev pub Extends : List Act → List Act → Type 0
Extends acts done = (more : List Act) × (acts ≡ done ++ more)

Extends-by :
    (done : List Act) (a : Act) (acts : List Act)
    → Extends acts (done ++ a ∷ [])
    → Extends acts done
Extends-by done a acts (more, e) = (a ∷ more, e ∙ append_assoc done (a ∷ []) more)

ended-Extends : (t : Bytes) (done : List Act) (ok : Bool) → Extends (ended t done ok).acts done
unfolding ended
ended-Extends t done ok = (release_gate t ∷ [], refl)

remove_unread-Extends :
    (w : World) (t id : Bytes) (busy : Set) (done : List Act) (answer : Option (List Bytes))
    → Extends (remove_unread w t id busy done answer).acts done
unfolding remove_unread
remove_unread-Extends w t id busy done none = ended-Extends t done false
remove_unread-Extends w t id busy done (some entries) =
    elim (Bool-cases (is_read busy id entries)) [
      | inl held ↦ rw held (ended-Extends t done false)
      | inr free ↦ rw free (
          Extends-by done (remove t id) _
            (ended-Extends t (done ++ remove t id ∷ []) (w.removes done t id)))
    ]

list_again-Extends :
    (w : World) (t id : Bytes) (done : List Act) (answer : Option Set)
    → Extends (list_again w t id done answer).acts done
unfolding list_again
list_again-Extends w t id done none = ended-Extends t done false
list_again-Extends w t id done (some busy) =
    Extends-by done (list_snapshots t id) _
      (remove_unread-Extends w t id busy (done ++ list_snapshots t id ∷ []) (w.list done t id))

forget-Extends :
    (w : World) (t id : Bytes) (done : List Act) → Extends (forget w t id done).acts done
unfolding forget
forget-Extends w t id done = elim (Bool-cases (w.gate done t)) [
  | inr lost ↦ rw lost (take_gate t ∷ [], refl)
  | inl gated ↦ rw gated (
      Extends-by done (take_gate t) _ (
        Extends-by (done ++ take_gate t ∷ []) (read_registry t) _ (
          list_again-Extends w t id ((done ++ take_gate t ∷ []) ++ read_registry t ∷ [])
            (w.registry (done ++ take_gate t ∷ []) t))))
]

module _ (w : World) (plan : List Act) (I : Bytes × Bytes → Type 0) where
  -- What may be removed, after which acts.
  abbrev pub IsAllowed : List Act → Act → Type 0
  IsAllowed before (remove t id) = I (t, id) × IsGuarded w plan t id before
  IsAllowed before (list_snapshots t id) = Unit
  IsAllowed before (take_gate t) = Unit
  IsAllowed before (read_registry t) = Unit
  IsAllowed before (release_gate t) = Unit

  pub plan_trace :
      (done : List Act) (ps : List (Bytes × Bytes))
      → IsTrace IsAllowed done
      → IsTrace IsAllowed (done ++ map listing ps)
  plan_trace done [] trace = rw (append-nil done) trace
  plan_trace done ((t, id) ∷ ps) trace =
      subst (IsTrace IsAllowed) (append_assoc done (list_snapshots t id ∷ []) (map listing ps)) (
        plan_trace (done ++ list_snapshots t id ∷ []) ps
          (next done (list_snapshots t id) _ trace tt refl))

  ended_trace :
      (t : Bytes) (done : List Act) (ok : Bool)
      → IsTrace IsAllowed done
      → IsTrace IsAllowed (ended t done ok).acts
  unfolding ended
  ended_trace t done ok trace = next done (release_gate t) _ trace tt refl

  remove_unread_trace :
      (t id : Bytes) (more : List Act) (busy : Set) (answer : Option (List Bytes))
      → I (t, id)
      → w.gate (plan ++ more) t ≡ true
      → w.registry ((plan ++ more) ++ take_gate t ∷ []) t ≡ some busy
      → w.list (((plan ++ more) ++ take_gate t ∷ []) ++ read_registry t ∷ []) t id ≡ answer
      → (done : List Act)
      → done
        ≡ (((plan ++ more) ++ take_gate t ∷ []) ++ read_registry t ∷ []) ++ list_snapshots t id ∷ []
      → IsTrace IsAllowed done
      → IsTrace IsAllowed (remove_unread w t id busy done answer).acts
  unfolding remove_unread
  remove_unread_trace t id more busy none own g r l done e trace = ended_trace t done false trace
  remove_unread_trace t id more busy (some entries) own g r l done e trace =
      elim (Bool-cases (is_read busy id entries)) [
        | inl held ↦ rw held (ended_trace t done false trace)
        | inr free ↦ rw free (
            ended_trace t (done ++ remove t id ∷ []) (w.removes done t id) (
              next done (remove t id) _ trace
                (
                  own,
                  record {
                    more = more;
                    busy = busy;
                    entries = entries;
                    sequence = e;
                    gated = g;
                    registered = r;
                    listed = l;
                    unread = free;
                  },
                )
                refl))
      ]

  list_again_trace :
      (t id : Bytes) (more : List Act) (answer : Option Set)
      → I (t, id)
      → w.gate (plan ++ more) t ≡ true
      → w.registry ((plan ++ more) ++ take_gate t ∷ []) t ≡ answer
      → (done : List Act) → done ≡ ((plan ++ more) ++ take_gate t ∷ []) ++ read_registry t ∷ []
      → IsTrace IsAllowed done
      → IsTrace IsAllowed (list_again w t id done answer).acts
  unfolding list_again
  list_again_trace t id more none own g r done e trace = ended_trace t done false trace
  list_again_trace t id more (some busy) own g r done e trace =
      remove_unread_trace t id more busy (w.list done t id) own g r
        (ap (λ d. w.list d t id) (sym e)) (done ++ list_snapshots t id ∷ [])
        (ap (λ d. d ++ list_snapshots t id ∷ []) e)
        (next done (list_snapshots t id) _ trace tt refl)

  forget_trace :
      (t id : Bytes) (more done : List Act)
      → I (t, id)
      → done ≡ plan ++ more
      → IsTrace IsAllowed done
      → IsTrace IsAllowed (forget w t id done).acts
  unfolding forget
  forget_trace t id more done own e trace = elim (Bool-cases (w.gate done t)) [
    | inr lost ↦ rw lost (next done (take_gate t) _ trace tt refl)
    | inl gated ↦ rw gated (
        list_again_trace t id more (w.registry (done ++ take_gate t ∷ []) t) own
          (ap (λ d. w.gate d t) (sym e) ∙ gated)
          (ap (λ d. w.registry (d ++ take_gate t ∷ []) t) (sym e))
          ((done ++ take_gate t ∷ []) ++ read_registry t ∷ [])
          (ap (λ d. (d ++ take_gate t ∷ []) ++ read_registry t ∷ []) e)
          (next (done ++ take_gate t ∷ []) (read_registry t) _
            (next done (take_gate t) _ trace tt refl) tt refl))
  ]

  pub forget_all_trace :
      (found : List Found) (more done : List Act)
      → All (λ f. I (f.storage, f.id)) found
      → done ≡ plan ++ more
      → IsTrace IsAllowed done
      → IsTrace IsAllowed (forget_all w found done).acts
  unfolding forget_all
  forget_all_trace [] more done owned e trace = trace
  forget_all_trace (f ∷ found) more done (own, owned) e trace =
      let (m, grown) = forget-Extends w f.storage f.id done in
      let now = forget_trace f.storage f.id more done own e trace in
      elim (Bool-cases (forget w f.storage f.id done).ok) [
        | inr stops ↦ rw stops now
        | inl goes ↦ rw goes (
            forget_all_trace found (more ++ m) (forget w f.storage f.id done).acts owned
              (grown ∙ ap (λ d. d ++ m) e ∙ append_assoc plan more m) now)
      ]
