-- ===== src/Localprune/Split.antt =====
-- `Split` parts the planned deletions by use, and loses none of them.
use archiver.Shared.{
  ==_refl, ==→eq, Bool, Bool-cases, Bytes, List, [], ap, append-nil, append_assoc, arith, false,
  if◌then◌else◌, inl, inr, keep, lookup, lookup-has_key, none, not, refl, subst, sym, true,
  unique_keys, ℤ, ◌++◌, ◌==◌, ◌∙◌, ◌∷◌, ◌≡◌, nat_eq, bytes_eq, int_eq,
}
use archiver.Copier.Mirror.{Revisions, get, append_at}
use archiver.Copier.Mirror.Lists.{get-append_at}
use archiver.Localprune.{Parts, place, split_id, split_loop, split}

get-append_at_self :
    (j : Bytes) (n : ℤ) (m : Revisions) → get j (append_at j n m) ≡ get j m ++ n ∷ []
get-append_at_self j n m = rw (get-append_at j j n m, ==_refl j)

get-append_at_other :
    (j id : Bytes) (n : ℤ) (m : Revisions) → (j == id) ≡ false → get id (append_at j n m) ≡ get id m
get-append_at_other j id n m h = rw (get-append_at id j n m, h)

ready-place_self :
    (in_use : Bytes → ℤ → Bool) (j : Bytes) (r : ℤ) (parts : Parts) (rest : List ℤ)
    → get j (place in_use j r parts).ready ++ rest
      ≡ get j parts.ready ++ (if in_use j r then rest else r ∷ rest)
unfolding place
ready-place_self in_use j r parts rest = elim (Bool-cases (in_use j r)) [
  | inl used ↦ rw used
  | inr unused ↦
      rw (unused, get-append_at_self j r parts.ready)
        (append_assoc (get j parts.ready) (r ∷ []) rest)
]

waiting-place_self :
    (in_use : Bytes → ℤ → Bool) (j : Bytes) (r : ℤ) (parts : Parts) (rest : List ℤ)
    → get j (place in_use j r parts).waiting ++ rest
      ≡ get j parts.waiting ++ (if in_use j r then r ∷ rest else rest)
unfolding place
waiting-place_self in_use j r parts rest = elim (Bool-cases (in_use j r)) [
  | inl used ↦
      rw (used, get-append_at_self j r parts.waiting)
        (append_assoc (get j parts.waiting) (r ∷ []) rest)
  | inr unused ↦ rw unused
]

place_other :
    (in_use : Bytes → ℤ → Bool) (j : Bytes) (r : ℤ) (parts : Parts) (id : Bytes)
    → (j == id) ≡ false
    → (get id (place in_use j r parts).ready ≡ get id parts.ready)
      × (get id (place in_use j r parts).waiting ≡ get id parts.waiting)
unfolding place
place_other in_use j r parts id h = elim (Bool-cases (in_use j r)) [
  | inl used ↦ (rw used, rw used (get-append_at_other j id r parts.waiting h))
  | inr unused ↦ (rw unused (get-append_at_other j id r parts.ready h), rw unused)
]

not_if {ℓ} : {A : Type ℓ} (b : Bool) (x y : A) → (if not b then x else y) ≡ (if b then y else x)
not_if true x y = refl
not_if false x y = refl

split_id_self :
    (in_use : Bytes → ℤ → Bool) (j : Bytes) (rs : List ℤ) (parts : Parts)
    → (get j (split_id in_use j rs parts).ready
        ≡ get j parts.ready ++ keep (λ r. not (in_use j r)) rs)
      × (get j (split_id in_use j rs parts).waiting ≡ get j parts.waiting ++ keep (in_use j) rs)
unfolding split_id
split_id_self in_use j [] parts =
    (sym (append-nil (get j parts.ready)), sym (append-nil (get j parts.waiting)))
split_id_self in_use j (r ∷ rs) parts =
    let (ready, waiting) = split_id_self in_use j rs (place in_use j r parts) in
    (
      ready
          ∙ (ready-place_self in_use j r parts _
              ∙ ap (λ l. get j parts.ready ++ l) (sym (not_if (in_use j r) _ _))),
      waiting ∙ waiting-place_self in_use j r parts _,
    )

split_id_other :
    (in_use : Bytes → ℤ → Bool) (j : Bytes) (rs : List ℤ) (parts : Parts) (id : Bytes)
    → (j == id) ≡ false
    → (get id (split_id in_use j rs parts).ready ≡ get id parts.ready)
      × (get id (split_id in_use j rs parts).waiting ≡ get id parts.waiting)
unfolding split_id
split_id_other in_use j [] parts id h = (refl, refl)
split_id_other in_use j (r ∷ rs) parts id h =
    let (ready, waiting) = split_id_other in_use j rs (place in_use j r parts) id h in
    let (ready', waiting') = place_other in_use j r parts id h in
    (ready ∙ ready', waiting ∙ waiting')

-- What the loop has done for one ID.
abbrev IsParted : (Bytes → ℤ → Bool) → Revisions → Parts → Bytes → Type 0
IsParted in_use plan parts id =
    (get id (split_loop in_use plan parts).ready
      ≡ get id parts.ready ++ keep (λ r. not (in_use id r)) (get id plan))
    × (get id (split_loop in_use plan parts).waiting
        ≡ get id parts.waiting ++ keep (in_use id) (get id plan))

split_loop_here :
    (in_use : Bytes → ℤ → Bool) (j : Bytes) (rs : List ℤ) (plan : Revisions) (parts : Parts)
    → lookup j plan ≡ none
    → IsParted in_use plan (split_id in_use j rs parts) j
    → IsParted in_use ((j, rs) ∷ plan) parts j
unfolding split_loop
split_loop_here in_use j rs plan parts gone (ready, waiting) =
    let (first, held) = split_id_self in_use j rs parts in
    let ready' = rw (get, gone, append-nil) at ready in
    let waiting' = rw (get, gone, append-nil) at waiting in
    rw (get, ==_refl j) (ready' ∙ first, waiting' ∙ held)

split_loop-get :
    (in_use : Bytes → ℤ → Bool) (plan : Revisions) (parts : Parts) (id : Bytes)
    → unique_keys plan ≡ true
    → IsParted in_use plan parts id
unfolding split_loop
split_loop-get in_use [] parts id u =
    (sym (append-nil (get id parts.ready)), sym (append-nil (get id parts.waiting)))
split_loop-get in_use ((j, rs) ∷ plan) parts id u = elim (Bool-cases (j == id)) [
  | inl same ↦ subst (IsParted in_use ((j, rs) ∷ plan) parts) (==→eq j id same) (
      split_loop_here in_use j rs plan parts (lookup-has_key j plan (ground arith))
        (split_loop-get in_use plan (split_id in_use j rs parts) j (ground arith)))
  | inr other ↦
      let (ready, waiting) =
        split_loop-get in_use plan (split_id in_use j rs parts) id (ground arith) in
      let (first, held) = split_id_other in_use j rs parts id other in
      rw (get, other) (ready ∙ rw first, waiting ∙ rw held)
]

-- Of each ID, the revisions not in use are deleted now and those in use wait, in their order.
pub split-get :
    (in_use : Bytes → ℤ → Bool) (plan : Revisions) (id : Bytes)
    → unique_keys plan ≡ true
    → (get id (split plan in_use).ready ≡ keep (λ r. not (in_use id r)) (get id plan))
      × (get id (split plan in_use).waiting ≡ keep (in_use id) (get id plan))
unfolding split
split-get in_use plan id u = split_loop-get in_use plan _ id u
