-- ===== src/Forget/Names.antt =====
-- The IDs that a run of internal/forget takes from the names it is given.
use archiver.Shared.{
  All, All-append, Bool-cases, Bytes, List, [], ap, arith, contains, cut_prefix, cut_prefix-append,
  false, has_prefix, inl, inr, map, refl, some, subst, sym, true, ◌∷◌, ◌≡◌, nat_eq, bytes_eq,
  int_eq,
}
use archiver.Forget.{
  is_valid_id, host_prefix, is_orphan, Named, id_of, trimmed, add_id, names_to_ids, ids_of, refused,
  pairs, with_ids,
}

-- A valid ID of the host that no configured service backs up.
abbrev pub IsForgettable : Bytes → List Bytes → Bytes → Type 0
IsForgettable host configured id = (is_valid_id id ≡ true) × (is_orphan host configured id ≡ true)

cut_prefix-has_prefix :
    (s p : Bytes) → has_prefix s p ≡ true → (t : Bytes) × (cut_prefix s p ≡ some t)
unfolding has_prefix cut_prefix
cut_prefix-has_prefix s [] h = (s, refl)
cut_prefix-has_prefix [] (y ∷ ys) h = absurd (ground (arith, h))
cut_prefix-has_prefix (x ∷ xs) (y ∷ ys) h =
    let (t, e) = cut_prefix-has_prefix xs ys (ground (arith, h)) in (t, ground (arith, e, h))

cut_prefix-id_of :
    (host n : Bytes) → (t : Bytes) × (cut_prefix (id_of host n) (host_prefix host) ≡ some t)
unfolding id_of
cut_prefix-id_of host n = elim (Bool-cases (has_prefix n (host_prefix host))) [
  | inl own ↦ rw own (cut_prefix-has_prefix n (host_prefix host) own)
  | inr short ↦ rw short (n, cut_prefix-append (host_prefix host) n)
]

is_orphan-id_of :
    (host n : Bytes) (configured : List Bytes)
    → contains configured (trimmed host (id_of host n)) ≡ false
    → is_orphan host configured (id_of host n) ≡ true
unfolding is_orphan trimmed
is_orphan-id_of host n configured h =
    let (t, e) = cut_prefix-id_of host n in rw (e, is_orphan) (ground (arith, rw (e, trimmed) at h))

add_id_inv :
    (id : Bytes) (named : Named) (ids : List Bytes)
    → add_id id named ≡ ids_of ids
    → (rest : List Bytes) × ((named ≡ ids_of rest) × (ids ≡ id ∷ rest))
unfolding add_id
add_id_inv id (refused code) ids h = absurd (cc)
add_id_inv id (ids_of rest) ids h = (rest, (refl, cc))

pub names_to_ids_inv :
    (host : Bytes) (configured names ids : List Bytes)
    → names_to_ids host configured names ≡ ids_of ids
    → (ids ≡ map (id_of host) names) × All (IsForgettable host configured) ids
unfolding names_to_ids
names_to_ids_inv host configured [] ids h =
    subst (λ is. (is ≡ []) × All (IsForgettable host configured) is) {x = []} (cc) (refl, tt)
names_to_ids_inv host configured (n ∷ names) ids h =
    elim (Bool-cases (is_valid_id (id_of host n))) [
      | inr invalid ↦ absurd (ground (arith, rw invalid at h))
      | inl valid ↦ elim (Bool-cases (contains configured (trimmed host (id_of host n)))) [
        | inl kept ↦ absurd (ground (arith, rw (valid, kept) at h))
        | inr orphaned ↦
            let (rest, (e, split)) =
              add_id_inv (id_of host n) (names_to_ids host configured names) ids
                (rw (valid, orphaned) at h) in
            let (same, all) = names_to_ids_inv host configured names rest e in
            subst
              (λ is. (is ≡ map (id_of host) (n ∷ names)) × All (IsForgettable host configured) is)
              (sym split)
              (
                ap (λ r. id_of host n ∷ r) same,
                ((valid, is_orphan-id_of host n configured orphaned), all),
              )
      ]
    ]

-- A property of every storage and of every ID, on the pairs of them.
module _ (T I : Bytes → Type 0) where
  All-with_ids :
      (t : Bytes) (ids : List Bytes) → T t → All I ids → All (λ p. T p.0 × I p.1) (with_ids t ids)
  unfolding with_ids
  All-with_ids t [] ht hs = tt
  All-with_ids t (id ∷ ids) ht (h, hs) = ((ht, h), All-with_ids t ids ht hs)

  pub All-pairs :
      (ts ids : List Bytes) → All T ts → All I ids → All (λ p. T p.0 × I p.1) (pairs ts ids)
  unfolding pairs
  All-pairs [] ids hts his = tt
  All-pairs (t ∷ ts) ids (ht, hts) his =
      All-append (λ p. T p.0 × I p.1) (with_ids t ids) (pairs ts ids) (All-with_ids t ids ht his)
        (All-pairs ts ids hts his)
