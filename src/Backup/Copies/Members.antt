-- ===== src/Backup/Copies/Members.antt =====
-- Which names pass each step of the copies of a backup (internal/pipeline/backup.go: `copies`,
-- `reachable`, `copyLegs`).
use archiver.Shared.{
  ==_refl, ==→eq, Bool, Bool-cases, Bytes, List, [], arith, contains, contains-append,
  contains-keep, inl, inr, keep, map, not, refl, ◌&&◌, ◌==◌, ◌||◌, ◌∙◌, ◌∷◌, ◌≡◌, nat_eq, bytes_eq,
  int_eq,
}
use archiver.Backup.Copies.{
  Secondary, Moment, CopyAnswers, mark_if, outside_window, answers_probe, list_names, reachable,
  start_legs, copy_legs, listing,
}

abbrev pub name_of : Secondary → Bytes
name_of t = t.name

abbrev pub names_of : List Secondary → List Bytes
names_of ts = map name_of ts

-- What `list_names` holds once it is past a name.
abbrev holds_after : CopyAnswers → (Bytes → Bool) → (Bytes → Bool) → Bytes → Bytes → Bool
unfolding mark_if
holds_after a down held k = mark_if (not (down k) && (held k || a.is_closed listing k)) k held

-- What `start_legs` holds once it is past a name.
abbrev locks_after : CopyAnswers → Moment → (Bytes → Bool) → Bytes → Bytes → Bool
unfolding mark_if
locks_after a m held k = mark_if (a.is_locked m k && (held k || a.is_closed m k)) k held

-- For one name, the names that go on, and what is down or held.
module _ (a : CopyAnswers) (n : Bytes) where
  pub list_names-names :
      (down : Bytes → Bool) (ts : List Secondary) (held : Bytes → Bool)
      → contains (list_names a down ts held).names n
        ≡ (contains (names_of ts) n && (not (down n) && not (held n || a.is_closed listing n)))
  unfolding list_names mark_if outside_window
  list_names-names down [] held = refl
  list_names-names down (t ∷ ts) held = elim (Bool-cases (t.name == n)) [
    | inl same ↦
        rw (==→eq t.name n same)
          (ground (arith, ==_refl n, list_names-names down ts (holds_after a down held n)))
    | inr other ↦ ground (arith, other, list_names-names down ts (holds_after a down held t.name))
  ]

  pub list_names-held :
      (down : Bytes → Bool) (ts : List Secondary) (held : Bytes → Bool)
      → (list_names a down ts held).held n
        ≡ (held n || (contains (names_of ts) n && (not (down n) && a.is_closed listing n)))
  unfolding list_names mark_if outside_window
  list_names-held down [] held = ground arith
  list_names-held down (t ∷ ts) held = elim (Bool-cases (t.name == n)) [
    | inl same ↦
        rw (==→eq t.name n same)
          (ground (arith, ==_refl n, list_names-held down ts (holds_after a down held n)))
    | inr other ↦ ground (arith, other, list_names-held down ts (holds_after a down held t.name))
  ]

  pub reachable-names :
      (m : Moment) (wanted : List Bytes) (held : Bytes → Bool) (ts : List Secondary)
      (down : Bytes → Bool)
      → contains (reachable a m wanted held ts down).names n
        ≡ (contains (names_of ts) n && (contains wanted n && answers_probe a m n))
  unfolding reachable mark_if
  reachable-names m wanted held [] down = refl
  reachable-names m wanted held (t ∷ ts) down = elim (Bool-cases (t.name == n)) [
    | inl same ↦ rw (==→eq t.name n same) (
        ground (
          arith,
          ==_refl n,
          reachable-names m wanted held ts
              (mark_if (contains wanted n && not (answers_probe a m n)) n down),
        ))
    | inr other ↦ ground (
      arith,
      other,
      reachable-names m wanted held ts
          (mark_if (contains wanted t.name && not (answers_probe a m t.name)) t.name down),
    )
  ]

  pub reachable-down :
      (m : Moment) (wanted : List Bytes) (held : Bytes → Bool) (ts : List Secondary)
      (down : Bytes → Bool)
      → (reachable a m wanted held ts down).down n
        ≡ (down n || (contains (names_of ts) n && (contains wanted n && not (answers_probe a m n))))
  unfolding reachable mark_if
  reachable-down m wanted held [] down = ground arith
  reachable-down m wanted held (t ∷ ts) down = elim (Bool-cases (t.name == n)) [
    | inl same ↦ rw (==→eq t.name n same) (
        ground (
          arith,
          ==_refl n,
          reachable-down m wanted held ts
              (mark_if (contains wanted n && not (answers_probe a m n)) n down),
        ))
    | inr other ↦ ground (
      arith,
      other,
      reachable-down m wanted held ts
          (mark_if (contains wanted t.name && not (answers_probe a m t.name)) t.name down),
    )
  ]

  pub reachable-held :
      (m : Moment) (wanted : List Bytes) (held : Bytes → Bool) (ts : List Secondary)
      (down : Bytes → Bool)
      → (reachable a m wanted held ts down).held n ≡ held n
  unfolding reachable mark_if
  reachable-held m wanted held [] down = refl
  reachable-held m wanted held (t ∷ ts) down = ground (
    arith,
    reachable-held m wanted held ts
        (mark_if (contains wanted t.name && not (answers_probe a m t.name)) t.name down),
  )

  pub start_legs-failed :
      (m : Moment) (names : List Bytes) (held : Bytes → Bool)
      → contains (start_legs a m names held).failed n ≡ (
          contains names n
          && (not (a.is_locked m n) || (not (held n || a.is_closed m n) && not (a.is_started m n))))
  unfolding start_legs mark_if outside_window
  start_legs-failed m [] held = refl
  start_legs-failed m (k ∷ ks) held = elim (Bool-cases (k == n)) [
    | inl same ↦
        rw (==→eq k n same)
          (ground (arith, ==_refl n, start_legs-failed m ks (locks_after a m held n)))
    | inr other ↦ ground (arith, other, start_legs-failed m ks (locks_after a m held k))
  ]

  pub start_legs-legs :
      (m : Moment) (names : List Bytes) (held : Bytes → Bool)
      → contains (start_legs a m names held).legs n ≡ (
          contains names n
          && (a.is_locked m n && (not (held n || a.is_closed m n) && a.is_started m n)))
  unfolding start_legs mark_if outside_window
  start_legs-legs m [] held = refl
  start_legs-legs m (k ∷ ks) held = elim (Bool-cases (k == n)) [
    | inl same ↦
        rw (==→eq k n same)
          (ground (arith, ==_refl n, start_legs-legs m ks (locks_after a m held n)))
    | inr other ↦ ground (arith, other, start_legs-legs m ks (locks_after a m held k))
  ]

  pub start_legs-held :
      (m : Moment) (names : List Bytes) (held : Bytes → Bool)
      → (start_legs a m names held).held n
        ≡ (held n || (contains names n && (a.is_locked m n && a.is_closed m n)))
  unfolding start_legs mark_if outside_window
  start_legs-held m [] held = ground arith
  start_legs-held m (k ∷ ks) held = elim (Bool-cases (k == n)) [
    | inl same ↦
        rw (==→eq k n same)
          (ground (arith, ==_refl n, start_legs-held m ks (locks_after a m held n)))
    | inr other ↦ ground (arith, other, start_legs-held m ks (locks_after a m held k))
  ]

  pub copy_legs-failed :
      (m : Moment) (names : List Bytes) (held : Bytes → Bool)
      → contains (copy_legs a m names held).failed n ≡ (
          contains names n
          && (not (a.is_locked m n)
              || (not (held n || a.is_closed m n) && not (a.is_started m n && a.is_copied m n))))
  unfolding copy_legs
  copy_legs-failed m names held =
      let s = start_legs a m names held in
      contains-append s.failed (keep (λ k. not (a.is_copied m k)) s.legs) n
      ∙ ground (
        arith,
        contains-keep (λ k. not (a.is_copied m k)) s.legs n,
        start_legs-failed m names held,
        start_legs-legs m names held,
      )

  pub copy_legs-held :
      (m : Moment) (names : List Bytes) (held : Bytes → Bool)
      → (copy_legs a m names held).held n
        ≡ (held n || (contains names n && (a.is_locked m n && a.is_closed m n)))
  unfolding copy_legs
  copy_legs-held m names held = start_legs-held m names held

  pub list_names-down :
      (down : Bytes → Bool) (ts : List Secondary) (held : Bytes → Bool)
      → (list_names a down ts held).down n ≡ down n
  unfolding list_names
  list_names-down down [] held = refl
  list_names-down down (t ∷ ts) held = ground (
    arith,
    list_names-down down ts
        (mark_if (not (down t.name) && outside_window a listing held t.name) t.name held),
  )
