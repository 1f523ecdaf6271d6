-- ===== src/Backup/Copies/Told.antt =====
-- What the check-ins of the secondaries hear (internal/pipeline/backup.go: `targetCheckins`).
use archiver.Shared.{
  All, All-map, Bool, Bool-cases, Bytes, List, [], arith, contains, contains_self, if◌then◌else◌,
  inl, inr, not, refl, true, ◌||◌, ◌∷◌, ◌≡◌, nat_eq, bytes_eq, int_eq,
}
use archiver.Backup.Copies.{
  Secondary, CopyAnswers, Ended, make_copies, ping_all, target_checkins, copies,
}
use archiver.Backup.Copies.Members.{names_of}
use archiver.Backup.Copies.Fates.{Fate, fate, is_held, is_copied, IsFated, make_copies-IsFated}

-- What a secondary with a fate hears at its URL.
abbrev pub heard : Secondary → Fate → List (Bytes × Bool) → List (Bytes × Bool)
heard t f rest = if not t.has_url || is_held f then rest else (t.name, is_copied f) ∷ rest

-- What the secondaries hear, each by its own fate.
abbrev pub told :
    CopyAnswers → (Bytes → Bool) → (Bytes → Bool) → List Secondary → List (Bytes × Bool)
told a down held [] = []
told a down held (t ∷ ts) =
    heard t (fate a t.name (down t.name) (held t.name)) (told a down held ts)

module _ (a : CopyAnswers) (down held : Bytes → Bool) where
  ping_all-told :
      (e : Ended) (ts : List Secondary)
      → All (IsFated a down held e) (names_of ts)
      → ping_all e ts ≡ told a down held ts
  unfolding ping_all
  ping_all-told e [] h = refl
  ping_all-told e (t ∷ ts) ((hh, hg), hs) = ground (arith, hh, hg, ping_all-told e ts hs)

  -- Unless a signal ends the run or the primary is lost during the copies, the check-in of every
  -- secondary hears what its own copy came to, whatever becomes of the others: that it was copied, at
  -- once or when tried again; that it was not; or nothing, where its copy window held the copy.
  pub copies-told :
      (ts : List Secondary)
      → (copies a ts down held).1
        ≡ (if a.signaled_at_end || (copies a ts down held).0.lost then [] else told a down held ts)
  unfolding copies target_checkins
  copies-told ts = elim (Bool-cases (make_copies a ts down held).lost) [
    | inl lost ↦ ground (arith, lost)
    | inr kept ↦ ground (
      arith,
      kept,
      ping_all-told (make_copies a ts down held) ts (
          All-map (λ n. contains (names_of ts) n ≡ true)
            (IsFated a down held (make_copies a ts down held)) (names_of ts)
            (λ n named. make_copies-IsFated a down held ts n named kept)
            (contains_self (names_of ts))),
    )
  ]
