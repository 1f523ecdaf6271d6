-- ===== src/Backup/Interrupted.antt =====
-- Finishing an interrupted run (internal/pipeline/backup.go: `finishInterrupted`,
-- `unfinishedFirst`, `recordRun`).
use archiver.Shared.{
  ==_refl, ==→eq, Bool, Bool-cases, Bytes, List, Option, [], any_of, any_of-append, ap, arith,
  contains, contains-sort_texts, false, has_key, if◌then◌else◌, inl, inr, insert, keep, lookup, map,
  none, not, pos, refl, some, sort_texts, true, ℤ, ◌++◌, ◌==◌, ◌||◌, ◌∙◌, ◌∷◌, ◌≡◌, nat_eq,
  bytes_eq, int_eq,
}
use archiver.Resume.{Record, Run, hooked, pending, unfinished, set, begin, replace}
use archiver.Backup.{Act, recorded, post_hook, errored, interrupted, error_if}

-- What the restart meets: which directories are configured, which names a snapshot ID may have,
-- whether there is a post hook (`none` is an error in looking), whether it ends well, and whether
-- the record can be written.
pub record Restart : Type 0 where
  pub configured : Bytes → Bool
  pub valid : Bytes → Bool
  pub post_exists : Bytes → Option Bool
  pub post_ok : Bytes → Bool
  pub written : Bytes → Bool

unfoldable pub run_post : Restart → Bytes → Option Bool → List Act
run_post r dir none = errored ∷ []
run_post r dir (some has) =
    if has then post_hook dir interrupted ∷ error_if (not (r.post_ok dir)) else []

-- The body of the loop, for a service that the record has between its hooks.
unfoldable pub settle_service : Restart → Bytes → List Act
unfolding run_post
settle_service r dir =
    if not (r.configured dir) || not (r.valid dir)
    then recorded dir pending (r.written dir) ∷ []
    else run_post r dir (r.post_exists dir) ++ recorded dir pending (r.written dir) ∷ []

unfoldable pub is_hooked : Bytes → List (Bytes × Bytes) → Bool
is_hooked dir services = elim (lookup dir services) [ none ↦ false | some s ↦ s == hooked ]

unfoldable pub settle_services : Restart → List (Bytes × Bytes) → List Bytes → List Act
unfolding settle_service is_hooked
settle_services r services [] = []
settle_services r services (dir ∷ dirs) =
    let rest = settle_services r services dirs in
    if is_hooked dir services then settle_service r dir ++ rest else rest

abbrev key_of : Bytes × Bytes → Bytes
key_of (k, v) = k

-- `finishInterrupted`, of what the record's file reads as.
unfoldable pub finish_interrupted : Restart → Option Record → List Act
unfolding settle_services sort_texts
finish_interrupted r none = []
finish_interrupted r (some rec) =
    settle_services r rec.services (sort_texts (map key_of rec.services))

-- `unfinishedFirst`
unfoldable pub unfinished_first : List Bytes → Record → List Bytes
unfolding unfinished
unfinished_first dirs prior =
    keep (λ d. unfinished prior d) dirs ++ keep (λ d. not (unfinished prior d)) dirs

-- `recordRun`, over the run that the interrupted one's record was taken into, or a new one.
unfoldable pub pending_all : List Bytes → List (Bytes × Bytes)
pending_all [] = []
pending_all (d ∷ ds) = insert d pending (pending_all ds)

unfoldable pub record_run : Bool → ℤ → List Bytes → Option Run → Run
unfolding pending_all replace begin
record_run writes now dirs none =
    begin writes now (record { drill = []; started = pos 0; services = pending_all dirs }) none
record_run writes now dirs (some run) =
    replace writes (record { drill = []; started = pos 0; services = pending_all dirs }) run

-- The acts of a run on its record.
unfoldable pub keep_record : Act → Run → Run
unfolding set
keep_record x run = elim x [ recorded dir stage written ↦ set written dir stage run | _ ↦ run ]

unfoldable pub replay : List Act → Run → Run
unfolding keep_record
replay [] run = run
replay (x ∷ xs) run = replay xs (keep_record x run)

unfoldable pub is_post : Bytes → Act → Bool
is_post d x = elim x [ post_hook e r ↦ e == d | _ ↦ false ]

has_key-contains : (d : Bytes) (m : List (Bytes × Bytes)) → contains (map key_of m) d ≡ has_key d m
has_key-contains d [] = refl
has_key-contains d ((k, v) ∷ m) = ap (λ b. k == d || b) (has_key-contains d m)

is_hooked-has_key :
    (d : Bytes) (m : List (Bytes × Bytes)) → is_hooked d m ≡ true → has_key d m ≡ true
unfolding is_hooked
is_hooked-has_key d [] h = h
is_hooked-has_key d ((k, v) ∷ m) h = ground (arith, is_hooked-has_key d m)

module _ (r : Restart) (d : Bytes) (known : r.configured d ≡ true) (named : r.valid d ≡ true)
    (has : r.post_exists d ≡ some true) where
  settle_service-post : any_of (is_post d) (settle_service r d) ≡ true
  unfolding settle_service run_post is_post
  settle_service-post = rw (known, named, has, ==_refl d) refl

  settle_services-post :
      (services : List (Bytes × Bytes)) (dirs : List Bytes)
      → is_hooked d services ≡ true
      → contains dirs d ≡ true
      → any_of (is_post d) (settle_services r services dirs) ≡ true
  unfolding settle_services
  settle_services-post services [] h c = c
  settle_services-post services (e ∷ es) h c = elim (Bool-cases (e == d)) [
    | inl same ↦
        rw
          (
            ==→eq e d same,
            h,
            any_of-append (is_post d) (settle_service r d) (settle_services r services es),
            settle_service-post,
          )
          refl
    | inr other ↦
        let more = settle_services-post services es h (rw other at c) in
        elim (Bool-cases (is_hooked e services)) [
          | inl yes_hooked ↦
              rw
                (
                  yes_hooked,
                  any_of-append (is_post d) (settle_service r e) (settle_services r services es),
                )
                (ground (arith, more))
          | inr not_hooked ↦ rw not_hooked more
        ]
  ]

  -- A configured service that the record has between its hooks gets its post hook.
  pub finish_interrupted-post :
      (rec : Record)
      → is_hooked d rec.services ≡ true
      → any_of (is_post d) (finish_interrupted r (some rec)) ≡ true
  unfolding finish_interrupted
  finish_interrupted-post rec h = settle_services-post rec.services _ h (
      contains-sort_texts (map key_of rec.services) d
      ∙ (has_key-contains d rec.services ∙ is_hooked-has_key d rec.services h))
