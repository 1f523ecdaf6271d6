-- ===== src/Examples/Prune.antt =====
-- Local prunes of a primary with two snapshot IDs (internal/localprune).
use archiver.Shared.{
  All, Bytes, List, [], any_of, arith, atoi, bytes_beq, codes, cut_prefix, false, has_prefix, inl,
  inr, keep, not, pos, refl, some, sort_ints, sort_texts, true, ℤ, ◌∷◌, ◌≡◌, ◌≢◌,
}
use archiver.Copier.Mirror.{get, append_at, sort_all}
use archiver.Copier.Reading.{revisions, lacking, listed_newest, parse_key}
use archiver.Copier.Reading.Protects.{revisions-protects}
use archiver.Inuse.{Set, has, Revision, holding_has, covers}
use archiver.Inuse.Registry.{hold, read}
use archiver.Localprune.{planned, split}
use archiver.Localprune.Prune.{
  Options, Command, dry_run, delete_revisions, reclaim, reclaim_exhaustive, Duplicacy, run,
}
use archiver.Localprune.Spares.{dry_plan, IsSparing, run-IsSparing, Leaves}
use archiver.Localprune.Complete.{deletes, run-deletes}
use archiver.Localprune.Copies.{run_spares_copy}

abbrev local_storage : Bytes
local_storage = codes "local"

abbrev photos : Bytes
photos = codes "nas-photos"

abbrev options : Options
options = record {
  storage = local_storage;
  keep_args = codes "-keep" ∷ codes "0:30" ∷ [];
  threads = codes "4";
  exhaustive = false;
}

abbrev listing : List Bytes
listing = codes "nas-photos:1" ∷ codes "nas-photos:2" ∷ codes "nas-docs:1" ∷ []

abbrev target_listing : List Bytes
target_listing = codes "nas-photos:1" ∷ []

-- A dry run that would delete the first two revisions of the photos; every command works.
abbrev duplicacy : Duplicacy
duplicacy done dry_run = record {
  failed = false;
  output =
      codes "Deleting snapshot nas-photos at revision 1"
      ∷ codes "Fossil collection 1 saved"
      ∷ codes "Deleting snapshot nas-photos at revision 2"
      ∷ [];
}
duplicacy done _ = record { failed = false; output = [] }

-- A reader of the second revision.
abbrev busy : Set
busy = (record { storage = local_storage; id = photos; rev = pos 2; and_newer = false } ∷ []) ∷ []

planned_test : planned (duplicacy [] dry_run).output ≡ (photos, pos 1 ∷ pos 2 ∷ []) ∷ []
unfolding planned sort_all cut_prefix bytes_beq append_at sort_ints
planned_test = refl

run_test :
    (run duplicacy options true (some busy)).commands
    ≡ dry_run ∷ delete_revisions photos (pos 1 ∷ []) ∷ []
unfolding run split planned sort_all cut_prefix bytes_beq append_at sort_ints has covers sort_texts
run_test = refl

abbrev registered : List Revision
registered = revisions local_storage (listed_newest listing) (lacking listing target_listing)

run_spares_copy_example :
    All
      (Leaves photos (pos 2))
      (run duplicacy options true
        (some (read local_storage (hold (codes "copy-nas") registered [])).0)).commands
unfolding parse_key lacking listed_newest has_prefix atoi bytes_beq
run_spares_copy_example =
    run_spares_copy duplicacy options local_storage (codes "copy-nas") [] listing target_listing
      photos (pos 2) refl refl (refl, (refl, (refl, tt))) refl (omega arith)
      (omega arith, omega arith) (inl refl)

run-IsSparing_example :
    All (IsSparing busy (dry_plan duplicacy)) (run duplicacy options true (some busy)).commands
run-IsSparing_example = run-IsSparing duplicacy options busy

every_works : (history : List Command) (c : Command) → (duplicacy history c).failed ≡ false
every_works history dry_run = refl
every_works history (delete_revisions id revs) = refl
every_works history reclaim = refl
every_works history reclaim_exhaustive = refl

something_due : keep (λ r. not (has busy photos r)) (get photos (dry_plan duplicacy)) ≢ []
unfolding append_at sort_all covers has run planned split sort_ints bytes_beq cut_prefix sort_texts
something_due e = let e' : ◌≡◌ {A = List ℤ} (pos 1 ∷ []) [] = e in cc

run-deletes_example :
    any_of (deletes photos) (run duplicacy options true (some busy)).commands ≡ true
unfolding run split planned sort_all cut_prefix bytes_beq append_at sort_ints has covers sort_texts
run-deletes_example = run-deletes duplicacy options busy photos refl something_due

revisions-protects_example :
    holding_has
      (revisions local_storage (listed_newest listing) (lacking listing target_listing))
      (codes "nas-music")
      (pos 7)
    ≡ true
unfolding parse_key listed_newest atoi bytes_beq
revisions-protects_example =
    revisions-protects local_storage listing target_listing (codes "nas-music") (pos 7) refl
      (omega arith) (omega arith, omega arith) (inr (omega arith))
