-- ===== src/Examples/Restore.antt =====
-- A restore and a backup that begin at once (internal/restore/restore.go: `guard`), and a restore from
-- two storages (internal/restore/auto.go: `run`).
use archiver.Shared.{
  Bytes, List, [], atoi, atoi_value, bytes_beq, codes, contains, false, fields, if◌then◌else◌,
  leb_ℤ, nat_beq, newline, none, not, pos, refl, some, sort_ints, split_lines, true, ◌++◌, ◌==◌,
  ◌||◌, ◌∷◌, ◌≡◌, nat_eq, bytes_eq, int_eq,
}
use archiver.Restore.Guard.{
  Move, at_start, moves, restore_holds, restore_checks, backup_acquires, backup_probes,
  backup_closes,
}
use archiver.Restore.Guard.Locks.{is_restoring, is_running}
use archiver.Restore.Auto.{Storage, Request, listed_revisions, run, pick, parse_revisions}
use archiver.Restore.Auto.Outcome.{result, expected, none_tells, first_with, run-result, pick_lem}
use archiver.Restore.Guard.Apart.{moves_apart}

abbrev listing : Bytes
listing =
    codes "Snapshot nas-app revision 7 created at noon"
    ++ newline ∷ codes "Snapshot nas-other revision 9 created at noon"
    ++ newline ∷ codes "Snapshot nas-app revision 3 created at dawn"

-- Both take their lock; the backup then sees the restore's and gives up, and the restore goes on.
abbrev both : List Move
both = restore_holds 7 ∷ backup_acquires 3 ∷ backup_probes 3 ∷ restore_checks 7 ∷ []

moves-both : is_restoring ((moves both at_start).restores 7) ≡ true
unfolding moves
moves-both = refl

-- The backup is first; the restore sees it and gives up.
moves-first :
    is_running (
      (moves
          (backup_acquires 3
            ∷ backup_probes 3
            ∷ backup_closes 3
            ∷ restore_holds 7
            ∷ restore_checks 7
            ∷ [])
          at_start).backups
        3)
    ≡ true
unfolding moves
moves-first = refl

moves_apart_example :
    ((not (is_restoring ((moves both at_start).restores 7))
        || not (is_running ((moves both at_start).backups 3)))
      ≡ true)
    × (((not (is_restoring ((moves both at_start).restores 7))
            || (not (is_restoring ((moves both at_start).restores 3)) || nat_beq 7 3))
          ≡ true)
        × ((not (is_running ((moves both at_start).backups 7))
              || (not (is_running ((moves both at_start).backups 3)) || nat_beq 7 3))
            ≡ true))
moves_apart_example = moves_apart both 7 3

-- The first storage cannot be reached, the second has three revisions.
abbrev two_storages : List Storage
two_storages =
    record {
      name = codes "local";
      connects = false;
      listing = none;
      restores = λ r. true;
      hook_ok = true;
    }
    ∷ record {
      name = codes "cloud";
      connects = true;
      listing = some listing;
      restores = λ r. true;
      hook_ok = false;
    }
    ∷ []

abbrev request : Request
request = record { id = codes "nas-app"; revision = codes "latest"; hook = true }

run-result_example :
    result (run request true true true two_storages)
    ≡ expected request (none_tells request two_storages) (first_with request two_storages)
run-result_example = run-result request true true true two_storages

run-cloud : result (run request true true true two_storages) ≡ ((codes "cloud", pos 7) ∷ [], 1)
unfolding run sort_ints fields bytes_beq atoi split_lines
run-cloud = refl

pick_lem_example :
    (contains (listed_revisions (codes "nas-app") (split_lines listing)) (pos 7) ≡ true)
    × ((if codes "latest" == codes "latest"
          then not (contains (listed_revisions (codes "nas-app") (split_lines listing)) (pos 3))
            || leb_ℤ (pos 3) (pos 7)
          else pos 7 == atoi_value (codes "latest"))
        ≡ true)
unfolding pick parse_revisions sort_ints fields bytes_beq atoi split_lines
pick_lem_example = pick_lem (codes "nas-app") (codes "latest") listing (pos 7) (pos 3) refl
