-- ===== src/Examples/Backup.antt =====
-- A backup of two services: the first one's data is saved, the second one's pre hook fails
-- (internal/pipeline/backup.go).
use archiver.Shared.{
  All, Bool, Bytes, List, [], any_of, bytes_beq, codes, false, if◌then◌else◌, inr, map, not, pos,
  refl, some, true, ℕ, ◌&&◌, ◌==◌, ◌||◌, ◌∷◌, ◌≡◌, ◌⊎◌, nat_eq, bytes_eq, int_eq,
}
use archiver.Resume.{Record, Run, hooked}
use archiver.Backup.{
  Act, staged, recorded, pre_hook, Result, Answers, BackupAnswers, exited, ended, backup_service,
  is_success,
}
use archiver.Backup.Hooks.{gather, outcome_of, told_of, hooked_of}
use archiver.Backup.Hooks.Once.{is_nil, backup_service-hooks}
use archiver.Backup.Copies.{Secondary, CopyAnswers, retrying, make_copies, probe_all}
use archiver.Backup.Copies.Members.{names_of}
use archiver.Backup.Run.Copied.{is_kept}
use archiver.Backup.Crash.Apart.{IsOneGroup}
use archiver.Backup.Run.{flatten, Turn, MainAnswers, run_services, main}
use archiver.Backup.Run.Exit.{main-backed_up}
use archiver.Backup.Run.Services.{dir_of}
use archiver.Backup.Interrupted.{is_hooked, Restart, finish_interrupted, replay, is_post}
use archiver.Backup.Crash.Again.{finish_interrupted-crash}
use archiver.Backup.Crash.Restarts.{hooked_on_disk, IsHooked, between_hooks, crash-post}

abbrev fine_backup : BackupAnswers
fine_backup = record {
  url_ok = true;
  repo_ok = true;
  preferences_removed = true;
  init_ok = true;
  diagnosed = false;
  list_ok = true;
  filters_written = true;
  start_ok = true;
  run_end = exited false true;
}

-- A service with both hooks, whose pre hook ends well or not.
abbrev answers : Bool → Answers
answers pre_ok = record {
  is_dir = true;
  valid_id = true;
  has_legacy = false;
  filters_ok = true;
  pre_exists = some true;
  post_exists = some true;
  state_made = true;
  stopped_before_pre = false;
  stopped_before_backup = false;
  signaled = false;
  stopped_at_probe = false;
  stopped_after = false;
  stopped_at_end = false;
  hooked_written = true;
  pre_end = ended pre_ok;
  filters_again = true;
  backup = fine_backup;
  post_ok = true;
  last_written = true;
  probe_ok = true;
}

abbrev app : Bytes
app = codes "/srv/app"

abbrev photos : Bytes
photos = codes "/srv/photos"

backup_service-hooks_example :
    let o = backup_service (answers false) app true true false in
    (r : Result) × ((gather outcome_of o.acts ≡ (app, r) ∷ [])
      × (gather told_of o.acts ≡ (
          if true && (not (is_nil (gather hooked_of o.acts)) || not true)
          then (app, r) ∷ []
          else []))
      × (o.ok ≡ is_success r))
backup_service-hooks_example = backup_service-hooks (answers false) app true true refl

-- Two groups of one service each, whose acts take turns.
abbrev turn_of : Bytes → Turn
turn_of dir = record {
  dir = dir;
  stopped_before = false;
  down_before = false;
  down_within = false;
  answers = answers true;
}

abbrev groups : List (List Turn)
groups = (turn_of app ∷ []) ∷ (turn_of photos ∷ []) ∷ []

abbrev schedule : List ℕ
schedule = 1 ∷ 0 ∷ 1 ∷ 0 ∷ 0 ∷ 1 ∷ 0 ∷ []

-- One secondary is copied when it is tried again, the other is outside its copy window.
abbrev secondaries : List Secondary
secondaries =
    record { name = codes "slow"; has_url = true }
    ∷ record { name = codes "nightly"; has_url = false }
    ∷ []

abbrev copy_twice : CopyAnswers
copy_twice = record {
  is_closed = λ m n. n == codes "nightly";
  is_reached = λ m n. true;
  is_stopped = λ m n. false;
  is_locked = λ m n. true;
  is_started = λ m n. true;
  is_copied = λ m n. elim m [ retrying ↦ true | _ ↦ false ];
  signaled = false;
  signaled_at_end = false;
  primary_ok = true;
  stopped_at_primary = false;
}

abbrev fine_main : MainAnswers
fine_main = record {
  first_probe_ok = true;
  stopped_at_first = false;
  has_workers = false;
  secondaries = secondaries;
  copy = copy_twice;
  down_at_adding = [];
  held_at_adding = [];
  stopped_after = false;
  second_probe_ok = true;
  stopped_at_second = false;
  stopped_after_copies = false;
  kit_errors = 0;
  stopped_after_kit = false;
}

main-backed_up_example :
    (fine_main.first_probe_ok ≡ true)
    × ((run_services schedule groups).working ≡ map dir_of (flatten groups))
    × All (λ n. is_kept fine_main n ≡ true) (names_of fine_main.secondaries)
unfolding main make_copies probe_all bytes_beq
main-backed_up_example =
    main-backed_up fine_main schedule groups (λ h. absurd (cc h)) (λ h. absurd (cc h)) refl

abbrev fresh : Run
fresh =
    let rec : Record = record { drill = []; started = pos 100; services = [] } in
    record { rec = rec; disk = some rec }

-- The acts up to the first service's pre hook.
abbrev until_hook : List Act
until_hook =
    staged (codes "service:/srv/photos") (codes "pre-backup")
    ∷ staged (codes "service:/srv/app") (codes "pre-backup")
    ∷ recorded photos hooked true
    ∷ recorded app hooked true
    ∷ pre_hook app
    ∷ []

abbrev drop_five : List Act → List Act
drop_five (a ∷ b ∷ c ∷ d ∷ e ∷ xs) = xs
drop_five xs = []

abbrev restart : Restart
restart = record {
  configured = λ d. true;
  valid = λ d. true;
  post_exists = λ d. some true;
  post_ok = λ d. true;
  written = λ d. true;
}

groups-IsHooked : All (All (IsHooked app)) groups
groups-IsHooked = (
  (record { recordable = refl; posts = λ h. refl }, tt),
  ((record { recordable = refl; posts = λ h. refl }, tt), tt),
)

one_group : IsOneGroup app groups
unfolding bytes_beq
one_group = inr ((refl, tt), tt)

crash-post_example :
    any_of (is_post app) (finish_interrupted restart (replay until_hook fresh).disk) ≡ true
unfolding run_services between_hooks bytes_beq
crash-post_example =
    crash-post app schedule groups fresh until_hook (drop_five (run_services schedule groups).acts)
      restart one_group groups-IsHooked refl refl refl refl refl

abbrev left_open : Record
left_open = record { drill = []; started = pos 100; services = (app, hooked) ∷ [] }

finish_interrupted-crash_example :
    (any_of (is_post app) [] ≡ true)
    ⊎ (hooked_on_disk app (replay [] (record { rec = left_open; disk = some left_open })).disk
        ≡ true)
unfolding is_hooked bytes_beq
finish_interrupted-crash_example =
    finish_interrupted-crash app left_open [] (finish_interrupted restart (some left_open)) restart
      refl refl refl refl refl
