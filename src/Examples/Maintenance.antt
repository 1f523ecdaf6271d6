-- ===== src/Examples/Maintenance.antt =====
-- Maintenance of a primary and a secondary storage (internal/maintenance/maintenance.go).
use archiver.Shared.{
  All, Bytes, [], arith, atoi, atoi_value, bytes_beq, codes, false, fields, itoa, lookup, negsuc,
  none, pos, refl, some, sort_texts, split_lines, true, ◌∷◌, ◌≡◌, nat_eq, bytes_eq, int_eq,
}
use archiver.Maintenance.Record.{State, read_state, print_state, get_time, field_exhaustive}
use archiver.Maintenance.Record.Roundtrip.{IsPlainEntry, lookup-read_state}
use archiver.Maintenance.Storage.{Settings, Target, Answers, reached, exited, ran, storage}
use archiver.Maintenance.Storage.Times.{storage-time}
use archiver.Maintenance.Run.{Turn, RunAnswers, stepped, main, exit_code}
use archiver.Maintenance.Run.Turns.{is_maintained}
use archiver.Maintenance.Run.Exit.{maintained_by_run, main-is_maintained}

abbrev state : State
state =
    (codes "nas", record { check = pos 20; prune = pos 30; exhaustive = pos 0 })
    ∷ (codes "cloud", record { check = pos 10; prune = negsuc 4; exhaustive = pos 7 })
    ∷ []

state-IsPlainEntry : All IsPlainEntry state
state-IsPlainEntry = (
  (
    refl,
    record { check_range = omega arith; prune_range = omega arith; exhaustive_range = omega arith },
  ),
  (
    (
      refl,
      record {
        check_range = omega arith;
        prune_range = omega arith;
        exhaustive_range = omega arith;
      },
    ),
    tt,
  ),
)

lookup-read_state_example :
    lookup (codes "cloud") (read_state (some (print_state state))) ≡ lookup (codes "cloud") state
lookup-read_state_example = lookup-read_state state (codes "cloud") state-IsPlainEntry

print_state-two : print_state state ≡ codes "cloud 10 -5 7\nnas 20 30 0\n"
unfolding print_state sort_texts itoa bytes_beq
print_state-two = refl

-- A prune each week, less an hour.
abbrev settings : Settings
settings = record { check_backups = true; prune_backups = true; interval = 604800; forced = false }

abbrev target : Bytes → Target
target name = record { name = name; has_checkin = true }

abbrev answers : Answers
answers = record {
  check_end = exited true;
  check_time = pos 700000;
  check_written = true;
  stop_after_check = false;
  reach = reached;
  due_time = pos 700001;
  before = some (codes "Snapshot nas-app revision 1 created at noon" ∷ []);
  stop_before_prune = false;
  prune_end = ran none;
  prune_time = pos 700002;
  prune_written = true;
  after = some [];
}

storage-time_example :
    get_time (codes "nas") field_exhaustive (
      read_state
        (storage settings true (target (codes "nas")) answers (some (print_state state))).disk)
    ≡ pos 700002
unfolding bytes_beq storage split_lines sort_texts itoa fields atoi_value atoi
storage-time_example =
    storage-time settings true (target (codes "nas")) answers (some (print_state state))
      (codes "nas") field_exhaustive refl (omega arith) (omega arith)

abbrev turn : Bytes → Turn
turn name = record {
  target = target name;
  first_reach = reached;
  adding = stepped;
  stop_before = false;
  answers = answers;
}

abbrev run : RunAnswers
run = record {
  workers_keep = false;
  primary_reach = reached;
  preparing = stepped;
  stop_at_end = false;
}

main-is_maintained_example :
    All
      (λ t.
        is_maintained settings
          (main settings run (turn (codes "nas")) (turn (codes "cloud") ∷ []) none).acts
          t
        ≡ true)
      (maintained_by_run run (turn (codes "nas")) (turn (codes "cloud") ∷ []))
unfolding exit_code main fields bytes_beq
main-is_maintained_example =
    main-is_maintained settings run (turn (codes "nas")) (turn (codes "cloud") ∷ []) none refl
