-- ===== src/Backup/Run.antt =====
-- A run of the backup over its groups of services, which run at once, each one service after another
-- (internal/pipeline/backup.go: `main`, `exitCode`, `handleStop`), with the copies that it makes itself
-- where no copy workers run. The groups (`groupServices`) are an argument. The recovery kit is an argument: the errors it logs, and whether a stop is seen.
use archiver.Shared.{
  Bool, Bytes, List, [], any_of, codes, contains, false, if◌then◌else◌, map, not, suc, true, zero,
  ℕ, ◌&&◌, ◌++◌, ◌||◌, ◌∷◌, nat_eq, bytes_eq, int_eq,
}
pub mod Services
pub mod Copied
pub mod Exit
use archiver.Backup.{
  Act, lost_primary, errored, probed, Answers, Outcome, refused, process_service, skipped,
}
use archiver.Backup.Copies.{
  CopyAct, CopyAnswers, Secondary, Names, Ended, probe_all, make_copies, probed_primary,
  primary_lost, unreachable, failed_again,
}
use archiver.Backup.Failing.{is_error}

-- A service's turn: what is seen before it (a stop, asked for or of another service; the primary down),
-- whether the primary is down once its stage is recorded, and what its surroundings answer.
pub record Turn : Type 0 where
  pub dir : Bytes
  pub stopped_before : Bool
  pub down_before : Bool
  pub down_within : Bool
  pub answers : Answers

unfoldable pub is_lost : Act → Bool
is_lost x = elim x [ lost_primary ↦ true | _ ↦ false ]

-- The services that were run: the acts, which backed up, whether one ended the run, and whether the
-- primary is down.
pub record Ran : Type 0 where
  pub acts : List Act
  pub working : List Bytes
  pub stop : Bool
  pub down : Bool

-- One turn of the loop over a group: a service is skipped once the primary is down.
unfoldable pub take_turn : Turn → Outcome
unfolding process_service refused
take_turn t =
    if t.down_before then refused t.dir skipped else process_service t.answers t.dir t.down_within

abbrev working_if : Bool → Bytes → List Bytes
working_if ok dir = if ok then dir ∷ [] else []

-- What one group of services did.
pub record GroupRan : Type 0 where
  pub acts : List Act
  pub working : List Bytes
  pub stop : Bool

-- A group goes one service after another.
unfoldable pub run_group : List Turn → GroupRan
unfolding take_turn
run_group [] = record { acts = []; working = []; stop = false }
run_group (t ∷ ts) =
    let o = take_turn t in
    let rest = run_group ts in
    if t.stopped_before
    then record { acts = []; working = []; stop = false }
    else if o.stop
    then record { acts = o.acts; working = working_if o.ok t.dir; stop = true }
    else record {
      acts = o.acts ++ rest.acts;
      working = working_if o.ok t.dir ++ rest.working;
      stop = rest.stop;
    }

abbrev pub acts_of : List Turn → List Act
acts_of g = (run_group g).acts

abbrev pub is_stopping : List Turn → Bool
is_stopping g = (run_group g).stop

abbrev pub flatten {ℓ} : {A : Type ℓ} → List (List A) → List A
flatten [] = []
flatten (xs ∷ xss) = xs ++ flatten xss

-- The next act of a group, if it has one, and what is then left of all.
unfoldable pub next_of {ℓ} : {A : Type ℓ} → ℕ → List (List A) → List A
next_of n [] = []
next_of zero ([] ∷ xss) = []
next_of zero ((x ∷ xs) ∷ xss) = x ∷ []
next_of (suc n) (xs ∷ xss) = next_of n xss

unfoldable pub left_of {ℓ} : {A : Type ℓ} → ℕ → List (List A) → List (List A)
left_of n [] = []
left_of zero ([] ∷ xss) = [] ∷ xss
left_of zero ((x ∷ xs) ∷ xss) = xs ∷ xss
left_of (suc n) (xs ∷ xss) = xs ∷ left_of n xss

-- The acts of groups that run at once: a schedule says whose act comes next, and what it leaves comes
-- one group after another.
unfoldable pub interleave {ℓ} : {A : Type ℓ} → List ℕ → List (List A) → List A
unfolding next_of left_of
interleave [] xss = flatten xss
interleave (n ∷ ns) xss = next_of n xss ++ interleave ns (left_of n xss)

-- The groups of services, in some schedule.
unfoldable pub run_services : List ℕ → List (List Turn) → Ran
unfolding run_group interleave is_lost
run_services schedule groups =
    let acts = interleave schedule (map acts_of groups) in
    record {
      acts = acts;
      working = flatten (map (λ g. (run_group g).working) groups);
      stop = any_of is_stopping groups;
      down = any_of is_lost acts;
    }

-- How a run ends: its exit code, and the state that its lock file records last.
pub record Finished : Type 0 where
  pub acts : List Act
  pub code : ℕ
  pub state : Bytes

-- `complete` and `exitCode`
unfoldable pub complete : List Act → Finished
unfolding is_error
complete acts = record {
  acts = acts;
  code = if any_of is_error acts then 1 else 0;
  state = codes "completed";
}

-- `handleStop`
unfoldable pub handle_stop : List Act → Finished
handle_stop acts = record { acts = acts; code = 1; state = codes "stopped" }

-- What `main` meets besides its services.
pub record MainAnswers : Type 0 where
  pub first_probe_ok : Bool
  pub stopped_at_first : Bool
  -- whether copy workers keep the secondaries, and what the copies meet where they do not
  pub has_workers : Bool
  pub secondaries : List Secondary
  pub copy : CopyAnswers
  -- the secondaries found down, or outside their window, as a service's storages are added
  pub down_at_adding : List Bytes
  pub held_at_adding : List Bytes
  -- a stop seen after the services
  pub stopped_after : Bool
  pub second_probe_ok : Bool
  pub stopped_at_second : Bool
  -- a stop seen after the copies; the errors of the kit, and a stop seen after it
  pub stopped_after_copies : Bool
  pub kit_errors : ℕ
  pub stopped_after_kit : Bool

unfoldable pub errors : ℕ → List Act
errors zero = []
errors (suc n) = errored ∷ errors n

unfoldable pub skip_all : List Turn → List Act
unfolding refused
skip_all [] = []
skip_all (t ∷ ts) = (refused t.dir skipped).acts ++ skip_all ts

-- The acts of the copies that are acts of the run: what asks for the primary, and the errors.
unfoldable pub run_acts : List CopyAct → List Act
run_acts [] = []
run_acts (x ∷ xs) =
    let rest = run_acts xs in
    elim x [
      | unreachable n ↦ errored ∷ rest
      | failed_again n ↦ errored ∷ rest
      | probed_primary ↦ probed ∷ rest
      | primary_lost ↦ lost_primary ∷ rest
      | other ↦ rest
    ]

abbrev pub none_marked : Bytes → Bool
none_marked n = false

-- The recovery kit, and the end of `main`.
unfoldable pub kit_part : MainAnswers → List Act → Finished
unfolding complete handle_stop errors
kit_part a acts =
    if a.stopped_after_kit
    then handle_stop (acts ++ errors a.kit_errors)
    else complete (acts ++ errors a.kit_errors)

-- The end of `main` once the copies have ended.
unfoldable pub copies_ended : MainAnswers → Ended → List Act → Finished
unfolding kit_part
copies_ended a e acts =
    if a.stopped_after_copies
    then handle_stop acts
    else if e.lost
    then complete acts
    else kit_part a acts

-- The end of `main`, once a service has backed up: the copies, or handing them to the workers, and
-- the recovery kit.
unfoldable pub wrap_up : MainAnswers → Names → List Act → Finished
unfolding copies_ended run_acts
wrap_up a s acts =
    if a.has_workers
    then kit_part a acts
    else (let e = make_copies a.copy a.secondaries s.down s.held in
        copies_ended a e (acts ++ run_acts e.acts))

-- Without a service that backed up there is nothing to copy.
unfoldable pub after_working : MainAnswers → Names → List Bytes → List Act → Finished
unfolding wrap_up complete
after_working a s [] acts = complete (acts ++ errored ∷ [])
after_working a s (dir ∷ dirs) acts = wrap_up a s acts

-- `main`, after its services.
unfoldable pub after_services : MainAnswers → Names → Ran → List Act → Finished
unfolding after_working complete handle_stop
after_services a s r acts =
    if r.stop
    then handle_stop acts
    else if not r.down
        && (not a.stopped_after && (not a.second_probe_ok && not a.stopped_at_second))
    then complete (acts ++ lost_primary ∷ [])
    else if r.down
    then complete acts
    else if a.stopped_after
    then handle_stop acts
    else after_working a s r.working acts

-- The probes of the secondaries at the start, where no copy workers run.
unfoldable pub first_probes : MainAnswers → Names
first_probes a =
    if a.has_workers
    then record { acts = []; names = []; down = none_marked; held = none_marked }
    else probe_all a.copy a.secondaries none_marked none_marked

-- What is down or held by the end of the services: each that is found down is an error.
unfoldable pub after_adding : MainAnswers → Names → Names
after_adding a s = if a.has_workers then record s { acts = [] } else record {
  acts = map unreachable a.down_at_adding;
  names = [];
  down = λ n. s.down n || contains a.down_at_adding n;
  held = λ n. s.held n || contains a.held_at_adding n;
}

unfoldable pub main : MainAnswers → List ℕ → List (List Turn) → Finished
unfolding run_services after_services skip_all complete handle_stop first_probes after_adding
    run_acts
main a schedule groups =
    if a.first_probe_ok
    then (let r = run_services schedule groups in
        let s = first_probes a in
        let m = after_adding a s in
        after_services a m r (run_acts s.acts ++ (r.acts ++ run_acts m.acts)))
    else if a.stopped_at_first
    then handle_stop []
    else complete (lost_primary ∷ skip_all (flatten groups))
