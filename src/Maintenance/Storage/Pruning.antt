-- ===== src/Maintenance/Storage/Pruning.antt =====
-- What a storage's prune does to the acts and to the maintenance record
-- (internal/maintenance/maintenance.go, `storage`).
use archiver.Shared.{
  All, Bool, Bytes, InRange, IsWord, List, [], any_of-append, ap, append-nil, append_assoc, arith,
  either_branch, false, if◌then◌else◌, none, not, refl, some, subst, sym, true, ℤ, ◌&&◌, ◌++◌, ◌==◌,
  ◌||◌, ◌∙◌, ◌∷◌, ◌≡◌, nat_eq, bytes_eq, int_eq,
}
use archiver.Maintenance.Record.{
  Field, field_check, field_prune, field_exhaustive, State, read_state, get_time, set_time,
}
use archiver.Maintenance.Record.Roundtrip.{IsPlainEntry}
use archiver.Maintenance.Record.Plain.{
  read_state-plain, set_time-plain, field_beq, get_time-set_time, get_time-write_state,
}
use archiver.Maintenance.Storage.{
  Settings, Target, Act, staged, pruning, probe, list_revisions, prune_storage, errored, Probe,
  reached, unreachable, stopped, PruneEnd, prune_stopped, ran, Answers, Standing, written_acts,
  with_acts, set_pruned, prune_ended, prune_reached, prune_probed, prune_part, exhaustive_due,
  is_listed,
}
use archiver.Maintenance.Storage.Recorded.{
  is_act, ran_well, has_act, time_in, has_act-written, is_act-errored, no_act,
}

set_pruned-plain :
    (name : Bytes) (exhaustive : Bool) (at : ℤ) (s : State)
    → IsWord name
    → InRange at
    → All IsPlainEntry s
    → All IsPlainEntry (set_pruned name exhaustive at s)
unfolding set_pruned
set_pruned-plain name false at s w r h = set_time-plain name field_prune at s w r h
set_pruned-plain name true at s w r h =
    set_time-plain name field_exhaustive at (set_time name field_prune at s) w r
      (set_time-plain name field_prune at s w r h)

get_time-set_pruned :
    (n name : Bytes) (f : Field) (exhaustive : Bool) (at : ℤ) (s : State)
    → get_time n f (set_pruned name exhaustive at s) ≡ (
        if name == n && (field_beq field_prune f || exhaustive && field_beq field_exhaustive f)
        then at
        else get_time n f s)
unfolding set_pruned
get_time-set_pruned n name f false at s = get_time-set_time n name f field_prune at s ∙ ground arith
get_time-set_pruned n name f true at s =
    get_time-set_time n name f field_exhaustive at (set_time name field_prune at s)
    ∙ ground (arith, get_time-set_time n name f field_prune at s)

lists_nothing :
    (f : Field) (name : Bytes) (lists : Bool)
    → has_act f (if lists then list_revisions name ∷ [] else []) ≡ false
lists_nothing field_check name lists = ground arith
lists_nothing field_prune name lists = ground arith
lists_nothing field_exhaustive name lists = ground arith

quiet_end :
    (f : Field) (name : Bytes) (writes lists : Bool)
    → has_act f (written_acts name writes ++ (if lists then list_revisions name ∷ [] else []))
      ≡ false
quiet_end f name writes lists =
    any_of-append (is_act f) (written_acts name writes)
      (if lists then list_revisions name ∷ [] else [])
    ∙ rw (has_act-written f name writes) (lists_nothing f name lists)

-- What pruning does to the acts and the record: whether a prune ran, and whether exhaustively.
pub record IsPruning (t : Target) (a : Answers) (s r : Standing) : Type 0 where
  pub prunes : Bool
  pub exhaustively : Bool
  pub check_acts : has_act field_check r.acts ≡ has_act field_check s.acts
  pub prune_acts : has_act field_prune r.acts ≡ (has_act field_prune s.acts || prunes)
  pub exhaustive_acts :
      has_act field_exhaustive r.acts
      ≡ (has_act field_exhaustive s.acts || (prunes && exhaustively))
  pub times :
      (n : Bytes) (f : Field)
      → time_in n f r.disk ≡ (
          if (prunes && (ran_well a.prune_end && a.prune_written))
            && (t.name == n
                && (field_beq field_prune f || exhaustively && field_beq field_exhaustive f))
          then a.prune_time
          else time_in n f s.disk)

module _ (t : Target) (a : Answers) where
  -- A part that runs no prune.
  idle-IsPruning :
      (s r : Standing)
      → r.disk ≡ s.disk
      → ((f : Field) → has_act f r.acts ≡ has_act f s.acts)
      → IsPruning t a s r
  idle-IsPruning s r d h = record {
    prunes = false;
    exhaustively = false;
    check_acts = h field_check;
    prune_acts = ground (arith, h field_prune);
    exhaustive_acts = ground (arith, h field_exhaustive);
    times = λ n f. ap (time_in n f) d;
  }

  pub no-IsPruning : (s : Standing) → IsPruning t a s s
  no-IsPruning s = idle-IsPruning s s refl (λ f. refl)

  -- Acts that are added and are none of those that a field records.
  idle_acts :
      (f : Field) (acts : List Act) (s : Standing)
      → has_act f acts ≡ false
      → has_act f (with_acts acts s).acts ≡ has_act f s.acts
  unfolding with_acts
  idle_acts f acts s h = ground (arith, any_of-append (is_act f) s.acts acts, h)

  -- A prune that ran, and acts after it that no field records.
  ran-IsPruning :
      (exhaustive : Bool) (s r : Standing) (rest : List Act)
      → r.acts ≡ (s.acts ++ prune_storage t.name exhaustive ∷ []) ++ rest
      → ((f : Field) → has_act f rest ≡ false)
      → ((n : Bytes) (f : Field)
          → time_in n f r.disk ≡ (
              if (ran_well a.prune_end && a.prune_written)
                && (t.name == n
                    && (field_beq field_prune f || exhaustive && field_beq field_exhaustive f))
              then a.prune_time
              else time_in n f s.disk))
      → IsPruning t a s r
  ran-IsPruning exhaustive s r rest e quiet at =
      let added = λ (f : Field).
        ap (has_act f) e
        ∙ any_of-append (is_act f) (s.acts ++ prune_storage t.name exhaustive ∷ []) rest in
      let before =
        λ (f : Field). any_of-append (is_act f) s.acts (prune_storage t.name exhaustive ∷ []) in
      record {
        prunes = true;
        exhaustively = exhaustive;
        check_acts = ground (arith, added field_check, before field_check, quiet field_check);
        prune_acts = ground (arith, added field_prune, before field_prune, quiet field_prune);
        exhaustive_acts =
            ground (arith, added field_exhaustive, before field_exhaustive, quiet field_exhaustive);
        times = at;
      }

  prune_ended_lem :
      (primary exhaustive : Bool) (s : Standing) (end : PruneEnd)
      → end ≡ a.prune_end
      → IsWord t.name
      → InRange a.prune_time
      → IsPruning t a s (
          prune_ended primary exhaustive t a
            (with_acts (prune_storage t.name exhaustive ∷ []) s)
            end)
  unfolding prune_ended with_acts
  prune_ended_lem primary exhaustive s prune_stopped e w r =
      ran-IsPruning exhaustive s _ [] (sym (append-nil _)) (λ f. refl) (λ n f. rw (sym e) refl)
  prune_ended_lem primary exhaustive s (ran (some x)) e w r =
      ran-IsPruning exhaustive s _ (errored t.name ∷ []) refl
        (λ f. no_act f (errored t.name) [] (is_act-errored f t.name) refl) (λ n f. rw (sym e) refl)
  prune_ended_lem primary exhaustive s (ran none) e w r =
      ran-IsPruning exhaustive s _
        (written_acts t.name a.prune_written
          ++ (if primary && is_listed a.before then list_revisions t.name ∷ [] else []))
        refl (λ f. quiet_end f t.name a.prune_written (primary && is_listed a.before))
        (λ n f. rw (sym e) (
          get_time-write_state n f a.prune_written
            (set_pruned t.name exhaustive a.prune_time (read_state s.disk)) s.disk
            (set_pruned-plain t.name exhaustive a.prune_time (read_state s.disk) w r
              (read_state-plain s.disk))
          ∙ rw (get_time-set_pruned n t.name f exhaustive a.prune_time (read_state s.disk))
              (ground arith)))

  -- Acts before a part that no field records.
  after_idle :
      (acts : List Act) (s r : Standing)
      → ((f : Field) → has_act f acts ≡ false)
      → IsPruning t a (with_acts acts s) r
      → IsPruning t a s r
  unfolding with_acts
  after_idle acts s r quiet p = record {
    prunes = p.prunes;
    exhaustively = p.exhaustively;
    check_acts = p.check_acts ∙ idle_acts field_check acts s (quiet field_check);
    prune_acts = p.prune_acts ∙ rw (idle_acts field_prune acts s (quiet field_prune)) refl;
    exhaustive_acts =
        p.exhaustive_acts ∙ rw (idle_acts field_exhaustive acts s (quiet field_exhaustive)) refl;
    times = p.times;
  }

  pub with_acts_twice :
      (xs ys : List Act) (s : Standing) → with_acts ys (with_acts xs s) ≡ with_acts (xs ++ ys) s
  unfolding with_acts
  with_acts_twice xs ys s = ap (λ acts. record s { acts = acts }) (append_assoc s.acts xs ys)

  staged_quiet :
      (primary : Bool) (f : Field)
      → has_act f (staged t.name pruning ∷ (if primary then list_revisions t.name ∷ [] else []))
        ≡ false
  staged_quiet primary field_check = lists_nothing field_check t.name primary
  staged_quiet primary field_prune = lists_nothing field_prune t.name primary
  staged_quiet primary field_exhaustive = lists_nothing field_exhaustive t.name primary

  probe_quiet : (f : Field) → has_act f (probe t.name ∷ []) ≡ false
  probe_quiet field_check = refl
  probe_quiet field_prune = refl
  probe_quiet field_exhaustive = refl

  module _ (c : Settings) (primary : Bool) (state : State) (w : IsWord t.name)
      (r : InRange a.prune_time) where
    prune_reached_lem : (s : Standing) → IsPruning t a s (prune_reached c primary t a state s)
    unfolding prune_reached with_acts
    prune_reached_lem s =
        let exhaustive = exhaustive_due c a.due_time t.name state in
        let before = staged t.name pruning ∷ (if primary then list_revisions t.name ∷ [] else []) in
        either_branch (IsPruning t a s) a.stop_before_prune
          (idle-IsPruning s _ refl (λ f. idle_acts f before s (staged_quiet primary f)))
          (after_idle before s _ (staged_quiet primary) (
            subst
              (λ x.
                IsPruning t a (with_acts before s)
                  (prune_ended primary exhaustive t a x a.prune_end))
              (with_acts_twice before (prune_storage t.name exhaustive ∷ []) s)
              (prune_ended_lem primary exhaustive (with_acts before s) a.prune_end refl w r)))

    prune_probed_lem :
        (s : Standing) (reach : Probe) → IsPruning t a s (prune_probed c primary t a state s reach)
    unfolding prune_probed with_acts
    prune_probed_lem s stopped = idle-IsPruning s _ refl (λ f. refl)
    prune_probed_lem s unreachable = idle-IsPruning s _ refl (λ f.
        idle_acts f (errored t.name ∷ []) s
          (no_act f (errored t.name) [] (is_act-errored f t.name) refl))
    prune_probed_lem s reached = prune_reached_lem s

    pub prune_part_lem : (s : Standing) → IsPruning t a s (prune_part c primary t a state s)
    unfolding prune_part
    prune_part_lem s =
        either_branch (IsPruning t a s) a.stop_after_check (idle-IsPruning s _ refl (λ f. refl)) (
          either_branch (IsPruning t a s) (not c.prune_backups) (no-IsPruning s) (
            after_idle (probe t.name ∷ []) s _ probe_quiet
              (prune_probed_lem (with_acts (probe t.name ∷ []) s) a.reach)))
