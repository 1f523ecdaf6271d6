-- ===== src/Backup/Hooks.antt =====
-- The hooks of a service around its backup (internal/pipeline/backup.go, `backupService` and
-- `processService`): which run, what they are told, and the one outcome that is kept.
use archiver.Shared.{
  Bool, Bytes, List, [], all_of, append_assoc, arith, if◌then◌else◌, refl, sym, true, ◌++◌, ◌∷◌,
  ◌≡◌,
}
pub mod Once
use archiver.Backup.{
  Act, staged, recorded, pre_hook, post_hook, backed_up, noted, Result, Answers, Standing,
  backup_part, pre_part, after_pre, post_part, last_part, end_part, probe_part, is_stopped,
  finish_service, backup_service, is_success, context_of,
}
use archiver.Resume.{pending, done}
use archiver.Backup.Quiet.{quiet, backup_part-quiet, probe_part-quiet, end_part-quiet}

-- What a list of acts says, act by act.
unfoldable pub gather {ℓ} : {A : Type ℓ} → (Act → List A) → List Act → List A
gather f [] = []
gather f (x ∷ xs) = f x ++ gather f xs

-- The outcomes kept, with their services.
unfoldable pub outcome_of : Act → List (Bytes × Result)
outcome_of x = elim x [ noted d r ↦ (d, r) ∷ [] | _ ↦ [] ]

-- What post hooks are told, with their services.
unfoldable pub told_of : Act → List (Bytes × Result)
told_of x = elim x [ post_hook d r ↦ (d, r) ∷ [] | _ ↦ [] ]

-- The services whose pre hooks run.
unfoldable pub hooked_of : Act → List Bytes
hooked_of x = elim x [ pre_hook d ↦ d ∷ [] | _ ↦ [] ]

-- The services whose data Duplicacy is to save.
unfoldable pub saved_of : Act → List Bytes
saved_of x = elim x [ backed_up d ↦ d ∷ [] | _ ↦ [] ]

module _ {ℓ} {A : Type ℓ} (f : Act → List A) where
  pub gather-append : (xs ys : List Act) → gather f (xs ++ ys) ≡ gather f xs ++ gather f ys
  unfolding gather
  gather-append [] ys = refl
  gather-append (x ∷ xs) ys =
      rw (gather-append xs ys) (sym (append_assoc (f x) (gather f xs) (gather f ys)))

  -- Quiet acts say nothing to what only hears the others.
  pub gather-quiet :
      ((x : Act) → quiet x ≡ true → f x ≡ [])
      → (xs : List Act) → all_of quiet xs ≡ true
      → gather f xs ≡ []
  unfolding gather
  gather-quiet deaf [] h = refl
  gather-quiet deaf (x ∷ xs) h = ground (arith, deaf x, gather-quiet deaf xs)

pub outcome_deaf : (x : Act) → quiet x ≡ true → outcome_of x ≡ []
unfolding outcome_of quiet
outcome_deaf x h = ground arith

pub told_deaf : (x : Act) → quiet x ≡ true → told_of x ≡ []
unfolding told_of quiet
told_deaf x h = ground arith

pub hooked_deaf : (x : Act) → quiet x ≡ true → hooked_of x ≡ []
unfolding hooked_of quiet
hooked_deaf x h = ground arith

pub pre_part-outcome :
    (a : Answers) (dir : Bytes) (p : Bool) → gather outcome_of (pre_part a dir p).acts ≡ []
unfolding pre_part after_pre gather outcome_of
pre_part-outcome a dir p = ground arith

pub pre_part-told :
    (a : Answers) (dir : Bytes) (p : Bool) → gather told_of (pre_part a dir p).acts ≡ []
unfolding pre_part after_pre gather told_of
pre_part-told a dir p = ground arith

pub pre_part-hooked :
    (a : Answers) (dir : Bytes) (p : Bool)
    → gather hooked_of (pre_part a dir p).acts
      ≡ (if (pre_part a dir p).pre_ran then dir ∷ [] else [])
unfolding pre_part after_pre gather hooked_of
pre_part-hooked a dir p = ground arith
