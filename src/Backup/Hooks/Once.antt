-- ===== src/Backup/Hooks/Once.antt =====
-- One outcome, told to the post hook (internal/pipeline/backup.go, `backupService`).
use archiver.Shared.{
  Bool, Bool-cases, Bytes, List, [], append-nil, append_assoc, arith, codes, false, if◌then◌else◌,
  inl, inr, not, refl, true, ◌&&◌, ◌++◌, ◌||◌, ◌∙◌, ◌∷◌, ◌≡◌,
}
use archiver.Backup.{
  Act, staged, recorded, noted, Result, Answers, Standing, backup_part, pre_part, post_part,
  last_part, end_part, probe_part, is_stopped, finish_service, backup_service, is_success,
  context_of,
}
use archiver.Resume.{pending, done}
use archiver.Backup.Quiet.{quiet, backup_part-quiet, probe_part-quiet, end_part-quiet}
use archiver.Backup.Hooks.{
  gather, outcome_of, told_of, hooked_of, gather-append, gather-quiet, outcome_deaf, told_deaf,
  hooked_deaf, pre_part-outcome, pre_part-told, pre_part-hooked,
}

-- A service before its post hook.
abbrev standing : Answers → Bytes → Bool → Standing
standing a dir p = backup_part a dir (pre_part a dir p)

-- What is gathered of a service's acts up to its post hook, by who does not hear quiet acts.
gather-standing {ℓ} :
    {A : Type ℓ} (f : Act → List A)
    → ((x : Act) → quiet x ≡ true → f x ≡ [])
    → (a : Answers) (dir : Bytes) (p : Bool)
    → gather f (standing a dir p).acts ≡ gather f (pre_part a dir p).acts
gather-standing f deaf a dir p =
    let (extra, (e, q, ran)) = backup_part-quiet a dir (pre_part a dir p) in
    rw (e, gather-append f (pre_part a dir p).acts extra, gather-quiet f deaf extra q)
      (append-nil _)

-- What is gathered of a service's acts, in the parts of the code.
gather-finish {ℓ} :
    {A : Type ℓ} (f : Act → List A)
    → ((x : Act) → quiet x ≡ true → f x ≡ [])
    → (a : Answers) (dir : Bytes) (p q : Bool) (s : Standing)
    → gather f (finish_service a dir p q s).acts
      ≡ gather f s.acts
        ++ (gather f (post_part a dir p q s) ++ gather f (last_part a dir s.result).acts)
unfolding finish_service gather quiet
gather-finish f deaf a dir p q s =
    rw
      (
        deaf (staged (context_of dir) (codes "pre-backup")) refl,
        gather-append f
            (s.acts ++ staged (context_of dir) (codes "post-backup") ∷ post_part a dir p q s)
            (last_part a dir s.result).acts,
        gather-append f s.acts
            (staged (context_of dir) (codes "post-backup") ∷ post_part a dir p q s),
        deaf (staged (context_of dir) (codes "post-backup")) refl,
      )
      (append_assoc (gather f s.acts) (gather f (post_part a dir p q s)) _)

-- What is gathered of the end of a service.
gather-last {ℓ} :
    {A : Type ℓ} (f : Act → List A)
    → ((x : Act) → quiet x ≡ true → f x ≡ [])
    → (a : Answers) (dir : Bytes) (r : Result)
    → gather f (last_part a dir r).acts
      ≡ f (recorded dir (if is_stopped r then pending else done) a.last_written) ++ f (noted dir r)
unfolding last_part gather
gather-last f deaf a dir r = rw (
  gather-append f (probe_part a r ++ noted dir r ∷ []) (end_part a dir r).acts,
  gather-append f (probe_part a r) (noted dir r ∷ []),
  gather-quiet f deaf (probe_part a r) (probe_part-quiet a r),
  gather-quiet f deaf (end_part a dir r).acts (end_part-quiet a dir r),
  append-nil (f (noted dir r)),
  append-nil (f (noted dir r)),
)

post_part-told :
    (a : Answers) (dir : Bytes) (p q : Bool) (s : Standing)
    → gather told_of (post_part a dir p q s)
      ≡ (if q && (s.pre_ran || not p) then (dir, s.result) ∷ [] else [])
unfolding post_part gather told_of
post_part-told a dir p q s = ground arith

post_part-outcome :
    (a : Answers) (dir : Bytes) (p q : Bool) (s : Standing)
    → gather outcome_of (post_part a dir p q s) ≡ []
unfolding post_part gather outcome_of
post_part-outcome a dir p q s = ground arith

post_part-hooked :
    (a : Answers) (dir : Bytes) (p q : Bool) (s : Standing)
    → gather hooked_of (post_part a dir p q s) ≡ []
unfolding post_part gather hooked_of
post_part-hooked a dir p q s = ground arith

abbrev pub is_nil {ℓ} : {A : Type ℓ} → List A → Bool
is_nil [] = true
is_nil (x ∷ xs) = false

ran-not_nil : (b : Bool) (dir : Bytes) → not (is_nil (if b then dir ∷ [] else [])) ≡ b
ran-not_nil true dir = refl
ran-not_nil false dir = refl

standing-pre_ran :
    (a : Answers) (dir : Bytes) (p : Bool)
    → not (is_nil (gather hooked_of (standing a dir p).acts)) ≡ (standing a dir p).pre_ran
standing-pre_ran a dir p =
    let (extra, (e, q, ran)) = backup_part-quiet a dir (pre_part a dir p) in
    rw (gather-standing hooked_of hooked_deaf a dir p, pre_part-hooked a dir p, ran)
      (ran-not_nil (pre_part a dir p).pre_ran dir)

finish_service-ok :
    (a : Answers) (dir : Bytes) (p q : Bool) (s : Standing)
    → (finish_service a dir p q s).ok ≡ is_success s.result
unfolding finish_service last_part end_part
finish_service-ok a dir p q s = elim (Bool-cases (is_success s.result)) [
  | inl fine ↦ simp fine
  | inr other ↦ simp other
]

finish_service-outcome :
    (a : Answers) (dir : Bytes) (p q : Bool) (s : Standing)
    → gather outcome_of s.acts ≡ []
    → gather outcome_of (finish_service a dir p q s).acts ≡ (dir, s.result) ∷ []
unfolding outcome_of
finish_service-outcome a dir p q s none_yet = rw (
  gather-finish outcome_of outcome_deaf a dir p q s,
  none_yet,
  post_part-outcome a dir p q s,
  gather-last outcome_of outcome_deaf a dir s.result,
)

finish_service-told :
    (a : Answers) (dir : Bytes) (p q : Bool) (s : Standing)
    → gather told_of s.acts ≡ []
    → gather told_of (finish_service a dir p q s).acts
      ≡ (if q && (s.pre_ran || not p) then (dir, s.result) ∷ [] else [])
unfolding told_of
finish_service-told a dir p q s none_yet =
    rw
      (
        gather-finish told_of told_deaf a dir p q s,
        none_yet,
        gather-last told_of told_deaf a dir s.result,
        post_part-told a dir p q s,
      )
      (append-nil _)

finish_service-hooked :
    (a : Answers) (dir : Bytes) (p q : Bool) (s : Standing)
    → gather hooked_of (finish_service a dir p q s).acts ≡ gather hooked_of s.acts
unfolding hooked_of
finish_service-hooked a dir p q s =
    rw
      (
        gather-finish hooked_of hooked_deaf a dir p q s,
        post_part-hooked a dir p q s,
        gather-last hooked_of hooked_deaf a dir s.result,
      )
      (append-nil _)

backup_service-started :
    (a : Answers) (dir : Bytes) (p q : Bool)
    → a.state_made ≡ true
    → backup_service a dir p q false ≡ finish_service a dir p q (standing a dir p)
unfolding backup_service
backup_service-started a dir p q made = rw made

-- For a service that is started: exactly one outcome is kept; the post hook, if there is one, runs
-- once if the pre hook ran or there is none, and otherwise not at all, and it is told the outcome
-- that is kept; the service counts as backed up exactly if that outcome is success.
pub backup_service-hooks :
    (a : Answers) (dir : Bytes) (has_pre has_post : Bool)
    → a.state_made ≡ true
    → let o = backup_service a dir has_pre has_post false in
      (r : Result) × ((gather outcome_of o.acts ≡ (dir, r) ∷ [])
        × (gather told_of o.acts ≡ (
            if has_post && (not (is_nil (gather hooked_of o.acts)) || not has_pre)
            then (dir, r) ∷ []
            else []))
        × (o.ok ≡ is_success r))
backup_service-hooks a dir p q made =
    let s = standing a dir p in
    let e = backup_service-started a dir p q made in
    (
      s.result,
      (
        rw e (
            finish_service-outcome a dir p q s
              (gather-standing outcome_of outcome_deaf a dir p ∙ pre_part-outcome a dir p)),
        rw (e, finish_service-hooked a dir p q s, standing-pre_ran a dir p)
            (finish_service-told a dir p q s
              (gather-standing told_of told_deaf a dir p ∙ pre_part-told a dir p)),
        rw e (finish_service-ok a dir p q s),
      ),
    )
