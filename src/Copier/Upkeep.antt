-- ===== src/Copier/Upkeep.antt =====
-- internal/copier/upkeep.go: when upkeep is due, and a mirror pass over a target. What becomes of a
-- command is a parameter, which may depend on the commands before it. Times are in nanoseconds, stored
-- instants in seconds.
use archiver.Shared.{
  Bool, Bytes, List, Option, [], codes, if◌then◌else◌, keep, leb, ltb, max, min, none, not, some,
  sort_texts, ℕ, ℤ, ◌&&◌, ◌*◌, ◌++◌, ◌+◌, ◌-◌, ◌/◌, ◌==◌, ◌||◌, ◌∷◌, nat_eq, bytes_eq, int_eq,
}
pub mod Deleting
pub mod Times
use archiver.Inuse.{Set, has}
use archiver.Localprune.Prune.{keys_of}
use archiver.Notify.Incident.{second}
use archiver.Copier.Mirror.{Revisions, get, MirrorPlan, plan_mirror}
use archiver.Copier.Worker.{Worker}

-- `grace`
abbrev pub hour : ℕ
hour = 3600 * second

-- `slack`
unfoldable pub slack : ℕ → ℕ
slack interval = min hour (interval / 10)

-- `due`
unfoldable pub due : ℕ → ℕ → ℕ → Bool
unfolding slack
due now last interval = ltb 0 interval && leb (interval - slack interval) (now - last * second)

-- `Upkeep`, less what it hands to Duplicacy.
pub record Upkeep : Type 0 where
  pub mirrors : Bool
  pub exhaustive : ℕ
  pub check : ℕ

-- `exhaustiveInterval`
unfoldable pub exhaustive_interval : Upkeep → ℕ
exhaustive_interval u = if u.mirrors then u.exhaustive else 0

-- One round of the loop of `nextWake`.
unfoldable pub sooner : ℕ → ℕ → ℕ → ℕ → ℕ
unfolding slack
sooner now last interval next =
    let d = max second (last * second + (interval - slack interval) - now) in
    if interval == 0 then next else if ltb d next then d else next

-- `nextWake`; `SafetyWake` is six hours.
unfoldable pub next_wake : Upkeep → ℕ → Worker → ℕ
unfolding sooner exhaustive_interval
next_wake u now w =
    sooner now w.state.last_exhaustive (exhaustive_interval u)
      (sooner now (max w.state.last_check w.state.check_tried) u.check (6 * hour))

-- What `upkeep` finds due, once the mirror pass is over: an exhaustive prune, a check.
unfoldable pub due_now : Upkeep → ℕ → Worker → Bool × Bool
unfolding due exhaustive_interval
due_now u now w = (
  u.mirrors && (w.force_exhaustive || due now w.state.last_exhaustive (exhaustive_interval u)),
  due now (max w.state.last_check w.state.check_tried) u.check,
)

-- `leaveInUse`, on one ID.
unfoldable pub leave_id : Bytes → List ℤ → Revisions → Revisions
leave_id id [] rest = rest
leave_id id (r ∷ rs) rest = (id, r ∷ rs) ∷ rest

-- `leaveInUse`
unfoldable pub leave_in_use : Set → Revisions → Revisions
unfolding leave_id
leave_in_use busy [] = []
leave_in_use busy ((id, revs) ∷ plan) =
    leave_id id (keep (λ r. not (has busy id r)) revs) (leave_in_use busy plan)

pub data MirrorCommand : Type 0 where
  mirror_delete : Bytes → List ℤ → MirrorCommand
  collect_fossils : MirrorCommand

-- What `run` returns for a command: it worked, it failed, or a stop ended it.
pub data RunEnd : Type 0 where
  worked broke halted : RunEnd

abbrev pub Target : Type 0
Target = List MirrorCommand → MirrorCommand → RunEnd

-- The commands a mirror pass gave, and how it ended.
pub record Mirrored : Type 0 where
  pub commands : List MirrorCommand
  pub ending : RunEnd

unfoldable pub go_on : List MirrorCommand → RunEnd → Mirrored → Mirrored
go_on done worked rest = rest
go_on done e rest = record { commands = done; ending = e }

-- The loop of `applyMirror` over the IDs of the plan.
unfoldable pub mirror_all : Target → Revisions → List Bytes → List MirrorCommand → Mirrored
unfolding go_on
mirror_all target plan [] done = record { commands = done; ending = worked }
mirror_all target plan (id ∷ ids) done =
    let command = mirror_delete id (get id plan) in
    go_on (done ++ command ∷ []) (target done command)
      (mirror_all target plan ids (done ++ command ∷ []))

-- The deletions of `applyMirror`; with none, the fossils of earlier ones are collected.
unfoldable pub carry_out_plan : Target → Revisions → Mirrored
unfolding mirror_all keys_of
carry_out_plan target [] = record {
  commands = collect_fossils ∷ [];
  ending = target [] collect_fossils;
}
carry_out_plan target (e ∷ plan) = mirror_all target (e ∷ plan) (sort_texts (keys_of (e ∷ plan))) []

-- The texts of `plan.Refused`.
refusals : List (Bytes × Bytes) → List Bytes
refusals [] = []
refusals ((id, why) ∷ m) = (id ++ (codes " (" ++ (why ++ codes ")"))) ∷ refusals m

join_comma : List Bytes → Bytes
join_comma [] = []
join_comma (s ∷ []) = s
join_comma (s ∷ t ∷ ss) = s ++ (codes ", " ++ join_comma (t ∷ ss))

-- The `note` of `applyMirror`.
unfoldable pub refused_note : MirrorPlan → Bytes
unfolding refusals join_comma
refused_note plan = join_comma (sort_texts (refusals plan.refused))

-- What `applyMirror` does to the target; `none` is a registry that cannot be read. A worker without a
-- registry is one whose registry is empty.
unfoldable pub apply_mirror :
    Target → (Bytes → Bool) → Bool → Option Set → List Bytes → List Bytes → Mirrored
unfolding carry_out_plan leave_in_use
apply_mirror target own allow none local listed = record { commands = []; ending = broke }
apply_mirror target own allow (some busy) local listed =
    carry_out_plan target (leave_in_use busy (plan_mirror local listed own allow).delete)
