-- ===== src/Notify.antt =====
-- internal/notify/notify.go: which destinations a notification goes to, and the attempts of a send.
use archiver.Shared.{
  Bool, Bytes, List, [], any_of, codes, contains, false, has_prefix, has_suffix, if◌then◌else◌, leb,
  ltb, not, trim_suffix, true, ℕ, ◌&&◌, ◌==◌, ◌||◌, ◌∷◌, nat_eq, bytes_eq, int_eq,
}
pub mod Incident
pub mod Deliver
pub mod Sending

-- `Kind`, in the source's order.
pub data Kind : Type 0 where
  routine problem failure critical : Kind

abbrev pub rank : Kind → ℕ
rank routine = 0
rank problem = 1
rank failure = 2
rank critical = 3

-- `max` of two kinds
abbrev pub max_kind : Kind → Kind → Kind
max_kind a b = if ltb (rank a) (rank b) then b else a

abbrev pub drills_off : Bytes
drills_off = codes ",-drills"

-- `KindOf`
unfoldable pub kind_of : Bytes → Kind
kind_of title =
    if contains
      (codes "Backup Complete"
        ∷ codes "Maintenance Complete"
        ∷ codes "Restore Drill Complete"
        ∷ codes "Backup Paused"
        ∷ codes "Backup Resumed"
        ∷ codes "Backup Stopped"
        ∷ codes "Maintenance Stopped"
        ∷ codes "Backup Size Normal"
        ∷ [])
      title
    then routine
    else if contains
        (codes "Mirror Refused"
          ∷ codes "Envelope Out of Date"
          ∷ codes "Envelope Check Due"
          ∷ codes "Unusually Large Backup"
          ∷ [])
        title
    then problem
    else failure

-- `admits`
unfoldable pub admits : Bytes → Kind → Bool
admits on k =
    let word = trim_suffix on drills_off in
    if word == codes "everything"
    then true
    else if word == codes "problems"
    then leb (rank problem) (rank k)
    else leb (rank failure) (rank k)

-- `drillTitle`
unfoldable pub drill_title : Bytes → Bool
drill_title title =
    has_prefix title (codes "Restore Drill")
    || has_prefix title (codes "Deep Check")
    || has_prefix title (codes "Kit Drill")

-- `Destination`, its sink by name.
pub record Destination : Type 0 where
  pub name : Bytes
  pub on : Bytes

-- What keeps drill notifications from a destination.
abbrev pub muted : Bytes → Destination → Bool
muted title d = drill_title title && has_suffix d.on drills_off

-- `receiving`
unfoldable pub receiving : List Destination → Kind → Bytes → List Bytes
receiving [] k title = []
receiving (d ∷ ds) k title =
    let rest = receiving ds k title in
    if admits d.on k && (not (drill_title title) || not (has_suffix d.on drills_off))
    then d.name ∷ rest
    else rest

-- `configured`
unfoldable pub configured : List Destination → Bytes → Bool
configured ds name = any_of (λ d. d.name == name) ds

-- `drillsSuppressed`: by the first destination of the name.
unfoldable pub drills_suppressed : List Destination → Bytes → Bytes → Bool
drills_suppressed [] name title = false
drills_suppressed (d ∷ ds) name title =
    if d.name == name then muted title d else drills_suppressed ds name title

-- `sendTo`'s names not reached, for the destinations in `only` (an incident's recorded recipients).
-- `arrives` says for each name whether the send to it succeeds.
unfoldable pub send_only : List Destination → Bytes → List Bytes → (Bytes → Bool) → List Bytes
send_only [] title only arrives = []
send_only (d ∷ ds) title only arrives =
    let rest = send_only ds title only arrives in
    if muted title d || not (contains only d.name)
    then rest
    else if arrives d.name
    then rest
    else d.name ∷ rest

-- `sendTo` with no recipients given: the destinations that receive the kind.
unfoldable pub send_kind : List Destination → Kind → Bytes → (Bytes → Bool) → List Bytes
send_kind [] k title arrives = []
send_kind (d ∷ ds) k title arrives =
    let rest = send_kind ds k title arrives in
    if muted title d || not (admits d.on k)
    then rest
    else if arrives d.name
    then rest
    else d.name ∷ rest
