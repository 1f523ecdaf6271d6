-- ===== src/Notify/Deliver/Owed.antt =====
-- Delivery is at least once (incident.go, `deliver`): who is recorded as told of an alert, and who
-- stays owed.
use archiver.Shared.{
  ==_refl, ==→eq, Bool, Bool-cases, Bytes, List, [], any_of, arith, contains, contains-append,
  contains-keep, false, if◌then◌else◌, inl, inr, not, refl, true, ◌&&◌, ◌++◌, ◌==◌, ◌||◌, ◌∙◌, ◌∷◌,
  ◌≡◌, nat_eq, bytes_eq, int_eq,
}
use archiver.Notify.{Destination, muted, configured, drills_suppressed, send_only}
use archiver.Notify.Incident.{Incident, Notifier}
use archiver.Notify.Deliver.{missed_by, tell, settle}

-- A destination of the name that drill notifications reach.
abbrev pub reachable : List Destination → Bytes → Bytes → Bool
reachable ds title name = any_of (λ d. d.name == name && not (muted title d)) ds

contains-send_only :
    (ds : List Destination) (title : Bytes) (only : List Bytes) (arrives : Bytes → Bool)
    (name : Bytes)
    → contains (send_only ds title only arrives) name
      ≡ (reachable ds title name && (contains only name && not (arrives name)))
unfolding send_only
contains-send_only [] title only arrives name = refl
contains-send_only (d ∷ ds) title only arrives name = elim (Bool-cases (d.name == name)) [
  | inl same ↦
      rw (==→eq d.name name same, ==_refl name)
        (ground (arith, contains-send_only ds title only arrives name, ==_refl name))
  | inr other ↦ rw other (ground (arith, contains-send_only ds title only arrives name))
]

contains_added :
    (b : Bool) (told : List Bytes) (d name : Bytes)
    → contains (if b then told ++ d ∷ [] else told) name ≡ (contains told name || b && d == name)
contains_added true told d name = rw (contains-append told (d ∷ []) name) (ground arith)
contains_added false told d name = ground arith

contains-tell :
    (n : Notifier) (title : Bytes) (missed ds told : List Bytes) (name : Bytes)
    → contains (tell n title missed ds told) name ≡ (
        contains told name
        || contains ds name
          && (not (drills_suppressed n.destinations name title) && not (contains missed name)))
unfolding tell
contains-tell n title missed [] told name = ground arith
contains-tell n title missed (d ∷ ds) told name =
    contains-tell n title missed ds _ name
    ∙ rw (contains_added _ told d name) (elim (Bool-cases (d == name)) [
      | inl same ↦ rw (==→eq d name same, ==_refl name) (ground arith)
      | inr other ↦ rw other (ground arith)
    ])

-- A configured destination that drill notifications are not kept from is reachable.
configured-reachable :
    (ds : List Destination) (title name : Bytes)
    → configured ds name ≡ true
    → drills_suppressed ds name title ≡ false
    → reachable ds title name ≡ true
unfolding configured drills_suppressed
configured-reachable [] title name c s = c
configured-reachable (d ∷ ds) title name c s = elim (Bool-cases (d.name == name)) [
  | inl same ↦ ground (arith, same)
  | inr other ↦ ground (arith, other, configured-reachable ds title name)
]

reachable-configured :
    (ds : List Destination) (title name : Bytes)
    → reachable ds title name ≡ true
    → configured ds name ≡ true
unfolding configured
reachable-configured [] title name h = h
reachable-configured (d ∷ ds) title name h = ground (arith, reachable-configured ds title name)

pub contains-missed_by :
    (n : Notifier) (sent : Incident) (arrives : Bytes → Bool) (name : Bytes)
    → contains (missed_by n sent arrives) name ≡ (
        reachable n.destinations sent.title name
          && (contains sent.pending name && not (arrives name))
        || contains sent.pending name
          && (not (configured n.destinations name) && not sent.recovered))
unfolding missed_by
contains-missed_by n sent arrives name =
    contains-append (send_only n.destinations sent.title sent.pending arrives) _ name
    ∙ rw (
      contains-send_only n.destinations sent.title sent.pending arrives name,
      contains-keep (λ d. not (configured n.destinations d) && not sent.recovered) sent.pending
          name,
    )

-- Every destination that an alert was owed to is, once the delivery is recorded, told of it exactly
-- if it is configured, drill notifications are not kept from it, and the send to it arrived; who had
-- been told stays told.
pub settle-told :
    (n : Notifier) (sent inc : Incident) (arrives : Bytes → Bool) (name : Bytes)
    → inc.recovered ≡ false
    → sent.recovered ≡ false
    → inc.pending ≡ sent.pending
    → contains (settle n sent.title (missed_by n sent arrives) inc).told name ≡ (
        contains inc.told name
        || contains inc.pending name
          && (configured n.destinations name
              && (not (drills_suppressed n.destinations name sent.title) && arrives name)))
unfolding settle
settle-told n sent inc arrives name alert alert' same =
    let ds = n.destinations in
    rw
      (
        alert,
        same,
        contains-tell n sent.title (missed_by n sent arrives) sent.pending inc.told name,
        contains-missed_by n sent arrives name,
        alert',
      )
      (ground (arith, configured-reachable ds sent.title name))

-- Nothing owed is lost: a destination that an alert was owed to is still owed it, once the delivery is
-- recorded, exactly if it is no longer configured, or some destination of its name hears drill
-- notifications and the send to it failed; if it is then neither told nor owed, drill notifications are
-- kept from it.
pub settle_owed :
    (n : Notifier) (sent inc : Incident) (arrives : Bytes → Bool) (name : Bytes)
    → inc.recovered ≡ false
    → sent.recovered ≡ false
    → inc.pending ≡ sent.pending
    → contains inc.pending name ≡ true
    → let inc' = settle n sent.title (missed_by n sent arrives) inc in
      (contains inc'.pending name ≡ (
        not (configured n.destinations name)
        || reachable n.destinations sent.title name && not (arrives name)))
      × ((contains inc'.told name
            || (contains inc'.pending name || drills_suppressed n.destinations name sent.title))
          ≡ true)
unfolding settle
settle_owed n sent inc arrives name alert alert' same owed =
    let ds = n.destinations in
    let owed' = rw same at owed in
    let unheard = reachable-configured ds sent.title name in
    rw
      (
        alert,
        same,
        contains-tell n sent.title (missed_by n sent arrives) sent.pending inc.told name,
        contains-missed_by n sent arrives name,
        alert',
      )
      (
        ground (arith, owed', unheard),
        ground (arith, owed', unheard, configured-reachable ds sent.title name),
      )
