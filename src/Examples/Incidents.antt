-- ===== src/Examples/Incidents.antt =====
-- Incidents told to two destinations, of which one does not answer (internal/notify).
use archiver.Shared.{
  Bool, Bytes, [], bytes_beq, codes, contains, if◌then◌else◌, lookup, none, not, refl, some, true,
  ℕ, ◌&&◌, ◌*◌, ◌+◌, ◌==◌, ◌||◌, ◌∷◌, ◌≡◌, nat_eq, bytes_eq, int_eq,
}
use archiver.Notify.{failure, receiving, configured, drills_suppressed}
use archiver.Notify.Incident.{Incident, Notifier, second, claimed, new_incident, clear}
use archiver.Notify.Deliver.{tell, missed_by, settle, commit, deliver}
use archiver.Notify.Deliver.Owed.{reachable, settle-told, settle_owed}
use archiver.Notify.Deliver.Lifecycle.{raised, clear-raised_closes}
use archiver.Notify.Deliver.Ends.{deliver_terminates}
use archiver.Notify.Deliver.Overlap.{commit-clear}
use archiver.Notify.Sending.{Attempt, arrived, transient, Sent, sent, send, IsSent, send-IsSent}

abbrev ntfy : Bytes
ntfy = codes "ntfy"

abbrev mail : Bytes
mail = codes "mail"

abbrev notifier : Notifier
notifier = record {
  destinations =
      record { name = ntfy; on = codes "everything" }
      ∷ record { name = mail; on = codes "problems,-drills" }
      ∷ [];
  repeat_every = 3600 * second;
  since = λ t. codes "05:00";
  after = λ now opened. codes "1h";
}

abbrev title : Bytes
title = codes "Storage Unreachable"

abbrev key : Bytes
key = codes "copy:nas"

abbrev now : ℕ
now = 1_000_000 * second

abbrev alert : Incident
alert = new_incident failure title (codes "no route") (ntfy ∷ mail ∷ []) now 7

abbrev half : Bytes → Bool
half name = name == ntfy

abbrev everyone : Bytes → Bool
everyone name = true

settle-told_example :
    contains (settle notifier title (missed_by notifier alert half) alert).told ntfy ≡ (
      contains alert.told ntfy
      || contains alert.pending ntfy
        && (configured notifier.destinations ntfy
            && (not (drills_suppressed notifier.destinations ntfy title) && half ntfy)))
unfolding new_incident
settle-told_example = settle-told notifier alert alert half ntfy refl refl refl

settle_owed_example :
    let inc' = settle notifier title (missed_by notifier alert half) alert in
    (contains inc'.pending mail ≡ (
      not (configured notifier.destinations mail)
      || reachable notifier.destinations title mail && not (half mail)))
    × ((contains inc'.told mail
          || (contains inc'.pending mail || drills_suppressed notifier.destinations mail title))
        ≡ true)
unfolding new_incident bytes_beq
settle_owed_example = settle_owed notifier alert alert half mail refl refl refl refl

clear-raised_closes_example :
    let (cleared, send) =
      clear notifier key
        (codes "Storage Reachable")
        (codes "back")
        (now + 60 * second)
        9
        (raised notifier failure title (codes "no route") now 7 everyone key now 8 []).0 in
    (lookup key (deliver 2 notifier key send everyone (now + 61 * second) 10 cleared).0 ≡ none)
    × ((inc : Incident) × (send ≡ some inc)
        × (inc.recovered ≡ true)
        × ((name : Bytes)
            → contains inc.pending name
              ≡ contains (receiving notifier.destinations failure title) name))
unfolding configured bytes_beq
clear-raised_closes_example =
    clear-raised_closes notifier failure title (codes "no route") now 7 everyone key now 8 []
      (codes "Storage Reachable") (codes "back") (now + 60 * second) 9 (now + 61 * second) 10 refl
      (λ name. refl) refl

commit-clear_example :
    let (book', send) =
      clear notifier key (codes "Back") (codes "up") (now + second) 9 ((key, alert) ∷ []) in
    (send ≡ none)
    × ((rec : Incident) × ((commit notifier key alert (mail ∷ []) (now + second) 10 book').1
          ≡ some rec)
        × (lookup key (commit notifier key alert (mail ∷ []) (now + second) 10 book').0 ≡ some rec)
        × (rec.recovered ≡ true)
        × (rec.title ≡ codes "Back")
        × (rec.pending ≡ tell notifier title (mail ∷ []) alert.pending alert.told))
unfolding new_incident claimed bytes_beq
commit-clear_example =
    commit-clear notifier key alert alert ((key, alert) ∷ []) b'B' (codes "ack") (codes "up")
      (now + second) 9 (now + second) 10 (mail ∷ []) refl refl refl refl

-- The first attempt meets a network error, the second arrives.
abbrev second_try : ℕ → Attempt
second_try i = if i == 1 then transient else arrived

send-IsSent_example :
    (s : Sent) × (send (1 ∷ 3 ∷ []) second_try ≡ sent s) × IsSent (1 ∷ 3 ∷ []) second_try s
send-IsSent_example = send-IsSent (1 ∷ 3 ∷ []) second_try

deliver_terminates_example :
    (deliver 2 notifier key (some alert) half now 8 ((key, alert) ∷ [])).1 ≡ none
deliver_terminates_example = deliver_terminates notifier key alert half now 8 ((key, alert) ∷ [])
