-- ===== src/Notify/Deliver.antt =====
-- internal/notify/incident.go, `deliver`: sending an incident's message, and recording under the
-- state's lock who it reached.
use archiver.Shared.{
  Bool, Bytes, List, Option, [], contains, erase, if◌then◌else◌, insert, keep, length, lookup, ltb,
  none, not, some, suc, zero, ℕ, ◌&&◌, ◌++◌, ◌==◌, ◌∷◌, nat_eq, bytes_eq, int_eq,
}
pub mod Owed
pub mod Lifecycle
pub mod Overlap
pub mod Ends
use archiver.Notify.{Destination, configured, drills_suppressed, send_only}
use archiver.Notify.Incident.{Incident, Incidents, Notifier, recovery}

-- The destinations that a delivery of an incident did not reach.
unfoldable pub missed_by : Notifier → Incident → (Bytes → Bool) → List Bytes
missed_by n inc arrives =
    send_only n.destinations inc.title inc.pending arrives
    ++ keep (λ d. not (configured n.destinations d) && not inc.recovered) inc.pending

-- The loop of `deliver` that records who was told.
unfoldable pub tell : Notifier → Bytes → List Bytes → List Bytes → List Bytes → List Bytes
tell n title missed [] told = told
tell n title missed (d ∷ ds) told = tell n title missed ds (
    if not (drills_suppressed n.destinations d title)
      && (not (contains missed d) && not (contains told d))
    then told ++ d ∷ []
    else told)

-- What a delivery records of an alert: who was told, and who is still to hear of it.
unfoldable pub settle : Notifier → Bytes → List Bytes → Incident → Incident
unfolding tell
settle n title missed now =
    if now.recovered then record now { pending = missed; sending = 0 } else record now {
      recipients =
          keep (λ d. not (drills_suppressed n.destinations d title && not (contains now.told d)))
            now.recipients;
      told = tell n title missed now.pending now.told;
      pending = missed;
      sending = 0;
    }

-- The last `switch` of `deliver`.
unfoldable pub conclude :
    Notifier → Bytes → Incident → ℕ → ℕ → Incidents → Incidents × Option Incident
unfolding recovery
conclude n key inc now gen book =
    let rec = recovery n inc inc.clear_title inc.clear_message now gen in
    if ltb 0 (length inc.clear_title) && not inc.recovered
    then (insert key rec book, some rec)
    else if inc.recovered && (length inc.pending == 0)
    then (erase key book, none)
    else (insert key inc book, none)

unfoldable pub commit_to :
    Notifier
    → Bytes
    → Incident
    → List Bytes
    → ℕ
    → ℕ
    → Option Incident
    → Incidents
    → Incidents × Option Incident
unfolding conclude settle
commit_to n key sent missed now gen none book = (book, none)
commit_to n key sent missed now gen (some inc) book =
    if not (inc.gen == sent.gen)
    then (book, none)
    else conclude n key (settle n sent.title missed inc) now gen book

-- The second part of `deliver`, under the state's lock: the new state, and a recovery to deliver.
unfoldable pub commit :
    Notifier → Bytes → Incident → List Bytes → ℕ → ℕ → Incidents → Incidents × Option Incident
unfolding commit_to
commit n key sent missed now gen book = commit_to n key sent missed now gen (lookup key book) book

-- `deliver`, on fuel for the recovery that may follow an alert: two rounds are enough.
unfoldable pub deliver :
    ℕ
    → Notifier
    → Bytes
    → Option Incident
    → (Bytes → Bool)
    → ℕ
    → ℕ
    → Incidents
    → Incidents × Option Incident
unfolding commit missed_by
deliver zero n key next arrives now gen book = (book, next)
deliver (suc fuel) n key none arrives now gen book = (book, none)
deliver (suc fuel) n key (some inc) arrives now gen book =
    let (book', next) = commit n key inc (missed_by n inc arrives) now gen book in
    deliver fuel n key next arrives now gen book'
