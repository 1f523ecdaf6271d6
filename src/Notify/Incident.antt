-- ===== src/Notify/Incident.antt =====
-- internal/notify/incident.go: incidents, notified when they start, repeated while they last, and
-- their recovery said. Time is in nanoseconds since 1970; stored instants are in seconds.
use archiver.Shared.{
  Bool, Bytes, List, Option, [], codes, contains, erase, false, if◌then◌else◌, insert, keep, leb,
  length, lookup, ltb, none, not, some, true, ℕ, ◌&&◌, ◌*◌, ◌++◌, ◌+◌, ◌-◌, ◌/◌, ◌==◌, nat_eq,
  bytes_eq, int_eq,
}
use archiver.Notify.{Kind, max_kind, Destination, receiving}

pub record Incident : Type 0 where
  pub kind : Kind
  pub title : Bytes
  pub opened : ℕ
  pub last_sent : ℕ
  pub message : Bytes
  pub recipients : List Bytes  -- To
  pub told : List Bytes
  pub pending : List Bytes
  pub sending : ℕ
  pub gen : ℕ
  pub recovered : Bool
  pub clear_title : Bytes
  pub clear_message : Bytes

-- `map[string]incident`, the state file's content.
abbrev pub Incidents : Type 0
Incidents = List (Bytes × Incident)

abbrev pub second : ℕ
second = 1_000_000_000

-- The part of `Notifier` that incidents read, and how the time package formats instants: `since`
-- the local time of an instant, `after` the time between two, rounded to minutes.
pub record Notifier : Type 0 where
  pub destinations : List Destination
  pub repeat_every : ℕ
  pub since : ℕ → Bytes
  pub after : ℕ → ℕ → Bytes

-- `Time.Unix`
abbrev pub unix : ℕ → ℕ
unix now = now / second

-- Five minutes.
abbrev pub claim_lease : ℕ
claim_lease = 300 * second

-- `claimed`: a claim in the future is none.
unfoldable pub claimed : Incident → ℕ → Bool
claimed inc now =
    not (inc.sending == 0)
    && (leb (inc.sending * second) now && ltb (now - inc.sending * second) claim_lease)

-- `newcomers`: the destinations in `now` that are not in `before`.
unfoldable pub newcomers : List Bytes → List Bytes → List Bytes
newcomers now before = keep (λ d. not (contains before d)) now

unfoldable pub new_incident : Kind → Bytes → Bytes → List Bytes → ℕ → ℕ → Incident
new_incident k title message to now gen = record {
  kind = k;
  title = title;
  opened = unix now;
  last_sent = unix now;
  message = message;
  recipients = to;
  told = [];
  pending = to;
  sending = unix now;
  gen = gen;
  recovered = false;
  clear_title = [];
  clear_message = [];
}

-- The repeat of an incident that lasts.
unfoldable pub repeated : Notifier → Incident → Kind → Bytes → Bytes → ℕ → ℕ → Incident
unfolding newcomers
repeated n inc k title message now gen =
    let kind = max_kind inc.kind k in
    let pending = receiving n.destinations kind title in
    record inc {
      kind = kind;
      title = title;
      gen = gen;
      message = codes "Still happening, since " ++ (n.since inc.opened ++ (codes ": " ++ message));
      pending = pending;
      last_sent = unix now;
      recipients = inc.recipients ++ newcomers pending inc.recipients;
      sending = unix now;
    }

-- What `Raise` makes of an incident that is open: the incident to send, or nothing.
unfoldable pub raise_open : Notifier → Incident → Kind → Bytes → Bytes → ℕ → ℕ → Option Incident
unfolding repeated newcomers
raise_open n inc k title message now gen =
    let added = newcomers (receiving n.destinations inc.kind inc.title) inc.recipients in
    if ltb 0 n.repeat_every && leb (n.repeat_every + inc.last_sent * second) now
    then some (repeated n inc k title message now gen)
    else if ltb 0 (length inc.pending)
    then some (record inc { sending = unix now })
    else if ltb 0 (length added)
    then some
        (record inc { recipients = inc.recipients ++ added; pending = added; sending = unix now })
    else none

-- The `switch` of `Raise` on the incident of the key.
unfoldable pub raise_case :
    Notifier → Option Incident → Kind → Bytes → Bytes → ℕ → ℕ → Option Incident
unfolding claimed raise_open new_incident
raise_case n none k title message now gen =
    some (new_incident k title message (receiving n.destinations k title) now gen)
raise_case n (some inc) k title message now gen =
    if claimed inc now
    then none
    else if inc.recovered
    then some (new_incident k title message (receiving n.destinations k title) now gen)
    else raise_open n inc k title message now gen

abbrev pub store : Bytes → Option Incident → Incidents → Incidents
store key none book = book
store key (some inc) book = insert key inc book

-- `Raise` under the state's lock: the new state, and the incident to deliver.
unfoldable pub raise :
    Notifier → Bytes → Kind → Bytes → Bytes → ℕ → ℕ → Incidents → Incidents × Option Incident
unfolding raise_case
raise n key k title message now gen book =
    let send = raise_case n (lookup key book) k title message now gen in (store key send book, send)

-- `recovery`: owed to whoever the alert reached.
unfoldable pub recovery : Notifier → Incident → Bytes → Bytes → ℕ → ℕ → Incident
recovery n inc title message now gen = record {
  kind = inc.kind;
  title = title;
  opened = inc.opened;
  last_sent = 0;
  message = message ++ (codes " (after " ++ (n.after now inc.opened ++ codes ")"));
  recipients = inc.told;
  told = [];
  pending = inc.told;
  sending = unix now;
  gen = gen;
  recovered = true;
  clear_title = [];
  clear_message = [];
}

-- What `Clear` does to the incident of the key.
pub data Cleared : Type 0 where
  untouched : Cleared
  noted : Incident → Cleared  -- kept for the alert's sender, which says the recovery
  removed : Cleared
  sends : Incident → Cleared

unfoldable pub clear_case : Notifier → Option Incident → Bytes → Bytes → ℕ → ℕ → Cleared
unfolding claimed recovery
clear_case n none title message now gen = untouched
clear_case n (some inc) title message now gen =
    if claimed inc now && not inc.recovered
    then noted (record inc { clear_title = title; clear_message = message })
    else if claimed inc now
    then untouched
    else if not inc.recovered
    then sends (recovery n inc title message now gen)
    else if length inc.pending == 0
    then removed
    else sends (record inc { sending = unix now })

unfoldable pub apply_clear : Bytes → Cleared → Incidents → Incidents × Option Incident
apply_clear key untouched book = (book, none)
apply_clear key (noted inc) book = (insert key inc book, none)
apply_clear key removed book = (erase key book, none)
apply_clear key (sends inc) book = (insert key inc book, some inc)

-- `Clear` under the state's lock.
unfoldable pub clear :
    Notifier → Bytes → Bytes → Bytes → ℕ → ℕ → Incidents → Incidents × Option Incident
unfolding clear_case apply_clear
clear n key title message now gen book =
    apply_clear key (clear_case n (lookup key book) title message now gen) book
