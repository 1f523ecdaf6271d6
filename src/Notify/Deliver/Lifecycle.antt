-- ===== src/Notify/Deliver/Lifecycle.antt =====
-- The life of an incident over several operations (incident.go: `Raise`, `Clear` and `deliver`).
use archiver.Shared.{
  ==_refl, ==→eq, Bool, Bool-cases, Bytes, Eq, List, Option, [], ap, arith, contains, erase, false,
  inl, inr, insert, keep, leb, lookup, lookup-erase, lookup-insert_self, ltb, none, not, refl, some,
  suc, true, zero, ℕ, ◌&&◌, ◌*◌, ◌+◌, ◌<◌, ◌==◌, ◌∙◌, ◌∷◌, ◌≡◌, ◌⊎◌, nat_eq, bytes_eq, int_eq,
}
use archiver.Notify.{Kind, Destination, receiving, configured, drills_suppressed, send_only}
use archiver.Notify.Incident.{
  Incident, Incidents, Notifier, second, unix, claimed, newcomers, new_incident, raise_open,
  raise_case, raise, recovery, clear_case, apply_clear, clear,
}
use archiver.Notify.Deliver.{missed_by, settle, conclude, commit_to, commit, deliver}
use archiver.Notify.Deliver.Owed.{settle-told}

-- No two destinations have one name.
abbrev pub unique_names : List Destination → Bool
unique_names [] = true
unique_names (d ∷ ds) = not (configured ds d.name) && unique_names ds

receiving-configured :
    (ds : List Destination) (k : Kind) (title name : Bytes)
    → contains (receiving ds k title) name ≡ true
    → configured ds name ≡ true
unfolding receiving configured
receiving-configured [] k title name h = h
receiving-configured (d ∷ ds) k title name h = ground (arith, receiving-configured ds k title name)

receiving-heard :
    (ds : List Destination) (k : Kind) (title name : Bytes)
    → unique_names ds ≡ true
    → contains (receiving ds k title) name ≡ true
    → drills_suppressed ds name title ≡ false
unfolding receiving drills_suppressed
receiving-heard [] k title name u h = refl
receiving-heard (d ∷ ds) k title name u h = elim (Bool-cases (d.name == name)) [
  | inl same ↦
      let alone : configured ds d.name ≡ false = ground arith in
      let alone' : configured ds name ≡ false = rw (==→eq d.name name same) at alone in
      rw same (ground (arith, same, alone', receiving-configured ds k title name))
  | inr other ↦ rw other (receiving-heard ds k title name (ground arith) (ground (arith, h, other)))
]

keep_none {ℓ} :
    {A : Type ℓ} ⦃e : Eq A⦄ (p : A → Bool) (xs : List A)
    → ((x : A) → contains xs x ≡ true → p x ≡ false)
    → keep p xs ≡ []
keep_none p [] h = refl
keep_none p (x ∷ xs) h = rw (h x (rw ==_refl)) (keep_none p xs (λ y m. h y (ground (arith, m))))

keep_every {ℓ} :
    {A : Type ℓ} ⦃e : Eq A⦄ (p : A → Bool) (xs : List A)
    → ((x : A) → contains xs x ≡ true → p x ≡ true)
    → keep p xs ≡ xs
keep_every p [] h = refl
keep_every p (x ∷ xs) h =
    rw (h x (rw ==_refl)) (ap (λ l. x ∷ l) (keep_every p xs (λ y m. h y (ground (arith, m)))))

send_only_all :
    (ds : List Destination) (title : Bytes) (only : List Bytes) (arrives : Bytes → Bool)
    → ((name : Bytes) → arrives name ≡ true)
    → send_only ds title only arrives ≡ []
unfolding send_only
send_only_all [] title only arrives all = refl
send_only_all (d ∷ ds) title only arrives all =
    rw (all d.name) (ground (arith, send_only_all ds title only arrives all))

deliver_one :
    (n : Notifier) (key : Bytes) (inc : Incident) (arrives : Bytes → Bool) (now gen : ℕ)
    (book book' : Incidents)
    → commit n key inc (missed_by n inc arrives) now gen book ≡ (book', none)
    → deliver (suc (suc zero)) n key (some inc) arrives now gen book ≡ (book', none)
unfolding deliver
deliver_one n key inc arrives now gen book book' h =
    ap (λ (r : Incidents × Option Incident). deliver 1 n key r.1 arrives now gen r.0) h

-- Every send arrives.
abbrev pub AllArrive : (Bytes → Bool) → Type 0
AllArrive arrives = (name : Bytes) → arrives name ≡ true

-- A new incident as its delivery leaves it, when every send arrives.
abbrev pub IsSettled : List Bytes → Incident → Type 0
IsSettled to inc =
    (inc.recipients ≡ to)
    × (inc.pending ≡ [])
    × (inc.sending ≡ 0)
    × (inc.recovered ≡ false)
    × (inc.clear_title ≡ [])
    × ((name : Bytes) → contains inc.told name ≡ contains to name)

module _ (n : Notifier) (k : Kind) (title message : Bytes) (now gen : ℕ)
    (arrives : Bytes → Bool) where
  abbrev pub to : List Bytes
  to = receiving n.destinations k title

  abbrev pub fresh : Incident
  fresh = new_incident k title message to now gen

  abbrev pub settled : Incident
  settled = settle n title (missed_by n fresh arrives) fresh

  missed_none : AllArrive arrives → missed_by n fresh arrives ≡ []
  unfolding missed_by new_incident
  missed_none all =
      rw (send_only_all n.destinations title to arrives all)
        (keep_none _ to (λ x m. rw (receiving-configured n.destinations k title x m)))

  pub settled-IsSettled :
      unique_names n.destinations ≡ true → AllArrive arrives → IsSettled to settled
  unfolding settle new_incident
  settled-IsSettled u all = (
    keep_every _ to (λ x m. rw (receiving-heard n.destinations k title x u m)),
    missed_none all,
    refl,
    refl,
    refl,
    λ name.
        settle-told n fresh fresh arrives name refl refl refl
        ∙ ground (
          arith,
          receiving-configured n.destinations k title name,
          receiving-heard n.destinations k title name,
          all name,
        ),
  )

  -- Raising an incident that is not open, and delivering its alert.
  abbrev pub raised : Bytes → ℕ → ℕ → Incidents → Incidents × Option Incident
  raised key sent_at gen' book =
      let (book', send) = raise n key k title message now gen book in
      deliver 2 n key send arrives sent_at gen' book'

  commit-fresh :
      (key : Bytes) (sent_at gen' : ℕ) (book : Incidents)
      → commit n key fresh (missed_by n fresh arrives) sent_at gen' (insert key fresh book)
        ≡ (insert key settled (insert key fresh book), none)
  unfolding commit commit_to conclude settle new_incident
  commit-fresh key sent_at gen' book = rw (lookup-insert_self key fresh book, ==_refl gen)

  raised_lem :
      (key : Bytes) (sent_at gen' : ℕ) (book : Incidents)
      → lookup key book ≡ none
      → raised key sent_at gen' book ≡ (insert key settled (insert key fresh book), none)
  unfolding raise raise_case
  raised_lem key sent_at gen' book closed =
      rw closed
        (deliver_one n key fresh arrives sent_at gen' _ _ (commit-fresh key sent_at gen' book))

  lookup-raised :
      (key : Bytes) (sent_at gen' : ℕ) (book : Incidents)
      → lookup key book ≡ none
      → lookup key (raised key sent_at gen' book).0 ≡ some settled
  lookup-raised key sent_at gen' book closed =
      rw (raised_lem key sent_at gen' book closed) (lookup-insert_self key settled _)

  too_soon :
      (r last again : ℕ) → (r ≡ 0) ⊎ (again < r + last) → (ltb 0 r && leb (r + last) again) ≡ false
  too_soon r last again soon = ground arith

  newcomers_self : (ds : List Bytes) → newcomers ds ds ≡ []
  unfolding newcomers
  newcomers_self ds = keep_none _ ds (λ x m. rw m)

  -- An alert that everyone has heard of is not raised again within the repeat interval.
  quiet :
      (inc : Incident) (k' : Kind) (title' message' : Bytes) (again gen'' : ℕ)
      → inc.kind ≡ k
      → inc.title ≡ title
      → inc.last_sent ≡ unix now
      → IsSettled to inc
      → (n.repeat_every ≡ 0) ⊎ (again < n.repeat_every + unix now * second)
      → raise_case n (some inc) k' title' message' again gen'' ≡ none
  unfolding raise_case raise_open claimed
  quiet inc k' title' message' again gen'' ek et el (er, ep, es, ealert, ec, et') soon = simp (
    ek,
    et,
    el,
    er,
    ep,
    es,
    ealert,
    newcomers_self to,
    too_soon n.repeat_every (unix now * second) again soon,
  )

  -- While an incident lasts it is not notified again within the repeat interval: a second raise
  -- changes nothing and sends nothing, once the first was delivered.
  raise-raised :
      (key : Bytes) (sent_at gen' : ℕ) (book : Incidents) (k' : Kind) (title' message' : Bytes)
      (again gen'' : ℕ)
      → unique_names n.destinations ≡ true
      → AllArrive arrives
      → lookup key book ≡ none
      → (n.repeat_every ≡ 0) ⊎ (again < n.repeat_every + unix now * second)
      → raise n key k' title' message' again gen'' (raised key sent_at gen' book).0
        ≡ ((raised key sent_at gen' book).0, none)
  unfolding raise settle new_incident
  raise-raised key sent_at gen' book k' title' message' again gen'' u all closed soon = rw (
    lookup-raised key sent_at gen' book closed,
    quiet settled k' title' message' again gen'' refl refl refl (settled-IsSettled u all) soon,
  )

  -- The recovery that clearing a delivered incident sends.
  abbrev pub said : Bytes → Bytes → ℕ → ℕ → Incident
  said title' message' at gen' = recovery n settled title' message' at gen'

  clear-raised :
      (key : Bytes) (sent_at gen' : ℕ) (book : Incidents) (title' message' : Bytes) (at gen'' : ℕ)
      → lookup key book ≡ none
      → clear n key title' message' at gen'' (raised key sent_at gen' book).0 ≡ (
        insert key (said title' message' at gen'') (raised key sent_at gen' book).0,
        some (said title' message' at gen''),
      )
  unfolding clear clear_case apply_clear claimed settle new_incident
  clear-raised key sent_at gen' book title' message' at gen'' closed =
      rw (lookup-raised key sent_at gen' book closed)

  recovery_missed :
      (title' message' : Bytes) (at gen'' : ℕ)
      → AllArrive arrives
      → missed_by n (said title' message' at gen'') arrives ≡ []
  unfolding missed_by recovery
  recovery_missed title' message' at gen'' all =
      rw (send_only_all n.destinations title' settled.told arrives all)
        (keep_none _ settled.told (λ x m. ground arith))

  commit-said :
      (key : Bytes) (book : Incidents) (title' message' : Bytes) (at gen'' sent_at gen' : ℕ)
      → AllArrive arrives
      → commit n key
          (said title' message' at gen'')
          (missed_by n (said title' message' at gen'') arrives)
          sent_at
          gen'
          (insert key (said title' message' at gen'') book)
        ≡ (erase key (insert key (said title' message' at gen'') book), none)
  unfolding commit commit_to conclude settle recovery
  commit-said key book title' message' at gen'' sent_at gen' all = rw (
    lookup-insert_self key (said title' message' at gen'') book,
    ==_refl gen'',
    recovery_missed title' message' at gen'' all,
  )

  -- An incident that is raised, delivered, cleared and its recovery delivered is gone, and the
  -- recovery was owed to exactly the destinations that receive the alert.
  pub clear-raised_closes :
      (key : Bytes) (sent_at gen' : ℕ) (book : Incidents) (title' message' : Bytes)
      (at gen'' said_at gen‴ : ℕ)
      → unique_names n.destinations ≡ true
      → AllArrive arrives
      → lookup key book ≡ none
      → let (cleared, send) =
          clear n key title' message' at gen'' (raised key sent_at gen' book).0 in
        (lookup key (deliver 2 n key send arrives said_at gen‴ cleared).0 ≡ none)
        × ((inc : Incident) × (send ≡ some inc)
            × (inc.recovered ≡ true)
            × ((name : Bytes) → contains inc.pending name ≡ contains to name))
  unfolding recovery
  clear-raised_closes key sent_at gen' book title' message' at gen'' said_at gen‴ u all closed =
      let book' = (raised key sent_at gen' book).0 in
      let over = said title' message' at gen'' in
      (
        rw
            (
              clear-raised key sent_at gen' book title' message' at gen'' closed,
              deliver_one n key over arrives said_at gen‴ (insert key over book')
                  (erase key (insert key over book'))
                  (commit-said key book' title' message' at gen'' said_at gen‴ all),
            )
            (rw (lookup-erase key key (insert key over book'), ==_refl key)),
        (
          over,
          rw (clear-raised key sent_at gen' book title' message' at gen'' closed),
          refl,
          (settled-IsSettled u all).5,
        ),
      )
