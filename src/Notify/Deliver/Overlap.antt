-- ===== src/Notify/Deliver/Overlap.antt =====
-- Operations that come while a message is being sent (incident.go): another process clears the
-- incident, or a later phase of it has begun.
use archiver.Shared.{
  ==_refl, Bytes, List, arith, false, insert, length, le→leb, lookup, lookup-insert_self, lt→ltb,
  none, refl, some, suc, true, ℕ, ◌*◌, ◌+◌, ◌<◌, ◌==◌, ◌∷◌, ◌≡◌, ◌≤◌, nat_eq, bytes_eq, int_eq,
}
use archiver.Notify.{Kind}
use archiver.Notify.Incident.{
  Incident, Incidents, Notifier, second, claimed, repeated, raise_open, raise_case, raise, recovery,
  clear_case, apply_clear, clear,
}
use archiver.Notify.Deliver.{tell, settle, conclude, commit_to, commit}

module _ (n : Notifier) (key : Bytes) (inc sent : Incident) (c : ℕ) (cs message : Bytes)
    (missed : List Bytes) where
  abbrev noted : Incident
  noted = record inc { clear_title = c ∷ cs; clear_message = message }

  abbrev rec : ℕ → ℕ → Incident
  rec at gen' = recovery n (settle n sent.title missed noted) (c ∷ cs) message at gen'

  clear-claimed :
      (book : Incidents) (now gen : ℕ)
      → lookup key book ≡ some inc
      → claimed inc now ≡ true
      → inc.recovered ≡ false
      → clear n key (c ∷ cs) message now gen book ≡ (insert key noted book, none)
  unfolding clear clear_case apply_clear
  clear-claimed book now gen stored held alert = rw stored (simp (held, alert))

  commit-noted :
      (book : Incidents) (at gen' : ℕ)
      → inc.recovered ≡ false
      → inc.gen ≡ sent.gen
      → commit n key sent missed at gen' (insert key noted book)
        ≡ (insert key (rec at gen') (insert key noted book), some (rec at gen'))
  unfolding commit commit_to conclude settle
  commit-noted book at gen' alert same =
      rw (lookup-insert_self key noted book)
        (simp (same, alert, ==_refl sent.gen, lt→ltb 0 (suc (length cs)) (omega arith)))

  rec-pending :
      (at gen' : ℕ)
      → inc.recovered ≡ false
      → (rec at gen').pending ≡ tell n sent.title missed inc.pending inc.told
  unfolding recovery settle
  rec-pending at gen' alert = simp alert

-- A clear that comes while the alert is being sent sends nothing itself: the alert's sender, when it
-- records its delivery, gets the recovery to send, owed to whoever has been told by then.
pub commit-clear :
    (n : Notifier) (key : Bytes) (inc sent : Incident) (book : Incidents) (c : ℕ)
    (cs message : Bytes) (now gen at gen' : ℕ) (missed : List Bytes)
    → lookup key book ≡ some inc
    → claimed inc now ≡ true
    → inc.recovered ≡ false
    → inc.gen ≡ sent.gen
    → let (book', send) = clear n key (c ∷ cs) message now gen book in
      (send ≡ none)
      × ((rec : Incident) × ((commit n key sent missed at gen' book').1 ≡ some rec)
          × (lookup key (commit n key sent missed at gen' book').0 ≡ some rec)
          × (rec.recovered ≡ true)
          × (rec.title ≡ c ∷ cs)
          × (rec.pending ≡ tell n sent.title missed inc.pending inc.told))
unfolding recovery
commit-clear n key inc sent book c cs message now gen at gen' missed stored held alert same =
    let after = rec n key inc sent c cs message missed at gen' in
    let cleared = clear-claimed n key inc sent c cs message missed book now gen stored held alert in
    let done = commit-noted n key inc sent c cs message missed book at gen' alert same in
    (
      rw cleared,
      (
        after,
        rw (cleared, done),
        rw (cleared, done) (lookup-insert_self key after _),
        refl,
        refl,
        rec-pending n key inc sent c cs message missed at gen' alert,
      ),
    )

raise_repeats :
    (n : Notifier) (key : Bytes) (sent : Incident) (k : Kind) (title message : Bytes) (now gen : ℕ)
    (book : Incidents)
    → lookup key book ≡ some sent
    → claimed sent now ≡ false
    → sent.recovered ≡ false
    → 0 < n.repeat_every
    → n.repeat_every + sent.last_sent * second ≤ now
    → let inc = repeated n sent k title message now gen in
      raise n key k title message now gen book ≡ (insert key inc book, some inc)
unfolding raise raise_case raise_open
raise_repeats n key sent k title message now gen book stored free alert on due =
    rw stored (simp (free, alert, lt→ltb 0 n.repeat_every on, le→leb _ now due))

commit_other :
    (n : Notifier) (key : Bytes) (sent inc : Incident) (at gen' : ℕ) (missed : List Bytes)
    (book : Incidents)
    → (inc.gen == sent.gen) ≡ false
    → commit n key sent missed at gen' (insert key inc book) ≡ (insert key inc book, none)
unfolding commit commit_to
commit_other n key sent inc at gen' missed book other =
    rw (lookup-insert_self key inc book) (simp other)

-- What an earlier phase's sender records changes nothing once the incident has been raised again with
-- another generation.
commit_stale :
    (n : Notifier) (key : Bytes) (sent : Incident) (k : Kind) (title message : Bytes)
    (now gen at gen' : ℕ) (missed : List Bytes) (book : Incidents)
    → lookup key book ≡ some sent
    → claimed sent now ≡ false
    → sent.recovered ≡ false
    → 0 < n.repeat_every
    → n.repeat_every + sent.last_sent * second ≤ now
    → (gen == sent.gen) ≡ false
    → let (book', send) = raise n key k title message now gen book in
      commit n key sent missed at gen' book' ≡ (book', none)
unfolding repeated
commit_stale n key sent k title message now gen at gen' missed book stored free alert on due other =
    let now_sent = repeated n sent k title message now gen in
    let raised = raise_repeats n key sent k title message now gen book stored free alert on due in
    rw raised (commit_other n key sent now_sent at gen' missed book other)
