-- ===== src/Notify/Deliver/Ends.antt =====
-- A delivery ends (internal/notify/incident.go, `deliver`): at most one recovery follows an alert.
use archiver.Shared.{
  ==_refl, Bool, Bool-cases, Bytes, List, Option, Option-cases, arith, inl, inr, length, lookup,
  lookup-insert_self, ltb, none, not, refl, some, true, ℕ, ◌&&◌, ◌==◌, ◌≡◌, nat_eq, bytes_eq,
  int_eq,
}
use archiver.Notify.Incident.{Incident, Incidents, Notifier, recovery}
use archiver.Notify.Deliver.{missed_by, settle, conclude, commit_to, commit, deliver}

-- What is still to be delivered: nothing, or a recovery that is stored.
abbrev IsLast : Bytes → Incidents × Option Incident → Type 0
IsLast key (book, none) = Unit
IsLast key (book, some rec) = (lookup key book ≡ some rec) × (rec.recovered ≡ true)

conclude-IsLast :
    (n : Notifier) (key : Bytes) (inc : Incident) (now gen : ℕ) (book : Incidents)
    → IsLast key (conclude n key inc now gen book)
unfolding conclude recovery
conclude-IsLast n key inc now gen book =
    elim (Bool-cases (ltb 0 (length inc.clear_title) && not inc.recovered)) [
      | inl clears ↦ rw clears (lookup-insert_self key _ book, refl)
      | inr stays ↦ elim (Bool-cases (inc.recovered && (length inc.pending == 0))) [
        | inl over ↦ rw (stays, over) tt
        | inr owed ↦ rw (stays, owed) tt
      ]
    ]

commit-IsLast :
    (n : Notifier) (key : Bytes) (sent : Incident) (missed : List Bytes) (now gen : ℕ)
    (book : Incidents)
    → IsLast key (commit n key sent missed now gen book)
unfolding commit commit_to
commit-IsLast n key sent missed now gen book = elim (Option-cases (lookup key book)) [
  | inl gone ↦ rw gone tt
  | inr (inc, there) ↦ elim (Bool-cases (inc.gen == sent.gen)) [
    | inl same ↦
        rw (there, same) (conclude-IsLast n key (settle n sent.title missed inc) now gen book)
    | inr later ↦ rw (there, later) tt
  ]
]

conclude_recovered :
    (n : Notifier) (key : Bytes) (inc : Incident) (now gen : ℕ) (book : Incidents)
    → inc.recovered ≡ true
    → (conclude n key inc now gen book).1 ≡ none
unfolding conclude
conclude_recovered n key inc now gen book over = elim (Bool-cases (length inc.pending == 0)) [
  | inl told ↦ rw (over, told) (ground arith)
  | inr owed ↦ rw (over, owed) (ground arith)
]

settle_recovered :
    (n : Notifier) (title : Bytes) (missed : List Bytes) (inc : Incident)
    → inc.recovered ≡ true
    → (settle n title missed inc).recovered ≡ true
unfolding settle
settle_recovered n title missed inc over = ground arith

commit_recovered :
    (n : Notifier) (key : Bytes) (rec : Incident) (missed : List Bytes) (now gen : ℕ)
    (book : Incidents)
    → lookup key book ≡ some rec
    → rec.recovered ≡ true
    → (commit n key rec missed now gen book).1 ≡ none
unfolding commit commit_to
commit_recovered n key rec missed now gen book there over =
    rw (there, ==_refl rec.gen)
      (conclude_recovered n key (settle n rec.title missed rec) now gen book
        (settle_recovered n rec.title missed rec over))

deliver_last :
    (n : Notifier) (key : Bytes) (arrives : Bytes → Bool) (now gen : ℕ)
    (r : Incidents × Option Incident)
    → IsLast key r
    → (deliver 1 n key r.1 arrives now gen r.0).1 ≡ none
unfolding deliver
deliver_last n key arrives now gen (book, none) h = refl
deliver_last n key arrives now gen (book, some rec) (there, over) =
    commit_recovered n key rec (missed_by n rec arrives) now gen book there over

-- Two rounds are enough: whatever arrives and whatever the state holds, no recovery is left to
-- deliver after an alert and the recovery that may follow it.
pub deliver_terminates :
    (n : Notifier) (key : Bytes) (inc : Incident) (arrives : Bytes → Bool) (now gen : ℕ)
    (book : Incidents)
    → (deliver 2 n key (some inc) arrives now gen book).1 ≡ none
unfolding deliver
deliver_terminates n key inc arrives now gen book =
    deliver_last n key arrives now gen (commit n key inc (missed_by n inc arrives) now gen book)
      (commit-IsLast n key inc (missed_by n inc arrives) now gen book)
