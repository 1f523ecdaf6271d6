-- ===== src/Examples/Forget.antt =====
-- Forgetting a service on two storages, of which the second holds nothing of it
-- (internal/forget/forget.go).
use archiver.Config.Glob.{has_meta}
use archiver.Inuse.{has}
use archiver.Shared.{
  Bytes, List, [], atoi, bytes_beq, codes, cut_prefix, has_prefix, if◌then◌else◌, map, refl, some,
  sort_ints, sort_texts, trim_space, true, ◌==◌, ◌∷◌, ◌≡◌, nat_eq, bytes_eq, int_eq,
}
use archiver.Forget.{World, Consent, typed, run, id_of, pairs, orphans, configured_names}
use archiver.Forget.Guarded.{IsTrace}
use archiver.Forget.Planned.{IsPermitted, run-IsPermitted}
use archiver.Forget.Complete.{removed, with_revisions, run-removed}

abbrev host : Bytes
host = codes "nas"

abbrev names : List Bytes
names = codes "old" ∷ []

abbrev configured : List Bytes
configured = codes "app" ∷ []

abbrev targets : List Bytes
targets = codes "local" ∷ codes "cloud" ∷ []

-- The primary lists revisions 1 and 7, besides a file; nothing is in use.
abbrev world : World
world = record {
  list = λ acts t id.
      some (if t == codes "local" then codes "7" ∷ codes "tmp" ∷ codes "1" ∷ [] else []);
  gate = λ acts t. true;
  registry = λ acts t. some [];
  removes = λ acts t id. true;
}

abbrev consent : Consent
consent = typed (codes " y\n")

run-IsPermitted_example :
    IsTrace
      (IsPermitted world consent host configured targets names)
      (run world consent host configured targets names).acts
run-IsPermitted_example = run-IsPermitted world consent host configured targets names

run-removed_example :
    removed world [] (run world consent host configured targets names).acts
    ≡ with_revisions world [] (pairs targets (map (id_of host) names))
unfolding run has_prefix bytes_beq cut_prefix sort_ints atoi trim_space has
run-removed_example = run-removed world consent host configured targets names refl

run-two :
    removed world [] (run world consent host configured targets names).acts
    ≡ (codes "local", codes "nas-old") ∷ []
unfolding removed run has_prefix bytes_beq cut_prefix sort_ints atoi trim_space has
run-two = refl

orphans-two :
    orphans
      (codes "nas-old" ∷ codes "pi-app" ∷ codes "nas-app" ∷ codes "nas-" ∷ [])
      host
      (configured_names (λ d. d) configured (codes "/srv/*" ∷ []))
    ≡ codes "nas-" ∷ codes "nas-old" ∷ []
unfolding orphans sort_texts cut_prefix configured_names bytes_beq has_meta
orphans-two = refl
