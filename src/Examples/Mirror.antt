-- ===== src/Examples/Mirror.antt =====
-- A mirror pass over two snapshot IDs (internal/copier/mirror.go).
use archiver.Shared.{
  Bool, Bytes, List, [], codes, false, lookup, ◌==◌, ◌∷◌, ◌≡◌, nat_eq, bytes_eq, int_eq,
}
use archiver.Copier.Mirror.{plan_mirror}
use archiver.Copier.Mirror.Lists.{revisions_of}
use archiver.Copier.Mirror.Rails.{expected, plan_mirror-expected}

abbrev docs : Bytes
docs = codes "nas:docs"

abbrev own : Bytes → Bool
own id = id == docs

abbrev local : List Bytes
local = codes "nas:docs:9" ∷ codes "nas:docs:3" ∷ codes "nas:docs:4" ∷ codes "other:1" ∷ []

abbrev target : List Bytes
target =
    codes "nas:docs:1"
    ∷ codes "nas:docs:4"
    ∷ codes "nas:docs:3"
    ∷ codes "nas:docs:8"
    ∷ codes "other:2"
    ∷ []

plan_mirror-expected_example :
    lookup docs (plan_mirror local target own false).delete
    ≡ expected (own docs) false (revisions_of docs local) (revisions_of docs target)
plan_mirror-expected_example = plan_mirror-expected local target own false docs
