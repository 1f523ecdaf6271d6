-- ===== src/Examples/Registry.antt =====
-- A registration of two revisions (internal/inuse/inuse.go).
use archiver.Shared.{
  All, Bytes, List, [], arith, codes, false, has_prefix, keep, map, negsuc, pos, refl, true, ◌==◌,
  ◌||◌, ◌∷◌, ◌≡◌, nat_eq, bytes_eq, int_eq,
}
use archiver.Inuse.{Revision, line, parse, has, holding_has}
use archiver.Inuse.Format.{IsPlain, parse-line}
use archiver.Inuse.Registry.{hold, read, has-read-hold, read-read}

abbrev storage : Bytes
storage = codes "local"

abbrev held : List Revision
held =
    record { storage = storage; id = codes "nas-docs"; rev = pos 12; and_newer = true }
    ∷ record { storage = codes "offsite"; id = codes "nas-docs"; rev = negsuc 0; and_newer = false }
    ∷ []

abbrev plain : All IsPlain held
plain = (
  record { storage_word = refl; id_word = refl; rev_range = (omega arith, omega arith) },
  (record { storage_word = refl; id_word = refl; rev_range = (omega arith, omega arith) }, tt),
)

parse-line_example : parse storage (map line held) ≡ keep (λ r. r.storage == storage) held
parse-line_example = parse-line storage held plain

has-read-hold_example :
    has (read storage (hold (codes "restore-1") held [])).0 (codes "nas-docs") (pos 15) ≡ (
      has (read storage []).0 (codes "nas-docs") (pos 15)
      || holding_has (keep (λ r. r.storage == storage) held) (codes "nas-docs") (pos 15))
unfolding has_prefix
has-read-hold_example =
    has-read-hold storage (codes "restore-1") held [] (codes "nas-docs") (pos 15) plain refl

read-read_example :
    read storage (read storage (hold (codes "restore-1") held [])).1
    ≡ read storage (hold (codes "restore-1") held [])
read-read_example = read-read storage (hold (codes "restore-1") held [])
