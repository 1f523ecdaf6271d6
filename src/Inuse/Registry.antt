-- ===== src/Inuse/Registry.antt =====
-- The registry directory (inuse.go: `Hold`, `Narrow`, `Release`, `Read` and `readOne`). A file of
-- the directory is seen at one instant, locked or not: the reopening of a file that is replaced
-- while it is read is the same instant taken again.
use archiver.Shared.{
  ==_refl, All, Bool, Bool-cases, Bytes, List, [], any_of, arith, false, has_prefix, if◌then◌else◌,
  inl, inr, keep, map, not, refl, true, ℤ, ◌++◌, ◌==◌, ◌||◌, ◌∷◌, ◌≡◌, nat_eq, bytes_eq, int_eq,
}
use archiver.Inuse.{Revision, Set, line, parse, has, holding_has}
use archiver.Inuse.Format.{IsPlain, parse-line}

pub record Entry : Type 0 where
  pub name : Bytes
  pub is_dir : Bool
  pub locked : Bool
  pub lines : List Bytes

abbrev pub Registry : Type 0
Registry = List Entry

-- A name that `Read` passes over: a file still being written, a gate.
abbrev is_hidden : Bytes → Bool
is_hidden name = has_prefix name (b'.' ∷ [])

registration : Bytes → List Revision → Entry
registration name revs = record {
  name = name;
  is_dir = false;
  locked = true;
  lines = map line revs;
}

-- `Hold`: a new file, locked and complete when it gets its name.
unfoldable pub hold : Bytes → List Revision → Registry → Registry
unfolding registration
hold name revs dir = dir ++ registration name revs ∷ []

-- `Narrow`: a new file takes the name of the old one.
unfoldable pub narrow : Bytes → List Revision → Registry → Registry
unfolding registration
narrow name revs [] = []
narrow name revs (e ∷ dir) =
    if e.name == name then registration name revs ∷ dir else e ∷ narrow name revs dir

-- `Release`: the file is removed.
unfoldable pub release : Bytes → Registry → Registry
release name dir = keep (λ e. not (e.name == name)) dir

add_holding : List Revision → Set → Set
add_holding [] set = set
add_holding (r ∷ rs) set = (r ∷ rs) ∷ set

-- `Read`: what live readers registered on a storage, and the directory without the files of
-- readers that died.
unfoldable pub read : Bytes → Registry → Set × Registry
unfolding add_holding
read storage [] = ([], [])
read storage (e ∷ dir) =
    let (set, left) = read storage dir in
    if is_hidden e.name || e.is_dir
    then (set, e ∷ left)
    else if e.locked
    then (add_holding (parse storage e.lines) set, e ∷ left)
    else (set, left)

has-add_holding :
    (h : List Revision) (set : Set) (id : Bytes) (n : ℤ)
    → has (add_holding h set) id n ≡ (holding_has h id n || has set id n)
unfolding add_holding has
has-add_holding [] set id n = refl
has-add_holding (r ∷ rs) set id n = refl

has-nil : (id : Bytes) (n : ℤ) → has [] id n ≡ false
unfolding has
has-nil id n = refl

-- A registration protects exactly what it says on a storage, besides what others protect.
pub has-read-hold :
    (storage name : Bytes) (revs : List Revision) (dir : Registry) (id : Bytes) (n : ℤ)
    → All IsPlain revs
    → has_prefix name (b'.' ∷ []) ≡ false
    → has (read storage (hold name revs dir)).0 id n
      ≡ (has (read storage dir).0 id n || holding_has (keep (λ r. r.storage == storage) revs) id n)
unfolding read hold
has-read-hold storage name revs [] id n plain visible =
    rw (visible, parse-line storage revs plain, has-add_holding) (ground (arith, has-nil id n))
has-read-hold storage name revs (e ∷ dir) id n plain visible = ground (
  arith,
  has-read-hold storage name revs dir id n plain visible,
  has-add_holding (parse storage e.lines) (read storage dir).0 id n,
  has-add_holding (parse storage e.lines) (read storage (hold name revs dir)).0 id n,
)

-- Reading again finds the same registrations: what it removed was no one's.
pub read-read :
    (storage : Bytes) (dir : Registry) → read storage (read storage dir).1 ≡ read storage dir
unfolding read
read-read storage [] = refl
read-read storage (e ∷ dir) = elim (Bool-cases (is_hidden e.name || e.is_dir)) [
  | inl skipped ↦ simp (skipped, read-read storage dir)
  | inr file ↦ elim (Bool-cases e.locked) [
    | inl live ↦ simp (file, live, read-read storage dir)
    | inr dead ↦ simp (file, dead, read-read storage dir)
  ]
]

-- A released registration protects nothing, and no other registration is touched.
pub release-hold :
    (name : Bytes) (revs : List Revision) (dir : Registry)
    → any_of (λ e. e.name == name) dir ≡ false
    → release name (hold name revs dir) ≡ dir
unfolding release hold
release-hold name revs [] fresh = rw (==_refl name)
release-hold name revs (e ∷ dir) fresh = ground (arith, release-hold name revs dir)

-- Narrowing a registration is as if it had been made with the new revisions.
narrow-hold :
    (name : Bytes) (revs fewer : List Revision) (dir : Registry)
    → any_of (λ e. e.name == name) dir ≡ false
    → narrow name fewer (hold name revs dir) ≡ hold name fewer dir
unfolding narrow hold
narrow-hold name revs fewer [] fresh = rw (==_refl name)
narrow-hold name revs fewer (e ∷ dir) fresh = ground (arith, narrow-hold name revs fewer dir)
