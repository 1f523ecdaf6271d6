-- ===== src/Backup/Outcomes.antt =====
-- What is kept of each service's backups, for backup health (internal/pipeline/backup.go: `record`,
-- `uploadSpike`, `noteUpload`; internal/lockstate/backup.go). Uploads and instants are natural
-- numbers; a result of arithmetic on uploads is the natural number of its 64 bits, with what is from
-- 2^63 on negative.
use archiver.Shared.{
  Bool, Bytes, List, Option, [], codes, false, if◌then◌else◌, insert, leb, length, lookup, ltb,
  none, not, some, suc, zero, ℕ, ◌%◌, ◌&&◌, ◌*◌, ◌++◌, ◌+◌, ◌-◌, ◌/◌, ◌^◌, ◌∷◌, nat_eq, bytes_eq,
  int_eq,
}
pub mod Records
pub mod Kept
pub mod Judged
pub mod Sorting
pub mod Spikes
use archiver.Backup.{Result, success, failed, skipped, stopped, interrupted, is_success}

-- lockstate.ServiceResult.
pub record ServiceRecord : Type 0 where
  pub last_attempt : ℕ
  pub last_success : ℕ
  pub result : Bytes
  pub seconds : ℕ
  pub revision : ℕ
  pub uploaded : ℕ
  pub recent : List ℕ

abbrev pub no_record : ServiceRecord
no_record = record {
  last_attempt = 0;
  last_success = 0;
  result = [];
  seconds = 0;
  revision = 0;
  uploaded = 0;
  recent = [];
}

-- lockstate.BackupState.
pub record BackupState : Type 0 where
  pub services : List (Bytes × ServiceRecord)
  pub primary : Bytes

unfoldable pub result_text : Result → Bytes
result_text success = codes "success"
result_text failed = codes "failed"
result_text skipped = codes "skipped"
result_text stopped = codes "stopped"
result_text interrupted = codes "interrupted"

abbrev pub upload_history : ℕ
upload_history = 7

abbrev pub upload_history_min : ℕ
upload_history_min = 3

abbrev pub spike_factor : ℕ
spike_factor = 4

abbrev pub spike_floor : ℕ
spike_floor = 20 * 2 ^ 30

unfoldable pub drop {ℓ} : {A : Type ℓ} → ℕ → List A → List A
drop zero xs = xs
drop (suc n) [] = []
drop (suc n) (x ∷ xs) = drop n xs

-- `r.Recent[max(0, len(r.Recent)-uploadHistory):]`
unfoldable pub last_uploads : List ℕ → List ℕ
unfolding drop
last_uploads xs = drop (length xs - upload_history) xs

unfoldable pub insert_upload : ℕ → List ℕ → List ℕ
insert_upload n [] = n ∷ []
insert_upload n (m ∷ ms) = let rest = insert_upload n ms in if leb n m then n ∷ m ∷ ms else m ∷ rest

unfoldable pub sort_uploads : List ℕ → List ℕ
unfolding insert_upload
sort_uploads [] = []
sort_uploads (n ∷ ns) = insert_upload n (sort_uploads ns)

-- The element at an index; 0 past the end.
unfoldable pub upload_at : ℕ → List ℕ → ℕ
upload_at n [] = 0
upload_at zero (x ∷ xs) = x
upload_at (suc n) (x ∷ xs) = upload_at n xs

-- The order of int64, and half of one, rounded towards zero.
unfoldable pub leb_int64 : ℕ → ℕ → Bool
leb_int64 a b = leb ((a + 2 ^ 63) % 2 ^ 64) ((b + 2 ^ 63) % 2 ^ 64)

unfoldable pub half_int64 : ℕ → ℕ
half_int64 n = if ltb n (2 ^ 63) then n / 2 else (2 ^ 64 - (2 ^ 64 - n) / 2) % 2 ^ 64

unfoldable pub median : List ℕ → ℕ
unfolding sort_uploads upload_at half_int64
median recent =
    let sorted = sort_uploads recent in
    half_int64
      ((upload_at ((length sorted - 1) / 2) sorted + upload_at (length sorted / 2) sorted) % 2 ^ 64)

-- `uploadSpike`
unfoldable pub upload_spike : List ℕ → ℕ → Bool × ℕ
unfolding median leb_int64
upload_spike recent uploaded =
    if ltb (length recent) upload_history_min
    then (false, 0)
    else (let m = median recent in
        let above = (uploaded + (2 ^ 64 - m)) % 2 ^ 64 in
        (leb_int64 (spike_factor * m % 2 ^ 64) uploaded && not (leb_int64 above spike_floor), m))

-- What Duplicacy said of a backup.
pub record Stats : Type 0 where
  pub made : ℕ
  pub bytes : ℕ

-- A service's record after an outcome.
unfoldable pub with_outcome : Result → ℕ → ℕ → Stats → ServiceRecord → ServiceRecord
unfolding is_success result_text last_uploads
with_outcome result now took stats r =
    if is_success result
    then record {
      last_attempt = now;
      last_success = now;
      result = result_text result;
      seconds = took;
      revision = stats.made;
      uploaded = stats.bytes;
      recent = last_uploads (r.recent ++ stats.bytes ∷ []);
    }
    else record r { last_attempt = now; result = result_text result; seconds = took }

unfoldable pub record_of : Bytes → BackupState → ServiceRecord
record_of dir s = elim (lookup dir s.services) [ none ↦ no_record | some r ↦ r ]

-- What is raised or cleared: an unusually large upload, and a state that could not be written.
pub data Alert : Type 0 where
  raise_spike clear_spike raise_state clear_state : Bytes → Alert

-- `record`: the state on disk, if it can be read, and the primary's URL, if it has one, become the
-- new state on disk and the alerts, as the write succeeds or not.
unfoldable pub next_state :
    Bytes → Result → ℕ → ℕ → Stats → Option Bytes → BackupState → BackupState
unfolding with_outcome record_of is_success
next_state dir result now took stats url s = record {
  services = insert dir (with_outcome result now took stats (record_of dir s)) s.services;
  primary = if is_success result then elim url [ none ↦ s.primary | some u ↦ u ] else s.primary;
}

unfoldable pub spike_alerts : Bytes → Result → Stats → ServiceRecord → List Alert
unfolding is_success upload_spike
spike_alerts dir result stats r =
    if is_success result
    then (if (upload_spike r.recent stats.bytes).0
        then raise_spike dir ∷ []
        else clear_spike dir ∷ [])
    else []

abbrev pub readable : Option BackupState → BackupState
readable none = record { services = []; primary = [] }
readable (some s) = s

unfoldable pub record_outcome :
    Bool
    → Bytes
    → Result
    → ℕ
    → ℕ
    → Stats
    → Option Bytes
    → Option BackupState
    → Option BackupState × List Alert
unfolding next_state spike_alerts record_of
record_outcome writes dir result now took stats url disk =
    let s = readable disk in
    let alerts = spike_alerts dir result stats (record_of dir s) in
    if writes
    then (some (next_state dir result now took stats url s), alerts ++ clear_state dir ∷ [])
    else (disk, alerts ++ raise_state dir ∷ [])

-- One outcome of a service, and whether its state can be written.
pub record Outcome : Type 0 where
  pub writes : Bool
  pub dir : Bytes
  pub result : Result
  pub now : ℕ
  pub took : ℕ
  pub stats : Stats
  pub url : Option Bytes

-- The state on disk after outcomes that are recorded in order, by this program alone: what was written
-- stays readable.
unfoldable pub record_all : List Outcome → Option BackupState → Option BackupState
unfolding record_outcome
record_all [] disk = disk
record_all (o ∷ os) disk =
    record_all os (record_outcome o.writes o.dir o.result o.now o.took o.stats o.url disk).0
