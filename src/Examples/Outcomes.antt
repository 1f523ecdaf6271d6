-- ===== src/Examples/Outcomes.antt =====
-- Outcomes of two services, and what is kept and made of them (internal/pipeline/backup.go,
-- `record`).
use archiver.Shared.{
  Bool, Bytes, List, [], arith, bytes_beq, codes, false, leb, length, ltb, none, not, refl, some,
  true, ℕ, ◌&&◌, ◌*◌, ◌+◌, ◌/◌, ◌^◌, ◌||◌, ◌∷◌, ◌≡◌, nat_eq, bytes_eq, int_eq,
}
use archiver.Backup.{Result, success, failed, is_success}
use archiver.Backup.Outcomes.{upload_spike, Outcome, record_all, record_of, last_uploads}
use archiver.Backup.Outcomes.Records.{recorded_state, record_in}
use archiver.Backup.Outcomes.Kept.{kept, kept-record_all}
use archiver.Backup.Outcomes.Judged.{seen, is_fails-recorded_state}
use archiver.Backup.Outcomes.Sorting.{count}
use archiver.Backup.Outcomes.Spikes.{is_small, upload_spike_lem}
use archiver.Health.{Reading, judge_service}
use archiver.Health.Verdicts.{is_fails}
use archiver.Notify.Incident.{second}

abbrev docs : Bytes
docs = codes "/srv/docs"

abbrev media : Bytes
media = codes "/srv/media"

abbrev outcome : Bool → Bytes → Result → ℕ → Outcome
outcome writes dir result n = record {
  writes = writes;
  dir = dir;
  result = result;
  now = n * 3600;
  took = 60;
  stats = record { made = n; bytes = n };
  url = some (codes "sftp://nas/backups");
}

-- Nine good backups of one service, one of them not recorded, among others.
abbrev outcomes : List Outcome
outcomes =
    outcome true docs success 1
    ∷ outcome true docs success 2
    ∷ outcome true media success 3
    ∷ outcome true docs failed 4
    ∷ outcome true docs success 5
    ∷ outcome false docs success 6
    ∷ outcome true docs success 7
    ∷ outcome true docs success 8
    ∷ outcome true docs success 9
    ∷ outcome true docs success 10
    ∷ outcome true docs success 11
    ∷ []

kept-record_all_example : kept docs (record_all outcomes none) ≡ 2 ∷ 5 ∷ 7 ∷ 8 ∷ 9 ∷ 10 ∷ 11 ∷ []
unfolding record_of last_uploads bytes_beq is_success
kept-record_all_example = kept-record_all outcomes docs none (omega arith)

abbrev reading : Reading
reading = record {
  state_error = false;
  services = [];
  schedule = some (λ t. some (t + 3600 * second));
  patterns = [];
  dirs = docs ∷ [];
  unmatched = [];
  incidents_error = false;
  open_incidents = [];
  workers_error = false;
  workers = [];
  now = 4 * 3600 * second;
}

is_fails-recorded_state_example :
    is_fails (
      judge_service reading docs
        (seen (record_in docs (recorded_state (outcome true docs failed 4) none))))
    ≡ true
is_fails-recorded_state_example =
    is_fails-recorded_state (outcome true docs failed 4) none reading docs refl

abbrev gib : ℕ
gib = 2 ^ 30

abbrev usual : List ℕ
usual = 3 * gib ∷ 9 * gib ∷ 2 * gib ∷ 40 * gib ∷ []

upload_spike_lem_example :
    ((not (upload_spike usual (48 * gib)).0
        || (leb 3 (length usual) && leb (length usual) (2 * count (is_small (48 * gib)) usual)))
      ≡ true)
    × ((not (leb 3 (length usual) && ltb (length usual / 2) (count (is_small (48 * gib)) usual))
          || (upload_spike usual (48 * gib)).0)
        ≡ true)
upload_spike_lem_example = upload_spike_lem usual (48 * gib) refl (omega arith)

upload_spike-usual : (upload_spike usual (48 * gib)).0 ≡ true
unfolding upload_spike
upload_spike-usual = refl
