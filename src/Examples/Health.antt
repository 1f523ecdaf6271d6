-- ===== src/Examples/Health.antt =====
-- Backup health with one service that has missed its backups (internal/backuphealth).
use archiver.Shared.{
  Bytes, [], any_of, bytes_beq, codes, false, length, ltb, refl, some, ◌*◌, ◌+◌, ◌==◌, ◌||◌, ◌∷◌,
  ◌≡◌, nat_eq, bytes_eq, int_eq,
}
use archiver.Notify.Incident.{second}
use archiver.Health.{Reading, compute, exit_code, is_failing_key, missed_twice}
use archiver.Health.Verdicts.{bad_service, compute-exit_code}

abbrev docs : Bytes
docs = codes "/srv/docs"

-- A run every hour, the last good backup three hours ago.
abbrev reading : Reading
reading = record {
  state_error = false;
  services = (docs, record { last_success = 0 + 3600; result = codes "success" }) ∷ [];
  schedule = some (λ t. some (t + 3600 * second));
  patterns = codes "/srv/*" ∷ [];
  dirs = docs ∷ [];
  unmatched = [];
  incidents_error = false;
  open_incidents = (codes "copy:nas", codes "Storage Down") ∷ [];
  workers_error = false;
  workers = [];
  now = 4 * 3600 * second;
}

exit_code_test : exit_code (compute reading) ≡ 2
unfolding compute exit_code bytes_beq missed_twice
exit_code_test = refl

compute-exit_code_example : (exit_code (compute reading) == 2) ≡ (
    reading.state_error
    || (length reading.patterns == 0
        || (ltb 0 (length reading.unmatched)
            || (any_of (bad_service reading) reading.dirs
                || (reading.incidents_error
                    || any_of (λ e. is_failing_key e.0) reading.open_incidents)))))
compute-exit_code_example = compute-exit_code reading
