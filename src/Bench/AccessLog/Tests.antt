-- ===== src/Bench/AccessLog/Tests.antt =====
-- The theorem about bench/access_log.py at a concrete log.
use zhtps.Bench.Floats.Thousandths.{thousandths}
use zhtps.Bench.Overload.Loops.{listening, admin_listening, other}
use zhtps.Bench.AccessLog.Trial.{closed, rated, Metrics, Outside, Measured, trial, trial_sound}
use zhtps.Common.{
  ◌==◌, ◌&&◌, length, pos, none, ℕ, ◌+◌, ◌≡◌, ◌≤◌, ◌↔◌, refl, true, false, List, [], ◌∷◌, ok, All,
  ◌<◌,
}
use zhtps.Bench.AccessLog.{
  Line, LogReport, audit_log, expected_records, accesses, IsCorrect, audit_log_iff, length,
}

abbrev access : Line
access = record {
  is_access = true;
  status = 200;
  is_get = true;
  bytes = 6;
  has_obsolete = false;
  has_integers = true;
}

abbrev startup : Line
startup = record {
  is_access = false;
  status = 0;
  is_get = false;
  bytes = 0;
  has_obsolete = false;
  has_integers = false;
}

abbrev log : List Line
log = startup ∷ access ∷ access ∷ []

abbrev report : LogReport
report = record {
  records = 3;
  access_records = 2;
  dropped = 1;
  write_errors = 0;
  is_complete = false;
}

abbrev drops : ℕ
drops = 1

abbrev failed_writes : ℕ
failed_writes = 0

log_audited : audit_log true 3 drops failed_writes log ≡ ok report
unfolding audit_log
log_audited = refl

audit_log_iff_example : (audit_log true 3 drops failed_writes log ≡ ok report) ↔ (
    All IsCorrect log
    × (accesses log ≤ expected_records true 3)
    × (expected_records true 3 ≤ accesses log + drops)
    × (report ≡ record {
      records = length log;
      access_records = accesses log;
      dropped = drops;
      write_errors = failed_writes;
      is_complete =
          accesses log == expected_records true 3 && (drops == failed_writes && failed_writes == 0);
    }))
audit_log_iff_example = audit_log_iff true 3 drops failed_writes log report

abbrev drained : ℕ → Metrics
drained n = record { log_pending = n; dropped = drops; write_errors = failed_writes }

abbrev outside : Outside thousandths
outside = record {
  ports =
      record { events = other ∷ listening 8443 ∷ []; left = none }
      ∷ record { events = other ∷ listening 8443 ∷ admin_listening 9000 ∷ []; left = none }
      ∷ [];
  warmup = ok (closed 1 false);
  before = record { metrics = ok (drained 0); is_late = false } ∷ [];
  workload =
      ok (rated (record { offered = 2; sent = 2; successes = 2; has_failures = false } ∷ []) 1000);
  after =
      record { metrics = ok (drained 7); is_late = false }
      ∷ record { metrics = ok (drained 1); is_late = true }
      ∷ [];
  is_collected = true;
  exit_code = pos 0;
  log = log;
}

abbrev measurement : Measured thousandths
measurement = record {
  warmup = record { validated_responses = 1; has_failures = false };
  workload = record { validated_responses = 2; has_failures = false };
  metrics = drained 1;
}

tried : trial thousandths true outside ≡ ok (measurement, report)
unfolding trial audit_log
tried = refl

trial_sound_example :
    (outside.exit_code ≡ pos 0)
    × (measurement.workload.has_failures ≡ false)
    × (0 < measurement.workload.validated_responses)
    × (measurement.metrics.log_pending ≤ 1)
    × All IsCorrect log
    × (report.access_records ≡ accesses log)
    × (accesses log ≤ expected_records true 3)
    × (expected_records true 3 ≤ accesses log + drops)
trial_sound_example = trial_sound thousandths true outside measurement report tried
