-- ===== src/Bench/CheckOverload/Tests.antt =====
-- The theorem about bench/check_overload.py at a concrete report.
use zhtps.Common.{ℕ, ◌*◌, ◌≡◌, ◌↔◌, refl, true, false, [], ◌∷◌, none, some, String, ok}
use zhtps.Bench.Floats.Thousandths.{thousandths}
use zhtps.Bench.CheckOverload.{Targets, Phase, Report, validate}
use zhtps.Bench.CheckOverload.Issues.{audit}
use zhtps.Bench.CheckOverload.Passed.{IsDemonstrated, audit_iff}

abbrev pub usual_targets : Targets thousandths
usual_targets = record {
  baseline_seconds = 60_000;
  overload_seconds = 180_000;
  recovery_seconds = 30_000;
  max_unsent_percent = 100;
  min_goodput_ratio = 900;
  max_success_p99_ms = 10_000;
  max_failure_p999_ms = 100_000;
  max_core_busy_percent = 85_000;
  max_rss_growth_percent = 5_000;
  max_clock_uncertainty_ms = 50_000;
}

abbrev phase : String → ℕ → Phase thousandths
phase label multiple = record {
  label = some label;
  seconds = 180_000;
  offered_rate = multiple * 1_000_000;
  goodput = 990_000;
  success_percent = 99_950;
  success_p99_ms = 4_000;
  admin_errors = 0;
  rss_max_mib = some 64_000;
  core_busy_percent_max = some 70_000;
  rejection_count = multiple;
  rejection_p999_ms = some 20_000;
  failure_count = 0;
  failure_p999_ms = none;
  dial_attempts = none;
  sent = 999_900;
  offered = 1_000_000;
}

abbrev good_report : Report thousandths
good_report = record {
  origin_boot = some "6f1c";
  client_boot = some "a2d0";
  separate_kernel = true;
  clock_uncertainty_ns = some 400_000_000;
  churn = false;
  phases =
      phase "baseline" 1
      ∷ phase "overload_2x" 2
      ∷ phase "recovery_2x" 1
      ∷ phase "overload_5x" 5
      ∷ phase "recovery_5x" 1
      ∷ phase "overload_10x" 10
      ∷ phase "recovery_10x" 1
      ∷ [];
}

good_report_test : audit thousandths usual_targets good_report ≡ ok (true, [])
unfolding audit
good_report_test = refl

audit_iff_example : (audit thousandths usual_targets good_report ≡ ok (true, [])) ↔ (
    (validate thousandths usual_targets ≡ ok tt)
    × IsDemonstrated thousandths usual_targets good_report)
audit_iff_example = audit_iff thousandths usual_targets good_report
