-- ===== src/Bench/SummarizeOverload/Tests.antt =====
-- The theorems about bench/summarize_overload.py and the audit at a concrete run.
use zhtps.Common.{
  ℕ, ◌*◌, ◌≡◌, refl, true, false, List, [], ◌∷◌, none, some, String, ok, err, value_error, pos, All,
  Result, subst, ok-injective, arith,
}
use zhtps.Bench.Floats.Thousandths.{thousandths}
use zhtps.Bench.CheckOverload.Tests.{usual_targets}
use zhtps.Bench.CheckOverload.Passed.{IsDemonstrated}
use zhtps.Bench.SummarizeOverload.Samples.{core_use}
use zhtps.Bench.SummarizeOverload.Cores.{IsShare, SharesOnly, Grows, core_use-Shares}
use zhtps.Bench.SummarizeOverload.{Latency, Sample, Load, Run, Summary, CoreUse, Cores, Option}
use zhtps.Bench.SummarizeOverload.Rows.{summarize}
use zhtps.Bench.SummarizeOverload.Accounts.{Matches, Describes, summarize-Describes}
use zhtps.Bench.SummarizeOverload.Audit.{Hosts, audit_run, Balances}
use zhtps.Bench.SummarizeOverload.Demonstrated.{audit_run_demonstrates}
use zhtps.Bench.SummarizeOverload.Read.{IsRead}
use zhtps.Bench.CheckOverload.{Phase}

abbrev latency : ℕ → Latency thousandths
latency count = record {
  count = count;
  p99_us = 4_000_000;
  p999_us = some 20_000_000;
  p9999_us = none;
  max_us = some 90_000_000;
}

abbrev pub sample_at : ℕ → ℕ → ℕ → Sample thousandths
sample_at time busy idle = record {
  unix_ns = time;
  rss = 64 * 1_048_576;
  fds = 40;
  cpu_seconds = busy;
  tcp_tw = some 3;
  tcp_mem = none;
  listen_overflows = 0;
  client = none;
  server_cores = some (("cpu9", busy ∷ 0 ∷ 0 ∷ idle ∷ 0 ∷ 0 ∷ 0 ∷ 0 ∷ []) ∷ []);
  counters = none;
  admin_error = false;
}

abbrev pub load : String → ℕ → Load thousandths
load label multiple = record {
  label = some label;
  offered_rate = multiple * 1_000_000;
  duration_seconds = 180_000;
  sent_per_second = 999_900;
  window_successes_per_second = 990_000;
  start_unix_ns = pos 0;
  end_unix_ns = pos 180_000_000_000;
  offered = 1_000_000;
  sent = 999_900;
  successes = 999_500;
  generator_queue_drops = 60;
  generator_expired = 40;
  failures = some (("http_503", 350) ∷ ("timeout", 50) ∷ []);
  success_latency = latency 999_500;
  success_service_latency = latency 999_500;
  rejection_latency = latency 350;
  failure_latency = latency 50;
  scheduler_lag = latency 999_900;
  dial_attempts = none;
  request_bytes_written = none;
  response_bytes_validated = none;
}

abbrev pub counters : List (String × ℕ)
counters =
    ("ListenDrops", 1)
    ∷ ("ListenOverflows", 2)
    ∷ ("TCPReqQFullDoCookies", 0)
    ∷ ("TCPReqQFullDrop", 0)
    ∷ ("TCPBacklogDrop", 4)
    ∷ []

abbrev run : Run thousandths
run = record {
  status = "complete";
  server_exit = some (pos 0);
  phases =
      load "baseline" 1
      ∷ load "overload_2x" 2
      ∷ load "recovery_2x" 1
      ∷ load "overload_5x" 5
      ∷ load "recovery_5x" 1
      ∷ load "overload_10x" 10
      ∷ load "recovery_10x" 1
      ∷ [];
  samples = sample_at 1_000_000_000 100 500 ∷ sample_at 61_000_000_000 42_100 18_500 ∷ [];
  kernel_before = counters;
  kernel_after = counters;
}

abbrev pub hosts : Hosts thousandths
hosts = record {
  origin_boot = some "6f1c";
  client_boot = some "a2d0";
  separate_kernel = true;
  clock_uncertainty_ns = some 400_000_000;
  churn = false;
}

abbrev or_nothing : Result (Summary thousandths) → Summary thousandths
or_nothing (ok s) = s
or_nothing (err e) = record { phases = []; server_exit = none; kernel_delta = [] }

abbrev run_summary : Summary thousandths
unfolding summarize
run_summary = or_nothing (summarize thousandths run)

summarized : summarize thousandths run ≡ ok run_summary
unfolding summarize run_summary
summarized = refl

audited : audit_run thousandths usual_targets hosts run ≡ ok (true, [])
unfolding audit_run
audited = refl

unbalanced :
    summarize thousandths
      (record run { phases = record (load "baseline" 1) { successes = 1 } ∷ [] })
    ≡ err (value_error "offer accounting does not balance")
unfolding summarize
unbalanced = refl

summarize-Describes_example :
    (run.status ≡ "complete")
    × (run.server_exit ≡ some (pos 0))
    × (run_summary.server_exit ≡ some (pos 0))
    × Matches (Describes thousandths run.samples) run.phases run_summary.phases
summarize-Describes_example = summarize-Describes thousandths run run_summary summarized

audit_run_demonstrates_example :
    (run.status ≡ "complete")
    × (run.server_exit ≡ some (pos 0))
    × All (Balances thousandths) run.phases
    × ((phases : List (Phase thousandths)) × Matches
          (IsRead thousandths run.samples)
          run.phases
          phases
        × IsDemonstrated thousandths usual_targets (record {
          origin_boot = hosts.origin_boot;
          client_boot = hosts.client_boot;
          separate_kernel = hosts.separate_kernel;
          clock_uncertainty_ns = hosts.clock_uncertainty_ns;
          churn = hosts.churn;
          phases = phases;
        }))
audit_run_demonstrates_example = audit_run_demonstrates thousandths usual_targets hosts run audited

abbrev earlier_ticks : List ℕ
earlier_ticks = 100 ∷ 0 ∷ 0 ∷ 500 ∷ 20 ∷ 0 ∷ 0 ∷ 0 ∷ 7 ∷ []

abbrev later_ticks : List ℕ
later_ticks = 170 ∷ 0 ∷ 0 ∷ 520 ∷ 30 ∷ 0 ∷ 0 ∷ 0 ∷ 7 ∷ []

abbrev earlier : Cores
earlier = ("cpu9", earlier_ticks) ∷ []

abbrev later : Option Cores
later = some (("cpu9", later_ticks) ∷ [])

abbrev cores_used : CoreUse thousandths
cores_used = record {
  busy_percent = 70_000;
  busy_percent_by_cpu = ("cpu9", 70_000) ∷ [];
  busy_percent_max = 70_000;
}

used : core_use thousandths (some earlier) later ≡ ok (some cores_used)
unfolding core_use
used = refl

core_use-Shares_example :
    IsShare thousandths cores_used.busy_percent
    × SharesOnly thousandths cores_used.busy_percent_by_cpu
core_use-Shares_example =
    core_use-Shares thousandths earlier later cores_used
      ((λ after found. subst (Grows earlier_ticks) (ok-injective found) (omega arith)), tt) used
