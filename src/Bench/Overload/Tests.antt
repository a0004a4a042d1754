-- ===== src/Bench/Overload/Tests.antt =====
-- The theorems about bench/overload.py at concrete options and a concrete run.
use zhtps.Common.{
  ℕ, ◌≡◌, ◌↔◌, ◌⊎◌, refl, true, false, List, [], ◌∷◌, map, Option, none, some, String, ok, err,
  value_error, usage_error, pos, negsuc, All,
}
use zhtps.Bench.Floats.Thousandths.{thousandths}
use zhtps.Bench.CheckOverload.Tests.{usual_targets}
use zhtps.Bench.SummarizeOverload.{Load}
use zhtps.Bench.SummarizeOverload.Audit.{audit_run, Balances}
use zhtps.Bench.SummarizeOverload.Tests.{sample_at, load, counters, hosts}
use zhtps.Bench.Overload.{Options, Host, cpu_list, check_options, monitor_cpu, soft_limit}
use zhtps.Bench.Overload.Checks.{IsLocalRun, IsRemoteRun, FitsWorkers, check_options_iff}
use zhtps.Bench.Overload.Loops.{listening, admin_listening, other, Tick, remote_end}
use zhtps.Bench.Overload.Report.{Outside, run}
use zhtps.Bench.Overload.Completed.{Completed, run-Completed}
use zhtps.Bench.Overload.Audited.{run_of, or_none, run-audited}

abbrev host : Host thousandths
host = record {
  affinity = 0 ∷ 1 ∷ 2 ∷ 3 ∷ [];
  soft = pos 1024;
  hard = pos 4096;
  resolve = λ path. path;
  is_loopback = λ address. ok true;
}

abbrev options : Options thousandths
options = record {
  server_address = "127.0.0.1";
  server_port = pos 0;
  target_address = none;
  client_host = none;
  remote_client_binary = none;
  remote_timeout = 3_600_000;
  allow_same_host_client = false;
  schedule = "1000:60s";
  labels = none;
  server_cpus = "0-1";
  client_cpus = "2";
  client_netns_pid = some (pos 77);
  workers = pos 2;
  max_connections = pos 512;
  connections = pos 512;
  shards = pos 8;
  queue = pos 128;
  max_lag = "10ms";
  rate_limit = pos 0;
  burst = some (pos 9);
  max_active = none;
  rejection_rate = pos 1000;
  churn = true;
  access_log = false;
  source_ips = pos 0;
  method = "GET";
  path = "/";
  request_body = some "/tmp/body";
  expect_body = none;
  content_type = "text/plain";
  allow_chunked = false;
  client_max_requests = pos 0;
  server_max_requests = pos 100;
  timeout = "1s";
}

cpu_list_tests :
    (cpu_list "3,0-2,1" ≡ ok (3 ∷ 0 ∷ 1 ∷ 2 ∷ 1 ∷ []))
    × (cpu_list "1-9-2" ≡ ok (1 ∷ 2 ∷ []))
    × (cpu_list "2-1" ≡ ok [])
    × (cpu_list "" ≡ err (value_error "invalid literal for int() with base 10"))
unfolding cpu_list
cpu_list_tests = (refl, refl, refl, refl)

accepted : check_options thousandths host options ≡ ok tt
unfolding check_options
accepted = refl

overlapping :
    check_options thousandths host (record options { client_cpus = "1-2" })
    ≡ err (usage_error "server and client CPU lists must not overlap")
unfolding check_options
overlapping = refl

monitored :
    (monitor_cpu thousandths host options ≡ ok (some 3))
    × (soft_limit thousandths host options ≡ pos 1792)
unfolding monitor_cpu
monitored = (refl, refl)

check_options_iff_example : (check_options thousandths host options ≡ ok tt) ↔ (
    (IsLocalRun thousandths host options ⊎ IsRemoteRun thousandths host options)
    × ((cpus : List ℕ) × (cpu_list "0-1" ≡ ok cpus) × FitsWorkers thousandths host options cpus))
check_options_iff_example = check_options_iff thousandths host options

abbrev labels : Option String
labels = some "baseline,overload_2x,recovery_2x,overload_5x,recovery_5x,overload_10x,recovery_10x"

-- By the client's clock, which is a second behind.
abbrev unlabelled : ℕ → Load thousandths
unlabelled multiple = record (load "" multiple) {
  label = none;
  start_unix_ns = negsuc 999_999_999;
  end_unix_ns = pos 179_000_000_000;
}

abbrev tick : ℕ → ℕ → ℕ → ℕ → Tick thousandths
tick time busy idle served = record {
  reading = ok (sample_at time busy idle);
  metrics = ok (record { admitted = served; rejected = 0 });
  has_left = false;
}

abbrev outside : Outside thousandths
outside = record {
  spawned = ok tt;
  startup =
      record { left = none; events = other ∷ listening 8443 ∷ []; is_late = false }
      ∷ record {
        left = none;
        events = other ∷ listening 8443 ∷ admin_listening 9000 ∷ [];
        is_late = false;
      }
      ∷ [];
  first_samples = ok tt;
  client_started = λ port. ok tt;
  ticks = tick 1_000_000_000 100 500 5 ∷ tick 61_000_000_000 42_100 18_500 900 ∷ [];
  ending =
      remote_end (ok tt) (pos 0) (ok (map unlabelled (1 ∷ 2 ∷ 1 ∷ 5 ∷ 1 ∷ 10 ∷ 1 ∷ [])))
        (pos 1_000_000_000);
  last_samples = ok tt;
  kernel_before = counters;
  kernel_after = counters;
  exit_code = pos 0;
}

run_completed : (run thousandths labels outside).1 ≡ ok tt
unfolding run
run_completed = refl

mislabelled :
    (run thousandths (some "baseline,overload_2x") outside).1
    ≡ err (value_error "phase label count does not match")
unfolding run
mislabelled = refl

audited :
    audit_run thousandths usual_targets hosts
      (run_of thousandths (run thousandths labels outside).0)
    ≡ ok (true, [])
unfolding audit_run run
audited = refl

run-Completed_example :
    (((run thousandths labels outside).0.status ≡ "complete")
      ↔ ((run thousandths labels outside).1 ≡ ok tt))
    × ((run thousandths labels outside).1 ≡ ok tt
        → Completed thousandths labels outside (run thousandths labels outside).0)
run-Completed_example = run-Completed thousandths labels outside

run-audited_example :
    ((run thousandths labels outside).1 ≡ ok tt)
    × (outside.exit_code ≡ pos 0)
    × Completed thousandths labels outside (run thousandths labels outside).0
    × All (Balances thousandths) (or_none thousandths (run thousandths labels outside).0.phases)
run-audited_example = run-audited thousandths usual_targets hosts labels outside audited
