-- ===== src/Bench/Compare/Tests.antt =====
-- The theorems about bench/compare.py at a concrete comparison.
use zhtps.Common.{
  zero, suc, ℕ, ◌+◌, ◌≡◌, refl, true, false, List, [], ◌∷◌, none, ok, err, assertion_error, ℤ, pos,
  negsuc, arith, ok-injective, ap, sym, str_ℕ, str, ◌<◌, ◌∙◌,
}
use zhtps.Bench.Floats.Thousandths.{thousandths}
use zhtps.Bench.Rotation.{rotate, get_elem?}
use zhtps.Bench.Rotation.Places.{IsDistinct, rotate-TakesOnce}
use zhtps.Bench.SummarizeOverload.Accounts.{Matches}
use zhtps.Bench.Compare.{
  Variant, zig_debug, zig_release_safe, go, Options, check_sizes, prepare, Option, some, suc,
}
use zhtps.Bench.Compare.Arguments.{server_command}
use zhtps.Bench.Compare.Ready.{answered, refused}
use zhtps.Bench.Compare.Trial.{Load, here, Outside, Trial, unsupported, measured, load_of, run_one}
use zhtps.Bench.Compare.Outcomes.{IsOutcome, run_one-IsOutcome}
use zhtps.Bench.Compare.Summary.{Row, pairs, run_all, compare_variants}
use zhtps.Bench.Compare.Summarized.{IsRowOf, compare_variants-IsRowOf}

abbrev options : Options thousandths
options = record {
  duration = 5000;
  warmup = 1000;
  repeats = pos 2;
  connections = pos 16 ∷ pos 9000 ∷ [];
  is_unrestricted = true;
  client_cores = pos 2;
  server_address = "127.0.0.1";
  client_host = none;
  remote_client_binary = none;
  variants = zig_release_safe ∷ go ∷ [];
  allow_errors = false;
  zig_workers = pos 1;
  zig_access_log = false;
  zig_max_connections = none;
  zig_max_active = none;
  tls_certificate = none;
  tls_key = none;
}

abbrev load : ℤ → Load thousandths
load c = record {
  connections = c;
  attempts = pos 900;
  successes = pos 900;
  errors = pos 0;
  warmup_errors = pos 0;
  connections_ready = c;
  connections_measured = c;
  connections_opened = c;
  requests_per_second = 180_000;
  window_successes_per_second = 180_000;
  window_failures = none;
  latency_us = record { p50 = 80_000; p95 = 120_000; p99 = 300_000 };
  generator_cpu_percent = 150_000;
}

abbrev outside : ℕ → ℤ → Variant → Outside thousandths
outside r c v = record {
  port = 8443;
  admin_ports = 8443 ∷ 9000 ∷ [];
  probe_code = pos 2;
  probe_reason = true;
  probe_text = "InvalidLimit";
  spawned = ok tt;
  runtime = ok tt;
  ready =
      record { left = none; attempt = refused }
      ∷ record { left = none; attempt = answered 200 true }
      ∷ [];
  before = ok tt;
  client = here (pos 0) "" (ok (load c));
  cpu_seconds = 5000;
  elapsed = 6000;
  after = ok tt;
  stops = true;
  exit_code = negsuc 14;
}

prepared :
    prepare thousandths options
      ((0, "0", "0") ∷ (1, "0", "0") ∷ (2, "0", "1") ∷ (3, "0", "2") ∷ [])
      (pos 1024)
      (negsuc 0)
    ≡ ok (record { server_cpu = 0; client_cpus = 2 ∷ 3 ∷ []; soft = pos 9256 })
unfolding prepare
prepared = refl

command :
    server_command thousandths options zig_debug "zhtps" 3 8443 9000 (pos 16)
    ≡ "taskset" ∷ "-c" ∷ "3" ∷ "zhtps" ∷ "--port" ∷ "8443" ∷ "--admin-port" ∷ "9000"
      ∷ "--max-requests" ∷ "4294967295" ∷ "--address" ∷ "127.0.0.1" ∷ "--no-access-log"
      ∷ "--max-connections" ∷ "256" ∷ "--max-active" ∷ "256" ∷ []
unfolding str_ℕ str
command = refl

abbrev small : Trial thousandths
small = measured go 1 (load (pos 16)) 83_333

ran_small : run_one thousandths options go (pos 16) 1 (outside 0 (pos 16) go) ≡ ok small
unfolding run_one
ran_small = refl

abbrev large : Trial thousandths
large = unsupported zig_release_safe 2 (pos 9000)

ran_large :
    run_one thousandths options zig_release_safe
      (pos 9000)
      2
      (outside 1 (pos 9000) zig_release_safe)
    ≡ ok large
unfolding run_one
ran_large = refl

lost_attempt :
    run_one thousandths options go (pos 16) 1 (record (outside 0 (pos 16) go) {
      client = here (pos 0) "" (ok (record (load (pos 16)) { successes = pos 899 }));
    })
    ≡ err (assertion_error "load outcomes do not account for every attempt")
unfolding run_one
lost_attempt = refl

accepted : check_sizes thousandths options ≡ ok tt
accepted = refl

abbrev runs : List (Trial thousandths)
runs =
    measured zig_release_safe 1 (load (pos 16)) 83_333
    ∷ measured go 1 (load (pos 16)) 83_333
    ∷ unsupported zig_release_safe 1 (pos 9000)
    ∷ measured go 1 (load (pos 9000)) 83_333
    ∷ measured go 2 (load (pos 16)) 83_333
    ∷ measured zig_release_safe 2 (load (pos 16)) 83_333
    ∷ measured go 2 (load (pos 9000)) 83_333
    ∷ unsupported zig_release_safe 2 (pos 9000)
    ∷ []

ran_all : run_all thousandths options outside ≡ ok runs
unfolding run_all rotate
ran_all = refl

run_one-IsOutcome_example :
    IsOutcome thousandths options zig_release_safe
      (pos 9000)
      2
      (outside 1 (pos 9000) zig_release_safe)
      large
run_one-IsOutcome_example =
    run_one-IsOutcome thousandths options zig_release_safe (pos 9000) 2
      (outside 1 (pos 9000) zig_release_safe) large accepted ran_large

reported :
    (r : ℕ) (c : ℤ) (v : Variant) (l : Load thousandths)
    → load_of thousandths (outside r c v).client ≡ ok l
    → l.connections ≡ c
reported r c v l h = sym (ap (λ (x : Load thousandths). x.connections) (ok-injective h))

compare_variants-IsRowOf_example :
    (rows : List (Row thousandths)) × (compare_variants thousandths options outside
      ≡ ok (runs, rows))
    × Matches
        (IsRowOf thousandths options)
        (pairs thousandths options.connections options.variants)
        rows
compare_variants-IsRowOf_example =
    compare_variants-IsRowOf thousandths options outside runs accepted reported ran_all

abbrev order : List Variant
order = zig_debug ∷ zig_release_safe ∷ go ∷ []

rotated : rotate 4 order ≡ zig_release_safe ∷ go ∷ zig_debug ∷ []
unfolding rotate
rotated = refl

abbrev place : Option Variant → ℕ
place (some zig_debug) = 0
place (some zig_release_safe) = 1
place (some go) = 2
place _ = 3

place-order : (i : ℕ) → i < 3 → place (get_elem? order i) ≡ i
place-order zero h = refl
place-order (suc zero) h = refl
place-order (suc (suc zero)) h = refl
place-order (suc (suc (suc i))) h = absurd (omega arith)

order-IsDistinct : IsDistinct order
order-IsDistinct i k hi hk same = sym (place-order i hi) ∙ ap place same ∙ place-order k hk

rotate-TakesOnce_example :
    (r : ℕ) × (r < 3)
    × (get_elem? (rotate (4 + r) order) 2 ≡ get_elem? order 1)
    × ((s : ℕ) → s < 3 → get_elem? (rotate (4 + s) order) 2 ≡ get_elem? order 1 → s ≡ r)
rotate-TakesOnce_example = rotate-TakesOnce 4 1 2 order order-IsDistinct (omega arith) (omega arith)
