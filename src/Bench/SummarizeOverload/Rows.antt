-- ===== src/Bench/SummarizeOverload/Rows.antt =====
-- The rows of the summary in bench/summarize_overload.py, and the summary itself.
use text.Mathlib.Text.{◌==◌ as str_eq}
use zhtps.Common.{
  ℕ, suc, zero, ◌+◌, ◌*◌, Bool, true, false, not, ◌&&◌, List, [], ◌∷◌, Option, none, some, String,
  leb_ℤ, ◌==◌, if◌then◌else◌, Result, ok, value_error, map_result, ◌>>=◌, ◌>>◌, require, ℤ, pos,
  sub_ℕ, eqb_ℤ,
}
use zhtps.Bench.Floats.{Floats, number, divide, ratio}
use zhtps.Bench.SummarizeOverload.{
  Table, get, is_http, total_of, or_empty, Latency, Sample, Load, Run, Tail, Row, Summary,
}
use zhtps.Bench.SummarizeOverload.Samples.{usage, usage_between, resources}

module _ (N : Floats) where
  open N use {F, literal, times, over, is_below}

  abbrev pub in_phase : Load N → List (Sample N) → List (Sample N)
  in_phase p [] = []
  in_phase p (s ∷ more) =
      let rest = in_phase p more in
      if leb_ℤ p.start_unix_ns (pos s.unix_ns) && leb_ℤ (pos s.unix_ns) p.end_unix_ns
      then s ∷ rest
      else rest

  abbrev pub with_errors : List (Sample N) → ℕ
  with_errors [] = 0
  with_errors (s ∷ more) = (if s.admin_error then 1 else 0) + with_errors more

  abbrev pub unsent : Load N → ℕ
  unsent p = p.generator_queue_drops + p.generator_expired

  abbrev pub failures : Load N → Table ℕ
  failures p = or_empty p.failures

  abbrev pub http_failures : Load N → ℕ
  http_failures p = total_of is_http (failures p)

  abbrev pub transport_failures : Load N → ℕ
  transport_failures p = total_of (λ kind. not (is_http kind)) (failures p)

  abbrev pub milliseconds : F → F
  milliseconds us = over us (number N 1000)

  abbrev pub if_counted : ℕ → Option F → Option F
  if_counted zero us = none
  if_counted (suc n) none = none
  if_counted (suc n) (some us) = some (milliseconds us)

  abbrev pub tail : Latency N → Tail N
  tail d = record {
    count = d.count;
    p999_ms = if_counted d.count d.p999_us;
    p9999_ms = if_counted d.count d.p9999_us;
    max_ms = if_counted d.count d.max_us;
  }

  -- The row of a phase, from the samples of all phases.
  unfoldable pub row : List (Sample N) → Load N → Result (Row N)
  unfolding usage_between
  row all_samples p = do
    let samples = in_phase p all_samples
    require (p.successes + total_of (λ _. true) (failures p) + unsent p == p.offered)
        (value_error "offer accounting does not balance")
    success ← ratio N (100 * p.successes) p.offered
    lost ← ratio N (100 * unsent p) p.offered
    http ← divide N (number N (http_failures p)) p.duration_seconds
    transport ← divide N (number N (transport_failures p)) p.duration_seconds
    used ← usage N samples
    ok (record {
      label = p.label;
      offered_rate = p.offered_rate;
      seconds = p.duration_seconds;
      sent_rate = p.sent_per_second;
      goodput = p.window_successes_per_second;
      success_percent = success;
      unsent_percent = lost;
      http_failures_per_second = http;
      transport_failures_per_second = transport;
      success_p99_ms = milliseconds p.success_latency.p99_us;
      service_p99_ms = milliseconds p.success_service_latency.p99_us;
      rejection_p99_ms = if_counted p.rejection_latency.count (some p.rejection_latency.p99_us);
      failure_p99_ms = if_counted p.failure_latency.count (some p.failure_latency.p99_us);
      scheduler_p99_ms = milliseconds p.scheduler_lag.p99_us;
      failures = failures p;
      admin_errors = with_errors samples;
      success = tail p.success_latency;
      service = tail p.success_service_latency;
      rejection = tail p.rejection_latency;
      failure = tail p.failure_latency;
      scheduler = tail p.scheduler_lag;
      dial_attempts = p.dial_attempts;
      request_bytes_written = p.request_bytes_written;
      response_bytes_validated = p.response_bytes_validated;
      meets_baseline_target =
          not (is_below success (literal 999 10))
          && not (is_below (number N 10) (milliseconds p.success_latency.p99_us));
      resources = resources N samples;
      usage = used;
    })

  abbrev pub is_zero_exit : Option ℤ → Bool
  is_zero_exit none = false
  is_zero_exit (some code) = eqb_ℤ code (pos 0)

  abbrev kernel_counters : List String
  kernel_counters =
      "ListenOverflows" ∷ "ListenDrops" ∷ "TCPReqQFullDoCookies" ∷ "TCPReqQFullDrop"
      ∷ "TCPBacklogDrop" ∷ []

  abbrev counted : Table ℕ → Table ℕ → String → Result (String × ℤ)
  counted before after name = do a ← get name after; b ← get name before; ok (name, sub_ℕ a b)

  unfoldable pub kernel_delta : Run N → Result (Table ℤ)
  kernel_delta r = map_result (counted r.kernel_before r.kernel_after) kernel_counters

  unfoldable pub summarize : Run N → Result (Summary N)
  unfolding row kernel_delta
  summarize r = do
    require (str_eq r.status "complete" && is_zero_exit r.server_exit)
        (value_error "require a completed run and clean server exit")
    rows ← map_result (row r.samples) r.phases
    change ← kernel_delta r
    ok (record { phases = rows; server_exit = r.server_exit; kernel_delta = change })
