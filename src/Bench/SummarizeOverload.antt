-- ===== src/Bench/SummarizeOverload.antt =====
-- `summarize` of bench/summarize_overload.py: a row for each phase of a completed overload run. A key that
-- is read without a default is there, except where a dictionary of the report is searched.
pub mod Samples
pub mod Rows
pub mod Cores
pub mod During
pub mod Accounts
pub mod Audit
pub mod Read
pub mod Demonstrated
pub mod Tests
use text.Mathlib.Text.{◌==◌ as str_eq}
use zhtps.Common.{
  ℕ, suc, zero, ◌+◌, ◌-◌, ◌*◌, ◌≡◌, refl, Bool, true, false, not, ◌&&◌, ◌||◌, List, [], ◌∷◌, ◌++◌,
  map, Option, none, some, String, ◌<>◌, ltb, leb, ◌==◌, min, max, length, if◌then◌else◌, Result,
  ok, err, value_error, key_error, index_error, map_result, ◌>>=◌, ◌>>◌, require, ℤ, pos, negsuc,
  sub_ℕ, eqb_ℤ, ◌+ℤ◌, ◌-ℤ◌, ◌*ℤ◌, codes,
}
use zhtps.Bench.Floats.{Floats, number, integer, divide, ratio, maximum}

-- A dictionary with texts as keys.
abbrev pub Table {ℓ} : Type ℓ → Type ℓ
Table V = List (String × V)

abbrev pub get {ℓ} : {V : Type ℓ} → String → Table V → Result V
get name [] = err (key_error name)
get name ((key, v) ∷ more) = if str_eq key name then ok v else get name more

abbrev starts_from : List ℕ → List ℕ → Bool
starts_from [] text = true
starts_from (c ∷ cs) [] = false
starts_from (c ∷ cs) (d ∷ text) = c == d && starts_from cs text

-- `kind.startswith("http_")`
abbrev pub is_http : String → Bool
is_http kind = starts_from (codes "http_") (codes kind)

abbrev pub total_of : (String → Bool) → Table ℕ → ℕ
total_of p [] = 0
total_of p ((kind, n) ∷ more) = (if p kind then n else 0) + total_of p more

-- A row of /proc/stat as numbers, and the kernel's counters by their names.
abbrev pub Cores : Type 0
Cores = Table (List ℕ)

abbrev pub or_empty : Option (Table ℕ) → Table ℕ
or_empty none = []
or_empty (some t) = t

abbrev pub or_zero : Option ℕ → ℕ
or_zero none = 0
or_zero (some n) = n

abbrev pub or_default : ℕ → Option ℕ → ℕ
or_default d none = d
or_default d (some n) = n

pub record Counters : Type 0 where
  pub admitted : ℕ
  pub rejected : ℕ

module _ (N : Floats) where
  open N use {F, literal, plus, minus, times, over, is_below}

  pub record Latency : Type 0 where
    pub count : ℕ
    pub p99_us : F
    pub p999_us : Option F
    pub p9999_us : Option F
    pub max_us : Option F

  pub record ClientSample : Type 0 where
    pub unix_ns : Option ℕ
    pub cpu_seconds : F

  pub record Sample : Type 0 where
    pub unix_ns : ℕ
    pub rss : ℕ
    pub fds : ℕ
    pub cpu_seconds : F
    pub tcp_tw : Option ℕ
    pub tcp_mem : Option ℕ
    pub listen_overflows : ℕ
    pub client : Option ClientSample
    pub server_cores : Option Cores
    pub counters : Option Counters
    pub admin_error : Bool

  -- A phase of the client's report.
  pub record Load : Type 0 where
    pub label : Option String
    pub offered_rate : F
    pub duration_seconds : F
    pub sent_per_second : F
    pub window_successes_per_second : F
    pub start_unix_ns : ℤ
    pub end_unix_ns : ℤ
    pub offered : ℕ
    pub sent : ℕ
    pub successes : ℕ
    pub generator_queue_drops : ℕ
    pub generator_expired : ℕ
    pub failures : Option (Table ℕ)
    pub success_latency : Latency
    pub success_service_latency : Latency
    pub rejection_latency : Latency
    pub failure_latency : Latency
    pub scheduler_lag : Latency
    pub dial_attempts : Option ℕ
    pub request_bytes_written : Option ℕ
    pub response_bytes_validated : Option ℕ

  pub record Run : Type 0 where
    pub status : String
    pub server_exit : Option ℤ
    pub phases : List Load
    pub samples : List Sample
    pub kernel_before : Table ℕ
    pub kernel_after : Table ℕ

  -- The tail of a latency in milliseconds.
  pub record Tail : Type 0 where
    pub count : ℕ
    pub p999_ms : Option F
    pub p9999_ms : Option F
    pub max_ms : Option F

  -- What the samples of the phase's time say of memory and sockets.
  pub record Resources : Type 0 where
    pub rss_min_mib : F
    pub rss_max_mib : F
    pub fds_max : ℕ
    pub tcp_time_wait_max : ℕ
    pub tcp_mem_pages_max : ℕ

  pub record CoreUse : Type 0 where
    pub busy_percent : F
    pub busy_percent_by_cpu : Table F
    pub busy_percent_max : F

  pub record Rates : Type 0 where
    pub admitted : F
    pub rejected : F

  -- What its first and its last sample say.
  pub record Usage : Type 0 where
    pub server_cpu_cores : F
    pub client_cpu_cores : Option F
    pub cores : Option CoreUse
    pub rates : Option Rates
    pub listen_overflows : ℤ

  pub record Row : Type 0 where
    pub label : Option String
    pub offered_rate : F
    pub seconds : F
    pub sent_rate : F
    pub goodput : F
    pub success_percent : F
    pub unsent_percent : F
    pub http_failures_per_second : F
    pub transport_failures_per_second : F
    pub success_p99_ms : F
    pub service_p99_ms : F
    pub rejection_p99_ms : Option F
    pub failure_p99_ms : Option F
    pub scheduler_p99_ms : F
    pub failures : Table ℕ
    pub admin_errors : ℕ
    pub success : Tail
    pub service : Tail
    pub rejection : Tail
    pub failure : Tail
    pub scheduler : Tail
    pub dial_attempts : Option ℕ
    pub request_bytes_written : Option ℕ
    pub response_bytes_validated : Option ℕ
    pub meets_baseline_target : Bool
    pub resources : Option Resources
    pub usage : Option Usage

  pub record Summary : Type 0 where
    pub phases : List Row
    pub server_exit : Option ℤ
    pub kernel_delta : Table ℤ
