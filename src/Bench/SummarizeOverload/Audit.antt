-- ===== src/Bench/SummarizeOverload/Audit.antt =====
-- `audit` of bench/check_overload.py on the report of a run, which it first summarizes.
use zhtps.Common.{
  ℕ, ◌+◌, ◌<◌, ◌≡◌, Bool, List, [], ◌∷◌, Option, none, some, String, Result, ◌>>=◌, ◌>>◌, All,
}
use zhtps.Bench.Floats.{Floats, number}
use zhtps.Bench.CheckOverload.{Targets, Phase, Report, validate}
use zhtps.Bench.CheckOverload.Issues.{audit}
use zhtps.Bench.SummarizeOverload.{Load, Run, Row, Summary, Resources, Usage, CoreUse}
use zhtps.Bench.SummarizeOverload.Rows.{summarize, unsent, http_failures, transport_failures}
use zhtps.Bench.SummarizeOverload.Accounts.{Describes, Matches}

-- What the report says of the two hosts.
pub record Hosts (N : Floats) : Type 0 where
  pub origin_boot : Option String
  pub client_boot : Option String
  pub separate_kernel : Bool
  pub clock_uncertainty_ns : Option N.F
  pub churn : Bool

module _ (N : Floats) where
  open N use {F}

  abbrev pub rss_of : Option (Resources N) → Option F
  rss_of none = none
  rss_of (some r) = some r.rss_max_mib

  abbrev pub busiest : Option (CoreUse N) → Option F
  busiest none = none
  busiest (some c) = some c.busy_percent_max

  abbrev pub busy_of : Option (Usage N) → Option F
  busy_of none = none
  busy_of (some u) = busiest u.cores

  abbrev pub as_number : Option ℕ → Option F
  as_number none = none
  as_number (some n) = some (number N n)

  -- A row, and the phase of the client that it stands for, as the audit reads them.
  abbrev pub phase_from : Load N → Row N → Phase N
  phase_from p r = record {
    label = r.label;
    seconds = r.seconds;
    offered_rate = r.offered_rate;
    goodput = r.goodput;
    success_percent = r.success_percent;
    success_p99_ms = r.success_p99_ms;
    admin_errors = r.admin_errors;
    rss_max_mib = rss_of r.resources;
    core_busy_percent_max = busy_of r.usage;
    rejection_count = r.rejection.count;
    rejection_p999_ms = r.rejection.p999_ms;
    failure_count = r.failure.count;
    failure_p999_ms = r.failure.p999_ms;
    dial_attempts = as_number p.dial_attempts;
    sent = number N p.sent;
    offered = number N p.offered;
  }

  abbrev pub phases_from : List (Load N) → List (Row N) → List (Phase N)
  phases_from (p ∷ ps) (r ∷ rs) = phase_from p r ∷ phases_from ps rs
  phases_from _ _ = []

  abbrev pub report_from : Hosts N → Run N → Summary N → Report N
  report_from h run s = record {
    origin_boot = h.origin_boot;
    client_boot = h.client_boot;
    separate_kernel = h.separate_kernel;
    clock_uncertainty_ns = h.clock_uncertainty_ns;
    churn = h.churn;
    phases = phases_from run.phases s.phases;
  }

  unfoldable pub audit_run : Targets N → Hosts N → Run N → Result (Bool × List String)
  unfolding validate summarize audit
  audit_run t h run = do validate N t; s ← summarize N run; audit N t (report_from h run s)

  -- The offers of a phase, of which there is one at least, are accounted for.
  abbrev pub Balances : Load N → Type 0
  Balances p =
      (0 < p.offered)
      × (p.offered ≡ p.successes + http_failures N p + transport_failures N p + unsent N p)

  pub all_balance :
      (run : Run N) (ps : List (Load N)) (rs : List (Row N))
      → Matches (Describes N run.samples) ps rs
      → All Balances ps
  all_balance run [] [] _ = tt
  all_balance run (p ∷ ps) (r ∷ rs) (d, ds) = ((d.offered, d.balanced), all_balance run ps rs ds)
  all_balance run [] (r ∷ rs) m = absurd m
  all_balance run (p ∷ ps) [] m = absurd m
