-- ===== src/Bench/Overload/Audited.antt =====
-- From a run of bench/overload.py over its report to the audit of bench/check_overload.py.
use zhtps.Common.{ℕ, ◌≡◌, sym, ◌∙◌, true, List, [], Option, none, some, String, ok, ℤ, pos, All}
use zhtps.Bench.Floats.{Floats}
use zhtps.Bench.CheckOverload.{Targets}
use zhtps.Bench.SummarizeOverload.{Table, Load, Run}
use zhtps.Bench.SummarizeOverload.Audit.{Hosts, audit_run, Balances}
use zhtps.Bench.SummarizeOverload.Demonstrated.{audit_run_demonstrates}
use zhtps.Bench.Overload.Report.{Outside, Report, run}
use zhtps.Bench.Overload.Completed.{Completed, run-Completed}

module _ (N : Floats) where
  abbrev pub or_none : Option (List (Load N)) → List (Load N)
  or_none none = []
  or_none (some ps) = ps

  abbrev or_no_counters : Option (Table ℕ) → Table ℕ
  or_no_counters none = []
  or_no_counters (some t) = t

  -- The report as the audit reads it.
  abbrev pub run_of : Report N → Run N
  run_of r = record {
    status = r.status;
    server_exit = r.server_exit;
    phases = or_none r.phases;
    samples = r.samples;
    kernel_before = r.kernel_before;
    kernel_after = or_no_counters r.kernel_after;
  }

  -- If the audit passes on the report of a run, then the run raised nothing, its report is that of a
  -- completed run, the server left with 0 after it, and in each phase of the report there was an offer
  -- and the offers are accounted for.
  pub run-audited :
      (t : Targets N) (h : Hosts N) (labels : Option String) (x : Outside N)
      → audit_run N t h (run_of (run N labels x).0) ≡ ok (true, [])
      → ((run N labels x).1 ≡ ok tt)
        × (x.exit_code ≡ pos 0)
        × Completed N labels x (run N labels x).0
        × All (Balances N) (or_none (run N labels x).0.phases)
  run-audited t h labels x passed =
      let (status, left, balanced, _) =
        audit_run_demonstrates N t h (run_of (run N labels x).0) passed in
      let (fits, completes) = run-Completed N labels x in
      let raised = fits.0 status in
      let done = completes raised in (raised, some_injective (sym done.exit ∙ left), done, balanced)
    where
      some_injective : {a b : ℤ} → some a ≡ some b → a ≡ b
      some_injective e = cc
