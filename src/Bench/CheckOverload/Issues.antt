-- ===== src/Bench/CheckOverload/Issues.antt =====
-- The issues that the audit of bench/check_overload.py finds.
use zhtps.Common.{
  ℕ, zero, suc, Bool, true, false, not, ◌||◌, List, [], ◌∷◌, ◌++◌, Option, none, some, String, ◌<>◌,
  ◌==◌, length, Result, ok, ◌>>◌,
}
use zhtps.Bench.Floats.{Floats, number}
use zhtps.Bench.CheckOverload.{
  Targets, Phase, Report, notes, is_missing, same_text, is_none, exceeds, phase_of, are_unique,
  validate,
}

module _ (N : Floats) where
  open N use {F, literal, plus, minus, times, over, is_below, show}

  -- The resident set is known for both phases, and within the growth over the baseline.
  abbrev pub rss_exceeds : Targets N → Option F → Option F → Bool
  rss_exceeds t none base = true
  rss_exceeds t (some rss) none = true
  rss_exceeds t (some rss) (some base) =
      is_below (times base (plus (number N 1) (over t.max_rss_growth_percent (number N 100)))) rss

  -- The same, once there is a baseline phase.
  abbrev pub with_baseline : Option (Phase N) → (Phase N → Bool) → Bool
  with_baseline none test = false
  with_baseline (some b) test = test b

  abbrev pub attempted : Bool → Phase N → Option F
  attempted true p = p.dial_attempts
  attempted false p = some p.sent

  abbrev pub falls_short : Option F → F → Bool
  falls_short none bound = true
  falls_short (some x) bound = is_below x bound

  abbrev pub tail_exceeds : ℕ → Option F → F → Bool
  tail_exceeds zero tail bound = false
  tail_exceeds (suc _) tail bound = exceeds N tail bound

  -- What is asked of every required phase.
  abbrev pub common_tests :
      Targets N → Option (Phase N) → String → F → Phase N → List (Bool × String)
  common_tests t baseline label seconds p =
      (
        is_below p.seconds seconds,
        (label <> ": duration " <> show p.seconds <> " s is below " <> show seconds <> " s"),
      )
      ∷ (
        is_below t.max_success_p99_ms p.success_p99_ms,
        (label <> ": successful p99 exceeds target"),
      )
      ∷ (not (p.admin_errors == 0), (label <> ": admin sampling failed"))
      ∷ (
        with_baseline baseline (λ b. rss_exceeds t p.rss_max_mib b.rss_max_mib),
        (label <> ": bounded server RSS has not been demonstrated"),
      )
      ∷ []

  abbrev pub common_issues : Targets N → Option (Phase N) → String → F → Phase N → List String
  common_issues t baseline label seconds p = notes (common_tests t baseline label seconds p)

  -- What is asked of a phase of so many times the baseline's rate.
  abbrev pub overload_tests :
      Targets N → Bool → Option (Phase N) → String → ℕ → Phase N → List (Bool × String)
  overload_tests t churn baseline label multiple p =
      (
        with_baseline baseline
            (λ b. is_below p.offered_rate (times (number N multiple) b.offered_rate)),
        (label <> ": scheduled rate is below its claimed multiple"),
      )
      ∷ (
        falls_short (attempted churn p)
            (times p.offered (minus (number N 1) (over t.max_unsent_percent (number N 100)))),
        (label
            <> ": insufficient network attempts/writes; nominal offers are not delivered pressure"),
      )
      ∷ (
        with_baseline baseline (λ b. is_below p.goodput (times b.goodput t.min_goodput_ratio)),
        (label <> ": useful throughput fell below the baseline retention target"),
      )
      ∷ (
        exceeds N p.core_busy_percent_max t.max_core_busy_percent,
        (label <> ": required per-core CPU headroom is missing"),
      )
      ∷ (
        tail_exceeds p.rejection_count p.rejection_p999_ms t.max_failure_p999_ms,
        (label <> ": rejection p99.9 is missing or exceeds the failure target"),
      )
      ∷ (
        tail_exceeds p.failure_count p.failure_p999_ms t.max_failure_p999_ms,
        (label <> ": failure p99.9 is missing or exceeds the failure target"),
      )
      ∷ []

  abbrev pub overload_issues :
      Targets N → Bool → Option (Phase N) → String → ℕ → Phase N → List String
  overload_issues t churn baseline label multiple p =
      notes (overload_tests t churn baseline label multiple p)

  abbrev pub steady_issues : String → Phase N → List String
  steady_issues label p = notes (
      (
        is_below p.success_percent (literal 999 10),
        (label <> ": fewer than 99.9% of scheduled offers succeeded"),
      )
      ∷ [])

  -- A required phase: its label, its least duration, and its multiple if it is an overload.
  pub data Kind : Type 0 where
    steady : Kind
    overload : ℕ → Kind

  abbrev pub kind_issues :
      Targets N → Bool → Option (Phase N) → String → Kind → Phase N → List String
  kind_issues t churn baseline label steady p = steady_issues label p
  kind_issues t churn baseline label (overload multiple) p =
      overload_issues t churn baseline label multiple p

  abbrev pub phase_issues :
      Targets N → Bool → Option (Phase N) → String → F → Kind → Option (Phase N) → List String
  phase_issues t churn baseline label seconds kind none = (label <> ": missing phase") ∷ []
  phase_issues t churn baseline label seconds kind (some p) =
      common_issues t baseline label seconds p ++ kind_issues t churn baseline label kind p

  abbrev pub required : Targets N → List (String × F × Kind)
  required t =
      ("baseline", t.baseline_seconds, steady)
      ∷ ("overload_2x", t.overload_seconds, overload 2)
      ∷ ("recovery_2x", t.recovery_seconds, steady)
      ∷ ("overload_5x", t.overload_seconds, overload 5)
      ∷ ("recovery_5x", t.recovery_seconds, steady)
      ∷ ("overload_10x", t.overload_seconds, overload 10)
      ∷ ("recovery_10x", t.recovery_seconds, steady)
      ∷ []

  abbrev pub required_issues : Targets N → Report N → List (String × F × Kind) → List String
  required_issues t r [] = []
  required_issues t r ((label, seconds, kind) ∷ more) =
      phase_issues t r.churn (phase_of N "baseline" r.phases) label seconds kind
        (phase_of N label r.phases)
      ++ required_issues t r more

  abbrev pub clock_ms : Option F → Option F
  clock_ms none = none
  clock_ms (some u) = some (over u (number N 1_000_000))

  -- What is asked of the report as a whole.
  abbrev pub report_tests : Targets N → Report N → List (Bool × String)
  report_tests t r =
      (
        is_missing r.origin_boot
            || is_missing r.client_boot
            || same_text r.origin_boot r.client_boot
            || not r.separate_kernel,
        "separate generator kernel has not been demonstrated",
      )
      ∷ (
        exceeds N (clock_ms r.clock_uncertainty_ns) t.max_clock_uncertainty_ms,
        "clock alignment is missing or too uncertain",
      )
      ∷ (not (are_unique N r.phases), "phase labels are not unique")
      ∷ (is_none (phase_of N "baseline" r.phases), "missing baseline phase")
      ∷ []

  -- The issues of the report, in the order in which they are found.
  unfoldable pub issues : Targets N → Report N → List String
  issues t r = notes (report_tests t r) ++ required_issues t r (required t)

  -- The audit: its issues, and `passed`.
  unfoldable pub audit : Targets N → Report N → Result (Bool × List String)
  unfolding validate issues
  audit t r = do validate N t; ok (length (issues t r) == 0, issues t r)
