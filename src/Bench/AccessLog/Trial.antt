-- ===== src/Bench/AccessLog/Trial.antt =====
-- A trial of bench/access_log.py, from the wait for the server's ports to the audit of its log.
use zhtps.Common.{
  ◌<◌, ==_iff, zero_division_error, ℕ, ◌+◌, ◌≤◌, ◌≡◌, Bool, true, false, not, ◌||◌, List, [], ◌∷◌,
  Option, none, some, String, leb, ◌==◌, if◌then◌else◌, Result, ok, err, runtime_error,
  timeout_error, index_error, out_of_fuel, require, require-eq-ok, ◌>>=◌, ◌>>◌, >>=-eq-ok,
  ok-injective, ℤ, pos, eqb_ℤ, eqb_ℤ_iff, Bool-cases, inl, inr, All, arith, subst,
}
use zhtps.Bench.Floats.{Floats, number, divide}
use zhtps.Bench.Overload.Loops.{LogEvent, note_events, both}
use zhtps.Bench.AccessLog.{
  Line, LogReport, audit_log, IsCorrect, accesses, expected_records, audit_log_sound,
}

-- A round of the wait: the events of the log, lines that are no JSON left out, and the log's text if the
-- server has left.
pub record PortRound : Type 0 where
  pub events : List LogEvent
  pub left : Option String

abbrev or_left : Option String → Result (ℕ × ℕ) → Result (ℕ × ℕ)
or_left (some log) rest = err (runtime_error log)
or_left none rest = rest

abbrev or_wait : Option (ℕ × ℕ) → Result (ℕ × ℕ) → Result (ℕ × ℕ)
or_wait (some ports) rest = ok ports
or_wait none rest = rest

-- The rounds are those before the deadline.
unfoldable pub ports_from_log : List PortRound → Result (ℕ × ℕ)
ports_from_log [] = err (timeout_error "server startup")
ports_from_log (r ∷ rs) =
    or_wait (both (note_events (record { public = none; admin = none }) r.events))
      (or_left r.left (ports_from_log rs))

pub record Metrics : Type 0 where
  pub log_pending : ℕ
  pub dropped : ℕ
  pub write_errors : ℕ

-- A round of the wait for the log's queue: the metrics, and whether the deadline is past.
pub record DrainRound : Type 0 where
  pub metrics : Result Metrics
  pub is_late : Bool

unfoldable pub drain : List DrainRound → Result Metrics
drain [] = err out_of_fuel
drain (r ∷ rs) =
    let rest = drain rs in
    r.metrics >>= λ m.
    if leb m.log_pending 1
    then ok m
    else if r.is_late
    then err (timeout_error "log drain")
    else rest

drain_empty : (rs : List DrainRound) (m : Metrics) → drain rs ≡ ok m → m.log_pending ≤ 1
unfolding drain
drain_empty [] m h = cc
drain_empty (r ∷ rs) m h =
    let (given, _, h1) = >>=-eq-ok r.metrics _ h in
    elim (Bool-cases (leb given.log_pending 1)) [
      | inl few ↦
          let last = rw few at h1 in
          subst (λ (x : Metrics). x.log_pending ≤ 1) (ok-injective last) (ground arith)
      | inr many ↦
          let goes_on = rw many at h1 in
          elim (Bool-cases r.is_late) [
            | inl late ↦ let fails = rw late at goes_on in cc fails
            | inr early ↦ drain_empty rs m (rw early at goes_on)
          ]
    ]

module _ (N : Floats) where
  open N use {F, literal, times, is_below}

  -- What the measuring client reports: with a rate by phases, or else at once.
  pub record RatedPhase : Type 0 where
    pub offered : ℕ
    pub sent : ℕ
    pub successes : ℕ
    pub has_failures : Bool

  pub data Raw : Type 0 where
    rated : List RatedPhase → F → Raw
    closed : ℕ → Bool → Raw

  pub record Workload : Type 0 where
    pub validated_responses : ℕ
    pub has_failures : Bool

  abbrev check_phase : F → List RatedPhase → Result Workload
  check_phase elapsed [] = err (index_error "list index out of range")
  check_phase elapsed (p ∷ ps) = do
    require
        (not (
          not (p.successes == p.sent)
          || p.has_failures
          || is_below (number N p.successes) (times (literal 99 100) (number N p.offered))))
        (runtime_error "offered load missed its target or failed to validate sent requests")
    rate ← divide N (number N p.successes) elapsed
    ok (record { validated_responses = p.successes; has_failures = p.has_failures })

  unfoldable pub run_client : Result Raw → Result Workload
  run_client (err e) = err e
  run_client (ok (rated phases elapsed)) = check_phase elapsed phases
  run_client (ok (closed validated failures)) =
      ok (record { validated_responses = validated; has_failures = failures })

  -- What a trial meets. `collected` says that the collector of the log has ended after the server.
  pub record Outside : Type 0 where
    pub ports : List PortRound
    pub warmup : Result Raw
    pub before : List DrainRound
    pub workload : Result Raw
    pub after : List DrainRound
    pub is_collected : Bool
    pub exit_code : ℤ
    pub log : List Line

  pub record Measured : Type 0 where
    pub warmup : Workload
    pub workload : Workload
    pub metrics : Metrics

  unfoldable pub measure : Outside → Result Measured
  unfolding ports_from_log drain run_client
  measure x = do
    ports ← ports_from_log x.ports
    warmup ← run_client x.warmup
    before ← drain x.before
    workload ← run_client x.workload
    after ← drain x.after
    ok (record { warmup = warmup; workload = workload; metrics = after })

  -- The collector's error takes the place of another.
  abbrev collected : Bool → Result Measured → Result Measured
  collected true m = m
  collected false m = err (timeout_error "log collector")

  -- The report's `cpu_ns_per_response` divides by the responses of the workload.
  unfoldable pub trial : Bool → Outside → Result (Measured × LogReport)
  unfolding measure
  trial logging x = do
    m ← collected x.is_collected (measure x)
    require (not (not (eqb_ℤ x.exit_code (pos 0)) || m.workload.has_failures))
        (runtime_error "server or client failed")
    r ←
        audit_log logging (m.warmup.validated_responses + m.workload.validated_responses)
          m.metrics.dropped m.metrics.write_errors x.log
    require (not (m.workload.validated_responses == 0)) (zero_division_error "division by zero")
    ok (m, r)

  measure_empty : (x : Outside) (m : Measured) → measure x ≡ ok m → m.metrics.log_pending ≤ 1
  unfolding measure
  measure_empty x m h =
      let (_, _, h1) = >>=-eq-ok (ports_from_log x.ports) _ h in
      let (_, _, h2) = >>=-eq-ok (run_client x.warmup) _ h1 in
      let (_, _, h3) = >>=-eq-ok (drain x.before) _ h2 in
      let (_, _, h4) = >>=-eq-ok (run_client x.workload) _ h3 in
      let (after, drained, last) = >>=-eq-ok (drain x.after) _ h4 in
      subst (λ (y : Measured). y.metrics.log_pending ≤ 1) (ok-injective last)
        (drain_empty x.after after drained)

  measured_empty :
      (b : Bool) (x : Outside) (m : Measured)
      → collected b (measure x) ≡ ok m
      → m.metrics.log_pending ≤ 1
  measured_empty true x m h = measure_empty x m h
  measured_empty false x m h = cc

  clean_parts :
      (left failed : Bool) → not (not left || failed) ≡ true → (left ≡ true) × (failed ≡ false)
  clean_parts left failed h = ground arith

  -- If a trial returns, the server left with 0, the measured workload had no failures and at least one
  -- validated response, and the log's queue
  -- had at most one record left when the counters were read; each record of the client in the log is correct,
  -- there are no more of them than responses that the client validated in the warm-up and the workload
  -- together, and none without logging; and with logging the dropped ones account for all that are missing.
  pub trial_sound :
      (logging : Bool) (x : Outside) (m : Measured) (r : LogReport)
      → trial logging x ≡ ok (m, r)
      → (x.exit_code ≡ pos 0)
        × (m.workload.has_failures ≡ false)
        × (0 < m.workload.validated_responses)
        × (m.metrics.log_pending ≤ 1)
        × All IsCorrect x.log
        × (r.access_records ≡ accesses x.log)
        × (accesses x.log
            ≤ expected_records logging
                (m.warmup.validated_responses + m.workload.validated_responses))
        × (expected_records logging (m.warmup.validated_responses + m.workload.validated_responses)
            ≤ accesses x.log + m.metrics.dropped)
  unfolding trial
  trial_sound logging x m r h =
      let (m', given, h1) = >>=-eq-ok (collected x.is_collected (measure x)) _ h in
      let (clean, h2) =
        require-eq-ok (not (not (eqb_ℤ x.exit_code (pos 0)) || m'.workload.has_failures)) _ _ h1 in
      let (r', audited, h3) =
        >>=-eq-ok
          (audit_log logging (m'.warmup.validated_responses + m'.workload.validated_responses)
            m'.metrics.dropped m'.metrics.write_errors x.log)
          _ h2 in
      let (some_responses, last) =
        require-eq-ok (not (m'.workload.validated_responses == 0)) _ _ h3 in
      let (correct, counted, no_more, accounted, _) =
        audit_log_sound logging (m'.warmup.validated_responses + m'.workload.validated_responses)
          m'.metrics.dropped m'.metrics.write_errors x.log r' audited in
      let (left, unfailed) =
        clean_parts (eqb_ℤ x.exit_code (pos 0)) m'.workload.has_failures clean in
      subst
        (λ (y : Measured × LogReport).
          (x.exit_code ≡ pos 0)
          × (y.0.workload.has_failures ≡ false)
          × (0 < y.0.workload.validated_responses)
          × (y.0.metrics.log_pending ≤ 1)
          × All IsCorrect x.log
          × (y.1.access_records ≡ accesses x.log)
          × (accesses x.log
              ≤ expected_records logging
                  (y.0.warmup.validated_responses + y.0.workload.validated_responses))
          × (expected_records logging
                (y.0.warmup.validated_responses + y.0.workload.validated_responses)
              ≤ accesses x.log + y.0.metrics.dropped))
        (ok-injective last)
        (
          (eqb_ℤ_iff x.exit_code (pos 0)).0 left,
          unfailed,
          ground (arith, ==_iff m'.workload.validated_responses 0),
          measured_empty x.is_collected x m' given,
          correct,
          counted,
          no_more,
          accounted,
        )
