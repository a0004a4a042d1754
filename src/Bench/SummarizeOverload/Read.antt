-- ===== src/Bench/SummarizeOverload/Read.antt =====
-- What the audit of bench/check_overload.py reads of a phase, in the figures that the client and the
-- samples report, over the row that bench/summarize_overload.py makes of them.
use zhtps.Common.{
  ℕ, suc, zero, ◌+◌, ◌*◌, ◌≤◌, ◌≡◌, refl, sym, ap, ◌∙◌, subst, Bool-cases, true, List, [], ◌∷◌,
  Option, none, some, max, ok, require-eq-ok, >>=-eq-ok, ok-injective, leb, arith, All, ◌⊎◌, inl,
  inr, ◌==◌,
}
use zhtps.Bench.Floats.{Floats, number, divide, ratio}
use zhtps.Bench.CheckOverload.{Phase}
use zhtps.Bench.SummarizeOverload.{Sample, Load, Row, CoreUse, Usage, total_of}
use zhtps.Bench.SummarizeOverload.Samples.{
  usage, usage_between, core_use, resources, most_of, last_of, rates, seconds_between,
}
use zhtps.Bench.SummarizeOverload.Rows.{
  in_phase, unsent, failures, http_failures, transport_failures, row, if_counted,
}
use zhtps.Bench.SummarizeOverload.During.{
  during, failed_samples, in_phase-during, with_errors-failed,
}
use zhtps.Bench.SummarizeOverload.Accounts.{Matches, ratio-eq-ok}
use zhtps.Bench.SummarizeOverload.Audit.{
  phase_from, phases_from, busy_of, rss_of, busiest, as_number,
}

module _ (N : Floats) where
  open N use {F, over, minus}

  -- One of the samples shows this memory.
  abbrev pub Shows : ℕ → List (Sample N) → Type 0
  Shows m [] = ⊥
  Shows m (s ∷ ss) = (s.rss ≡ m) ⊎ Shows m ss

  -- The greatest memory of the samples, in MiB.
  abbrev pub IsMostMemory : List (Sample N) → Option F → Type 0
  IsMostMemory [] r = r ≡ none
  IsMostMemory (s ∷ ss) r =
      (m : ℕ) × (r ≡ some (over (number N m) (number N 1_048_576)))
      × All (λ x. x.rss ≤ m) (s ∷ ss)
      × Shows m (s ∷ ss)

  abbrev pub greatest_share : Option (CoreUse N) → Option F
  greatest_share none = none
  greatest_share (some c) = some c.busy_percent_max

  -- The greatest share of a core, from the first sample to the last.
  abbrev pub IsBusiest : List (Sample N) → Option F → Type 0
  IsBusiest [] r = r ≡ none
  IsBusiest (s ∷ []) r = r ≡ none
  IsBusiest (s ∷ t ∷ more) r =
      (u : Option (CoreUse N)) × (core_use N s.server_cores (last_of t more).server_cores ≡ ok u)
      × (r ≡ greatest_share u)

  -- A latency in milliseconds, where it is known and was observed.
  abbrev pub InMs : ℕ → Option F → Option F → Type 0
  InMs zero us r = r ≡ none
  InMs (suc n) none r = r ≡ none
  InMs (suc n) (some us) r = r ≡ some (over us (number N 1000))

  abbrev pub IsNumber : Option ℕ → Option F → Type 0
  IsNumber none r = r ≡ none
  IsNumber (some n) r = r ≡ some (number N n)

  pub record IsRead (samples : List (Sample N)) (p : Load N) (q : Phase N) : Type 0 where
    pub label : q.label ≡ p.label
    pub seconds : q.seconds ≡ p.duration_seconds
    pub offered_rate : q.offered_rate ≡ p.offered_rate
    pub goodput : q.goodput ≡ p.window_successes_per_second
    pub success_percent :
        q.success_percent ≡ over (number N (100 * p.successes)) (number N p.offered)
    pub success_p99_ms : q.success_p99_ms ≡ over p.success_latency.p99_us (number N 1000)
    pub admin_errors :
        q.admin_errors ≡ failed_samples N (during N p.start_unix_ns p.end_unix_ns samples)
    pub memory : IsMostMemory (during N p.start_unix_ns p.end_unix_ns samples) q.rss_max_mib
    pub busy : IsBusiest (during N p.start_unix_ns p.end_unix_ns samples) q.core_busy_percent_max
    pub rejections : q.rejection_count ≡ p.rejection_latency.count
    pub rejection_tail :
        InMs p.rejection_latency.count p.rejection_latency.p999_us q.rejection_p999_ms
    pub failed : q.failure_count ≡ p.failure_latency.count
    pub failure_tail : InMs p.failure_latency.count p.failure_latency.p999_us q.failure_p999_ms
    pub dials : IsNumber p.dial_attempts q.dial_attempts
    pub sent : q.sent ≡ number N p.sent
    pub offered : q.offered ≡ number N p.offered

  All-raise :
      (m n : ℕ) (ss : List (Sample N)) → m ≤ n → All (λ x. x.rss ≤ m) ss → All (λ x. x.rss ≤ n) ss
  All-raise m n [] h all_of = tt
  All-raise m n (s ∷ ss) h (first, rest) = (omega arith, All-raise m n ss h rest)

  most_of-IsMost :
      (s : Sample N) (ss : List (Sample N))
      → All (λ x. x.rss ≤ most_of N (λ y. y.rss) s ss) (s ∷ ss)
        × Shows (most_of N (λ y. y.rss) s ss) (s ∷ ss)
  most_of-IsMost s [] = ((omega arith, tt), inl refl)
  most_of-IsMost s (t ∷ more) =
      let m = most_of N (λ y. y.rss) t more in
      let (below, shown) = most_of-IsMost t more in
      elim (Bool-cases (leb s.rss m)) [
        | inl less ↦
            let same : max s.rss m ≡ m = ground arith in
            (
              (omega arith, All-raise m (max s.rss m) (t ∷ more) (omega arith) below),
              inr (subst (λ k. Shows k (t ∷ more)) (sym same) shown),
            )
        | inr more_of ↦
            let same : max s.rss m ≡ s.rss = ground arith in
            (
              (omega arith, All-raise m (max s.rss m) (t ∷ more) (omega arith) below),
              inl (sym same),
            )
      ]

  tail-InMs : (n : ℕ) (us : Option F) → InMs n us (if_counted N n us)
  tail-InMs zero us = refl
  tail-InMs (suc n) none = refl
  tail-InMs (suc n) (some us) = refl

  resources-IsMostMemory : (ss : List (Sample N)) → IsMostMemory ss (rss_of N (resources N ss))
  resources-IsMostMemory [] = refl
  resources-IsMostMemory (s ∷ ss) =
      let (below, shown) = most_of-IsMost s ss in (most_of N (λ y. y.rss) s ss, refl, below, shown)

  busiest-share : (u : Option (CoreUse N)) → busiest N u ≡ greatest_share u
  busiest-share none = refl
  busiest-share (some c) = refl

  dials-IsNumber : (n : Option ℕ) → IsNumber n (as_number N n)
  dials-IsNumber none = refl
  dials-IsNumber (some n) = refl

  usage-IsBusiest :
      (ss : List (Sample N)) (u : Option (Usage N)) → usage N ss ≡ ok u → IsBusiest ss (busy_of N u)
  unfolding usage_between
  usage-IsBusiest [] u h = ap (busy_of N) (sym (ok-injective h))
  usage-IsBusiest (s ∷ []) u h = ap (busy_of N) (sym (ok-injective h))
  usage-IsBusiest (s ∷ t ∷ more) u h =
      let (v, used, last) =
        >>=-eq-ok (usage_between N (s ∷ t ∷ more) s (last_of t more)) (λ w. ok (some w)) h in
      let l = last_of t more in
      let elapsed = seconds_between N s.unix_ns l.unix_ns in
      let (server, _, h1) =
        >>=-eq-ok (divide N (minus l.cpu_seconds s.cpu_seconds) elapsed) _ used in
      let (cores, found, h2) = >>=-eq-ok (core_use N s.server_cores l.server_cores) _ h1 in
      let (counted, _, end) = >>=-eq-ok (rates N elapsed s.counters l.counters) _ h2 in
      (
        cores,
        found,
        ap (busy_of N) (sym (ok-injective last))
            ∙ ap (λ (w : Usage N). busiest N w.cores) (sym (ok-injective end))
            ∙ busiest-share cores,
      )

  row-IsRead :
      (samples : List (Sample N)) (p : Load N) (r : Row N)
      → row N samples p ≡ ok r
      → IsRead samples p (phase_from N p r)
  unfolding row
  row-IsRead samples p r h =
      let (balances, h1) =
        require-eq-ok (p.successes + total_of (λ _. true) (failures N p) + unsent N p == p.offered)
          _ _ h in
      let (success, shared, h2) = >>=-eq-ok (ratio N (100 * p.successes) p.offered) _ h1 in
      let (lost, _, h3) = >>=-eq-ok (ratio N (100 * unsent N p) p.offered) _ h2 in
      let (http, _, h4) =
        >>=-eq-ok (divide N (number N (http_failures N p)) p.duration_seconds) _ h3 in
      let (transport, _, h5) =
        >>=-eq-ok (divide N (number N (transport_failures N p)) p.duration_seconds) _ h4 in
      let (used, found, last) = >>=-eq-ok (usage N (in_phase N p samples)) _ h5 in
      let ss = in_phase N p samples in
      let taken = in_phase-during N p samples in
      subst (λ x. IsRead samples p (phase_from N p x)) (ok-injective last)
        (record {
          label = refl;
          seconds = refl;
          offered_rate = refl;
          goodput = refl;
          success_percent = (ratio-eq-ok N (100 * p.successes) p.offered success shared).1;
          success_p99_ms = refl;
          admin_errors = with_errors-failed N ss ∙ ap (failed_samples N) taken;
          memory =
              subst (λ us. IsMostMemory us (rss_of N (resources N ss))) taken
                (resources-IsMostMemory ss);
          busy = subst (λ us. IsBusiest us (busy_of N used)) taken (usage-IsBusiest ss used found);
          rejections = refl;
          rejection_tail = tail-InMs p.rejection_latency.count p.rejection_latency.p999_us;
          failed = refl;
          failure_tail = tail-InMs p.failure_latency.count p.failure_latency.p999_us;
          dials = dials-IsNumber p.dial_attempts;
          sent = refl;
          offered = refl;
        })

  pub phases-IsRead :
      (samples : List (Sample N)) (ps : List (Load N)) (rs : List (Row N))
      → Matches (λ p r. row N samples p ≡ ok r) ps rs
      → Matches (IsRead samples) ps (phases_from N ps rs)
  phases-IsRead samples [] [] m = tt
  phases-IsRead samples [] (r ∷ rs) m = absurd m
  phases-IsRead samples (p ∷ ps) [] m = absurd m
  phases-IsRead samples (p ∷ ps) (r ∷ rs) (made, rest) =
      (row-IsRead samples p r made, phases-IsRead samples ps rs rest)
