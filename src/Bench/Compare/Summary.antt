-- ===== src/Bench/Compare/Summary.antt =====
-- The summary of the trials in bench/compare.py, and `main` from its trials to the summary.
use zhtps.Common.{
  ℕ, suc, Bool, true, false, ◌&&◌, List, [], ◌∷◌, map, all, if◌then◌else◌, Result, ok, err,
  key_error, index_error, map_result, ◌>>=◌, ℤ, pos, ◌+ℤ◌, eqb_ℤ,
}
use zhtps.Bench.Floats.{Floats, median, minimum, maximum}
use zhtps.Bench.SummarizeOverload.{Table, or_empty}
use zhtps.Bench.Rotation.{trials}
use zhtps.Bench.Compare.{Variant, same_variant, Options, as_count}
use zhtps.Bench.Compare.Trial.{Load, LatencyUs, Outside, Trial, unsupported, measured, run_one}

module _ (N : Floats) where
  open N use {F}

  abbrev pub variant_of : Trial N → Variant
  variant_of (unsupported v repeat connections) = v
  variant_of (measured v repeat l percent) = v

  abbrev pub connections_of : Trial N → ℤ
  connections_of (unsupported v repeat connections) = connections
  connections_of (measured v repeat l percent) = l.connections

  abbrev pub is_unsupported : Trial N → Bool
  is_unsupported (unsupported v repeat connections) = true
  is_unsupported (measured v repeat l percent) = false

  abbrev pub belongs : ℤ → Variant → Trial N → Bool
  belongs connections v t = eqb_ℤ (connections_of t) connections && same_variant (variant_of t) v

  abbrev pub group_of : ℤ → Variant → List (Trial N) → List (Trial N)
  group_of connections v [] = []
  group_of connections v (t ∷ ts) =
      let rest = group_of connections v ts in if belongs connections v t then t ∷ rest else rest

  -- What a summary takes from a measured trial; it has no such keys for one that is not supported.
  abbrev pub load_with_cpu : Trial N → Result (Load N × F)
  load_with_cpu (unsupported v repeat connections) = err (key_error "requests_per_second")
  load_with_cpu (measured v repeat l percent) = ok (l, percent)

  pub record Spread : Type 0 where
    pub median : F
    pub min : F
    pub max : F

  pub record Stats : Type 0 where
    pub requests_per_second : Spread
    pub window_successes_per_second : Spread
    pub window_failures_per_run : List (Table ℕ)
    pub latency_us : LatencyUs N
    pub errors : ℤ
    pub server_cpu_percent : F
    pub generator_cpu_percent : F

  pub data Row : Type 0 where
    unsupported_row : Variant → ℤ → Row
    measured_row : Variant → ℤ → Stats → Row

  abbrev pub spread : List F → Result Spread
  spread xs = do
    middle ← median N xs
    least ← minimum N xs
    most ← maximum N xs
    ok (record { median = middle; min = least; max = most })

  abbrev pub latencies : List (Load N × F) → Result (LatencyUs N)
  latencies loads = do
    a ← median N (map (λ (l : Load N × F). l.0.latency_us.p50) loads)
    b ← median N (map (λ (l : Load N × F). l.0.latency_us.p95) loads)
    c ← median N (map (λ (l : Load N × F). l.0.latency_us.p99) loads)
    ok (record { p50 = a; p95 = b; p99 = c })

  abbrev pub all_errors : List (Load N × F) → ℤ
  all_errors [] = pos 0
  all_errors ((l, percent) ∷ more) = l.errors +ℤ l.warmup_errors +ℤ all_errors more

  unfoldable pub stats : List (Load N × F) → Result Stats
  stats loads = do
    rates ← spread (map (λ (l : Load N × F). l.0.requests_per_second) loads)
    successes ← spread (map (λ (l : Load N × F). l.0.window_successes_per_second) loads)
    latency ← latencies loads
    server ← median N (map (λ (l : Load N × F). l.1) loads)
    generator ← median N (map (λ (l : Load N × F). l.0.generator_cpu_percent) loads)
    ok (record {
      requests_per_second = rates;
      window_successes_per_second = successes;
      window_failures_per_run = map (λ (l : Load N × F). or_empty l.0.window_failures) loads;
      latency_us = latency;
      errors = all_errors loads;
      server_cpu_percent = server;
      generator_cpu_percent = generator;
    })

  abbrev pub first_of : ℤ → Variant → List (Trial N) → Result Row
  first_of connections v [] = err (index_error "list index out of range")
  first_of connections v (t ∷ ts) = ok (unsupported_row v connections)

  unfoldable pub row_of : List (Trial N) → ℤ × Variant → Result Row
  unfolding stats
  row_of runs (connections, v) =
      let group = group_of connections v runs in
      let figures : Result Row = (do
        loads ← map_result load_with_cpu group
        s ← stats loads
        ok (measured_row v connections s)) in
      if all is_unsupported group then first_of connections v group else figures

  abbrev pub with_variants : ℤ → List Variant → List (ℤ × Variant) → List (ℤ × Variant)
  with_variants connections [] more = more
  with_variants connections (v ∷ vs) more = (connections, v) ∷ with_variants connections vs more

  -- The pairs of the two loops.
  abbrev pub pairs : List ℤ → List Variant → List (ℤ × Variant)
  pairs [] variants = []
  pairs (c ∷ cs) variants = with_variants c variants (pairs cs variants)

  unfoldable pub summarize : List (Trial N) → List ℤ → List Variant → Result (List Row)
  unfolding row_of
  summarize runs concurrency variants = map_result (row_of runs) (pairs concurrency variants)

  -- The trials of `main`, in which `outside` is what each one meets, and repeats count from 1.
  unfoldable pub run_all : Options N → (ℕ → ℤ → Variant → Outside N) → Result (List (Trial N))
  unfolding trials run_one
  run_all o outside =
      map_result (λ (t : ℕ × ℤ × Variant). run_one N o t.2 t.1 (suc t.0) (outside t.0 t.1 t.2))
        (trials (as_count o.repeats) 0 o.connections o.variants)

  unfoldable pub compare_variants :
      Options N → (ℕ → ℤ → Variant → Outside N) → Result (List (Trial N) × List Row)
  unfolding run_all summarize
  compare_variants o outside = do
    runs ← run_all o outside
    rows ← summarize runs o.connections o.variants
    ok (runs, rows)
