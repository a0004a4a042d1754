-- ===== src/Bench/Compare/Figures.antt =====
-- The figures of a row of bench/compare.py's summary are there for a group that is not empty.
use zhtps.Common.{suc, ◌≡◌, refl, List, [], ◌∷◌, map, length, Result, ok, ◌>>=◌}
use zhtps.Bench.Floats.{Floats, median}
use zhtps.Bench.Floats.Totals.{median_total}
use zhtps.Bench.SummarizeOverload.{or_empty}
use zhtps.Bench.Compare.Trial.{Load, LatencyUs}
use zhtps.Bench.Compare.Summary.{Stats, stats, spread, latencies, Spread}

-- A step that returns, before steps that return.
bind_total {ℓ κ} :
    {A : Type ℓ} {B : Type κ} (Q : B → Type 0) (m : Result A) (f : A → Result B)
    → (a : A) × (m ≡ ok a)
    → ((a : A) → (b : B) × (f a ≡ ok b) × Q b)
    → (b : B) × ((m >>= f) ≡ ok b) × Q b
bind_total Q m f (a, e) next = let (b, e', q) = next a in (b, rw e e', q)

bind_ok {ℓ κ} :
    {A : Type ℓ} {B : Type κ} (m : Result A) (f : A → Result B)
    → (a : A) × (m ≡ ok a)
    → ((a : A) → (b : B) × (f a ≡ ok b))
    → (b : B) × ((m >>= f) ≡ ok b)
bind_ok m f (a, e) next = let (b, e') = next a in (b, rw e e')

module _ (N : Floats) where
  spread_total : (x : N.F) (xs : List N.F) → (s : Spread N) × (spread N (x ∷ xs) ≡ ok s)
  spread_total x xs = bind_ok (median N (x ∷ xs)) _ (median_total N x xs) (λ m. (_, refl))

  latencies_total :
      (l : Load N × N.F) (ls : List (Load N × N.F))
      → (t : LatencyUs N) × (latencies N (l ∷ ls) ≡ ok t)
  latencies_total l ls =
      bind_ok (median N (map (λ (x : Load N × N.F). x.0.latency_us.p50) (l ∷ ls))) _
        (median_total N _ _)
        λ a.
          bind_ok (median N (map (λ (x : Load N × N.F). x.0.latency_us.p95) (l ∷ ls))) _
            (median_total N _ _)
            λ b.
              bind_ok (median N (map (λ (x : Load N × N.F). x.0.latency_us.p99) (l ∷ ls))) _
                (median_total N _ _) λ c. (_, refl)

  length-map {ℓ} :
      {B : Type ℓ} (f : Load N × N.F → B) (ls : List (Load N × N.F)) → length (map f ls) ≡ length ls
  length-map f [] = refl
  length-map f (l ∷ ls) = rw (length-map f ls)

  pub stats_total :
      (l : Load N × N.F) (ls : List (Load N × N.F))
      → (s : Stats N) × (stats N (l ∷ ls) ≡ ok s)
        × (length s.window_failures_per_run ≡ suc (length ls))
  unfolding stats
  stats_total l ls =
      let Q : Stats N → Type 0 = λ s. length s.window_failures_per_run ≡ suc (length ls) in
      bind_total Q (spread N (map (λ (x : Load N × N.F). x.0.requests_per_second) (l ∷ ls))) _
        (spread_total _ _)
        λ rates.
          bind_total Q
            (spread N (map (λ (x : Load N × N.F). x.0.window_successes_per_second) (l ∷ ls))) _
            (spread_total _ _)
            λ successes. bind_total Q (latencies N (l ∷ ls)) _ (latencies_total l ls) λ latency.
              bind_total Q (median N (map (λ (x : Load N × N.F). x.1) (l ∷ ls))) _
                (median_total N _ _)
                λ server.
                  bind_total Q
                    (median N (map (λ (x : Load N × N.F). x.0.generator_cpu_percent) (l ∷ ls))) _
                    (median_total N _ _)
                    λ generator. (
                      _,
                      refl,
                      rw (length-map (λ (x : Load N × N.F). or_empty x.0.window_failures) ls),
                    )
