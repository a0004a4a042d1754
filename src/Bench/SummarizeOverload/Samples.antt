-- ===== src/Bench/SummarizeOverload/Samples.antt =====
-- What `summarize` of bench/summarize_overload.py makes of the samples that fall into a phase.
use zhtps.Common.{
  ℕ, suc, zero, List, [], ◌∷◌, Option, none, some, String, min, max, if◌then◌else◌, Result, ok, err,
  key_error, index_error, ◌>>=◌, ℤ, pos, sub_ℕ, eqb_ℤ, ◌+ℤ◌, ◌-ℤ◌, ◌*ℤ◌,
}
use zhtps.Bench.Floats.{Floats, number, integer, divide, maximum}
use zhtps.Bench.SummarizeOverload.{
  Table, get, Cores, or_zero, or_default, Counters, Sample, Resources, CoreUse, Rates, Usage,
}

-- The differences of two rows of counters, as far as both go.
abbrev pub delta : List ℕ → List ℕ → List ℤ
delta (a ∷ as_before) (b ∷ bs) = sub_ℕ b a ∷ delta as_before bs
delta (a ∷ as_before) [] = []
delta [] bs = []

-- The sum of the first so many.
abbrev pub sum_first : ℕ → List ℤ → ℤ
sum_first zero xs = pos 0
sum_first (suc n) [] = pos 0
sum_first (suc n) (x ∷ xs) = x +ℤ sum_first n xs

abbrev pub nth : ℕ → List ℤ → Result ℤ
nth n [] = err (index_error "list index out of range")
nth zero (x ∷ xs) = ok x
nth (suc n) (x ∷ xs) = nth n xs

-- The ticks that a core has spent, and the busy ones among them: all but idle and waiting for I/O.
unfoldable pub core_ticks : List ℕ → List ℕ → Result (ℤ × ℤ)
core_ticks before after = do
  let ticks = delta before after
  idle ← nth 3 ticks
  waiting ← nth 4 ticks
  ok (sum_first 8 ticks, sum_first 8 ticks -ℤ idle -ℤ waiting)

abbrev pub core_of : Option Cores → String → Result (List ℕ)
core_of none name = err (key_error "server_cores")
core_of (some cores) name = get name cores

abbrev pub last_of {ℓ} : {A : Type ℓ} → A → List A → A
last_of x [] = x
last_of x (y ∷ ys) = last_of y ys

-- The cores' sums, and what a core adds to them.
pub record Busy (F : Type 0) : Type 0 where
  pub total : ℤ
  pub busy : ℤ
  pub per_core : Table F

module _ (N : Floats) where
  open N use {F, minus, times, over, is_below}

  abbrev pub percent_of : ℤ → ℤ → F
  percent_of part whole = over (integer N (pos 100 *ℤ part)) (integer N whole)

  abbrev pub with_core : String → ℤ × ℤ → Busy F → Busy F
  with_core name (total, busy) b = record {
    total = total +ℤ b.total;
    busy = busy +ℤ b.busy;
    per_core =
        if eqb_ℤ total (pos 0) then b.per_core else (name, percent_of busy total) ∷ b.per_core;
  }

  -- The loop over the cores of the first sample.
  unfoldable pub sum_cores : Option Cores → Cores → Result (Busy F)
  unfolding core_ticks
  sum_cores last [] = ok (record { total = pos 0; busy = pos 0; per_core = [] })
  sum_cores last ((name, before) ∷ more) = do
    after ← core_of last name
    ticks ← core_ticks before after
    rest ← sum_cores last more
    ok (with_core name ticks rest)

  abbrev pub values : Table F → List F
  values [] = []
  values ((name, x) ∷ more) = x ∷ values more

  abbrev pub busy_cores : Busy F → Result (Option (CoreUse N))
  busy_cores b =
      let known : Result (Option (CoreUse N)) = (do
        most ← maximum N (values b.per_core)
        ok (
            some (record {
              busy_percent = percent_of b.busy b.total;
              busy_percent_by_cpu = b.per_core;
              busy_percent_max = most;
            }))) in
      if eqb_ℤ b.total (pos 0) then ok none else known

  unfoldable pub core_use : Option Cores → Option Cores → Result (Option (CoreUse N))
  unfolding sum_cores
  core_use none last = ok none
  core_use (some first) last = do sums ← sum_cores last first; busy_cores sums

  -- Nanoseconds between two times, in seconds.
  abbrev pub seconds_between : ℕ → ℕ → F
  seconds_between from to = over (integer N (sub_ℕ to from)) (number N 1_000_000_000)

  -- The samples with a part of the client, each with the client's time.
  abbrev client_samples : List (Sample N) → List (ℕ × F)
  client_samples [] = []
  client_samples (s ∷ more) = elim s.client [
    | none ↦ client_samples more
    | some c ↦ (or_default s.unix_ns c.unix_ns, c.cpu_seconds) ∷ client_samples more
  ]

  abbrev cores_between : ℕ × F → ℕ × F → Option F
  cores_between (t, before) (u, after) =
      let elapsed = seconds_between t u in
      if is_below (number N 0) elapsed then some (over (minus after before) elapsed) else none

  abbrev pub client_cores : List (ℕ × F) → Option F
  client_cores [] = none
  client_cores (s ∷ []) = none
  client_cores (s ∷ t ∷ more) = cores_between s (last_of t more)

  abbrev pub rates : F → Option Counters → Option Counters → Result (Option (Rates N))
  rates elapsed (some a) (some b) = do
    admitted ← divide N (integer N (sub_ℕ b.admitted a.admitted)) elapsed
    rejected ← divide N (integer N (sub_ℕ b.rejected a.rejected)) elapsed
    ok (some (record { admitted = admitted; rejected = rejected }))
  rates elapsed a b = ok none

  unfoldable pub usage_between : List (Sample N) → Sample N → Sample N → Result (Usage N)
  unfolding core_use
  usage_between samples first last = do
    let elapsed = seconds_between first.unix_ns last.unix_ns
    server ← divide N (minus last.cpu_seconds first.cpu_seconds) elapsed
    cores ← core_use first.server_cores last.server_cores
    counted ← rates elapsed first.counters last.counters
    ok (record {
      server_cpu_cores = server;
      client_cpu_cores = client_cores (client_samples samples);
      cores = cores;
      rates = counted;
      listen_overflows = sub_ℕ last.listen_overflows first.listen_overflows;
    })

  abbrev pub usage : List (Sample N) → Result (Option (Usage N))
  usage [] = ok none
  usage (s ∷ []) = ok none
  usage (s ∷ t ∷ more) = do u ← usage_between (s ∷ t ∷ more) s (last_of t more); ok (some u)

  -- The least and the greatest of a number over the samples.
  abbrev pub least_of : (Sample N → ℕ) → Sample N → List (Sample N) → ℕ
  least_of f s [] = f s
  least_of f s (t ∷ more) = min (f s) (least_of f t more)

  abbrev pub most_of : (Sample N → ℕ) → Sample N → List (Sample N) → ℕ
  most_of f s [] = f s
  most_of f s (t ∷ more) = max (f s) (most_of f t more)

  abbrev pub mib : ℕ → F
  mib n = over (number N n) (number N 1_048_576)

  abbrev pub resources : List (Sample N) → Option (Resources N)
  resources [] = none
  resources (s ∷ more) = some (record {
    rss_min_mib = mib (least_of (λ x. x.rss) s more);
    rss_max_mib = mib (most_of (λ x. x.rss) s more);
    fds_max = most_of (λ x. x.fds) s more;
    tcp_time_wait_max = most_of (λ x. or_zero x.tcp_tw) s more;
    tcp_mem_pages_max = most_of (λ x. or_zero x.tcp_mem) s more;
  })
