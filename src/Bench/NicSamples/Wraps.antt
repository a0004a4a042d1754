-- ===== src/Bench/NicSamples/Wraps.antt =====
-- The 16-bit counter against the true one, which does not wrap: bench/summarize_http2_diagnosis.py.
use zhtps.Common.{
  ℕ, ◌+◌, ◌-◌, ◌%◌, ◌/◌, ◌≤◌, ◌<◌, ◌≡◌, refl, sym, ap, ◌∙◌, List, [], ◌∷◌, map, length, none, some,
  String, ltb, ◌==◌, if◌then◌else◌, ok, ◌>>=◌, >>=-eq-ok, ℤ, pos, ok-injective, require-eq-ok,
  arith, subst,
}
use zhtps.Bench.Floats.{Floats, divide, integer, number}
use zhtps.Bench.NicSamples.{
  Sample, within, counter_of, counters_of, increments, wraps, changes, NicSamples, nic_samples,
  max_gap_ns, greatest, gaps, not, any, assertion_error, samples_of, after_bound, after_counters,
  summary,
}

-- The true counter falls nowhere, and counts less than a whole round between two samples.
abbrev pub Rises : List ℕ → Type 0
Rises [] = Unit
Rises (t ∷ []) = Unit
Rises (t ∷ u ∷ ts) = (t ≤ u) × (u < t + 65_536) × Rises (u ∷ ts)

abbrev pub last_from : ℕ → List ℕ → ℕ
last_from t [] = t
last_from t (u ∷ ts) = last_from u ts

-- What the interface shows of the true counter.
abbrev pub shown : ℕ → ℕ
shown t = t % 65_536

-- The intervals in which the true counter moves.
abbrev pub moves : List ℕ → ℕ
moves [] = 0
moves (t ∷ []) = 0
moves (t ∷ u ∷ ts) = (if u == t then 0 else 1) + moves (u ∷ ts)

one_increment : (t u : ℕ) → t ≤ u → u < t + 65_536 → (shown u + 65_536 - shown t) % 65_536 ≡ u - t
one_increment t u h k = omega arith

one_wrap :
    (t u : ℕ)
    → t ≤ u
    → u < t + 65_536
    → t / 65_536 + (if ltb (shown u) (shown t) then 1 else 0) ≡ u / 65_536
one_wrap t u h k = ground arith

one_change : (t u : ℕ) → t ≤ u → u < t + 65_536 → (shown u == shown t) ≡ (u == t)
one_change t u h k = ground arith

increments-shown :
    (t : ℕ) (ts : List ℕ) → Rises (t ∷ ts) → t + increments (map shown (t ∷ ts)) ≡ last_from t ts
unfolding increments
increments-shown t [] rises = omega arith
increments-shown t (u ∷ ts) (h, k, rises) =
    omega (arith, one_increment t u h k, increments-shown u ts rises)

wraps-shown :
    (t : ℕ) (ts : List ℕ)
    → Rises (t ∷ ts)
    → t / 65_536 + wraps (map shown (t ∷ ts)) ≡ last_from t ts / 65_536
unfolding wraps
wraps-shown t [] rises = omega arith
wraps-shown t (u ∷ ts) (h, k, rises) =
    let one = one_wrap t u h k in let more = wraps-shown u ts rises in omega (arith, one, more)

changes-shown :
    (t : ℕ) (ts : List ℕ) → Rises (t ∷ ts) → changes (map shown (t ∷ ts)) ≡ moves (t ∷ ts)
unfolding changes
changes-shown t [] rises = refl
changes-shown t (u ∷ ts) (h, k, rises) =
    rw (one_change t u h k) (rw (changes-shown u ts rises) refl)

abbrev head_of {ℓ} : {A : Type ℓ} → A → List A → A
head_of a [] = a
head_of a (x ∷ xs) = x

abbrev tail_of {ℓ} : {A : Type ℓ} → List A → List A
tail_of [] = []
tail_of (x ∷ xs) = xs

counters_of-shown :
    (nic : String) (samples : List Sample) (ts ns : List ℕ)
    → map (λ s. s.counter nic) samples ≡ map (λ t. some (pos (shown t))) ts
    → counters_of nic samples ≡ ok ns
    → ns ≡ map shown ts
counters_of-shown nic [] [] ns same h = sym (ok-injective h)
counters_of-shown nic [] (t ∷ ts) ns same h = cc
counters_of-shown nic (s ∷ ss) [] ns same h = cc
counters_of-shown nic (s ∷ ss) (t ∷ ts) ns same h =
    let (n, read, h1) =
      >>=-eq-ok (counter_of nic (s.counter nic)) (λ k. do ms ← counters_of nic ss; ok (k ∷ ms)) h in
    let (ms, rest, h2) = >>=-eq-ok (counters_of nic ss) (λ k. ok (n ∷ k)) h1 in
    let first : s.counter nic ≡ some (pos (shown t)) = ap (head_of none) same in
    let read' : counter_of nic (some (pos (shown t))) ≡ ok n =
      ap (counter_of nic) (sym first) ∙ read in
    let (small, value) = require-eq-ok (ltb (shown t) 65_536) _ _ read' in
    let more = counters_of-shown nic ss ts ms (ap tail_of same) rest in
    rw (ok-injective value) (rw (sym more) (sym (ok-injective h2)))

-- If the samples within the time show a true counter modulo 65536 that falls nowhere and counts less than 65536
-- between two of them, and `nic_samples` returns, then the modulo increment is what the true counter counts from the
-- first of them to the last, the observed wraps are the rounds of 65536 that it completes, and the positive intervals
-- those in which it moves.
pub nic_samples-Rises :
    (N : Floats) (samples : List Sample) (nic : String) (start end : ℤ) (speed : ℕ)
    (r : NicSamples N) (t : ℕ) (ts : List ℕ)
    → Rises (t ∷ ts)
    → map (λ s. s.counter nic) (within start end samples) ≡ map (λ u. some (pos (shown u))) (t ∷ ts)
    → nic_samples N samples nic start end speed ≡ ok r
    → (t + r.modulo_increment ≡ last_from t ts)
      × (t / 65_536 + r.observed_wraps ≡ last_from t ts / 65_536)
      × (r.positive_intervals ≡ moves (t ∷ ts))
unfolding nic_samples
nic_samples-Rises N samples nic start end speed r t ts rises same h =
    let ss = within start end samples in
    let (_, h1) =
      require-eq-ok (not (any (λ s. s.has_error) samples)) (assertion_error "")
        (samples_of N nic ss speed) h in
    let (_, h2) =
      require-eq-ok (ltb 1 (length ss)) (assertion_error "")
        (max_gap_ns N speed >>= after_bound N nic ss) h1 in
    let (bound, _, h3) = >>=-eq-ok (max_gap_ns N speed) (after_bound N nic ss) h2 in
    let (ns, read, h4) = >>=-eq-ok (counters_of nic ss) (after_counters N ss bound) h3 in
    let (widest, _, h5) =
      >>=-eq-ok (greatest (gaps ss))
        (λ w. divide N (integer N w) (number N 1_000_000) >>= λ ms. ok (summary N ss bound ns ms))
        h4 in
    let (ms, _, h6) =
      >>=-eq-ok (divide N (integer N widest) (number N 1_000_000))
        (λ w. ok (summary N ss bound ns w)) h5 in
    let shows = counters_of-shown nic ss (t ∷ ts) ns same read in
    subst
      (λ x.
        (t + x.modulo_increment ≡ last_from t ts)
        × (t / 65_536 + x.observed_wraps ≡ last_from t ts / 65_536)
        × (x.positive_intervals ≡ moves (t ∷ ts)))
      (ok-injective h6)
      (
        ap (λ k. t + increments k) shows ∙ increments-shown t ts rises,
        ap (λ k. t / 65_536 + wraps k) shows ∙ wraps-shown t ts rises,
        ap changes shows ∙ changes-shown t ts rises,
      )
