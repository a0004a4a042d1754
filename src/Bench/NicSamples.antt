-- ===== src/Bench/NicSamples.antt =====
-- `nic_samples` of bench/summarize_http2_diagnosis.py: what the samples of a network interface's 16-bit
-- counter show of a trial. A row has the counters that were read or an error.
pub mod Wraps
pub mod Tests
use zhtps.Common.{
  ℕ, zero, suc, ◌+◌, ◌-◌, ◌*◌, ◌%◌, Bool, true, false, not, ◌&&◌, List, [], ◌∷◌, length, Option,
  none, some, String, ltb, ◌==◌, if◌then◌else◌, Result, ok, err, key_error, assertion_error,
  require, ◌>>=◌, ◌>>◌, ℤ, pos, negsuc, leb_ℤ, all, ◌≤◌, ◌<◌, ◌/◌, ◌≡◌, arith, ltb_ℤ, ◌-ℤ◌, any,
  value_error,
}
use zhtps.Bench.Floats.{Floats, number, integer, divide}

pub record Sample : Type 0 where
  pub started_ns : ℤ
  pub finished_ns : ℤ
  pub has_error : Bool
  pub counter : String → Option ℤ

abbrev pub within : ℤ → ℤ → List Sample → List Sample
within start end [] = []
within start end (s ∷ ss) =
    let rest = within start end ss in
    if leb_ℤ start s.started_ns && leb_ℤ s.finished_ns end then s ∷ rest else rest

-- The counter of a sample, which must be there.
abbrev pub counter_of : String → Option ℤ → Result ℕ
counter_of nic none = err (key_error nic)
counter_of nic (some (pos n)) = do require (ltb n 65_536) (assertion_error ""); ok n
counter_of nic (some (negsuc n)) = err (assertion_error "")

abbrev pub counters_of : String → List Sample → Result (List ℕ)
counters_of nic [] = ok []
counters_of nic (s ∷ ss) = do
  n ← counter_of nic (s.counter nic)
  ns ← counters_of nic ss
  ok (n ∷ ns)

-- `sum((b - a) % 65536 ...)` over neighbours below 65536
unfoldable pub increments : List ℕ → ℕ
increments [] = 0
increments (a ∷ []) = 0
increments (a ∷ b ∷ ns) = (b + 65_536 - a) % 65_536 + increments (b ∷ ns)

unfoldable pub wraps : List ℕ → ℕ
wraps [] = 0
wraps (a ∷ []) = 0
wraps (a ∷ b ∷ ns) = (if ltb b a then 1 else 0) + wraps (b ∷ ns)

unfoldable pub changes : List ℕ → ℕ
changes [] = 0
changes (a ∷ []) = 0
changes (a ∷ b ∷ ns) = (if b == a then 0 else 1) + changes (b ∷ ns)

abbrev pub gaps : List Sample → List ℤ
gaps [] = []
gaps (a ∷ []) = []
gaps (a ∷ b ∷ ss) = (b.finished_ns -ℤ a.started_ns) ∷ gaps (b ∷ ss)

abbrev greatest_from : ℤ → List ℤ → ℤ
greatest_from best [] = best
greatest_from best (x ∷ xs) = greatest_from (if ltb_ℤ best x then x else best) xs

-- `max(gaps)`
abbrev pub greatest : List ℤ → Result ℤ
greatest [] = err (value_error "max() iterable argument is empty")
greatest (x ∷ xs) = ok (greatest_from x xs)

abbrev first_started : List Sample → Option ℤ
first_started [] = none
first_started (s ∷ ss) = some s.started_ns

abbrev last_finished : List Sample → Option ℤ
last_finished [] = none
last_finished (s ∷ []) = some s.finished_ns
last_finished (s ∷ t ∷ ss) = last_finished (t ∷ ss)

module _ (N : Floats) where
  open N use {F, times, is_below}

  pub record NicSamples : Type 0 where
    pub samples : ℕ
    pub first_ns : Option ℤ
    pub last_ns : Option ℤ
    pub modulo_increment : ℕ
    pub observed_wraps : ℕ
    pub positive_intervals : ℕ
    pub max_gap_ms : F
    pub ambiguous_wrap_intervals : ℕ

  -- The time that the counter takes at least for a round, with frames of 64 bytes.
  abbrev pub max_gap_ns : ℕ → Result F
  max_gap_ns speed =
      divide N (times (number N 33_554_432) (number N 1_000_000_000))
        (times (number N speed) (number N 1_000_000))

  abbrev pub count_ambiguous : F → List ℤ → ℕ
  count_ambiguous bound [] = 0
  count_ambiguous bound (g ∷ gs) =
      (if is_below (integer N g) bound then 0 else 1) + count_ambiguous bound gs

  abbrev pub summary : List Sample → F → List ℕ → F → NicSamples
  summary ss bound counters milliseconds = record {
    samples = length ss;
    first_ns = first_started ss;
    last_ns = last_finished ss;
    modulo_increment = increments counters;
    observed_wraps = wraps counters;
    positive_intervals = changes counters;
    max_gap_ms = milliseconds;
    ambiguous_wrap_intervals = count_ambiguous bound (gaps ss);
  }

  abbrev pub after_counters : List Sample → F → List ℕ → Result NicSamples
  after_counters ss bound counters = do
    widest ← greatest (gaps ss)
    milliseconds ← divide N (integer N widest) (number N 1_000_000)
    ok (summary ss bound counters milliseconds)

  abbrev pub after_bound : String → List Sample → F → Result NicSamples
  after_bound nic ss bound = do counters ← counters_of nic ss; after_counters ss bound counters

  abbrev pub samples_of : String → List Sample → ℕ → Result NicSamples
  samples_of nic ss speed = do
    require (ltb 1 (length ss)) (assertion_error "")
    bound ← max_gap_ns speed
    after_bound nic ss bound

  unfoldable pub nic_samples : List Sample → String → ℤ → ℤ → ℕ → Result NicSamples
  unfolding increments wraps changes
  nic_samples samples nic start end speed = do
    require (not (any (λ s. s.has_error) samples)) (assertion_error "")
    samples_of nic (within start end samples) speed
