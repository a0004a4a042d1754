-- ===== src/Bench/NicSamples/Tests.antt =====
-- `nic_samples` of bench/summarize_http2_diagnosis.py at concrete samples.
use zhtps.Common.{
  ℕ, ◌+◌, ◌≡◌, ◌/◌, refl, false, List, [], ◌∷◌, Option, none, some, ok, err, ℤ, pos, negsuc,
  assertion_error, key_error, zero_division_error, arith,
}
use zhtps.Bench.Floats.Thousandths.{thousandths}
use zhtps.Bench.NicSamples.{Sample, NicSamples, nic_samples}
use zhtps.Bench.NicSamples.Wraps.{last_from, moves, nic_samples-Rises}

abbrev sample_at : ℕ → Option ℤ → Sample
sample_at time value = record {
  started_ns = pos time;
  finished_ns = pos (time + 1_000_000);
  has_error = false;
  counter = λ nic. value;
}

-- The first is too early; the counter wraps once.
abbrev samples : List Sample
samples =
    sample_at 0 (some (pos 9))
    ∷ sample_at 5_000_000 (some (pos 65_530))
    ∷ sample_at 10_000_000 (some (pos 65_530))
    ∷ sample_at 15_000_000 (some (pos 4))
    ∷ []

abbrev shows : NicSamples thousandths
shows = record {
  samples = 3;
  first_ns = some (pos 5_000_000);
  last_ns = some (pos 16_000_000);
  modulo_increment = 10;
  observed_wraps = 1;
  positive_intervals = 1;
  max_gap_ms = 6000;
  ambiguous_wrap_intervals = 0;
}

nic_samples_run : nic_samples thousandths samples "eth0" (pos 1) (pos 20_000_000) 2500 ≡ ok shows
unfolding nic_samples
nic_samples_run = refl

nic_samples_tests :
    (nic_samples thousandths samples "eth0" (pos 1) (pos 20_000_000) 0
      ≡ err (zero_division_error "division by zero"))
    × (nic_samples thousandths samples "eth0" (pos 6_000_000) (pos 12_000_000) 2500
        ≡ err (assertion_error ""))
    × (nic_samples thousandths
          (sample_at 5 none ∷ sample_at 6 none ∷ [])
          "eth0"
          (pos 1)
          (pos 20_000_000)
          2500
        ≡ err (key_error "eth0"))
    × (nic_samples thousandths
          (sample_at 5 (some (negsuc 0)) ∷ sample_at 6 none ∷ [])
          "eth0"
          (pos 1)
          (pos 20_000_000)
          2500
        ≡ err (assertion_error ""))
    × (nic_samples thousandths
          (sample_at 5 (some (pos 65_536)) ∷ sample_at 6 none ∷ [])
          "eth0"
          (pos 1)
          (pos 20_000_000)
          2500
        ≡ err (assertion_error ""))
unfolding nic_samples
nic_samples_tests = (refl, refl, refl, refl, refl)

abbrev true_counts : List ℕ
true_counts = 131_066 ∷ 131_076 ∷ []

nic_samples-Rises_example :
    (131_066 + shows.modulo_increment ≡ last_from 131_066 true_counts)
    × (131_066 / 65_536 + shows.observed_wraps ≡ last_from 131_066 true_counts / 65_536)
    × (shows.positive_intervals ≡ moves (131_066 ∷ true_counts))
nic_samples-Rises_example =
    nic_samples-Rises thousandths samples "eth0" (pos 1) (pos 20_000_000) 2500 shows 131_066
      true_counts (ground arith, ground arith, (ground arith, ground arith, tt)) refl
      nic_samples_run
