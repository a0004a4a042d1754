-- ===== src/Bench/UploadClient/Tests.antt =====
-- The theorems about bench/upload_client.py at concrete workers and probes.
use zhtps.Common.{
  ℕ, ◌≡◌, refl, Bool, true, false, List, [], ◌∷◌, Option, none, some, String, Result, ok, err,
  value_error, pos,
}
use zhtps.Bench.Floats.Thousandths.{thousandths}
use zhtps.Bench.UploadClient.{
  hash, distinct, pair, queue_priority, Timing, Pass, Options, check_options, timing, work,
}
use zhtps.Bench.UploadClient.Pacing.{Accounts, KeepsRate, work-KeepsRate}
use zhtps.Bench.UploadClient.Queues.{
  observe, bucket_of, prepare_all, buckets, AreNew, prepare_all-AreNew,
}

abbrev options : Options thousandths
options = record {
  connections = pos 2;
  warmup = 1000;
  duration = 4000;
  rate = 2000;
  queue_mode = hash;
  is_probing = true;
}

abbrev times : Timing
times = timing thousandths options 100

abbrev pass : ℕ → Bool → Pass
pass at good = record {
  tested = at;
  woken = at;
  started = at;
  answer = answer_of good;
  finished = finish_of good;
}
  where
    answer_of : Bool → Result (Unit {0})
    answer_of true = ok tt
    answer_of false = err (value_error "response status, body length, or checksum differs")

    finish_of : Bool → ℕ
    finish_of b = 2_000_000_000

abbrev passes : List Pass
passes = pass 500_000_200 true ∷ pass 2_100_000_000 false ∷ pass 3_000_000_000 true ∷ []

worker_ends : work thousandths options times 1 passes ≡ record {
  next_start = 2_000_000_000;
  attempts = 2;
  successes = 1;
  failures = "ValueError('response status, body length, or checksum differs')" ∷ [];
  latencies = 1_499_999_800 ∷ [];
}
unfolding work
worker_ends = refl

accepted : check_options thousandths options 8_388_608 ≡ ok tt
unfolding check_options
accepted = refl

priorities :
    (queue_priority pair 0 ≡ 1)
    × (queue_priority pair 1 ≡ 1)
    × (queue_priority pair 2 ≡ 3)
    × (queue_priority distinct 1 ≡ 2)
    × (queue_priority hash 1 ≡ 0)
unfolding queue_priority
priorities = (refl, refl, refl, refl, refl)

work-KeepsRate_example :
    Accounts (work thousandths options times 1 passes)
    × (◌≡◌ {A = Bool} false false
        → KeepsRate 500_000_100 1_000_000_000 times
            (work thousandths options times 1 passes).attempts)
work-KeepsRate_example = work-KeepsRate thousandths options times 1 passes

abbrev probes : List (List (Result (Option String)))
probes =
    (ok none ∷ ok (some "8003:a") ∷ [])
    ∷ (ok (some "8003:a") ∷ ok (some "8003:c") ∷ [])
    ∷ (err (value_error "queue-probe response differs") ∷ [])
    ∷ []

prepared : buckets (prepare_all true [] probes) ≡ "8003:a" ∷ "8003:c" ∷ []
unfolding prepare_all
prepared = refl

observed :
    bucket_of thousandths (
      observe [] (
        record { is_fq_codel = true; handle = "8003:a"; backlog = 90_000 }
        ∷ record { is_fq_codel = true; handle = "8003:b"; backlog = 16_383 }
        ∷ record { is_fq_codel = true; handle = "8003:c"; backlog = 17_000 }
        ∷ record { is_fq_codel = true; handle = "8003:a"; backlog = 90_000 }
        ∷ []))
    ≡ some "8003:a"
unfolding bucket_of
observed = refl

prepare_all-AreNew_example : AreNew [] (buckets (prepare_all true [] probes))
prepare_all-AreNew_example = prepare_all-AreNew [] probes
