-- ===== src/Bench/UploadClient/Pacing.antt =====
-- The rate and the accounts of a worker of bench/upload_client.py.
use zhtps.Common.{
  ℕ, suc, ◌+◌, ◌-◌, ◌*◌, ◌≤◌, ◌<◌, ◌≡◌, ◌⊎◌, inl, inr, refl, Bool, Bool-cases, true, false, not,
  ◌&&◌, ◌||◌, List, [], ◌∷◌, String, ltb, leb, length, length-append, Result, ok, err, repr, arith,
}
use zhtps.Bench.Floats.{Floats, number, integer}
use zhtps.Bench.UploadClient.{
  Timing, Pass, Worker, work_loop, succeed, idle, in_window, fail, after_answer, ends, Options,
  work, nanoseconds,
}

-- Each attempt succeeded but the last, which may have failed; and the latencies are those of successes
-- that finished in the window.
pub record Accounts (w : Worker) : Type 0 where
  pub accounted : w.attempts ≡ w.successes + length w.failures
  pub one_failure : length w.failures ≤ 1
  pub measured : length w.latencies ≤ w.successes

module _ (is_rated : Bool) (interval : ℕ) (t : Timing) where
  record Running (w : Worker) : Type 0 where
    accounted : w.attempts ≡ w.successes
    no_failure : w.failures ≡ []
    measured : length w.latencies ≤ w.successes

  succeed-Running : (p : Pass) (w : Worker) → Running w → Running (succeed is_rated interval t p w)
  succeed-Running p w r =
      let longer = length-append w.latencies ((p.finished - p.started) ∷ []) in
      record {
        accounted = ground (arith, r.accounted);
        no_failure = r.no_failure;
        measured = elim (Bool-cases (in_window t p.finished)) [
          | inl inside ↦ rw inside (omega (arith, longer, r.measured))
          | inr outside ↦ rw outside (omega (arith, r.measured))
        ];
      }

  fail-Accounts : (text : String) (w : Worker) → Running w → Accounts (fail text w)
  fail-Accounts text w r = record {
    accounted = rw (r.no_failure) (omega (arith, r.accounted));
    one_failure = rw (r.no_failure) (omega arith);
    measured = r.measured;
  }

  after_answer-Accounts :
      (answer : Result (Unit {0})) (w rest : Worker)
      → Running w
      → Accounts rest
      → Accounts (after_answer answer w rest)
  after_answer-Accounts (err e) w rest r a = fail-Accounts (repr e) w r
  after_answer-Accounts (ok _) w rest r a = a

  stopped-Accounts : (w : Worker) → Running w → Accounts w
  stopped-Accounts w r = record {
    accounted = rw (r.no_failure) (omega (arith, r.accounted));
    one_failure = rw (r.no_failure) (omega arith);
    measured = r.measured;
  }

  work_loop-Accounts :
      (ps : List Pass) (w : Worker) → Running w → Accounts (work_loop is_rated interval t ps w)
  unfolding work_loop
  work_loop-Accounts [] w r = stopped-Accounts w r
  work_loop-Accounts (p ∷ ps) w r = elim (Bool-cases (ends is_rated t p w)) [
    | inl over ↦ rw over (stopped-Accounts w r)
    | inr on ↦ rw on (
        after_answer-Accounts p.answer w
          (work_loop is_rated interval t ps (succeed is_rated interval t p w)) r
          (work_loop-Accounts ps (succeed is_rated interval t p w) (succeed-Running p w r)))
  ]

-- The first start, and an interval for each attempt but the last, lie before the end.
abbrev pub KeepsRate : ℕ → ℕ → Timing → ℕ → Type 0
KeepsRate first interval t attempts = (attempts ≡ 0) ⊎ (first + (attempts - 1) * interval < t.end)

module _ (interval : ℕ) (t : Timing) (first : ℕ) where
  -- No more attempts than intervals have gone by up to the next start.
  abbrev IsAhead : Worker → Type 0
  IsAhead w = first + w.attempts * interval ≤ w.next_start

  one_more :
      (w : Worker) → IsAhead w → w.next_start < t.end → KeepsRate first interval t (suc w.attempts)
  one_more w ahead early =
      let same : suc w.attempts - 1 ≡ w.attempts = omega arith in inr (rw same (omega arith))

  succeed-IsAhead : (p : Pass) (w : Worker) → IsAhead w → IsAhead (succeed true interval t p w)
  succeed-IsAhead p w ahead = grind (arith, ahead)

  after_answer-KeepsRate :
      (answer : Result (Unit {0})) (w rest : Worker)
      → KeepsRate first interval t (suc w.attempts)
      → KeepsRate first interval t rest.attempts
      → KeepsRate first interval t (after_answer answer w rest).attempts
  after_answer-KeepsRate (err e) w rest more kept = more
  after_answer-KeepsRate (ok _) w rest more kept = kept

  is_early :
      (tested woken next : Bool) → (not tested || (true && (next || woken))) ≡ false → next ≡ false
  is_early tested woken next h = ground arith

  work_loop-KeepsRate :
      (ps : List Pass) (w : Worker)
      → IsAhead w
      → KeepsRate first interval t w.attempts
      → KeepsRate first interval t (work_loop true interval t ps w).attempts
  unfolding work_loop
  work_loop-KeepsRate [] w ahead keeps = keeps
  work_loop-KeepsRate (p ∷ ps) w ahead keeps = elim (Bool-cases (ends true t p w)) [
    | inl over ↦ rw over keeps
    | inr on ↦
        let before_end : leb t.end w.next_start ≡ false =
          is_early (ltb p.tested t.end) (leb t.end p.woken) (leb t.end w.next_start) on in
        let early : w.next_start < t.end = ground arith in
        let more = one_more w ahead early in
        rw on (
          after_answer-KeepsRate p.answer w
            (work_loop true interval t ps (succeed true interval t p w)) more
            (work_loop-KeepsRate ps (succeed true interval t p w) (succeed-IsAhead p w ahead) more))
  ]

module _ (N : Floats) (o : Options N) (t : Timing) (index : ℕ) (ps : List Pass) where
  -- A worker's attempts are its successes and its failures, of which there is one at most, and its
  -- latencies are no more than its successes. With a rate, if there are n attempts, its first start and
  -- n - 1 times the interval lie before the end of the run, whatever the clock and the server do: so the
  -- rate is never exceeded over the run, also after a delay.
  pub work-KeepsRate :
      Accounts (work N o t index ps)
      × (N.is_zero o.rate ≡ false
          → KeepsRate
              (t.begin + nanoseconds N (N.over (number N index) o.rate))
              (nanoseconds N (N.over (integer N o.connections) o.rate))
              t
              (work N o t index ps).attempts)
  unfolding work
  work-KeepsRate =
      let interval = nanoseconds N (N.over (integer N o.connections) o.rate) in
      (
        work_loop-Accounts (not (N.is_zero o.rate)) interval t ps _
            (record { accounted = refl; no_failure = refl; measured = omega arith }),
        λ rated. rw rated (
            work_loop-KeepsRate interval t
              (t.begin + nanoseconds N (N.over (number N index) o.rate)) ps
              (idle (t.begin + nanoseconds N (N.over (number N index) o.rate))) (omega arith)
              (inl refl)),
      )
