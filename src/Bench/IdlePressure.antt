-- ===== src/Bench/IdlePressure.antt =====
-- bench/idle_pressure_client.py: slots are filled with connections that stay idle, and then new ones are
-- offered. Times are in nanoseconds; the rate and the times in seconds are left out.
pub mod Tests
use zhtps.Common.{
  ℕ, zero, suc, ◌+◌, ◌-◌, Bool, true, false, ◌&&◌, List, [], ◌∷◌, map, Option, none, some, String,
  leb, min, length, if◌then◌else◌, Result, ok, err, os_error, assertion_error, index_error, ◌>>=◌,
  ◌>>◌, require,
}
use zhtps.Bench.Floats.{Floats, number, divide}
use zhtps.Bench.UploadClient.{natural}
use zhtps.Bench.KeepaliveClient.{Reply, good, invalid, failed, sorted, add_name, nth}

abbrev within : ℕ → ℕ → Bool
within n most = leb 1 n && leb n most

-- The responses of the connections that fill the slots: the first that is not right ends the client.
abbrev fill : List Reply → Result (Unit {0})
fill [] = ok tt
fill (good keeps ∷ replies) = fill replies
fill (invalid ∷ replies) = err (assertion_error "")
fill (failed name ∷ replies) = err (os_error name)

pub record Outcome : Type 0 where
  pub error : Option String
  pub elapsed : ℕ

abbrev error_of : Reply → Option String
error_of (good keeps) = none
error_of invalid = some "invalid_response"
error_of (failed name) = some name

abbrev request_new : Reply × ℕ → Outcome
request_new (reply, elapsed) = record { error = error_of reply; elapsed = elapsed }

abbrev pub successes_of : List Outcome → List ℕ
successes_of [] = []
successes_of (o ∷ os) =
    let rest = successes_of os in elim o.error [ none ↦ o.elapsed ∷ rest | some name ↦ rest ]

-- `collections.Counter`
abbrev pub failures_of : List Outcome → List (String × ℕ) → List (String × ℕ)
failures_of [] counts = counts
failures_of (o ∷ os) counts = elim o.error [
  | none ↦ failures_of os counts
  | some name ↦ failures_of os (add_name name counts)
]

-- What a look at an idle connection gives: nothing to read yet, bytes, its end, or a reset.
pub data Look : Type 0 where
  blocking bytes end reset : Look

abbrev is_closed : Look → Bool
is_closed blocking = false
is_closed bytes = false
is_closed end = true
is_closed reset = true

abbrev count_closed : List Look → ℕ
count_closed [] = 0
count_closed (l ∷ ls) = (if is_closed l then 1 else 0) + count_closed ls

module _ (N : Floats) where
  open N use {F, literal, times, truncate}

  pub record Pressure : Type 0 where
    pub offered : ℕ
    pub successes : ℕ
    pub failures : List (String × ℕ)
    pub success_p99_ms : Option F
    pub idle_connections_closed : ℕ
    pub outcomes : List Outcome

  abbrev late : List ℕ → Result (Option F)
  late [] = ok none
  late (x ∷ xs) = do
    let n = length (x ∷ xs)
    t ← nth (min (n - 1) (natural (truncate (times (number N n) (literal 99 100))))) (x ∷ xs)
    ms ← divide N (number N t) (number N 1_000_000)
    ok (some ms)

  abbrev pub pressure : List Outcome → List Look → Result Pressure
  pressure outcomes looks = do
    p99 ← late (sorted (successes_of outcomes))
    ok (record {
      offered = length outcomes;
      successes = length (sorted (successes_of outcomes));
      failures = failures_of outcomes [];
      success_p99_ms = p99;
      idle_connections_closed = count_closed looks;
      outcomes = outcomes;
    })

  -- What each idle connection gets and what a look at it gives in the end, and the replies to the new
  -- connections with their times; the options ask for as many of each as there are.
  unfoldable pub run : List (Reply × Look) → List (Reply × ℕ) → Result Pressure
  run idle offered = do
    require (within (length idle) 8192 && within (length offered) 1024) (assertion_error "")
    fill (map (λ (c : Reply × Look). c.0) idle)
    pressure (map request_new offered) (map (λ (c : Reply × Look). c.1) idle)
