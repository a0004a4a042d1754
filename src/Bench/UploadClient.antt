-- ===== src/Bench/UploadClient.antt =====
-- bench/upload_client.py: closed-loop uploads. Here is the loop of a worker, which may be capped to a rate,
-- and the result of all workers. Times are clock readings in nanoseconds.
pub mod Pacing
pub mod Queues
pub mod Tests
use zhtps.Common.{
  ℕ, suc, zero, ◌+◌, ◌-◌, ◌*◌, ◌≡◌, refl, Bool, true, false, not, ◌&&◌, ◌||◌, List, [], ◌∷◌, ◌++◌,
  Option, none, some, String, ltb, leb, ◌==◌, min, max, length, if◌then◌else◌, Result, ok, err,
  repr, assertion_error, index_error, ◌>>=◌, ◌>>◌, require, ℤ, pos, negsuc, ◌+ℤ◌, between, leb_ℤ,
}
use zhtps.Bench.Floats.{Floats, number, integer, divide}

pub data QueueMode : Type 0 where
  hash distinct pair : QueueMode

abbrev pub is_hash : QueueMode → Bool
is_hash hash = true
is_hash distinct = false
is_hash pair = false

abbrev is_pair : QueueMode → Bool
is_pair hash = false
is_pair distinct = false
is_pair pair = true

-- The priority of a connection's socket.
unfoldable pub queue_priority : QueueMode → ℕ → ℕ
queue_priority mode index =
    if is_pair mode && index == 1 then 1 else if is_hash mode then 0 else suc index

-- The times of a run: its begin, and the window that is measured.
pub record Timing : Type 0 where
  pub begin : ℕ
  pub start : ℕ
  pub end : ℕ

-- A round of the loop: the clock at its test, after its sleep, before the request and after the
-- response, and whether the request gave the expected response.
pub record Pass : Type 0 where
  pub tested : ℕ
  pub woken : ℕ
  pub started : ℕ
  pub answer : Result (Unit {0})
  pub finished : ℕ

-- What a worker has recorded, and when its next request may start.
pub record Worker : Type 0 where
  pub next_start : ℕ
  pub attempts : ℕ
  pub successes : ℕ
  pub failures : List String
  pub latencies : List ℕ

abbrev pub in_window : Timing → ℕ → Bool
in_window t finished = leb t.start finished && ltb finished t.end

-- A late client goes on at its rate.
abbrev pub later : Bool → ℕ → ℕ → ℕ → ℕ
later is_rated interval next finished = if is_rated then max (next + interval) finished else next

abbrev pub succeed : Bool → ℕ → Timing → Pass → Worker → Worker
succeed is_rated interval t p w = record {
  next_start = later is_rated interval w.next_start p.finished;
  attempts = suc w.attempts;
  successes = suc w.successes;
  failures = w.failures;
  latencies =
      if in_window t p.finished then w.latencies ++ (p.finished - p.started) ∷ [] else w.latencies;
}

abbrev pub fail : String → Worker → Worker
fail text w = record w { attempts = suc w.attempts; failures = w.failures ++ text ∷ [] }

-- A failure ends the loop.
abbrev pub after_answer : Result (Unit {0}) → Worker → Worker → Worker
after_answer (err e) w rest = fail (repr e) w
after_answer (ok _) w rest = rest

abbrev pub ends : Bool → Timing → Pass → Worker → Bool
ends is_rated t p w =
    not (ltb p.tested t.end) || (is_rated && (leb t.end w.next_start || leb t.end p.woken))

-- The loop; it ends with the rounds that are given, if not before. An interval is the time that all
-- connections take at the rate for a request each.
unfoldable pub work_loop : Bool → ℕ → Timing → List Pass → Worker → Worker
work_loop is_rated interval t [] w = w
work_loop is_rated interval t (p ∷ ps) w =
    let rest = work_loop is_rated interval t ps (succeed is_rated interval t p w) in
    let request = after_answer p.answer w rest in if ends is_rated t p w then w else request

abbrev pub idle : ℕ → Worker
idle first = record {
  next_start = first;
  attempts = 0;
  successes = 0;
  failures = [];
  latencies = [];
}

abbrev insert : ℕ → List ℕ → List ℕ
insert x [] = x ∷ []
insert x (y ∷ ys) = let after = insert x ys in if ltb x y then x ∷ y ∷ ys else y ∷ after

abbrev sorted : List ℕ → List ℕ
sorted [] = []
sorted (x ∷ xs) = insert x (sorted xs)

abbrev pub all_latencies : List Worker → List ℕ
all_latencies [] = []
all_latencies (w ∷ ws) = w.latencies ++ all_latencies ws

abbrev pub has_failures : List Worker → Bool
has_failures [] = false
has_failures (w ∷ ws) = not (length w.failures == 0) || has_failures ws

abbrev nth : ℕ → List ℕ → Result ℕ
nth n [] = err (index_error "list index out of range")
nth zero (x ∷ xs) = ok x
nth (suc n) (x ∷ xs) = nth n xs

-- Cut off at zero: a rate is positive, and no clock shows a time before the begin.
abbrev pub natural : ℤ → ℕ
natural (pos n) = n
natural (negsuc n) = 0

module _ (N : Floats) where
  open N use {F, literal, plus, times, over, is_below, is_zero, truncate}

  pub record Options : Type 0 where
    pub connections : ℤ
    pub warmup : F
    pub duration : F
    pub rate : F
    pub queue_mode : QueueMode
    pub is_probing : Bool

  -- The assertions on the options and the size of the body.
  unfoldable pub check_options : Options → ℕ → Result (Unit {0})
  check_options o body = do
    require (ltb 0 body && leb body 8_388_608 && between 1 256 o.connections) (assertion_error "")
    require (is_zero o.rate || is_below (number N 0) o.rate) (assertion_error "")
    require (is_hash o.queue_mode || leb_ℤ o.connections (pos 6)) (assertion_error "")
    require (not o.is_probing || is_hash o.queue_mode) (assertion_error "")

  abbrev pub nanoseconds : F → ℕ
  nanoseconds seconds = natural (truncate (times seconds (number N 1_000_000_000)))

  abbrev pub timing : Options → ℕ → Timing
  timing o now = record {
    begin = now;
    start = now + nanoseconds o.warmup;
    end = now + nanoseconds (plus o.warmup o.duration);
  }

  -- A worker, from its index and its rounds.
  unfoldable pub work : Options → Timing → ℕ → List Pass → Worker
  unfolding work_loop
  work o t index ps =
      let is_rated = not (is_zero o.rate) in
      let offset : ℕ = if is_rated then nanoseconds (over (number N index) o.rate) else 0 in
      work_loop is_rated (nanoseconds (over (integer N o.connections) o.rate)) t ps
        (idle (t.begin + offset))

  pub record Outcome : Type 0 where
    pub window_successes : ℕ
    pub validated_body_bytes : ℕ
    pub goodput_bytes_per_second : F
    pub service_p99_ms : Option F
    pub workers : List Worker

  abbrev percentile : List ℕ → Result (Option F)
  percentile [] = ok none
  percentile (x ∷ xs) = do
    let n = length (x ∷ xs)
    y ← nth (min (n - 1) (natural (truncate (times (literal 99 100) (number N n))))) (x ∷ xs)
    ok (some (over (number N y) (number N 1_000_000)))

  -- The result that is printed, and the exit code.
  unfoldable pub conclude : Options → ℕ → List Worker → Result (Outcome × Bool)
  conclude o body workers = do
    let latencies = sorted (all_latencies workers)
    goodput ← divide N (number N (length latencies * body)) o.duration
    p99 ← percentile latencies
    ok (
      record {
        window_successes = length latencies;
        validated_body_bytes = length latencies * body;
        goodput_bytes_per_second = goodput;
        service_p99_ms = p99;
        workers = workers;
      },
      has_failures workers,
    )
