-- ===== src/Bench/Overload/Loops.antt =====
-- The loops of a run in bench/overload.py: the wait for the server and the sampling, and the client's end.
use Prim.Native.Char.{code}
use zhtps.Common.{
  ℕ, Bool, true, false, not, List, [], ◌∷◌, map, Option, none, some, String, ◌<>◌, if◌then◌else◌,
  Result, ok, err, Error, value_error, os_error, timeout_error, runtime_error, key_error,
  http_exception, index_error, zero_division_error, assertion_error, usage_error, out_of_fuel,
  ◌>>=◌, ◌>>◌, require, ℤ, pos, ◌+ℤ◌, eqb_ℤ, str,
}
use zhtps.Bench.Floats.{Floats}
use zhtps.Bench.SummarizeOverload.{Counters, Sample, Load}

-- An event of the server's log.
pub data LogEvent : Type 0 where
  listening admin_listening : ℕ → LogEvent
  other : LogEvent

-- A round of the wait for the server: the log if the server has left, the events so far, and whether
-- the deadline is past.
pub record StartRound : Type 0 where
  pub left : Option String
  pub events : List LogEvent
  pub is_late : Bool

pub record Ports : Type 0 where
  pub public : Option ℕ
  pub admin : Option ℕ

abbrev note_event : Ports → LogEvent → Ports
note_event p (listening n) = record p { public = some n }
note_event p (admin_listening n) = record p { admin = some n }
note_event p other = p

abbrev pub note_events : Ports → List LogEvent → Ports
note_events p [] = p
note_events p (e ∷ es) = note_events (note_event p e) es

abbrev pub both : Ports → Option (ℕ × ℕ)
both p = pair p.public p.admin
  where
    pair : Option ℕ → Option ℕ → Option (ℕ × ℕ)
    pair (some a) (some b) = some (a, b)
    pair _ _ = none

abbrev pub check_left : Option String → Result (Unit {0})
check_left none = ok tt
check_left (some log) = err (runtime_error ("server exited: " <> log))

abbrev start_round : Ports → StartRound → Result Ports
start_round p r = do
  check_left r.left
  require (not r.is_late) (timeout_error "startup")
  ok (note_events p r.events)

-- The wait: the public and the admin port. The rounds that are given are those that take place.
unfoldable pub wait_ports : Ports → List StartRound → Result (ℕ × ℕ)
wait_ports p [] = elim (both p) [ some ports ↦ ok ports | none ↦ err out_of_fuel ]
wait_ports p (r ∷ rs) = elim (both p) [
  | some ports ↦ ok ports
  | none ↦ start_round p r >>= λ p'. wait_ports p' rs
]

-- The exceptions that the admin connection may raise without ending the run; TimeoutError is an OSError.
abbrev pub is_admin_failure : Error → Bool
is_admin_failure (os_error text) = true
is_admin_failure (timeout_error text) = true
is_admin_failure (runtime_error text) = true
is_admin_failure (http_exception text) = true
is_admin_failure (value_error text) = false
is_admin_failure (key_error text) = false
is_admin_failure (index_error text) = false
is_admin_failure (zero_division_error text) = false
is_admin_failure (assertion_error text) = false
is_admin_failure (usage_error text) = false
is_admin_failure out_of_fuel = false

module _ (N : Floats) where
  open N use {F}

  -- A round of the loop that samples, in which the client was still running: what is read of the
  -- processes and the kernel, the metrics of the server, and whether the server has left.
  pub record Tick : Type 0 where
    pub reading : Result (Sample N)
    pub metrics : Result Counters
    pub has_left : Bool

  abbrev pub sample_of : Sample N → Result Counters → Result (Sample N)
  sample_of s (ok c) = ok (record s { counters = some c; admin_error = false })
  sample_of s (err e) =
      if is_admin_failure e then ok (record s { counters = none; admin_error = true }) else err e

  abbrev pub add_sample :
      Sample N → List (Sample N) × Result (Unit {0}) → List (Sample N) × Result (Unit {0})
  add_sample s (samples, r) = (s ∷ samples, r)

  abbrev pub after_sample :
      Result (Sample N)
      → Bool
      → List (Sample N) × Result (Unit {0})
      → List (Sample N) × Result (Unit {0})
  after_sample (err e) left rest = ([], err e)
  after_sample (ok s) true rest = (s ∷ [], err (runtime_error "server exited during load"))
  after_sample (ok s) false rest = add_sample s rest

  -- The loop: the samples, and how it ends; the client has ended after the last round.
  unfoldable pub sampling : List Tick → List (Sample N) × Result (Unit {0})
  sampling [] = ([], ok tt)
  sampling (t ∷ ts) =
      after_sample (t.reading >>= λ s. sample_of s t.metrics) t.has_left (sampling ts)

  -- The end of the client: on another host, what the last collection gives, the exit code, the phases
  -- by the client's clock and its offset; here, the exit code, the client's log and the phases.
  pub data Ending : Type 0 where
    remote_end : Result (Unit {0}) → ℤ → Result (List (Load N)) → ℤ → Ending
    local_end : ℤ → String → Result (List (Load N)) → Ending

  abbrev pub shift : ℤ → Load N → Load N
  shift offset p = record p {
    start_unix_ns = p.start_unix_ns +ℤ offset;
    end_unix_ns = p.end_unix_ns +ℤ offset;
  }

  abbrev pub phases_of : Ending → Result (List (Load N))
  phases_of (remote_end collected code phases offset) = do
    collected
    require (eqb_ℤ code (pos 0)) (runtime_error ("remote collector exited " <> str code))
    ps ← phases
    ok (map (shift offset) ps)
  phases_of (local_end code log phases) = do
    require (eqb_ℤ code (pos 0)) (runtime_error ("client exited: " <> log))
    phases
