-- ===== src/Bench/RemoteLoad/Collector.antt =====
-- `RemoteLoad` of bench/remote_load.py: its attributes, `collect`, `completed`, and a caller that polls.
-- Times are in nanoseconds.
pub mod Trace
pub mod Watch
use text.Mathlib.Text.{◌==◌ as str_eq}
use zhtps.Common.{
  ℕ, suc, ◌+◌, ◌-◌, ◌≡◌, refl, Bool, true, false, not, ◌&&◌, leb, List, [], ◌∷◌, ◌++◌, Option, none,
  some, String, ◌<>◌, if◌then◌else◌, Result, ok, err, runtime_error,
}
use zhtps.Json.{Json}
use zhtps.Bench.RemoteLoad.Events.{Event, hello, clock, started, sample, result, error, eof, other}

-- The attributes that `collect` reads and sets, and the number of heartbeats that were sent.
pub record Collector : Type 0 where
  pub samples : List Json
  pub start_event : Option Json
  pub result_event : Option Json
  pub failure : Option Event
  pub error_text : Option String
  pub last_heartbeat : ℕ
  pub heartbeats : ℕ

abbrev pub is_none {ℓ} : {A : Type ℓ} → Option A → Bool
is_none none = true
is_none (some _) = false

-- `if self.error`: an empty text is no error.
abbrev pub is_raised : Option String → Bool
is_raised none = false
is_raised (some text) = not (str_eq text "")

-- What is known of one poll: the clock when the heartbeat is due, the clock behind it, whether the
-- agent's input still takes it, and the events in the queue.
pub record Poll : Type 0 where
  pub now : ℕ
  pub later : ℕ
  pub is_open : Bool
  pub events : List Event

module _ (show : Event → String) where
  abbrev unexpected : Event → Collector → Collector
  unexpected event s = record s { error_text = some ("unexpected remote event: " <> show event) }

  -- The branches on `event["kind"]`
  abbrev pub handle : Event → Collector → Collector
  handle (sample v) s = record s { samples = s.samples ++ v ∷ [] }
  handle (result v) s = record s { result_event = some v }
  handle (error text) s = record s { failure = some (error text); error_text = some text }
  handle eof s =
      if is_none s.result_event && is_none s.error_text
      then record s { error_text = some "remote agent closed without a result" }
      else s
  handle (hello v) s = unexpected (hello v) s
  handle (clock n) s = unexpected (clock n) s
  handle (started v) s = unexpected (started v) s
  handle (other text) s = unexpected (other text) s

  -- The loop until the queue is empty
  unfoldable pub drain : List Event → Collector → Collector
  drain [] s = s
  drain (event ∷ events) s = drain events (handle event s)

  -- A heartbeat for each second of a run; a closed pipe is passed over.
  abbrev pub is_due : Poll → Collector → Bool
  is_due p s =
      not (is_none s.start_event)
      && is_none s.result_event
      && leb 1_000_000_000 (p.now - s.last_heartbeat)
      && p.is_open

  abbrev beat_if : Bool → Poll → Collector → Collector
  beat_if true p s = record s { last_heartbeat = p.later; heartbeats = suc s.heartbeats }
  beat_if false p s = s

  abbrev pub beat : Poll → Collector → Collector
  beat p s = beat_if (is_due p s) p s

  abbrev text_of : Option String → String
  text_of none = ""
  text_of (some text) = text

  abbrev pub raise_or_beat : Poll → Collector → Result (Unit {0}) × Collector
  raise_or_beat p s =
      if is_raised s.error_text
      then (err (runtime_error (text_of s.error_text)), s)
      else (ok tt, beat p s)

  unfoldable pub collect : Poll → Collector → Result (Unit {0}) × Collector
  unfolding drain
  collect p s = raise_or_beat p (drain p.events s)

  abbrev result_known : Result (Unit {0}) × Collector → Result Bool × Collector
  result_known (ok _, s) = (ok (not (is_none s.result_event)), s)
  result_known (err e, s) = (err e, s)

  unfoldable pub completed : Poll → Collector → Result Bool × Collector
  unfolding collect
  completed p s = result_known (collect p s)

  abbrev pub unless_completed :
      Result Bool × Collector → (Collector → Result Bool × Collector) → Result Bool × Collector
  unless_completed (ok false, s) again = again s
  unless_completed (ok true, s) again = (ok true, s)
  unless_completed (err e, s) again = (err e, s)

  -- The caller's loop, which polls until the run is completed; false if it is still going on.
  unfoldable pub watch : List Poll → Collector → Result Bool × Collector
  unfolding completed
  watch [] s = (ok false, s)
  watch (p ∷ ps) s = unless_completed (completed p s) (watch ps)
