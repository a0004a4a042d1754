-- ===== src/Bench/Overload/Report.antt =====
-- The report that a run of bench/overload.py writes, and how the run ends.
use Prim.Native.Char.{Char, code}
use zhtps.Common.{
  ℕ, List, [], ◌∷◌, Option, none, some, String, ◌==◌, length, if◌then◌else◌, Result, ok, err, Error,
  repr, value_error, ◌>>=◌, ◌>>◌, require, ℤ,
}
use zhtps.Bench.Floats.{Floats}
use zhtps.Bench.SummarizeOverload.{Table, Sample, Load}
use zhtps.Bench.Overload.Loops.{StartRound, wait_ports, Tick, sampling, Ending, phases_of}

abbrev onto_first : Char → List String → List String
onto_first c [] = (String.◌∷◌ c "") ∷ []
onto_first c (w ∷ ws) = (String.◌∷◌ c w) ∷ ws

-- `text.split(",")`
unfoldable pub split_text : String → List String
split_text String.[] = "" ∷ []
split_text (String.◌∷◌ c s) =
    let rest = split_text s in if code c == b',' then "" ∷ rest else onto_first c rest

module _ (N : Floats) where
  abbrev pub relabel : List (Load N) → List String → List (Load N)
  relabel (p ∷ ps) (l ∷ ls) = record p { label = some l } ∷ relabel ps ls
  relabel [] ls = []
  relabel (p ∷ ps) [] = []

  abbrev pub labelled_by : List String → List (Load N) → Result (List (Load N))
  labelled_by labels ps = do
    require (length labels == length ps) (value_error "phase label count does not match")
    ok (relabel ps labels)

  abbrev pub labelled : Option String → List (Load N) → Result (List (Load N))
  labelled none ps = ok ps
  labelled (some String.[]) ps = ok ps
  labelled (some (String.◌∷◌ c s)) ps = labelled_by (split_text (String.◌∷◌ c s)) ps

  -- What the run meets: starting the server, the wait for it, the first samples of its configuration,
  -- starting the client on its ports, the rounds, the client's end, the last samples, and the exit
  -- code of the server, if it was started, after it has been stopped.
  pub record Outside : Type 0 where
    pub spawned : Result (Unit {0})
    pub startup : List StartRound
    pub first_samples : Result (Unit {0})
    pub client_started : ℕ → Result (Unit {0})
    pub ticks : List (Tick N)
    pub ending : Ending N
    pub last_samples : Result (Unit {0})
    pub kernel_before : Table ℕ
    pub kernel_after : Table ℕ
    pub exit_code : ℤ

  -- The report, as it is written at the end.
  pub record Report : Type 0 where
    pub status : String
    pub error : Option String
    pub samples : List (Sample N)
    pub phases : Option (List (Load N))
    pub kernel_before : Table ℕ
    pub kernel_after : Option (Table ℕ)
    pub server_exit : Option ℤ

  unfoldable pub start_all : Outside → Result (Unit {0})
  unfolding wait_ports
  start_all x = do
    (public, admin) ← wait_ports (record { public = none; admin = none }) x.startup
    x.first_samples
    x.client_started public

  -- From the client's end to the last samples: the phases, and how this ends.
  unfoldable pub finish : Option String → Outside → Result (List (Load N))
  unfolding split_text
  finish labels x = do ps ← phases_of N x.ending; labelled labels ps

  abbrev pub exit_of : Result (Unit {0}) → ℤ → Option ℤ
  exit_of (ok _) code = some code
  exit_of (err e) code = none

  abbrev pub failed :
      Outside → List (Sample N) → Option (List (Load N)) → Error → Report × Result (Unit {0})
  failed x samples phases e = (
    record {
      status = "failed";
      error = some (repr e);
      samples = samples;
      phases = phases;
      kernel_before = x.kernel_before;
      kernel_after = none;
      server_exit = exit_of x.spawned x.exit_code;
    },
    err e,
  )

  abbrev pub complete : Outside → List (Sample N) → List (Load N) → Report × Result (Unit {0})
  complete x samples phases = (
    record {
      status = "complete";
      error = none;
      samples = samples;
      phases = some phases;
      kernel_before = x.kernel_before;
      kernel_after = some x.kernel_after;
      server_exit = exit_of x.spawned x.exit_code;
    },
    ok tt,
  )

  -- The phases that a failed run may have recorded before the labels did not fit.
  abbrev pub recorded : Result (List (Load N)) → Option (List (Load N))
  recorded (ok ps) = some ps
  recorded (err e) = none

  abbrev pub after_last :
      Outside → List (Sample N) → List (Load N) → Result (Unit {0}) → Report × Result (Unit {0})
  after_last x samples ps (ok _) = complete x samples ps
  after_last x samples ps (err e) = failed x samples (some ps) e

  abbrev pub after_finish :
      Outside → List (Sample N) → Result (List (Load N)) → Report × Result (Unit {0})
  after_finish x samples (ok ps) = after_last x samples ps x.last_samples
  after_finish x samples (err e) = failed x samples (recorded (phases_of N x.ending)) e

  abbrev pub after_sampling :
      Option String → Outside → List (Sample N) × Result (Unit {0}) → Report × Result (Unit {0})
  after_sampling labels x (samples, ok _) = after_finish x samples (finish labels x)
  after_sampling labels x (samples, err e) = failed x samples none e

  abbrev pub after_start : Option String → Outside → Result (Unit {0}) → Report × Result (Unit {0})
  after_start labels x (ok _) = after_sampling labels x (sampling N x.ticks)
  after_start labels x (err e) = failed x [] none e

  -- The run: the report that is written, and what is raised after that.
  unfoldable pub run : Option String → Outside → Report × Result (Unit {0})
  unfolding start_all sampling finish
  run labels x = after_start labels x (x.spawned >> start_all x)
