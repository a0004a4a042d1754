-- ===== src/Bench/RemoteLoad/Agent.antt =====
-- `agent` of bench/remote_load.py: its commands, what it prepares for a run, and the loop that
-- supervises the load client. Times are in nanoseconds.
pub mod Prepare
pub mod Supervise
use text.Mathlib.Text.{◌==◌ as str_eq}
use zhtps.Common.{
  ℕ, suc, ◌+◌, ◌-◌, ◌*◌, ◌≡◌, refl, Bool, true, false, not, ◌&&◌, ◌||◌, leb, ltb, ◌==◌, List, [],
  ◌∷◌, ◌++◌, Option, none, some, String, ◌<>◌, if◌then◌else◌, Result, ok, err, Error, repr,
  value_error, runtime_error, timeout_error, require, ◌>>=◌, ◌>>◌, ℤ, pos, ◌+ℤ◌, ltb_ℤ, max_ℤ,
  eqb_ℤ, str, all, length,
}
use zhtps.Json.{Json}
use zhtps.Bench.RemoteLoad.Events.{Event, hello, clock, started, sample, result, error}

-- The command `run`. A file is a flag and its content in base 64.
pub record RunCommand : Type 0 where
  pub cpus : List ℕ
  pub binary : String
  pub arguments : List String
  pub connections : ℤ
  pub files : List (String × String)
  pub max_ns : ℕ
  pub heartbeat_ns : Option ℕ

pub data Command : Type 0 where
  ask_clock : Command
  run : RunCommand → Command
  unknown : Command

-- The host: its CPUs and limits, the file of the load client and the folder for its files, and what
-- base64 and the start of the client give.
pub record Host : Type 0 where
  pub identity : Json
  pub affinity : List ℕ
  pub soft : ℤ
  pub hard : ℤ
  pub resolve : String → String
  pub sha256 : String → Result String
  pub folder : String
  pub decode : String → Result (List ℕ)
  pub spawn : List String → Result Json

abbrev pub has : ℕ → List ℕ → Bool
has c [] = false
has c (x ∷ xs) = c == x || has c xs

abbrev is_empty : List ℕ → Bool
is_empty [] = true
is_empty (c ∷ cs) = false

abbrev pub needed : RunCommand → ℤ
needed c = c.connections +ℤ pos 256

abbrev without_first : String → String
without_first String.[] = ""
without_first (String.◌∷◌ c s) = s

abbrev pub is_workload_flag : String → Bool
is_workload_flag flag = str_eq flag "-request-body" || str_eq flag "-expect-body"

-- The arguments that the files add.
unfoldable pub file_arguments : Host → List (String × String) → Result (List String)
file_arguments h [] = ok []
file_arguments h ((flag, encoded) ∷ files) = do
  require (is_workload_flag flag) (value_error "unsupported workload file")
  content ← h.decode encoded
  require (leb (length content) 67_108_864) (value_error "workload file exceeds 64 MiB")
  more ← file_arguments h files
  ok (flag ∷ (h.folder <> "/" <> without_first flag) ∷ more)

-- What a run starts with: the soft limit that is set, and the client's command.
pub record Prepared : Type 0 where
  pub soft : ℤ
  pub command : List String

unfoldable pub prepare : Host → RunCommand → Result Prepared
unfolding file_arguments
prepare h c = do
  require (not (is_empty c.cpus) && all (λ cpu. has cpu h.affinity) c.cpus)
      (value_error "client CPU list is not available on this host")
  hash ← h.sha256 (h.resolve c.binary)
  require (not (ltb_ℤ h.hard (needed c)))
      (value_error "remote hard descriptor limit is below the requested client capacity")
  files ← file_arguments h c.files
  ok (record {
    soft = max_ℤ h.soft (needed c);
    command = h.resolve c.binary ∷ c.arguments ++ files;
  })

-- What sampling the client's process gives. If its files are gone, the client gets a tenth of a
-- second to end; the exception is raised again if it has not.
pub data Sampling : Type 0 where
  taken : Json → Sampling
  ended : Sampling
  raised : Error → Sampling

-- One round of the loop, in which the client was still running: is the agent to stop, the clocks at
-- the two tests, when the parent was last heard of, and the sample.
pub record Round : Type 0 where
  pub is_stopping : Bool
  pub now : ℕ
  pub later : ℕ
  pub last_contact : ℕ
  pub sampling : Sampling

abbrev pub heartbeat : Option ℕ → ℕ
heartbeat none = 15_000_000_000
heartbeat (some n) = n

-- `client` of the loop is running in each of the rounds, and then has ended.
abbrev pub after_sample : Sampling → List Event × Result (Unit {0}) → List Event × Result (Unit {0})
after_sample (taken v) (events, r) = (sample v ∷ events, r)
after_sample ended rest = ([], ok tt)
after_sample (raised e) rest = ([], err e)

unfoldable pub supervise : ℕ → ℕ → List Round → List Event × Result (Unit {0})
supervise limit deadline [] = ([], ok tt)
supervise limit deadline (r ∷ rs) =
    let rest = after_sample r.sampling (supervise limit deadline rs) in
    if r.is_stopping
    then ([], err (runtime_error "parent disconnected or cancelled the run"))
    else if ltb limit (r.now - r.last_contact)
    then ([], err (runtime_error "parent heartbeat expired"))
    else if leb deadline r.later
    then ([], err (timeout_error "remote client exceeded its run deadline"))
    else rest

-- The client's end: its exit code, the start of what it wrote to stderr, and its report.
pub record Finish : Type 0 where
  pub exit_code : ℤ
  pub diagnostics : String
  pub report_bytes : ℕ
  pub report : Result Json

-- The last event of a client that has ended.
unfoldable pub conclude : Finish → Result Event
conclude f = do
  require (leb f.report_bytes 16_777_216) (value_error "load report exceeds 16 MiB")
  if eqb_ℤ f.exit_code (pos 0)
      then (do report ← f.report; ok (result report))
      else ok (error ("load client exited " <> str f.exit_code <> ": " <> f.diagnostics))

-- The exception handler's event
abbrev pub or_error : Result Event → Event
or_error (ok event) = event
or_error (err e) = error (repr e)

abbrev pub end_of_run : Result (Unit {0}) → Finish → Result Event
end_of_run r f = do r; conclude f

-- From the start of the client on.
unfoldable pub run_client : RunCommand → ℕ → List Round → Finish → List Event
unfolding supervise conclude
run_client c begin rounds f =
    let (samples, r) = supervise (heartbeat c.heartbeat_ns) (begin + c.max_ns) rounds in
    samples ++ or_error (end_of_run r f) ∷ []

abbrev pub prepared_and_started : Host → RunCommand → Result Json
prepared_and_started h c = do p ← prepare h c; h.spawn p.command

abbrev pub or_failed : Result Json → List Event → List Event
or_failed (ok v) events = started v ∷ events
or_failed (err e) events = error (repr e) ∷ []

-- The commands in order: the clock is answered until a run comes; a closed input ends the agent.
unfoldable pub obey : Host → (RunCommand → List Event) → List (ℕ × Result Command) → List Event
unfolding prepare
obey h client [] = []
obey h client ((now, err e) ∷ commands) = error (repr e) ∷ []
obey h client ((now, ok ask_clock) ∷ commands) = clock now ∷ obey h client commands
obey h client ((now, ok unknown) ∷ commands) =
    error (repr (value_error "unsupported agent command")) ∷ []
obey h client ((now, ok (run c)) ∷ commands) = or_failed (prepared_and_started h c) (client c)

-- All that the agent emits, given its commands, the clock at each of them, and what its client does.
unfoldable pub agent : Host → List (ℕ × Result Command) → ℕ → List Round → Finish → List Event
unfolding obey run_client
agent h commands begin rounds f =
    hello h.identity ∷ obey h (λ c. run_client c begin rounds f) commands
