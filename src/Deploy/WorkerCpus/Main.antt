-- ===== src/Deploy/WorkerCpus/Main.antt =====
-- `main` of deploy/worker_cpus.py, after its command line is parsed: it prints the mapping or runs the
-- server with it. The call that replaces the process is a parameter: the exception that it raises, or
-- nothing if the server runs.
use zhtps.Common.{
  ℕ, ℤ, Bool, true, false, not, ◌&&◌, List, [], ◌∷◌, Option, none, some, String, ◌<>◌,
  if◌then◌else◌, Result, ok, err, Error, value_error, os_error, timeout_error, ◌>>=◌,
}
use zhtps.Deploy.WorkerCpus.Machine.{Machine}
use zhtps.Deploy.WorkerCpus.Suggest.{suggest, Mapping}
use zhtps.Deploy.WorkerCpus.Launch.{launch_arguments}

pub record Command : Type 0 where
  pub interface : String
  pub workers : ℤ
  pub json : Bool
  pub executable : Option String
  pub arguments : List String

pub data Outcome : Type 0 where
  refused : String → Outcome
  raised : Error → Outcome
  executed : List String → Outcome
  printed_json : Mapping → Outcome
  printed : String → Outcome

-- An executable with an empty name counts as none.
abbrev pub given : Option String → Option String
given none = none
given (some String.[]) = none
given (some (String.◌∷◌ c name)) = some (String.◌∷◌ c name)

abbrev pub is_some : Option String → Bool
is_some none = false
is_some (some name) = true

abbrev pub is_empty : List String → Bool
is_empty [] = true
is_empty (argument ∷ arguments) = false

-- `' '.join(texts)`
abbrev joined : String → List String → String
joined text [] = text
joined text (t ∷ ts) = joined (text <> " " <> t) ts

abbrev spaced : List String → String
spaced [] = ""
spaced (t ∷ ts) = joined t ts

-- The text of an OSError or a ValueError.
abbrev pub caught_text : Error → Option String
caught_text (value_error text) = some text
caught_text (os_error text) = some text
caught_text (timeout_error text) = some text
caught_text _ = none

abbrev pub refused_with : Option String → Error → Outcome
refused_with none e = raised e
refused_with (some text) e = refused text

abbrev pub caught : Result Outcome → Outcome
caught (ok o) = o
caught (err e) = refused_with (caught_text e) e

abbrev pub after_exec : Option Error → List String → Result Outcome
after_exec none command = ok (executed command)
after_exec (some e) command = err e

abbrev pub shown : Bool → Mapping → Outcome
shown json r = if json then printed_json r else printed (spaced r.arguments)

unfoldable pub launch :
    (List String → Option Error) → Command → Option String → Mapping → Result Outcome
launch exec a none r = ok (shown a.json r)
launch exec a (some executable) r = do
  command ← launch_arguments r executable a.arguments
  after_exec (exec command) command

-- The process may run on the CPUs `allowed`.
unfoldable pub main : Machine → (List String → Option Error) → List ℕ → Command → Outcome
unfolding launch
main m exec allowed a =
    if a.json && is_some (given a.executable)
    then refused "--json and --exec are mutually exclusive"
    else if not (is_empty a.arguments) && not (is_some (given a.executable))
    then refused "server arguments require --exec"
    else caught (suggest m a.interface a.workers allowed >>= launch exec a (given a.executable))
