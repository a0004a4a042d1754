-- ===== src/Deploy/WorkerCpus/Launches.antt =====
-- When `main` of deploy/worker_cpus.py runs the server, and with which command.
use zhtps.Common.{
  ℕ, ◌≡◌, ◌↔◌, refl, sym, ap, ◌∙◌, Bool, true, false, not, ◌&&◌, List, [], ◌∷◌, ◌++◌, Option, none,
  some, String, if◌then◌else◌, Result, ok, err, Error, All, >>=-eq-ok, ok-injective, arith,
}
use zhtps.Deploy.WorkerCpus.Machine.{Machine}
use zhtps.Deploy.WorkerCpus.Suggest.{suggest, Mapping}
use zhtps.Deploy.WorkerCpus.Suggest.Sound.{IsMapping, suggest-IsMapping}
use zhtps.Deploy.WorkerCpus.Launch.{
  launch_arguments, launch_arguments_iff, sets_mapping, server_arguments,
}
use zhtps.Deploy.WorkerCpus.OptionNames.{SetsMapping, sets_mapping_iff}
use zhtps.Deploy.WorkerCpus.Main.{
  Command, Outcome, executed, refused, given, is_some, is_empty, caught_text, refused_with, caught,
  after_exec, shown, launch, main,
}

abbrev command_of : Outcome → List String
command_of (executed command) = command
command_of _ = []

refused_with-executed :
    (t : Option String) (e : Error) (c : List String) → refused_with t e ≡ executed c → ⊥
refused_with-executed none e c h = cc
refused_with-executed (some text) e c h = cc

caught-executed :
    (x : Result Outcome) (c : List String) → caught x ≡ executed c → x ≡ ok (executed c)
caught-executed (ok o) c h = ap ok h
caught-executed (err e) c h = absurd (refused_with-executed (caught_text e) e c h)

shown-executed : (json : Bool) (r : Mapping) (c : List String) → shown json r ≡ executed c → ⊥
shown-executed true r c h = cc
shown-executed false r c h = cc

after_exec-executed :
    (o : Option Error) (command c : List String)
    → after_exec o command ≡ ok (executed c)
    → (o ≡ none) × (command ≡ c)
after_exec-executed none command c h = (refl, ap command_of (ok-injective h))
after_exec-executed (some e) command c h = cc

launch-executed :
    (exec : List String → Option Error) (a : Command) (g : Option String) (r : Mapping)
    (c : List String)
    → launch exec a g r ≡ ok (executed c)
    → (name : String) × (g ≡ some name)
      × (launch_arguments r name a.arguments ≡ ok c)
      × (exec c ≡ none)
unfolding launch
launch-executed exec a none r c h = absurd (shown-executed a.json r c (ok-injective h))
launch-executed exec a (some name) r c h =
    let (command, made, last) =
      >>=-eq-ok (launch_arguments r name a.arguments) (λ d. after_exec (exec d) d) h in
    let (runs, same) = after_exec-executed (exec command) command c last in
    (name, refl, made ∙ ap ok same, ap exec (sym same) ∙ runs)

-- The server runs with this command: a name for it was given, the output as JSON was not asked for, and the
-- command is the name, the arguments of the mapping and those of the server, none of which sets the mapping.
abbrev pub IsLaunch :
    Machine → (List String → Option Error) → List ℕ → Command → List String → Type 0
IsLaunch m exec allowed a command =
    (a.json ≡ false)
    × ((name : String) × (r : Mapping) × (given a.executable ≡ some name)
        × (suggest m a.interface a.workers allowed ≡ ok r)
        × IsMapping m a.workers allowed r
        × All (λ argument. ¬ SetsMapping argument) (server_arguments a.arguments)
        × (command ≡ name ∷ r.arguments ++ server_arguments a.arguments)
        × (exec command ≡ none))

guard-executed :
    (b : Bool) (text : String) (o : Outcome) (c : List String)
    → (if b then refused text else o) ≡ executed c
    → (b ≡ false) × (o ≡ executed c)
guard-executed true text o c h = cc
guard-executed false text o c h = (refl, h)

no_json :
    (json : Bool) (g : Option String) (name : String)
    → (json && is_some g) ≡ false
    → g ≡ some name
    → json ≡ false
no_json json g name h e = grind arith

free_iff :
    (arguments : List String)
    → All (λ argument. sets_mapping argument ≡ false) arguments
      ↔ All (λ argument. ¬ SetsMapping argument) arguments
free_iff [] = (λ _. tt, λ _. tt)
free_iff (a ∷ more) =
    let one = sets_mapping_iff a in
    let rest = free_iff more in (λ (h, hs). (one.0 h, rest.0 hs), λ (h, hs). (one.1 h, rest.1 hs))

main_sound :
    (m : Machine) (exec : List String → Option Error) (allowed : List ℕ) (a : Command)
    (command : List String)
    → main m exec allowed a ≡ executed command
    → IsLaunch m exec allowed a command
unfolding main
main_sound m exec allowed a command h =
    let (one, h1) = guard-executed (a.json && is_some (given a.executable)) _ _ command h in
    let (served, h2) =
      guard-executed (not (is_empty a.arguments) && not (is_some (given a.executable))) _ _ command
        h1 in
    let (r, mapped, h3) =
      >>=-eq-ok (suggest m a.interface a.workers allowed) (launch exec a (given a.executable))
        (caught-executed _ command h2) in
    let (name, named, made, runs) = launch-executed exec a (given a.executable) r command h3 in
    let (free, same) = (launch_arguments_iff r name a.arguments command).0 made in
    (
      no_json a.json (given a.executable) name one named,
      (
        name,
        r,
        named,
        mapped,
        suggest-IsMapping m a.interface a.workers allowed r mapped,
        (free_iff (server_arguments a.arguments)).0 free,
        same,
        runs,
      ),
    )

no_guard : (b : Bool) (refusal o : Outcome) → (if b && false then refusal else o) ≡ o
no_guard true refusal o = refl
no_guard false refusal o = refl

main_complete :
    (m : Machine) (exec : List String → Option Error) (allowed : List ℕ) (a : Command)
    (command : List String)
    → IsLaunch m exec allowed a command
    → main m exec allowed a ≡ executed command
unfolding main launch
main_complete m exec allowed a command (plain, (name, r, named, mapped, _, free, same, runs)) =
    let made =
      (launch_arguments_iff r name a.arguments command).1
        ((free_iff (server_arguments a.arguments)).1 free, same) in
    rw (plain, named, mapped) (rw made (rw runs (no_guard (not (is_empty a.arguments)) _ _)))

-- With a parsed command line and any call that replaces the process, `main` runs the server with a command exactly if
-- JSON was not asked for, an executable was named, `suggest` returns a mapping, no server argument behind an optional
-- first `--` is `--workers` or `--worker-cpus` or goes on after one of them with an equals sign, the command is the
-- executable, the mapping's arguments and these server arguments, and the call raises nothing with it; the mapping then has one CPU for each worker, with the
-- placement that `suggest` promises.
pub main-IsLaunch :
    (m : Machine) (exec : List String → Option Error) (allowed : List ℕ) (a : Command)
    (command : List String)
    → (main m exec allowed a ≡ executed command) ↔ IsLaunch m exec allowed a command
main-IsLaunch m exec allowed a command =
    (main_sound m exec allowed a command, main_complete m exec allowed a command)
