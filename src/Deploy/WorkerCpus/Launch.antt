-- ===== src/Deploy/WorkerCpus/Launch.antt =====
-- `launch_arguments` of deploy/worker_cpus.py.
use zhtps.Common.{
  arith, ℕ, ◌≡◌, ◌↔◌, sym, refl, Bool, true, false, not, ◌&&◌, ◌||◌, List, [], ◌∷◌, ◌++◌, String,
  codes, ◌==◌, if◌then◌else◌, Result, ok, value_error, ◌>>◌, require, All, ok-injective,
  >>-eq-ok_iff, require_iff, ap,
}
use zhtps.Deploy.WorkerCpus.Suggest.{Mapping}

abbrev pub is_text : List ℕ → List ℕ → Bool
is_text [] [] = true
is_text (x ∷ xs) (y ∷ ys) = x == y && is_text xs ys
is_text _ _ = false

-- `argument.split('=', 1)[0]`
abbrev pub option_name : List ℕ → List ℕ
option_name [] = []
option_name (c ∷ s) = let rest = option_name s in if c == b'=' then [] else c ∷ rest

unfoldable pub sets_mapping : String → Bool
sets_mapping argument =
    is_text (option_name (codes argument)) (codes "--workers")
    || is_text (option_name (codes argument)) (codes "--worker-cpus")

-- The loop over the arguments
unfoldable pub refuse_mapping : List String → Result (Unit {0})
unfolding sets_mapping
refuse_mapping [] = ok tt
refuse_mapping (argument ∷ arguments) =
    require (not (sets_mapping argument))
      (value_error "set worker count on the launcher; worker mapping comes from NIC topology")
    >> refuse_mapping arguments

-- A leading `--` is dropped.
unfoldable pub server_arguments : List String → List String
server_arguments [] = []
server_arguments (argument ∷ arguments) =
    if is_text (codes argument) (codes "--") then arguments else argument ∷ arguments

unfoldable pub launch_arguments : Mapping → String → List String → Result (List String)
unfolding refuse_mapping server_arguments
launch_arguments result executable arguments = do
  refuse_mapping (server_arguments arguments)
  ok (executable ∷ result.arguments ++ server_arguments arguments)

refuse_mapping_iff :
    (arguments : List String)
    → (refuse_mapping arguments ≡ ok tt) ↔ All (λ a. sets_mapping a ≡ false) arguments
unfolding refuse_mapping
refuse_mapping_iff [] = (λ _. tt, λ _. refl)
refuse_mapping_iff (a ∷ more) =
    let e =
      value_error "set worker count on the launcher; worker mapping comes from NIC topology" in
    let steps = >>-eq-ok_iff (require (not (sets_mapping a)) e) (refuse_mapping more) tt in
    let free = refuse_mapping_iff more in
    (
      λ h. (
        ground (arith, (require_iff (not (sets_mapping a)) e).0 (steps.0 h).0),
        free.0 (steps.0 h).1,
      ),
      λ p. steps.1 ((require_iff (not (sets_mapping a)) e).1 (ap not (p.0)), free.1 (p.1)),
    )

-- `launch_arguments` returns a command exactly if no server argument, behind an optional first `--`,
-- is named `--workers` or `--worker-cpus`; the command is then the executable, the mapping's arguments
-- and these server arguments.
pub launch_arguments_iff :
    (r : Mapping) (executable : String) (arguments command : List String)
    → (launch_arguments r executable arguments ≡ ok command) ↔ (
        All (λ a. sets_mapping a ≡ false) (server_arguments arguments)
        × (command ≡ executable ∷ r.arguments ++ server_arguments arguments))
unfolding launch_arguments
launch_arguments_iff r executable arguments command =
    let steps =
      >>-eq-ok_iff (refuse_mapping (server_arguments arguments))
        (ok (executable ∷ r.arguments ++ server_arguments arguments)) command in
    let free = refuse_mapping_iff (server_arguments arguments) in
    (
      λ h. (free.0 (steps.0 h).0, sym (ok-injective (steps.0 h).1)),
      λ p. steps.1 (free.1 (p.0), ap ok (sym p.1)),
    )
