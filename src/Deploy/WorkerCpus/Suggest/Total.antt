-- ===== src/Deploy/WorkerCpus/Suggest/Total.antt =====
-- How `suggest` ends once it has read the topology.
use zhtps.Common.{
  ℕ, ◌≡◌, ◌⊎◌, ◌<◌, inl, inr, List, [], String, ℤ, Result, ok, err, Error, check_all_iff, AllPass,
  arith,
}
use zhtps.Deploy.WorkerCpus.Machine.{Machine, siblings}
use zhtps.Deploy.WorkerCpus.Select.{too_few}
use zhtps.Deploy.WorkerCpus.Select.Total.{Raises, Outcome, select_from-Outcome}
use zhtps.Deploy.WorkerCpus.Suggest.{
  Topology, read_topology, refuse_rps, argument_checks, choose, groups, count, suggest, mapping,
  Mapping,
}

choose-Outcome :
    (m : Machine) (workers : ℕ) (allowed : List ℕ) (t : Topology)
    → Outcome (siblings m) workers (choose m workers allowed t)
unfolding choose
choose-Outcome m workers allowed t =
    select_from-Outcome (siblings m) workers workers (groups t allowed)
      (record { selected = []; used = t.excluded }) (omega arith)

-- A mapping, too few CPUs, or an exception of reading the siblings of some CPU.
abbrev pub Ending : Machine → ℕ → Result Mapping → Type 0
Ending m workers result =
    ((r : Mapping) × (result ≡ ok r))
    ⊎ ((k : ℕ) × (k < workers) × (result ≡ err (too_few (siblings m) workers k)))
    ⊎ ((e : Error) × Raises (siblings m) workers e × (result ≡ err e))

-- If the arguments are in order, receive packet steering is off and the topology can be read,
-- `suggest` ends, within as many rounds as there are workers, in a mapping, in the error that only k
-- CPUs are there with k below the number of workers, or in an exception of reading some CPU's siblings.
pub suggest-Ending :
    (m : Machine) (interface : String) (workers : ℤ) (allowed : List ℕ) (t : Topology)
    → AllPass (argument_checks m interface workers)
    → refuse_rps m.rps_cpus ≡ ok tt
    → read_topology m ≡ ok t
    → Ending m (count workers) (suggest m interface workers allowed)
unfolding suggest
suggest-Ending m interface workers allowed t passed off read =
    let checked = (check_all_iff (argument_checks m interface workers)).1 passed in
    elim (choose-Outcome m (count workers) allowed t) [
      | inl (chosen, e) ↦
          inl (mapping interface workers allowed t chosen, rw (checked, off, read, e))
      | inr (inl (k, few, e)) ↦ inr (inl (k, few, rw (checked, off, read, e)))
      | inr (inr (x, raised, e)) ↦ inr (inr (x, raised, rw (checked, off, read, e)))
    ]
