-- ===== src/Deploy/WorkerCpus/Suggest.antt =====
-- `suggest` of deploy/worker_cpus.py.
pub mod Sound
pub mod Total
use zhtps.Common.{
  ℕ, zero, suc, ◌≡◌, refl, Bool, true, false, not, ◌&&◌, ◌||◌, List, [], ◌∷◌, map, Option, none,
  some, String, ◌<>◌, leb, ltb, ◌==◌, if◌then◌else◌, ℤ, pos, negsuc, leb_ℤ, ltb_ℤ, between, str_ℕ,
  str, Result, ok, err, value_error, ◌>>=◌, ◌>>◌, require, map_result, check_all, Error, codes,
  eqb_ℤ,
}
use zhtps.Deploy.WorkerCpus.CpuSet.{member, union, intersection, filter_by}
use zhtps.Deploy.WorkerCpus.CpuList.{cpu_list}
use zhtps.Deploy.WorkerCpus.Machine.{Machine, is_device_name, to_ℤ, is_nonzero_mask, siblings, l3}
use zhtps.Deploy.WorkerCpus.Select.{Choice, select_from}

-- The dictionary that `suggest` returns.
pub record Mapping : Type 0 where
  pub interface : String
  pub irq_affinity : List (String × List ℕ)
  pub excluded_irq_siblings : List ℕ
  pub allowed_online_cpus : List ℕ
  pub worker_cpus : List ℕ
  pub arguments : List String

-- The loop over the receive queues: packet steering must be off.
abbrev pub refuse_rps : List (Result (List ℕ)) → Result (Unit {0})
refuse_rps [] = ok tt
refuse_rps (mask ∷ masks) = do
  text ← mask
  enabled ← is_nonzero_mask text
  require (not enabled) (
      value_error "RPS is enabled; measure its processing CPUs before choosing an explicit mapping")
  refuse_rps masks

abbrev insert_irq : ℤ → List ℤ → List ℤ
insert_irq n [] = n ∷ []
insert_irq n (m ∷ ms) = let rest = insert_irq n ms in if leb_ℤ n m then n ∷ m ∷ ms else m ∷ rest

abbrev sort_irqs : List ℤ → List ℤ
sort_irqs [] = []
sort_irqs (n ∷ ns) = insert_irq n (sort_irqs ns)

-- `device/irq` stands in where the device has no message-signalled interrupts.
abbrev read_device_irq : Option (Result (List ℕ)) → Result (List ℤ)
read_device_irq none = ok []
read_device_irq (some file) = do
  text ← file
  irq ← to_ℤ text
  ok (if ltb_ℤ (pos 0) irq then irq ∷ [] else [])

abbrev or_device_irq : Machine → List ℤ → Result (List ℤ)
or_device_irq m [] = read_device_irq m.device_irq
or_device_irq m (irq ∷ irqs) = ok (irq ∷ irqs)

abbrev is_empty {ℓ} : {A : Type ℓ} → List A → Bool
is_empty [] = true
is_empty (x ∷ xs) = false

-- The interrupts of the interface, of which there is at least one. The names in `msi_irqs` are
-- distinct numbers.
unfoldable pub nic_irqs : Machine → Result (List ℤ)
unfolding to_ℤ
nic_irqs m = do
  names ← map_result to_ℤ m.msi_irqs
  irqs ← or_device_irq m (sort_irqs names)
  require (not (is_empty irqs))
      (value_error "no physical NIC IRQs found; use an explicit mapping for virtual interfaces")
  ok irqs

-- One entry of `effective`
unfoldable pub effective_cpus : Machine → List ℕ → ℤ → Result (String × List ℕ)
effective_cpus m online irq = do
  text ← m.affinity irq
  listed ← cpu_list text
  require (not (is_empty (intersection listed online)))
      (value_error ("IRQ " <> str irq <> " has no effective online CPU"))
  ok (str irq, intersection listed online)

-- `set().union(*sets)`
unfoldable pub unions : List (List ℕ) → List ℕ
unions [] = []
unions (s ∷ ss) = union s (unions ss)

abbrev pub is_same_set : List ℕ → List ℕ → Bool
is_same_set [] [] = true
is_same_set (x ∷ xs) (y ∷ ys) = x == y && is_same_set xs ys
is_same_set _ _ = false

-- A domain is put before those with a greater first CPU, once.
abbrev pub insert_domain : List ℕ → List (List ℕ) → List (List ℕ)
insert_domain d [] = d ∷ []
insert_domain [] (e ∷ es) = [] ∷ e ∷ es
insert_domain (x ∷ d) ([] ∷ es) = let rest = insert_domain (x ∷ d) es in [] ∷ rest
insert_domain (x ∷ d) ((y ∷ e) ∷ es) =
    let rest = insert_domain (x ∷ d) es in
    if is_same_set (x ∷ d) (y ∷ e)
    then (y ∷ e) ∷ es
    else if ltb x y
    then (x ∷ d) ∷ (y ∷ e) ∷ es
    else (y ∷ e) ∷ rest

-- `sorted({…}, key=lambda domain: min(domain))`, where `min` refuses an empty domain
unfoldable pub sort_domains : List (List ℕ) → Result (List (List ℕ))
sort_domains [] = ok []
sort_domains ([] ∷ ds) = err (value_error "min() iterable argument is empty")
sort_domains ((x ∷ d) ∷ ds) = do es ← sort_domains ds; ok (insert_domain (x ∷ d) es)

-- `set(allowed) & online & set(range(1024)) - excluded`
unfoldable pub candidates : List ℕ → List ℕ → List ℕ → List ℕ
candidates allowed online excluded =
    filter_by (λ c. ltb c 1024 && not (member c excluded)) (intersection allowed online)

pub record Topology : Type 0 where
  pub online : List ℕ
  pub effective : List (String × List ℕ)
  pub excluded : List ℕ
  pub domains : List (List ℕ)

-- `set().union(*(set(cpus) for cpus in effective.values()))`
unfoldable pub irq_cpus : List (String × List ℕ) → List ℕ
unfolding unions
irq_cpus effective = unions (map (λ entry. entry.1) effective)

-- What is read before the workers are chosen. Sets are gone through from their first CPU.
unfoldable pub read_topology : Machine → Result Topology
unfolding nic_irqs effective_cpus irq_cpus siblings l3 sort_domains
read_topology m = do
  irqs ← nic_irqs m
  text ← m.online
  online ← cpu_list text
  effective ← map_result (effective_cpus m online) irqs
  taken ← map_result (siblings m) (irq_cpus effective)
  shared ← map_result (l3 m) (irq_cpus effective)
  domains ← sort_domains shared
  ok (record { online = online; effective = effective; excluded = unions taken; domains = domains })

unfoldable pub groups : Topology → List ℕ → List (List ℕ)
unfolding candidates
groups t allowed =
    map (λ domain. intersection domain (candidates allowed t.online t.excluded)) t.domains

-- The number of an integer that is not negative.
abbrev pub count : ℤ → ℕ
count (pos n) = n
count (negsuc n) = 0

unfoldable pub choose : Machine → ℕ → List ℕ → Topology → Result Choice
unfolding groups select_from siblings
choose m workers allowed t =
    select_from (siblings m) workers workers (groups t allowed)
      (record { selected = []; used = t.excluded })

abbrev joined : String → List ℕ → String
joined text [] = text
joined text (c ∷ cs) = joined (text <> "," <> str_ℕ c) cs

abbrev join_cpus : List ℕ → String
join_cpus [] = ""
join_cpus (c ∷ cs) = joined (str_ℕ c) cs

abbrev pub mapping : String → ℤ → List ℕ → Topology → Choice → Mapping
mapping interface workers allowed t chosen = record {
  interface = interface;
  irq_affinity = t.effective;
  excluded_irq_siblings = t.excluded;
  allowed_online_cpus = intersection allowed t.online;
  worker_cpus = chosen.selected;
  arguments = "--workers" ∷ str workers ∷ "--worker-cpus" ∷ join_cpus chosen.selected ∷ [];
}

abbrev pub argument_checks : Machine → String → ℤ → List (Bool × Error)
argument_checks m interface workers =
    (is_device_name interface, value_error "invalid interface name")
    ∷ (between 1 256 workers, value_error "workers must be between 1 and 256")
    ∷ (m.has_interface interface, value_error ("interface " <> interface <> " does not exist"))
    ∷ []

-- The process may run on the CPUs `allowed`, a set.
unfoldable pub suggest : Machine → String → ℤ → List ℕ → Result Mapping
unfolding check_all is_device_name is_nonzero_mask read_topology choose
suggest m interface workers allowed = do
  check_all (argument_checks m interface workers)
  refuse_rps m.rps_cpus
  t ← read_topology m
  chosen ← choose m (count workers) allowed t
  ok (mapping interface workers allowed t chosen)
