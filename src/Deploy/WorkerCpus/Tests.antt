-- ===== src/Deploy/WorkerCpus/Tests.antt =====
-- Runs of the functions of deploy/worker_cpus.py, and the theorems about it at concrete values.
use zhtps.Common.{
  ℕ, List, String, Option, some, Error, os_error, AllPass, value_error, err, false, ◌≡◌, refl, [],
  ◌∷◌, pos, ok, codes, true, none, if◌then◌else◌, eqb_ℤ, ltb, ◌==◌, str, str_ℕ, ◌↔◌,
}
use zhtps.Deploy.WorkerCpus.CpuSet.{filter_by, union}
use zhtps.Deploy.WorkerCpus.CpuList.{cpu_list}
use zhtps.Deploy.WorkerCpus.Machine.{Machine, is_device_name, is_nonzero_mask}
use zhtps.Deploy.WorkerCpus.Suggest.{
  suggest, Mapping, Topology, read_topology, refuse_rps, argument_checks,
}
use zhtps.Deploy.WorkerCpus.Suggest.Sound.{IsMapping, suggest-IsMapping}
use zhtps.Deploy.WorkerCpus.Suggest.Total.{Ending, suggest-Ending}
use zhtps.Deploy.WorkerCpus.Main.{Command, main, executed, refused, printed, printed_json}
use zhtps.Deploy.WorkerCpus.Launches.{IsLaunch, main-IsLaunch}
use zhtps.Deploy.WorkerCpus.Launch.{launch_arguments}

abbrev box : Machine
box = record {
  has_interface = λ name. true;
  rps_cpus = ok (codes "0,0\n") ∷ [];
  msi_irqs = codes "31" ∷ codes "30" ∷ [];
  device_irq = none;
  online = ok (codes "0-7\n");
  affinity = λ irq. ok (if eqb_ℤ irq (pos 30) then codes "0\n" else codes "4\n");
  thread_siblings = λ cpu. ok (
      if ltb cpu 4
      then (if cpu == 0 then codes "0-1" else if cpu == 1 then codes "0-1" else codes "2-3")
      else (if ltb cpu 6 then codes "4-5" else codes "6-7"));
  caches = λ cpu. (ok (codes "3\n"), ok (if ltb cpu 4 then codes "0-3" else codes "4-7")) ∷ [];
}

abbrev box_mapping : Mapping
box_mapping = record {
  interface = "eth0";
  irq_affinity = ("30", 0 ∷ []) ∷ ("31", 4 ∷ []) ∷ [];
  excluded_irq_siblings = 0 ∷ 1 ∷ 4 ∷ 5 ∷ [];
  allowed_online_cpus = 0 ∷ 2 ∷ 3 ∷ 6 ∷ 7 ∷ [];
  worker_cpus = 2 ∷ 6 ∷ [];
  arguments = "--workers" ∷ "2" ∷ "--worker-cpus" ∷ "2,6" ∷ [];
}

suggest_test : suggest box "eth0" (pos 2) (0 ∷ 2 ∷ 3 ∷ 6 ∷ 7 ∷ []) ≡ ok box_mapping
unfolding suggest cpu_list filter_by union str str_ℕ
suggest_test = refl

-- CPUs 2 and 3 are one physical core, and so are 6 and 7.
too_few_test :
    suggest box "eth0" (pos 3) (0 ∷ 2 ∷ 3 ∷ 6 ∷ 7 ∷ [])
    ≡ err (value_error "only 2 allowed physical cores share IRQ L3 caches; requested 3")
unfolding suggest cpu_list filter_by union str str_ℕ
too_few_test = refl

suggest-IsMapping_example : IsMapping box (pos 2) (0 ∷ 2 ∷ 3 ∷ 6 ∷ 7 ∷ []) box_mapping
suggest-IsMapping_example =
    suggest-IsMapping box "eth0" (pos 2) (0 ∷ 2 ∷ 3 ∷ 6 ∷ 7 ∷ []) box_mapping suggest_test

abbrev box_topology : Topology
box_topology = record {
  online = 0 ∷ 1 ∷ 2 ∷ 3 ∷ 4 ∷ 5 ∷ 6 ∷ 7 ∷ [];
  effective = ("30", 0 ∷ []) ∷ ("31", 4 ∷ []) ∷ [];
  excluded = 0 ∷ 1 ∷ 4 ∷ 5 ∷ [];
  domains = (0 ∷ 1 ∷ 2 ∷ 3 ∷ []) ∷ (4 ∷ 5 ∷ 6 ∷ 7 ∷ []) ∷ [];
}

box_topology_read : read_topology box ≡ ok box_topology
unfolding read_topology cpu_list filter_by union str str_ℕ
box_topology_read = refl

box_steering_off : refuse_rps box.rps_cpus ≡ ok tt
unfolding is_nonzero_mask
box_steering_off = refl

box_arguments : AllPass (argument_checks box "eth0" (pos 3))
unfolding is_device_name
box_arguments = (refl, (refl, (refl, tt)))

suggest-Ending_example : Ending box 3 (suggest box "eth0" (pos 3) (0 ∷ 2 ∷ 3 ∷ 6 ∷ 7 ∷ []))
suggest-Ending_example =
    suggest-Ending box "eth0" (pos 3) (0 ∷ 2 ∷ 3 ∷ 6 ∷ 7 ∷ []) box_topology box_arguments
      box_steering_off box_topology_read

abbrev launcher : Command
launcher = record {
  interface = "eth0";
  workers = pos 2;
  json = false;
  executable = some "zhtps";
  arguments = "--" ∷ "--port" ∷ "80" ∷ [];
}

abbrev allowed : List ℕ
allowed = 0 ∷ 2 ∷ 3 ∷ 6 ∷ 7 ∷ []

abbrev runs : List String → Option Error
runs command = none

abbrev missing : List String → Option Error
missing command = some (os_error "No such file or directory")

abbrev server : List String
server = "zhtps" ∷ "--workers" ∷ "2" ∷ "--worker-cpus" ∷ "2,6" ∷ "--port" ∷ "80" ∷ []

main-IsLaunch_example :
    (main box runs allowed launcher ≡ executed server) ↔ IsLaunch box runs allowed launcher server
main-IsLaunch_example = main-IsLaunch box runs allowed launcher server

main_tests :
    (main box runs allowed launcher ≡ executed server)
    × (main box missing allowed launcher ≡ refused "No such file or directory")
    × (main box runs allowed (record launcher { json = true })
        ≡ refused "--json and --exec are mutually exclusive")
    × (main box runs allowed (record launcher { executable = some "" })
        ≡ refused "server arguments require --exec")
    × (main box runs allowed (record launcher { workers = pos 3 })
        ≡ refused "only 2 allowed physical cores share IRQ L3 caches; requested 3")
    × (main box runs allowed (record launcher { arguments = "--workers=4" ∷ [] })
        ≡ refused "set worker count on the launcher; worker mapping comes from NIC topology")
    × (main box runs allowed (record launcher { executable = none; arguments = [] })
        ≡ printed "--workers 2 --worker-cpus 2,6")
    × (main box runs allowed (record launcher { executable = none; arguments = []; json = true })
        ≡ printed_json box_mapping)
unfolding main launch_arguments suggest cpu_list filter_by union str str_ℕ
main_tests = (refl, refl, refl, refl, refl, refl, refl, refl)
