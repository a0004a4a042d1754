-- ===== src/Deploy/WorkerCpus.antt =====
-- deploy/worker_cpus.py: the choice of worker CPUs by the topology of the network interface.
pub mod CpuSet
pub mod CpuList
pub mod Select
pub mod Machine
pub mod Suggest
pub mod Launch
pub mod OptionNames
pub mod Main
pub mod Launches
pub mod Tests
