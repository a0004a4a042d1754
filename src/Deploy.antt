-- ===== src/Deploy.antt =====
-- The deployment tools (deploy/).
pub mod Address
pub mod Names
pub mod Folder
pub mod Connections
pub mod Ingress
pub mod WorkerCpus
pub mod Samples
