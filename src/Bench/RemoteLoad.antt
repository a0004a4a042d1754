-- ===== src/Bench/RemoteLoad.antt =====
-- bench/remote_load.py: the load client on another host, and the object that collects its events.
pub mod Events
pub mod Clock
pub mod Collector
pub mod Agent
pub mod Protocol
pub mod Connect
pub mod Tests
