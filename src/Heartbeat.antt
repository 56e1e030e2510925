-- ===== src/Heartbeat.antt =====
-- net/heartbeat_manager.h and net/heartbeat_manager.cpp: the table of known nodes, its index by
-- address, heartbeats and leases.
pub mod State
pub mod Methods
pub mod Leases
pub mod Conflict
mod Tests
