-- ===== src/Multiplex.antt =====
-- net/multiplex_manager.h and net/multiplex_manager.cpp: TCP connections that share one Steam
-- connection, with a queue for each of them and one order of service.
pub mod Packet
pub mod State
pub mod Transport
pub mod Queue
pub mod Manager
pub mod Clients
pub mod Preserve
pub mod Callbacks
pub mod Recorded
pub mod Send
mod Tests
