-- ===== src/Connections.antt =====
-- The connections of the TCP mode over Steam's sockets: steam/steam_networking_manager.cpp.
pub mod State
pub mod Transport
pub mod Manager
pub mod Update
mod Status
mod Events
mod Credit
mod Relay
mod Attempts
mod Estimate
mod Closing
mod Tests
