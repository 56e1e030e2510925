-- ===== src/Sessions.antt =====
-- The VPN's peers as sessions of Steam messages: steam/steam_vpn_networking_manager.cpp, and the
-- poll of steam/vpn_message_handler.cpp.
pub mod State
pub mod Peers
mod Handler
pub mod Loops
mod Sync
mod Events
mod Invariant
mod History
mod Hello
mod Leaving
mod Tests
