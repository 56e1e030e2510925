-- ===== src/Bridge.antt =====
-- The bridge between the TUN device and the peers, steam/steam_vpn_bridge.cpp.
pub mod State
mod Packets
pub mod Routes
pub mod Calls
pub mod Forward
pub mod Receive
pub mod Lifecycle
pub mod Table
pub mod Events
pub mod Preserve
pub mod Invariant
mod RouteUpdate
mod Delivery
mod Outgoing
pub mod Peers
mod Tests
