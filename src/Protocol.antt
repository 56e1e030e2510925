-- ===== src/Protocol.antt =====
-- net/vpn_protocol.h: the messages of the VPN, the packed structures that they carry, and the
-- framing of steam/steam_vpn_bridge.cpp.
pub mod Messages
pub mod Frame
pub mod RoundTrip
mod Tests
