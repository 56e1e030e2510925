-- ===== src/Rooms.antt =====
-- Lobbies and what is said in them: steam/steam_room_manager.cpp.
mod Text
mod State
mod Pings
mod Reading
mod RoundTrip
mod Metadata
mod Lobby
mod Callbacks
mod Trust
mod Leaving
mod Listing
mod Mesh
mod Tests
