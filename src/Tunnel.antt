-- ===== src/Tunnel.antt =====
-- The tunnel around the multiplexers: the poll of the connections, steam/steam_message_handler.cpp,
-- the local TCP server, net/tcp_server.cpp, and the multiplexers' own callbacks,
-- net/multiplex_manager.cpp.
mod State
mod Poll
mod Server
mod Callbacks
mod Events
mod Kept
mod Sound
mod Count
mod Clients
mod Tests
