-- ===== src/Lib.antt =====
-- The networking core of ConnectTool: a virtual network between the members of a Steam lobby, and
-- TCP connections tunnelled through one Steam connection.
--
-- The parts and how they interact. A bridge (steam/steam_vpn_bridge.cpp) stands between the TUN
-- device and the peers: it reads packets from the device and sends them to the user who has a
-- route for the destination, and it handles the messages of the peers. It owns a negotiator
-- (net/ip_negotiator.cpp), which finds a free address of the subnet by probes, answers and a
-- priority of node IDs (net/node_identity.cpp), and a heartbeat manager
-- (net/heartbeat_manager.cpp), which keeps the known nodes while their leases last. Both call back
-- into the bridge. The messages and their layout are in net/vpn_protocol.h. Apart from these, the
-- multiplexer (net/multiplex_manager.cpp) carries TCP connections over one Steam connection, with
-- a queue for each and a back-off when Steam takes no more. A message handler
-- (steam/steam_message_handler.cpp) polls the connections and has a multiplexer for each; a TCP
-- server (net/tcp_server.cpp) hands it the local clients.
--
-- The messages of the bridge go through a manager of sessions
-- (steam/steam_vpn_networking_manager.cpp), which has the set of peers and polls Steam for what
-- they send. The connection of the multiplexer comes from another manager
-- (steam/steam_networking_manager.cpp), which joins a host directly and falls back to the relay.
-- The room manager (steam/steam_room_manager.cpp) enters and leaves lobbies, and tells both managers
-- whom to connect to. The chat of a lobby is shown by a model of Qt (src/chat_model.cpp).
--
-- The files.
--   Base, Wire, Platform   shared types and lemmas; integers in memory; the functions of the system
--                          and of Qt that the code calls, with their documented laws
--   NodeIdentity           net/node_identity.{h,cpp}: generate, compare, has_priority, to_string
--   Protocol               net/vpn_protocol.h: the types and structures (Messages), and the frame of
--                          sendVpnMessage and handleVpnMessage (Frame)
--   IpNegotiator           net/ip_negotiator.{h,cpp}: State has the members, Address the choice of an
--                          address, Handlers the methods under their names, Events the histories
--   Heartbeat              net/heartbeat_manager.{h,cpp}: State and Methods
--   Multiplex              net/multiplex_manager.{h,cpp}: Packet, State, Transport (isSendSaturated,
--                          trySendPacket), Queue (the queues and the flush), Manager (the clients),
--                          Clients (removeClient and the queues), Recorded and Send (what is sent)
--   Tunnel                 steam/steam_message_handler.{h,cpp} and net/tcp_server.{h,cpp}: State, Poll
--                          (the poll of the connections), Server, Callbacks (the multiplexers' timers,
--                          reads and writes), Events (the histories)
--   Bridge                 steam/steam_vpn_bridge.{h,cpp}: State, Packets, Routes, Calls (callbacks,
--                          stop), Forward (tunReadThread), Receive (handleVpnMessage), Lifecycle
--                          (start, users), Events (the histories)
--   Steam                  the settings and message flags of the two networking managers
--   Sessions               steam/steam_vpn_networking_manager.{h,cpp} and
--                          steam/vpn_message_handler.{h,cpp}: State, Peers (the manager's methods),
--                          Handler (the poll and its timer), Events (the histories)
--   Connections            steam/steam_networking_manager.{h,cpp}: State, Transport (the pings and the
--                          penalties), Manager (joinHost, disconnect, closing), Update (update), Status
--                          (handleConnectionStatusChanged), Events (the histories)
--   Rooms                  steam/steam_room_manager.{h,cpp}: Text (std::to_string, stoull, stoi), State,
--                          Pings (broadcastPings, handlePingMessage), Metadata (what a lobby says),
--                          Lobby (leaveLobby, startHosting), Callbacks (the reports of Steam), Mesh
--                          (its calls carried out by the manager of sessions)
--   Chat                   src/chat_model.{h,cpp}: Model has the methods and their signals, Marked and
--                          Told the marks of the pinned message
--   Samples and Tests      concrete values on which the results are applied
--
-- A method is a function from the state to the state and the calls it makes, in order; a method
-- that reads a clock takes the reading, in milliseconds. Addresses in a state are in host order,
-- in a structure in network order. A std::map is an association list with ascending keys. uint32_t
-- arithmetic has its wrap-around written out, and so have the sums and the product of the pings.
--
-- Bounds and fuel. The search for an address has one round for each host address of the subnet,
-- as in the code. The flush has fuel for every waiting packet and every ID of the order, which is
-- enough because a round takes a packet or drops an ID. The pieces of a packet have fuel for each
-- byte, the routes of an update for each byte of the payload. A printed number has at most 20 digits,
-- enough for 64 bits.
--
-- Not modelled: logging; the mutexes, a method being one step; other threads while the flush has
-- released its mutex; sockets, the TUN device and Steam, whose answers come from outside; the user
-- interface but for the chat.
pub mod Base
pub mod Platform
pub mod Wire
pub mod NodeIdentity
pub mod Protocol
pub mod IpNegotiator
pub mod Heartbeat
pub mod Multiplex
pub mod Bridge
pub mod Steam
pub mod Sessions
pub mod Connections
pub mod Rooms
pub mod Tunnel
pub mod Chat
pub mod Samples
