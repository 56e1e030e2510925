-- ===== src/Multiplex/State.antt =====
-- The members of MultiplexManager, and the Steam connection, which is not part of the program.
use connecttool_qt.Base.{ℕ, List, [], Bool, false, Option}
use connecttool_qt.Base.Map.{Map}
use connecttool_qt.Multiplex.Packet.{ClientId, Packet}

-- EResult, as far as the code tells its values apart.
pub data SendResult : Type 0 where
  accepted limit_exceeded no_connection invalid_param other : SendResult

-- ISteamNetworkingSockets on one connection, and the steady clock: the pending bytes, if the
-- status is there; the result of a send; and the time in milliseconds. Each call may change the
-- world.
pub record Steam : Type 1 where
  pub World : Type 0
  pub status : World → Option ℕ × World
  pub send_message : Packet → World → SendResult × World
  pub clock : World → ℕ × World

-- Sockets are handles; `read_buffers` holds the IDs that have a buffer.
pub record Manager : Type 0 where
  pub client_map : Map ClientId ℕ
  pub read_buffers : List ClientId
  pub missing_clients : List ClientId
  pub pending_packets : Map ClientId (List Packet)
  pub flush_scheduled : Bool
  pub send_blocked : Bool
  pub backoff_ms : ℕ
  pub last_blocked : ℕ
  pub paused_reads : List ClientId
  pub send_order_set : List ClientId
  pub send_order : List ClientId
  pub recent_connect_fail : Map ClientId ℕ

unfoldable pub new : Manager
new = record {
  client_map = [];
  read_buffers = [];
  missing_clients = [];
  pending_packets = [];
  flush_scheduled = false;
  send_blocked = false;
  backoff_ms = 5;
  last_blocked = 0;
  paused_reads = [];
  send_order_set = [];
  send_order = [];
  recent_connect_fail = [];
}

-- kHighWaterBytes and kLowWaterBytes
abbrev pub high_water_bytes : ℕ
high_water_bytes = 524288

abbrev pub low_water_bytes : ℕ
low_water_bytes = 262144
