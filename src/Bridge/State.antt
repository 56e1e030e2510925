-- ===== src/Bridge/State.antt =====
-- SteamVpnBridge: its members, as steam/steam_vpn_bridge.h has them, and what a call of a method
-- does to the TUN device and to the networking manager.
use connecttool_qt.Base.{ℕ, List, [], Bool, false, Option}
use connecttool_qt.Base.Map.{Map}
use connecttool_qt.NodeIdentity.Defs.{NodeId}
use connecttool_qt.IpNegotiator.State.{IpNegotiator}
use connecttool_qt.Heartbeat.State.{HeartbeatManager}
use connecttool_qt.IpNegotiator.State as NegotiatorState
use connecttool_qt.Heartbeat.State as HeartbeatState

-- RouteEntry of net/vpn_protocol.h.
pub record RouteEntry : Type 0 where
  pub steam_id : ℕ
  pub ip_address : ℕ
  pub name : List ℕ
  pub is_local : Bool
  pub node_id : NodeId

pub record Statistics : Type 0 where
  pub packets_sent : ℕ
  pub packets_received : ℕ
  pub bytes_sent : ℕ
  pub bytes_received : ℕ
  pub packets_dropped : ℕ

-- The device is only known to be there or not; a device that is there may be open.
pub record Bridge : Type 0 where
  pub running : Bool
  pub has_device : Bool
  pub routing_table : Map ℕ RouteEntry
  pub base_ip : ℕ
  pub subnet_mask : ℕ
  pub local_ip : ℕ
  pub stats : Statistics
  pub negotiator : IpNegotiator
  pub heartbeats : HeartbeatManager

-- What the bridge finds around it while it runs: our Steam ID, the names of users, the number of
-- peers, whether the device takes an address, and the text form of addresses.
pub record Host : Type 0 where
  pub my_steam_id : ℕ
  pub persona_name : ℕ → List ℕ
  pub my_name : List ℕ
  pub peer_count : ℕ
  pub configures : Bool
  pub inet_pton : List ℕ → Option ℕ

-- The calls that leave the bridge: a message to a user or to all, with its reliability, a packet
-- for the TUN device, and the device being closed or configured.
pub data Output : Type 0 where
  to_user : ℕ → List ℕ → Bool → Output
  to_all : List ℕ → Bool → Output
  to_device : List ℕ → Output
  set_ip : ℕ → ℕ → Output
  add_route : ℕ → ℕ → Output
  close_device : Output

unfoldable pub new : Bridge
new = record {
  running = false;
  has_device = false;
  routing_table = [];
  base_ip = 0;
  subnet_mask = 0;
  local_ip = 0;
  stats = record {
    packets_sent = 0;
    packets_received = 0;
    bytes_sent = 0;
    bytes_received = 0;
    packets_dropped = 0;
  };
  negotiator = NegotiatorState.new;
  heartbeats = HeartbeatState.new;
}
