-- ===== src/Heartbeat/State.antt =====
-- The members of HeartbeatManager. The table and the index are each guarded by one mutex, which
-- every method holds for its whole body; a method is one step.
use connecttool_qt.Base.{ℕ, List, [], Bool, false, replicate}
use connecttool_qt.Base.Map.{Map}
use connecttool_qt.NodeIdentity.Defs.{NodeId, node_id_size}
use connecttool_qt.Protocol.Messages.{VpnMessageType}

pub record NodeInfo : Type 0 where
  pub node_id : NodeId
  pub steam_id : ℕ
  pub ip_address : ℕ
  pub last_heartbeat : ℕ
  pub name : List ℕ
  pub is_local : Bool

pub record HeartbeatManager : Type 0 where
  pub local_node_id : NodeId
  pub local_ip : ℕ
  pub last_heartbeat_sent : ℕ
  pub node_table : Map NodeId NodeInfo
  pub ip_to_node_id : Map ℕ NodeId
  pub running : Bool
  pub send_callback : Bool
  pub expired_callback : Bool

-- A call of sendCallback_ or expiredCallback_.
pub data Action : Type 0 where
  broadcast : VpnMessageType → List ℕ → Bool → Action
  expired : NodeId → ℕ → Action

unfoldable pub new : HeartbeatManager
new = record {
  local_node_id = replicate node_id_size 0;
  local_ip = 0;
  last_heartbeat_sent = 0;
  node_table = [];
  ip_to_node_id = [];
  running = false;
  send_callback = false;
  expired_callback = false;
}
