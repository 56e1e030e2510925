-- ===== src/IpNegotiator/State.antt =====
-- The members of IpNegotiator, and what it hands to its callbacks.
use connecttool_qt.Base.{ℕ, List, [], Bool, false, replicate}
use connecttool_qt.NodeIdentity.Defs.{NodeId, node_id_size}
use connecttool_qt.Protocol.Messages.{VpnMessageType}

pub data NegotiationState : Type 0 where
  idle probing stable : NegotiationState

-- The time is the bit pattern of the int64_t that the peer sent.
pub record ConflictInfo : Type 0 where
  pub node_id : NodeId
  pub last_heartbeat_ms : ℕ
  pub sender_steam_id : ℕ

-- Addresses are in host byte order; a callback is only known to be set or not.
pub record IpNegotiator : Type 0 where
  pub local_node_id : NodeId
  pub local_steam_id : ℕ
  pub local_ip : ℕ
  pub base_ip : ℕ
  pub subnet_mask : ℕ
  pub state : NegotiationState
  pub candidate_ip : ℕ
  pub probe_offset : ℕ
  pub probe_start_time : ℕ
  pub collected_conflicts : List ConflictInfo
  pub used_ips : List ℕ
  pub send_callback : Bool
  pub broadcast_callback : Bool
  pub success_callback : Bool

-- A call of sendCallback_, broadcastCallback_ or successCallback_, in the order of the calls.
pub data Action : Type 0 where
  send : VpnMessageType → List ℕ → ℕ → Bool → Action
  broadcast : VpnMessageType → List ℕ → Bool → Action
  success : ℕ → NodeId → Action

-- The constructor; the Steam ID and the time are set before they are read.
unfoldable pub new : IpNegotiator
new = record {
  local_node_id = replicate node_id_size 0;
  local_steam_id = 0;
  local_ip = 0;
  base_ip = 0;
  subnet_mask = 0;
  state = idle;
  candidate_ip = 0;
  probe_offset = 0;
  probe_start_time = 0;
  collected_conflicts = [];
  used_ips = [];
  send_callback = false;
  broadcast_callback = false;
  success_callback = false;
}

unfoldable pub is_probing : NegotiationState → Bool
is_probing probing = Bool.true
is_probing s = false

unfoldable pub is_stable : NegotiationState → Bool
is_stable stable = Bool.true
is_stable s = false
