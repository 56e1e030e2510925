-- ===== src/Connections/State.antt =====
-- SteamNetworkingManager: its members, what it asks of Steam, and the calls it makes.
use connecttool_qt.Base.{ℕ, ◌*◌, ◌^◌, List, [], ◌++◌, Bool, false, Option}
use connecttool_qt.Base.Int.{ℤ, pos}
use connecttool_qt.Steam.{Setting}

-- The states of a connection that the program names, and any other.
pub data ConnectionState : Type 0 where
  idle connecting finding_route connected closed_by_peer problem_detected_locally other :
      ConnectionState

-- The real-time status of a connection. The qualities are floating-point numbers: `poor_local` and
-- `poor_remote` say that one is below 0.2.
pub record Status : Type 0 where
  pub state : ConnectionState
  pub ping : ℤ
  pub poor_local : Bool
  pub poor_remote : Bool

-- What Steam answers: the peer of a connection and its relay flag (GetConnectionInfo), its status,
-- the handle that ConnectP2P returns for a peer, relay-only or not (0 is no connection), and
-- CSteamID::IsValid.
pub record Steam : Type 0 where
  pub remote_of : ℕ → Option ℕ
  pub relayed : ℕ → Bool
  pub status_of : ℕ → Option Status
  pub connect_p2p : ℕ → Bool → ℕ
  pub is_valid_id : ℕ → Bool

-- Handles are numbers, 0 for none; times are ticks of the steady clock, 0 for a time point that is
-- not set.
pub record Manager : Type 0 where
  pub listen_socket : ℕ
  pub is_host : Bool
  pub is_client : Bool
  pub is_connected : Bool
  pub connection : ℕ
  pub host_steam_id : ℕ
  pub connections : List ℕ
  pub host_ping : ℤ
  pub relay_fallback_pending : Bool
  pub relay_fallback_tried : Bool
  pub bad_samples : ℕ
  pub last_relay_fallback : ℕ
  pub last_ice_timeout : ℕ
  pub connect_attempt_start : ℕ

-- `connect` has the peer and whether only the relay may be used.
pub data Call : Type 0 where
  configure : Setting → Call
  close_connection : ℕ → Call
  close_listen_socket : ℕ → Call
  connect : ℕ → Bool → Call
  accept : ℕ → Call
  leave_lobby : Call
  shut_down_steam : Call

abbrev pub Method : Type 0
Method = Manager → Manager × List Call

unfoldable pub then_do : Manager × List Call → Method → Manager × List Call
then_do r f = ((f r.0).0, r.1 ++ (f r.0).1)

unfoldable pub new : Manager
new = record {
  listen_socket = 0;
  is_host = false;
  is_client = false;
  is_connected = false;
  connection = 0;
  host_steam_id = 0;
  connections = [];
  host_ping = pos 0;
  relay_fallback_pending = false;
  relay_fallback_tried = false;
  bad_samples = 0;
  last_relay_fallback = 0;
  last_ice_timeout = 0;
  connect_attempt_start = 0;
}

-- The clock ticks in nanoseconds.
abbrev pub seconds : ℕ → ℕ
seconds n = n * 10 ^ 9
