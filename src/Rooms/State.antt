-- ===== src/Rooms/State.antt =====
-- SteamRoomManager: its members, what it asks of Steam, and the calls it makes. It works on the
-- manager of the connections as well, whose members it reads and sets.
use connecttool_qt.Base.{ℕ, List, ◌++◌, Bool, false, Option, none, some, ◌==◌}
use connecttool_qt.Base.Int.{ℤ}
use connecttool_qt.Base.Map.{Map}
use connecttool_qt.Connections.State as Connections

pub record LobbyInfo : Type 0 where
  pub id : ℕ
  pub owner_id : ℕ
  pub name : List ℕ
  pub owner_name : List ℕ
  pub member_count : ℕ
  pub ping_ms : ℤ

pub record PingInfo : Type 0 where
  pub ping : ℕ
  pub relay : List ℕ
  pub updated_at : ℕ

-- A callback is only known to be set or not; lobby 0 is k_steamIDNil.
pub record Room : Type 0 where
  pub current_lobby : ℕ
  pub lobbies : List ℕ
  pub lobby_infos : List LobbyInfo
  pub lobby_name : List ℕ
  pub publish_lobby : Bool
  pub advertised_wants_tun : Bool
  pub remote_pings : Map ℕ PingInfo
  pub vpn_mode : Bool
  pub has_vpn_manager : Bool
  pub has_list_callback : Bool
  pub has_mode_callback : Bool
  pub has_invite_callback : Bool
  pub has_host_left_callback : Bool
  pub has_chat_callback : Bool
  pub has_pinned_callback : Bool

-- The keys of a lobby's data.
pub data Key : Type 0 where
  key_name key_host_name key_host_id key_ping_location key_tag key_pinned key_mode : Key

-- What Steam answers. An interface that can be missing is a flag. `ping_to` is the ping that is
-- estimated from here to a location, if that parses and our own is known.
pub record Steam : Type 0 where
  pub has_matchmaking : Bool
  pub has_utils : Bool
  pub has_friends : Bool
  pub my_id : Option ℕ
  pub is_valid_id : ℕ → Bool
  pub owner_of : ℕ → ℕ
  pub members_of : ℕ → List ℕ
  pub data_of : ℕ → Key → Option (List ℕ)
  pub my_name : Option (List ℕ)
  pub friend_name : ℕ → Option (List ℕ)
  pub my_location : List ℕ
  pub ping_to : List ℕ → Option ℤ
  pub pop_pings : List ℤ
  pub can_create_lobby : Bool
  pub can_list_lobbies : Bool
  pub new_listen_socket : ℕ
  pub sends_chat : Bool
  pub sockets : Connections.Steam

-- The room and the connections.
pub record World : Type 0 where
  pub room : Room
  pub net : Connections.Manager

-- Calls of Steam's lobbies, of the connections' manager, of the manager of sessions (`peer_added`
-- and the two after it), and of the callbacks.
pub data Call : Type 0 where
  network : Connections.Call → Call
  create_lobby : Call
  request_lobbies : Call
  join : ℕ → Call
  leave : ℕ → Call
  set_data : ℕ → Key → List ℕ → Call
  delete_data : ℕ → Key → Call
  send_chat : ℕ → List ℕ → Call
  show_presence : ℕ → Call
  clear_presence : Call
  create_listen_socket : Call
  start_server : Call
  peer_added : ℕ → Call
  peer_removed : ℕ → Call
  peers_cleared : Call
  list_updated : List LobbyInfo → Call
  mode_changed : Bool → ℕ → Call
  invited : ℕ → Call
  host_left : Call
  chat_received : ℕ → List ℕ → Call
  pinned_changed : List ℕ → Call

abbrev pub Method : Type 0
Method = World → World × List Call

unfoldable pub then_do : World × List Call → Method → World × List Call
then_do r f = ((f r.0).0, r.1 ++ (f r.0).1)

-- SteamUser() is there, and a user is us.
abbrev pub is_me : Option ℕ → ℕ → Bool
is_me none id = false
is_me (some me) id = id == me
