-- ===== src/Rooms/Tests.antt =====
-- A host and a guest in lobby 90, which 33 owns; the guest is 7.
use connecttool_qt.Base.{
  ℕ, ◌≡◌, ◌≢◌, refl, List, [], ◌∷◌, Bool, true, false, ◌&&◌, ◌||◌, not, none, some, All, map, ltb,
  ◌==◌, arith,
}
use connecttool_qt.Base.Int.{pos, negsuc}
use connecttool_qt.Base.Set.{contains}
use connecttool_qt.Base.Key.{nat_key}
use connecttool_qt.Samples.{platform}
use connecttool_qt.Bridge.State.{Host}
use connecttool_qt.Sessions.State as Sessions
use connecttool_qt.Connections.State as Connections
use connecttool_qt.Rooms.Text.{digits, to_text}
use connecttool_qt.Rooms.State.{Room, World, Steam, Method, send_chat}
use connecttool_qt.Rooms.Pings.{
  Entry, entry_text, add_entry, entries_text, ping_payload, broadcast_pings,
}
use connecttool_qt.Rooms.RoundTrip.{FitsEntry, enter_all}
use connecttool_qt.Rooms.Lobby.{leave_lobby}
use connecttool_qt.Rooms.Callbacks.{
  enter_vpn, on_lobby_chat_msg, on_lobby_chat_update, on_lobby_data_update, on_lobby_list_received,
}
use connecttool_qt.Rooms.Trust.{Heard, sent_by, hear, hear-sent_by, broadcast_pings-received}
use connecttool_qt.Rooms.Leaving.{Ignored, IsIdle, leave_lobby-Ignored, on_lobby_chat_update-IsIdle}
use connecttool_qt.Rooms.Listing.{id_of, listing, on_lobby_list_received_ids}
use connecttool_qt.Rooms.Mesh.{follow_all, follow_all-enter_vpn}

abbrev sockets : Connections.Steam
sockets = record {
  remote_of = λ conn. none;
  relayed = λ conn. false;
  status_of = λ conn. none;
  connect_p2p = λ host relay_only. 5;
  is_valid_id = λ id. ltb 0 id;
}

abbrev steam : Steam
steam = record {
  has_matchmaking = true;
  has_utils = true;
  has_friends = true;
  my_id = some 7;
  is_valid_id = λ id. ltb 0 id;
  owner_of = λ lobby. 33;
  members_of = λ lobby. 33 ∷ 7 ∷ 44 ∷ [];
  data_of = λ lobby key. none;
  my_name = none;
  friend_name = λ user. none;
  my_location = [];
  ping_to = λ location. none;
  pop_pings = [];
  can_create_lobby = true;
  can_list_lobbies = true;
  new_listen_socket = 3;
  sends_chat = true;
  sockets = sockets;
}

abbrev room : ℕ → Room
room lobby = record {
  current_lobby = lobby;
  lobbies = [];
  lobby_infos = [];
  lobby_name = [];
  publish_lobby = true;
  advertised_wants_tun = false;
  remote_pings = [];
  vpn_mode = false;
  has_vpn_manager = true;
  has_list_callback = true;
  has_mode_callback = false;
  has_invite_callback = false;
  has_host_left_callback = true;
  has_chat_callback = true;
  has_pinned_callback = true;
}

abbrev net : Bool → Connections.Manager
net hosts = record {
  listen_socket = 0;
  is_host = hosts;
  is_client = not hosts;
  is_connected = true;
  connection = 5;
  host_steam_id = 33;
  connections = 5 ∷ [];
  host_ping = pos 20;
  relay_fallback_pending = false;
  relay_fallback_tried = false;
  bad_samples = 0;
  last_relay_fallback = 0;
  last_ice_timeout = 0;
  connect_attempt_start = 0;
}

abbrev world : Bool → World
world hosts = record { room = room 90; net = net hosts }

abbrev entries : List Entry
entries =
    record { id = 7; ping = pos 25; relay = b'-' ∷ [] }
    ∷ record { id = 44; ping = negsuc 0; relay = [] }
    ∷ []

-- "PING|7:25:-"
abbrev payload : List ℕ
payload = b'P' ∷ b'I' ∷ b'N' ∷ b'G' ∷ b'|' ∷ b'7' ∷ b':' ∷ b'2' ∷ b'5' ∷ b':' ∷ b'-' ∷ []

sent : broadcast_pings steam entries (world true) ≡ send_chat 90 payload ∷ []
unfolding broadcast_pings ping_payload entries_text add_entry entry_text to_text digits
sent = refl

entries-Fit : All FitsEntry entries
entries-Fit = (
  record {
    id_set = omega arith;
    id_fits = omega arith;
    ping_fits = omega arith;
    relay_lacks = (λ e. absurd (omega arith), tt);
  },
  (record { id_set = omega arith; id_fits = omega arith; ping_fits = tt; relay_lacks = tt }, tt),
)

no_zero : All (λ b. b ≢ 0) payload
no_zero = ground arith

broadcast_pings-received_example : on_lobby_chat_msg steam 9 90 33 (some payload) (world false) ≡ (
  record (world false) { room = record (room 90) { remote_pings = enter_all 9 entries [] } },
  [],
)
broadcast_pings-received_example =
    broadcast_pings-received steam 9 (world true) (world false) steam entries 90 33 payload sent
      entries-Fit (omega arith) no_zero refl refl

-- Another member sends pings, then the owner, then another member writes.
abbrev messages : List Heard
messages =
    record { time = 9; sender = 44; entry = some payload }
    ∷ record { time = 10; sender = 33; entry = some payload }
    ∷ record { time = 11; sender = 44; entry = some (b'h' ∷ b'i' ∷ []) }
    ∷ []

hear-sent_by_example :
    hear steam 90 messages (world false) ≡ hear steam 90 (sent_by 33 messages) (world false)
hear-sent_by_example = hear-sent_by steam 90 messages (world false) refl (refl, (refl, (refl, tt)))

abbrev keep_mode : Bool → ℕ → Method
keep_mode tun lobby w = (w, [])

leave_lobby-Ignored_example :
    let w' = (leave_lobby (world false)).0 in
    Ignored steam 9 (on_lobby_chat_msg steam 9 90 33 (some payload)) w'
    × Ignored steam 9 (on_lobby_chat_update steam 9 90 false true 33) w'
    × Ignored steam 9 (on_lobby_data_update steam 9 keep_mode true 90 90) w'
leave_lobby-Ignored_example =
    leave_lobby-Ignored steam 9 keep_mode (world false) 90 33 33 90 payload false true true refl

on_lobby_chat_update-IsIdle_example :
    IsIdle (on_lobby_chat_update steam 9 90 false true 33 (world false)).0
on_lobby_chat_update-IsIdle_example =
    on_lobby_chat_update-IsIdle steam 9 (world false) 90 33 false refl refl refl refl

on_lobby_list_received_ids_example :
    map
      (id_of steam 9)
      (on_lobby_list_received steam 9 false (91 ∷ 92 ∷ []) (world false)).0.room.lobby_infos
    ≡ listing steam 9 (room 90) (91 ∷ 92 ∷ [])
on_lobby_list_received_ids_example = on_lobby_list_received_ids steam 9 (91 ∷ 92 ∷ []) (world false)

abbrev host : Host
host = record {
  my_steam_id = 7;
  persona_name = λ user. [];
  my_name = [];
  peer_count = 0;
  configures = true;
  inet_pton = λ text. none;
}

abbrev manager : Sessions.Manager
manager = record { ready = true; peers = []; handler = none; bridge = none; host_steam_id = 0 }

follow_all-enter_vpn_example :
    Sessions.has 44
      (follow_all platform host 9 (enter_vpn steam 9 keep_mode 90 (world false)) manager).peers
    ≡ Sessions.has 44 manager.peers || (contains 44 (steam.members_of 90) && not (44 == 7))
follow_all-enter_vpn_example =
    follow_all-enter_vpn platform host 9 steam 9 keep_mode 90 44 (world false) manager refl refl
      refl
