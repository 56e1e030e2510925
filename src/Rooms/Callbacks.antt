-- ===== src/Rooms/Callbacks.antt =====
-- SteamFriendsCallbacks and SteamMatchmakingCallbacks: what Steam reports about lobbies.
use connecttool_qt.Base.{
  ℕ, List, [], ◌∷◌, ◌++◌, Bool, true, false, ◌&&◌, ◌||◌, not, Option, none, some, map, length, take,
  if◌then◌else◌, ◌==◌,
}
use connecttool_qt.Base.Int.{ℤ, negsuc}
use connecttool_qt.Connections.State as Connections
use connecttool_qt.Connections.Manager.{is_set, join_host, disconnect, close_connection_to_peer}
use connecttool_qt.Rooms.State.{
  Room, World, LobbyInfo, Steam, key_name, key_host_name, key_ping_location, Call, network, join,
  show_presence, start_server, peer_added, peer_removed, mode_changed, invited, host_left, Method,
  then_do, is_me,
}
use connecttool_qt.Rooms.Pings.{has_ping_prefix, handle_ping_message}
use connecttool_qt.Rooms.Lobby.{leave_lobby}
use connecttool_qt.Rooms.Metadata.{
  text_or_empty, lobby_wants_tun, notify_pinned_message_changed, refresh_lobby_metadata,
  decide_transport_for_current_lobby, handle_chat_message, notify_lobby_list_updated,
}

-- A call of the connections' manager, on the world.
abbrev networked : List Connections.Call → List Call
networked [] = []
networked (c ∷ cs) = network c ∷ networked cs

unfoldable pub on_net : Connections.Method → Method
on_net f w = (record w { net = (f w.net).0 }, networked (f w.net).1)

-- The buffer of a chat entry holds 2047 bytes, and the payload ends at a zero byte.
unfoldable pub until_zero : List ℕ → List ℕ
until_zero [] = []
until_zero (c ∷ cs) = let rest = until_zero cs in if c == 0 then [] else c ∷ rest

unfoldable pub payload_of : List ℕ → List ℕ
unfolding until_zero
payload_of bytes = until_zero (take 2047 bytes)

unfoldable pub on_game_lobby_join_requested : ℕ → World → List Call
on_game_lobby_join_requested lobby w =
    if w.room.has_invite_callback
    then invited lobby ∷ []
    else if not w.net.is_host && not w.net.is_connected
    then join lobby ∷ []
    else []

module _ (steam : Steam) (now : ℕ) where
  -- The lobby of a report is the current one.
  abbrev pub is_current : ℕ → World → Bool
  is_current lobby w = steam.is_valid_id w.room.current_lobby && (w.room.current_lobby == lobby)

  unfoldable pub on_chat_text : ℕ → ℕ → List ℕ → Method
  unfolding handle_ping_message
  on_chat_text lobby sender payload w =
      let owner = steam.owner_of lobby in
      if not (has_ping_prefix payload)
      then (w, handle_chat_message steam sender payload w)
      else if steam.is_valid_id owner && steam.is_valid_id sender && not (sender == owner)
      then (w, [])
      else (record w { room = handle_ping_message now payload w.room }, [])

  -- `entry` is what GetLobbyChatEntry reads, if it is a chat message and not empty.
  unfoldable pub on_lobby_chat_msg : ℕ → ℕ → Option (List ℕ) → Method
  unfolding on_chat_text payload_of
  on_lobby_chat_msg lobby sender none w = (w, [])
  on_lobby_chat_msg lobby sender (some entry) w =
      if is_current lobby w then on_chat_text lobby sender (payload_of entry) w else (w, [])

  unfoldable pub on_lobby_created : Bool → ℕ → Method
  unfolding refresh_lobby_metadata
  on_lobby_created succeeds lobby w =
      let entered = record w { room = record (w.room) { current_lobby = lobby } } in
      if succeeds
      then (entered, show_presence lobby ∷ refresh_lobby_metadata steam entered)
      else (w, [])

  -- The name of a lobby's owner: as the lobby has it, or else as Steam does.
  unfoldable pub owner_name_of : ℕ → Option (List ℕ) → List ℕ
  owner_name_of owner (some name) = name
  owner_name_of owner none =
      if steam.is_valid_id owner && steam.has_friends
      then text_or_empty (steam.friend_name owner)
      else []

  unfoldable pub ping_ms_of : List ℕ → ℤ
  ping_ms_of [] = negsuc 0
  ping_ms_of (c ∷ cs) = elim (steam.ping_to (c ∷ cs)) [ some ping ↦ ping | none ↦ negsuc 0 ]

  unfoldable pub info_of : ℕ → LobbyInfo
  unfolding owner_name_of ping_ms_of
  info_of lobby = record {
    id = lobby;
    owner_id = steam.owner_of lobby;
    name = text_or_empty (steam.data_of lobby key_name);
    owner_name = owner_name_of (steam.owner_of lobby) (steam.data_of lobby key_host_name);
    member_count = length (steam.members_of lobby);
    ping_ms = ping_ms_of (text_or_empty (steam.data_of lobby key_ping_location));
  }

  abbrev pub any_id : ℕ → List LobbyInfo → Bool
  any_id lobby [] = false
  any_id lobby (info ∷ infos) = (info.id == lobby) || any_id lobby infos

  -- The current lobby is listed in any case, unless it is not published.
  unfoldable pub with_current : Room → List LobbyInfo → List LobbyInfo
  unfolding info_of
  with_current room infos =
      if steam.is_valid_id room.current_lobby
        && room.publish_lobby
        && not (any_id room.current_lobby infos)
      then infos ++ info_of room.current_lobby ∷ []
      else infos

  unfoldable pub on_lobby_list_received : Bool → List ℕ → Method
  unfolding with_current
  on_lobby_list_received fails found w =
      let cleared = record w { room = record (w.room) { lobbies = []; lobby_infos = [] } } in
      let infos = with_current w.room (map info_of found) in
      let listed = record w { room = record (w.room) { lobbies = found; lobby_infos = infos } } in
      if fails
      then (cleared, notify_lobby_list_updated steam cleared)
      else (listed, notify_lobby_list_updated steam listed)

  unfoldable pub on_member_left_tcp : ℕ → Method
  unfolding then_do on_net
  on_member_left_tcp user w =
      if w.net.is_host
      then on_net (close_connection_to_peer steam.sockets user) w
      else if user == w.net.host_steam_id
      then then_do (on_net disconnect w) leave_lobby
      else (w, [])

  unfoldable pub on_chat_update_vpn : Bool → Bool → ℕ → World → List Call
  on_chat_update_vpn entered left user w =
      (if entered && w.room.has_vpn_manager && not (is_me steam.my_id user)
        then peer_added user ∷ []
        else if left && w.room.has_vpn_manager
        then peer_removed user ∷ []
        else [])
      ++ (if left
            && (user == w.net.host_steam_id)
            && not w.net.is_host
            && w.room.has_host_left_callback
          then host_left ∷ []
          else [])

  -- `entered` and `left` say which flags of the change are set; kicked, banned and disconnected
  -- members have left.
  unfoldable pub on_lobby_chat_update : ℕ → Bool → Bool → ℕ → Method
  unfolding on_chat_update_vpn on_member_left_tcp
  on_lobby_chat_update lobby entered left user w =
      if not (is_current lobby w)
      then (w, [])
      else if w.room.vpn_mode
      then (w, on_chat_update_vpn entered left user w)
      else if left
      then on_member_left_tcp user w
      else (w, [])

  -- `on_mode` is what the callback for a change of the mode does.
  module _ (on_mode : Bool → ℕ → Method) where
    unfoldable pub call_mode_changed : Bool → ℕ → Method
    unfolding then_do
    call_mode_changed wants_tun lobby w =
        if w.room.has_mode_callback
        then then_do (w, mode_changed wants_tun lobby ∷ []) (on_mode wants_tun lobby)
        else (w, [])

    unfoldable pub take_mode : Bool → ℕ → Method
    unfolding call_mode_changed
    take_mode wants_tun lobby w =
        if same wants_tun w.room.vpn_mode
        then (w, [])
        else call_mode_changed wants_tun lobby
            (record w { room = record (w.room) { vpn_mode = wants_tun } })
      where
        same : Bool → Bool → Bool
        same true b = b
        same false b = not b

    unfoldable pub on_lobby_data_update : Bool → ℕ → ℕ → Method
    unfolding then_do take_mode
    on_lobby_data_update succeeds lobby member w =
        if succeeds
          && steam.is_valid_id lobby
          && (lobby == w.room.current_lobby)
          && (lobby == member)
        then then_do (take_mode (lobby_wants_tun steam lobby) lobby w)
            (λ w'. (w', notify_pinned_message_changed steam lobby w'))
        else (w, [])

    abbrev pub add_members : List ℕ → List Call
    add_members [] = []
    add_members (m ∷ ms) =
        if is_me steam.my_id m then add_members ms else peer_added m ∷ add_members ms

    -- What follows in the mode with the virtual network.
    unfoldable pub enter_vpn : ℕ → World → List Call
    enter_vpn lobby w =
        (if w.room.has_vpn_manager then add_members (steam.members_of lobby) else [])
        ++ (if is_me steam.my_id (steam.owner_of lobby) then refresh_lobby_metadata steam w else [])

    -- `server_wanted` says that the TCP server is set up and not running.
    unfoldable pub enter_tcp : Bool → ℕ → Method
    unfolding then_do on_net
    enter_tcp server_wanted lobby w =
        if w.net.is_host
        then (w, refresh_lobby_metadata steam w)
        else then_do
            (then_do (w, decide_transport_for_current_lobby steam w)
              (on_net (join_host steam.sockets now (steam.owner_of lobby))))
            (λ w'.
              (w', (if is_set w'.net.connection && server_wanted then start_server ∷ [] else [])))

    unfoldable pub enter_by_mode : Bool → ℕ → Method
    unfolding enter_vpn enter_tcp
    enter_by_mode server_wanted lobby w =
        if w.room.vpn_mode then (w, enter_vpn lobby w) else enter_tcp server_wanted lobby w

    unfoldable pub on_lobby_entered : Bool → Bool → ℕ → Method
    unfolding then_do call_mode_changed enter_by_mode
    on_lobby_entered succeeds server_wanted lobby w =
        let tun = lobby_wants_tun steam lobby in
        let entered = record w {
          room = record (w.room) { current_lobby = lobby; vpn_mode = tun || w.room.vpn_mode };
          net = record (w.net) { host_steam_id = steam.owner_of lobby };
        } in
        if succeeds
        then then_do
            (then_do (call_mode_changed tun lobby entered) (λ w'. (
              w',
              show_presence lobby ∷ notify_pinned_message_changed steam w'.room.current_lobby w',
            )))
            (enter_by_mode server_wanted lobby)
        else (w, [])
