-- ===== src/Rooms/Lobby.antt =====
-- Creating, searching, joining, hosting and leaving a lobby.
use connecttool_qt.Base.{ℕ, List, [], ◌∷◌, ◌++◌, Bool, true, false, ◌&&◌, not, if◌then◌else◌, ◌==◌}
use connecttool_qt.Connections.State as Connections
use connecttool_qt.Connections.Manager.{is_set}
use connecttool_qt.Rooms.State.{
  Room, World, Steam, Call, network, create_lobby, request_lobbies, join, leave, clear_presence,
  create_listen_socket, peers_cleared, Method, then_do,
}

-- The part of leaveLobby that runs in a lobby.
unfoldable pub leave_current : Method
leave_current w = (
  record w {
    room = record (w.room) { current_lobby = 0; remote_pings = [] };
    net = record (w.net) { host_steam_id = 0 };
  },
  leave w.room.current_lobby
      ∷ ((if w.room.vpn_mode && w.room.has_vpn_manager then peers_cleared ∷ [] else [])
          ++ clear_presence ∷ []),
)

unfoldable pub leave_lobby : Method
unfolding leave_current
leave_lobby w = if w.room.current_lobby == 0 then (w, []) else leave_current w

unfoldable pub join_lobby : ℕ → Bool × List Call
join_lobby lobby = (true, join lobby ∷ [])

abbrev set_room : (Room → Room) → World → World
set_room f w = record w { room = f w.room }

unfoldable pub close_listen_socket : Method
close_listen_socket w =
    if is_set w.net.listen_socket
    then (
      record w { net = record (w.net) { listen_socket = 0 } },
      network (Connections.close_listen_socket w.net.listen_socket) ∷ [],
    )
    else (w, [])

unfoldable pub stop_hosting : Method
unfolding then_do close_listen_socket leave_lobby
stop_hosting w =
    then_do (then_do (close_listen_socket w) leave_lobby)
      (λ w'. (record w' { net = record (w'.net) { is_host = false } }, []))

module _ (steam : Steam) where
  unfoldable pub search_lobbies : World → Bool × World × List Call
  search_lobbies w =
      let w' = set_room (λ room. record room { lobbies = []; lobby_infos = [] }) w in
      if not steam.has_matchmaking
      then (false, w', [])
      else (steam.can_list_lobbies, w', request_lobbies ∷ [])

  -- What startHosting does with the listen socket; its result is whether there is one.
  unfoldable pub open_listen_socket : Method
  unfolding then_do leave_lobby
  open_listen_socket w =
      let socket = steam.new_listen_socket in
      let listening = record w { net = record (w.net) { listen_socket = socket } } in
      let hosting = record w { net = record (w.net) { listen_socket = socket; is_host = true } } in
      then_do (w, create_listen_socket ∷ [])
        (λ w'. if is_set socket then (hosting, []) else leave_lobby listening)

  unfoldable pub start_hosting : World → Bool × World × List Call
  unfolding then_do open_listen_socket
  start_hosting w =
      let opened = then_do (w, create_lobby ∷ []) open_listen_socket in
      if not steam.can_create_lobby
      then (false, w, create_lobby ∷ [])
      else if w.room.vpn_mode
      then (true, w, create_lobby ∷ [])
      else (is_set steam.new_listen_socket, opened.0, opened.1)
