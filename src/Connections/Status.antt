-- ===== src/Connections/Status.antt =====
-- handleConnectionStatusChanged: Steam reports a connection's change of state.
use connecttool_qt.Base.{
  ℕ, List, [], ◌∷◌, ◌++◌, Bool, true, false, ◌&&◌, ◌||◌, not, Option, some, if◌then◌else◌, ◌==◌,
}
use connecttool_qt.Base.Int.{ℤ, pos}
use connecttool_qt.Connections.State.{
  Steam, Manager, Status, ConnectionState, idle, connecting, finding_route, connected,
  closed_by_peer, problem_detected_locally, accept, leave_lobby, Method, then_do,
}
use connecttool_qt.Connections.Manager.{
  is_set, leads_to, without_all, close_to, close_listed, close_current,
}

-- The callback's data: the connection, its peer, the two states, and which of the three texts that
-- the program looks for the debug message has.
pub record Change : Type 0 where
  pub conn : ℕ
  pub peer : ℕ
  pub old_state : ConnectionState
  pub state : ConnectionState
  pub says_timed_out : Bool
  pub says_end_to_end : Bool
  pub says_nat : Bool

abbrev pub has_failed : ConnectionState → Bool
has_failed problem_detected_locally = true
has_failed _ = false

abbrev pub failed_while_connecting : Change → Bool
failed_while_connecting c = is_attempt c.old_state
  where
    is_attempt : ConnectionState → Bool
    is_attempt finding_route = true
    is_attempt connecting = true
    is_attempt _ = false

-- What the change means for the list of connections.
pub data Kind : Type 0 where
  incoming established closed unchanged : Kind

unfoldable pub kind_of : ConnectionState → ConnectionState → Kind
kind_of idle connecting = incoming
kind_of connecting connected = established
kind_of _ closed_by_peer = closed
kind_of _ problem_detected_locally = closed
kind_of _ _ = unchanged

abbrev pub remove_first : ℕ → List ℕ → List ℕ
remove_first conn [] = []
remove_first conn (c ∷ conns) = if c == conn then conns else c ∷ remove_first conn conns

module _ (steam : Steam) where
  -- A failure is retried through the relay later, or ends the stay in the lobby.
  unfoldable pub note_failure : Change → Manager → Manager × Bool
  note_failure c m =
      let connecting = failed_while_connecting c in
      let nat = c.says_nat || c.says_timed_out in
      if not (has_failed c.state)
      then (m, false)
      else if m.is_client
          && not m.relay_fallback_tried
          && steam.is_valid_id m.host_steam_id
          && (connecting || c.says_end_to_end || nat)
      then (record m { relay_fallback_pending = true }, false)
      else (m, m.is_client && connecting && c.says_timed_out)

  abbrev is_same : Change → ℕ → Bool
  is_same c conn = conn == c.conn

  -- A current connection that leads to the peer as well.
  unfoldable pub close_duplicate : Steam → Change → Method
  close_duplicate left c m =
      if is_set m.connection && not (is_same c m.connection) && leads_to left c.peer m.connection
      then close_current m
      else (m, [])

  -- Other connections to the same peer are closed.
  unfoldable pub close_duplicates : Change → Method
  unfolding then_do close_duplicate
  close_duplicates c m =
      let closed = close_to (is_same c) c.peer m.connections steam in
      if steam.is_valid_id c.peer
      then then_do (close_listed (is_same c) c.peer steam m)
          (close_duplicate (without_all closed.1 steam) c)
      else (m, [])

  unfoldable pub accept_connection : Change → Method
  accept_connection c m = (
    record m {
      connections = m.connections ++ c.conn ∷ [];
      connection = c.conn;
      is_connected = true;
    },
    accept c.conn ∷ [],
  )

  unfoldable pub accept_incoming : Change → Method
  unfolding then_do accept_connection
  accept_incoming c m = then_do (close_duplicates c m) (accept_connection c)

  abbrev measured_ping : Option ℕ → Option Status → ℤ → ℤ
  measured_ping (some remote) (some s) ping = s.ping
  measured_ping _ _ ping = ping

  unfoldable pub change_connections : Kind → Change → Method
  unfolding accept_incoming
  change_connections incoming c m = accept_incoming c m
  change_connections established c m = (
    record m {
      is_connected = true;
      host_ping = measured_ping (steam.remote_of c.conn) (steam.status_of c.conn) m.host_ping;
    },
    [],
  )
  change_connections closed c m = (
    record m {
      is_connected = false;
      connection = 0;
      connect_attempt_start = 0;
      connections = remove_first c.conn m.connections;
      host_ping = pos 0;
    },
    [],
  )
  change_connections unchanged c m = (m, [])

  -- `has_room` says that a room manager is there.
  unfoldable pub handle_connection_status_changed : Bool → Change → Method
  unfolding then_do note_failure
  handle_connection_status_changed has_room c m =
      let (noted, leaves) = note_failure c m in
      then_do (change_connections (kind_of c.old_state c.state) c noted)
        (λ m'. (m', (if leaves && has_room then leave_lobby ∷ [] else [])))
