-- ===== src/Connections/Manager.antt =====
-- Connecting, joining, disconnecting and closing the connections to a peer.
use connecttool_qt.Base.{
  ℕ, List, [], ◌∷◌, ◌++◌, Bool, true, false, ◌&&◌, not, Option, none, some, map, if◌then◌else◌,
  ◌==◌,
}
use connecttool_qt.Base.Int.{ℤ, pos}
use connecttool_qt.Steam.{socket_settings}
use connecttool_qt.Connections.State.{
  Steam, Manager, Call, configure, close_connection, close_listen_socket, connect, shut_down_steam,
  Method, then_do,
}

-- k_HSteamNetConnection_Invalid and k_HSteamListenSocket_Invalid are 0.
abbrev pub is_set : ℕ → Bool
is_set handle = not (handle == 0)

unfoldable pub initialize : Bool → Bool × List Call
initialize running = if running then (true, map configure socket_settings) else (false, [])

unfoldable pub shutdown : Manager → List Call
shutdown m =
    (if is_set m.connection then close_connection m.connection ∷ [] else [])
    ++ (if is_set m.listen_socket then close_listen_socket m.listen_socket ∷ [] else [])
    ++ shut_down_steam ∷ []

unfoldable pub disconnect : Method
disconnect m = (
  record m {
    connection = 0;
    connect_attempt_start = 0;
    connections = [];
    listen_socket = 0;
    is_host = false;
    is_client = false;
    is_connected = false;
    host_ping = pos 0;
    relay_fallback_pending = false;
    relay_fallback_tried = false;
    bad_samples = 0;
    last_relay_fallback = 0;
    last_ice_timeout = 0;
  },
  (if is_set m.connection then close_connection m.connection ∷ [] else [])
      ++ map close_connection m.connections
      ++ (if is_set m.listen_socket then close_listen_socket m.listen_socket ∷ [] else []),
)

-- Whether a connection is one to a given peer.
abbrev pub is_peer : ℕ → Option ℕ → Bool
is_peer peer none = false
is_peer peer (some remote) = remote == peer

abbrev pub leads_to : Steam → ℕ → ℕ → Bool
leads_to steam peer conn = is_peer peer (steam.remote_of conn)

-- Steam knows nothing of a connection once it is closed.
abbrev pub without : ℕ → Steam → Steam
without conn steam = record steam {
  remote_of = λ c. if c == conn then none else steam.remote_of c;
  status_of = λ c. if c == conn then none else steam.status_of c;
}

unfoldable pub without_all : List ℕ → Steam → Steam
without_all [] steam = steam
without_all (conn ∷ conns) steam = without_all conns (without conn steam)

-- The loop that closes the connections to a peer, but for some: the rest, and those closed.
unfoldable pub close_to : (ℕ → Bool) → ℕ → List ℕ → Steam → List ℕ × List ℕ
close_to spared peer [] steam = ([], [])
close_to spared peer (conn ∷ conns) steam =
    let kept = close_to spared peer conns steam in
    let closed = close_to spared peer conns (without conn steam) in
    if not (spared conn) && leads_to steam peer conn
    then (closed.0, conn ∷ closed.1)
    else (conn ∷ kept.0, kept.1)

-- The current connection is closed and forgotten.
unfoldable pub close_current : Method
close_current m = (
  record m { connection = 0; is_connected = false; host_ping = pos 0 },
  close_connection m.connection ∷ [],
)

-- The loop over the connections.
unfoldable pub close_listed : (ℕ → Bool) → ℕ → Steam → Method
close_listed spared peer steam m =
    let closed = close_to spared peer m.connections steam in
    (record m { connections = closed.0 }, map close_connection closed.1)

-- When the loop runs, a current connection to the peer is closed already.
unfoldable pub close_connection_to_peer : Steam → ℕ → Method
unfolding then_do
close_connection_to_peer steam peer m =
    if not (steam.is_valid_id peer)
    then (m, [])
    else if is_set m.connection && leads_to steam peer m.connection
    then then_do (close_current m) (close_listed (λ c. false) peer (without m.connection steam))
    else close_listed (λ c. false) peer steam m

-- getConnectionRelayInfo: Steam's relay flag, if it knows the connection.
unfoldable pub get_connection_relay_info : Steam → ℕ → Option Bool
get_connection_relay_info steam conn = elim (steam.remote_of conn) [
  | some remote ↦ some (steam.relayed conn)
  | none ↦ none
]

module _ (steam : Steam) where
  unfoldable pub get_connection_ping : ℕ → ℤ
  get_connection_ping conn = elim (steam.status_of conn) [ some s ↦ s.ping | none ↦ pos 0 ]

  module _ (now : ℕ) where
    -- The call of ConnectP2P, which returns the handle.
    unfoldable pub dial : ℕ → Bool → Method
    dial host relay_only m =
        let handle = steam.connect_p2p host relay_only in
        (
          record m {
            connection = handle;
            connect_attempt_start = if is_set handle then now else m.connect_attempt_start;
          },
          connect host relay_only ∷ [],
        )

    unfoldable pub connect_to_host_internal : ℕ → Bool → Method
    unfolding then_do
    connect_to_host_internal host relay_only m =
        then_do (if is_set m.connection then close_current m else (m, [])) (dial host relay_only)

    -- What it returns is whether there is a connection after it.
    unfoldable pub join_host : ℕ → Method
    join_host host m = connect_to_host_internal host false (record m {
      is_client = true;
      host_steam_id = host;
      relay_fallback_pending = false;
      relay_fallback_tried = false;
      bad_samples = 0;
      last_ice_timeout = 0;
    })
