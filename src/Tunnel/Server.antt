-- ===== src/Tunnel/Server.antt =====
-- TCPServer: its clients, and what becomes of a connection and of what is read from it.
use connecttool_qt.Base.{
  ℕ, List, [], ◌∷◌, ◌++◌, Bool, true, false, Option, none, some, length, if◌then◌else◌, ◌==◌,
}
use connecttool_qt.Base.Key.{nat_key}
use connecttool_qt.Base.Set.{remove}
use connecttool_qt.Multiplex.Packet.{ClientId}
use connecttool_qt.Multiplex.Manager.{add_client, remove_client, send_tunnel_packet}
use connecttool_qt.Tunnel.State.{
  Network, steam_on, Output, write, client_count, read, accept, Tunnel, Method, then_do,
  get_multiplex_manager,
}
use connecttool_qt.Tunnel.Poll.{settle}

-- sendToAll: every client but one.
unfoldable pub send_to_all : List ℕ → ℕ → List ℕ → List Output
send_to_all bytes excluded [] = []
send_to_all bytes excluded (client ∷ clients) =
    let rest = send_to_all bytes excluded clients in
    if client == excluded then rest else write client bytes ∷ rest

module _ (net : Network) where
  -- The result of start, `listens` if no call of it throws; and stop.
  unfoldable pub start_server : Bool → Tunnel net → Bool × Tunnel net × List Output
  start_server listens t =
      if listens then (true, record t { server_running = true }, accept ∷ []) else (false, t, [])

  unfoldable pub stop_server : Tunnel net → Tunnel net
  stop_server t = record t { server_running = false }

  -- Calls of the current connection's multiplexer.
  unfoldable pub add : ℕ → ClientId → ℕ → Method net
  unfolding settle get_multiplex_manager
  add conn id socket t =
      let (m, effects) = add_client id socket (get_multiplex_manager conn t.managers) in
      settle net conn (record { manager = m; world = t.world; passed = []; effects = effects }) t

  unfoldable pub forward : ℕ → ClientId → List ℕ → ℕ → Method net
  unfolding settle get_multiplex_manager
  forward conn id bytes type t =
      let s =
        send_tunnel_packet (steam_on net conn) id bytes type (get_multiplex_manager conn t.managers)
          t.world in
      settle net conn
        (record { manager = s.manager; world = s.world; passed = s.passed; effects = [] }) t

  unfoldable pub drop_client : ℕ → ClientId → Method net
  unfolding settle get_multiplex_manager
  drop_client conn id t =
      let (was, m, effects) = remove_client id (get_multiplex_manager conn t.managers) in
      settle net conn (record { manager = m; world = t.world; passed = []; effects = effects }) t

  -- The handler of start_accept; `id` is the ID that addClient finds, and there is none on an
  -- error. `conn` is the current connection.
  unfoldable pub accepted : ℕ → ℕ → Option ClientId → Method net
  unfolding then_do add
  accepted conn socket none t = (t, [])
  accepted conn socket (some id) t = then_do net (add conn id socket t) (λ t'. (
    record t' { clients = t'.clients ++ socket ∷ [] },
    client_count (length (t'.clients ++ socket ∷ [])) ∷ read socket id ∷ [],
  ))

  unfoldable pub on_accept : ℕ → ℕ → Option ClientId → Method net
  unfolding then_do accepted
  on_accept conn socket id t =
      then_do net (accepted conn socket id t)
        (λ t'. (t', (if t'.server_running then accept ∷ [] else [])))

  -- The handler of start_read: the bytes, or nothing on an error. `connected` is isConnected.
  unfoldable pub on_read : Bool → ℕ → ℕ → ClientId → Option (List ℕ) → Method net
  unfolding then_do forward drop_client send_to_all
  on_read connected conn socket id (some bytes) t =
      then_do net (if connected then forward conn id bytes 0 t else (t, []))
        (λ t'. (t', send_to_all bytes socket t'.clients ++ read socket id ∷ []))
  on_read connected conn socket id none t =
      then_do net
        (if connected then then_do net (forward conn id [] 1 t) (drop_client conn id) else (t, []))
        (λ t'. (
          record t' { clients = remove socket t'.clients },
          client_count (length (remove socket t'.clients)) ∷ [],
        ))
