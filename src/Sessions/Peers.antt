-- ===== src/Sessions/Peers.antt =====
-- The methods of SteamVpnNetworkingManager.
use connecttool_qt.Base.{
  ℕ, List, [], ◌∷◌, Bool, true, false, ◌&&◌, not, Option, none, some, map, length, if◌then◌else◌,
  ◌==◌,
}
use connecttool_qt.Base.Map.{assign, erase}
use connecttool_qt.Base.Key.{nat_key}
use connecttool_qt.Platform.{Platform}
use connecttool_qt.Protocol.Messages.{session_hello}
use connecttool_qt.Protocol.Frame.{frame}
use connecttool_qt.Steam.{reliable_auto_restart, message_settings}
use connecttool_qt.Bridge.State.{Bridge, Host, Output}
use connecttool_qt.Bridge.Calls as Calls
use connecttool_qt.Bridge.Lifecycle as Lifecycle
use connecttool_qt.Bridge.Receive as Receive
use connecttool_qt.Sessions.State.{
  Peers, has, Manager, Call, configure, send, close_session, accept_session, Method, then_do,
  carry_out_all, new_handler,
}

-- A call of the bridge, if there is one, with the messages that it sends through the manager.
unfoldable pub settle : Manager → Bridge × List Output → Manager × List Call
settle m r = (record m { bridge = some (r.0) }, carry_out_all m r.1)

unfoldable pub on_bridge : Calls.Method → Option Bridge → Method
unfolding settle
on_bridge f none m = (m, [])
on_bridge f (some b) m = settle m (f b)

abbrev pub close_all : Peers → List Call
close_all [] = []
close_all ((peer, _) ∷ rest) = close_session peer ∷ close_all rest

-- What initialize finds: whether Steam runs, and whether it has the interface.
unfoldable pub initialize : Bool → Bool → Manager → Bool × Manager × List Call
initialize running has_interface m =
    let settings = map configure message_settings in
    if not running
    then (false, m, [])
    else if has_interface
    then (true, record m { ready = true; handler = some new_handler }, settings)
    else (false, record m { ready = false }, settings)

unfoldable pub shutdown : Method
shutdown m =
    (record m { peers = []; host_steam_id = 0 }, (if m.ready then close_all m.peers else []))

-- Steam names a session's peer with its state and its ping while it is connected.
pub record Session : Type 0 where
  pub connected : Bool
  pub ping : ℕ
  pub relayed : Bool

pub data ConnectionType : Type 0 where
  relay direct not_available : ConnectionType

module _ (session_of : ℕ → Session) where
  unfoldable pub is_peer_connected : ℕ → Manager → Bool
  is_peer_connected peer m = m.ready && (session_of peer).connected

  -- None stands for -1.
  unfoldable pub get_peer_ping : ℕ → Manager → Option ℕ
  get_peer_ping peer m =
      if not m.ready
      then none
      else if (session_of peer).connected
      then some (session_of peer).ping
      else none

  unfoldable pub get_peer_connection_type : ℕ → Manager → ConnectionType
  get_peer_connection_type peer m =
      if not m.ready
      then not_available
      else if (session_of peer).connected
      then (if (session_of peer).relayed then relay else direct)
      else not_available

module _ (host : Host) where
  -- The host as the bridge finds it: the peers are those of the manager.
  abbrev pub host_of : Manager → Host
  host_of m = record host { peer_count = length m.peers }

-- `signed_in` says that SteamUser() is there; our own Steam ID is the host's.
module _ (p : Platform) (host : Host) (signed_in : Bool) (now : ℕ) where
  abbrev pub is_own : ℕ → Bool
  is_own peer = signed_in && (peer == host.my_steam_id)

  unfoldable pub renew_session : ℕ → List Call
  renew_session peer =
      close_session peer
      ∷ accept_session peer
      ∷ send peer (frame p session_hello []) reliable_auto_restart
      ∷ []

  unfoldable pub enter_peer : ℕ → Method
  unfolding then_do renew_session on_bridge
  enter_peer peer m =
      then_do (record m { peers = assign peer tt m.peers }, renew_session peer)
        (λ m'. on_bridge (Lifecycle.on_user_joined p (host_of host m') now peer) m'.bridge m')

  unfoldable pub add_peer : ℕ → Method
  unfolding enter_peer
  add_peer peer m =
      if not m.ready then (m, []) else if is_own peer then (m, []) else enter_peer peer m

  unfoldable pub close_peer : ℕ → Method
  unfolding then_do on_bridge
  close_peer peer m =
      then_do (m, (if m.ready then close_session peer ∷ [] else []))
        (λ m'. on_bridge (Lifecycle.on_user_left (host_of host m') peer) m'.bridge m')

  unfoldable pub remove_peer : ℕ → Method
  unfolding close_peer
  remove_peer peer m =
      if has peer m.peers
      then close_peer peer (record m { peers = erase peer m.peers })
      else (m, [])

  unfoldable pub close_peers : Peers → Method
  unfolding then_do
  close_peers [] m = (m, [])
  close_peers ((peer, _) ∷ rest) m = then_do (close_peer peer m) (close_peers rest)

  unfoldable pub clear_peers : Method
  unfolding then_do
  clear_peers m = then_do (close_peers m.peers m) (λ m'. (record m' { peers = [] }, []))

  -- The two loops of syncPeers; `current` is the copy of the peers made before them.
  unfoldable pub add_missing : Peers → Peers → Method
  unfolding then_do
  add_missing current [] m = (m, [])
  add_missing current ((peer, _) ∷ desired) m =
      then_do (if has peer current then (m, []) else add_peer peer m) (add_missing current desired)

  unfoldable pub remove_unwanted : Peers → Peers → Method
  unfolding then_do
  remove_unwanted desired [] m = (m, [])
  remove_unwanted desired ((peer, _) ∷ current) m =
      then_do (if has peer desired then (m, []) else remove_peer peer m)
        (remove_unwanted desired current)

  unfoldable pub sync_peers : Peers → Method
  unfolding then_do
  sync_peers desired m = then_do (add_missing m.peers desired m) (remove_unwanted desired m.peers)

  unfoldable pub on_session_request : ℕ → Method
  on_session_request remote m = (m, (if m.ready then accept_session remote ∷ [] else []))

  unfoldable pub on_session_failed : ℕ → Method
  on_session_failed remote m = remove_peer remote m

module _ (p : Platform) (host : Host) (now : ℕ) where
  unfoldable pub handle_incoming_vpn_message : List ℕ → ℕ → Method
  unfolding on_bridge
  handle_incoming_vpn_message bytes sender m =
      on_bridge (Receive.handle_vpn_message p (host_of host m) now bytes sender) m.bridge m
