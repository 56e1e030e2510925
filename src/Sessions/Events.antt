-- ===== src/Sessions/Events.antt =====
-- Everything that happens to the manager and to its bridge, as a sequence of events.
use connecttool_qt.Base.{ℕ, List, [], ◌∷◌, Bool, some}
use connecttool_qt.Platform.{Platform}
use connecttool_qt.Bridge.State.{Host}
use connecttool_qt.Bridge.State as B
use connecttool_qt.Bridge.Events as Bridge
use connecttool_qt.Sessions.State.{Peers, Method, then_do}
use connecttool_qt.Sessions.Peers.{
  host_of, on_bridge, initialize, shutdown, add_peer, remove_peer, clear_peers, sync_peers,
  on_session_request, on_session_failed,
}
use connecttool_qt.Sessions.Handler.{Message, on_timer, start_message_handler, stop_message_handler}

-- An event that reads the clock has the reading first. `attaches` is setVpnBridge with a new bridge.
pub data Event : Type 0 where
  initializes : Bool → Bool → Event
  attaches : Event
  shuts_down : Event
  adds : ℕ → ℕ → Event
  removes : ℕ → Event
  clears : Event
  syncs : ℕ → Peers → Event
  requested : ℕ → Event
  failed : ℕ → Event
  starts_handler : Event
  stops_handler : Event
  fires : ℕ → Bool → List Message → Event
  bridges : Bridge.Event → Event

module _ (p : Platform) (host : Host) (signed_in : Bool) where
  unfoldable pub step : Event → Method
  unfolding on_bridge
  step (initializes running has_interface) m =
      let (ok, m', out) = initialize running has_interface m in (m', out)
  step attaches m = (record m { bridge = some B.new }, [])
  step shuts_down m = shutdown m
  step (adds now peer) m = add_peer p host signed_in now peer m
  step (removes peer) m = remove_peer p host signed_in 0 peer m
  step clears m = clear_peers p host signed_in 0 m
  step (syncs now desired) m = sync_peers p host signed_in now desired m
  step (requested remote) m = on_session_request p host signed_in 0 remote m
  step (failed remote) m = on_session_failed p host signed_in 0 remote m
  step starts_handler m = (start_message_handler m, [])
  step stops_handler m = (stop_message_handler m, [])
  step (fires now cancelled incoming) m = on_timer p host now cancelled incoming m.handler m
  step (bridges e) m = on_bridge (Bridge.step p (host_of host m) e) m.bridge m

  unfoldable pub run : List Event → Method
  unfolding then_do
  run [] m = (m, [])
  run (e ∷ es) m = then_do (step e m) (run es)
