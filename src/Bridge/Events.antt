-- ===== src/Bridge/Events.antt =====
-- Everything that happens to a bridge, as a sequence of events: the calls of its owner, the
-- packets of the device, the messages of peers, and the two threads' timers, in any order.
use connecttool_qt.Base.{ℕ, List, [], ◌∷◌}
use connecttool_qt.Platform.{Platform}
use connecttool_qt.Bridge.State.{Host}
use connecttool_qt.Bridge.Calls.{Method, then_do, stop, on_timeout, on_heartbeat_round}
use connecttool_qt.Bridge.Forward.{forward_packet}
use connecttool_qt.Bridge.Receive.{handle_vpn_message}
use connecttool_qt.Bridge.Lifecycle.{Device, start, on_user_joined, on_user_left, rebroadcast_state}

-- An event that reads the clock has the reading first.
pub data Event : Type 0 where
  starts : ℕ → Device → List ℕ → List ℕ → Event
  stops : ℕ → Event
  times_out : ℕ → Event
  beats : ℕ → Event
  reads : List ℕ → Event
  receives : ℕ → List ℕ → ℕ → Event
  joins : ℕ → ℕ → Event
  leaves : ℕ → Event
  rebroadcasts : ℕ → Event

module _ (p : Platform) (host : Host) where
  unfoldable pub step : Event → Method
  step (starts now device subnet mask) b =
      let (started, b', out) = start p host now device subnet mask b in (b', out)
  step (stops now) b = stop now b
  step (times_out now) b = on_timeout p host now b
  step (beats now) b = on_heartbeat_round p host now b
  step (reads packet) b = forward_packet p host packet b
  step (receives now bytes sender) b = handle_vpn_message p host now bytes sender b
  step (joins now steam_id) b = on_user_joined p host now steam_id b
  step (leaves steam_id) b = on_user_left host steam_id b
  step (rebroadcasts now) b = rebroadcast_state p host now b

  unfoldable pub run : List Event → Method
  unfolding then_do
  run [] b = (b, [])
  run (e ∷ es) b = then_do (step e b) (run es)
