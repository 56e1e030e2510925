-- ===== src/Connections/Events.antt =====
-- What happens to the manager, as a sequence of events.
use connecttool_qt.Base.{ℕ, List, [], ◌∷◌, Bool, true}
use connecttool_qt.Connections.State.{Steam, Method, then_do}
use connecttool_qt.Connections.Manager.{join_host, disconnect, close_connection_to_peer}
use connecttool_qt.Connections.Update.{update}
use connecttool_qt.Connections.Status.{Change, handle_connection_status_changed}

-- An event that reads the clock has the reading, and each has what Steam answers at that time.
-- `listens` is what the room manager does to this object when it starts to host.
pub data Event : Type 0 where
  joins : Steam → ℕ → ℕ → Event
  disconnects : Event
  closes : Steam → ℕ → Event
  listens : ℕ → Event
  updates : Steam → ℕ → Event
  changes : Steam → Bool → Change → Event

unfoldable pub step : Event → Method
step (joins steam now host) m = join_host steam now host m
step disconnects m = disconnect m
step (closes steam peer) m = close_connection_to_peer steam peer m
step (listens socket) m = (record m { listen_socket = socket; is_host = true }, [])
step (updates steam now) m = update steam now m
step (changes steam has_room c) m = handle_connection_status_changed steam has_room c m

unfoldable pub run : List Event → Method
unfolding then_do
run [] m = (m, [])
run (e ∷ es) m = then_do (step e m) (run es)
