-- ===== src/Tunnel/Events.antt =====
-- What happens to the tunnel, as a sequence of events.
use connecttool_qt.Base.{ℕ, List, [], ◌∷◌, Bool, Option}
use connecttool_qt.Multiplex.Packet.{ClientId}
use connecttool_qt.Tunnel.State.{Network, Method, then_do}
use connecttool_qt.Tunnel.Poll.{Batches, start, stop, on_timer}
use connecttool_qt.Tunnel.Server.{start_server, stop_server, on_accept, on_read}
use connecttool_qt.Tunnel.Callbacks.{on_flush_timer, on_client_read, on_write_failed}

pub data Event : Type 0 where
  starts : Bool → Batches → Event
  stops : Event
  polls : Bool → Bool → Batches → Event
  server_starts : Bool → Event
  server_stops : Event
  accepts : ℕ → ℕ → Option ClientId → Event
  reads : Bool → ℕ → ℕ → ClientId → Option (List ℕ) → Event
  flushes : Bool → ℕ → Event
  client_reads : ℕ → ClientId → Option (List ℕ) → Event
  write_fails : ℕ → ClientId → Event

module _ (net : Network) where
  unfoldable pub step : Event → Method net
  step (starts hosts batches) t = start net hosts batches t
  step stops t = (stop net t, [])
  step (polls failed hosts batches) t = on_timer net failed hosts batches t
  step (server_starts listens) t = let (ok, t', out) = start_server net listens t in (t', out)
  step server_stops t = (stop_server net t, [])
  step (accepts conn socket id) t = on_accept net conn socket id t
  step (reads connected conn socket id bytes) t = on_read net connected conn socket id bytes t
  step (flushes failed conn) t = on_flush_timer net failed conn t
  step (client_reads conn id bytes) t = on_client_read net conn id bytes t
  step (write_fails conn id) t = on_write_failed net conn id t

  unfoldable pub run : List Event → Method net
  unfolding then_do
  run [] t = (t, [])
  run (e ∷ es) t = then_do net (step e t) (run es)
