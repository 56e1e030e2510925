-- ===== src/Tunnel/Poll.antt =====
-- SteamMessageHandler: start, stop and startAsyncPoll.
use connecttool_qt.Base.{
  ℕ, ◌+◌, List, [], ◌∷◌, ◌++◌, map, Bool, true, false, not, Option, none, some, min, length, ltb,
  if◌then◌else◌,
}
use connecttool_qt.Base.Key.{nat_key}
use connecttool_qt.Base.Map.{assign}
use connecttool_qt.Multiplex.Packet.{ClientId, Packet}
use connecttool_qt.Multiplex.Manager.{Effect, Handled, handle_tunnel_packet}
use connecttool_qt.Tunnel.State.{
  Network, steam_on, Output, on_socket, passed, Tunnel, Method, then_do, get_multiplex_manager,
}

-- A message, and the outcome of connecting to the local server if that is tried for it.
pub record Message : Type 0 where
  pub packet : Packet
  pub connected : Option ℕ

abbrev pub effects_on : ℕ → List Effect → List Output
effects_on conn effects = map (on_socket conn) effects

abbrev pub passed_on : ℕ → List (ClientId × Packet) → List Output
passed_on conn packets = map (λ (e : ClientId × Packet). passed conn e.0 e.1) packets

-- What ReceiveMessagesOnConnection gives for the connections in order: the messages, or nothing
-- where it returns -1, for a handle that is not valid.
abbrev pub Batches : Type 0
Batches = List (ℕ × Option (List Message))

unfoldable pub count_messages : Batches → ℕ
count_messages [] = 0
count_messages ((conn, none) ∷ batches) = count_messages batches
count_messages ((conn, some messages) ∷ batches) = length messages + count_messages batches

unfoldable pub count_failures : Batches → ℕ
count_failures [] = 0
count_failures ((conn, none) ∷ batches) = count_failures batches + 1
count_failures ((conn, some messages) ∷ batches) = count_failures batches

-- `totalMessages > 0`, for the sum of what the calls return
unfoldable pub any_received : Batches → Bool
unfolding count_messages count_failures
any_received batches = ltb (count_failures batches) (count_messages batches)

module _ (net : Network) where
  -- What a connection's multiplexer leaves.
  unfoldable pub settle : (conn : ℕ) → Handled (steam_on net conn) → Method net
  settle conn r t = (
    record t { managers = assign conn r.manager t.managers; world = r.world },
    passed_on conn r.passed ++ effects_on conn r.effects,
  )

  -- `hosts` is `g_isHost_ && localPort_ > 0`.
  unfoldable pub handle_message : Bool → ℕ → Message → Method net
  unfolding settle get_multiplex_manager
  handle_message hosts conn msg t =
      settle conn
        (handle_tunnel_packet (steam_on net conn) hosts msg.connected msg.packet
          (get_multiplex_manager conn t.managers) t.world)
        t

  unfoldable pub handle_messages : Bool → ℕ → List Message → Method net
  unfolding then_do handle_message
  handle_messages hosts conn [] t = (t, [])
  handle_messages hosts conn (msg ∷ messages) t =
      then_do net (handle_message hosts conn msg t) (handle_messages hosts conn messages)

  unfoldable pub handle_batches : Bool → Batches → Method net
  unfolding then_do handle_messages
  handle_batches hosts [] t = (t, [])
  handle_batches hosts ((conn, none) ∷ batches) t = handle_batches hosts batches t
  handle_batches hosts ((conn, some messages) ∷ batches) t =
      then_do net (handle_messages hosts conn messages t) (handle_batches hosts batches)

  unfoldable pub schedule : Bool → Tunnel net → Tunnel net
  schedule received t = record t {
    poll_interval = if received then 0 else min (t.poll_interval + 1) 2;
    waiting = true;
  }

  unfoldable pub start_async_poll : Bool → Batches → Method net
  unfolding then_do handle_batches schedule any_received
  start_async_poll hosts batches t =
      if not t.running
      then (t, [])
      else then_do net (handle_batches hosts batches t)
          (λ t'. (schedule (any_received batches) t', []))

  unfoldable pub start : Bool → Batches → Method net
  unfolding start_async_poll
  start hosts batches t =
      if t.running then (t, []) else start_async_poll hosts batches (record t { running = true })

  unfoldable pub stop : Tunnel net → Tunnel net
  stop t = if t.running then record t { running = false; waiting = false } else t

  -- The timer's handler: `failed` is its error, which is set for a wait that was cancelled.
  unfoldable pub on_timer : Bool → Bool → Batches → Method net
  unfolding start_async_poll
  on_timer failed hosts batches t = if failed then (t, []) else start_async_poll hosts batches t
