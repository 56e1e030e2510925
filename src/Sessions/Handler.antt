-- ===== src/Sessions/Handler.antt =====
-- VpnMessageHandler: the poll of Steam's messages, its timer, and its start and stop.
use connecttool_qt.Base.{
  ℕ, ◌+◌, List, [], ◌∷◌, Bool, true, false, ◌&&◌, ◌||◌, not, Option, none, some, min, length,
  if◌then◌else◌, leb, ◌==◌,
}
use connecttool_qt.Platform.{Platform}
use connecttool_qt.Wire.{load, field_at}
use connecttool_qt.Protocol.Messages.{session_hello, type_code, size_header}
use connecttool_qt.Bridge.State.{Host}
use connecttool_qt.Sessions.State.{
  Manager, Handler, Method, Call, then_do, min_poll_interval, max_poll_interval, poll_increment,
}
use connecttool_qt.Sessions.Peers.{handle_incoming_vpn_message}

pub record Message : Type 0 where
  pub bytes : List ℕ
  pub sender : ℕ

-- The interval after a poll that received a number of messages.
unfoldable pub next_interval : ℕ → ℕ → ℕ
next_interval received interval =
    if received == 0 then min (interval + poll_increment) max_poll_interval else min_poll_interval

unfoldable pub is_hello : Message → Bool
is_hello msg =
    leb size_header (length msg.bytes) && (load (field_at 0 1 msg.bytes) == type_code session_hello)

abbrev pub with_interval : ℕ → Handler → Handler
with_interval received h = record h { poll_interval = next_interval received h.poll_interval }

abbrev pub on_handler : (Handler → Handler) → Option Handler → Option Handler
on_handler f none = none
on_handler f (some h) = some (f h)

module _ (p : Platform) (host : Host) (now : ℕ) where
  unfoldable pub handle_message : Message → Method
  handle_message msg m =
      if is_hello msg
      then (m, [])
      else handle_incoming_vpn_message p host now msg.bytes msg.sender m

  unfoldable pub handle_messages : List Message → Method
  unfolding then_do
  handle_messages [] m = (m, [])
  handle_messages (msg ∷ msgs) m = then_do (handle_message msg m) (handle_messages msgs)

  -- The messages are those that ReceiveMessagesOnChannel returned.
  unfoldable pub poll_messages : List Message → Method
  unfolding then_do
  poll_messages incoming m =
      then_do (handle_messages incoming m)
        λ m'. (record m' { handler = on_handler (with_interval (length incoming)) m'.handler }, [])

unfoldable pub schedule_poll : Handler → Handler
schedule_poll h = if not h.running || not h.timer then h else record h { waiting = true }

unfoldable pub set_io_context : Bool → Handler → Handler
set_io_context given h = if not h.running && given then record h { external = true } else h

unfoldable pub start : Handler → Handler
start h =
    let begun = schedule_poll (record h { running = true; timer = true }) in
    if h.running then h else record begun { thread = begun.thread || not h.external }

unfoldable pub stop : Handler → Handler
stop h =
    if h.running
    then record h { running = false; timer = false; waiting = false; thread = false }
    else h

-- The timer's handler: `failed` is its error code, which is set when the wait was cancelled.
module _ (p : Platform) (host : Host) (now : ℕ) where
  -- The wait that ended is over before the next is made; the poll does not look at it.
  unfoldable pub after_poll : Manager × List Call → Manager × List Call
  after_poll r = (
    record (r.0) {
      handler = on_handler (λ h. schedule_poll (record h { waiting = false })) (r.0).handler;
    },
    r.1,
  )

  -- A failed wait is one that stop cancelled, with its timer.
  unfoldable pub fire : Bool → List Message → Handler → Method
  unfolding after_poll
  fire failed incoming h m =
      if failed || not h.running then (m, []) else after_poll (poll_messages p host now incoming m)

  unfoldable pub on_timer : Bool → List Message → Option Handler → Method
  unfolding fire
  on_timer failed incoming none m = (m, [])
  on_timer failed incoming (some h) m = fire failed incoming h m

unfoldable pub start_message_handler : Manager → Manager
start_message_handler m = record m { handler = on_handler start m.handler }

unfoldable pub stop_message_handler : Manager → Manager
stop_message_handler m = record m { handler = on_handler stop m.handler }
