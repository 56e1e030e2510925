-- ===== src/Sessions/History.antt =====
-- The invariant of the manager in every history.
use connecttool_qt.Base.{
  length, ◌||◌, ℕ, refl, List, [], ◌∷◌, Bool, true, false, not, Option, none, some, if_cases, arith,
}
use connecttool_qt.Base.Map.{find}
use connecttool_qt.Base.Key.{nat_key}
use connecttool_qt.Platform.{Platform}
use connecttool_qt.Bridge.State.{Bridge, Host}
use connecttool_qt.Bridge.State as B
use connecttool_qt.Bridge.Events as Bridge
use connecttool_qt.Bridge.Receive as Receive
use connecttool_qt.Bridge.Preserve.{empty-IsTable}
use connecttool_qt.Bridge.Invariant.{handle_vpn_message-Keeps, step-Routed}
use connecttool_qt.Sessions.State.{Manager, Handler, Call, then_do, new, new_handler}
use connecttool_qt.Sessions.Peers.{
  host_of, initialize, shutdown, handle_incoming_vpn_message, on_session_request, on_session_failed,
}
use connecttool_qt.Sessions.Handler.{
  Message, is_hello, handle_message, handle_messages, poll_messages, fire, after_poll, on_timer,
  on_handler, with_interval, next_interval, schedule_poll, start, stop, start_message_handler,
  stop_message_handler,
}
use connecttool_qt.Sessions.Events.{
  Event, initializes, attaches, shuts_down, adds, removes, clears, syncs, requested, failed,
  starts_handler, stops_handler, fires, bridges, step, run,
}
use connecttool_qt.Sessions.Invariant.{
  IsPaced, Paced, IsValid, Valid, KeepsValid, then_do-Valid, on_bridge-Valid, add_peer-Valid,
  remove_peer-Valid, clear_peers-Valid, sync_peers-Valid,
}

on_handler-Paced :
    (f : Handler → Handler)
    → ((h : Handler) → IsPaced h → IsPaced (f h))
    → (o : Option Handler) → Paced o
    → Paced (on_handler f o)
on_handler-Paced f k none v = v
on_handler-Paced f k (some h) v = k h v

with_interval-IsPaced : (n : ℕ) (h : Handler) → IsPaced h → IsPaced (with_interval n h)
unfolding next_interval
with_interval-IsPaced n h v = record {
  not_less = ground (arith, v.not_less);
  not_more = ground (arith, v.not_more);
  timed = v.timed;
  pending = v.pending;
}

reschedule-IsPaced :
    (h : Handler) → IsPaced h → IsPaced (schedule_poll (record h { waiting = false }))
unfolding schedule_poll
reschedule-IsPaced h v = ground arith

start-IsPaced : (h : Handler) → IsPaced h → IsPaced (start h)
unfolding start schedule_poll
start-IsPaced h v = ground arith

stop-IsPaced : (h : Handler) → IsPaced h → IsPaced (stop h)
unfolding stop
stop-IsPaced h v = ground arith

new_handler-IsPaced : IsPaced new_handler
unfolding new_handler
new_handler-IsPaced = ground arith

module _ (p : Platform) (host : Host) (signed_in : Bool) where
  module _ (now : ℕ) where
    handle_message-Valid :
        (msg : Message) → KeepsValid p host signed_in (handle_message p host now msg)
    unfolding handle_message handle_incoming_vpn_message
    handle_message-Valid msg m v =
        if_cases (Valid p host signed_in) (is_hello msg) {x = (m, [])} (λ _. v)
          (λ _.
            on_bridge-Valid p host signed_in
              (Receive.handle_vpn_message p (host_of host m) now msg.bytes msg.sender) m.bridge m
              (handle_vpn_message-Keeps p (host_of host m) now msg.bytes msg.sender) v.bridged v)

    handle_messages-Valid :
        (msgs : List Message) → KeepsValid p host signed_in (handle_messages p host now msgs)
    unfolding handle_messages
    handle_messages-Valid [] m v = v
    handle_messages-Valid (msg ∷ msgs) m v =
        then_do-Valid p host signed_in (handle_message p host now msg m)
          (handle_messages p host now msgs) (handle_message-Valid msg m v)
          (handle_messages-Valid msgs)

    -- The same with another handler.
    handler-IsValid :
        (o : Option Handler) (m : Manager)
        → Paced o
        → IsValid p host signed_in m
        → IsValid p host signed_in (record m { handler = o })
    handler-IsValid o m h v = record {
      sorted = v.sorted;
      not_own = v.not_own;
      bridged = v.bridged;
      paced = h;
    }

    poll_messages-Valid :
        (msgs : List Message) → KeepsValid p host signed_in (poll_messages p host now msgs)
    unfolding poll_messages then_do
    poll_messages-Valid msgs m v =
        let r = handle_messages-Valid msgs m v in
        handler-IsValid _ (handle_messages p host now msgs m).0
          (on_handler-Paced (with_interval (length msgs)) (with_interval-IsPaced (length msgs))
            (handle_messages p host now msgs m).0.handler r.paced)
          r

    after_poll-Valid :
        (r : Manager × List Call)
        → Valid p host signed_in r
        → Valid p host signed_in (after_poll p host now r)
    unfolding after_poll
    after_poll-Valid r v =
        handler-IsValid _ r.0 (on_handler-Paced _ reschedule-IsPaced (r.0).handler v.paced) v

    on_timer-Valid :
        (cancelled : Bool) (msgs : List Message) (o : Option Handler)
        → KeepsValid p host signed_in (on_timer p host now cancelled msgs o)
    unfolding on_timer fire
    on_timer-Valid cancelled msgs none m v = v
    on_timer-Valid cancelled msgs (some h) m v =
        if_cases (Valid p host signed_in) (cancelled || not h.running) {x = (m, [])} (λ _. v)
          (λ _. after_poll-Valid (poll_messages p host now msgs m) (poll_messages-Valid msgs m v))

  initialize-IsValid :
      (running has_interface : Bool) (m : Manager)
      → IsValid p host signed_in m
      → IsValid p host signed_in (initialize running has_interface m).1
  unfolding initialize
  initialize-IsValid false has_interface m v = v
  initialize-IsValid true true m v = record {
    sorted = v.sorted;
    not_own = v.not_own;
    bridged = v.bridged;
    paced = new_handler-IsPaced;
  }
  initialize-IsValid true false m v = record {
    sorted = v.sorted;
    not_own = v.not_own;
    bridged = v.bridged;
    paced = v.paced;
  }

  step-Valid : (e : Event) → KeepsValid p host signed_in (step p host signed_in e)
  unfolding step find shutdown on_session_request on_session_failed start_message_handler
      stop_message_handler B.new
  step-Valid (initializes running has_interface) m v = initialize-IsValid running has_interface m v
  step-Valid attaches m v = record {
    sorted = v.sorted;
    not_own = v.not_own;
    bridged = empty-IsTable;
    paced = v.paced;
  }
  step-Valid shuts_down m v = record {
    sorted = tt;
    not_own = λ q own. refl;
    bridged = v.bridged;
    paced = v.paced;
  }
  step-Valid (adds now peer) m v = add_peer-Valid p host signed_in now peer m v
  step-Valid (removes peer) m v = remove_peer-Valid p host signed_in 0 peer m v
  step-Valid clears m v = clear_peers-Valid p host signed_in 0 m v
  step-Valid (syncs now desired) m v = sync_peers-Valid p host signed_in now desired m v
  step-Valid (requested remote) m v = v
  step-Valid (failed remote) m v = remove_peer-Valid p host signed_in 0 remote m v
  step-Valid starts_handler m v =
      handler-IsValid 0 _ m (on_handler-Paced start start-IsPaced m.handler v.paced) v
  step-Valid stops_handler m v =
      handler-IsValid 0 _ m (on_handler-Paced stop stop-IsPaced m.handler v.paced) v
  step-Valid (fires now cancelled msgs) m v = on_timer-Valid now cancelled msgs m.handler m v
  step-Valid (bridges e) m v =
      on_bridge-Valid p host signed_in (Bridge.step p (host_of host m) e) m.bridge m
        (step-Routed p (host_of host m) e) v.bridged v

  run-Valid_from : (es : List Event) → KeepsValid p host signed_in (run p host signed_in es)
  unfolding run
  run-Valid_from [] m v = v
  run-Valid_from (e ∷ es) m v =
      then_do-Valid p host signed_in (step p host signed_in e m) (run p host signed_in es)
        (step-Valid e m v) (run-Valid_from es)

  -- After every sequence of events of a new manager with its bridge and its message handler, the
  -- peers ascend, each once, the user itself is none of them, the bridge's routing table is well-
  -- formed, and the handler is paced: its interval lies between 100 and 1000 microseconds, and it
  -- has its timer and a pending wait exactly while it runs.
  pub run-IsValid : (es : List Event) → IsValid p host signed_in (run p host signed_in es new).0
  unfolding new find
  run-IsValid es =
      run-Valid_from es new
        (record { sorted = tt; not_own = λ q own. refl; bridged = tt; paced = tt })
