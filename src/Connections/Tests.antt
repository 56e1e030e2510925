-- ===== src/Connections/Tests.antt =====
-- A manager on concrete values: our connections 5 and 6, to the users 33 and 44.
use connecttool_qt.Base.{
  ℕ, ◌≤◌, ◌≡◌, refl, List, [], ◌∷◌, true, false, Option, none, some, if◌then◌else◌, ltb, ◌==◌,
  arith,
}
use connecttool_qt.Base.Int.{ℤ, pos, negsuc}
use connecttool_qt.Connections.State.{
  Steam, Manager, Status, connecting, problem_detected_locally, idle, close_connection, connect,
  leave_lobby, new, seconds,
}
use connecttool_qt.Connections.Transport.{estimate_relay_ping_ms}
use connecttool_qt.Connections.Manager.{
  disconnect, close_current, close_to, close_listed, close_connection_to_peer,
}
use connecttool_qt.Connections.Update.{update, is_past}
use connecttool_qt.Connections.Status.{Change, handle_connection_status_changed, accept_incoming}
use connecttool_qt.Connections.Events.{Event, joins, updates, changes, run}
use connecttool_qt.Connections.Credit.{relay_attempts, joins_of}
use connecttool_qt.Connections.Relay.{relay_attempts-run}
use connecttool_qt.Connections.Attempts.{
  joined, failed_once, retried, update-join_host, handle-update-handle, update-disconnect,
}
use connecttool_qt.Connections.Estimate.{IsEstimate, estimate_relay_ping_ms-IsEstimate}
use connecttool_qt.Connections.Closing.{Accepted, accept_incoming-Accepted}

abbrev status : Status
status = record { state = connecting; ping = pos 30; poor_local = false; poor_remote = false }

abbrev remote : ℕ → Option ℕ
remote conn = if conn == 5 then some 33 else if conn == 6 then some 44 else none

abbrev steam : Steam
steam = record {
  remote_of = remote;
  relayed = λ conn. false;
  status_of = λ conn. some status;
  connect_p2p = λ host relay_only. if relay_only then 9 else 8;
  is_valid_id = λ id. ltb 0 id;
}

-- A host whose current connection is 6.
abbrev hosting : Manager
hosting = record new { is_host = true; connection = 6; connections = 5 ∷ 6 ∷ []; listen_socket = 3 }

abbrev failure : Change
failure = record {
  conn = 8;
  peer = 33;
  old_state = connecting;
  state = problem_detected_locally;
  says_timed_out = true;
  says_end_to_end = false;
  says_nat = false;
}

abbrev arrival : Change
arrival = record {
  conn = 7;
  peer = 33;
  old_state = idle;
  state = connecting;
  says_timed_out = false;
  says_end_to_end = false;
  says_nat = false;
}

abbrev events : List Event
events =
    joins steam 1 33
    ∷ updates steam (seconds 20)
    ∷ changes steam true failure
    ∷ updates steam (seconds 60)
    ∷ []

relay_attempts-run_example : relay_attempts (run events new).1 ≤ joins_of events
relay_attempts-run_example = relay_attempts-run events

update-join_host_example :
    (update steam (seconds 9) (joined steam steam 1 (seconds 9) 33 new)).1
    ≡ (if is_past steam (seconds 9) 1 8 then close_connection 8 ∷ connect 33 true ∷ [] else [])
update-join_host_example =
    update-join_host steam steam 1 (seconds 9) 33 new status (λ e. ground arith) refl refl
      (omega arith)

abbrev client : Manager
client = record new { is_client = true; host_steam_id = 33; connection = 8 }

handle-update-handle_example :
    ((handle_connection_status_changed steam true failure client).1 ≡ [])
    × ((update steam 7 (failed_once steam steam steam 7 failure failure client)).1
        ≡ connect 33 true ∷ [])
    × ((handle_connection_status_changed steam true failure
          (retried steam steam steam 7 failure failure client)).1
        ≡ leave_lobby ∷ [])
unfolding new
handle-update-handle_example =
    handle-update-handle steam steam steam 7 failure failure client refl refl refl refl refl refl
      refl refl refl

update-disconnect_example : update steam 7 (disconnect hosting).0 ≡ ((disconnect hosting).0, [])
update-disconnect_example = update-disconnect steam 7 hosting

abbrev pings : List ℤ
pings = pos 40 ∷ negsuc 0 ∷ pos 25 ∷ []

estimate_relay_ping_ms-IsEstimate_example : IsEstimate pings (estimate_relay_ping_ms true pings)
estimate_relay_ping_ms-IsEstimate_example =
    estimate_relay_ping_ms-IsEstimate pings (omega arith, (tt, (omega arith, tt)))

accept_incoming-Accepted_example : Accepted steam arrival (accept_incoming steam arrival hosting)
accept_incoming-Accepted_example = accept_incoming-Accepted steam arrival hosting refl

-- The current connection is closed, and its handle stays in the list.
handle_stays : (close_connection_to_peer steam 44 hosting).0.connections ≡ 5 ∷ 6 ∷ []
unfolding close_connection_to_peer close_listed close_to close_current
handle_stays = refl
