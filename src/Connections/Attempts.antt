-- ===== src/Connections/Attempts.antt =====
-- What becomes of a direct attempt that does not succeed.
use connecttool_qt.Base.{
  ℕ, ◌<◌, ◌≡◌, ◌≢◌, refl, [], ◌∷◌, Bool, true, false, some, if◌then◌else◌, ap, ◌∙◌, arith,
}
use connecttool_qt.Base.Int.{pos}
use connecttool_qt.Connections.State.{
  Steam, Manager, Status, ConnectionState, idle, connecting, finding_route, connected,
  closed_by_peer, problem_detected_locally, other, close_connection, connect, leave_lobby, then_do,
}
use connecttool_qt.Connections.Manager.{
  is_set, close_current, dial, connect_to_host_internal, join_host, disconnect,
}
use connecttool_qt.Connections.Update.{
  give_up, check_route, check_quality, check_status, check_connection, check_pending, close_if_set,
  try_relay, update, is_past,
}
use connecttool_qt.Connections.Status.{
  Change, failed_while_connecting, closed, remove_first, kind_of, note_failure, change_connections,
  handle_connection_status_changed,
}

-- One update of a client that still waits for its direct attempt.
update_waiting :
    (steam : Steam) (now : ℕ) (m : Manager) (s : Status)
    → steam.status_of m.connection ≡ some s
    → s.state ≡ connecting
    → m.is_client ≡ true
    → m.relay_fallback_tried ≡ false
    → m.relay_fallback_pending ≡ false
    → is_set m.connection ≡ true
    → 0 < m.connect_attempt_start
    → (update steam now m).1 ≡ (
        if is_past steam now m.connect_attempt_start 8
        then close_connection m.connection ∷ connect m.host_steam_id true ∷ []
        else [])
unfolding update then_do connect_to_host_internal dial close_current check_connection check_status
    check_route check_quality give_up check_pending close_if_set try_relay
update_waiting steam now m s st e client tried pending set started = ground arith

module _ (steam later : Steam) (start now host : ℕ) where
  abbrev pub joined : Manager → Manager
  joined m = (join_host steam start host m).0

  -- If joinHost got a connection at a positive time and Steam still reports it as connecting, then
  -- an update closes it and connects through the relay only if more than eight seconds have passed
  -- since, and makes no call otherwise.
  pub update-join_host :
      (m : Manager) (s : Status)
      → steam.connect_p2p host false ≢ 0
      → later.status_of (steam.connect_p2p host false) ≡ some s
      → s.state ≡ connecting
      → 0 < start
      → (update later now (joined m)).1 ≡ (
          if is_past later now start 8
          then close_connection (steam.connect_p2p host false) ∷ connect host true ∷ []
          else [])
  unfolding join_host connect_to_host_internal then_do dial close_current
  update-join_host m s h st e started = ground (arith, update_waiting later now (joined m) s)

-- A failed attempt, as far as the retry is concerned.
kind_of_failed : (old : ConnectionState) → kind_of old problem_detected_locally ≡ closed
unfolding kind_of
kind_of_failed idle = refl
kind_of_failed connecting = refl
kind_of_failed finding_route = refl
kind_of_failed connected = refl
kind_of_failed closed_by_peer = refl
kind_of_failed problem_detected_locally = refl
kind_of_failed other = refl

note_failure_retry :
    (steam : Steam) (c : Change) (m : Manager)
    → m.is_client ≡ true
    → m.relay_fallback_tried ≡ false
    → steam.is_valid_id m.host_steam_id ≡ true
    → c.state ≡ problem_detected_locally
    → failed_while_connecting c ≡ true
    → note_failure steam c m ≡ (record m { relay_fallback_pending = true }, false)
unfolding note_failure
note_failure_retry steam c m client tried known f w = ground arith

note_failure_out :
    (steam : Steam) (c : Change) (m : Manager)
    → m.is_client ≡ true
    → m.relay_fallback_tried ≡ true
    → c.state ≡ problem_detected_locally
    → failed_while_connecting c ≡ true
    → c.says_timed_out ≡ true
    → note_failure steam c m ≡ (m, true)
unfolding note_failure
note_failure_out steam c m client tried f w out = ground arith

update_pending :
    (steam : Steam) (now : ℕ) (m : Manager)
    → m.is_client ≡ true
    → m.relay_fallback_tried ≡ false
    → m.relay_fallback_pending ≡ true
    → steam.is_valid_id m.host_steam_id ≡ true
    → m.connection ≡ 0
    → ((update steam now m).1 ≡ connect m.host_steam_id true ∷ [])
      × ((update steam now m).0.is_client ≡ true)
      × ((update steam now m).0.relay_fallback_tried ≡ true)
unfolding update then_do connect_to_host_internal dial close_current check_connection check_pending
    close_if_set try_relay
update_pending steam now m client tried pending known unset =
    (ground arith, ground arith, ground arith)

-- What a failed connection leaves.
abbrev lost : ℕ → Manager → Manager
lost conn m = record m {
  is_connected = false;
  connection = 0;
  connect_attempt_start = 0;
  connections = remove_first conn m.connections;
  host_ping = pos 0;
}

handle_failed :
    (steam : Steam) (c : Change) (m m' : Manager) (leaves : Bool)
    → c.state ≡ problem_detected_locally
    → note_failure steam c m ≡ (m', leaves)
    → handle_connection_status_changed steam true c m
      ≡ (lost c.conn m', (if leaves then leave_lobby ∷ [] else []))
unfolding handle_connection_status_changed then_do change_connections
handle_failed steam c m m' true f n = rw (n, f, kind_of_failed c.old_state) refl
handle_failed steam c m m' false f n = rw (n, f, kind_of_failed c.old_state) refl

-- A failure of the direct attempt, the next update, and a failure of the attempt through the relay.
module _ (steam later last : Steam) (now : ℕ) (first second : Change) where
  abbrev pub failed_once : Manager → Manager
  failed_once m = (handle_connection_status_changed steam true first m).0

  abbrev pub retried : Manager → Manager
  retried m = (update later now (failed_once m)).0

  -- For a client that has not tried the relay and whose host ID is valid: a failure while
  -- connecting makes no call, the next update connects to the host through the relay only, and if
  -- that attempt times out while connecting, the lobby is left.
  pub handle-update-handle :
      (m : Manager)
      → m.is_client ≡ true
      → m.relay_fallback_tried ≡ false
      → steam.is_valid_id m.host_steam_id ≡ true
      → later.is_valid_id m.host_steam_id ≡ true
      → first.state ≡ problem_detected_locally
      → failed_while_connecting first ≡ true
      → second.state ≡ problem_detected_locally
      → failed_while_connecting second ≡ true
      → second.says_timed_out ≡ true
      → ((handle_connection_status_changed steam true first m).1 ≡ [])
        × ((update later now (failed_once m)).1 ≡ connect m.host_steam_id true ∷ [])
        × ((handle_connection_status_changed last true second (retried m)).1 ≡ leave_lobby ∷ [])
  handle-update-handle m client tried known still f1 c1 f2 c2 out =
      let pending = record m { relay_fallback_pending = true } in
      let noted = note_failure_retry steam first m client tried known f1 c1 in
      let failed = handle_failed steam first m pending false f1 noted in
      let update_lem =
        update_pending later now (lost first.conn pending) client tried refl still refl in
      let retried_lem =
        note_failure_out last second (retried m)
          (ap (λ r. (update later now (r.0)).0.is_client) failed ∙ update_lem.1)
          (ap (λ r. (update later now (r.0)).0.relay_fallback_tried) failed ∙ update_lem.2) f2 c2
          out in
      (
        ap (λ r. r.1) failed,
        ap (λ r. (update later now (r.0)).1) failed ∙ update_lem.0,
        ap (λ r. r.1) (handle_failed last second (retried m) (retried m) true f2 retried_lem),
      )

-- After a disconnect, updates do nothing.
pub update-disconnect :
    (steam : Steam) (now : ℕ) (m : Manager)
    → update steam now (disconnect m).0 ≡ ((disconnect m).0, [])
unfolding update disconnect then_do check_connection check_pending close_if_set try_relay
update-disconnect steam now m = refl
