-- ===== src/Connections/Update.antt =====
-- update: the ping, and the tests that give a direct attempt up for one through the relay.
use connecttool_qt.Base.{
  ℕ, ◌+◌, List, [], ◌∷◌, ◌++◌, Bool, true, false, ◌&&◌, ◌||◌, not, Option, none, some,
  if◌then◌else◌, ltb, leb, ◌==◌,
}
use connecttool_qt.Base.Int.{pos, leb_ℤ}
use connecttool_qt.Connections.State.{
  Steam, Manager, Status, ConnectionState, connecting, finding_route, connected, Call,
  close_connection, Method, then_do, seconds,
}
use connecttool_qt.Connections.Manager.{is_set, connect_to_host_internal}

-- The local variables of update beside the manager: the connection to close, and the target of the
-- retry if there is to be one.
pub record Attempt : Type 0 where
  pub manager : Manager
  pub to_close : ℕ
  pub retry : Option ℕ

abbrev is_searching : ConnectionState → Bool
is_searching finding_route = true
is_searching connecting = true
is_searching _ = false

abbrev is_up : ConnectionState → Bool
is_up connected = true
is_up _ = false

abbrev pub bad_quality : Status → Bool
bad_quality s = leb_ℤ s.ping (pos 0) || s.poor_local || s.poor_remote

module _ (steam : Steam) (now : ℕ) where
  -- `now - t > std::chrono::seconds(n)`
  abbrev pub is_past : ℕ → ℕ → Bool
  is_past t n = ltb (t + seconds n) now

  -- What the three tests do in common when they give the connection up.
  unfoldable pub give_up : Attempt → Attempt
  give_up a = record {
    manager = record (a.manager) {
      connection = 0;
      is_connected = false;
      relay_fallback_pending = false;
      relay_fallback_tried = true;
      bad_samples = 0;
      last_relay_fallback = now;
    };
    to_close = a.manager.connection;
    retry = some (a.manager.host_steam_id);
  }

  -- Still searching after eight seconds.
  unfoldable pub check_route : Status → Attempt → Attempt
  unfolding give_up
  check_route s a =
      let given = give_up a in
      if a.manager.is_client
        && not a.manager.relay_fallback_tried
        && is_searching s.state
        && ltb 0 a.manager.connect_attempt_start
        && is_past a.manager.connect_attempt_start 8
      then record given {
        manager = record (given.manager) { connect_attempt_start = 0; last_ice_timeout = 0 };
      }
      else a

  -- 120 bad samples in a row.
  unfoldable pub check_samples : Bool → Attempt → Attempt
  unfolding give_up
  check_samples bad a =
      let samples = if bad then a.manager.bad_samples + 1 else 0 in
      let counted = record a { manager = record (a.manager) { bad_samples = samples } } in
      if bad
        && leb 120 samples
        && not a.manager.relay_fallback_tried
        && steam.is_valid_id a.manager.host_steam_id
        && (a.manager.last_relay_fallback == 0 || is_past a.manager.last_relay_fallback 5)
      then give_up counted
      else counted

  abbrev with_timeout : ℕ → Attempt → Attempt
  with_timeout t a = record a { manager = record (a.manager) { last_ice_timeout = t } }

  -- Bad quality for more than five seconds.
  unfoldable pub check_timeouts : Bool → Attempt → Attempt
  unfolding give_up
  check_timeouts bad a =
      if a.manager.relay_fallback_tried || not (steam.is_valid_id a.manager.host_steam_id)
      then a
      else if not (bad && is_past a.manager.last_relay_fallback 5)
      then with_timeout 0 a
      else if a.manager.last_ice_timeout == 0
      then with_timeout now a
      else if is_past a.manager.last_ice_timeout 5
      then with_timeout 0 (give_up a)
      else a

  unfoldable pub check_quality : Status → Attempt → Attempt
  unfolding check_samples check_timeouts
  check_quality s a =
      if a.manager.is_client && is_up s.state
      then check_timeouts (bad_quality s) (check_samples (bad_quality s) a)
      else a

  unfoldable pub check_status : Option Status → Attempt → Attempt
  unfolding check_route check_quality
  check_status none a = a
  check_status (some s) a =
      let measured = record a { manager = record (a.manager) { host_ping = s.ping } } in
      check_quality s (check_route s measured)

  -- The retry that a failed attempt left pending.
  unfoldable pub check_pending : Attempt → Attempt × List Call
  check_pending a =
      let m = a.manager in
      let closed =
        if is_set m.connection then record m { connection = 0; is_connected = false } else m in
      if m.relay_fallback_pending
        && not m.relay_fallback_tried
        && m.is_client
        && steam.is_valid_id m.host_steam_id
      then (
        record a {
          manager = record closed { relay_fallback_pending = false; relay_fallback_tried = true };
          retry = some (m.host_steam_id);
        },
        (if is_set m.connection then close_connection m.connection ∷ [] else []),
      )
      else (a, [])

  unfoldable pub try_relay : Option ℕ → Method
  try_relay none m = (m, [])
  try_relay (some target) m = connect_to_host_internal steam now target true m

  -- The tests of the connection, if there is one.
  unfoldable pub check_connection : Manager → Attempt
  unfolding check_status
  check_connection m =
      let begun : Attempt = record { manager = m; to_close = 0; retry = none } in
      if is_set m.connection then check_status (steam.status_of m.connection) begun else begun

  unfoldable pub close_if_set : ℕ → List Call
  close_if_set conn = if is_set conn then close_connection conn ∷ [] else []

  unfoldable pub update : Method
  unfolding then_do check_connection check_pending try_relay close_if_set
  update m =
      let (a, calls) = check_pending (check_connection m) in
      then_do (a.manager, calls ++ close_if_set a.to_close) (try_relay a.retry)
