-- ===== src/Connections/Credit.antt =====
-- The attempts through the relay that joining a host opens, and what update does with them.
use connecttool_qt.Base.{
  ℕ, ◌+◌, ◌≤◌, ◌≡◌, refl, List, [], ◌∷◌, ◌++◌, map, Bool, true, false, ◌&&◌, not, Option, none,
  some, if◌then◌else◌, arith, if_cases,
}
use connecttool_qt.Connections.State.{
  Steam, Manager, Status, Call, configure, close_connection, close_listen_socket, connect, accept,
  leave_lobby, shut_down_steam, then_do,
}
use connecttool_qt.Connections.Manager.{
  is_set, close_current, dial, connect_to_host_internal, join_host,
}
use connecttool_qt.Connections.Update.{
  Attempt, give_up, check_route, check_samples, check_timeouts, check_quality, check_status,
  check_pending, try_relay, check_connection, close_if_set, update, bad_quality,
}
use connecttool_qt.Connections.Events.{Event, joins}

-- The relay-only attempts among some calls.
abbrev pub relay_attempts : List Call → ℕ
relay_attempts [] = 0
relay_attempts (connect host true ∷ calls) = relay_attempts calls + 1
relay_attempts (_ ∷ calls) = relay_attempts calls

abbrev pub joins_of : List Event → ℕ
joins_of [] = 0
joins_of (joins steam now host ∷ es) = joins_of es + 1
joins_of (_ ∷ es) = joins_of es

-- Whether an attempt through the relay is still open.
abbrev pub credit : Manager → ℕ
credit m = if m.is_client && not m.relay_fallback_tried then 1 else 0

abbrev asked : Option ℕ → ℕ
asked none = 0
asked (some target) = 1

abbrev spend : Attempt → ℕ
spend a = asked a.retry + credit a.manager

pub relay_attempts-append :
    (xs ys : List Call) → relay_attempts (xs ++ ys) ≡ relay_attempts xs + relay_attempts ys
relay_attempts-append [] ys = omega arith
relay_attempts-append (configure s ∷ xs) ys = relay_attempts-append xs ys
relay_attempts-append (close_connection c ∷ xs) ys = relay_attempts-append xs ys
relay_attempts-append (close_listen_socket c ∷ xs) ys = relay_attempts-append xs ys
relay_attempts-append (connect host true ∷ xs) ys = omega (arith, relay_attempts-append xs ys)
relay_attempts-append (connect host false ∷ xs) ys = relay_attempts-append xs ys
relay_attempts-append (accept c ∷ xs) ys = relay_attempts-append xs ys
relay_attempts-append (leave_lobby ∷ xs) ys = relay_attempts-append xs ys
relay_attempts-append (shut_down_steam ∷ xs) ys = relay_attempts-append xs ys

pub relay_attempts-map : (conns : List ℕ) → relay_attempts (map close_connection conns) ≡ 0
relay_attempts-map [] = refl
relay_attempts-map (c ∷ conns) = relay_attempts-map conns

module _ (steam : Steam) (now : ℕ) where
  spend-check_route : (s : Status) (a : Attempt) → spend (check_route steam now s a) ≤ spend a
  unfolding check_route give_up
  spend-check_route s a = ground arith

  check_samples_client :
      (bad : Bool) (a : Attempt)
      → (check_samples steam now bad a).manager.is_client ≡ a.manager.is_client
  unfolding check_samples give_up
  check_samples_client bad a = ground arith

  spend-check_samples :
      (bad : Bool) (a : Attempt)
      → a.manager.is_client ≡ true
      → spend (check_samples steam now bad a) ≤ spend a
  unfolding check_samples give_up
  spend-check_samples bad a h = ground arith

  spend-check_timeouts :
      (bad : Bool) (a : Attempt)
      → a.manager.is_client ≡ true
      → spend (check_timeouts steam now bad a) ≤ spend a
  unfolding check_timeouts give_up
  spend-check_timeouts bad a h = ground arith

  spend-check_quality : (s : Status) (a : Attempt) → spend (check_quality steam now s a) ≤ spend a
  unfolding check_quality
  spend-check_quality s a = ground (
    arith,
    spend-check_timeouts (bad_quality s) (check_samples steam now (bad_quality s) a),
    spend-check_samples (bad_quality s) a,
    check_samples_client (bad_quality s) a,
  )

  spend-check_status :
      (o : Option Status) (a : Attempt) → spend (check_status steam now o a) ≤ spend a
  unfolding check_status
  spend-check_status none a = omega arith
  spend-check_status (some s) a =
      let measured = record a { manager = record (a.manager) { host_ping = s.ping } } in
      omega (
        arith,
        spend-check_quality s (check_route steam now s measured),
        spend-check_route s measured,
      )

  spend-check_pending :
      (a : Attempt)
      → relay_attempts (check_pending steam now a).1 + spend (check_pending steam now a).0 ≤ spend a
  unfolding check_pending
  spend-check_pending a = ground arith

  connect_credit :
      (host : ℕ) (relay_only : Bool) (m : Manager)
      → credit (connect_to_host_internal steam now host relay_only m).0 ≡ credit m
  unfolding connect_to_host_internal then_do dial close_current
  connect_credit host relay_only m = ground arith

  connect_attempts :
      (host : ℕ) (relay_only : Bool) (m : Manager)
      → relay_attempts (connect_to_host_internal steam now host relay_only m).1
        ≡ (if relay_only then 1 else 0)
  unfolding connect_to_host_internal then_do dial close_current
  connect_attempts host relay_only m = ground arith

  credit-try_relay :
      (o : Option ℕ) (m : Manager)
      → relay_attempts (try_relay steam now o m).1 + credit (try_relay steam now o m).0
        ≡ asked o + credit m
  unfolding try_relay
  credit-try_relay none m = omega arith
  credit-try_relay (some target) m =
      omega (arith, connect_credit target true m, connect_attempts target true m)

  spend-check_connection : (m : Manager) → spend (check_connection steam now m) ≤ credit m
  unfolding check_connection
  spend-check_connection m =
      let begun : Attempt = record { manager = m; to_close = 0; retry = none } in
      if_cases (λ (a : Attempt). spend a ≤ credit m) (is_set m.connection)
        {x = check_status steam now (steam.status_of m.connection) begun} {y = begun}
        (λ _. omega (arith, spend-check_status (steam.status_of m.connection) begun))
        (λ _. omega arith)

  close_if_set_attempts : (conn : ℕ) → relay_attempts (close_if_set steam now conn) ≡ 0
  unfolding close_if_set
  close_if_set_attempts conn = ground arith

  pub credit-update :
      (m : Manager)
      → relay_attempts (update steam now m).1 + credit (update steam now m).0 ≤ credit m
  unfolding update then_do
  credit-update m =
      let pending = check_pending steam now (check_connection steam now m) in
      let closing = close_if_set steam now (pending.0).to_close in
      omega (
        arith,
        spend-check_connection m,
        close_if_set_attempts (pending.0).to_close,
        spend-check_pending (check_connection steam now m),
        credit-try_relay (pending.0).retry (pending.0).manager,
        relay_attempts-append (pending.1 ++ closing)
            (try_relay steam now (pending.0).retry (pending.0).manager).1,
        relay_attempts-append pending.1 closing,
      )

  pub credit-join_host :
      (host : ℕ) (m : Manager)
      → relay_attempts (join_host steam now host m).1 + credit (join_host steam now host m).0 ≤ 1
  unfolding join_host
  credit-join_host host m = ground (
    arith,
    connect_attempts host false (record m {
      is_client = true;
      host_steam_id = host;
      relay_fallback_pending = false;
      relay_fallback_tried = false;
      bad_samples = 0;
      last_ice_timeout = 0;
    }),
    connect_credit host false (record m {
      is_client = true;
      host_steam_id = host;
      relay_fallback_pending = false;
      relay_fallback_tried = false;
      bad_samples = 0;
      last_ice_timeout = 0;
    }),
  )
