-- ===== src/Connections/Relay.antt =====
-- How often the relay is tried.
use connecttool_qt.Base.{
  ℕ, ◌==◌, ◌∙◌, ◌+◌, ◌≤◌, ◌≡◌, refl, List, [], ◌∷◌, ◌++◌, map, Bool, false, ◌&&◌, not,
  if◌then◌else◌, arith, if_cases,
}
use connecttool_qt.Connections.State.{
  Steam, Manager, Call, close_connection, close_listen_socket, leave_lobby, Method, then_do, new,
}
use connecttool_qt.Connections.Manager.{
  is_set, leads_to, close_current, close_to, without, without_all, close_listed,
  close_connection_to_peer, disconnect,
}
use connecttool_qt.Connections.Status.{
  Change, Kind, incoming, established, closed, unchanged, kind_of, note_failure, close_duplicate,
  close_duplicates, accept_connection, accept_incoming, change_connections,
  handle_connection_status_changed,
}
use connecttool_qt.Connections.Events.{
  Event, joins, disconnects, closes, listens, updates, changes, step, run,
}
use connecttool_qt.Connections.Credit.{
  relay_attempts, joins_of, credit, relay_attempts-append, relay_attempts-map, credit-update,
  credit-join_host,
}

-- A call that neither tries the relay nor opens another try.
Idle : Manager → Manager × List Call → Type 0
Idle m r = (relay_attempts r.1 ≡ 0) × (credit r.0 ≡ credit m)

then_do-Idle :
    (m : Manager) (r : Manager × List Call) (f : Method)
    → Idle m r
    → ((m' : Manager) → Idle m' (f m'))
    → Idle m (then_do r f)
unfolding Idle then_do
then_do-Idle m r f h k = (
  omega (arith, relay_attempts-append r.1 (f r.0).1, h.0, (k r.0).0),
  omega (arith, h.1, (k r.0).1),
)

close_listed-Idle :
    (spared : ℕ → Bool) (peer : ℕ) (steam : Steam) (m : Manager)
    → Idle m (close_listed spared peer steam m)
unfolding close_listed Idle
close_listed-Idle spared peer steam m =
    (relay_attempts-map (close_to spared peer m.connections steam).1, refl)

close_current-Idle : (m : Manager) → Idle m (close_current m)
unfolding close_current Idle
close_current-Idle m = (refl, refl)

skip-Idle : (m : Manager) → Idle m (m, [])
unfolding Idle
skip-Idle m = (refl, refl)

module _ (steam : Steam) where
  close_connection_to_peer-Idle :
      (peer : ℕ) (m : Manager) → Idle m (close_connection_to_peer steam peer m)
  unfolding close_connection_to_peer
  close_connection_to_peer-Idle peer m =
      if_cases (Idle m) (not (steam.is_valid_id peer)) {x = (m, [])} (λ _. skip-Idle m)
        λ _.
          if_cases (Idle m) (is_set m.connection && leads_to steam peer m.connection)
            (λ _.
              then_do-Idle m (close_current m)
                (close_listed (λ c. false) peer (without m.connection steam)) (close_current-Idle m)
                (close_listed-Idle (λ c. false) peer (without m.connection steam)))
            (λ _. close_listed-Idle (λ c. false) peer steam m)

  close_duplicate-Idle :
      (left : Steam) (c : Change) (m : Manager) → Idle m (close_duplicate steam left c m)
  unfolding close_duplicate
  close_duplicate-Idle left c m =
      if_cases (Idle m)
        (is_set m.connection && not (m.connection == c.conn) && leads_to left c.peer m.connection)
        {x = close_current m} {y = (m, [])} (λ _. close_current-Idle m) (λ _. skip-Idle m)

  close_duplicates-Idle : (c : Change) (m : Manager) → Idle m (close_duplicates steam c m)
  unfolding close_duplicates
  close_duplicates-Idle c m =
      let same = λ (conn : ℕ). conn == c.conn in
      let left = without_all (close_to same c.peer m.connections steam).1 steam in
      if_cases (Idle m) (steam.is_valid_id c.peer) {y = (m, [])}
        (λ _.
          then_do-Idle m (close_listed same c.peer steam m) (close_duplicate steam left c)
            (close_listed-Idle same c.peer steam m) (close_duplicate-Idle left c))
        (λ _. skip-Idle m)

  change_connections-Idle :
      (k : Kind) (c : Change) (m : Manager) → Idle m (change_connections steam k c m)
  unfolding change_connections accept_incoming accept_connection Idle
  change_connections-Idle incoming c m =
      then_do-Idle m (close_duplicates steam c m) (accept_connection steam c)
        (close_duplicates-Idle c m) (λ m'. (refl, refl))
  change_connections-Idle established c m = (refl, refl)
  change_connections-Idle closed c m = (refl, refl)
  change_connections-Idle unchanged c m = (refl, refl)

  credit-note_failure : (c : Change) (m : Manager) → credit (note_failure steam c m).0 ≡ credit m
  unfolding note_failure
  credit-note_failure c m = ground arith

  left_lobby : (b : Bool) → relay_attempts (if b then leave_lobby ∷ [] else []) ≡ 0
  left_lobby b = ground arith

  change_credit :
      (has_room : Bool) (c : Change) (m : Manager)
      → Idle m (handle_connection_status_changed steam has_room c m)
  unfolding handle_connection_status_changed Idle
  change_credit has_room c m =
      let noted = note_failure steam c m in
      let changed =
        then_do-Idle noted.0 (change_connections steam (kind_of c.old_state c.state) c noted.0)
          (λ m'. (m', (if noted.1 && has_room then leave_lobby ∷ [] else [])))
          (change_connections-Idle (kind_of c.old_state c.state) c noted.0)
          (λ m'. (left_lobby (noted.1 && has_room), refl)) in
      (changed.0, changed.1 ∙ credit-note_failure c m)

closed_if :
    (b : Bool) (conn : ℕ) → relay_attempts (if b then close_connection conn ∷ [] else []) ≡ 0
closed_if b conn = ground arith

unlistened_if :
    (b : Bool) (socket : ℕ) → relay_attempts (if b then close_listen_socket socket ∷ [] else []) ≡ 0
unlistened_if b socket = ground arith

disconnect-Idle :
    (m : Manager) → (relay_attempts (disconnect m).1 ≡ 0) × (credit (disconnect m).0 ≡ 0)
unfolding disconnect
disconnect-Idle m =
    let current = if is_set m.connection then close_connection m.connection ∷ [] else [] in
    let listed = map close_connection m.connections in
    let socket = if is_set m.listen_socket then close_listen_socket m.listen_socket ∷ [] else [] in
    let total : relay_attempts (current ++ listed ++ socket) ≡ 0 = omega (
      arith,
      relay_attempts-append (current ++ listed) socket,
      relay_attempts-append current listed,
      closed_if (is_set m.connection) m.connection,
      relay_attempts-map m.connections,
      unlistened_if (is_set m.listen_socket) m.listen_socket,
    ) in
    (total, refl)

-- The relay is tried only within the credit, which only joining gives.
credit-step :
    (e : Event) (m : Manager)
    → relay_attempts (step e m).1 + credit (step e m).0 ≤ credit m + joins_of (e ∷ [])
unfolding step Idle
credit-step (joins steam now host) m = omega (arith, credit-join_host steam now host m)
credit-step disconnects m = omega (arith, (disconnect-Idle m).0, (disconnect-Idle m).1)
credit-step (closes steam peer) m = omega (
  arith,
  (close_connection_to_peer-Idle steam peer m).0,
  (close_connection_to_peer-Idle steam peer m).1,
)
credit-step (listens socket) m = omega arith
credit-step (updates steam now) m = omega (arith, credit-update steam now m)
credit-step (changes steam has_room c) m =
    omega (arith, (change_credit steam has_room c m).0, (change_credit steam has_room c m).1)

joins_of_cons : (e : Event) (es : List Event) → joins_of (e ∷ es) ≡ joins_of (e ∷ []) + joins_of es
joins_of_cons (joins steam now host) es = omega arith
joins_of_cons disconnects es = omega arith
joins_of_cons (closes steam peer) es = omega arith
joins_of_cons (listens socket) es = omega arith
joins_of_cons (updates steam now) es = omega arith
joins_of_cons (changes steam has_room c) es = omega arith

credit-run :
    (es : List Event) (m : Manager)
    → relay_attempts (run es m).1 + credit (run es m).0 ≤ credit m + joins_of es
unfolding run then_do
credit-run [] m = omega arith
credit-run (e ∷ es) m = omega (
  arith,
  credit-step e m,
  credit-run es (step e m).0,
  relay_attempts-append (step e m).1 (run es (step e m).0).1,
  joins_of_cons e es,
)

-- In every sequence of events of a new manager, there are at most as many attempts through the
-- relay only as calls of joinHost, whatever Steam answers and reports.
pub relay_attempts-run : (es : List Event) → relay_attempts (run es new).1 ≤ joins_of es
unfolding new
relay_attempts-run es = omega (arith, credit-run es new)
