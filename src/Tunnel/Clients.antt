-- ===== src/Tunnel/Clients.antt =====
-- The number of clients that the callback of the TCP server is told.
use connecttool_qt.Base.{
  ℕ, ◌≡◌, refl, ap, ◌∙◌, List, [], ◌∷◌, ◌++◌, length, Bool, true, false, Option, none, some,
  if◌then◌else◌, not, arith, if_cases,
}
use connecttool_qt.Base.Key.{nat_key}
use connecttool_qt.Base.Set.{remove}
use connecttool_qt.Multiplex.Packet.{ClientId}
use connecttool_qt.Multiplex.Manager.{
  Effect, Handled, remove_client, send_tunnel_packet, handle_tunnel_packet,
}
use connecttool_qt.Tunnel.State.{
  Network, steam_on, Output, client_count, read, accept, Tunnel, Method, then_do, new,
  get_multiplex_manager,
}
use connecttool_qt.Tunnel.Poll.{
  Message, Batches, effects_on, passed_on, settle, handle_message, handle_messages, handle_batches,
  any_received, schedule, start_async_poll, start, stop, on_timer,
}
use connecttool_qt.Tunnel.Server.{
  send_to_all, add, forward, drop_client, accepted, on_accept, on_read, start_server, stop_server,
}
use connecttool_qt.Tunnel.Events.{
  Event, starts, stops, polls, server_starts, server_stops, accepts, reads, flushes, client_reads,
  write_fails, step, run,
}
use connecttool_qt.Base.Map.{find}
use connecttool_qt.Multiplex.State as Multiplex
use connecttool_qt.Multiplex.Manager as Clients
use connecttool_qt.Tunnel.Callbacks.{
  on_found, on_manager, fire, on_flush_timer, on_client_read, drop_failed, on_write_failed,
}
use connecttool_qt.Tunnel.Count.{
  last_count, last_count-append, last_count-passed_on, last_count-effects_on,
  last_count-send_to_all,
}

module _ (net : Network) where
  -- The reports of a method lead from the number of clients before it to the number after it.
  abbrev Counts : Tunnel net × List Output → Tunnel net → Type 0
  Counts r t = last_count (length t.clients) r.1 ≡ length (r.0).clients

  abbrev Counted : Method net → Type 0
  Counted f = (t : Tunnel net) → Counts (f t) t

  then_do-Counts :
      (t : Tunnel net) (r : Tunnel net × List Output) (f : Method net)
      → Counts r t
      → Counted f
      → Counts (then_do net r f) t
  unfolding then_do
  then_do-Counts t r f h k =
      last_count-append (length t.clients) r.1 (f r.0).1
      ∙ ap (λ n. last_count n (f r.0).1) h
      ∙ k r.0

  settle-Counts : (conn : ℕ) (r : Handled (steam_on net conn)) → Counted (settle net conn r)
  unfolding settle
  settle-Counts conn r t =
      last_count-append (length t.clients) (passed_on conn r.passed) (effects_on conn r.effects)
      ∙ ap (λ n. last_count n (effects_on conn r.effects))
          (last_count-passed_on (length t.clients) conn r.passed)
      ∙ last_count-effects_on (length t.clients) conn r.effects

  handle_messages-Counts :
      (hosts : Bool) (conn : ℕ) (messages : List Message)
      → Counted (handle_messages net hosts conn messages)
  unfolding handle_messages handle_message
  handle_messages-Counts hosts conn [] t = refl
  handle_messages-Counts hosts conn (msg ∷ messages) t =
      let m = get_multiplex_manager conn t.managers in
      then_do-Counts t (handle_message net hosts conn msg t)
        (handle_messages net hosts conn messages)
        (settle-Counts conn
          (handle_tunnel_packet (steam_on net conn) hosts msg.connected msg.packet m t.world) t)
        (handle_messages-Counts hosts conn messages)

  handle_batches-Counts :
      (hosts : Bool) (batches : Batches) → Counted (handle_batches net hosts batches)
  unfolding handle_batches
  handle_batches-Counts hosts [] t = refl
  handle_batches-Counts hosts ((conn, none) ∷ batches) t = handle_batches-Counts hosts batches t
  handle_batches-Counts hosts ((conn, some messages) ∷ batches) t =
      then_do-Counts t (handle_messages net hosts conn messages t)
        (handle_batches net hosts batches) (handle_messages-Counts hosts conn messages t)
        (handle_batches-Counts hosts batches)

  start_async_poll-Counts :
      (hosts : Bool) (batches : Batches) → Counted (start_async_poll net hosts batches)
  unfolding start_async_poll schedule
  start_async_poll-Counts hosts batches t =
      if_cases (λ (r : Tunnel net × List Output). Counts r t) (not t.running) {x = (t, [])}
        (λ _. refl)
        (λ _.
          then_do-Counts t (handle_batches net hosts batches t)
            (λ t'. (schedule net (any_received batches) t', []))
            (handle_batches-Counts hosts batches t) (λ t'. refl))

  start-Counts : (hosts : Bool) (batches : Batches) → Counted (start net hosts batches)
  unfolding start
  start-Counts hosts batches t =
      if_cases (λ (r : Tunnel net × List Output). Counts r t) t.running {x = (t, [])} (λ _. refl)
        (λ _. start_async_poll-Counts hosts batches (record t { running = true }))

  forward-Counts :
      (conn : ℕ) (id : ClientId) (bytes : List ℕ) (type : ℕ)
      → Counted (forward net conn id bytes type)
  unfolding forward
  forward-Counts conn id bytes type t =
      let s =
        send_tunnel_packet (steam_on net conn) id bytes type (get_multiplex_manager conn t.managers)
          t.world in
      settle-Counts conn
        (record { manager = s.manager; world = s.world; passed = s.passed; effects = [] }) t

  drop_client-Counts : (conn : ℕ) (id : ClientId) → Counted (drop_client net conn id)
  unfolding drop_client
  drop_client-Counts conn id t =
      let (was, m, effects) = remove_client id (get_multiplex_manager conn t.managers) in
      settle-Counts conn (record { manager = m; world = t.world; passed = []; effects = effects }) t

  accepted-Counts : (conn socket : ℕ) (id : Option ClientId) → Counted (accepted net conn socket id)
  unfolding accepted then_do
  accepted-Counts conn socket none t = refl
  accepted-Counts conn socket (some id) t =
      last_count-append (length t.clients) (add net conn id socket t).1 _

  on_accept-Counts :
      (conn socket : ℕ) (id : Option ClientId) → Counted (on_accept net conn socket id)
  unfolding on_accept
  on_accept-Counts conn socket id t =
      then_do-Counts t (accepted net conn socket id t)
        (λ t'. (t', (if t'.server_running then accept ∷ [] else [])))
        (accepted-Counts conn socket id t) (λ t'. ground arith)

  on_read-Counts :
      (connected : Bool) (conn socket : ℕ) (id : ClientId) (bytes : Option (List ℕ))
      → Counted (on_read net connected conn socket id bytes)
  unfolding on_read
  on_read-Counts connected conn socket id (some bytes) t =
      then_do-Counts t (if connected then forward net conn id bytes 0 t else (t, []))
        (λ t'. (t', send_to_all bytes socket t'.clients ++ read socket id ∷ []))
        (if_cases (λ (r : Tunnel net × List Output). Counts r t) connected
          (λ _. forward-Counts conn id bytes 0 t) (λ _. refl))
        (λ t'.
          last_count-append (length t'.clients) (send_to_all bytes socket t'.clients)
            (read socket id ∷ [])
          ∙ last_count-send_to_all (length t'.clients) bytes socket t'.clients)
  on_read-Counts connected conn socket id none t =
      then_do-Counts t
        (if connected
          then then_do net (forward net conn id [] 1 t) (drop_client net conn id)
          else (t, []))
        (λ t'. (
          record t' { clients = remove socket t'.clients },
          client_count (length (remove socket t'.clients)) ∷ [],
        ))
        (if_cases (λ (r : Tunnel net × List Output). Counts r t) connected
          (λ _.
            then_do-Counts t (forward net conn id [] 1 t) (drop_client net conn id)
              (forward-Counts conn id [] 1 t) (drop_client-Counts conn id))
          (λ _. refl))
        (λ t'. refl)

  on_found-Counts :
      (conn : ℕ) (f : Multiplex.Manager → net.World → Handled (steam_on net conn))
      (o : Option Multiplex.Manager)
      → Counted (on_found net conn f o)
  unfolding on_found
  on_found-Counts conn f none t = refl
  on_found-Counts conn f (some m) t = settle-Counts conn (f m t.world) t

  on_manager-Counts :
      (conn : ℕ) (f : Multiplex.Manager → net.World → Handled (steam_on net conn))
      → Counted (on_manager net conn f)
  unfolding on_manager
  on_manager-Counts conn f t = on_found-Counts conn f (find conn t.managers) t

  step-Counts : (e : Event) → Counted (step net e)
  unfolding step on_flush_timer on_client_read on_write_failed start_server stop_server on_timer
      stop
  step-Counts (starts hosts batches) t = start-Counts hosts batches t
  step-Counts stops t =
      if_cases (λ (r : Tunnel net). length t.clients ≡ length r.clients) t.running
        {x = record t { running = false; waiting = false }} (λ _. refl) (λ _. refl)
  step-Counts (polls true hosts batches) t = refl
  step-Counts (polls false hosts batches) t = start_async_poll-Counts hosts batches t
  step-Counts (server_starts true) t = refl
  step-Counts (server_starts false) t = refl
  step-Counts server_stops t = refl
  step-Counts (accepts conn socket id) t = on_accept-Counts conn socket id t
  step-Counts (reads connected conn socket id bytes) t =
      on_read-Counts connected conn socket id bytes t
  step-Counts (flushes failed conn) t = on_manager-Counts conn (fire net failed conn) t
  step-Counts (client_reads conn id bytes) t =
      on_manager-Counts conn (Clients.on_read (steam_on net conn) id bytes) t
  step-Counts (write_fails conn id) t = on_manager-Counts conn (drop_failed net conn id) t

  run_from-Counts : (events : List Event) → Counted (run net events)
  unfolding run
  run_from-Counts [] t = refl
  run_from-Counts (e ∷ events) t =
      then_do-Counts t (step net e t) (run net events) (step-Counts e t) (run_from-Counts events)

  -- Whatever happens to a new tunnel, the last number of clients that the server's callback was
  -- told, or 0 if it was told none, is the number of the server's clients.
  pub run_reports :
      (w : net.World) (events : List Event)
      → last_count 0 (run net events (new net w)).1
        ≡ length ((run net events (new net w)).0).clients
  unfolding new
  run_reports w events = run_from-Counts events (new net w)
