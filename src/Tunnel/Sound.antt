-- ===== src/Tunnel/Sound.antt =====
-- What stays true of the tunnel: the multiplexers' queues, the poll's interval and its timer.
use mathlib.Core.Path.{subst}
use connecttool_qt.Base.{
  ℕ, Option, some, none, ◌≤◌, ◌≡◌, refl, sym, ◌∙◌, List, [], ◌∷◌, Bool, true, false, not, arith,
  if_cases,
}
use connecttool_qt.Base.Key.{nat_key}
use connecttool_qt.Base.Map.{find}
use connecttool_qt.Multiplex.Packet.{ClientId}
use connecttool_qt.Multiplex.State as Multiplex
use connecttool_qt.Multiplex.Queue.Flush.{Flushed}
use connecttool_qt.Multiplex.Queue.Flush as Flush
use connecttool_qt.Multiplex.Queue.Invariant.{IsQueued}
use connecttool_qt.Multiplex.Manager.{Handled}
use connecttool_qt.Multiplex.Manager as Clients
use connecttool_qt.Multiplex.Clients.{remove_client-IsQueued}
use connecttool_qt.Multiplex.Callbacks.{Fired, on_read-IsQueued, rearm-IsQueued, on_timer-Fired}
use connecttool_qt.Tunnel.Callbacks.{
  on_found, on_manager, flushed, fire, on_flush_timer, on_client_read, drop_failed, on_write_failed,
}
use connecttool_qt.Tunnel.State.{
  Network, steam_on, Output, Tunnel, Method, then_do, new, get_multiplex_manager,
}
use connecttool_qt.Tunnel.Poll.{
  Batches, handle_batches, any_received, schedule, start_async_poll, start, stop, on_timer,
}
use connecttool_qt.Tunnel.Server.{on_accept, on_read, start_server, stop_server}
use connecttool_qt.Tunnel.Events.{
  Event, starts, stops, polls, server_starts, server_stops, accepts, reads, flushes, client_reads,
  write_fails, step, run,
}
use connecttool_qt.Tunnel.Kept.{
  AllQueued, new-IsQueued, Kept, Calls, Kept-refl, settle-Kept, handle_batches-Calls,
  on_accept-Calls, on_read-Calls,
}

module _ (net : Network) where
  pub record IsSound (t : Tunnel net) : Type 0 where
    pub queued : AllQueued t.managers
    pub paced : t.poll_interval ≤ 2
    pub pending : t.waiting ≡ t.running

  schedule-IsSound :
      (received : Bool) (t : Tunnel net)
      → AllQueued t.managers
      → t.running ≡ true
      → IsSound (schedule net received t)
  unfolding schedule
  schedule-IsSound received t q r = record { queued = q; paced = ground arith; pending = sym r }

  start_async_poll-IsSound :
      (hosts : Bool) (batches : Batches) (t : Tunnel net)
      → AllQueued t.managers
      → (t.running ≡ false → IsSound t)
      → IsSound (start_async_poll net hosts batches t).0
  unfolding start_async_poll then_do
  start_async_poll-IsSound hosts batches t q v =
      let k = handle_batches-Calls net hosts batches t in
      if_cases (λ (r : Tunnel net × List Output). IsSound r.0) (not t.running) {x = (t, [])}
        (λ h. v (ground arith))
        (λ h.
          schedule-IsSound (any_received batches) (handle_batches net hosts batches t).0
            (k.queued q) (k.running ∙ ground arith))

  abbrev Keeps : Method net → Type 0
  Keeps f = (t : Tunnel net) → IsSound t → IsSound (f t).0

  Calls-Keeps : (f : Method net) → Calls net f → Keeps f
  Calls-Keeps f k t v =
      let u = k t in
      record {
        queued = u.queued v.queued;
        paced = subst (λ n. n ≤ 2) (sym u.interval) v.paced;
        pending = u.waiting ∙ v.pending ∙ sym u.running;
      }

  start-IsSound : (hosts : Bool) (batches : Batches) → Keeps (start net hosts batches)
  unfolding start
  start-IsSound hosts batches t v =
      if_cases (λ (r : Tunnel net × List Output). IsSound r.0) t.running {x = (t, [])} (λ _. v)
        (λ h.
          start_async_poll-IsSound hosts batches (record t { running = true }) v.queued
            (λ e. ground arith))

  stop-IsSound : (t : Tunnel net) → IsSound t → IsSound (stop net t)
  unfolding stop
  stop-IsSound t v =
      if_cases IsSound t.running {x = record t { running = false; waiting = false }} {y = t}
        (λ _. record { queued = v.queued; paced = v.paced; pending = refl }) (λ _. v)

  on_timer-IsSound :
      (failed hosts : Bool) (batches : Batches) → Keeps (on_timer net failed hosts batches)
  unfolding on_timer
  on_timer-IsSound true hosts batches t v = v
  on_timer-IsSound false hosts batches t v =
      start_async_poll-IsSound hosts batches t v.queued (λ _. v)

  start_server-IsSound :
      (listens : Bool) (t : Tunnel net) → IsSound t → IsSound (start_server net listens t).1
  unfolding start_server
  start_server-IsSound true t v = record { queued = v.queued; paced = v.paced; pending = v.pending }
  start_server-IsSound false t v = v

  stop_server-IsSound : (t : Tunnel net) → IsSound t → IsSound (stop_server net t)
  unfolding stop_server
  stop_server-IsSound t v = record { queued = v.queued; paced = v.paced; pending = v.pending }

  on_found-Kept :
      (conn : ℕ) (f : Multiplex.Manager → net.World → Handled (steam_on net conn))
      (o : Option Multiplex.Manager) (t : Tunnel net)
      → find conn t.managers ≡ o
      → ((m : Multiplex.Manager) (w : net.World) → IsQueued m → IsQueued (f m w).manager)
      → Kept net t (on_found net conn f o t).0
  unfolding on_found get_multiplex_manager
  on_found-Kept conn f none t e k = Kept-refl net t
  on_found-Kept conn f (some m) t e k =
      settle-Kept net conn (f m t.world) t (λ v. k m t.world (rw e at v))

  on_manager-Calls :
      (conn : ℕ) (f : Multiplex.Manager → net.World → Handled (steam_on net conn))
      → ((m : Multiplex.Manager) (w : net.World) → IsQueued m → IsQueued (f m w).manager)
      → Calls net (on_manager net conn f)
  unfolding on_manager
  on_manager-Calls conn f k t = on_found-Kept conn f (find conn t.managers) t refl k

  flushed-IsQueued :
      (conn : ℕ) (m : Multiplex.Manager) (w : net.World)
      (o : Option (Flushed (steam_on net conn) × List ClientId × Option ℕ))
      → Fired (steam_on net conn) o
      → IsQueued (flushed net conn m w o).manager
  unfolding flushed
  flushed-IsQueued conn m w (some (r, resumed, delay)) d = d
  flushed-IsQueued conn m w none d = absurd d

  fire-IsQueued :
      (failed : Bool) (conn : ℕ) (m : Multiplex.Manager) (w : net.World)
      → IsQueued m
      → IsQueued (fire net failed conn m w).manager
  unfolding fire
  fire-IsQueued true conn m w v = rearm-IsQueued (steam_on net conn) m v
  fire-IsQueued false conn m w v =
      flushed-IsQueued conn m w (Flush.on_timer (steam_on net conn) m w)
        (on_timer-Fired (steam_on net conn) m w v)

  step-IsSound : (e : Event) → Keeps (step net e)
  unfolding step
  step-IsSound (starts hosts batches) = start-IsSound hosts batches
  step-IsSound stops = stop-IsSound
  step-IsSound (polls failed hosts batches) = on_timer-IsSound failed hosts batches
  step-IsSound (server_starts listens) = start_server-IsSound listens
  step-IsSound server_stops = stop_server-IsSound
  step-IsSound (accepts conn socket id) =
      Calls-Keeps (on_accept net conn socket id) (on_accept-Calls net conn socket id)
  step-IsSound (reads connected conn socket id bytes) =
      Calls-Keeps (on_read net connected conn socket id bytes)
        (on_read-Calls net connected conn socket id bytes)
  step-IsSound (flushes failed conn) = Calls-Keeps (on_flush_timer net failed conn) (
      unfold on_flush_timer in
      on_manager-Calls conn (fire net failed conn) (fire-IsQueued failed conn))
  step-IsSound (client_reads conn id bytes) = Calls-Keeps (on_client_read net conn id bytes) (
      unfold on_client_read in
      on_manager-Calls conn (Clients.on_read (steam_on net conn) id bytes)
        (on_read-IsQueued (steam_on net conn) id bytes))
  step-IsSound (write_fails conn id) = Calls-Keeps (on_write_failed net conn id) (
      unfold on_write_failed drop_failed in
      on_manager-Calls conn (drop_failed net conn id) (λ m w v. (remove_client-IsQueued id m v).0))

  run_from-IsSound : (events : List Event) → Keeps (run net events)
  unfolding run then_do
  run_from-IsSound [] t v = v
  run_from-IsSound (e ∷ events) t v = run_from-IsSound events (step net e t).0 (step-IsSound e t v)

  new-IsSound : (w : net.World) → IsSound (new net w)
  unfolding new get_multiplex_manager find
  new-IsSound w = record { queued = λ conn. new-IsQueued; paced = ground arith; pending = refl }

  -- After any sequence of events of a new tunnel, which are the start, the stop and the polls of
  -- the message handler, the start, the stop, the accepts and the reads of the TCP server, and the
  -- flush timers, the reads and the failed writes of the multiplexers, each one a step: each
  -- connection's multiplexer has its queues and its order in agreement, the poll's interval is at
  -- most 2 ms, and a wait for the next poll is pending exactly while the message handler runs.
  pub run-IsSound : (w : net.World) (events : List Event) → IsSound (run net events (new net w)).0
  run-IsSound w events = run_from-IsSound events (new net w) (new-IsSound w)
