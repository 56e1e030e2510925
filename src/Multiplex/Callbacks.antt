-- ===== src/Multiplex/Callbacks.antt =====
-- The queues and the order stay in agreement in the callbacks: of a read, and of the flush's timer.
use connecttool_qt.Base.{
  ℕ, List, [], ◌∷◌, false, Option, none, some, if◌then◌else◌, not, ◌&&◌, if_cases,
}
use connecttool_qt.Base.Set.{insert}
use connecttool_qt.Base.Key.{list_key}
use connecttool_qt.Multiplex.Packet.{ClientId}
use connecttool_qt.Multiplex.State.{Steam, Manager}
use connecttool_qt.Multiplex.Queue.Flush.{
  Flushed, flush_pending_packets, is_empty, schedule_flush, rearm, on_timer,
}
use connecttool_qt.Multiplex.Queue.Invariant.{IsQueued}
use connecttool_qt.Multiplex.Queue.Drain.{Returns, flush_pending_packets-Returns}
use connecttool_qt.Multiplex.Manager.{Handled, start_read, send_tunnel_packet, on_read}
use connecttool_qt.Multiplex.Clients.{remove_client-IsQueued}
use connecttool_qt.Multiplex.Preserve.{send_tunnel_packet-IsQueued}

schedule_flush-IsQueued :
    (delay : ℕ) (m : Manager) → IsQueued m → IsQueued (schedule_flush delay m).0
unfolding schedule_flush
schedule_flush-IsQueued delay m v =
    if_cases (λ (r : Manager × Option ℕ). IsQueued r.0)
      (not m.flush_scheduled && not (is_empty m.send_order)) {y = (m, none)}
      (λ _. record {
        sorted = v.sorted;
        agree = v.agree;
        waiting = v.waiting;
        distinct = v.distinct;
      })
      (λ _. v)

module _ (steam : Steam) where
  open steam use {World}

  pub on_read-IsQueued :
      (id : ClientId) (bytes : Option (List ℕ)) (m : Manager) (w : World)
      → IsQueued m
      → IsQueued (on_read steam id bytes m w).manager
  unfolding on_read
  on_read-IsQueued id none m w v = (remove_client-IsQueued id m v).0
  on_read-IsQueued id (some []) m w v = v
  on_read-IsQueued id (some (b ∷ bytes)) m w v =
      let s = send_tunnel_packet steam id (b ∷ bytes) 0 m w in
      let u = send_tunnel_packet-IsQueued steam id (b ∷ bytes) 0 m w v in
      if_cases (λ (r : Handled steam). IsQueued r.manager) s.manager.send_blocked
        {x = record {
          manager = record (s.manager) { paused_reads = insert id s.manager.paused_reads };
          world = s.world;
          passed = s.passed;
          effects = [];
        }}
        {y = record {
          manager = s.manager;
          world = s.world;
          passed = s.passed;
          effects = start_read id ∷ [];
        }}
        (λ _. record {
          sorted = u.sorted;
          agree = u.agree;
          waiting = u.waiting;
          distinct = u.distinct;
        })
        (λ _. u)

  pub rearm-IsQueued : (m : Manager) → IsQueued m → IsQueued (rearm steam m).0
  unfolding rearm
  rearm-IsQueued m v =
      let m' = record m { flush_scheduled = false } in
      let delay = if m.send_blocked then m.backoff_ms else 5 in
      let u : IsQueued m' = record {
        sorted = v.sorted;
        agree = v.agree;
        waiting = v.waiting;
        distinct = v.distinct;
      } in
      if_cases (λ (r : Manager × Option ℕ). IsQueued r.0) (is_empty m.send_order) {x = (m', none)}
        (λ _. u) (λ _. schedule_flush-IsQueued delay m' u)

  -- What the timer's callback leaves, which comes to an end.
  abbrev pub Fired : Option (Flushed steam × List ClientId × Option ℕ) → Type 0
  Fired none = ⊥
  Fired (some (r, resumed, delay)) = IsQueued r.manager

  rearmed : Flushed steam × List ClientId → Flushed steam × List ClientId × Option ℕ
  rearmed (r, resumed) =
      let (m', delay) = rearm steam r.manager in (record r { manager = m' }, resumed, delay)

  rearmed-Fired :
      (o : Option (Flushed steam × List ClientId))
      → Returns steam o
      → Fired (elim o [ none ↦ none | some f ↦ some (rearmed f) ])
  unfolding rearmed
  rearmed-Fired none d = d
  rearmed-Fired (some (r, resumed)) d = rearm-IsQueued r.manager d.queued

  pub on_timer-Fired : (m : Manager) (w : World) → IsQueued m → Fired (on_timer steam m w)
  unfolding on_timer rearmed
  on_timer-Fired m w v =
      rearmed-Fired (flush_pending_packets steam m w) (flush_pending_packets-Returns steam m w v)
