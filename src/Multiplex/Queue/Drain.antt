-- ===== src/Multiplex/Queue/Drain.antt =====
-- A flush ends, and a flush that comes to the end of the order leaves no packet behind.
use connecttool_qt.Base.{
  ℕ, zero, suc, ◌<◌, ◌≡◌, refl, List, [], true, false, Option, none, some, arith, if_cases,
}
use connecttool_qt.Base.Set.{contains}
use connecttool_qt.Base.Key.{list_key}
use connecttool_qt.Multiplex.Packet.{ClientId, Packet}
use connecttool_qt.Multiplex.State.{Steam, Manager}
use connecttool_qt.Multiplex.Transport.{is_send_saturated, is_send_saturated-SameQueues}
use connecttool_qt.Multiplex.Queue.Flush.{
  queue_of, Round, drained, refused, served, flush_round, Flushed, then_flush, continue_flush,
  flush_loop, end_flush, flush_pending_packets, rounds,
}
use connecttool_qt.Multiplex.Queue.Invariant.{IsQueued}
use connecttool_qt.Multiplex.Queue.Rounds.{RoundQueued, flush_round-RoundQueued, same-IsQueued}
use connecttool_qt.Multiplex.Queue.Falls.{RoundFalls, flush_round-RoundFalls, flush_round_drained}

module _ (steam : Steam) where
  open steam use {World}

  -- What a loop that has come to an end leaves.
  abbrev Ended : Option (Flushed steam) → Type 0
  Ended none = ⊥
  Ended (some r) = IsQueued r.manager × (r.complete ≡ true → r.manager.send_order ≡ [])

  then_flush-Ended :
      (out : List (ClientId × Packet)) (o : Option (Flushed steam))
      → Ended o
      → Ended (then_flush steam out o)
  unfolding then_flush
  then_flush-Ended out none h = h
  then_flush-Ended out (some r) h = h

  continue_flush-Ended :
      (loop : Manager → World → Option (Flushed steam)) (m : Manager) (w : World)
      (round : Round World)
      → ((m' : Manager) (w' : World) → rounds m' < rounds m → IsQueued m' → Ended (loop m' w'))
      → RoundFalls steam (rounds m) round
      → RoundQueued steam round
      → IsQueued m
      → ((round ≡ drained) → m.send_order ≡ [])
      → Ended (continue_flush steam loop m w round)
  unfolding continue_flush
  continue_flush-Ended loop m w drained ih f q v e = (v, λ _. e refl)
  continue_flush-Ended loop m w (refused m' w') ih f q v e = (q, λ h. cc)
  continue_flush-Ended loop m w (served m' w' out) ih f q v e =
      then_flush-Ended out (loop m' w') (ih m' w' f q)

  flush_loop-Ended :
      (fuel : ℕ) (m : Manager) (w : World)
      → rounds m < fuel
      → IsQueued m
      → Ended (flush_loop steam fuel m w)
  unfolding flush_loop
  flush_loop-Ended zero m w h v = absurd (omega arith)
  flush_loop-Ended (suc fuel) m w h v =
      continue_flush-Ended (flush_loop steam fuel) m w (flush_round steam m.send_order m w)
        (λ m' w' f v'. flush_loop-Ended fuel m' w' (omega arith) v')
        (flush_round-RoundFalls steam m.send_order m w refl v.sorted)
        (flush_round-RoundQueued steam m.send_order m w refl v) v
        (flush_round_drained steam m.send_order m w)

  -- What flushPendingPackets leaves: queues in order, and none of them if it was complete, when
  -- the connection is unblocked too and the paused reads are handed back.
  pub record Drains (r : Flushed steam) (resumed : List ClientId) : Type 0 where
    pub queued : IsQueued r.manager
    pub emptied : r.complete ≡ true → (j : ClientId) → queue_of j r.manager.pending_packets ≡ []
    pub unblocked : r.complete ≡ true → r.manager.send_blocked ≡ false
    pub kept : r.complete ≡ false → resumed ≡ []

  abbrev pub Returns : Option (Flushed steam × List ClientId) → Type 0
  Returns none = ⊥
  Returns (some (r, resumed)) = Drains r resumed

  nothing_waits :
      (m : Manager) (j : ClientId)
      → IsQueued m
      → m.send_order ≡ []
      → queue_of j m.pending_packets ≡ []
  unfolding contains
  nothing_waits m j v e = ground (arith, v.waiting j, v.agree j)

  end_flush-Returns : (o : Option (Flushed steam)) → Ended o → Returns (end_flush steam o)
  unfolding end_flush
  end_flush-Returns none h = h
  end_flush-Returns (some r) h =
      let stopped = record r {
        manager = record (r.manager) { send_blocked = false; paused_reads = [] };
      } in
      if_cases Returns r.complete {x = some (stopped, r.manager.paused_reads)} {y = some (r, [])}
        (λ c. record {
          queued = record {
            sorted = h.0.sorted;
            agree = h.0.agree;
            waiting = h.0.waiting;
            distinct = h.0.distinct;
          };
          emptied = λ _ j. nothing_waits r.manager j h.0 (h.1 c);
          unblocked = λ _. refl;
          kept = λ i. cc;
        })
        (λ c. record { queued = h.0; emptied = λ i j. cc; unblocked = λ i. cc; kept = λ _. refl })

  -- If queues and order agree, a flush returns whatever Steam answers, with queues and order in
  -- agreement; if it came to the end of the order, every queue is empty and the connection is not
  -- blocked, and if it did not, no read is resumed.
  pub flush_pending_packets-Returns :
      (m : Manager) (w : World) → IsQueued m → Returns (flush_pending_packets steam m w)
  unfolding flush_pending_packets
  flush_pending_packets-Returns m w v =
      let first = is_send_saturated steam m w in
      let v' = same-IsQueued steam (is_send_saturated-SameQueues steam m w) v in
      if_cases Returns first.0
        {y = end_flush steam (flush_loop steam (suc (rounds first.1)) first.1 first.2)}
        (λ _. record { queued = v'; emptied = λ i j. cc; unblocked = λ i. cc; kept = λ _. refl })
        (λ _.
          end_flush-Returns _
            (flush_loop-Ended (suc (rounds first.1)) first.1 first.2 (omega arith) v'))
