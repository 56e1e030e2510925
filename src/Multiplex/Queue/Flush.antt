-- ===== src/Multiplex/Queue/Flush.antt =====
-- enqueuePacket, scheduleFlush, flushPendingPackets and removeFromOrder. The flush releases the
-- queue's mutex while it sends; here no other thread touches the queues in that time.
use connecttool_qt.Base.{
  ℕ, zero, suc, ◌+◌, List, [], ◌∷◌, ◌++◌, Bool, true, false, not, ◌&&◌, Option, none, some,
  if◌then◌else◌, length, max,
}
use connecttool_qt.Base.Map.{Map, find, assign, erase}
use connecttool_qt.Base.Set.{contains, insert, remove}
use connecttool_qt.Base.Key.{list_key}
use connecttool_qt.Multiplex.Packet.{ClientId, Packet}
use connecttool_qt.Multiplex.State.{Steam, Manager}
use connecttool_qt.Multiplex.Transport.{is_send_saturated, try_send_packet}

-- The queue of an ID, empty if there is none.
abbrev pub queue_of : ClientId → Map ClientId (List Packet) → List Packet
queue_of id pending = elim (find id pending) [ some q ↦ q | none ↦ [] ]

abbrev pub is_empty {ℓ} : {A : Type ℓ} → List A → Bool
is_empty [] = true
is_empty (x ∷ xs) = false

unfoldable pub remove_from_order : ClientId → Manager → Manager
remove_from_order id m = record m {
  send_order_set = remove id m.send_order_set;
  send_order = remove id m.send_order;
}

-- `if (sendOrderSet_.insert(id).second) sendOrder_.push_back(id);`
unfoldable pub join_order : ClientId → Manager → Manager
join_order id m = if contains id m.send_order_set then m else record m {
  send_order_set = insert id m.send_order_set;
  send_order = m.send_order ++ id ∷ [];
}

-- The state change of scheduleFlush, and the delay for which the timer is set, if it is.
unfoldable pub schedule_flush : ℕ → Manager → Manager × Option ℕ
schedule_flush delay m =
    if not m.flush_scheduled && not (is_empty m.send_order)
    then (
      record m { flush_scheduled = true },
      some (if m.send_blocked then max delay m.backoff_ms else delay),
    )
    else (m, none)

-- The part of enqueuePacket under the mutex.
unfoldable pub push_pending : ClientId → Packet → Manager → Manager
unfolding join_order
push_pending id packet m =
    let queue = queue_of id m.pending_packets in
    let m' = record m { pending_packets = assign id (queue ++ packet ∷ []) m.pending_packets } in
    if is_empty queue then join_order id m' else m'

unfoldable pub enqueue_packet : ClientId → Packet → Manager → Manager × Option ℕ
unfolding push_pending schedule_flush
enqueue_packet id packet m = schedule_flush 5 (push_pending id packet m)

-- `pendingPackets_.erase(it); sendOrderSet_.erase(id);`
unfoldable pub forget : ClientId → Manager → Manager
forget id m = record m {
  pending_packets = erase id m.pending_packets;
  send_order_set = remove id m.send_order_set;
}

-- The packets that wait.
unfoldable pub total : Map ClientId (List Packet) → ℕ
total [] = 0
total ((id, queue) ∷ m) = length queue + total m

-- Each round takes a packet or drops an ID, so this bounds the rounds.
unfoldable pub rounds : Manager → ℕ
unfolding total
rounds m = length m.send_order + total m.pending_packets

-- One round of the loop: the order is empty, the connection refused, or the round is done, with
-- the packet that it was done with, if it was one for a packet.
pub data Round (W : Type 0) : Type 0 where
  drained : Round W
  refused : Manager → W → Round W
  served : Manager → W → List (ClientId × Packet) → Round W

module _ (steam : Steam) where
  open steam use {World}

  -- What a round does after trySendPacket: `rest` is the queue behind the packet.
  unfoldable pub after_send : ClientId → Packet → List Packet → Bool × Manager × World → Round World
  unfolding forget
  after_send id packet rest (false, m, w) =
      refused (record m { send_blocked = true; send_order = id ∷ m.send_order }) w
  after_send id packet [] (true, m, w) = served (forget id m) w ((id, packet) ∷ [])
  after_send id packet (next ∷ rest) (true, m, w) =
      served
        (record m {
          pending_packets = assign id (next ∷ rest) m.pending_packets;
          send_order = m.send_order ++ id ∷ [];
        })
        w ((id, packet) ∷ [])

  -- A round for the front of the order, whose queue is given; the order has been popped.
  unfoldable pub serve : ClientId → Option (List Packet) → Manager → World → Round World
  serve id none m w = served (record m { send_order_set = remove id m.send_order_set }) w []
  serve id (some []) m w = served (forget id m) w []
  serve id (some (packet ∷ rest)) m w = after_send id packet rest (try_send_packet steam packet m w)

  unfoldable pub flush_round : List ClientId → Manager → World → Round World
  flush_round [] m w = drained
  flush_round (id ∷ order) m w =
      serve id (find id m.pending_packets) (record m { send_order = order }) w

  -- What the loop leaves: the state, the world, the packets done with, and whether it came to the end
  -- of the order.
  pub record Flushed : Type 0 where
    pub manager : Manager
    pub world : World
    pub passed : List (ClientId × Packet)
    pub complete : Bool

  unfoldable pub then_flush : List (ClientId × Packet) → Option Flushed → Option Flushed
  then_flush out none = none
  then_flush out (some r) = some (record r { passed = out ++ r.passed })

  -- What follows a round, given the rest of the loop.
  unfoldable pub continue_flush :
      (Manager → World → Option Flushed) → Manager → World → Round World → Option Flushed
  unfolding then_flush
  continue_flush loop m w drained =
      some (record { manager = m; world = w; passed = []; complete = true })
  continue_flush loop m w (refused m' w') =
      some (record { manager = m'; world = w'; passed = []; complete = false })
  continue_flush loop m w (served m' w' out) = then_flush out (loop m' w')

  -- The loop, with fuel; `none` means that the fuel ran out.
  unfoldable pub flush_loop : ℕ → Manager → World → Option Flushed
  unfolding continue_flush
  flush_loop zero m w = none
  flush_loop (suc fuel) m w = continue_flush (flush_loop fuel) m w (flush_round m.send_order m w)

  -- After a complete flush the paused reads are resumed; the result has their IDs.
  unfoldable pub end_flush : Option Flushed → Option (Flushed × List ClientId)
  end_flush none = none
  end_flush (some r) =
      if r.complete
      then some (
        record r { manager = record (r.manager) { send_blocked = false; paused_reads = [] } },
        r.manager.paused_reads,
      )
      else some (r, [])

  -- flushPendingPackets, with fuel for every packet and every ID.
  unfoldable pub flush_pending_packets : Manager → World → Option (Flushed × List ClientId)
  unfolding end_flush
  flush_pending_packets m w =
      let (saturated, m', w') = is_send_saturated steam m w in
      let flushed = flush_loop (suc (rounds m')) m' w' in
      if saturated
      then some (record { manager = m'; world = w'; passed = []; complete = false }, [])
      else end_flush flushed

  -- The last lines of the timer's callback: the flag is reset, and the timer is set again if
  -- packets wait.
  unfoldable pub rearm : Manager → Manager × Option ℕ
  unfolding schedule_flush
  rearm m =
      let m' = record m { flush_scheduled = false } in
      let delay = if m.send_blocked then m.backoff_ms else 5 in
      if is_empty m.send_order then (m', none) else schedule_flush delay m'

  -- The timer's callback, when it is not cancelled.
  unfoldable pub on_timer : Manager → World → Option (Flushed × List ClientId × Option ℕ)
  unfolding rearm
  on_timer m w = elim (flush_pending_packets m w) [
    | none ↦ none
    | some (r, resumed) ↦
        let (m', delay) = rearm r.manager in some (record r { manager = m' }, resumed, delay)
  ]
