-- ===== src/Multiplex/Transport.antt =====
-- isSendSaturated and trySendPacket: back-pressure of the Steam connection.
use connecttool_qt.Base.{
  ℕ, ◌*◌, ◌≤◌, ◌≡◌, [], ◌∷◌, Bool, true, false, none, some, if◌then◌else◌, leb, min, arith,
}
use connecttool_qt.Base.Int.{pos, ◌-ℤ◌, ltb_ℤ}
use connecttool_qt.Multiplex.Packet.{Packet}
use connecttool_qt.Multiplex.State.{
  Steam, Manager, accepted, limit_exceeded, high_water_bytes, low_water_bytes,
}

-- The lines that block the connection: the time, the doubled back-off up to a limit, the flag.
unfoldable pub block : ℕ → ℕ → Manager → Manager
block now limit m = record m {
  last_blocked = now;
  backoff_ms = min (m.backoff_ms * 2) limit;
  send_blocked = true;
}

module _ (steam : Steam) where
  open steam use {World, status, send_message, clock}

  -- The second half of isSendSaturated: what the status says.
  unfoldable pub check_status : Manager → World → Bool × Manager × World
  unfolding block
  check_status m w =
      let (pending, w') = status w in
      elim pending [
        | none ↦ (m.send_blocked, m, w')
        | some n ↦
            let (now, w'') = clock w' in
            if leb high_water_bytes n
            then (true, block now 200 m, w'')
            else if leb n low_water_bytes
            then (false, record m { send_blocked = false; backoff_ms = 5 }, w')
            else (m.send_blocked, m, w')
      ]

  unfoldable pub is_send_saturated : Manager → World → Bool × Manager × World
  unfolding check_status
  is_send_saturated m w =
      let (now, w') = clock w in
      let waits = ltb_ℤ (pos now -ℤ pos m.last_blocked) (pos m.backoff_ms) in
      if m.send_blocked
      then (if waits then (true, m, w') else check_status m w')
      else check_status m w

  -- The last part of trySendPacket: the send itself.
  unfoldable pub send_now : Packet → Manager → World → Bool × Manager × World
  unfolding block
  send_now packet m w =
      let (result, w') = send_message packet w in
      let (now, w'') = clock w' in
      elim result [
        | accepted ↦ (true, record m { backoff_ms = 5 }, w')
        | limit_exceeded ↦ (false, block now 100 m, w'')
        | _ ↦ (true, m, w')
      ]

  -- The part after the first status test.
  unfoldable pub send_unless_saturated : Packet → Manager → World → Bool × Manager × World
  send_unless_saturated packet m w =
      let (saturated, m', w') = is_send_saturated m w in
      if saturated then (false, m', w') else send_now packet m' w'

  -- True if the packet is done with: sent, or refused for good.
  unfoldable pub try_send_packet : Packet → Manager → World → Bool × Manager × World
  unfolding block
  try_send_packet [] m w = (true, m, w)
  try_send_packet (b ∷ bytes) m w =
      let packet = b ∷ bytes in
      let (pending, w') = status w in
      elim pending [
        | none ↦ send_unless_saturated packet m w'
        | some n ↦
            let (now, w'') = clock w' in
            if leb high_water_bytes n
            then (false, block now 200 m, w'')
            else send_unless_saturated packet m w'
      ]

  -- Sending touches the flag, the back-off and its time, and no queue.
  pub record SameQueues (m m' : Manager) : Type 0 where
    pub pending : m'.pending_packets ≡ m.pending_packets
    pub order : m'.send_order ≡ m.send_order
    pub order_set : m'.send_order_set ≡ m.send_order_set
    pub scheduled : m'.flush_scheduled ≡ m.flush_scheduled
    pub clients : m'.client_map ≡ m.client_map
    pub paused : m'.paused_reads ≡ m.paused_reads

  pub is_send_saturated-SameQueues :
      (m : Manager) (w : World) → SameQueues m (is_send_saturated m w).1
  unfolding is_send_saturated
  is_send_saturated-SameQueues m w = ground arith

  send_unless_saturated-SameQueues :
      (packet : Packet) (m : Manager) (w : World)
      → SameQueues m (send_unless_saturated packet m w).1
  unfolding send_unless_saturated send_now
  send_unless_saturated-SameQueues packet m w = ground (arith, is_send_saturated-SameQueues m w)

  pub try_send_packet-SameQueues :
      (packet : Packet) (m : Manager) (w : World) → SameQueues m (try_send_packet packet m w).1
  unfolding try_send_packet
  try_send_packet-SameQueues [] m w = ground arith
  try_send_packet-SameQueues (b ∷ bytes) m w =
      ground (arith, send_unless_saturated-SameQueues (b ∷ bytes) m (status w).1)

-- The back-off lies between 5 and 200 milliseconds, and stays there.
abbrev pub BackoffInRange : Manager → Type 0
BackoffInRange m = (5 ≤ m.backoff_ms) × (m.backoff_ms ≤ 200)

module _ (steam : Steam) where
  open steam use {World}

  is_send_saturated_backoff :
      (m : Manager) (w : World) → BackoffInRange m → BackoffInRange (is_send_saturated steam m w).1
  unfolding is_send_saturated
  is_send_saturated_backoff m w h = ground arith

  send_unless_saturated_backoff :
      (packet : Packet) (m : Manager) (w : World)
      → BackoffInRange m
      → BackoffInRange (send_unless_saturated steam packet m w).1
  unfolding send_unless_saturated send_now
  send_unless_saturated_backoff packet m w h = ground (arith, is_send_saturated_backoff m w h)

  is_send_saturated_blocked :
      (m : Manager) (w : World)
      → (is_send_saturated steam m w).0 ≡ true
      → (is_send_saturated steam m w).1.send_blocked ≡ true
  unfolding is_send_saturated
  is_send_saturated_blocked m w h = ground arith

  send_unless_saturated_refused :
      (packet : Packet) (m : Manager) (w : World)
      → (send_unless_saturated steam packet m w).0 ≡ false
      → (send_unless_saturated steam packet m w).1.send_blocked ≡ true
  unfolding send_unless_saturated send_now
  send_unless_saturated_refused packet m w h = ground (arith, is_send_saturated_blocked m w)

  -- If the back-off lies between 5 and 200 milliseconds, it does so after an attempt to send,
  -- whatever Steam answers.
  pub try_send_packet_backoff :
      (packet : Packet) (m : Manager) (w : World)
      → BackoffInRange m
      → BackoffInRange (try_send_packet steam packet m w).1
  unfolding try_send_packet
  try_send_packet_backoff [] m w h = h
  try_send_packet_backoff (b ∷ bytes) m w h =
      ground (arith, send_unless_saturated_backoff (b ∷ bytes) m (steam.status w).1 h)

  -- If an attempt to send refuses the packet, it leaves the connection blocked.
  pub try_send_packet_refused :
      (packet : Packet) (m : Manager) (w : World)
      → (try_send_packet steam packet m w).0 ≡ false
      → (try_send_packet steam packet m w).1.send_blocked ≡ true
  unfolding try_send_packet
  try_send_packet_refused [] m w h = cc
  try_send_packet_refused (b ∷ bytes) m w h =
      ground (arith, send_unless_saturated_refused (b ∷ bytes) m (steam.status w).1)
