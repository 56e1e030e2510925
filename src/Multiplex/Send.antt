-- ===== src/Multiplex/Send.antt =====
-- sendTunnelPacket: the order of one connection's packets.
use connecttool_qt.Base.{
  ℕ, ◌<◌, length, ◌≡◌, refl, List, [], ◌∷◌, ◌++◌, map, Bool, true, false, arith, if_cases,
}
use mathlib.Core.List.{append_assoc, append-nil}
use connecttool_qt.Base.Map.{find-assign}
use connecttool_qt.Base.Key.{list_key, list_same_iff}
use connecttool_qt.Multiplex.Packet.{ClientId, Packet, build_packet, payloads}
use connecttool_qt.Multiplex.State.{SendResult, Steam, Manager}
use connecttool_qt.Multiplex.Transport.{
  is_send_saturated, try_send_packet, is_send_saturated-SameQueues, try_send_packet-SameQueues,
}
use connecttool_qt.Multiplex.Queue.Flush.{
  queue_of, push_pending, join_order, enqueue_packet, schedule_flush,
}
use connecttool_qt.Multiplex.Recorded.{
  recorded, taken, is_send_saturated_log, try_send_packet-Took, build_packet_long,
}
use connecttool_qt.Multiplex.Manager.{
  Push, hold, push_packet, push_all, note_blocked, send_tunnel_packet,
}

module _ (id : ClientId) where
  queue-push_pending :
      (packet : Packet) (m : Manager)
      → queue_of id (push_pending id packet m).pending_packets
        ≡ queue_of id m.pending_packets ++ packet ∷ []
  unfolding push_pending join_order
  queue-push_pending packet m = ground (
    arith,
    find-assign id id (queue_of id m.pending_packets ++ packet ∷ []) m.pending_packets,
    list_same_iff id id,
  )

  queue-enqueue_packet :
      (packet : Packet) (m : Manager)
      → queue_of id (enqueue_packet id packet m).0.pending_packets
        ≡ queue_of id m.pending_packets ++ packet ∷ []
  unfolding enqueue_packet schedule_flush
  queue-enqueue_packet packet m = ground (arith, queue-push_pending packet m)

module _ (steam : Steam) (id : ClientId) where
  open steam use {World}

  -- The packets that Steam took and then those in the queue are `done`, and as long as nothing has
  -- been held back the queue is empty.
  abbrev Progress : List Packet → Push (recorded steam) → Type 0
  Progress done s =
      (taken s.world.1 ++ queue_of id s.manager.pending_packets ≡ done)
      × (s.blocked ≡ false → queue_of id s.manager.pending_packets ≡ [])

  hold-Progress :
      (packet : Packet) (done : List Packet) (m : Manager) (w : World × List (Packet × SendResult))
      (passed : List (ClientId × Packet))
      → taken w.1 ++ queue_of id m.pending_packets ≡ done
      → Progress (done ++ packet ∷ []) (hold (recorded steam) id packet m w passed)
  unfolding hold
  hold-Progress packet done m w passed h =
      (rw (queue-enqueue_packet id packet m, ← append_assoc, h), ground arith)

  pass-Progress :
      (packet : Packet) (done : List Packet) (b : Bool) (m : Manager)
      (w w' : World × List (Packet × SendResult)) (passed : List (ClientId × Packet))
      → taken w.1 ++ queue_of id m.pending_packets ≡ done
      → queue_of id m.pending_packets ≡ []
      → taken w'.1 ≡ taken w.1 ++ packet ∷ []
      → Progress
          (done ++ packet ∷ [])
          (record { blocked = b; manager = m; world = w'; passed = passed })
  pass-Progress packet done b m w w' passed h empty took =
      (rw (took, ← h, empty, append-nil, append-nil), λ _. empty)

  push_packet-Progress :
      (packet : Packet) (done : List Packet) (s : Push (recorded steam))
      → 0 < length packet
      → Progress done s
      → Progress (done ++ packet ∷ []) (push_packet (recorded steam) id packet s)
  unfolding push_packet
  push_packet-Progress packet done s long (h, open_) =
      let r = recorded steam in
      let first = is_send_saturated r s.manager s.world in
      let second = try_send_packet r packet first.1 first.2 in
      let same = (is_send_saturated-SameQueues r s.manager s.world).pending in
      let same' = (try_send_packet-SameQueues r packet first.1 first.2).pending in
      let h' : taken first.2.1 ++ queue_of id first.1.pending_packets ≡ done =
        rw (same, is_send_saturated_log steam s.manager s.world) h in
      let h'' : taken first.2.1 ++ queue_of id second.1.pending_packets ≡ done = rw same' h' in
      let took = try_send_packet-Took steam packet first.1 first.2 long in
      if_cases (Progress (done ++ packet ∷ [])) s.blocked
        {x = hold r id packet s.manager s.world s.passed}
        (λ _. hold-Progress packet done s.manager s.world s.passed h)
        λ free.
          if_cases (Progress (done ++ packet ∷ [])) first.0
            {x = hold r id packet first.1 first.2 s.passed}
            (λ _. hold-Progress packet done first.1 first.2 s.passed h')
            λ _.
              if_cases (Progress (done ++ packet ∷ [])) second.0
                {y = hold r id packet second.1 second.2 s.passed}
                (λ sent.
                  pass-Progress packet done s.blocked second.1 first.2 second.2
                    (s.passed ++ (id, packet) ∷ []) h'' (rw (same', same) (open_ free))
                    (rw sent at took))
                λ kept.
                  hold-Progress packet done second.1 second.2 s.passed (rw (rw kept at took) h'')

  push_all-Progress :
      (type : ℕ) (parts : List (List ℕ)) (done : List Packet) (s : Push (recorded steam))
      → Progress done s
      → Progress
          (done ++ map (λ bytes. build_packet id bytes type) parts)
          (push_all (recorded steam) id type parts s)
  unfolding push_all
  push_all-Progress type [] done s h = rw append-nil h
  push_all-Progress type (bytes ∷ parts) done s h = rw append_assoc at (
      push_all-Progress type parts (done ++ build_packet id bytes type ∷ [])
        (push_packet (recorded steam) id (build_packet id bytes type) s)
        (push_packet-Progress (build_packet id bytes type) done s (build_packet_long id bytes type)
          h))

  note_blocked_keeps :
      (s : Push (recorded steam)) (done : List Packet)
      → taken s.world.1 ++ queue_of id s.manager.pending_packets ≡ done
      → taken (note_blocked (recorded steam) s).world.1
          ++ queue_of id (note_blocked (recorded steam) s).manager.pending_packets
        ≡ done
  unfolding note_blocked
  note_blocked_keeps s done h = ground arith

  -- If no packet of the connection waits, then after a call the packets that Steam was given and
  -- did not answer with LimitExceeded, in the order of the sends, followed by those in the queue,
  -- are the packets of its payloads in order: a packet that Steam answers with LimitExceeded stays
  -- in the queue, none comes twice, and none goes ahead of one that is held back.
  pub taken-send_tunnel_packet :
      (bytes : List ℕ) (type : ℕ) (m : Manager) (w : World)
      → queue_of id m.pending_packets ≡ []
      → taken (send_tunnel_packet (recorded steam) id bytes type m (w, [])).world.1
          ++ queue_of id
              (send_tunnel_packet (recorded steam) id bytes type m (w, [])).manager.pending_packets
        ≡ map (λ part. build_packet id part type) (payloads bytes type)
  unfolding send_tunnel_packet
  taken-send_tunnel_packet bytes type m w h =
      let s : Push (recorded steam) = record {
        blocked = false;
        manager = m;
        world = (w, []);
        passed = [];
      } in
      note_blocked_keeps (push_all (recorded steam) id type (payloads bytes type) s) _
        (push_all-Progress type (payloads bytes type) [] s (h, λ _. h)).0

  -- If the connection is not saturated and Steam takes the packet, then a disconnect packet is
  -- handed over at once, and the packets that wait in the queue of the same ID still wait behind
  -- it.
  pub send_tunnel_packet_overtakes :
      (m : Manager) (w : World)
      → let first = is_send_saturated steam m w in
        let packet = build_packet id [] 1 in
        first.0 ≡ false
        → (try_send_packet steam packet first.1 first.2).0 ≡ true
        → ((send_tunnel_packet steam id [] 1 m w).passed ≡ (id, packet) ∷ [])
          × (queue_of id (send_tunnel_packet steam id [] 1 m w).manager.pending_packets
              ≡ queue_of id m.pending_packets)
  unfolding send_tunnel_packet push_all push_packet note_blocked payloads
  send_tunnel_packet_overtakes m w free taken =
      let first = is_send_saturated steam m w in
      let same = (is_send_saturated-SameQueues steam m w).pending in
      let same' =
        (try_send_packet-SameQueues steam (build_packet id [] 1) first.1 first.2).pending in
      rw (free, taken) (refl, rw (same', same) refl)
