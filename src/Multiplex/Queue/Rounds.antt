-- ===== src/Multiplex/Queue/Rounds.antt =====
-- A round of the flush keeps queues and order in agreement.
use connecttool_qt.Base.{
  ◌≡◌, refl, List, [], ◌∷◌, Bool, true, false, Option, none, some, if◌then◌else◌, arith,
}
use connecttool_qt.Base.Map.{
  find, find-assign, find-erase, IsSorted, assign-IsSorted, erase-IsSorted,
}
use connecttool_qt.Base.Set.{contains, contains-remove}
use connecttool_qt.Base.Key.{list_key, list_same, list_same_iff}
use connecttool_qt.Multiplex.Packet.{ClientId, Packet}
use connecttool_qt.Multiplex.State.{Steam, Manager}
use connecttool_qt.Multiplex.Transport.{SameQueues, try_send_packet, try_send_packet-SameQueues}
use connecttool_qt.Multiplex.Queue.Flush.{
  queue_of, is_empty, Round, drained, refused, served, forget, after_send, serve, flush_round,
}
use connecttool_qt.Multiplex.Queue.Invariant.{
  contains-append_one, Distinct-append_one, Distinct, IsQueued,
}

-- The loop's state between the pop of an ID and what follows.
record Popped (id : ClientId) (m : Manager) : Type 0 where
  sorted : IsSorted m.pending_packets
  agree :
      (j : ClientId)
      → contains j m.send_order_set ≡ (if list_same id j then true else contains j m.send_order)
  waiting :
      (j : ClientId)
      → is_empty (queue_of j m.pending_packets) ≡ false
      → contains j m.send_order_set ≡ true
  absent : contains id m.send_order ≡ false
  distinct : Distinct m.send_order

module _ (steam : Steam) where
  open steam use {World}

  abbrev pub RoundQueued : Round World → Type 0
  RoundQueued drained = Unit {0}
  RoundQueued (refused m w) = IsQueued m
  RoundQueued (served m w out) = IsQueued m

  forget-IsQueued : (id : ClientId) (m : Manager) → Popped id m → IsQueued (forget id m)
  unfolding forget
  forget-IsQueued id m v = record {
    sorted = erase-IsSorted id m.pending_packets v.sorted;
    agree = λ j.
        ground
          (arith, v.agree j, v.absent, contains-remove j id m.send_order_set, list_same_iff id j);
    waiting = λ j h. ground (
      arith,
      v.waiting j,
      find-erase j id m.pending_packets,
      contains-remove j id m.send_order_set,
    );
    distinct = v.distinct;
  }

  same-Popped :
      {id : ClientId} {m m' : Manager} → SameQueues steam m m' → Popped id m → Popped id m'
  same-Popped s v = record {
    sorted = rw s.pending v.sorted;
    agree = λ j. rw (s.order_set, s.order) (v.agree j);
    waiting = λ j h. rw s.order_set (v.waiting j (rw s.pending at h));
    absent = rw s.order v.absent;
    distinct = rw s.order v.distinct;
  }

  pub same-IsQueued : {m m' : Manager} → SameQueues steam m m' → IsQueued m → IsQueued m'
  same-IsQueued s v = record {
    sorted = rw s.pending v.sorted;
    agree = λ j. rw (s.order_set, s.order) (v.agree j);
    waiting = λ j h. rw s.order_set (v.waiting j (rw s.pending at h));
    distinct = rw s.order v.distinct;
  }

  after_send-RoundQueued :
      (id : ClientId) (packet : Packet) (rest : List Packet) (r : Bool × Manager × World)
      → Popped id r.1
      → RoundQueued (after_send steam id packet rest r)
  unfolding after_send
  after_send-RoundQueued id packet rest (false, m, w) v = record {
    sorted = v.sorted;
    agree = λ j. unfold contains in ground (arith, v.agree j);
    waiting = v.waiting;
    distinct = (v.absent, v.distinct);
  }
  after_send-RoundQueued id packet [] (true, m, w) v = forget-IsQueued id m v
  after_send-RoundQueued id packet (next ∷ rest) (true, m, w) v = record {
    sorted = assign-IsSorted id (next ∷ rest) m.pending_packets v.sorted;
    agree = λ j. rw contains-append_one (v.agree j);
    waiting = λ j h.
        ground (arith, v.waiting j, v.agree j, find-assign j id (next ∷ rest) m.pending_packets);
    distinct = Distinct-append_one id m.send_order v.absent v.distinct;
  }

  serve-RoundQueued :
      (id : ClientId) (o : Option (List Packet)) (m : Manager) (w : World)
      → find id m.pending_packets ≡ o
      → Popped id m
      → RoundQueued (serve steam id o m w)
  unfolding serve
  serve-RoundQueued id none m w e v = record {
    sorted = v.sorted;
    agree = λ j.
        ground
          (arith, v.agree j, v.absent, contains-remove j id m.send_order_set, list_same_iff id j);
    waiting = λ j h.
        ground (arith, v.waiting j, contains-remove j id m.send_order_set, list_same_iff id j);
    distinct = v.distinct;
  }
  serve-RoundQueued id (some []) m w e v = forget-IsQueued id m v
  serve-RoundQueued id (some (packet ∷ rest)) m w e v =
      after_send-RoundQueued id packet rest (try_send_packet steam packet m w)
        (same-Popped (try_send_packet-SameQueues steam packet m w) v)

  pop-Popped :
      (id : ClientId) (order : List ClientId) (m : Manager)
      → m.send_order ≡ id ∷ order
      → IsQueued m
      → Popped id (record m { send_order = order })
  unfolding contains
  pop-Popped id order m e v =
      let d : Distinct (id ∷ order) = rw e at v.distinct in
      record {
        sorted = v.sorted;
        agree = λ j. rw (v.agree j, e) (ground arith);
        waiting = v.waiting;
        absent = d.0;
        distinct = d.1;
      }

  pub flush_round-RoundQueued :
      (order : List ClientId) (m : Manager) (w : World)
      → m.send_order ≡ order
      → IsQueued m
      → RoundQueued (flush_round steam order m w)
  unfolding flush_round
  flush_round-RoundQueued [] m w e v = tt
  flush_round-RoundQueued (id ∷ order) m w e v =
      serve-RoundQueued id (find id m.pending_packets) (record m { send_order = order }) w refl
        (pop-Popped id order m e v)
