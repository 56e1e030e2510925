-- ===== src/Multiplex/Queue/Invariant.antt =====
-- The order of service and the queues agree: an ID with waiting packets is in the order, once.
use connecttool_qt.Base.{
  ◌≡◌, refl, List, [], ◌∷◌, ◌++◌, true, false, some, if◌then◌else◌, arith, if_cases,
}
use connecttool_qt.Base.Map.{find, assign, find-assign, IsSorted, assign-IsSorted}
use connecttool_qt.Base.Set.{contains, insert, remove, contains-insert, contains-remove}
use connecttool_qt.Base.Key.{list_key, list_same, list_same_iff}
use connecttool_qt.Multiplex.Packet.{ClientId, Packet}
use connecttool_qt.Multiplex.State.{Manager}
use connecttool_qt.Multiplex.Queue.Flush.{queue_of, is_empty, push_pending, join_order}

abbrev pub Distinct : List ClientId → Type 0
Distinct [] = Unit
Distinct (id ∷ ids) = (contains id ids ≡ false) × Distinct ids

pub record IsQueued (m : Manager) : Type 0 where
  pub sorted : IsSorted m.pending_packets
  pub agree : (j : ClientId) → contains j m.send_order_set ≡ contains j m.send_order
  pub waiting :
      (j : ClientId)
      → is_empty (queue_of j m.pending_packets) ≡ false
      → contains j m.send_order_set ≡ true
  pub distinct : Distinct m.send_order

pub contains-append_one :
    (j id : ClientId) (ids : List ClientId)
    → contains j (ids ++ id ∷ []) ≡ (if list_same id j then true else contains j ids)
unfolding contains
contains-append_one j id [] = ground arith
contains-append_one j id (k ∷ ids) = ground (arith, contains-append_one j id ids)

pub Distinct-append_one :
    (id : ClientId) (ids : List ClientId)
    → contains id ids ≡ false
    → Distinct ids
    → Distinct (ids ++ id ∷ [])
unfolding contains
Distinct-append_one id [] h d = (refl, tt)
Distinct-append_one id (k ∷ ids) h d = (
  ground (arith, contains-append_one k id ids, list_same_iff k id, list_same_iff id k),
  Distinct-append_one id ids (ground arith) d.1,
)

remove_absent :
    (id j : ClientId) (ids : List ClientId)
    → contains j ids ≡ false
    → contains j (remove id ids) ≡ false
remove_absent id j ids h = ground (arith, contains-remove j id ids)

pub Distinct-remove :
    (id : ClientId) (ids : List ClientId) → Distinct ids → Distinct (remove id ids)
unfolding remove
Distinct-remove id [] d = tt
Distinct-remove id (k ∷ ids) d =
    ground (arith, Distinct-remove id ids d.1, remove_absent id k ids d.0)

-- Putting a packet into a queue keeps queues and order in agreement: the order has each ID once,
-- it has the IDs of the set, and every ID whose queue is not empty is in the set.
pub push_pending-IsQueued :
    (id : ClientId) (packet : Packet) (m : Manager)
    → IsQueued m
    → IsQueued (push_pending id packet m)
unfolding push_pending
push_pending-IsQueued id packet m v =
    if_cases IsQueued (is_empty (queue_of id m.pending_packets)) {x = join_order id pushed}
      {y = pushed}
      (λ _.
        if_cases IsQueued (contains id m.send_order_set) {x = pushed} {y = joined}
          (λ here. pushed-IsQueued here)
          λ absent. record {
            sorted = sorted';
            agree = λ j. rw (contains-insert, contains-append_one) (ground (arith, v.agree j));
            waiting = λ j h. rw contains-insert (ground (arith, v.waiting j, found j));
            distinct = Distinct-append_one id m.send_order (ground (arith, v.agree id)) v.distinct;
          })
      (λ busy. pushed-IsQueued (v.waiting id busy))
  where
    queue : List Packet
    queue = queue_of id m.pending_packets ++ packet ∷ []

    pushed : Manager
    pushed = record m { pending_packets = assign id queue m.pending_packets }

    joined : Manager
    joined = record pushed {
      send_order_set = insert id m.send_order_set;
      send_order = m.send_order ++ id ∷ [];
    }

    sorted' : IsSorted (assign id queue m.pending_packets)
    sorted' = assign-IsSorted id queue m.pending_packets v.sorted

    found :
        (j : ClientId)
        → find j (assign id queue m.pending_packets)
          ≡ (if list_same id j then some queue else find j m.pending_packets)
    found j = find-assign j id queue m.pending_packets

    pushed-IsQueued : contains id m.send_order_set ≡ true → IsQueued pushed
    pushed-IsQueued here = record {
      sorted = sorted';
      agree = v.agree;
      waiting = λ j h. ground (arith, v.waiting j, found j, list_same_iff id j);
      distinct = v.distinct;
    }
