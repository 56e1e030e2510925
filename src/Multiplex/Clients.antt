-- ===== src/Multiplex/Clients.antt =====
-- removeClient and the queues.
use connecttool_qt.Base.{◌≡◌, refl, [], none, if◌then◌else◌, arith}
use connecttool_qt.Base.Map.{find, erase, find-erase, erase-IsSorted}
use connecttool_qt.Base.Set.{remove, contains-remove}
use connecttool_qt.Base.Key.{list_key, list_same, list_same_iff}
use connecttool_qt.Multiplex.Packet.{ClientId}
use connecttool_qt.Multiplex.State.{Manager}
use connecttool_qt.Multiplex.Queue.Flush.{queue_of, remove_from_order}
use connecttool_qt.Multiplex.Queue.Invariant.{IsQueued, Distinct-remove}
use connecttool_qt.Multiplex.Manager.{forget_client, remove_client, resume_paused_reads}

-- What removing a client does to the queues.
record Removed (id : ClientId) (m m' : Manager) : Type 0 where
  pending : m'.pending_packets ≡ erase id m.pending_packets
  order_set : m'.send_order_set ≡ remove id m.send_order_set
  order : m'.send_order ≡ remove id m.send_order

forget_client-Removed : (id : ClientId) (m : Manager) → Removed id m (forget_client id m).0
unfolding forget_client remove_from_order resume_paused_reads
forget_client-Removed id m = ground arith

remove_client-Removed : (id : ClientId) (m : Manager) → Removed id m (remove_client id m).1
unfolding remove_client
remove_client-Removed id m = ground (
  arith,
  forget_client-Removed id m,
  forget_client-Removed id (record m { client_map = erase id m.client_map }),
)

Removed-IsQueued : (id : ClientId) (m m' : Manager) → Removed id m m' → IsQueued m → IsQueued m'
Removed-IsQueued id m m' r v = record {
  sorted = rw r.pending (erase-IsSorted id m.pending_packets v.sorted);
  agree = λ j. rw (r.order_set, r.order, contains-remove, contains-remove, v.agree j) refl;
  waiting = λ j h.
      rw (r.order_set, contains-remove) (ground (arith, v.waiting j, erased j, rw r.pending at h));
  distinct = rw r.order (Distinct-remove id m.send_order v.distinct);
}
  where
    erased :
        (j : ClientId)
        → find j (erase id m.pending_packets)
          ≡ (if list_same id j then none else find j m.pending_packets)
    erased j = find-erase j id m.pending_packets

-- Removing a client, known or not, keeps queues and order in agreement, and leaves no packet of it
-- in a queue.
pub remove_client-IsQueued :
    (id : ClientId) (m : Manager)
    → IsQueued m
    → IsQueued (remove_client id m).1 × (queue_of id (remove_client id m).1.pending_packets ≡ [])
remove_client-IsQueued id m v = (
  Removed-IsQueued id m (remove_client id m).1 (remove_client-Removed id m) v,
  rw ((remove_client-Removed id m).pending)
      (ground (arith, find-erase id id m.pending_packets, list_same_iff id id)),
)
