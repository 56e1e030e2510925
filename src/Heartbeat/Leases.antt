-- ===== src/Heartbeat/Leases.antt =====
-- Who stays in the table: a lease lasts six minutes from the last heartbeat.
use connecttool_qt.Base.{
  ℕ, ◌+◌, ◌<◌, ◌≡◌, refl, List, [], ◌∷◌, map, Bool, true, false, not, ◌&&◌, none, some,
  if◌then◌else◌, arith, Option-cases, inl, inr, keep_if,
}
use connecttool_qt.Base.Map.{
  Map, find, erase, erase_if, find-assign, find-erase_if, IsSorted, erase-IsSorted,
  erase_if-IsSorted, assign-IsSorted,
}
use connecttool_qt.Base.Key.{nat_key, list_key, same_refl}
use mathlib.Core.List.{map-map}
use connecttool_qt.Platform.{Platform}
use connecttool_qt.NodeIdentity.Defs.{NodeId}
use connecttool_qt.Protocol.Messages.{HeartbeatPayload, is_lease_expired, lease_expiry_ms}
use connecttool_qt.Heartbeat.State.{HeartbeatManager, NodeInfo, expired}
use connecttool_qt.Heartbeat.Methods.{sweep, report_expired, check_expired_leases, handle_heartbeat}

-- A remote node whose last heartbeat is six minutes old.
abbrev pub is_expired : ℕ → NodeInfo → Bool
is_expired now info = not info.is_local && is_lease_expired now info.last_heartbeat

-- The loop keeps what has not expired and reports the rest, each in the order of the table.
sweep-erase_if :
    (now : ℕ) (table : Map NodeId NodeInfo) (index : Map ℕ NodeId)
    → ((sweep now table index).table ≡ erase_if (λ e. is_expired now e.1) table)
      × ((sweep now table index).gone
          ≡ map (λ e. (e.0, e.1.ip_address)) (keep_if (λ e. is_expired now e.1) table))
unfolding sweep erase_if
sweep-erase_if now [] index = (refl, refl)
sweep-erase_if now ((id, info) ∷ rest) index =
    ground
      (arith, sweep-erase_if now rest (erase info.ip_address index), sweep-erase_if now rest index)

-- The state of the manager: each node stands once in the table and each address once in the index.
pub record IsValid (m : HeartbeatManager) : Type 0 where
  pub nodes : IsSorted m.node_table
  pub addresses : IsSorted m.ip_to_node_id

sweep-IsSorted :
    (now : ℕ) (table : Map NodeId NodeInfo) (index : Map ℕ NodeId)
    → IsSorted index
    → IsSorted (sweep now table index).index
unfolding sweep
sweep-IsSorted now [] index u = u
sweep-IsSorted now ((id, info) ∷ rest) index u = ground (
  arith,
  sweep-IsSorted now rest (erase info.ip_address index),
  sweep-IsSorted now rest index,
  erase-IsSorted info.ip_address index,
)

pub check_expired_leases-IsValid :
    (now : ℕ) (m : HeartbeatManager) → IsValid m → IsValid (check_expired_leases now m).0
unfolding check_expired_leases
check_expired_leases-IsValid now m v = record {
  nodes =
      rw ((sweep-erase_if now m.node_table m.ip_to_node_id).0)
        (erase_if-IsSorted _ m.node_table v.nodes);
  addresses = sweep-IsSorted now m.node_table m.ip_to_node_id v.addresses;
}

-- In a well-formed manager, a check of the leases removes a known node if it is not local and its
-- lease has run out, and leaves its entry as it was otherwise.
pub find-check_expired_leases :
    (now : ℕ) (m : HeartbeatManager) (id : NodeId) (info : NodeInfo)
    → IsValid m
    → find id m.node_table ≡ some info
    → find id (check_expired_leases now m).0.node_table
      ≡ (if is_expired now info then none else some info)
unfolding check_expired_leases
find-check_expired_leases now m id info v h =
    rw ((sweep-erase_if now m.node_table m.ip_to_node_id).0)
      (find-erase_if (λ e. is_expired now e.1) id info m.node_table v.nodes h)

-- If the callback is set, a check of the leases calls it for the nodes that are not local and
-- whose lease has run out, in the order of the table, and for no others.
pub check_expired_leases_reports :
    (now : ℕ) (m : HeartbeatManager)
    → m.expired_callback ≡ true
    → (check_expired_leases now m).1
      ≡ map (λ e. expired e.0 e.1.ip_address) (keep_if (λ e. is_expired now e.1) m.node_table)
unfolding check_expired_leases report_expired
check_expired_leases_reports now m set =
    rw (set, (sweep-erase_if now m.node_table m.ip_to_node_id).1) (map-map _ _ _)

is_lease_expired_recent :
    (now last : ℕ) → now < last + lease_expiry_ms → is_lease_expired now last ≡ false
unfolding is_lease_expired
is_lease_expired_recent now last h = ground arith

module _ (p : Platform) where
  pub handle_heartbeat-IsValid :
      (now : ℕ) (m : HeartbeatManager) (hb : HeartbeatPayload) (peer : ℕ) (name : List ℕ)
      → IsValid m
      → IsValid (handle_heartbeat p now m hb peer name)
  unfolding handle_heartbeat
  handle_heartbeat-IsValid now m hb peer name v =
      elim (Option-cases (find hb.node_id m.node_table)) [
        | inl e ↦
            rw (e, handle_heartbeat)
              (record {
                nodes = assign-IsSorted hb.node_id _ m.node_table v.nodes;
                addresses =
                    assign-IsSorted (p.ntohl hb.ip_address) hb.node_id m.ip_to_node_id v.addresses;
              })
        | inr (info, e) ↦
            rw (e, handle_heartbeat)
              (record {
                nodes = assign-IsSorted hb.node_id _ m.node_table v.nodes;
                addresses = v.addresses;
              })
      ]

  find-handle_heartbeat :
      (now : ℕ) (m : HeartbeatManager) (hb : HeartbeatPayload) (peer : ℕ) (name : List ℕ)
      → (info : NodeInfo) × (find hb.node_id (handle_heartbeat p now m hb peer name).node_table
          ≡ some info)
        × (info.last_heartbeat ≡ now)
  unfolding handle_heartbeat
  find-handle_heartbeat now m hb peer name = elim (Option-cases (find hb.node_id m.node_table)) [
    | inl e ↦ (
      record {
        node_id = hb.node_id;
        steam_id = peer;
        ip_address = p.ntohl hb.ip_address;
        last_heartbeat = now;
        name = name;
        is_local = false;
      },
      rw (e, handle_heartbeat) (rw (find-assign, same_refl hb.node_id) refl),
      refl,
    )
    | inr (info, e) ↦ (
      record info { last_heartbeat = now },
      rw (e, handle_heartbeat) (rw (find-assign, same_refl hb.node_id) refl),
      refl,
    )
  ]

  -- In a well-formed manager, whoever sends a heartbeat is in the table, with the time of that
  -- heartbeat, after any check of the leases that comes before the lease has run out.
  pub handle_heartbeat_lease :
      (now later : ℕ) (m : HeartbeatManager) (hb : HeartbeatPayload) (peer : ℕ) (name : List ℕ)
      → IsValid m
      → later < now + lease_expiry_ms
      → (info : NodeInfo) × (find hb.node_id
            (check_expired_leases later (handle_heartbeat p now m hb peer name)).0.node_table
          ≡ some info)
        × (info.last_heartbeat ≡ now)
  handle_heartbeat_lease now later m hb peer name v h =
      let (info, e, t) = find-handle_heartbeat now m hb peer name in
      (
        info,
        rw
            (find-check_expired_leases later _ hb.node_id info
              (handle_heartbeat-IsValid now m hb peer name v) e)
            (ground (arith, is_lease_expired_recent later info.last_heartbeat)),
        t,
      )
