-- ===== src/Heartbeat/Tests.antt =====
-- A table of nodes on concrete values.
use connecttool_qt.Base.{
  ℕ, ◌≡◌, ◌≢◌, refl, [], ◌∷◌, true, false, some, none, if◌then◌else◌, replicate, arith,
}
use connecttool_qt.Base.Map.{find}
use connecttool_qt.Base.Key.{list_key, nat_key}
use connecttool_qt.Samples.{platform}
use connecttool_qt.NodeIdentity.Defs.{NodeId, compare, has_priority}
use connecttool_qt.Protocol.Messages.{HeartbeatPayload}
use connecttool_qt.Heartbeat.State.{HeartbeatManager, NodeInfo}
use connecttool_qt.Heartbeat.Methods.{
  find_node_by_ip, check_expired_leases, handle_heartbeat, detect_conflict, steam_id_of,
}
use connecttool_qt.Heartbeat.Leases.{
  IsValid, is_expired, find-check_expired_leases, handle_heartbeat_lease,
}
use connecttool_qt.Heartbeat.Conflict.{loser, winner, detect_conflict_lem}

abbrev id_of : ℕ → NodeId
id_of n = n ∷ replicate 31 0

abbrev info : NodeInfo
info = record {
  node_id = id_of 3;
  steam_id = 33;
  ip_address = 167772163;
  last_heartbeat = 1000;
  name = [];
  is_local = false;
}

-- One node, with its address.
abbrev known : HeartbeatManager
known = record {
  local_node_id = id_of 5;
  local_ip = 167772165;
  last_heartbeat_sent = 0;
  node_table = (id_of 3, info) ∷ [];
  ip_to_node_id = (167772163, id_of 3) ∷ [];
  running = true;
  send_callback = true;
  expired_callback = true;
}

known-IsValid : IsValid known
known-IsValid = record { nodes = (tt, tt); addresses = (tt, tt) }

found : find (id_of 3) known.node_table ≡ some info
unfolding find
found = refl

find-check_expired_leases_example :
    find (id_of 3) (check_expired_leases 500000 known).0.node_table
    ≡ (if is_expired 500000 info then none else some info)
find-check_expired_leases_example =
    find-check_expired_leases 500000 known (id_of 3) info known-IsValid found

abbrev beat : HeartbeatPayload
beat = record { ip_address = 67108874; node_id = id_of 4; timestamp_ms = 77 }

handle_heartbeat_lease_example :
    (kept : NodeInfo) × (find
        (id_of 4)
        (check_expired_leases 300000 (handle_heartbeat platform 2000 known beat 44 [])).0.node_table
      ≡ some kept)
    × (kept.last_heartbeat ≡ 2000)
handle_heartbeat_lease_example =
    handle_heartbeat_lease platform 2000 300000 known beat 44 [] known-IsValid (omega arith)

owned : find_node_by_ip known 167772163 ≡ some (id_of 3)
unfolding find_node_by_ip find
owned = refl

stranger : id_of 3 ≢ id_of 4
stranger h = ground arith

loser-known : steam_id_of known (loser (id_of 3) (id_of 4)) ≡ some 33
unfolding find has_priority compare
loser-known = refl

detect_conflict_lem_example :
    ((detect_conflict known 167772163 (id_of 4)).1 ≡ some 33)
    × (find_node_by_ip (detect_conflict known 167772163 (id_of 4)).0 167772163
        ≡ some (winner (id_of 3) (id_of 4)))
detect_conflict_lem_example =
    detect_conflict_lem known 167772163 (id_of 3) (id_of 4) owned 33 stranger loser-known

moved : ◌≢◌ {A = ℕ} 167772163 167772164
moved h = ground arith
