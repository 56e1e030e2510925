-- ===== src/Heartbeat/Conflict.antt =====
-- Two nodes that send from one address, and the index of addresses.
use connecttool_qt.Base.{ℕ, ◌≡◌, ◌≢◌, List, none, some, if◌then◌else◌, arith, ◌==◌}
use connecttool_qt.Base.Map.{find, erase, find-assign, find-erase}
use connecttool_qt.Base.Key.{nat_key, list_key, list_same, list_same_iff, same_refl}
use connecttool_qt.NodeIdentity.Defs.{NodeId, has_priority}
use connecttool_qt.Heartbeat.State.{HeartbeatManager, NodeInfo}
use connecttool_qt.Heartbeat.Methods.{
  register_node, unregister_node, find_node_by_ip, steam_id_of, resolve, detect_conflict,
}

-- The node of two that must leave the address, and the one that may stay.
abbrev pub loser : NodeId → NodeId → NodeId
loser owner sender = if has_priority owner sender then sender else owner

abbrev pub winner : NodeId → NodeId → NodeId
winner owner sender = if has_priority owner sender then owner else sender

module _ (m : HeartbeatManager) (ip : ℕ) (owner sender : NodeId)
    (owned : find_node_by_ip m ip ≡ some owner) where
  -- If an address has an owner and a packet with that address comes from another node, and the one
  -- of them with lower priority is in the table, then that one's Steam ID is returned, and
  -- afterwards the other owns the address.
  pub detect_conflict_lem :
      (steam : ℕ)
      → owner ≢ sender
      → steam_id_of m (loser owner sender) ≡ some steam
      → ((detect_conflict m ip sender).1 ≡ some steam)
        × (find_node_by_ip (detect_conflict m ip sender).0 ip ≡ some (winner owner sender))
  unfolding find_node_by_ip detect_conflict resolve
  detect_conflict_lem steam ne known =
      ground (arith, list_same_iff owner sender, find-assign ip ip sender m.ip_to_node_id)

  -- No conflict is reported, and nothing changes, for the owner's own packets.
  pub detect_conflict_self : owner ≡ sender → detect_conflict m ip sender ≡ (m, none)
  unfolding find_node_by_ip detect_conflict resolve
  detect_conflict_self e = ground (arith, list_same_iff owner sender)

-- A registered node is found by its address, and other addresses keep their owners.
pub find_node_by_ip-register_node :
    (now : ℕ) (m : HeartbeatManager) (id : NodeId) (steam ip : ℕ) (name : List ℕ) (other : ℕ)
    → find_node_by_ip (register_node now m id steam ip name) other
      ≡ (if ip == other then some id else find_node_by_ip m other)
unfolding find_node_by_ip register_node
find_node_by_ip-register_node now m id steam ip name other = find-assign other ip id m.ip_to_node_id

find-register_node :
    (now : ℕ) (m : HeartbeatManager) (id : NodeId) (steam ip : ℕ) (name : List ℕ)
    → find id (register_node now m id steam ip name).node_table
      ≡ some (record {
        node_id = id;
        steam_id = steam;
        ip_address = ip;
        last_heartbeat = now;
        name = name;
        is_local = list_same id m.local_node_id;
      })
unfolding register_node
find-register_node now m id steam ip name = rw (find-assign, same_refl id)

-- Unregistering a known node removes its entry and the index entry of its present address.
pub unregister_node_known :
    (m : HeartbeatManager) (id : NodeId) (info : NodeInfo)
    → find id m.node_table ≡ some info
    → unregister_node m id ≡ record m {
      node_table = erase id m.node_table;
      ip_to_node_id = erase info.ip_address m.ip_to_node_id;
    }
unfolding unregister_node
unregister_node_known m id info e = rw (e, unregister_node)

-- When a node is registered at one address and then at another, the old address still leads to it,
-- also after it is unregistered and gone from the table.
pub register_node_stale :
    (now later : ℕ) (m : HeartbeatManager) (id : NodeId) (steam old new : ℕ) (name : List ℕ)
    → old ≢ new
    → let moved = register_node later (register_node now m id steam old name) id steam new name in
      (find_node_by_ip moved old ≡ some id)
      × (find_node_by_ip (unregister_node moved id) old ≡ some id)
      × (find id (unregister_node moved id).node_table ≡ none)
unfolding find_node_by_ip
register_node_stale now later m id steam old new name ne =
    let first = register_node now m id steam old name in
    let moved = register_node later first id steam new name in
    let known = find-register_node later first id steam new name in
    (
      stays,
      rw (unregister_node_known moved id _ known) (rw find-erase (ground (arith, stays))),
      rw (unregister_node_known moved id _ known) (rw (find-erase, same_refl id)),
    )
  where
    stays :
        find_node_by_ip
          (register_node later (register_node now m id steam old name) id steam new name)
          old
        ≡ some id
    stays = rw (find_node_by_ip-register_node, find_node_by_ip-register_node) (ground arith)
