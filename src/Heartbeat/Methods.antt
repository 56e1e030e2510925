-- ===== src/Heartbeat/Methods.antt =====
-- The methods of HeartbeatManager. `now` is the reading of the steady clock in milliseconds.
use connecttool_qt.Base.{
  ℕ, List, [], ◌∷◌, ◌++◌, map, Bool, true, false, not, ◌&&◌, ◌||◌, Option, none, some,
  if◌then◌else◌, ◌==◌, replicate,
}
use connecttool_qt.Base.Int.{pos, ◌-ℤ◌, leb_ℤ}
use connecttool_qt.Base.Map.{Map, find, assign, erase}
use connecttool_qt.Base.Key.{nat_key, list_key, list_same}
use connecttool_qt.Platform.{Platform}
use connecttool_qt.NodeIdentity.Defs.{NodeId, node_id_size, has_priority}
use connecttool_qt.Protocol.Messages.{
  heartbeat, HeartbeatPayload, encode_heartbeat, heartbeat_interval_ms, is_lease_expired,
}
use connecttool_qt.Heartbeat.State.{HeartbeatManager, NodeInfo, Action, broadcast, expired}

unfoldable pub initialize : ℕ → NodeId → ℕ → HeartbeatManager → HeartbeatManager
initialize now local_node_id local_ip m = record m {
  local_node_id = local_node_id;
  local_ip = local_ip;
  last_heartbeat_sent = now;
}

unfoldable pub set_send_callback : Bool → HeartbeatManager → HeartbeatManager
set_send_callback callback m = record m { send_callback = callback }

unfoldable pub set_node_expired_callback : Bool → HeartbeatManager → HeartbeatManager
set_node_expired_callback callback m = record m { expired_callback = callback }

-- The thread of heartbeatLoop runs exactly while `running` is set.
unfoldable pub start : HeartbeatManager → HeartbeatManager
start m = if m.running then m else record m { running = true }

unfoldable pub stop : HeartbeatManager → HeartbeatManager
stop m = if not m.running then m else record m { running = false }

unfoldable pub reset : ℕ → HeartbeatManager → HeartbeatManager
unfolding stop
reset now m = record (stop m) {
  node_table = [];
  ip_to_node_id = [];
  local_ip = 0;
  local_node_id = replicate node_id_size 0;
  last_heartbeat_sent = now;
}

unfoldable pub update_local_ip : ℕ → HeartbeatManager → HeartbeatManager
update_local_ip ip m = record m { local_ip = ip }

-- The loop of checkExpiredLeases over the table: what stays, the index, and the expired nodes.
pub record Sweep : Type 0 where
  pub table : Map NodeId NodeInfo
  pub index : Map ℕ NodeId
  pub gone : List (NodeId × ℕ)

unfoldable pub sweep : ℕ → Map NodeId NodeInfo → Map ℕ NodeId → Sweep
sweep now [] index = record { table = []; index = index; gone = [] }
sweep now ((id, info) ∷ rest) index =
    let drop_it = sweep now rest (erase info.ip_address index) in
    let keep_it = sweep now rest index in
    if not info.is_local && is_lease_expired now info.last_heartbeat
    then record drop_it { gone = (id, info.ip_address) ∷ drop_it.gone }
    else record keep_it { table = (id, info) ∷ keep_it.table }

-- The calls for the expired nodes, if the callback is set.
unfoldable pub report_expired : HeartbeatManager → List (NodeId × ℕ) → List Action
report_expired m gone = if m.expired_callback then map (λ e. expired e.0 e.1) gone else []

unfoldable pub check_expired_leases : ℕ → HeartbeatManager → HeartbeatManager × List Action
unfolding sweep report_expired
check_expired_leases now m =
    let swept = sweep now m.node_table m.ip_to_node_id in
    (
      record m { node_table = swept.table; ip_to_node_id = swept.index },
      report_expired m swept.gone,
    )

-- A peer's heartbeat renews the lease of a known node, and enters an unknown one.
module _ (p : Platform) where
  unfoldable pub send_heartbeat : ℕ → HeartbeatManager → List Action
  send_heartbeat now m =
      let payload = encode_heartbeat (record {
        ip_address = p.htonl m.local_ip;
        node_id = m.local_node_id;
        timestamp_ms = now;
      }) in
      if not m.send_callback || m.local_ip == 0 then [] else broadcast heartbeat payload true ∷ []

  -- One round of heartbeatLoop after its sleep.
  unfoldable pub heartbeat_round : ℕ → HeartbeatManager → HeartbeatManager × List Action
  unfolding send_heartbeat check_expired_leases
  heartbeat_round now m =
      let due = leb_ℤ (pos heartbeat_interval_ms) (pos now -ℤ pos m.last_heartbeat_sent) in
      let sends = due && not (m.local_ip == 0) in
      let m' = if sends then record m { last_heartbeat_sent = now } else m in
      let (m'', out) = check_expired_leases now m' in
      if not m.running then (m, []) else (m'', (if sends then send_heartbeat now m else []) ++ out)

  unfoldable pub handle_heartbeat :
      ℕ → HeartbeatManager → HeartbeatPayload → ℕ → List ℕ → HeartbeatManager
  handle_heartbeat now m hb peer peer_name =
      let heartbeat_ip = p.ntohl hb.ip_address in
      elim (find hb.node_id m.node_table) [
        | some info ↦ record m {
          node_table = assign hb.node_id (record info { last_heartbeat = now }) m.node_table;
        }
        | none ↦ record m {
          node_table =
              assign hb.node_id
                (record {
                  node_id = hb.node_id;
                  steam_id = peer;
                  ip_address = heartbeat_ip;
                  last_heartbeat = now;
                  name = peer_name;
                  is_local = false;
                })
                m.node_table;
          ip_to_node_id = assign heartbeat_ip hb.node_id m.ip_to_node_id;
        }
      ]

unfoldable pub register_node : ℕ → HeartbeatManager → NodeId → ℕ → ℕ → List ℕ → HeartbeatManager
register_node now m id steam_id ip name = record m {
  node_table =
      assign id
        (record {
          node_id = id;
          steam_id = steam_id;
          ip_address = ip;
          last_heartbeat = now;
          name = name;
          is_local = list_same id m.local_node_id;
        })
        m.node_table;
  ip_to_node_id = assign ip id m.ip_to_node_id;
}

unfoldable pub unregister_node : HeartbeatManager → NodeId → HeartbeatManager
unregister_node m id = elim (find id m.node_table) [
  | some info ↦ record m {
    node_table = erase id m.node_table;
    ip_to_node_id = erase info.ip_address m.ip_to_node_id;
  }
  | none ↦ m
]

unfoldable pub find_node_by_ip : HeartbeatManager → ℕ → Option NodeId
find_node_by_ip m ip = find ip m.ip_to_node_id

unfoldable pub get_all_nodes : HeartbeatManager → Map NodeId NodeInfo
get_all_nodes m = m.node_table

-- The Steam ID of a node of the table.
abbrev pub steam_id_of : HeartbeatManager → NodeId → Option ℕ
steam_id_of m id = elim (find id m.node_table) [ some info ↦ some info.steam_id | none ↦ none ]

-- The body of detectConflict for an address whose owner is known; the result is the Steam ID that
-- the call hands out, if it returns true.
unfoldable pub resolve : HeartbeatManager → ℕ → NodeId → NodeId → HeartbeatManager × Option ℕ
resolve m source_ip owner sender =
    if list_same owner sender
    then (m, none)
    else if has_priority owner sender
    then (m, steam_id_of m sender)
    else elim (steam_id_of m owner) [
      | some steam ↦
          (record m { ip_to_node_id = assign source_ip sender m.ip_to_node_id }, some steam)
      | none ↦ (m, none)
    ]

unfoldable pub detect_conflict : HeartbeatManager → ℕ → NodeId → HeartbeatManager × Option ℕ
unfolding resolve
detect_conflict m source_ip sender = elim (find source_ip m.ip_to_node_id) [
  | some owner ↦ resolve m source_ip owner sender
  | none ↦ (m, none)
]
