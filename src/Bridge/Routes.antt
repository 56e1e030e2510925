-- ===== src/Bridge/Routes.antt =====
-- The routing table: updateRoute, removeRoute, onNodeExpired, and the entries of a ROUTE_UPDATE.
use connecttool_qt.Base.{
  ℕ, zero, suc, List, [], ◌∷◌, ◌++◌, Bool, true, false, not, ◌&&◌, none, some, if◌then◌else◌, ltb,
  ◌==◌, length, drop, bit_and,
}
use connecttool_qt.Base.Map.{Map, find, assign, erase, erase_if}
use connecttool_qt.Base.Key.{nat_key}
use connecttool_qt.Platform.{Platform}
use connecttool_qt.NodeIdentity.Defs.{NodeId, generate}
use connecttool_qt.Wire.{store, load, field_at}
use connecttool_qt.IpNegotiator.Handlers.{mark_ip_used, mark_ip_unused}
use connecttool_qt.Bridge.State.{Bridge, RouteEntry, Host}

-- `routingTable_.find(ip) != routingTable_.end()`
unfoldable pub has_route : ℕ → Map ℕ RouteEntry → Bool
has_route ip table = elim (find ip table) [ some e ↦ true | none ↦ false ]

-- The routes of a Steam ID at other addresses go, and its route is entered.
unfoldable pub put_route : RouteEntry → Map ℕ RouteEntry → Map ℕ RouteEntry
put_route entry table =
    assign entry.ip_address entry
      (erase_if (λ e. (e.1.steam_id == entry.steam_id) && not (e.0 == entry.ip_address)) table)

unfoldable pub update_route : ℕ → NodeId → ℕ → ℕ → List ℕ → Bridge → Bridge
unfolding put_route
update_route me node_id steam_id ip name b = record b {
  routing_table =
      put_route
        (record {
          steam_id = steam_id;
          ip_address = ip;
          name = name;
          is_local = steam_id == me;
          node_id = node_id;
        })
        b.routing_table;
  negotiator = mark_ip_used ip b.negotiator;
}

unfoldable pub remove_route : ℕ → Bridge → Bridge
remove_route ip b = record b { routing_table = erase ip b.routing_table }

unfoldable pub on_node_expired : NodeId → ℕ → Bridge → Bridge
unfolding remove_route
on_node_expired node_id ip b =
    let b' = remove_route ip b in record b' { negotiator = mark_ip_unused ip b'.negotiator }

-- Each entry of a ROUTE_UPDATE has 12 bytes: the Steam ID and the address in network order.
unfoldable pub encode_routes : Platform → Map ℕ RouteEntry → List ℕ
encode_routes p [] = []
encode_routes p ((ip, e) ∷ table) =
    store 8 e.steam_id ++ store 4 (p.htonl e.ip_address) ++ encode_routes p table

-- The entries of a payload; bytes behind the last whole entry are ignored. The fuel bounds the
-- entries.
unfoldable pub decode_routes : Platform → ℕ → List ℕ → List (ℕ × ℕ)
decode_routes p zero payload = []
decode_routes p (suc fuel) payload =
    let rest = decode_routes p fuel (drop 12 payload) in
    if ltb (length payload) 12
    then []
    else (load (field_at 0 8 payload), p.ntohl (load (field_at 8 4 payload))) ∷ rest

module _ (p : Platform) (host : Host) where
  -- An entry is taken if it is another user's, its address is free, and it lies in the subnet.
  unfoldable pub accepts_route : Bridge → ℕ × ℕ → Bool
  unfolding has_route
  accepts_route b (steam_id, ip) =
      let known = has_route ip b.routing_table in
      if steam_id == host.my_steam_id
      then false
      else if known
      then false
      else bit_and ip b.subnet_mask == bit_and b.base_ip b.subnet_mask

  unfoldable pub learn_route : ℕ × ℕ → Bridge → Bridge
  unfolding accepts_route update_route
  learn_route (steam_id, ip) b =
      if accepts_route b (steam_id, ip)
      then update_route host.my_steam_id (generate p steam_id) steam_id ip
          (host.persona_name steam_id) b
      else b

  -- The case ROUTE_UPDATE of handleVpnMessage.
  unfoldable pub learn_routes : List (ℕ × ℕ) → Bridge → Bridge
  learn_routes [] b = b
  learn_routes (r ∷ routes) b = learn_routes routes (learn_route r b)
