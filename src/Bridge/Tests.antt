-- ===== src/Bridge/Tests.antt =====
-- A bridge on concrete values.
use connecttool_qt.Base.{
  ℕ, ◌/◌, ◌%◌, ◌≡◌, ◌≢◌, refl, List, [], ◌∷◌, ◌++◌, map, true, some, All, length, replicate, ◌==◌,
  arith,
}
use connecttool_qt.Base.Map.{Map, find}
use connecttool_qt.Base.Key.{nat_key}
use connecttool_qt.Samples.{platform, platform-IsPlatform}
use connecttool_qt.Wire.{load, field_at}
use connecttool_qt.NodeIdentity.Defs.{NodeId}
use connecttool_qt.IpNegotiator.State as NegotiatorState
use connecttool_qt.Heartbeat.State as HeartbeatState
use connecttool_qt.Bridge.State.{Bridge, RouteEntry, Host, Output, to_device, new}
use connecttool_qt.Bridge.Packets.{extract_dest_ip}
use connecttool_qt.Bridge.Routes.{encode_routes, decode_routes}
use connecttool_qt.Bridge.Forward.{forward_packet, wrap_packet}
use connecttool_qt.Bridge.Receive.{handle_vpn_message, receive_packet}
use connecttool_qt.Bridge.Lifecycle.{opened, on_user_left}
use connecttool_qt.Bridge.Events.{starts, times_out, leaves, run}
use connecttool_qt.Bridge.Table.{IsTable, kept}
use connecttool_qt.Bridge.Invariant.{run-Routed}
use connecttool_qt.Bridge.RouteUpdate.{FitsFields, decode_routes-encode_routes}
use connecttool_qt.Bridge.Delivery.{NotTo, receive_packet-NotTo, handle_vpn_message-wrap_packet}
use connecttool_qt.Bridge.Outgoing.{Explained, forward_packet-Explained}
use connecttool_qt.Bridge.Peers.{on_user_left_lem}

abbrev id_of : ℕ → NodeId
id_of n = n ∷ replicate 31 0

abbrev host : Host
host = record {
  my_steam_id = 7;
  persona_name = λ user. [];
  my_name = [];
  peer_count = 2;
  configures = true;
  inet_pton = λ text. some 10;
}

abbrev route : ℕ → ℕ → RouteEntry
route user ip = record {
  steam_id = user;
  ip_address = ip;
  name = [];
  is_local = user == 7;
  node_id = id_of user;
}

abbrev table : Map ℕ RouteEntry
table = (167772163, route 33 167772163) ∷ (167772164, route 44 167772164) ∷ []

-- A bridge with an address, a node ID and routes.
abbrev bridge : ℕ → NodeId → Map ℕ RouteEntry → Bridge
bridge ip node_id routes = record {
  running = true;
  has_device = true;
  routing_table = routes;
  base_ip = 167772160;
  subnet_mask = 4278190080;
  local_ip = ip;
  stats = record {
    packets_sent = 0;
    packets_received = 0;
    bytes_sent = 0;
    bytes_received = 0;
    packets_dropped = 0;
  };
  negotiator = record (NegotiatorState.new) { local_node_id = node_id };
  heartbeats = HeartbeatState.new;
}

-- An IPv4 header from 10.0.0.3 to 10.0.0.4.
abbrev packet : List ℕ
packet = 69 ∷ replicate 11 0 ++ (10 ∷ 0 ∷ 0 ∷ 3 ∷ 10 ∷ 0 ∷ 0 ∷ 4 ∷ [])

run-Routed_example :
    IsTable
      (run platform host
        (starts 0 opened [] [] ∷ times_out 600 ∷ leaves 33 ∷ [])
        new).0.routing_table
run-Routed_example =
    run-Routed platform host (starts 0 opened [] [] ∷ times_out 600 ∷ leaves 33 ∷ [])

table-IsTable : IsTable table
unfolding find
table-IsTable = record {
  sorted = ((refl, tt), (tt, tt));
  keyed = λ ip e h. ground arith;
  single = λ ip ip' e e' h h' same. ground arith;
}

on_user_left_lem_example :
    find 167772163 (on_user_left host 33 (bridge 167772161 (id_of 7) table)).0.routing_table
    ≡ kept (λ e. e.1.steam_id == 33) 167772163 (find 167772163 table)
on_user_left_lem_example =
    on_user_left_lem host 33 (bridge 167772161 (id_of 7) table) 167772163 table-IsTable

fits : All FitsFields table
fits = ((omega arith, omega arith), ((omega arith, omega arith), tt))

decode_routes-encode_routes_example :
    decode_routes platform (length (encode_routes platform table)) (encode_routes platform table)
    ≡ map (λ (e : ℕ × RouteEntry). (e.1.steam_id, e.1.ip_address)) table
decode_routes-encode_routes_example =
    decode_routes-encode_routes platform platform-IsPlatform table fits

receive_packet-NotTo_example :
    All
      (NotTo 33)
      (receive_packet platform host 9
        (id_of 33 ++ 3 ∷ 0 ∷ 0 ∷ 10 ∷ packet)
        33
        (bridge 167772161 (id_of 7) table)).1
receive_packet-NotTo_example =
    receive_packet-NotTo platform host 9 (id_of 33 ++ 3 ∷ 0 ∷ 0 ∷ 10 ∷ packet) 33
      (bridge 167772161 (id_of 7) table)

is_mine : 167772164 ≡ extract_dest_ip platform packet
unfolding extract_dest_ip load
is_mine = refl

handle_vpn_message-wrap_packet_example :
    (out : List Output) × (All (NotTo 33) out)
    × ((handle_vpn_message platform host 9
          (wrap_packet platform host packet (bridge 167772163 (id_of 33) table))
          33
          (bridge 167772164 (id_of 44) table)).1
        ≡ out ++ to_device packet ∷ [])
handle_vpn_message-wrap_packet_example =
    handle_vpn_message-wrap_packet platform host 9 platform-IsPlatform packet
      (bridge 167772163 (id_of 33) table) (bridge 167772164 (id_of 44) table) 33 (omega arith)
      (omega arith) refl refl is_mine

forward_packet-Explained_example :
    All
      (Explained platform host packet (bridge 167772163 (id_of 33) table))
      (forward_packet platform host packet (bridge 167772163 (id_of 33) table)).1
forward_packet-Explained_example =
    forward_packet-Explained platform host packet (bridge 167772163 (id_of 33) table)

-- The first byte of an IPv6 header is 0x60.
six : (load (field_at 0 1 (96 ∷ replicate 39 0)) / 16) % 16 ≢ 4
unfolding load
six h = ground arith

-- A peer announces 10.0.0.4, which is ours.
abbrev claimed : List ℕ
claimed = 10 ∷ 0 ∷ 0 ∷ 4 ∷ id_of 33
