-- ===== src/Bridge/Preserve.antt =====
-- The calls that leave the routing table alone or well-formed, one by one.
use connecttool_qt.Base.{
  ℕ, ◌≡◌, refl, List, [], ◌∷◌, Option, none, some, arith, if◌then◌else◌, if_cases,
}
use connecttool_qt.Base.Map.{Map, find}
use connecttool_qt.Platform.{Platform}
use connecttool_qt.NodeIdentity.Defs.{NodeId}
use connecttool_qt.Bridge.Packets.{extract_dest_ip}
use connecttool_qt.Base.Key.{nat_key}
use connecttool_qt.IpNegotiator.State.{IpNegotiator, is_stable}
use connecttool_qt.IpNegotiator.State as N
use connecttool_qt.Heartbeat.State.{HeartbeatManager}
use connecttool_qt.Heartbeat.State as H
use connecttool_qt.Bridge.State.{Bridge, RouteEntry, Host, Output, set_ip}
use connecttool_qt.Bridge.Routes.{update_route, on_node_expired}
use connecttool_qt.Bridge.Calls.{
  Method, then_do, stop, go_live, on_negotiation_success, on_negotiator_call, on_heartbeat_call,
  negotiator_calls, heartbeat_calls, with_negotiator, with_heartbeats, on_timeout,
  on_heartbeat_round,
}
use connecttool_qt.Bridge.Forward.{
  forward_packet, send_routed, loop_back, count_received, count_sent,
}
use connecttool_qt.Bridge.Receive.{receive_packet, check_packet, deliver_packet}
use connecttool_qt.Bridge.Table.{IsTable, put_route-IsTable, erase-IsTable}

-- The state that a call leaves has a well-formed table.
abbrev pub Routed : Bridge × List Output → Type 0
Routed r = IsTable r.0.routing_table

abbrev pub Keeps : Method → Type 0
Keeps f = (b : Bridge) → IsTable b.routing_table → Routed (f b)

pub empty-IsTable : IsTable []
unfolding find
empty-IsTable = record {
  sorted = tt;
  keyed = λ ip e h. ground arith;
  single = λ ip ip' e e' h h' same. ground arith;
}

pub then_do-Routed :
    (r : Bridge × List Output) (f : Method) → Routed r → Keeps f → Routed (then_do r f)
unfolding then_do
then_do-Routed r f h k = k r.0 h

pub update_route-IsTable :
    (me : ℕ) (node_id : NodeId) (steam_id ip : ℕ) (name : List ℕ) (b : Bridge)
    → IsTable b.routing_table
    → IsTable (update_route me node_id steam_id ip name b).routing_table
unfolding update_route
update_route-IsTable me node_id steam_id ip name b v = put_route-IsTable _ b.routing_table v

pub on_node_expired-IsTable :
    (node_id : NodeId) (ip : ℕ) (b : Bridge)
    → IsTable b.routing_table
    → IsTable (on_node_expired node_id ip b).routing_table
unfolding on_node_expired
on_node_expired-IsTable node_id ip b v = erase-IsTable ip b.routing_table v

-- A call that leaves the table alone.
pub same-Routed :
    (r : Bridge × List Output) (table : Map ℕ RouteEntry)
    → r.0.routing_table ≡ table
    → IsTable table
    → Routed r
same-Routed r table e v = rw e v

pub stop_table :
    (now : ℕ) (b : Bridge)
    → (stop now b).0.routing_table ≡ (if b.running then [] else b.routing_table)
unfolding stop
stop_table now b = ground arith

pub stop-Keeps : (now : ℕ) → Keeps (stop now)
stop-Keeps now b v =
    same-Routed (stop now b) _ (stop_table now b)
      (if_cases IsTable b.running {y = b.routing_table} (λ _. empty-IsTable) (λ _. v))

module _ (p : Platform) (host : Host) (now : ℕ) where
  pub go_live-Keeps : (ip : ℕ) (node_id : NodeId) → Keeps (go_live p host now ip node_id)
  unfolding go_live
  go_live-Keeps ip node_id b v =
      update_route-IsTable host.my_steam_id node_id host.my_steam_id ip host.my_name b v

  pub on_negotiation_success-Keeps :
      (ip : ℕ) (node_id : NodeId) → Keeps (on_negotiation_success p host now ip node_id)
  unfolding on_negotiation_success
  on_negotiation_success-Keeps ip node_id b v =
      then_do-Routed (record b { local_ip = ip }, set_ip ip b.subnet_mask ∷ [])
        (if host.configures then go_live p host now ip node_id else stop now) v
        (if_cases Keeps host.configures (λ _. go_live-Keeps ip node_id) (λ _. stop-Keeps now))

  pub on_negotiator_call-Keeps : (a : N.Action) → Keeps (on_negotiator_call p host now a)
  unfolding on_negotiator_call
  on_negotiator_call-Keeps (N.send type payload target reliable) b v = v
  on_negotiator_call-Keeps (N.broadcast type payload reliable) b v = v
  on_negotiator_call-Keeps (N.success ip node_id) b v = on_negotiation_success-Keeps ip node_id b v

  pub on_heartbeat_call-Keeps : (a : H.Action) → Keeps (on_heartbeat_call p host now a)
  unfolding on_heartbeat_call
  on_heartbeat_call-Keeps (H.broadcast type payload reliable) b v = v
  on_heartbeat_call-Keeps (H.expired node_id ip) b v = on_node_expired-IsTable node_id ip b v

  pub negotiator_calls-Keeps : (as_ : List N.Action) → Keeps (negotiator_calls p host now as_)
  unfolding negotiator_calls
  negotiator_calls-Keeps [] b v = v
  negotiator_calls-Keeps (a ∷ as_) b v =
      then_do-Routed (on_negotiator_call p host now a b) (negotiator_calls p host now as_)
        (on_negotiator_call-Keeps a b v) (negotiator_calls-Keeps as_)

  pub heartbeat_calls-Keeps : (as_ : List H.Action) → Keeps (heartbeat_calls p host now as_)
  unfolding heartbeat_calls
  heartbeat_calls-Keeps [] b v = v
  heartbeat_calls-Keeps (a ∷ as_) b v =
      then_do-Routed (on_heartbeat_call p host now a b) (heartbeat_calls p host now as_)
        (on_heartbeat_call-Keeps a b v) (heartbeat_calls-Keeps as_)

  pub with_negotiator-Keeps :
      (r : IpNegotiator × List N.Action) → Keeps (with_negotiator p host now r)
  unfolding with_negotiator
  with_negotiator-Keeps (n, calls) b v =
      negotiator_calls-Keeps calls (record b { negotiator = n }) v

  pub with_heartbeats-Keeps :
      (r : HeartbeatManager × List H.Action) → Keeps (with_heartbeats p host now r)
  unfolding with_heartbeats
  with_heartbeats-Keeps (h, calls) b v = heartbeat_calls-Keeps calls (record b { heartbeats = h }) v

  pub on_timeout-Keeps : Keeps (on_timeout p host now)
  unfolding on_timeout
  on_timeout-Keeps b v = with_negotiator-Keeps _ b v

  pub on_heartbeat_round-Keeps : Keeps (on_heartbeat_round p host now)
  unfolding on_heartbeat_round
  on_heartbeat_round-Keeps b v = with_heartbeats-Keeps _ b v

  pub send_routed_table :
      (packet : List ℕ) (o : Option RouteEntry) (b : Bridge)
      → (send_routed p host packet o b).0.routing_table ≡ b.routing_table
  unfolding send_routed loop_back count_received count_sent
  send_routed_table packet none b = refl
  send_routed_table packet (some e) b = ground arith

  pub forward_packet_table :
      (packet : List ℕ) (b : Bridge)
      → (forward_packet p host packet b).0.routing_table ≡ b.routing_table
  unfolding forward_packet loop_back count_received count_sent
  forward_packet_table [] b = refl
  forward_packet_table (byte ∷ bytes) b = ground (
    arith,
    send_routed_table (byte ∷ bytes) (find (extract_dest_ip p (byte ∷ bytes)) b.routing_table) b,
  )

  pub deliver_packet_table :
      (payload : List ℕ) (sender : ℕ) (b : Bridge)
      → (deliver_packet p host now payload sender b).0.routing_table ≡ b.routing_table
  unfolding deliver_packet count_received
  deliver_packet_table payload sender b = ground arith

  pub receive_packet_table :
      (payload : List ℕ) (sender : ℕ) (b : Bridge)
      → (receive_packet p host now payload sender b).0.routing_table ≡ b.routing_table
  unfolding receive_packet then_do check_packet
  receive_packet_table payload sender b =
      ground
        (arith, deliver_packet_table payload sender (check_packet p host now payload sender b).0)
