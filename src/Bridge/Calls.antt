-- ===== src/Bridge/Calls.antt =====
-- What the bridge does when its negotiator or its heartbeat manager calls back, and stop.
use connecttool_qt.Base.{ℕ, List, [], ◌∷◌, ◌++◌, Bool, true, false, not, if◌then◌else◌, bit_and}
use connecttool_qt.Base.Key.{nat_key}
use connecttool_qt.Platform.{Platform}
use connecttool_qt.NodeIdentity.Defs.{NodeId}
use connecttool_qt.Protocol.Messages.{VpnMessageType, route_update}
use connecttool_qt.Protocol.Frame.{frame}
use connecttool_qt.IpNegotiator.State.{IpNegotiator}
use connecttool_qt.IpNegotiator.State as N
use connecttool_qt.IpNegotiator.Handlers as Negotiator
use connecttool_qt.Heartbeat.State.{HeartbeatManager}
use connecttool_qt.Heartbeat.State as H
use connecttool_qt.Heartbeat.Methods as Heartbeats
use connecttool_qt.Bridge.State.{
  Bridge, Host, Output, to_user, to_all, set_ip, add_route, close_device,
}
use connecttool_qt.Bridge.Routes.{update_route, on_node_expired, encode_routes}

-- A member function, as the state after it and the calls it makes in order.
abbrev pub Method : Type 0
Method = Bridge → Bridge × List Output

-- One after the other.
unfoldable pub then_do : Bridge × List Output → Method → Bridge × List Output
then_do (b, out) f = let (b', more) = f b in (b', out ++ more)

unfoldable pub stop : ℕ → Method
stop now b = if not b.running then (b, []) else (
  record b {
    running = false;
    routing_table = [];
    negotiator = Negotiator.reset b.negotiator;
    heartbeats = Heartbeats.reset now (Heartbeats.stop b.heartbeats);
    local_ip = 0;
  },
  (if b.has_device then close_device ∷ [] else []),
)

module _ (p : Platform) where
  -- sendVpnMessage and broadcastVpnMessage
  unfoldable pub send_vpn_message : VpnMessageType → List ℕ → ℕ → Bool → Output
  send_vpn_message type payload target reliable = to_user target (frame p type payload) reliable

  unfoldable pub broadcast_vpn_message : VpnMessageType → List ℕ → Bool → Output
  broadcast_vpn_message type payload reliable = to_all (frame p type payload) reliable

  unfoldable pub broadcast_route_update : Bridge → List Output
  broadcast_route_update b =
      to_all (frame p route_update (encode_routes p b.routing_table)) true ∷ []

  unfoldable pub send_route_update_to : ℕ → Bridge → List Output
  send_route_update_to target b =
      to_user target (frame p route_update (encode_routes p b.routing_table)) true ∷ []

  module _ (host : Host) (now : ℕ) where
    -- The branch of onNegotiationSuccess for a device that took the address.
    unfoldable pub go_live : ℕ → NodeId → Method
    unfolding broadcast_route_update
    go_live ip node_id b =
        let b' = update_route host.my_steam_id node_id host.my_steam_id ip host.my_name b in
        let beats = Heartbeats.initialize now node_id ip b'.heartbeats in
        let known = Heartbeats.register_node now beats node_id host.my_steam_id ip host.my_name in
        let b'' = record b' { heartbeats = Heartbeats.start known } in
        (
          b'',
          add_route (bit_and b.base_ip b.subnet_mask) b.subnet_mask ∷ broadcast_route_update b'',
        )

    unfoldable pub on_negotiation_success : ℕ → NodeId → Method
    unfolding then_do
    on_negotiation_success ip node_id b =
        let b' = record b { local_ip = ip } in
        then_do (b', set_ip ip b.subnet_mask ∷ [])
          (if host.configures then go_live ip node_id else stop now)

    -- The callbacks that start installs.
    unfoldable pub on_negotiator_call : N.Action → Method
    unfolding send_vpn_message broadcast_vpn_message
    on_negotiator_call (N.send type payload target reliable) b =
        (b, send_vpn_message type payload target reliable ∷ [])
    on_negotiator_call (N.broadcast type payload reliable) b =
        (b, broadcast_vpn_message type payload reliable ∷ [])
    on_negotiator_call (N.success ip node_id) b = on_negotiation_success ip node_id b

    unfoldable pub on_heartbeat_call : H.Action → Method
    unfolding broadcast_vpn_message
    on_heartbeat_call (H.broadcast type payload reliable) b =
        (b, broadcast_vpn_message type payload reliable ∷ [])
    on_heartbeat_call (H.expired node_id ip) b = (on_node_expired node_id ip b, [])

    unfoldable pub negotiator_calls : List N.Action → Method
    unfolding then_do
    negotiator_calls [] b = (b, [])
    negotiator_calls (a ∷ as_) b = then_do (on_negotiator_call a b) (negotiator_calls as_)

    unfoldable pub heartbeat_calls : List H.Action → Method
    unfolding then_do
    heartbeat_calls [] b = (b, [])
    heartbeat_calls (a ∷ as_) b = then_do (on_heartbeat_call a b) (heartbeat_calls as_)

    -- A method of the negotiator, with its calls: they are its last acts or change nothing, so
    -- its state is settled when they are made.
    unfoldable pub with_negotiator : IpNegotiator × List N.Action → Method
    with_negotiator (n, calls) b = negotiator_calls calls (record b { negotiator = n })

    unfoldable pub with_heartbeats : HeartbeatManager × List H.Action → Method
    with_heartbeats (h, calls) b = heartbeat_calls calls (record b { heartbeats = h })

    -- `ipNegotiator_.checkTimeout()` in tunReadThread, and a round of the heartbeat thread.
    unfoldable pub on_timeout : Method
    unfolding with_negotiator
    on_timeout b = with_negotiator (Negotiator.check_timeout p now b.negotiator) b

    unfoldable pub on_heartbeat_round : Method
    unfolding with_heartbeats
    on_heartbeat_round b = with_heartbeats (Heartbeats.heartbeat_round p now b.heartbeats) b
