-- ===== src/Bridge/Receive.antt =====
-- handleVpnMessage: a message from a peer.
use connecttool_qt.Base.{
  ℕ, List, [], ◌∷◌, Bool, true, false, ◌&&◌, ◌||◌, Option, none, some, if◌then◌else◌, ltb, leb,
  ◌==◌, length, drop,
}
use connecttool_qt.Base.Map.{find}
use connecttool_qt.Base.Key.{nat_key}
use connecttool_qt.Platform.{Platform}
use connecttool_qt.Protocol.Messages.{
  VpnMessageType, ip_packet, route_update, probe_request, probe_response, address_announce,
  forced_release, heartbeat, heartbeat_ack, session_hello, type_of_code, size_wrapper, size_address,
  size_timed, decode_wrapper, decode_probe_request, decode_probe_response, decode_address_announce,
  decode_forced_release, decode_heartbeat,
}
use connecttool_qt.Protocol.Frame.{unframe}
use connecttool_qt.IpNegotiator.Handlers as Negotiator
use connecttool_qt.Heartbeat.Methods as Heartbeats
use connecttool_qt.Bridge.State.{RouteEntry, Host, Output, to_device}
use connecttool_qt.Bridge.Packets.{extract_dest_ip, is_broadcast_address}
use connecttool_qt.Bridge.Routes.{has_route, update_route, learn_routes, decode_routes}
use connecttool_qt.Bridge.Calls.{
  Method, then_do, send_vpn_message, broadcast_route_update, with_negotiator,
}
use connecttool_qt.Bridge.Forward.{count_received}

module _ (p : Platform) (host : Host) (now : ℕ) where
  -- The message to the node that is to let go of an address: the payload of the packet.
  unfoldable pub demand_release : List ℕ → ℕ → Option ℕ → List Output
  demand_release payload sender none = []
  demand_release payload sender (some node) =
      if node == sender then [] else send_vpn_message p forced_release payload node true ∷ []

  -- The test of the sender's address.
  unfoldable pub check_packet : List ℕ → ℕ → Method
  check_packet payload sender b =
      let wrapper = decode_wrapper payload in
      let dest = extract_dest_ip p (drop size_wrapper payload) in
      let sender_ip = p.ntohl wrapper.source_ip in
      let ip = if sender_ip == 0 then dest else sender_ip in
      let (beats, conflicting) =
        Heartbeats.detect_conflict b.heartbeats ip wrapper.sender_node_id in
      (record b { heartbeats = beats }, demand_release payload sender conflicting)

  -- A packet for another peer is passed on, but never back to where it came from.
  unfoldable pub relay : List ℕ → ℕ → Option RouteEntry → List Output
  relay payload sender none = []
  relay payload sender (some e) =
      if e.is_local || e.steam_id == sender
      then []
      else send_vpn_message p ip_packet payload e.steam_id false ∷ []

  unfoldable pub deliver_packet : List ℕ → ℕ → Method
  unfolding relay
  deliver_packet payload sender b =
      let packet = drop size_wrapper payload in
      let dest = extract_dest_ip p packet in
      if dest == b.local_ip || is_broadcast_address b dest
      then (count_received (length packet) b, to_device packet ∷ [])
      else (b, relay payload sender (find dest b.routing_table))

  unfoldable pub receive_packet : List ℕ → ℕ → Method
  unfolding then_do
  receive_packet payload sender b =
      if b.has_device && ltb size_wrapper (length payload)
      then then_do (check_packet payload sender b) (deliver_packet payload sender)
      else (b, [])

  -- The route of an announcement, and the broadcast if the address was not known before.
  unfoldable pub enter_announced : Bool → List ℕ → ℕ → Method
  enter_announced known payload sender b =
      let announce = decode_address_announce payload in
      let name = host.persona_name sender in
      let announced = p.ntohl announce.ip_address in
      let b' = update_route host.my_steam_id announce.node_id sender announced name b in
      (b', if known then [] else broadcast_route_update p b')

  -- The case ADDRESS_ANNOUNCE.
  unfoldable pub receive_announce : List ℕ → ℕ → Method
  unfolding then_do
  receive_announce payload sender b =
      let announce = decode_address_announce payload in
      let known = has_route (p.ntohl announce.ip_address) b.routing_table in
      let handled = Negotiator.handle_address_announce p now b.negotiator announce sender in
      then_do (with_negotiator p host now handled b) (enter_announced known payload sender)

  unfoldable pub dispatch : VpnMessageType → List ℕ → ℕ → Method
  dispatch ip_packet payload sender b = receive_packet payload sender b
  dispatch route_update payload sender b =
      (learn_routes p host (decode_routes p (length payload) payload) b, [])
  dispatch probe_request payload sender b =
      if leb size_address (length payload)
      then with_negotiator p host now
          (Negotiator.handle_probe_request p now b.negotiator (decode_probe_request payload) sender)
          b
      else (b, [])
  dispatch probe_response payload sender b =
      if leb size_timed (length payload)
      then (
        record b {
          negotiator =
              Negotiator.handle_probe_response p b.negotiator (decode_probe_response payload)
                sender;
        },
        [],
      )
      else (b, [])
  dispatch address_announce payload sender b =
      if leb size_address (length payload) then receive_announce payload sender b else (b, [])
  dispatch forced_release payload sender b =
      if leb size_address (length payload)
      then with_negotiator p host now
          (Negotiator.handle_forced_release p now b.negotiator (decode_forced_release payload)) b
      else (b, [])
  dispatch heartbeat payload sender b =
      if leb size_timed (length payload)
      then (
        record b {
          heartbeats =
              Heartbeats.handle_heartbeat p now b.heartbeats (decode_heartbeat payload) sender
                (host.persona_name sender);
        },
        [],
      )
      else (b, [])
  dispatch heartbeat_ack payload sender b = (b, [])
  dispatch session_hello payload sender b = (b, [])

  unfoldable pub dispatch_code : Option VpnMessageType → List ℕ → ℕ → Method
  dispatch_code none payload sender b = (b, [])
  dispatch_code (some type) payload sender b = dispatch type payload sender b

  -- What follows the checks of the frame.
  unfoldable pub handle_frame : Option (ℕ × List ℕ) → ℕ → Method
  handle_frame none sender b = (b, [])
  handle_frame (some (code, payload)) sender b = dispatch_code (type_of_code code) payload sender b

  unfoldable pub handle_vpn_message : List ℕ → ℕ → Method
  unfolding handle_frame
  handle_vpn_message bytes sender b = handle_frame (unframe p bytes) sender b
