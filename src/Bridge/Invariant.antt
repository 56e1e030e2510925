-- ===== src/Bridge/Invariant.antt =====
-- The routing table is well-formed in every history of a bridge.
use connecttool_qt.Base.{
  ℕ, List, [], ◌∷◌, Bool, true, false, Option, none, some, leb, length, if◌then◌else◌, ◌==◌,
  if_cases, Option-cases, inl, inr,
}
use connecttool_qt.Platform.{Platform}
use connecttool_qt.NodeIdentity.Defs.{generate}
use connecttool_qt.Protocol.Messages.{
  VpnMessageType, ip_packet, route_update, probe_request, probe_response, address_announce,
  forced_release, heartbeat, heartbeat_ack, session_hello, type_of_code, size_address, size_timed,
  decode_address_announce, decode_probe_request, decode_forced_release,
}
use connecttool_qt.IpNegotiator.Handlers.{
  handle_address_announce, handle_probe_request, handle_forced_release, send_address_announce,
  send_address_announce_to,
}
use connecttool_qt.Base.Key.{nat_key}
use connecttool_qt.Protocol.Frame.{unframe}
use connecttool_qt.IpNegotiator.State.{is_stable}
use connecttool_qt.Bridge.State.{Bridge, Host, Output, new}
use connecttool_qt.Bridge.Routes.{has_route, learn_route, learn_routes, accepts_route}
use connecttool_qt.Bridge.Calls.{Method, then_do, with_negotiator}
use connecttool_qt.Bridge.Forward.{forward_packet}
use connecttool_qt.Bridge.Receive.{
  receive_packet, receive_announce, enter_announced, dispatch, dispatch_code, handle_frame,
  handle_vpn_message,
}
use connecttool_qt.Bridge.Lifecycle.{
  start, begin, on_user_joined, on_user_left, rebroadcast_state, open_device, drop_user, Device,
  missing, unopened, opened,
}
use connecttool_qt.Bridge.Table.{IsTable, erase_if-IsTable}
use connecttool_qt.Bridge.Events.{
  Event, starts, stops, times_out, beats, reads, receives, joins, leaves, rebroadcasts, step, run,
}
use connecttool_qt.Bridge.Preserve.{
  Routed, Keeps, empty-IsTable, then_do-Routed, update_route-IsTable, same-Routed, stop-Keeps,
  negotiator_calls-Keeps, with_negotiator-Keeps, on_timeout-Keeps, on_heartbeat_round-Keeps,
  forward_packet_table, receive_packet_table,
}

module _ (p : Platform) (host : Host) (now : ℕ) where
  learn_route-IsTable :
      (r : ℕ × ℕ) (b : Bridge)
      → IsTable b.routing_table
      → IsTable (learn_route p host r b).routing_table
  unfolding learn_route
  learn_route-IsTable (steam_id, ip) b v =
      if_cases (λ (c : Bridge). IsTable c.routing_table) (accepts_route p host b (steam_id, ip))
        {y = b}
        (λ _.
          update_route-IsTable host.my_steam_id (generate p steam_id) steam_id ip
            (host.persona_name steam_id) b v)
        (λ _. v)

  learn_routes-IsTable :
      (routes : List (ℕ × ℕ)) (b : Bridge)
      → IsTable b.routing_table
      → IsTable (learn_routes p host routes b).routing_table
  unfolding learn_routes
  learn_routes-IsTable [] b v = v
  learn_routes-IsTable (r ∷ routes) b v =
      learn_routes-IsTable routes (learn_route p host r b) (learn_route-IsTable r b v)

  enter_announced-Keeps :
      (known : Bool) (payload : List ℕ) (sender : ℕ)
      → Keeps (enter_announced p host now known payload sender)
  unfolding enter_announced
  enter_announced-Keeps known payload sender b v =
      let a = decode_address_announce payload in
      update_route-IsTable host.my_steam_id a.node_id sender (p.ntohl a.ip_address)
        (host.persona_name sender) b v

  receive_announce-Keeps :
      (payload : List ℕ) (sender : ℕ) → Keeps (receive_announce p host now payload sender)
  unfolding receive_announce
  receive_announce-Keeps payload sender b v =
      let a = decode_address_announce payload in
      then_do-Routed
        (with_negotiator p host now (handle_address_announce p now b.negotiator a sender) b)
        (enter_announced p host now (has_route (p.ntohl a.ip_address) b.routing_table) payload
          sender)
        (with_negotiator-Keeps p host now (handle_address_announce p now b.negotiator a sender) b v)
        (enter_announced-Keeps (has_route (p.ntohl a.ip_address) b.routing_table) payload sender)

  -- A method behind a test of the length.
  guarded-Keeps : (c : Bool) (f : Method) → Keeps f → Keeps (λ b. if c then f b else (b, []))
  guarded-Keeps c f k b v = if_cases Routed c {x = f b} {y = (b, [])} (λ _. k b v) (λ _. v)

  dispatch-Keeps :
      (type : VpnMessageType) (payload : List ℕ) (sender : ℕ)
      → Keeps (dispatch p host now type payload sender)
  unfolding dispatch
  dispatch-Keeps ip_packet payload sender b v =
      same-Routed (receive_packet p host now payload sender b) _
        (receive_packet_table p host now payload sender b) v
  dispatch-Keeps route_update payload sender b v = learn_routes-IsTable _ b v
  dispatch-Keeps probe_request payload sender b v =
      guarded-Keeps (leb size_address (length payload))
        (λ b'.
          with_negotiator p host now
            (handle_probe_request p now b'.negotiator (decode_probe_request payload) sender) b')
        (λ b' v'. with_negotiator-Keeps p host now _ b' v') b v
  dispatch-Keeps probe_response payload sender b v =
      if_cases Routed (leb size_timed (length payload)) {y = (b, [])} (λ _. v) (λ _. v)
  dispatch-Keeps address_announce payload sender b v =
      guarded-Keeps (leb size_address (length payload)) (receive_announce p host now payload sender)
        (receive_announce-Keeps payload sender) b v
  dispatch-Keeps forced_release payload sender b v =
      guarded-Keeps (leb size_address (length payload))
        (λ b'.
          with_negotiator p host now
            (handle_forced_release p now b'.negotiator (decode_forced_release payload)) b')
        (λ b' v'. with_negotiator-Keeps p host now _ b' v') b v
  dispatch-Keeps heartbeat payload sender b v =
      if_cases Routed (leb size_timed (length payload)) {y = (b, [])} (λ _. v) (λ _. v)
  dispatch-Keeps heartbeat_ack payload sender b v = v
  dispatch-Keeps session_hello payload sender b v = v

  handle_frame-Keeps :
      (o : Option (ℕ × List ℕ)) (sender : ℕ) → Keeps (handle_frame p host now o sender)
  unfolding handle_frame dispatch_code
  handle_frame-Keeps none sender b v = v
  handle_frame-Keeps (some (code, payload)) sender b v = elim (Option-cases (type_of_code code)) [
    | inl h ↦ rw h v
    | inr h ↦ rw h.1 (dispatch-Keeps h.0 payload sender b v)
  ]

  pub handle_vpn_message-Keeps :
      (bytes : List ℕ) (sender : ℕ) → Keeps (handle_vpn_message p host now bytes sender)
  unfolding handle_vpn_message
  handle_vpn_message-Keeps bytes sender b v = handle_frame-Keeps (unframe p bytes) sender b v

  pub on_user_joined-Keeps : (steam_id : ℕ) → Keeps (on_user_joined p host now steam_id)
  unfolding on_user_joined then_do
  on_user_joined-Keeps steam_id = λ b v.
      if_cases Routed (is_stable b.negotiator.state) {y = (b, [])}
        (λ _.
          negotiator_calls-Keeps p host now (send_address_announce_to p b.negotiator steam_id) b v)
        (λ _. v)

  rebroadcast_state-Keeps : Keeps (rebroadcast_state p host now)
  unfolding rebroadcast_state then_do
  rebroadcast_state-Keeps b v =
      if_cases Routed (is_stable b.negotiator.state) {y = (b, [])}
        (λ _. negotiator_calls-Keeps p host now (send_address_announce p b.negotiator) b v) (λ _. v)

  pub on_user_left-Keeps : (steam_id : ℕ) → Keeps (on_user_left host steam_id)
  unfolding on_user_left drop_user
  on_user_left-Keeps steam_id b v =
      if_cases Routed (steam_id == host.my_steam_id) {y = (drop_user steam_id b, [])}
        (λ _. erase_if-IsTable (λ e. e.1.steam_id == steam_id) b.routing_table v)
        (λ _. erase_if-IsTable (λ e. e.1.steam_id == steam_id) b.routing_table v)

  begin-Keeps : Keeps (begin p host now)
  unfolding begin
  begin-Keeps b v = with_negotiator-Keeps p host now _ _ v

  -- The same for a call with a result.
  abbrev Started : Bool × Bridge × List Output → Type 0
  Started r = IsTable r.1.routing_table

  open_device-Started :
      (device : Device) (base mask : ℕ) (b : Bridge)
      → IsTable b.routing_table
      → Started (open_device p host now device base mask b)
  unfolding open_device
  open_device-Started missing base mask b v = v
  open_device-Started unopened base mask b v = v
  open_device-Started opened base mask b v =
      let based = record b { has_device = true; base_ip = base } in
      let begun = begin p host now (record based { subnet_mask = mask }) in
      if_cases Started (base == 0) {x = (false, based, [])} {y = (true, begun.0, begun.1)} (λ _. v)
        (λ _. begin-Keeps (record based { subnet_mask = mask }) v)

  start-Started :
      (device : Device) (subnet mask : List ℕ) (b : Bridge)
      → IsTable b.routing_table
      → Started (start p host now device subnet mask b)
  unfolding start
  start-Started device subnet mask b v =
      if_cases Started b.running {x = (false, b, [])} (λ _. v)
        (λ _. open_device-Started device _ _ _ v)

module _ (p : Platform) (host : Host) where
  pub step-Routed : (e : Event) → Keeps (step p host e)
  unfolding step
  step-Routed (starts now device subnet mask) b v = start-Started p host now device subnet mask b v
  step-Routed (stops now) b v = stop-Keeps now b v
  step-Routed (times_out now) b v = on_timeout-Keeps p host now b v
  step-Routed (beats now) b v = on_heartbeat_round-Keeps p host now b v
  step-Routed (reads packet) b v =
      same-Routed (forward_packet p host packet b) _ (forward_packet_table p host 0 packet b) v
  step-Routed (receives now bytes sender) b v = handle_vpn_message-Keeps p host now bytes sender b v
  step-Routed (joins now steam_id) b v = on_user_joined-Keeps p host now steam_id b v
  step-Routed (leaves steam_id) b v = on_user_left-Keeps p host 0 steam_id b v
  step-Routed (rebroadcasts now) b v = rebroadcast_state-Keeps p host now b v

  run-Routed_from : (es : List Event) → Keeps (run p host es)
  unfolding run
  run-Routed_from [] b v = v
  run-Routed_from (e ∷ es) b v =
      then_do-Routed (step p host e b) (run p host es) (step-Routed e b v) (run-Routed_from es)

  -- After every sequence of events of a new bridge, each route lies under its own address, the
  -- addresses ascend, and no Steam ID has two routes.
  pub run-Routed : (es : List Event) → IsTable (run p host es new).0.routing_table
  run-Routed es = run-Routed_from es new (unfold new in empty-IsTable)
