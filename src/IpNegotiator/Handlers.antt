-- ===== src/IpNegotiator/Handlers.antt =====
-- The operations of IpNegotiator. Each returns the new state and the calls of the callbacks;
-- `now` is the reading of the steady clock, in milliseconds since its epoch.
use connecttool_qt.Base.{
  ℕ, List, [], ◌∷◌, ◌++◌, Bool, true, false, not, ◌&&◌, ◌||◌, if◌then◌else◌, ◌==◌,
}
use connecttool_qt.Base.Int.{pos, ◌-ℤ◌, leb_ℤ, ltb_ℤ, signed64}
use connecttool_qt.Base.Word.{add32}
use connecttool_qt.Base.Set.{insert, remove}
use connecttool_qt.Base.Key.{nat_key}
use connecttool_qt.Platform.{Platform}
use connecttool_qt.NodeIdentity.Defs.{NodeId, has_priority, generate}
use connecttool_qt.Protocol.Messages.{
  probe_request, probe_response, address_announce, forced_release, ProbeRequestPayload,
  ProbeResponsePayload, AddressAnnouncePayload, ForcedReleasePayload, encode_probe_request,
  encode_probe_response, encode_address_announce, encode_forced_release, probe_timeout_ms,
  heartbeat_expiry_ms,
}
use connecttool_qt.IpNegotiator.State.{
  IpNegotiator, idle, probing, stable, ConflictInfo, Action, send, broadcast, success, is_probing,
  is_stable,
}
use connecttool_qt.IpNegotiator.Address.{generate_candidate_ip, find_next_available_ip}

unfoldable pub reset : IpNegotiator → IpNegotiator
reset s = record s {
  used_ips = [];
  collected_conflicts = [];
  state = idle;
  candidate_ip = 0;
  probe_offset = 0;
  local_ip = 0;
}

unfoldable pub set_send_callback : Bool → Bool → IpNegotiator → IpNegotiator
set_send_callback send_cb broadcast_cb s = record s {
  send_callback = send_cb;
  broadcast_callback = broadcast_cb;
}

unfoldable pub set_success_callback : Bool → IpNegotiator → IpNegotiator
set_success_callback callback s = record s { success_callback = callback }

unfoldable pub mark_ip_used : ℕ → IpNegotiator → IpNegotiator
mark_ip_used ip s = record s { used_ips = insert ip s.used_ips }

unfoldable pub mark_ip_unused : ℕ → IpNegotiator → IpNegotiator
mark_ip_unused ip s = record s { used_ips = remove ip s.used_ips }

-- `heartbeatAge >= HEARTBEAT_EXPIRY_MS`
unfoldable pub is_stale : ℕ → ConflictInfo → Bool
is_stale now c = leb_ℤ (pos heartbeat_expiry_ms) (pos now -ℤ signed64 c.last_heartbeat_ms)

-- The loop over the conflicts: `canClaim`, and the nodes to be told to release, in order.
unfoldable pub arbitrate : ℕ → NodeId → List ConflictInfo → List ℕ → Bool × List ℕ
unfolding is_stale
arbitrate now local_id [] nodes = (true, nodes)
arbitrate now local_id (c ∷ cs) nodes =
    let skip = arbitrate now local_id cs nodes in
    let push = arbitrate now local_id cs (nodes ++ c.sender_steam_id ∷ []) in
    if is_stale now c
    then skip
    else if has_priority local_id c.node_id
    then push
    else (false, nodes)

module _ (p : Platform) where
  unfoldable pub initialize : ℕ → ℕ → ℕ → IpNegotiator → IpNegotiator
  initialize steam_id base mask s = record s {
    local_steam_id = steam_id;
    base_ip = base;
    subnet_mask = mask;
    local_node_id = generate p steam_id;
  }

  unfoldable pub send_probe_request : IpNegotiator → List Action
  send_probe_request s =
      let payload =
        encode_probe_request
          (record { ip_address = p.htonl s.candidate_ip; node_id = s.local_node_id }) in
      if s.broadcast_callback then broadcast probe_request payload true ∷ [] else []

  unfoldable pub send_forced_release : IpNegotiator → ℕ → ℕ → List Action
  send_forced_release s ip target =
      let payload =
        encode_forced_release
          (record { ip_address = p.htonl ip; winner_node_id = s.local_node_id }) in
      if s.send_callback then send forced_release payload target true ∷ [] else []

  -- The payload of an announcement of our address.
  unfoldable pub announcement : IpNegotiator → List ℕ
  announcement s =
      encode_address_announce
        (record { ip_address = p.htonl s.local_ip; node_id = s.local_node_id })

  unfoldable pub send_address_announce : IpNegotiator → List Action
  unfolding announcement
  send_address_announce s =
      if s.broadcast_callback then broadcast address_announce (announcement s) true ∷ [] else []

  unfoldable pub send_address_announce_to : IpNegotiator → ℕ → List Action
  unfolding announcement is_stable
  send_address_announce_to s target =
      if not s.send_callback || not (is_stable s.state) || s.local_ip == 0
      then []
      else send address_announce (announcement s) target true ∷ []

  -- The state in which startNegotiation leaves the object.
  unfoldable pub started : ℕ → IpNegotiator → IpNegotiator
  started now s = record s {
    collected_conflicts = [];
    candidate_ip =
        find_next_available_ip s.base_ip s.subnet_mask s.used_ips
          (generate_candidate_ip s.local_node_id s.base_ip s.subnet_mask s.probe_offset);
    state = probing;
    probe_start_time = now;
  }

  unfoldable pub start_negotiation : ℕ → IpNegotiator → IpNegotiator × List Action
  start_negotiation now s = (started now s, send_probe_request (started now s))

  -- `probeOffset_++; startNegotiation();`
  unfoldable pub reselect : ℕ → IpNegotiator → IpNegotiator × List Action
  reselect now s = start_negotiation now (record s { probe_offset = add32 s.probe_offset 1 })

  -- `for (auto steamID : nodesToForceRelease) sendForcedRelease(candidateIP_, steamID);`
  unfoldable pub release_all : IpNegotiator → List ℕ → List Action
  unfolding send_forced_release
  release_all s [] = []
  release_all s (n ∷ ns) = send_forced_release s s.candidate_ip n ++ release_all s ns

  -- The branch of checkTimeout that takes the address.
  -- What follows the change of state there: the announcement and the report to the bridge.
  unfoldable pub announce_claim : IpNegotiator → List Action
  unfolding send_address_announce
  announce_claim s =
      send_address_announce s
      ++ (if s.success_callback then success s.local_ip s.local_node_id ∷ [] else [])

  unfoldable pub claim : IpNegotiator → List ℕ → IpNegotiator × List Action
  claim s nodes =
      let s' = record s { state = stable; local_ip = s.candidate_ip } in
      (s', release_all s nodes ++ announce_claim s')

  unfoldable pub check_timeout : ℕ → IpNegotiator → IpNegotiator × List Action
  unfolding is_probing
  check_timeout now s =
      if not (is_probing s.state)
      then (s, [])
      else if ltb_ℤ (pos now -ℤ pos s.probe_start_time) (pos probe_timeout_ms)
      then (s, [])
      else let cleared = record s { collected_conflicts = [] } in
        let (can_claim, nodes) = arbitrate now s.local_node_id s.collected_conflicts [] in
        if can_claim then claim cleared nodes else reselect now cleared

  -- The answer to a probe of an address that we hold or win.
  unfoldable pub probe_reply : ℕ → IpNegotiator → ℕ → ℕ → List Action
  probe_reply now s requested sender =
      let payload = encode_probe_response (record {
        ip_address = p.htonl requested;
        node_id = s.local_node_id;
        last_heartbeat_ms = now;
      }) in
      if s.send_callback then send probe_response payload sender true ∷ [] else []

  unfoldable pub handle_probe_request :
      ℕ → IpNegotiator → ProbeRequestPayload → ℕ → IpNegotiator × List Action
  unfolding is_probing is_stable
  handle_probe_request now s request sender =
      let requested = p.ntohl request.ip_address in
      if is_stable s.state && requested == s.local_ip
      then (s, probe_reply now s requested sender)
      else if is_probing s.state && requested == s.candidate_ip
      then (if has_priority s.local_node_id request.node_id
          then (s, probe_reply now s requested sender)
          else reselect now s)
      else (s, [])

  unfoldable pub handle_probe_response : IpNegotiator → ProbeResponsePayload → ℕ → IpNegotiator
  unfolding is_probing
  handle_probe_response s response sender =
      if not (is_probing s.state)
      then s
      else if not (p.ntohl response.ip_address == s.candidate_ip)
      then s
      else record s {
        collected_conflicts =
            s.collected_conflicts
            ++ record {
              node_id = response.node_id;
              last_heartbeat_ms = response.last_heartbeat_ms;
              sender_steam_id = sender;
            }
              ∷ [];
      }

  unfoldable pub handle_address_announce :
      ℕ → IpNegotiator → AddressAnnouncePayload → ℕ → IpNegotiator × List Action
  unfolding is_stable
  handle_address_announce now s announce peer =
      let announced = p.ntohl announce.ip_address in
      if announced == s.local_ip && is_stable s.state
      then (if not (has_priority s.local_node_id announce.node_id)
          then reselect now s
          else (s, send_forced_release s announced peer))
      else (mark_ip_used announced s, [])

  -- `shouldRelease` of handleForcedRelease.
  unfoldable pub should_release : IpNegotiator → ForcedReleasePayload → Bool
  unfolding is_probing is_stable
  should_release s release =
      let released = p.ntohl release.ip_address in
      if released == s.local_ip && is_stable s.state
      then not (has_priority s.local_node_id release.winner_node_id)
      else if released == s.candidate_ip && is_probing s.state
      then not (has_priority s.local_node_id release.winner_node_id)
      else false

  unfoldable pub handle_forced_release :
      ℕ → IpNegotiator → ForcedReleasePayload → IpNegotiator × List Action
  handle_forced_release now s release =
      if should_release s release
      then start_negotiation now (record s { probe_offset = add32 s.probe_offset 1; state = idle })
      else (s, [])
