-- ===== src/Bridge/Delivery.antt =====
-- IP packets from one host to another.
use connecttool_qt.Base.{
  ℕ, ◌+◌, ◌^◌, ◌<◌, ◌≡◌, ◌≢◌, refl, ap, List, [], ◌∷◌, ◌++◌, true, ◌&&◌, ◌||◌, Option, none, some,
  ◌==◌, ==_refl, ltb, length, drop, All, All-append, arith, length-append, drop-append_left,
  if_cases,
}
use connecttool_qt.Base.Map.{find}
use connecttool_qt.Base.Key.{nat_key}
use connecttool_qt.Platform.{Platform, IsPlatform}
use connecttool_qt.Wire.{length-store}
use connecttool_qt.Protocol.Messages.{ip_packet, encode_wrapper, size_wrapper, VpnPacketWrapper}
use connecttool_qt.Protocol.Frame.{frame}
use connecttool_qt.Protocol.RoundTrip.{unframe-frame, type_of_code-type_code}
use connecttool_qt.Bridge.State.{Bridge, RouteEntry, Host, Output, to_user, to_all, to_device}
use connecttool_qt.Bridge.Packets.{extract_dest_ip, extract_source_ip, is_broadcast_address}
use connecttool_qt.Bridge.Calls.{then_do, send_vpn_message}
use connecttool_qt.Bridge.Forward.{wrap_packet, count_received}
use connecttool_qt.Bridge.Receive.{
  demand_release, check_packet, relay, deliver_packet, receive_packet, dispatch, dispatch_code,
  handle_frame, handle_vpn_message,
}

-- The output reaches no peer with that ID: a message to all users reaches every peer.
abbrev pub NotTo : ℕ → Output → Type 0
NotTo user (to_user target message reliable) = target ≢ user
NotTo user (to_all message reliable) = ⊥
NotTo user out = Unit {0}

module _ (p : Platform) (host : Host) (now : ℕ) where
  relay-NotTo :
      (payload : List ℕ) (sender : ℕ) (o : Option RouteEntry)
      → All (NotTo sender) (relay p host now payload sender o)
  unfolding relay
  relay-NotTo payload sender none = tt
  relay-NotTo payload sender (some e) =
      if_cases (All (NotTo sender)) (e.is_local || e.steam_id == sender) {x = []} (λ _. tt)
        (λ h. (unfold send_vpn_message in ground arith, tt))

  demand_release-NotTo :
      (payload : List ℕ) (sender : ℕ) (o : Option ℕ)
      → All (NotTo sender) (demand_release p host now payload sender o)
  unfolding demand_release
  demand_release-NotTo payload sender none = tt
  demand_release-NotTo payload sender (some node) =
      if_cases (All (NotTo sender)) (node == sender) {x = []} (λ _. tt)
        (λ h. (unfold send_vpn_message in ground arith, tt))

  check_packet-NotTo :
      (payload : List ℕ) (sender : ℕ) (b : Bridge)
      → All (NotTo sender) (check_packet p host now payload sender b).1
  unfolding check_packet
  check_packet-NotTo payload sender b = demand_release-NotTo payload sender _

  deliver_packet-NotTo :
      (payload : List ℕ) (sender : ℕ) (b : Bridge)
      → All (NotTo sender) (deliver_packet p host now payload sender b).1
  unfolding deliver_packet
  deliver_packet-NotTo payload sender b =
      let dest = extract_dest_ip p (drop size_wrapper payload) in
      let packet = drop size_wrapper payload in
      if_cases (λ (r : Bridge × List Output). All (NotTo sender) r.1)
        (dest == b.local_ip || is_broadcast_address b dest)
        {x = (count_received (length packet) b, to_device packet ∷ [])} (λ _. (tt, tt))
        (λ _. relay-NotTo payload sender (find dest b.routing_table))

  -- Handling a packet of a peer sends no message that reaches that peer, neither one to it nor one
  -- to all users: the packet is not relayed back, and not answered by an order to release.
  pub receive_packet-NotTo :
      (payload : List ℕ) (sender : ℕ) (b : Bridge)
      → All (NotTo sender) (receive_packet p host now payload sender b).1
  unfolding receive_packet then_do
  receive_packet-NotTo payload sender b =
      if_cases (λ (r : Bridge × List Output). All (NotTo sender) r.1)
        (b.has_device && ltb size_wrapper (length payload)) {y = (b, [])}
        (λ _.
          All-append (NotTo sender) _ _ (check_packet-NotTo payload sender b)
            (deliver_packet-NotTo payload sender (check_packet p host now payload sender b).0))
        (λ _. tt)

  deliver_packet_mine :
      (payload packet : List ℕ) (sender : ℕ) (b : Bridge)
      → drop size_wrapper payload ≡ packet
      → b.local_ip ≡ extract_dest_ip p packet
      → (deliver_packet p host now payload sender b).1 ≡ to_device packet ∷ []
  unfolding deliver_packet
  deliver_packet_mine payload packet sender b same mine =
      rw (same, mine, ==_refl (extract_dest_ip p packet)) refl

  receive_packet_mine :
      (payload packet : List ℕ) (sender : ℕ) (b : Bridge)
      → drop size_wrapper payload ≡ packet
      → ltb size_wrapper (length payload) ≡ true
      → b.has_device ≡ true
      → b.local_ip ≡ extract_dest_ip p packet
      → (receive_packet p host now payload sender b).1
        ≡ (check_packet p host now payload sender b).1 ++ to_device packet ∷ []
  unfolding receive_packet then_do
  receive_packet_mine payload packet sender b same long device mine =
      let c : (b.has_device && ltb size_wrapper (length payload)) ≡ true = ground arith in
      rw c (
        ap ((check_packet p host now payload sender b).1 ++◌) (
          deliver_packet_mine payload packet sender (check_packet p host now payload sender b).0
            same (unfold check_packet in mine)))

  handle_packet :
      (payload : List ℕ) (sender : ℕ) (b : Bridge)
      → IsPlatform p
      → length payload < 2 ^ 16
      → handle_vpn_message p host now (frame p ip_packet payload) sender b
        ≡ receive_packet p host now payload sender b
  unfolding handle_vpn_message handle_frame
  handle_packet payload sender b laws h =
      rw (unframe-frame p laws ip_packet payload h, type_of_code-type_code ip_packet)
        (unfold dispatch_code in unfold dispatch in refl)

  -- For a packet that is not empty and fits into a message, from a sender with a node ID of 32
  -- bytes: a bridge with a device that holds the packet's destination handles the sender's message
  -- by handing the same bytes to its device, after calls none of which is a message to the sender
  -- or to all users.
  pub handle_vpn_message-wrap_packet :
      IsPlatform p
      → (packet : List ℕ) (a b : Bridge) (sender : ℕ) → 0 < length packet
      → length packet + 36 < 2 ^ 16
      → length a.negotiator.local_node_id ≡ 32
      → b.has_device ≡ true
      → b.local_ip ≡ extract_dest_ip p packet
      → (out : List Output) × (All (NotTo sender) out)
        × ((handle_vpn_message p host now (wrap_packet p host packet a) sender b).1
            ≡ out ++ to_device packet ∷ [])
  unfolding wrap_packet
  handle_vpn_message-wrap_packet laws packet a b sender h h' l device mine =
      let w : VpnPacketWrapper = record {
        sender_node_id = a.negotiator.local_node_id;
        source_ip = p.htonl (extract_source_ip p packet);
      } in
      let lw : length (encode_wrapper w) ≡ 36 =
        unfold encode_wrapper in rw (length-append, length-store, l) refl in
      let lp : length (encode_wrapper w ++ packet) ≡ 36 + length packet =
        rw (length-append, lw) refl in
      (
        (check_packet p host now (encode_wrapper w ++ packet) sender b).1,
        check_packet-NotTo (encode_wrapper w ++ packet) sender b,
        rw (handle_packet (encode_wrapper w ++ packet) sender b laws (omega (arith, lp))) (
            receive_packet_mine (encode_wrapper w ++ packet) packet sender b
              (drop-append_left 36 (encode_wrapper w) packet lw) (ground (arith, lp)) device mine),
      )
