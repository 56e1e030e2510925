-- ===== src/Bridge/Outgoing.antt =====
-- Where a packet of the host goes.
use connecttool_qt.Base.{
  ℕ, ◌/◌, ◌%◌, ◌<◌, ◌≡◌, ◌≢◌, refl, List, [], ◌∷◌, true, false, Option, none, some, if◌then◌else◌,
  ◌==◌, length, All, arith, if_cases,
}
use connecttool_qt.Base.Map.{find}
use connecttool_qt.Base.Key.{nat_key}
use connecttool_qt.Platform.{Platform}
use connecttool_qt.Wire.{load, field_at}
use connecttool_qt.Bridge.State.{Bridge, RouteEntry, Host, Output, to_user, to_all, to_device}
use connecttool_qt.Bridge.Packets.{extract_dest_ip, is_broadcast_address}
use connecttool_qt.Bridge.Forward.{forward_packet, send_routed, wrap_packet, count_sent, loop_back}

module _ (p : Platform) (host : Host) (packet : List ℕ) (b : Bridge) where
  -- Why a call is made: a user has the route of the destination, all get a broadcast, and the
  -- device gets the packet itself.
  abbrev pub Explained : Output → Type 0
  Explained (to_user target message reliable) =
      (message ≡ wrap_packet p host packet b)
      × (reliable ≡ false)
      × ((e : RouteEntry) × (find (extract_dest_ip p packet) b.routing_table ≡ some e)
          × (e.is_local ≡ false)
          × (e.steam_id ≡ target))
  Explained (to_all message reliable) =
      (message ≡ wrap_packet p host packet b)
      × (reliable ≡ false)
      × (is_broadcast_address b (extract_dest_ip p packet) ≡ true)
  Explained (to_device sent) = sent ≡ packet
  Explained out = ⊥

  send_routed-Explained :
      (o : Option RouteEntry)
      → find (extract_dest_ip p packet) b.routing_table ≡ o
      → All Explained (send_routed p host packet o b).1
  unfolding send_routed
  send_routed-Explained none h = tt
  send_routed-Explained (some e) h =
      if_cases (λ (r : Bridge × List Output). All Explained r.1) e.is_local
        {x = loop_back p host packet b}
        {y = (
          count_sent 1 (length packet) b,
          to_user e.steam_id (wrap_packet p host packet b) false ∷ [],
        )}
        (λ _. unfold loop_back in (refl, tt)) (λ remote. ((refl, refl, (e, h, remote, refl)), tt))

module _ (p : Platform) (host : Host) where
  -- Every call that a packet of the host causes is the message with the packet, unreliable, to the
  -- one user who has a route for the destination that is not local, or to all users if the
  -- destination is a broadcast or multicast address, or it is the packet itself written back to
  -- the device.
  pub forward_packet-Explained :
      (packet : List ℕ) (b : Bridge)
      → All (Explained p host packet b) (forward_packet p host packet b).1
  unfolding forward_packet
  forward_packet-Explained [] b = tt
  forward_packet-Explained (byte ∷ bytes) b =
      let packet : List ℕ = byte ∷ bytes in
      let dest = extract_dest_ip p packet in
      let routed = send_routed p host packet (find dest b.routing_table) b in
      let sent : Bridge × List Output = (
        count_sent host.peer_count (length packet) b,
        to_all (wrap_packet p host packet b) false ∷ [],
      ) in
      if_cases (λ (r : Bridge × List Output). All (Explained p host packet b) r.1)
        (dest == b.local_ip) {x = loop_back p host packet b}
        {y = if is_broadcast_address b dest then sent else routed}
        (λ _. unfold loop_back in (refl, tt))
        λ _.
          if_cases (λ (r : Bridge × List Output). All (Explained p host packet b) r.1)
            (is_broadcast_address b dest) {x = sent} {y = routed} (λ wide. ((refl, refl, wide), tt))
            (λ _. send_routed-Explained p host packet b (find dest b.routing_table) refl)

  unaddressed :
      (packet : List ℕ) → (load (field_at 0 1 packet) / 16) % 16 ≢ 4 → extract_dest_ip p packet ≡ 0
  unfolding extract_dest_ip
  unaddressed packet other = ground arith

  -- While the bridge has no address, a packet that is not of version 4 is written back to the
  -- device that it was read from.
  pub forward_packet_unaddressed :
      (packet : List ℕ) (b : Bridge)
      → 0 < length packet
      → b.local_ip ≡ 0
      → (load (field_at 0 1 packet) / 16) % 16 ≢ 4
      → (forward_packet p host packet b).1 ≡ to_device packet ∷ []
  unfolding forward_packet
  forward_packet_unaddressed [] b h none_yet other = ground arith
  forward_packet_unaddressed (byte ∷ bytes) b h none_yet other =
      let no_dest : extract_dest_ip p (byte ∷ bytes) ≡ 0 = unaddressed (byte ∷ bytes) other in
      rw (no_dest, none_yet) (unfold loop_back in refl)
