-- ===== src/Bridge/Forward.antt =====
-- The body of tunReadThread: a packet that the host sends into the TUN device.
use connecttool_qt.Base.{
  ℕ, ◌+◌, ◌*◌, ◌%◌, ◌^◌, List, [], ◌∷◌, ◌++◌, false, Option, none, some, if◌then◌else◌, ◌==◌,
  length,
}
use connecttool_qt.Base.Map.{find}
use connecttool_qt.Base.Key.{nat_key}
use connecttool_qt.Platform.{Platform}
use connecttool_qt.Protocol.Messages.{ip_packet, encode_wrapper}
use connecttool_qt.Protocol.Frame.{frame}
use connecttool_qt.Bridge.State.{Bridge, RouteEntry, Host, Output, to_user, to_all, to_device}
use connecttool_qt.Bridge.Packets.{extract_dest_ip, extract_source_ip, is_broadcast_address}

-- The counters are 64 bits wide.
abbrev pub add64 : ℕ → ℕ → ℕ
add64 a b = (a + b) % 2 ^ 64

unfoldable pub count_received : ℕ → Bridge → Bridge
count_received n b = record b {
  stats = record (b.stats) {
    packets_received = add64 b.stats.packets_received 1;
    bytes_received = add64 b.stats.bytes_received n;
  };
}

unfoldable pub count_sent : ℕ → ℕ → Bridge → Bridge
count_sent peers n b = record b {
  stats = record (b.stats) {
    packets_sent = add64 b.stats.packets_sent peers;
    bytes_sent = add64 b.stats.bytes_sent (n * peers);
  };
}

module _ (p : Platform) (host : Host) where
  -- The message for a packet.
  unfoldable pub wrap_packet : List ℕ → Bridge → List ℕ
  wrap_packet packet b = frame p ip_packet (
      encode_wrapper (record {
        sender_node_id = b.negotiator.local_node_id;
        source_ip = p.htonl (extract_source_ip p packet);
      })
      ++ packet)

  unfoldable pub loop_back : List ℕ → Bridge → Bridge × List Output
  loop_back packet b = (count_received (length packet) b, to_device packet ∷ [])

  -- The part that looks the destination up.
  unfoldable pub send_routed : List ℕ → Option RouteEntry → Bridge → Bridge × List Output
  unfolding loop_back
  send_routed packet none b = (b, [])
  send_routed packet (some e) b =
      if e.is_local
      then loop_back packet b
      else (count_sent 1 (length packet) b, to_user e.steam_id (wrap_packet packet b) false ∷ [])

  -- `bytesRead > 0` is the length of the packet.
  unfoldable pub forward_packet : List ℕ → Bridge → Bridge × List Output
  unfolding loop_back
  forward_packet [] b = (b, [])
  forward_packet (byte ∷ bytes) b =
      let packet = byte ∷ bytes in
      let dest = extract_dest_ip p packet in
      if dest == b.local_ip
      then loop_back packet b
      else if is_broadcast_address b dest
      then (count_sent host.peer_count (length packet) b, to_all (wrap_packet packet b) false ∷ [])
      else send_routed packet (find dest b.routing_table) b
