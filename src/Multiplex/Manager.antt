-- ===== src/Multiplex/Manager.antt =====
-- The clients of a manager: addClient, removeClient, getClient, sendTunnelPacket,
-- handleTunnelPacket, and the callback of startAsyncRead. A method is one step; sockets, random
-- IDs and the outcome of connecting to the local server come from outside.
use connecttool_qt.Base.{
  ℕ, List, [], ◌∷◌, ◌++◌, map, Bool, true, false, Option, none, some, if◌then◌else◌,
}
use connecttool_qt.Base.Int.{pos, ◌-ℤ◌, ltb_ℤ}
use connecttool_qt.Base.Map.{find, assign, erase}
use connecttool_qt.Base.Set.{insert, remove}
use connecttool_qt.Base.Key.{list_key}
use connecttool_qt.Multiplex.Packet.{
  ClientId, Packet, invalid, bytes_for, disconnect, unknown, build_packet, read_packet, payloads,
}
use connecttool_qt.Multiplex.State.{Steam, Manager}
use connecttool_qt.Multiplex.Transport.{is_send_saturated, try_send_packet}
use connecttool_qt.Multiplex.Queue.Flush.{is_empty, remove_from_order, enqueue_packet}

-- What is done to the sockets, in order.
pub data Effect : Type 0 where
  start_read : ClientId → Effect
  write_to : ℕ → List ℕ → Effect
  close_socket : ℕ → Effect

-- The destructor.
unfoldable pub close_all : Manager → Manager × List Effect
close_all m =
    (record m { client_map = [] }, map (λ (c : ClientId × ℕ). close_socket c.1) m.client_map)

unfoldable pub get_client : Manager → ClientId → Option ℕ
get_client m id = find id m.client_map

-- The loop of addClient over generated IDs, until one is not in use.
unfoldable pub fresh_id : Manager → List ClientId → Option ClientId
fresh_id m [] = none
fresh_id m (id ∷ ids) =
    let rest = fresh_id m ids in elim (find id m.client_map) [ none ↦ some id | some socket ↦ rest ]

unfoldable pub install_client : ClientId → ℕ → Manager → Manager
install_client id socket m = record m {
  client_map = assign id socket m.client_map;
  read_buffers = insert id m.read_buffers;
}

-- addClient, once the ID is chosen.
unfoldable pub add_client : ClientId → ℕ → Manager → Manager × List Effect
unfolding install_client
add_client id socket m = (
  record (install_client id socket m) { missing_clients = remove id m.missing_clients },
  start_read id ∷ [],
)

-- resumePausedReads
unfoldable pub resume_paused_reads : Manager → Manager × List Effect
resume_paused_reads m = (record m { paused_reads = [] }, map start_read m.paused_reads)

-- The part of removeClient after the socket is closed and erased.
unfoldable pub forget_client : ClientId → Manager → Manager × List Effect
unfolding remove_from_order resume_paused_reads
forget_client id m =
    let m' = remove_from_order id (record m {
      read_buffers = remove id m.read_buffers;
      missing_clients = remove id m.missing_clients;
      paused_reads = remove id m.paused_reads;
      pending_packets = erase id m.pending_packets;
    }) in
    if is_empty m'.pending_packets
    then resume_paused_reads (record m' { send_blocked = false })
    else (m', [])

-- Whether the client was there, the state, and the effects.
unfoldable pub remove_client : ClientId → Manager → Bool × Manager × List Effect
unfolding forget_client
remove_client id m =
    let gone = forget_client id (record m { client_map = erase id m.client_map }) in
    let kept = forget_client id m in
    elim (find id m.client_map) [
      | some socket ↦ (true, gone.0, close_socket socket ∷ gone.1)
      | none ↦ (false, kept.0, kept.1)
    ]

module _ (steam : Steam) where
  open steam use {World, clock}

  -- The variables of sendTunnelPacket: the flag, the state, and the packets that
  -- trySendPacket was done with.
  pub record Push : Type 0 where
    pub blocked : Bool
    pub manager : Manager
    pub world : World
    pub passed : List (ClientId × Packet)

  -- `blocked = true; enqueuePacket(id, packet);`
  unfoldable pub hold : ClientId → Packet → Manager → World → List (ClientId × Packet) → Push
  hold id packet m w passed = record {
    blocked = true;
    manager = (enqueue_packet id packet m).0;
    world = w;
    passed = passed;
  }

  -- The lambda pushPacket.
  unfoldable pub push_packet : ClientId → Packet → Push → Push
  unfolding hold
  push_packet id packet s =
      let (saturated, m', w') = is_send_saturated steam s.manager s.world in
      let (sent, m'', w'') = try_send_packet steam packet m' w' in
      if s.blocked
      then hold id packet s.manager s.world s.passed
      else if saturated
      then hold id packet m' w' s.passed
      else if sent
      then record s { manager = m''; world = w''; passed = s.passed ++ (id, packet) ∷ [] }
      else hold id packet m'' w'' s.passed

  unfoldable pub push_all : ClientId → ℕ → List (List ℕ) → Push → Push
  push_all id type [] s = s
  push_all id type (bytes ∷ rest) s =
      push_all id type rest (push_packet id (build_packet id bytes type) s)

  -- The last lines of sendTunnelPacket.
  unfoldable pub note_blocked : Push → Push
  note_blocked s =
      let (now, w') = clock s.world in
      if s.blocked
      then record s {
        manager = record (s.manager) { send_blocked = true; last_blocked = now };
        world = w';
      }
      else s

  unfoldable pub send_tunnel_packet : ClientId → List ℕ → ℕ → Manager → World → Push
  unfolding push_all note_blocked
  send_tunnel_packet id bytes type m w = note_blocked (
      push_all id type (payloads bytes type)
        (record { blocked = false; manager = m; world = w; passed = [] }))

  -- What handling a packet leaves.
  pub record Handled : Type 0 where
    pub manager : Manager
    pub world : World
    pub passed : List (ClientId × Packet)
    pub effects : List Effect

  abbrev only : Manager → World → List Effect → Handled
  only m w effects = record { manager = m; world = w; passed = []; effects = effects }

  -- `sendTunnelPacket(id, nullptr, 0, 1)`
  unfoldable pub send_disconnect : ClientId → Manager → World → Handled
  unfolding send_tunnel_packet
  send_disconnect id m w =
      let s = send_tunnel_packet id [] 1 m w in
      record { manager = s.manager; world = s.world; passed = s.passed; effects = [] }

  -- Data for a connected client.
  unfoldable pub deliver : ClientId → ℕ → List ℕ → Manager → World → List Effect → Handled
  deliver id socket bytes m w before =
      only (record m { missing_clients = remove id m.missing_clients }) w
        (before ++ write_to socket bytes ∷ [])

  -- Whether the last failure to connect for an ID is less than a second old.
  unfoldable pub failed_recently : ClientId → Manager → ℕ → Bool
  failed_recently id m now = elim (find id m.recent_connect_fail) [
    | some failed ↦ ltb_ℤ (pos now -ℤ pos failed) (pos 1000)
    | none ↦ false
  ]

  -- Data for an unknown client at the host: connect to the local server. `connected` is the new
  -- socket, or nothing if that throws.
  unfoldable pub connect_client : ClientId → Option ℕ → List ℕ → Manager → World → Handled
  unfolding install_client send_disconnect deliver
  connect_client id connected bytes m w =
      let (later, w') = clock w in
      elim connected [
        | some socket ↦
            deliver id socket bytes
              (record (install_client id socket m) {
                recent_connect_fail = erase id m.recent_connect_fail;
              })
              w (start_read id ∷ [])
        | none ↦
            send_disconnect id
              (record m { recent_connect_fail = assign id later m.recent_connect_fail }) w'
      ]

  unfoldable pub handle_bytes : Bool → Option ℕ → ClientId → List ℕ → Manager → World → Handled
  unfolding failed_recently connect_client deliver send_disconnect
  handle_bytes hosts connected id bytes m w =
      let (now, w') = clock w in
      elim (get_client m id) [
        | some socket ↦ deliver id socket bytes m w []
        | none ↦
            if hosts
            then (if failed_recently id m now
                then only m w' []
                else connect_client id connected bytes m w')
            else send_disconnect id (record m { missing_clients = insert id m.missing_clients }) w
      ]

  -- handleTunnelPacket: `hosts` is `isHost_ && localPort_ > 0`.
  unfoldable pub handle_tunnel_packet : Bool → Option ℕ → Packet → Manager → World → Handled
  unfolding handle_bytes remove_client
  handle_tunnel_packet hosts connected packet m w = elim (read_packet packet) [
    | invalid ↦ only m w []
    | bytes_for id bytes ↦ handle_bytes hosts connected id bytes m w
    | disconnect id ↦ let (was, m', effects) = remove_client id m in only m' w effects
    | unknown type ↦ only m w []
  ]

  -- The callback of a read: the bytes, or nothing on an error.
  unfoldable pub on_read : ClientId → Option (List ℕ) → Manager → World → Handled
  unfolding send_tunnel_packet remove_client
  on_read id none m w = let (was, m', effects) = remove_client id m in only m' w effects
  on_read id (some []) m w = only m w (start_read id ∷ [])
  on_read id (some (b ∷ bytes)) m w =
      let s = send_tunnel_packet id (b ∷ bytes) 0 m w in
      if s.manager.send_blocked
      then record {
        manager = record (s.manager) { paused_reads = insert id s.manager.paused_reads };
        world = s.world;
        passed = s.passed;
        effects = [];
      }
      else record {
        manager = s.manager;
        world = s.world;
        passed = s.passed;
        effects = start_read id ∷ [];
      }
