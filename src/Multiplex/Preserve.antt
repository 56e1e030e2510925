-- ===== src/Multiplex/Preserve.antt =====
-- The queues and the order stay in agreement whatever is sent and received.
use connecttool_qt.Base.{
  ℕ, List, [], ◌∷◌, ◌++◌, Bool, true, false, Option, none, some, if◌then◌else◌, if_cases, not, ◌&&◌,
}
use connecttool_qt.Base.Key.{list_key}
use connecttool_qt.Base.Map.{assign, erase}
use connecttool_qt.Base.Set.{insert}
use connecttool_qt.Multiplex.Packet.{
  ClientId, Packet, Tunnel, invalid, bytes_for, disconnect, unknown, build_packet, read_packet,
  payloads,
}
use connecttool_qt.Multiplex.State.{Steam, Manager}
use connecttool_qt.Multiplex.Transport.{
  is_send_saturated, try_send_packet, is_send_saturated-SameQueues, try_send_packet-SameQueues,
}
use connecttool_qt.Multiplex.Queue.Flush.{is_empty, push_pending, enqueue_packet, schedule_flush}
use connecttool_qt.Multiplex.Queue.Invariant.{IsQueued, push_pending-IsQueued}
use connecttool_qt.Multiplex.Queue.Rounds.{same-IsQueued}
use connecttool_qt.Multiplex.Manager.{
  Effect, start_read, Push, Handled, hold, push_packet, push_all, note_blocked, send_tunnel_packet,
  send_disconnect, deliver, connect_client, install_client, handle_bytes, handle_tunnel_packet,
  get_client, failed_recently,
}
use connecttool_qt.Multiplex.Clients.{remove_client-IsQueued}

enqueue_packet-IsQueued :
    (id : ClientId) (packet : Packet) (m : Manager)
    → IsQueued m
    → IsQueued (enqueue_packet id packet m).0
unfolding enqueue_packet schedule_flush
enqueue_packet-IsQueued id packet m v =
    let pushed = push_pending id packet m in
    let u = push_pending-IsQueued id packet m v in
    if_cases (λ (r : Manager × Option ℕ). IsQueued r.0)
      (not pushed.flush_scheduled && not (is_empty pushed.send_order)) {y = (pushed, none)}
      (λ _. record {
        sorted = u.sorted;
        agree = u.agree;
        waiting = u.waiting;
        distinct = u.distinct;
      })
      (λ _. u)

-- To prove a property of a value that is chosen by an option, or by the kind of a packet.
option_cases {ℓ κ η} :
    {A : Type ℓ} {B : Type κ} (P : B → Type η) (o : Option A) {f : A → B} {z : B}
    → ((a : A) → P (f a))
    → P z
    → P (elim o [ some a ↦ f a | none ↦ z ])
option_cases P none h k = k
option_cases P (some a) h k = h a

tunnel_cases {κ η} :
    {B : Type κ} (P : B → Type η) (t : Tunnel) {x : B} {f : ClientId → List ℕ → B}
    {g : ClientId → B} {h : ℕ → B}
    → P x
    → ((id : ClientId) (bytes : List ℕ) → P (f id bytes))
    → ((id : ClientId) → P (g id))
    → ((type : ℕ) → P (h type))
    → P (elim t [
      | invalid ↦ x
      | bytes_for id bytes ↦ f id bytes
      | disconnect id ↦ g id
      | unknown type ↦ h type
    ])
tunnel_cases P invalid a b c d = a
tunnel_cases P (bytes_for id bytes) a b c d = b id bytes
tunnel_cases P (disconnect id) a b c d = c id
tunnel_cases P (unknown type) a b c d = d type

module _ (steam : Steam) where
  open steam use {World}

  push_packet-IsQueued :
      (id : ClientId) (packet : Packet) (s : Push steam)
      → IsQueued s.manager
      → IsQueued (push_packet steam id packet s).manager
  unfolding push_packet hold
  push_packet-IsQueued id packet s v =
      let test = is_send_saturated steam s.manager s.world in
      let sent = try_send_packet steam packet test.1 test.2 in
      let u = same-IsQueued steam (is_send_saturated-SameQueues steam s.manager s.world) v in
      let t = same-IsQueued steam (try_send_packet-SameQueues steam packet test.1 test.2) u in
      if_cases (λ (r : Push steam). IsQueued r.manager) s.blocked
        {x = hold steam id packet s.manager s.world s.passed}
        (λ _. enqueue_packet-IsQueued id packet s.manager v)
        λ _.
          if_cases (λ (r : Push steam). IsQueued r.manager) test.0
            {x = hold steam id packet test.1 test.2 s.passed}
            (λ _. enqueue_packet-IsQueued id packet test.1 u)
            λ _.
              if_cases (λ (r : Push steam). IsQueued r.manager) sent.0
                {x = record s {
                  manager = sent.1;
                  world = sent.2;
                  passed = s.passed ++ (id, packet) ∷ [];
                }}
                {y = hold steam id packet sent.1 sent.2 s.passed} (λ _. t)
                (λ _. enqueue_packet-IsQueued id packet sent.1 t)

  push_all-IsQueued :
      (id : ClientId) (type : ℕ) (pieces : List (List ℕ)) (s : Push steam)
      → IsQueued s.manager
      → IsQueued (push_all steam id type pieces s).manager
  unfolding push_all
  push_all-IsQueued id type [] s v = v
  push_all-IsQueued id type (bytes ∷ rest) s v =
      push_all-IsQueued id type rest (push_packet steam id (build_packet id bytes type) s)
        (push_packet-IsQueued id (build_packet id bytes type) s v)

  note_blocked-IsQueued :
      (s : Push steam) → IsQueued s.manager → IsQueued (note_blocked steam s).manager
  unfolding note_blocked
  note_blocked-IsQueued s v =
      if_cases (λ (r : Push steam). IsQueued r.manager) s.blocked {y = s}
        (λ _. record {
          sorted = v.sorted;
          agree = v.agree;
          waiting = v.waiting;
          distinct = v.distinct;
        })
        (λ _. v)

  pub send_tunnel_packet-IsQueued :
      (id : ClientId) (bytes : List ℕ) (type : ℕ) (m : Manager) (w : World)
      → IsQueued m
      → IsQueued (send_tunnel_packet steam id bytes type m w).manager
  unfolding send_tunnel_packet
  send_tunnel_packet-IsQueued id bytes type m w v =
      let s : Push steam = record { blocked = false; manager = m; world = w; passed = [] } in
      note_blocked-IsQueued (push_all steam id type (payloads bytes type) s)
        (push_all-IsQueued id type (payloads bytes type) s v)

  Kept : Handled steam → Type 0
  Kept r = IsQueued r.manager

  send_disconnect-Kept :
      (id : ClientId) (m : Manager) (w : World) → IsQueued m → Kept (send_disconnect steam id m w)
  unfolding send_disconnect Kept
  send_disconnect-Kept id m w v = send_tunnel_packet-IsQueued id [] 1 m w v

  deliver-Kept :
      (id : ClientId) (socket : ℕ) (bytes : List ℕ) (m : Manager) (w : World) (before : List Effect)
      → IsQueued m
      → Kept (deliver steam id socket bytes m w before)
  unfolding deliver Kept
  deliver-Kept id socket bytes m w before v = record {
    sorted = v.sorted;
    agree = v.agree;
    waiting = v.waiting;
    distinct = v.distinct;
  }

  connect_client-Kept :
      (id : ClientId) (connected : Option ℕ) (bytes : List ℕ) (m : Manager) (w : World)
      → IsQueued m
      → Kept (connect_client steam id connected bytes m w)
  unfolding connect_client install_client Kept
  connect_client-Kept id (some socket) bytes m w v =
      deliver-Kept id socket bytes
        (record (install_client id socket m) {
          recent_connect_fail = erase id m.recent_connect_fail;
        })
        w (start_read id ∷ [])
        (record { sorted = v.sorted; agree = v.agree; waiting = v.waiting; distinct = v.distinct })
  connect_client-Kept id none bytes m w v =
      let (later, w') = steam.clock w in
      send_disconnect-Kept id
        (record m { recent_connect_fail = assign id later m.recent_connect_fail }) w'
        (record { sorted = v.sorted; agree = v.agree; waiting = v.waiting; distinct = v.distinct })

  unknown_client-Kept :
      (hosts : Bool) (connected : Option ℕ) (id : ClientId) (bytes : List ℕ) (m : Manager)
      (w w' : World) (recent : Bool)
      → IsQueued m
      → Kept (
          if hosts
          then (if recent
              then record { manager = m; world = w'; passed = []; effects = [] }
              else connect_client steam id connected bytes m w')
          else send_disconnect steam id
              (record m { missing_clients = insert id m.missing_clients })
              w)
  unfolding Kept
  unknown_client-Kept true connected id bytes m w w' true v = v
  unknown_client-Kept true connected id bytes m w w' false v =
      connect_client-Kept id connected bytes m w' v
  unknown_client-Kept false connected id bytes m w w' recent v =
      send_disconnect-Kept id (record m { missing_clients = insert id m.missing_clients }) w
        (record { sorted = v.sorted; agree = v.agree; waiting = v.waiting; distinct = v.distinct })

  handle_bytes-Kept :
      (hosts : Bool) (connected : Option ℕ) (id : ClientId) (bytes : List ℕ) (m : Manager)
      (w : World)
      → IsQueued m
      → Kept (handle_bytes steam hosts connected id bytes m w)
  unfolding handle_bytes
  handle_bytes-Kept hosts connected id bytes m w v =
      let (now, w') = steam.clock w in
      option_cases Kept (get_client m id) (λ socket. deliver-Kept id socket bytes m w [] v)
        (unknown_client-Kept hosts connected id bytes m w w' (failed_recently steam id m now) v)

  pub handle_tunnel_packet-IsQueued :
      (hosts : Bool) (connected : Option ℕ) (packet : Packet) (m : Manager) (w : World)
      → IsQueued m
      → IsQueued (handle_tunnel_packet steam hosts connected packet m w).manager
  unfolding handle_tunnel_packet Kept
  handle_tunnel_packet-IsQueued hosts connected packet m w v =
      tunnel_cases Kept (read_packet packet) v
        (λ id bytes. handle_bytes-Kept hosts connected id bytes m w v)
        (λ id. (remove_client-IsQueued id m v).0) (λ type. v)
