-- ===== src/Tunnel/Kept.antt =====
-- What the calls of multiplexers leave as it was: queues that agree, and the poll.
use mathlib.Core.Path.{subst}
use connecttool_qt.Base.{
  ℕ, ◌≡◌, refl, sym, ◌∙◌, List, [], ◌∷◌, ◌++◌, length, Bool, Option, none, some, if◌then◌else◌,
  ◌==◌, arith, if_cases,
}
use connecttool_qt.Base.Key.{nat_key}
use connecttool_qt.Base.Map.{Map, find, assign, find-assign}
use connecttool_qt.Base.Set.{contains, remove}
use connecttool_qt.Multiplex.Packet.{ClientId}
use connecttool_qt.Multiplex.State as Multiplex
use connecttool_qt.Multiplex.Manager.{
  Handled, add_client, install_client, remove_client, send_tunnel_packet, handle_tunnel_packet,
}
use connecttool_qt.Multiplex.Queue.Invariant.{IsQueued}
use connecttool_qt.Multiplex.Clients.{remove_client-IsQueued}
use connecttool_qt.Multiplex.Preserve.{send_tunnel_packet-IsQueued, handle_tunnel_packet-IsQueued}
use connecttool_qt.Tunnel.State.{
  Network, steam_on, Output, client_count, read, accept, Tunnel, Method, then_do,
  get_multiplex_manager,
}
use connecttool_qt.Tunnel.Poll.{
  Message, Batches, settle, handle_message, handle_messages, handle_batches,
}
use connecttool_qt.Tunnel.Server.{
  send_to_all, add, forward, drop_client, accepted, on_accept, on_read,
}

-- Each connection's multiplexer has its queues and its order in agreement.
abbrev pub AllQueued : Map ℕ Multiplex.Manager → Type 0
AllQueued managers = (conn : ℕ) → IsQueued (get_multiplex_manager conn managers)

get_multiplex_manager-assign :
    (j conn : ℕ) (m : Multiplex.Manager) (managers : Map ℕ Multiplex.Manager)
    → get_multiplex_manager j (assign conn m managers)
      ≡ (if conn == j then m else get_multiplex_manager j managers)
unfolding get_multiplex_manager
get_multiplex_manager-assign j conn m managers = ground (arith, find-assign j conn m managers)

assign-AllQueued :
    (conn : ℕ) (m : Multiplex.Manager) (managers : Map ℕ Multiplex.Manager)
    → IsQueued m
    → AllQueued managers
    → AllQueued (assign conn m managers)
assign-AllQueued conn m managers u v j =
    subst IsQueued (sym (get_multiplex_manager-assign j conn m managers))
      (if_cases IsQueued (conn == j) (λ _. u) (λ _. v j))

pub new-IsQueued : IsQueued Multiplex.new
unfolding Multiplex.new find contains
new-IsQueued = record {
  sorted = tt;
  agree = λ j. refl;
  waiting = λ j h. ground arith;
  distinct = tt;
}

module _ (net : Network) where
  -- What only calls multiplexers: queues that agree still do, and the poll is as it was.
  pub record Kept (t t' : Tunnel net) : Type 0 where
    pub queued : AllQueued t.managers → AllQueued t'.managers
    pub interval : t'.poll_interval ≡ t.poll_interval
    pub running : t'.running ≡ t.running
    pub waiting : t'.waiting ≡ t.waiting

  abbrev pub Calls : Method net → Type 0
  Calls f = (t : Tunnel net) → Kept t (f t).0

  pub Kept-refl : (t : Tunnel net) → Kept t t
  Kept-refl t = record { queued = λ q. q; interval = refl; running = refl; waiting = refl }

  then_do-Kept :
      (t : Tunnel net) (r : Tunnel net × List Output) (f : Method net)
      → Kept t r.0
      → Calls f
      → Kept t (then_do net r f).0
  unfolding then_do
  then_do-Kept t r f v k =
      let u = k r.0 in
      record {
        queued = λ q. u.queued (v.queued q);
        interval = u.interval ∙ v.interval;
        running = u.running ∙ v.running;
        waiting = u.waiting ∙ v.waiting;
      }

  pub settle-Kept :
      (conn : ℕ) (r : Handled (steam_on net conn)) (t : Tunnel net)
      → (IsQueued (get_multiplex_manager conn t.managers) → IsQueued r.manager)
      → Kept t (settle net conn r t).0
  unfolding settle
  settle-Kept conn r t u = record {
    queued = λ q. assign-AllQueued conn r.manager t.managers (u (q conn)) q;
    interval = refl;
    running = refl;
    waiting = refl;
  }

  handle_messages-Calls :
      (hosts : Bool) (conn : ℕ) (messages : List Message)
      → Calls (handle_messages net hosts conn messages)
  unfolding handle_messages handle_message
  handle_messages-Calls hosts conn [] t = Kept-refl t
  handle_messages-Calls hosts conn (msg ∷ messages) t =
      let m = get_multiplex_manager conn t.managers in
      let handled =
        handle_tunnel_packet (steam_on net conn) hosts msg.connected msg.packet m t.world in
      then_do-Kept t (handle_message net hosts conn msg t) (handle_messages net hosts conn messages)
        (settle-Kept conn handled t (
          handle_tunnel_packet-IsQueued (steam_on net conn) hosts msg.connected msg.packet m
            t.world))
        (handle_messages-Calls hosts conn messages)

  pub handle_batches-Calls :
      (hosts : Bool) (batches : Batches) → Calls (handle_batches net hosts batches)
  unfolding handle_batches
  handle_batches-Calls hosts [] t = Kept-refl t
  handle_batches-Calls hosts ((conn, none) ∷ batches) t = handle_batches-Calls hosts batches t
  handle_batches-Calls hosts ((conn, some messages) ∷ batches) t =
      then_do-Kept t (handle_messages net hosts conn messages t) (handle_batches net hosts batches)
        (handle_messages-Calls hosts conn messages t) (handle_batches-Calls hosts batches)

  add_client-IsQueued :
      (id : ClientId) (socket : ℕ) (m : Multiplex.Manager)
      → IsQueued m
      → IsQueued (add_client id socket m).0
  unfolding add_client install_client
  add_client-IsQueued id socket m v = record {
    sorted = v.sorted;
    agree = v.agree;
    waiting = v.waiting;
    distinct = v.distinct;
  }

  add-Calls : (conn : ℕ) (id : ClientId) (socket : ℕ) → Calls (add net conn id socket)
  unfolding add
  add-Calls conn id socket t =
      let (m, effects) = add_client id socket (get_multiplex_manager conn t.managers) in
      settle-Kept conn (record { manager = m; world = t.world; passed = []; effects = effects }) t
        (add_client-IsQueued id socket (get_multiplex_manager conn t.managers))

  forward-Calls :
      (conn : ℕ) (id : ClientId) (bytes : List ℕ) (type : ℕ)
      → Calls (forward net conn id bytes type)
  unfolding forward
  forward-Calls conn id bytes type t =
      let s =
        send_tunnel_packet (steam_on net conn) id bytes type (get_multiplex_manager conn t.managers)
          t.world in
      settle-Kept conn
        (record { manager = s.manager; world = s.world; passed = s.passed; effects = [] }) t
        (send_tunnel_packet-IsQueued (steam_on net conn) id bytes type
          (get_multiplex_manager conn t.managers) t.world)

  drop_client-Calls : (conn : ℕ) (id : ClientId) → Calls (drop_client net conn id)
  unfolding drop_client
  drop_client-Calls conn id t =
      let (was, m, effects) = remove_client id (get_multiplex_manager conn t.managers) in
      settle-Kept conn (record { manager = m; world = t.world; passed = []; effects = effects }) t
        (λ v. (remove_client-IsQueued id (get_multiplex_manager conn t.managers) v).0)

  with_clients : (t : Tunnel net) (clients : List ℕ) → Kept t (record t { clients = clients })
  with_clients t clients = record {
    queued = λ q. q;
    interval = refl;
    running = refl;
    waiting = refl;
  }

  accepted-Calls : (conn socket : ℕ) (id : Option ClientId) → Calls (accepted net conn socket id)
  unfolding accepted
  accepted-Calls conn socket none t = Kept-refl t
  accepted-Calls conn socket (some id) t =
      then_do-Kept t (add net conn id socket t)
        (λ t'. (
          record t' { clients = t'.clients ++ socket ∷ [] },
          client_count (length (t'.clients ++ socket ∷ [])) ∷ read socket id ∷ [],
        ))
        (add-Calls conn id socket t) (λ t'. with_clients t' (t'.clients ++ socket ∷ []))

  pub on_accept-Calls :
      (conn socket : ℕ) (id : Option ClientId) → Calls (on_accept net conn socket id)
  unfolding on_accept
  on_accept-Calls conn socket id t =
      then_do-Kept t (accepted net conn socket id t)
        (λ t'. (t', (if t'.server_running then accept ∷ [] else [])))
        (accepted-Calls conn socket id t) Kept-refl

  pub on_read-Calls :
      (connected : Bool) (conn socket : ℕ) (id : ClientId) (bytes : Option (List ℕ))
      → Calls (on_read net connected conn socket id bytes)
  unfolding on_read
  on_read-Calls connected conn socket id (some bytes) t =
      then_do-Kept t (if connected then forward net conn id bytes 0 t else (t, []))
        (λ t'. (t', send_to_all bytes socket t'.clients ++ read socket id ∷ []))
        (if_cases (λ (r : Tunnel net × List Output). Kept t r.0) connected
          (λ _. forward-Calls conn id bytes 0 t) (λ _. Kept-refl t))
        Kept-refl
  on_read-Calls connected conn socket id none t =
      then_do-Kept t
        (if connected
          then then_do net (forward net conn id [] 1 t) (drop_client net conn id)
          else (t, []))
        (λ t'. (
          record t' { clients = remove socket t'.clients },
          client_count (length (remove socket t'.clients)) ∷ [],
        ))
        (if_cases (λ (r : Tunnel net × List Output). Kept t r.0) connected
          (λ _.
            then_do-Kept t (forward net conn id [] 1 t) (drop_client net conn id)
              (forward-Calls conn id [] 1 t) (drop_client-Calls conn id))
          (λ _. Kept-refl t))
        (λ t'. with_clients t' (remove socket t'.clients))
