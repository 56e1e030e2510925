-- ===== src/Bridge/Lifecycle.antt =====
-- start, onUserJoined, onUserLeft and rebroadcastState. The thread of tunReadThread runs while
-- `running` is set.
use connecttool_qt.Base.{ℕ, List, [], ◌∷◌, Bool, true, false, none, some, if◌then◌else◌, ◌==◌}
use connecttool_qt.Base.Map.{Map, erase_if}
use connecttool_qt.Base.Key.{nat_key}
use connecttool_qt.Platform.{Platform}
use connecttool_qt.IpNegotiator.State.{is_stable}
use connecttool_qt.IpNegotiator.Handlers as Negotiator
use connecttool_qt.Heartbeat.Methods as Heartbeats
use connecttool_qt.Bridge.State.{Bridge, RouteEntry, Host, Output, close_device}
use connecttool_qt.Bridge.Calls.{
  Method, then_do, broadcast_route_update, send_route_update_to, negotiator_calls, with_negotiator,
}

-- What becomes of the TUN device: it is not created, not opened, or open.
pub data Device : Type 0 where
  missing unopened opened : Device

-- "10.0.0.0" and "255.0.0.0"
abbrev default_subnet : List ℕ
default_subnet = b'1' ∷ b'0' ∷ b'.' ∷ b'0' ∷ b'.' ∷ b'0' ∷ b'.' ∷ b'0' ∷ []

abbrev default_subnet_mask : List ℕ
default_subnet_mask = b'2' ∷ b'5' ∷ b'5' ∷ b'.' ∷ b'0' ∷ b'.' ∷ b'0' ∷ b'.' ∷ b'0' ∷ []

abbrev or_default : List ℕ → List ℕ → List ℕ
or_default [] text = text
or_default (c ∷ cs) text = c ∷ cs

-- The loop of onUserLeft, as far as it concerns the two managers.
unfoldable pub release_routes : ℕ → Map ℕ RouteEntry → Bridge → Bridge
release_routes steam_id [] b = b
release_routes steam_id ((ip, e) ∷ table) b =
    let b' =
      if e.steam_id == steam_id
      then record b {
        heartbeats = Heartbeats.unregister_node b.heartbeats e.node_id;
        negotiator = Negotiator.mark_ip_unused ip b.negotiator;
      }
      else b in
    release_routes steam_id table b'

unfoldable pub drop_user : ℕ → Bridge → Bridge
drop_user steam_id b = record (release_routes steam_id b.routing_table b) {
  routing_table = erase_if (λ e. e.1.steam_id == steam_id) b.routing_table;
}

unfoldable pub on_user_left : Host → ℕ → Method
on_user_left host steam_id b =
    let b' = drop_user steam_id b in
    if steam_id == host.my_steam_id
    then (
      record b' { running = false; heartbeats = Heartbeats.stop b'.heartbeats; local_ip = 0 },
      (if b.has_device then close_device ∷ [] else []),
    )
    else (b', [])

module _ (p : Platform) (host : Host) (now : ℕ) where
  unfoldable pub on_user_joined : ℕ → Method
  unfolding then_do
  on_user_joined steam_id b =
      if is_stable b.negotiator.state
      then then_do
          (negotiator_calls p host now (Negotiator.send_address_announce_to p b.negotiator steam_id)
            b)
          (λ b'. (b', send_route_update_to p steam_id b'))
      else (b, [])

  unfoldable pub rebroadcast_state : Method
  unfolding then_do
  rebroadcast_state b =
      if is_stable b.negotiator.state
      then then_do (negotiator_calls p host now (Negotiator.send_address_announce p b.negotiator) b)
          (λ b'. (b', broadcast_route_update p b'))
      else (b, [])

  unfoldable pub string_to_ip : List ℕ → ℕ
  string_to_ip text = elim (host.inet_pton text) [ some a ↦ p.ntohl a | none ↦ 0 ]

  -- The end of start: both managers get their callbacks, and the negotiation starts.
  unfoldable pub begin : Method
  begin b =
      let n = Negotiator.initialize p host.my_steam_id b.base_ip b.subnet_mask b.negotiator in
      let n' = Negotiator.set_success_callback true (Negotiator.set_send_callback true true n) in
      let h =
        Heartbeats.set_node_expired_callback true
          (Heartbeats.set_send_callback true b.heartbeats) in
      let started =
        with_negotiator p host now (Negotiator.start_negotiation p now n')
          (record b { heartbeats = h }) in
      (record (started.0) { running = true }, started.1)

  -- The part of start after the two resets; the result is what start returns.
  unfoldable pub open_device : Device → ℕ → ℕ → Bridge → Bool × Bridge × List Output
  open_device missing base mask b = (false, record b { has_device = false }, [])
  open_device unopened base mask b = (false, record b { has_device = true }, [])
  open_device opened base mask b =
      let based = record b { has_device = true; base_ip = base } in
      let begun = begin (record based { subnet_mask = mask }) in
      if base == 0 then (false, based, []) else (true, begun.0, begun.1)

  unfoldable pub start : Device → List ℕ → List ℕ → Bridge → Bool × Bridge × List Output
  start device virtual_subnet subnet_mask b =
      let cleared = record b {
        negotiator = Negotiator.reset b.negotiator;
        heartbeats = Heartbeats.reset now b.heartbeats;
      } in
      let base = string_to_ip (or_default virtual_subnet default_subnet) in
      let mask = string_to_ip (or_default subnet_mask default_subnet_mask) in
      if b.running then (false, b, []) else open_device device base mask cleared
