-- ===== src/Bridge/Peers.antt =====
-- Users that leave, and announcements of addresses.
use connecttool_qt.Base.{ℕ, ◌≡◌, List, some, ◌==◌, arith}
use connecttool_qt.Base.Map.{find}
use connecttool_qt.Base.Key.{nat_key}
use connecttool_qt.Platform.{Platform}
use connecttool_qt.Protocol.Messages.{decode_address_announce}
use connecttool_qt.Bridge.State.{Bridge, Host}
use connecttool_qt.Bridge.Routes.{update_route}
use connecttool_qt.Bridge.Calls.{then_do}
use connecttool_qt.Bridge.Receive.{enter_announced, receive_announce}
use connecttool_qt.Bridge.Lifecycle.{on_user_left, drop_user}
use connecttool_qt.Bridge.Table.{IsTable, find-erase_if_kept, find-put_route_own, kept}

-- The table after onUserLeft is that of drop_user.
on_user_left_table :
    (host : Host) (steam_id : ℕ) (b : Bridge)
    → (on_user_left host steam_id b).0.routing_table ≡ (drop_user steam_id b).routing_table
unfolding on_user_left
on_user_left_table host steam_id b = ground arith

-- In a well-formed table, when a user leaves, exactly the routes of that user go: an address keeps
-- its route if that is another user's, and has none otherwise.
pub on_user_left_lem :
    (host : Host) (steam_id : ℕ) (b : Bridge) (ip : ℕ)
    → IsTable b.routing_table
    → find ip (on_user_left host steam_id b).0.routing_table
      ≡ kept (λ e. e.1.steam_id == steam_id) ip (find ip b.routing_table)
unfolding drop_user
on_user_left_lem host steam_id b ip v =
    rw (on_user_left_table host steam_id b)
      (find-erase_if_kept (λ e. e.1.steam_id == steam_id) ip b.routing_table v.sorted)

module _ (p : Platform) (host : Host) (now : ℕ) where
  -- After an announcement the announced address is routed to its sender, whoever held it before,
  -- and also if it is our own.
  pub receive_announce_route :
      (payload : List ℕ) (sender : ℕ) (b : Bridge)
      → let announce = decode_address_announce payload in
        find
          (p.ntohl announce.ip_address)
          (receive_announce p host now payload sender b).0.routing_table
        ≡ some (record {
          steam_id = sender;
          ip_address = p.ntohl announce.ip_address;
          name = host.persona_name sender;
          is_local = sender == host.my_steam_id;
          node_id = announce.node_id;
        })
  unfolding receive_announce then_do enter_announced update_route
  receive_announce_route payload sender b =
      let announce = decode_address_announce payload in find-put_route_own _ _
