-- ===== src/Sessions/Leaving.antt =====
-- A peer that leaves, or whose session fails.
use connecttool_qt.Base.{ℕ, ◌≡◌, refl, Bool, true, Option, some, ◌==◌}
use connecttool_qt.Base.Map.{find, erase}
use connecttool_qt.Base.Key.{nat_key}
use connecttool_qt.Platform.{Platform}
use connecttool_qt.Bridge.State.{Bridge, Host}
use connecttool_qt.Bridge.Table.{IsTable, kept}
use connecttool_qt.Bridge.Lifecycle.{on_user_left}
use connecttool_qt.Bridge.Peers.{on_user_left_lem}
use connecttool_qt.Sessions.State.{has, Manager, then_do}
use connecttool_qt.Sessions.Peers.{host_of, on_bridge, settle, close_peer, remove_peer}

module _ (p : Platform) (host : Host) (signed_in : Bool) (now : ℕ) where
  -- The bridge after a known peer was removed.
  left : ℕ → Manager → Bridge → Bridge
  left peer m b = (on_user_left (host_of host (record m { peers = erase peer m.peers })) peer b).0

  bridge_after_left :
      (peer : ℕ) (m : Manager) (o : Option Bridge) (b : Bridge)
      → o ≡ some b
      → (on_bridge
          (on_user_left (host_of host (record m { peers = erase peer m.peers })) peer)
          o
          (record m { peers = erase peer m.peers })).0.bridge
        ≡ some (left peer m b)
  unfolding on_bridge settle left
  bridge_after_left peer m o b e = rw e refl

  remove_peer_bridge :
      (peer : ℕ) (m : Manager) (b : Bridge)
      → m.bridge ≡ some b
      → has peer m.peers ≡ true
      → (remove_peer p host signed_in now peer m).0.bridge ≡ some (left peer m b)
  unfolding remove_peer close_peer then_do
  remove_peer_bridge peer m b e h = rw h (bridge_after_left peer m m.bridge b e)

  -- When a known peer is removed, a bridge with a well-formed routing table loses exactly the
  -- routes of that peer.
  pub remove_peer_routes :
      (peer ip : ℕ) (m : Manager) (b : Bridge)
      → IsTable b.routing_table
      → m.bridge ≡ some b
      → has peer m.peers ≡ true
      → (b' : Bridge) × ((remove_peer p host signed_in now peer m).0.bridge ≡ some b')
        × (find ip b'.routing_table ≡ kept (λ e. e.1.steam_id == peer) ip (find ip b.routing_table))
  unfolding left
  remove_peer_routes peer ip m b v e h = (
    left peer m b,
    remove_peer_bridge peer m b e h,
    on_user_left_lem (host_of host (record m { peers = erase peer m.peers })) peer b ip v,
  )
