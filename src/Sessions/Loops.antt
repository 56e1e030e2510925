-- ===== src/Sessions/Loops.antt =====
-- What the methods of the manager do to the set of peers, one by one.
use connecttool_qt.Base.{
  ℕ, ◌≡◌, refl, List, [], ◌∷◌, Bool, true, ◌&&◌, ◌||◌, not, Option, none, some, if◌then◌else◌, ◌==◌,
  ==_iff, arith,
}
use connecttool_qt.Base.Map.{find, assign, erase, find-assign, find-erase}
use connecttool_qt.Base.Key.{nat_key}
use connecttool_qt.Platform.{Platform}
use connecttool_qt.Bridge.State.{Bridge, Host}
use connecttool_qt.Bridge.Calls as Calls
use connecttool_qt.Sessions.State.{Peers, has, Manager, Call, then_do}
use connecttool_qt.Sessions.Peers.{
  on_bridge, settle, is_own, enter_peer, add_peer, close_peer, remove_peer, add_missing,
  remove_unwanted,
}

pub has-assign : (j k : ℕ) (s : Peers) → has j (assign k tt s) ≡ (k == j) || has j s
has-assign j k s = ground (arith, find-assign j k tt s)

pub has-erase : (j k : ℕ) (s : Peers) → has j (erase k s) ≡ not (k == j) && has j s
has-erase j k s = ground (arith, find-erase j k s)

pub on_bridge_peers :
    (f : Calls.Method) (o : Option Bridge) (m : Manager) → (on_bridge f o m).0.peers ≡ m.peers
unfolding on_bridge settle
on_bridge_peers f none m = refl
on_bridge_peers f (some b) m = refl

pub on_bridge_ready :
    (f : Calls.Method) (o : Option Bridge) (m : Manager) → (on_bridge f o m).0.ready ≡ m.ready
unfolding on_bridge settle
on_bridge_ready f none m = refl
on_bridge_ready f (some b) m = refl

module _ (p : Platform) (host : Host) (signed_in : Bool) (now : ℕ) where
  enter_peer_peers :
      (peer : ℕ) (m : Manager)
      → (enter_peer p host signed_in now peer m).0.peers ≡ assign peer tt m.peers
  unfolding enter_peer then_do
  enter_peer_peers peer m = on_bridge_peers _ _ _

  enter_peer_ready :
      (peer : ℕ) (m : Manager) → (enter_peer p host signed_in now peer m).0.ready ≡ m.ready
  unfolding enter_peer then_do
  enter_peer_ready peer m = on_bridge_ready _ _ _

  pub add_peer_peers :
      (peer : ℕ) (m : Manager)
      → (add_peer p host signed_in now peer m).0.peers ≡ (
          if m.ready && not (is_own p host signed_in now peer)
          then assign peer tt m.peers
          else m.peers)
  unfolding add_peer
  add_peer_peers peer m = ground (arith, enter_peer_peers peer m)

  pub add_peer_ready :
      (peer : ℕ) (m : Manager) → (add_peer p host signed_in now peer m).0.ready ≡ m.ready
  unfolding add_peer
  add_peer_ready peer m = ground (arith, enter_peer_ready peer m)

  pub close_peer_peers :
      (peer : ℕ) (m : Manager) → (close_peer p host signed_in now peer m).0.peers ≡ m.peers
  unfolding close_peer then_do
  close_peer_peers peer m = on_bridge_peers _ _ _

  pub close_peer_ready :
      (peer : ℕ) (m : Manager) → (close_peer p host signed_in now peer m).0.ready ≡ m.ready
  unfolding close_peer then_do
  close_peer_ready peer m = on_bridge_ready _ _ _

  pub has-remove_peer :
      (j peer : ℕ) (m : Manager)
      → has j (remove_peer p host signed_in now peer m).0.peers ≡ not (peer == j) && has j m.peers
  unfolding remove_peer
  has-remove_peer j peer m = ground (
    arith,
    close_peer_peers peer (record m { peers = erase peer m.peers }),
    has-erase j peer m.peers,
    ==_iff peer j,
  )

  -- A round of each loop.
  abbrev entered : Peers → ℕ → Manager → Manager × List Call
  entered current peer m =
      if has peer current then (m, []) else add_peer p host signed_in now peer m

  abbrev dropped : Peers → ℕ → Manager → Manager × List Call
  dropped desired peer m =
      if has peer desired then (m, []) else remove_peer p host signed_in now peer m

  has-entered :
      (j peer : ℕ) (current : Peers) (m : Manager)
      → m.ready ≡ true
      → has j (entered current peer m).0.peers
        ≡ has j m.peers
          || ((peer == j) && not (has j current) && not (is_own p host signed_in now j))
  has-entered j peer current m r =
      ground (arith, add_peer_peers peer m, has-assign j peer m.peers, ==_iff peer j)

  entered_ready :
      (peer : ℕ) (current : Peers) (m : Manager) → (entered current peer m).0.ready ≡ m.ready
  entered_ready peer current m = ground (arith, add_peer_ready peer m)

  has-dropped :
      (j peer : ℕ) (desired : Peers) (m : Manager)
      → has j (dropped desired peer m).0.peers
        ≡ has j m.peers && not ((peer == j) && not (has j desired))
  has-dropped j peer desired m = ground (arith, has-remove_peer j peer m, ==_iff peer j)

  pub has-add_missing :
      (j : ℕ) (current desired : Peers) (m : Manager)
      → m.ready ≡ true
      → has j (add_missing p host signed_in now current desired m).0.peers
        ≡ has j m.peers
          || (has j desired && not (has j current) && not (is_own p host signed_in now j))
  unfolding add_missing then_do find
  has-add_missing j current [] m r = ground arith
  has-add_missing j current ((peer, _) ∷ desired) m r = grind (
    arith,
    has-add_missing j current desired (entered current peer m).0,
    has-entered j peer current m r,
    entered_ready peer current m,
    r,
  )

  pub has-remove_unwanted :
      (j : ℕ) (desired current : Peers) (m : Manager)
      → has j (remove_unwanted p host signed_in now desired current m).0.peers
        ≡ has j m.peers && not (has j current && not (has j desired))
  unfolding remove_unwanted then_do find
  has-remove_unwanted j desired [] m = ground arith
  has-remove_unwanted j desired ((peer, _) ∷ current) m = grind (
    arith,
    has-remove_unwanted j desired current (dropped desired peer m).0,
    has-dropped j peer desired m,
  )
