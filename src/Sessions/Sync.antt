-- ===== src/Sessions/Sync.antt =====
-- syncPeers against what it is for: to make the peers those that are wanted.
use connecttool_qt.Base.{ℕ, ◌≡◌, Bool, true, false, ◌&&◌, not, arith}
use connecttool_qt.Platform.{Platform}
use connecttool_qt.Bridge.State.{Host}
use connecttool_qt.Sessions.State.{Peers, has, Manager, then_do}
use connecttool_qt.Sessions.Peers.{is_own, sync_peers, add_missing}
use connecttool_qt.Sessions.Loops.{has-add_missing, has-remove_unwanted}

module _ (p : Platform) (host : Host) (signed_in : Bool) (now : ℕ) where
  -- The set that a sync is to reach.
  abbrev pub IsGoal : Peers → Peers → Type 0
  IsGoal desired peers =
      (peer : ℕ) → has peer peers ≡ has peer desired && not (is_own p host signed_in now peer)

  -- Of a manager that is ready and has not itself as a peer: after syncPeers the peers are exactly
  -- the users that are wanted, without itself.
  pub sync_peers-IsGoal :
      (desired : Peers) (m : Manager)
      → m.ready ≡ true
      → ((peer : ℕ) → is_own p host signed_in now peer ≡ true → has peer m.peers ≡ false)
      → IsGoal desired (sync_peers p host signed_in now desired m).0.peers
  unfolding sync_peers then_do
  sync_peers-IsGoal desired m r own peer = ground (
    arith,
    has-remove_unwanted p host signed_in now peer desired m.peers
        (add_missing p host signed_in now m.peers desired m).0,
    has-add_missing p host signed_in now peer m.peers desired m r,
    own peer,
  )
