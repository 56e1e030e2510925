-- ===== src/Sessions/Invariant.antt =====
-- What holds of the manager and its bridge between two events.
use connecttool_qt.Base.{
  ℕ, ◌≡◌, ◌≤◌, refl, List, [], ◌∷◌, Bool, true, false, not, Option, none, some, if◌then◌else◌,
  if_cases, arith,
}
use connecttool_qt.Base.Map.{find, IsSorted, assign, erase, assign-IsSorted, erase-IsSorted}
use connecttool_qt.Base.Key.{nat_key}
use connecttool_qt.Platform.{Platform}
use connecttool_qt.Bridge.State.{Bridge, Host}
use connecttool_qt.Bridge.Calls as Calls
use connecttool_qt.Bridge.Lifecycle as Lifecycle
use connecttool_qt.Bridge.Table.{IsTable}
use connecttool_qt.Bridge.Preserve.{Keeps}
use connecttool_qt.Bridge.Invariant.{on_user_joined-Keeps, on_user_left-Keeps}
use connecttool_qt.Sessions.State.{
  Peers, has, Manager, Handler, min_poll_interval, max_poll_interval, Call, Method, then_do,
}
use connecttool_qt.Sessions.Peers.{
  host_of, on_bridge, settle, is_own, enter_peer, add_peer, close_peer, remove_peer, close_peers,
  clear_peers, add_missing, remove_unwanted, sync_peers,
}
use connecttool_qt.Sessions.Loops.{has-assign, has-erase}

abbrev pub Bridged : Option Bridge → Type 0
Bridged none = Unit
Bridged (some b) = IsTable b.routing_table

-- The interval is within its limits, and the timer and its wait are there while the handler runs.
pub record IsPaced (h : Handler) : Type 0 where
  pub not_less : min_poll_interval ≤ h.poll_interval
  pub not_more : h.poll_interval ≤ max_poll_interval
  pub timed : h.timer ≡ h.running
  pub pending : h.waiting ≡ h.running

abbrev pub Paced : Option Handler → Type 0
Paced none = Unit
Paced (some h) = IsPaced h

module _ (p : Platform) (host : Host) (signed_in : Bool) where
  -- The peers are in order, we are none of them, and the bridge's routing table is well-formed.
  pub record IsValid (m : Manager) : Type 0 where
    pub sorted : IsSorted m.peers
    pub not_own : (peer : ℕ) → is_own p host signed_in 0 peer ≡ true → has peer m.peers ≡ false
    pub bridged : Bridged m.bridge
    pub paced : Paced m.handler

  abbrev pub Valid : Manager × List Call → Type 0
  Valid r = IsValid r.0

  abbrev pub KeepsValid : Method → Type 0
  KeepsValid f = (m : Manager) → IsValid m → Valid (f m)

  pub then_do-Valid :
      (r : Manager × List Call) (f : Method) → Valid r → KeepsValid f → Valid (then_do r f)
  unfolding then_do
  then_do-Valid r f v k = k r.0 v

  pub on_bridge-Valid :
      (f : Calls.Method) (o : Option Bridge) (m : Manager)
      → Keeps f
      → Bridged o
      → IsValid m
      → Valid (on_bridge f o m)
  unfolding on_bridge settle
  on_bridge-Valid f none m k b v = v
  on_bridge-Valid f (some b) m k h v = record {
    sorted = v.sorted;
    not_own = v.not_own;
    bridged = k b h;
    paced = v.paced;
  }

  assign-IsValid :
      (peer : ℕ) (m : Manager)
      → is_own p host signed_in 0 peer ≡ false
      → IsValid m
      → IsValid (record m { peers = assign peer tt m.peers })
  assign-IsValid peer m e v = record {
    sorted = assign-IsSorted peer tt m.peers v.sorted;
    not_own = λ q own. ground (arith, has-assign q peer m.peers, v.not_own q);
    bridged = v.bridged;
    paced = v.paced;
  }

  erase-IsValid :
      (peer : ℕ) (m : Manager) → IsValid m → IsValid (record m { peers = erase peer m.peers })
  erase-IsValid peer m v = record {
    sorted = erase-IsSorted peer m.peers v.sorted;
    not_own = λ q own. ground (arith, has-erase q peer m.peers, v.not_own q);
    bridged = v.bridged;
    paced = v.paced;
  }

  empty-IsValid : (m : Manager) → IsValid m → IsValid (record m { peers = [] })
  unfolding find
  empty-IsValid m v = record {
    sorted = tt;
    not_own = λ q own. refl;
    bridged = v.bridged;
    paced = v.paced;
  }

  module _ (now : ℕ) where
    enter_peer-Valid :
        (peer : ℕ) (m : Manager)
        → is_own p host signed_in 0 peer ≡ false
        → IsValid m
        → Valid (enter_peer p host signed_in now peer m)
    unfolding enter_peer then_do
    enter_peer-Valid peer m e v =
        let m' = record m { peers = assign peer tt m.peers } in
        on_bridge-Valid (Lifecycle.on_user_joined p (host_of host m') now peer) m'.bridge m'
          (on_user_joined-Keeps p (host_of host m') now peer) v.bridged (assign-IsValid peer m e v)

    pub add_peer-Valid : (peer : ℕ) → KeepsValid (add_peer p host signed_in now peer)
    unfolding add_peer
    add_peer-Valid peer m v =
        if_cases Valid (not m.ready) {x = (m, [])} (λ _. v)
          (λ _.
            if_cases Valid (is_own p host signed_in now peer) {x = (m, [])} (λ _. v)
              (λ e. enter_peer-Valid peer m e v))

    close_peer-Valid : (peer : ℕ) → KeepsValid (close_peer p host signed_in now peer)
    unfolding close_peer then_do
    close_peer-Valid peer m v =
        on_bridge-Valid (Lifecycle.on_user_left (host_of host m) peer) m.bridge m
          (on_user_left-Keeps p (host_of host m) now peer) v.bridged v

    pub remove_peer-Valid : (peer : ℕ) → KeepsValid (remove_peer p host signed_in now peer)
    unfolding remove_peer
    remove_peer-Valid peer m v =
        if_cases Valid (has peer m.peers) {y = (m, [])}
          (λ _.
            close_peer-Valid peer (record m { peers = erase peer m.peers })
              (erase-IsValid peer m v))
          (λ _. v)

    close_peers-Valid : (peers : Peers) → KeepsValid (close_peers p host signed_in now peers)
    unfolding close_peers
    close_peers-Valid [] m v = v
    close_peers-Valid ((peer, _) ∷ rest) m v =
        then_do-Valid (close_peer p host signed_in now peer m)
          (close_peers p host signed_in now rest) (close_peer-Valid peer m v)
          (close_peers-Valid rest)

    pub clear_peers-Valid : KeepsValid (clear_peers p host signed_in now)
    unfolding clear_peers
    clear_peers-Valid m v =
        then_do-Valid (close_peers p host signed_in now m.peers m)
          (λ m'. (record m' { peers = [] }, [])) (close_peers-Valid m.peers m v) empty-IsValid

    add_missing-Valid :
        (current desired : Peers) → KeepsValid (add_missing p host signed_in now current desired)
    unfolding add_missing
    add_missing-Valid current [] m v = v
    add_missing-Valid current ((peer, _) ∷ desired) m v =
        then_do-Valid (if has peer current then (m, []) else add_peer p host signed_in now peer m)
          (add_missing p host signed_in now current desired)
          (if_cases Valid (has peer current) {x = (m, [])} (λ _. v) (λ _. add_peer-Valid peer m v))
          (add_missing-Valid current desired)

    remove_unwanted-Valid :
        (desired current : Peers)
        → KeepsValid (remove_unwanted p host signed_in now desired current)
    unfolding remove_unwanted
    remove_unwanted-Valid desired [] m v = v
    remove_unwanted-Valid desired ((peer, _) ∷ current) m v =
        then_do-Valid
          (if has peer desired then (m, []) else remove_peer p host signed_in now peer m)
          (remove_unwanted p host signed_in now desired current)
          (if_cases Valid (has peer desired) {x = (m, [])} (λ _. v)
            (λ _. remove_peer-Valid peer m v))
          (remove_unwanted-Valid desired current)

    pub sync_peers-Valid : (desired : Peers) → KeepsValid (sync_peers p host signed_in now desired)
    unfolding sync_peers
    sync_peers-Valid desired m v =
        then_do-Valid (add_missing p host signed_in now m.peers desired m)
          (remove_unwanted p host signed_in now desired m.peers)
          (add_missing-Valid m.peers desired m v) (remove_unwanted-Valid desired m.peers)
