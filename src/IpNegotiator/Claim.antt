-- ===== src/IpNegotiator/Claim.antt =====
-- When checkTimeout takes the candidate, and what it tells the peers.
use connecttool_qt.Base.{
  ℕ, ◌+◌, ◌≤◌, ◌<◌, ◌^◌, ◌≡◌, refl, List, [], ◌∷◌, ◌++◌, Bool, true, not, ◌&&◌, arith, map, keep_if,
  All, if◌then◌else◌,
}
use mathlib.Core.List.{append_assoc, append-nil}
use connecttool_qt.Platform.{Platform}
use connecttool_qt.NodeIdentity.Defs.{NodeId, has_priority}
use connecttool_qt.Protocol.Messages.{probe_timeout_ms, heartbeat_expiry_ms}
use connecttool_qt.IpNegotiator.State.{IpNegotiator, ConflictInfo, probing, is_probing}
use connecttool_qt.IpNegotiator.Handlers.{is_stale, arbitrate, claim, reselect, check_timeout}

-- The conflicts that count: those with a recent heartbeat.
abbrev pub live : ℕ → List ConflictInfo → List ConflictInfo
live now = keep_if λ c. not (is_stale now c)

-- The local node outranks every node of a list.
abbrev pub outranks_all : NodeId → List ConflictInfo → Bool
outranks_all id [] = true
outranks_all id (c ∷ cs) = has_priority id c.node_id && outranks_all id cs

abbrev pub senders : List ConflictInfo → List ℕ
senders = map λ c. c.sender_steam_id

arbitrate_decision :
    (now : ℕ) (id : NodeId) (cs : List ConflictInfo) (nodes : List ℕ)
    → (arbitrate now id cs nodes).0 ≡ outranks_all id (live now cs)
unfolding arbitrate
arbitrate_decision now id [] nodes = refl
arbitrate_decision now id (c ∷ cs) nodes = ground (
  arith,
  arbitrate_decision now id cs nodes,
  arbitrate_decision now id cs (nodes ++ c.sender_steam_id ∷ []),
)

arbitrate_nodes :
    (now : ℕ) (id : NodeId) (cs : List ConflictInfo) (nodes : List ℕ)
    → (arbitrate now id cs nodes).0 ≡ true
    → (arbitrate now id cs nodes).1 ≡ nodes ++ senders (live now cs)
unfolding arbitrate
arbitrate_nodes now id [] nodes h = rw append-nil
arbitrate_nodes now id (c ∷ cs) nodes h = ground (
  arith,
  arbitrate_nodes now id cs nodes,
  arbitrate_nodes now id cs (nodes ++ c.sender_steam_id ∷ []),
  append_assoc nodes (c.sender_steam_id ∷ []) (senders (live now cs)),
)

module _ (p : Platform) (now : ℕ) (s : IpNegotiator) (probes : s.state ≡ probing)
    (late : s.probe_start_time + probe_timeout_ms ≤ now) where
  abbrev cleared : IpNegotiator
  cleared = record s { collected_conflicts = [] }

  -- For a probing node whose timeout has passed, checkTimeout takes the candidate, with an order
  -- to release for every sender of a live conflict, exactly when the node outranks all conflicts
  -- that are not stale; otherwise it starts again with the next offset. The conflicts are cleared
  -- in both cases.
  pub check_timeout_lem : check_timeout p now s ≡ (
      if outranks_all s.local_node_id (live now s.collected_conflicts)
      then claim p cleared (senders (live now s.collected_conflicts))
      else reselect p now cleared)
  unfolding check_timeout is_probing
  check_timeout_lem = ground (
    arith,
    arbitrate_decision now s.local_node_id s.collected_conflicts [],
    arbitrate_nodes now s.local_node_id s.collected_conflicts [],
  )

-- A list of conflicts that are all stale: the stamps lie a heartbeat's expiry before the clock.
abbrev AllStale : ℕ → List ConflictInfo → Type 0
AllStale now cs =
    All (λ c. (c.last_heartbeat_ms < 2 ^ 63) × (c.last_heartbeat_ms + heartbeat_expiry_ms ≤ now)) cs

live-AllStale : (now : ℕ) (cs : List ConflictInfo) → AllStale now cs → live now cs ≡ []
unfolding is_stale
live-AllStale now [] h = refl
live-AllStale now (c ∷ cs) h = ground (arith, live-AllStale now cs h.1)

-- If the clock of a probing node is ahead of every time in the answers by the expiry of
-- heartbeats, then after the timeout it takes the candidate without an order to release, whatever
-- the IDs of those who hold the address.
pub check_timeout-AllStale :
    (p : Platform) (now : ℕ) (s : IpNegotiator)
    → s.state ≡ probing
    → s.probe_start_time + probe_timeout_ms ≤ now
    → AllStale now s.collected_conflicts
    → check_timeout p now s ≡ claim p (record s { collected_conflicts = [] }) []
check_timeout-AllStale p now s probes late stale =
    rw (check_timeout_lem p now s probes late, live-AllStale now s.collected_conflicts stale)
