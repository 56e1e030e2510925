-- ===== src/Multiplex/Queue/Order.antt =====
-- A flush keeps the order of each connection's packets, and loses none.
use connecttool_qt.Base.{◌≡◌, refl, List, [], ◌∷◌, ◌++◌, Option, none, some, if◌then◌else◌, arith}
use connecttool_qt.Base.Map.{Map}
use connecttool_qt.Base.Key.{list_key, list_same}
use connecttool_qt.Multiplex.Packet.{ClientId, Packet}
use connecttool_qt.Multiplex.State.{Steam}
use connecttool_qt.Multiplex.Queue.Flush.{queue_of, Round, drained, refused, served, Flushed}

-- The packets of one ID, in order.
abbrev pub packets_of : ClientId → List (ClientId × Packet) → List Packet
packets_of id [] = []
packets_of id ((j, packet) ∷ out) =
    if list_same j id then packet ∷ packets_of id out else packets_of id out

pub packets_of-append :
    (id : ClientId) (a b : List (ClientId × Packet))
    → packets_of id (a ++ b) ≡ packets_of id a ++ packets_of id b
packets_of-append id [] b = refl
packets_of-append id ((j, packet) ∷ a) b = ground (arith, packets_of-append id a b)

module _ (steam : Steam) (j : ClientId) where
  open steam use {World}

  -- What is taken in a round, before what still waits, is what waited.
  abbrev RoundKeeps : Map ClientId (List Packet) → Round World → Type 0
  RoundKeeps pending drained = Unit {0}
  RoundKeeps pending (refused m w) = queue_of j m.pending_packets ≡ queue_of j pending
  RoundKeeps pending (served m w out) =
      packets_of j out ++ queue_of j m.pending_packets ≡ queue_of j pending

  -- The same for what a loop leaves.
  abbrev ResultKeeps : Map ClientId (List Packet) → Option (Flushed steam) → Type 0
  ResultKeeps pending none = Unit {0}
  ResultKeeps pending (some r) =
      packets_of j r.passed ++ queue_of j r.manager.pending_packets ≡ queue_of j pending

  abbrev pub EndKeeps : Map ClientId (List Packet) → Option (Flushed steam × List ClientId) → Type 0
  EndKeeps pending none = Unit {0}
  EndKeeps pending (some (r, resumed)) =
      packets_of j r.passed ++ queue_of j r.manager.pending_packets ≡ queue_of j pending
